-- ===== src/Bounties/Told.antt =====
-- The history of a bounty against its row.
use gitbounty.Base.{
  ℕ, ◌≡◌, refl, sym, ap, ◌∙◌, Bool, true, false, Option, none, some, List, [], ◌∷◌, ◌++◌, ◌&&◌,
  ◌==◌, any, map, arith, All, All-append, All-map, All-of_map, any-false→All, Bool-cases, inl, inr,
  if◌then◌else◌,
}
use gitbounty.Text.{Text, text_eq, text_eq_iff, text_eq_sym}
use gitbounty.Bounties.{
  is_same_issue, new_bounty, published_again, points_are_allowed, upsert_bounty, with_mode,
  set_reward_mode, insert_payment_terms, insert_escrow_terms, is_bounty_of,
}
use gitbounty.Bounties.Rows.{Board, Bounty, BountyStatus, Change, RewardMode}
use gitbounty.Bounties.Then.{Then}
use gitbounty.Bounties.Publish.Stakes.{Terms, no_terms, new_payment, new_escrow, store_terms}

-- What the last entry of the history of an issue says: its points and its status.
abbrev pub last_told :
    (Text → Text) → Text → ℕ → List Change → Option (ℕ × BountyStatus) → Option (ℕ × BountyStatus)
last_told lower name number [] found = found
last_told lower name number (c ∷ cs) found = last_told lower name number cs (
    if text_eq (lower c.repo_full_name) (lower name) && c.issue_number == number
    then some (c.points_after, c.status_after)
    else found)

module _ (lower : Text → Text) where
  abbrev is_change_of : Text → ℕ → Change → Bool
  is_change_of name number c =
      text_eq (lower c.repo_full_name) (lower name) && c.issue_number == number

  last_told-snoc :
      (name : Text) (number : ℕ) (h : List Change) (c : Change) (found : Option (ℕ × BountyStatus))
      → last_told lower name number (h ++ c ∷ []) found ≡ (
          if is_change_of name number c
          then some (c.points_after, c.status_after)
          else last_told lower name number h found)
  last_told-snoc name number [] c found = refl
  last_told-snoc name number (d ∷ h) c found = last_told-snoc name number h c _

  abbrev pub Told : List Change → Bounty → Type 0
  Told h b = last_told lower b.repo_full_name b.issue_number h none ≡ some (b.points, b.status)

  module _ (spelling : Text → Text) where
    -- GitHub's way to write a name depends on the name that the database compares.
    abbrev pub Spelled : Text → Type 0
    Spelled name = spelling (lower name) ≡ name

    abbrev pub Row : List Change → Bounty → Type 0
    Row h b = Told h b × Spelled b.repo_full_name

    -- While an issue gets its points, its row has them already and the other rows are as told.
    abbrev pub Mid : List Change → Text → ℕ → ℕ → BountyStatus → Bounty → Type 0
    Mid h name number points status b =
        Spelled b.repo_full_name
        × (is_bounty_of lower name number b ≡ true → (b.points ≡ points) × (b.status ≡ status))
        × (is_bounty_of lower name number b ≡ false → Told h b)

    pub Mid-Row :
        (h : List Change) (name : Text) (number points : ℕ) (status : BountyStatus) (c : Change)
        (b : Bounty)
        → c.repo_full_name ≡ name
        → c.issue_number ≡ number
        → c.points_after ≡ points
        → c.status_after ≡ status
        → Mid h name number points status b
        → Row (h ++ c ∷ []) b
    Mid-Row h name number points status c b n i p t (s, now, before) =
        (last_told-snoc b.repo_full_name b.issue_number h c none ∙ told, s)
      where
        flip : is_change_of b.repo_full_name b.issue_number c ≡ is_bounty_of lower name number b
        flip = ground (arith, n, i, text_eq_sym (lower name) (lower b.repo_full_name))

        told :
            (if is_change_of b.repo_full_name b.issue_number c
              then some (c.points_after, c.status_after)
              else last_told lower b.repo_full_name b.issue_number h none)
            ≡ some (b.points, b.status)
        told = elim (Bool-cases (is_bounty_of lower name number b)) [
          | inl e ↦ let (bp, bs) = now e in rw (flip ∙ e) (rw (p, t, bp, bs) refl)
          | inr e ↦ rw (flip ∙ e) (before e)
        ]

    exact :
        (name : Text) (number : ℕ) (b : Bounty)
        → Spelled name
        → Spelled b.repo_full_name
        → is_bounty_of lower name number b ≡ true
        → is_same_issue name number b ≡ true
    exact name number b s t h =
        let lowered : lower b.repo_full_name ≡ lower name = (text_eq_iff _ _).0 (ground arith) in
        let one = (text_eq_iff b.repo_full_name name).1 (sym t ∙ ap spelling lowered ∙ s) in
        ground arith

    lowered_differs :
        (name : Text) (number : ℕ) (b : Bounty)
        → is_same_issue name number b ≡ true
        → is_bounty_of lower name number b ≡ false
        → ⊥
    lowered_differs name number b e r =
        let one : b.repo_full_name ≡ name = (text_eq_iff _ _).0 (ground arith) in
        let lowered = (text_eq_iff (lower b.repo_full_name) (lower name)).1 (ap lower one) in
        ground arith

    pub Mid-told :
        (h hist : List Change) (name : Text) (number points : ℕ) (status : BountyStatus)
        (c : Change) (bs : List Bounty)
        → hist ≡ h
        → c.repo_full_name ≡ name
        → c.issue_number ≡ number
        → c.points_after ≡ points
        → c.status_after ≡ status
        → All (Mid h name number points status) bs
        → All (Row (hist ++ c ∷ [])) bs
    Mid-told h hist name number points status c bs e n i p t k =
        rw e (All-map bs (λ b m. Mid-Row h name number points status c b n i p t m) k)

    -- The insert of a bounty whose name GitHub spells.
    published-Mid :
        (h : List Change) (name : Text) (number points actor now : ℕ) (b : Bounty)
        → Spelled name
        → Row h b
        → Mid h name number points BountyStatus.published
            (published_again now name number points actor b)
    published-Mid h name number points actor now b s (t, v) =
        elim (Bool-cases (is_same_issue name number b)) [
          | inl e ↦ rw e (v, (λ r. (refl, refl)), λ r. absurd (lowered_differs name number b e r))
          | inr e ↦ rw e (v, (λ r. absurd (ground (arith, e, exact name number b s v r))), λ r. t)
        ]

    pub upsert_bounty-Mid :
        (name : Text) (number points actor : ℕ) (s : Board)
        → Spelled name
        → All (Row s.history) s.bounties
        → Then
            (λ r.
              All (Mid s.history name number points BountyStatus.published) r.0.bounties
              × (r.0.history ≡ s.history))
            (upsert_bounty name number points actor s)
    unfolding upsert_bounty
    upsert_bounty-Mid name number points actor s n h =
        elim (Bool-cases (points_are_allowed points)) [
          | inr over ↦ rw over tt
          | inl allowed ↦ elim (Bool-cases (any (is_same_issue name number) s.bounties)) [
            | inl old ↦ rw allowed (
                rw old (
                  All-of_map _ (published_again s.now name number points actor) s.bounties
                      (λ b r. published-Mid s.history name number points actor s.now b n r) h,
                  refl,
                ))
            | inr new ↦ rw allowed (
                rw new (
                  All-append _ s.bounties (new_bounty s name number points actor ∷ [])
                      (others s.bounties h (any-false→All _ s.bounties new))
                      (
                        (
                          n,
                          (λ r. (refl, refl)),
                          λ r.
                              absurd
                                (ground (arith, r, (text_eq_iff (lower name) (lower name)).1 refl)),
                        ),
                        tt,
                      ),
                  refl,
                ))
          ]
        ]
      where
        others :
            (bs : List Bounty)
            → All (Row s.history) bs
            → All (λ b. is_same_issue name number b ≡ false) bs
            → All (Mid s.history name number points BountyStatus.published) bs
        others [] h k = tt
        others (b ∷ bs) ((t, v), h) (other, k) = (
          (v, (λ r. absurd (ground (arith, other, exact name number b n v r))), λ r. t),
          others bs h k,
        )

    -- Terms leave names, points and statuses as they are.
    with_mode-Mid :
        (h : List Change) (name : Text) (number points : ℕ) (status : BountyStatus) (id : ℕ)
        (m : RewardMode) (bs : List Bounty)
        → All (Mid h name number points status) bs
        → All (Mid h name number points status) (map (with_mode id m) bs)
    with_mode-Mid h name number points status id m bs k =
        All-of_map _ (with_mode id m) bs (λ b r. one (b.id == id) b r) k
      where
        one :
            (f : Bool) (b : Bounty)
            → Mid h name number points status b
            → Mid h name number points status (if f then record b { reward_mode = m } else b)
        one true b r = r
        one false b r = r

    pub store_terms-Mid :
        (h : List Change) (name : Text) (number points : ℕ) (status : BountyStatus) (id : ℕ)
        (terms : Terms) (s : Board)
        → All (Mid h name number points status) s.bounties
        → s.history ≡ h
        → Then
            (λ s'. All (Mid h name number points status) s'.bounties × (s'.history ≡ h))
            (store_terms id terms s)
    unfolding store_terms set_reward_mode insert_payment_terms insert_escrow_terms
    store_terms-Mid h name number points status id no_terms s k e = (k, e)
    store_terms-Mid h name number points status id (new_payment t) s k e =
        let mapped =
          with_mode-Mid h name number points status id RewardMode.legacy_payment s.bounties k in
        ground (arith, mapped, e)
    store_terms-Mid h name number points status id (new_escrow t) s k e =
        let mapped = with_mode-Mid h name number points status id RewardMode.escrow s.bounties k in
        ground (arith, mapped, e)
