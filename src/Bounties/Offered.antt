-- ===== src/Bounties/Offered.antt =====
-- `published_bounties` of features/points/store.py: what detection is offered of the tables.
use gitbounty.Base.{
  ℕ, ◌≡◌, refl, sym, ap, ◌∙◌, Bool, true, false, not, Option, none, some, List, [], ◌∷◌, ◌&&◌, ◌||◌,
  ◌==◌, map, arith, All, Bool-cases, Option-cases, inl, inr, ==_iff, if◌then◌else◌,
}
use gitbounty.Text.{Text, text_eq, text_eq_iff, Unicode}
use gitbounty.PullRequest.{PublishedBounty, PublishedBounties, bounty_key, get, put, same_key}
use gitbounty.Bounties.{mode_eq, is_bounty_of, find_bounty}
use gitbounty.Bounties.Rows.{done, Board, Bounty, BountyStatus, Change, Issue, escrow}
use gitbounty.Bounties.Then.{Then, Then-any, Then-done}
use gitbounty.Bounties.Reach.Lasting.{checked-Then}
use gitbounty.Bounties.Access.{Repo, Read, authorized_repository}
use gitbounty.Bounties.Edit.{
  Update, status_eq, category_of, changed_bounty, change_bounty, update_bounty,
}

-- `where ip.status = 'published' and ($1 or ip.reward_mode <> 'escrow')`
abbrev is_offered : Bool → Bounty → Bool
is_offered include_escrow b =
    status_eq b.status BountyStatus.published
    && (include_escrow || not (mode_eq b.reward_mode escrow))

module _ (u : Unicode) (lower : Text → Text) (include_escrow : Bool) where
  -- The row of the query, with the category of its issue.
  abbrev offer_of : Board → Bounty → PublishedBounty
  offer_of s b = record {
    repo_full_name = b.repo_full_name;
    issue_number = b.issue_number;
    points = b.points;
    category = category_of lower s.repositories b.repo_full_name b.issue_number s.issues;
    maintainer_user_id = some b.set_by_user_id;
  }

  unfoldable pub collect : Board → List Bounty → PublishedBounties → PublishedBounties
  unfolding put
  collect s [] found = found
  collect s (b ∷ bs) found =
      let offer = offer_of s b in
      let rest = collect s bs in
      if is_offered include_escrow b
      then rest (put (bounty_key u offer) offer found)
      else rest found

  unfoldable pub published_bounties : Board → PublishedBounties
  unfolding collect
  published_bounties s = collect s s.bounties []

  get-put_other :
      (j k : Text × ℕ) (b : PublishedBounty) (m : PublishedBounties)
      → same_key k j ≡ false
      → get (put k b m) j ≡ get m j
  unfolding get put
  get-put_other j k b [] h = ground arith
  get-put_other (s, n) (t, l) b (((v, i), c) ∷ m) h = elim (Bool-cases (same_key (v, i) (t, l))) [
    | inl e ↦
        let name : v ≡ t = (text_eq_iff v t).0 (ground arith) in
        let number : i ≡ l = (==_iff i l).0 (ground arith) in
        rw e (rw h (sym (rw (name, number) (rw h refl))))
    | inr e ↦
        rw e (
          ap (λ g. if same_key (v, i) (s, n) then some c else g)
            (get-put_other (s, n) (t, l) b m h))
  ]

  -- A key that no offered row has is not found.
  get-collect :
      (s : Board) (k : Text × ℕ) (bs : List Bounty) (found : PublishedBounties)
      → All
          (λ b.
            is_offered include_escrow b ≡ true → same_key (bounty_key u (offer_of s b)) k ≡ false)
          bs
      → get (collect s bs found) k ≡ get found k
  unfolding collect
  get-collect s k [] found h = refl
  get-collect s k (b ∷ bs) found h = elim (Bool-cases (is_offered include_escrow b)) [
    | inl e ↦ rw e (get-collect s k bs _ h.1 ∙ get-put_other k _ _ found (h.0 e))
    | inr e ↦ rw e (get-collect s k bs found h.1)
  ]

everywhere :
    {A B : Type 0} (Q : B → Type 0) (f : A → B) (xs : List A)
    → ((x : A) → Q (f x))
    → All Q (map f xs)
everywhere Q f [] h = tt
everywhere Q f (x ∷ xs) h = (h x, everywhere Q f xs h)

module _ (u : Unicode) (lower : Text → Text) (include_escrow : Bool)
    (one_spelling : (s t : Text) → u.casefold s ≡ u.casefold t → lower s ≡ lower t) where
  module _ (name : Text) (number : ℕ) (status : BountyStatus)
      (hidden : status_eq status BountyStatus.published ≡ false) where
    abbrev NotOffered : Board → Type 0
    NotOffered s =
        get (published_bounties u lower include_escrow s) (u.casefold name, number) ≡ none

    changed-key :
        (now points : ℕ) (b : Bounty)
        → let c = changed_bounty lower now name number points status b in
          is_offered include_escrow c ≡ true
          → same_key (u.casefold c.repo_full_name, c.issue_number) (u.casefold name, number) ≡ false
    changed-key now points b = elim (Bool-cases (is_bounty_of lower name number b)) [
      | inl e ↦ rw e (λ o. absurd (ground (arith, hidden)))
      | inr e ↦ rw e (λ o.
          elim (Bool-cases (text_eq (u.casefold b.repo_full_name) (u.casefold name))) [
            | inl same ↦
                let lowered = (text_eq_iff _ _).1 (one_spelling _ _ ((text_eq_iff _ _).0 same)) in
                ground arith
            | inr differs ↦ ground arith
          ])
    ]

    changed-NotOffered :
        (s : Board) (points : ℕ) (issues : List Issue) (history : List Change)
        → NotOffered (record s {
          bounties = map (changed_bounty lower s.now name number points status) s.bounties;
          issues = issues;
          history = history;
        })
    unfolding published_bounties get
    changed-NotOffered s points issues history =
        let after = record s {
          bounties = map (changed_bounty lower s.now name number points status) s.bounties;
          issues = issues;
          history = history;
        } in
        get-collect u lower include_escrow after (u.casefold name, number) after.bounties []
          (everywhere _ (changed_bounty lower s.now name number points status) s.bounties
            (changed-key s.now points))

    -- If names that Python folds into one are one for the database, a bounty that has just got a
    -- status other than published is not among the published bounties.
    pub update_bounty-NotOffered :
        (get_repo : Text → Read (Option Repo)) (actor_id : ℕ) (login : Text) (r : Update)
        (s s' : Board)
        → r.status ≡ some status
        → update_bounty lower u get_repo actor_id login name number r s ≡ done s'
        → NotOffered s'
    unfolding update_bounty change_bounty
    update_bounty-NotOffered get_repo actor_id login r s s' e h =
        Then-done NotOffered h (elim (Bool-cases (number == 0)) [
          | inl none_such ↦ rw none_such tt
          | inr given ↦ rw given (
              Then-any NotOffered (authorized_repository u login (get_repo name)) _
                (λ repo. changed))
        ])
      where
        changed : Then NotOffered (change_bounty lower actor_id login name number r s)
        changed = elim (Option-cases (find_bounty lower name number s.bounties)) [
          | inl f ↦ rw (f, change_bounty) tt
          | inr (before, f) ↦
              rw (f, change_bounty)
                (rw e (checked-Then NotOffered _ _ _ (changed-NotOffered s _ _ _)))
        ]
