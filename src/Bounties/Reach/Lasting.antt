-- ===== src/Bounties/Reach/Lasting.antt =====
-- A publication or a change of a bounty keeps the promises of the tables.
use gitbounty.Base.{
  ℕ, ◌≤◌, refl, Bool, true, false, not, Option, List, [], ◌∷◌, map, arith, is_some, Option-cases,
  inl, inr, length,
}
use gitbounty.Text.{Text, Unicode}
use gitbounty.PullRequest.{Category}
use gitbounty.Bounties.{upsert_bounty, find_bounty}
use gitbounty.Bounties.Rows.{done, ◌>>=◌, Board, BountyStatus, Change, Issue}
use gitbounty.Bounties.Then.{Then, Then-bind, Then-any, Then-map}
use gitbounty.Bounties.Access.{Repo, Read}
use gitbounty.Bounties.Selected.{
  Input, OpenIssue, requested_by_repo, upsert_issue, upsert_repository,
}
use gitbounty.Bounties.Publish.{
  choose_terms, with_change, published_change, publish_issue, publish_selected, publish_verified,
  verify, publish_bounties,
}
use gitbounty.Bounties.Publish.Stakes.{Settings, Publisher, store_terms}
use gitbounty.Bounties.Edit.{Update, changed_bounty, change_bounty, checked}
use gitbounty.Bounties.Promised.{IsPromised, Keeps, Kept, Keeps-refl, Keeps-trans, mapped-Promised}
use gitbounty.Bounties.Stored.{TermsFor, Upserted, upsert_bounty-Upserted, choose_terms-TermsFor}
use gitbounty.Bounties.NewTerms.{store_terms-Kept}

-- Tables that differ elsewhere.
abbrev moved : Board → Board → Board
moved t s = record t {
  bounties = s.bounties;
  next_bounty = s.next_bounty;
  payment_terms = s.payment_terms;
  escrow_terms = s.escrow_terms;
}

Kept-moved : (base : ℕ) (s t v : Board) → Kept base s v → Kept base s (moved t v)
Kept-moved base s t v (h, k) =
    (h, record { more = k.more; payments = k.payments; escrows = k.escrows })

upsert_issue-Kept :
    (base repository_id : ℕ) (repo : Repo) (issue : OpenIssue) (category : Category) (s : Board)
    → IsPromised s
    → Then (Kept base s) (upsert_issue repository_id repo issue category s)
unfolding upsert_issue
upsert_issue-Kept base repository_id repo issue category s h =
    let rest = λ (v : Board). Kept-moved base s v s (h, Keeps-refl base s) in ground (arith, rest)

upsert_repository-Kept :
    (base : ℕ) (repo : Repo) (s : Board)
    → IsPromised s
    → Then (λ r. Kept base s r.0) (upsert_repository repo s)
unfolding upsert_repository
upsert_repository-Kept base repo s h =
    let rest = λ (v : Board). Kept-moved base s v s (h, Keeps-refl base s) in ground (arith, rest)

module _ (u : Unicode) (g : Settings) (p : Publisher) (lower : Text → Text) (base : ℕ) where
  Upserted-Keeps :
      (is_new : Bool) (s : Board) (r : Board × ℕ) → Upserted is_new s r → Keeps base s r.0
  Upserted-Keeps is_new s r h = record {
    more = h.more;
    payments = λ i l. rw h.payments refl;
    escrows = λ i l. rw h.escrows refl;
  }

  publish_issue-Kept :
      (repository_id : ℕ) (repo : Repo) (item : Input) (issue : OpenIssue) (s : Board)
      → base ≤ s.next_bounty
      → IsPromised s
      → Then (Kept base s) (publish_issue u g p lower repository_id repo item issue s)
  unfolding publish_issue
  publish_issue-Kept repository_id repo item issue s l h =
      Then-bind (Kept base s) (Kept base s) (upsert_issue repository_id repo issue item.category s)
        _ (upsert_issue-Kept base repository_id repo issue item.category s h)
        (λ s₁ k₁.
          let before = find_bounty lower repo.full_name issue.number s₁.bounties in
          let is_new = not (is_some before) in
          Then-bind (Upserted is_new s₁) (Kept base s)
            (upsert_bounty repo.full_name issue.number item.points p.actor_id s₁) _
            (upsert_bounty-Upserted lower repo.full_name issue.number item.points p.actor_id s₁
              k₁.0)
            (λ r up.
              Then-bind (TermsFor is_new r.1) (Kept base s)
                (choose_terms u g p repo issue item is_new r.1 r.0) _
                (choose_terms-TermsFor u g p is_new r.1 repo issue item r.0)
                (λ terms f.
                  Then-bind (Kept base r.0) (Kept base s) (store_terms r.1 terms r.0) _
                    (store_terms-Kept base r.1 is_new terms r.0 up.promised f
                      (λ e. (omega (arith, (up.fresh e).0, k₁.1.more), (up.fresh e).1)))
                    (λ s₂ k₂.
                      Kept-moved base s
                        (with_change u g p (published_change u g p s₂ repo item issue before) s₂) s₂
                        (
                          k₂.0,
                          Keeps-trans base s r.0 s₂
                              (Keeps-trans base s s₁ r.0 k₁.1 (Upserted-Keeps is_new s₁ r up)) k₂.1,
                        )))))

  publish_selected-Kept :
      (repository_id : ℕ) (repo : Repo) (selected : List (Input × OpenIssue)) (s : Board)
      → base ≤ s.next_bounty
      → IsPromised s
      → Then (Kept base s) (publish_selected u g p lower repository_id repo selected s)
  unfolding publish_selected
  publish_selected-Kept repository_id repo [] s l h = (h, Keeps-refl base s)
  publish_selected-Kept repository_id repo ((item, issue) ∷ rest) s l h =
      Then-bind (Kept base s) (Kept base s)
        (publish_issue u g p lower repository_id repo item issue s) _
        (publish_issue-Kept repository_id repo item issue s l h)
        (λ s' k.
          Then-map (Kept base s') (Kept base s) _
            (λ v (h', k'). (h', Keeps-trans base s s' v k.1 k'))
            (publish_selected-Kept repository_id repo rest s' (omega (arith, k.1.more)) k.0))

  publish_verified-Kept :
      (verified : List (Repo × List (Input × OpenIssue))) (s : Board)
      → base ≤ s.next_bounty
      → IsPromised s
      → Then (Kept base s) (publish_verified u g p lower verified s)
  unfolding publish_verified
  publish_verified-Kept [] s l h = (h, Keeps-refl base s)
  publish_verified-Kept ((repo, selected) ∷ rest) s l h =
      Then-bind (λ r. Kept base s r.0) (Kept base s) (upsert_repository repo s) _
        (upsert_repository-Kept base repo s h)
        (λ r k.
          Then-bind (Kept base r.0) (Kept base s)
            (publish_selected u g p lower r.1 repo selected r.0) _
            (publish_selected-Kept r.1 repo selected r.0 (omega (arith, k.1.more)) k.0)
            (λ s' k'.
              Then-map (Kept base s') (Kept base s) _
                (λ v (h'', k'').
                  (h'', Keeps-trans base s s' v (Keeps-trans base s r.0 s' k.1 k'.1) k''))
                (publish_verified-Kept rest s' (omega (arith, k.1.more, k'.1.more)) k'.0)))

  pub publish_bounties-Kept :
      (get_repo : Text → Read (Option Repo)) (list_issues : Text → Read (List OpenIssue))
      (items : List Input) (s : Board)
      → base ≤ s.next_bounty
      → IsPromised s
      → Then (λ r. Kept base s r.0) (publish_bounties u g p lower get_repo list_issues items s)
  unfolding publish_bounties
  publish_bounties-Kept get_repo list_issues items s l h =
      let kept : Then (λ (r : Board × ℕ). Kept base s r.0)
          (verify u g p lower get_repo list_issues (requested_by_repo items []) >>= λ verified.
            publish_verified u g p lower verified s >>= λ s'. done (s', length items)) =
        Then-any _ (verify u g p lower get_repo list_issues (requested_by_repo items [])) _
          (λ verified.
            Then-bind (Kept base s) _ (publish_verified u g p lower verified s) _
              (publish_verified-Kept verified s l h) (λ s' k. k)) in
      ground (arith, kept)

pub checked-Then :
    (P : Board → Type 0) (unchanged allowed : Bool) (s : Board)
    → P s
    → Then P (checked unchanged allowed s)
unfolding checked
checked-Then P true allowed s h = tt
checked-Then P false false s h = tt
checked-Then P false true s h = h

pub change_bounty-Kept :
    (lower : Text → Text) (base actor_id : ℕ) (login name : Text) (number : ℕ) (r : Update)
    (s : Board)
    → IsPromised s
    → Then (Kept base s) (change_bounty lower actor_id login name number r s)
unfolding change_bounty
change_bounty-Kept lower base actor_id login name number r s h =
    elim (Option-cases (find_bounty lower name number s.bounties)) [
      | inl e ↦ rw (e, change_bounty) tt
      | inr (before, e) ↦ rw (e, change_bounty) (checked-Then (Kept base s) _ _ _ (edited _ _ _ _))
    ]
  where
    edited :
        (points : ℕ) (status : BountyStatus) (issues : List Issue) (history : List Change)
        → Kept base s (record s {
          bounties = map (changed_bounty lower s.now name number points status) s.bounties;
          issues = issues;
          history = history;
        })
    edited points status issues history = (
      mapped-Promised (changed_bounty lower s.now name number points status) s
          (λ b. (ground arith, ground arith)) h,
      record { more = omega arith; payments = λ i l. refl; escrows = λ i l. refl },
    )
