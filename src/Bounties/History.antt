-- ===== src/Bounties/History.antt =====
-- Publications and changes in any order, and the history.
use gitbounty.Base.{
  ℕ, ◌≡◌, refl, not, Option, none, some, List, [], ◌∷◌, ◌==◌, arith, is_some, All, All-of_map,
  Bool-cases, Option-cases, inl, inr, get_or_default,
}
use gitbounty.Text.{Text, Unicode}
use gitbounty.PullRequest.{Category}
use gitbounty.Bounties.{upsert_bounty, find_bounty, is_bounty_of}
use gitbounty.Bounties.Rows.{Board, Bounty, BountyStatus, Change}
use gitbounty.Bounties.Then.{Then, Then-bind, Then-any, Then-done}
use gitbounty.Bounties.Access.{Repo, Read, answered, failed, open_issues, authorized_repository}
use gitbounty.Bounties.Selected.{
  Input, OpenIssue, has_repeats, requested_by_repo, select_issues, upsert_issue, upsert_repository,
}
use gitbounty.Bounties.Publish.{
  choose_terms, published_change, publish_issue, publish_selected, publish_verified, verify,
  publish_bounties,
}
use gitbounty.Bounties.Publish.Stakes.{Settings, Publisher, store_terms}
use gitbounty.Bounties.Edit.{Update, changed_bounty, change_bounty, update_bounty}
use gitbounty.Bounties.Reach.{Step, Reach, publishes, changes, passes, start, next}
use gitbounty.Bounties.Reach.Lasting.{checked-Then}
use gitbounty.Bounties.Told.{Spelled, Row, Mid, Mid-told, upsert_bounty-Mid, store_terms-Mid}

module _ (lower spelling : Text → Text) where
  -- The rows are as the history tells.
  abbrev pub IsTold : Board → Type 0
  IsTold s = All (Row lower spelling s.history) s.bounties

  upsert_issue-IsTold :
      (repository_id : ℕ) (repo : Repo) (issue : OpenIssue) (category : Category) (s : Board)
      → IsTold s
      → Then IsTold (upsert_issue repository_id repo issue category s)
  unfolding upsert_issue
  upsert_issue-IsTold repository_id repo issue category s h = ground (arith, h)

  upsert_repository-IsTold :
      (repo : Repo) (s : Board) → IsTold s → Then (λ r. IsTold r.0) (upsert_repository repo s)
  unfolding upsert_repository
  upsert_repository-IsTold repo s h = ground (arith, h)

  module _ (u : Unicode) (g : Settings) (p : Publisher) where
    publish_issue-IsTold :
        (repository_id : ℕ) (repo : Repo) (item : Input) (issue : OpenIssue) (s : Board)
        → Spelled lower spelling repo.full_name
        → IsTold s
        → Then IsTold (publish_issue u g p lower repository_id repo item issue s)
    unfolding publish_issue
    publish_issue-IsTold repository_id repo item issue s n h =
        Then-bind IsTold IsTold (upsert_issue repository_id repo issue item.category s) _
          (upsert_issue-IsTold repository_id repo issue item.category s h)
          (λ s₁ h₁.
            let before = find_bounty lower repo.full_name issue.number s₁.bounties in
            let mid =
              Mid lower spelling s₁.history repo.full_name issue.number item.points
                BountyStatus.published in
            Then-bind (λ r. All mid r.0.bounties × (r.0.history ≡ s₁.history)) IsTold
              (upsert_bounty repo.full_name issue.number item.points p.actor_id s₁) _
              (upsert_bounty-Mid lower spelling repo.full_name issue.number item.points p.actor_id
                s₁ n h₁)
              (λ r (k, e).
                Then-any IsTold (choose_terms u g p repo issue item (not (is_some before)) r.1 r.0)
                  _
                  (λ terms.
                    Then-bind (λ s₂. All mid s₂.bounties × (s₂.history ≡ s₁.history)) IsTold
                      (store_terms r.1 terms r.0) _
                      (store_terms-Mid lower spelling s₁.history repo.full_name issue.number
                        item.points BountyStatus.published r.1 terms r.0 k e)
                      (λ s₂ (k₂, e₂).
                        Mid-told lower spelling s₁.history s₂.history repo.full_name issue.number
                          item.points BountyStatus.published
                          (published_change u g p s₂ repo item issue before) s₂.bounties e₂ refl
                          refl refl refl k₂))))

    publish_selected-IsTold :
        (repository_id : ℕ) (repo : Repo) (selected : List (Input × OpenIssue)) (s : Board)
        → Spelled lower spelling repo.full_name
        → IsTold s
        → Then IsTold (publish_selected u g p lower repository_id repo selected s)
    unfolding publish_selected
    publish_selected-IsTold repository_id repo [] s n h = h
    publish_selected-IsTold repository_id repo ((item, issue) ∷ rest) s n h =
        Then-bind IsTold IsTold (publish_issue u g p lower repository_id repo item issue s) _
          (publish_issue-IsTold repository_id repo item issue s n h)
          (λ s' h'. publish_selected-IsTold repository_id repo rest s' n h')

    abbrev NameSpelled : Repo × List (Input × OpenIssue) → Type 0
    NameSpelled v = Spelled lower spelling v.0.full_name

    publish_verified-IsTold :
        (verified : List (Repo × List (Input × OpenIssue))) (s : Board)
        → All NameSpelled verified
        → IsTold s
        → Then IsTold (publish_verified u g p lower verified s)
    unfolding publish_verified
    publish_verified-IsTold [] s n h = h
    publish_verified-IsTold ((repo, selected) ∷ rest) s n h =
        Then-bind (λ r. IsTold r.0) IsTold (upsert_repository repo s) _
          (upsert_repository-IsTold repo s h)
          (λ r k.
            Then-bind IsTold IsTold (publish_selected u g p lower r.1 repo selected r.0) _
              (publish_selected-IsTold r.1 repo selected r.0 n.0 k)
              (λ s' k'. publish_verified-IsTold rest s' n.1 k'))

    module _ (get_repo : Text → Read (Option Repo)) (list_issues : Text → Read (List OpenIssue))
        (spells : (t : Text) (r : Repo)
          → get_repo t ≡ answered (some r)
          → Spelled lower spelling r.full_name) where
      authorized-Spelled :
          (t : Text)
          → Then
              (λ r. Spelled lower spelling r.full_name)
              (authorized_repository u p.github_login (get_repo t))
      unfolding authorized_repository
      authorized-Spelled t = go (get_repo t) refl
        where
          go :
              (a : Read (Option Repo))
              → get_repo t ≡ a
              → Then
                  (λ r. Spelled lower spelling r.full_name)
                  (authorized_repository u p.github_login a)
          go (failed e) q = tt
          go (answered none) q = tt
          go (answered (some r)) q = let named = spells t r q in ground (arith, named)

      verify-Spelled :
          (requests : List (Text × List Input))
          → Then (All NameSpelled) (verify u g p lower get_repo list_issues requests)
      unfolding verify
      verify-Spelled [] = tt
      verify-Spelled ((t, inputs) ∷ rest) =
          Then-bind _ (All NameSpelled) (authorized_repository u p.github_login (get_repo t)) _
            (authorized-Spelled t)
            (λ repo n.
              Then-any (All NameSpelled) (open_issues (list_issues repo.full_name)) _ (λ opened.
                Then-any (All NameSpelled) (select_issues opened inputs) _ (λ selected.
                  Then-bind (All NameSpelled) (All NameSpelled)
                    (verify u g p lower get_repo list_issues rest) _ (verify-Spelled rest)
                    (λ verified k. (n, k)))))

      publish_bounties-IsTold :
          (items : List Input) (s : Board)
          → IsTold s
          → Then (λ r. IsTold r.0) (publish_bounties u g p lower get_repo list_issues items s)
      unfolding publish_bounties
      publish_bounties-IsTold items s h = elim (Bool-cases (has_repeats u items)) [
        | inl e ↦ rw e tt
        | inr e ↦ rw e (
            Then-bind (All NameSpelled) _
              (verify u g p lower get_repo list_issues (requested_by_repo items [])) _
              (verify-Spelled (requested_by_repo items []))
              (λ verified n.
                Then-bind IsTold _ (publish_verified u g p lower verified s) _
                  (publish_verified-IsTold verified s n h) (λ s' k. k)))
      ]

  -- A change of every row of an issue, however its name is written.
  changed-Mid :
      (h : List Change) (now : ℕ) (name : Text) (number points : ℕ) (status : BountyStatus)
      (b : Bounty)
      → Row lower spelling h b
      → Mid lower spelling h name number points status
          (changed_bounty lower now name number points status b)
  changed-Mid h now name number points status b (t, v) =
      elim (Bool-cases (is_bounty_of lower name number b)) [
        | inl e ↦ rw e (v, (λ r. (refl, refl)), λ r. absurd (ground (arith, e, r)))
        | inr e ↦ rw e (v, (λ r. absurd (ground (arith, e, r))), λ r. t)
      ]

  change_bounty-IsTold :
      (actor_id : ℕ) (login name : Text) (number : ℕ) (r : Update) (s : Board)
      → IsTold s
      → Then IsTold (change_bounty lower actor_id login name number r s)
  unfolding change_bounty
  change_bounty-IsTold actor_id login name number r s h =
      elim (Option-cases (find_bounty lower name number s.bounties)) [
        | inl e ↦ rw (e, change_bounty) tt
        | inr (before, e) ↦
            rw (e, change_bounty)
              (checked-Then IsTold _ _ _ (
                Mid-told lower spelling s.history s.history name number
                  (get_or_default r.points before.points) (get_or_default r.status before.status) _
                  _ refl refl refl refl refl
                  (All-of_map _ (changed_bounty lower s.now name number _ _) s.bounties
                    (λ b k. changed-Mid s.history s.now name number _ _ b k) h)))
      ]

  update_bounty-IsTold :
      (u : Unicode) (get_repo : Text → Read (Option Repo)) (actor_id : ℕ) (login name : Text)
      (number : ℕ) (r : Update) (s : Board)
      → IsTold s
      → Then IsTold (update_bounty lower u get_repo actor_id login name number r s)
  unfolding update_bounty
  update_bounty-IsTold u get_repo actor_id login name number r s h =
      elim (Bool-cases (number == 0)) [
        | inl e ↦ rw e tt
        | inr e ↦ rw e (
            Then-any IsTold (authorized_repository u login (get_repo name)) _
              (λ repo. change_bounty-IsTold actor_id login name number r s h))
      ]

  -- In its answers to a publication GitHub spells a repository in one way.
  abbrev pub Spells : {s s' : Board} → Step lower s s' → Type 0
  Spells (publishes u g p get_repo list_issues items e) =
      (t : Text) (r : Repo) → get_repo t ≡ answered (some r) → Spelled lower spelling r.full_name
  Spells (changes u get_repo actor_id login name number r e) = Unit
  Spells (passes later) = Unit

  abbrev pub AllSpell : {s s' : Board} → Reach lower s s' → Type 0
  AllSpell start = Unit
  AllSpell (next r step) = AllSpell r × Spells step

  Step-IsTold : {s s' : Board} (step : Step lower s s') → Spells step → IsTold s → IsTold s'
  Step-IsTold {s} (publishes u g p get_repo list_issues items e) n h =
      Then-done (λ r. IsTold r.0) e (publish_bounties-IsTold u g p get_repo list_issues n items s h)
  Step-IsTold {s} (changes u get_repo actor_id login name number r e) n h =
      Then-done IsTold e (update_bounty-IsTold u get_repo actor_id login name number r s h)
  Step-IsTold (passes later) n h = h

  -- Whatever is published and changed in whatever order, the last entry in the history of an issue
  -- tells the points and the status of its bounty, if GitHub spells the name of a repository in one
  -- way whenever it is published on.
  pub Reach-IsTold : {s s' : Board} (r : Reach lower s s') → AllSpell r → IsTold s → IsTold s'
  Reach-IsTold start n h = h
  Reach-IsTold (next r step) n h = Step-IsTold step n.1 (Reach-IsTold r n.0 h)
