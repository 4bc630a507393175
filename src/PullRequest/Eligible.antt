-- ===== src/PullRequest/Eligible.antt =====
-- What `assess` says of a pull request: its state, its bounty, and whether it is eligible.
use gitbounty.Base.{
  ℕ, ◌≡◌, ◌≢◌, ◌⊎◌, ◌↔◌, refl, Bool, true, false, not, Option, none, some, List, [], ◌∷◌, ◌&&◌,
  arith, is_some, Bool-cases, Option-cases, inl, inr, ◌||◌, if◌then◌else◌,
}
use gitbounty.Text.{Text, Unicode}
use gitbounty.IssueLinks.{IssueReference}
use gitbounty.PullRequest.{
  Category, AuthoredPr, ReviewState, PublishedBounty, PublishedBounties, is_open, is_self_merge,
  closed_issues, pull_request_state, get,
}
use gitbounty.PullRequest.Lifecycle.{
  Reason, TrackedPullRequest, is_own, reference_key, matching_bounty, eligibility, assess,
}

-- The state counts as open exactly for a pull request that is neither merged nor closed, whatever
-- the reviews say.
pub is_open-pull_request_state :
    (pr : AuthoredPr) (review : Option ReviewState)
    → is_open (pull_request_state pr review) ≡ (not (is_some pr.merged_at) && not pr.is_closed)
unfolding pull_request_state
is_open-pull_request_state pr review = ground arith

module _ (u : Unicode) (published : PublishedBounties) (author : Option ℕ) where
  -- The bounty of the first reference that has one which the author did not publish.
  pub data FirstMatch : List IssueReference → PublishedBounty → Type 0 where
    hit :
        {r : IssueReference} {rs : List IssueReference} {b : PublishedBounty}
        → get published (reference_key u r) ≡ some b
        → is_own author b ≡ false
        → FirstMatch (r ∷ rs) b
    skip :
        {r : IssueReference} {rs : List IssueReference} {b : PublishedBounty}
        → ((c : PublishedBounty)
            → get published (reference_key u r) ≡ some c
            → is_own author c ≡ true)
        → FirstMatch rs b
        → FirstMatch (r ∷ rs) b

  FirstMatch-matching_bounty :
      (rs : List IssueReference) (b : PublishedBounty)
      → matching_bounty u published author rs ≡ some b
      → FirstMatch rs b
  unfolding matching_bounty
  FirstMatch-matching_bounty [] b h = cc
  FirstMatch-matching_bounty (r ∷ rs) b h =
      elim (Option-cases (get published (reference_key u r))) [
        | inl e ↦ skip (λ c p. cc) (FirstMatch-matching_bounty rs b (ground arith))
        | inr (c, e) ↦ elim (Bool-cases (is_own author c)) [
          | inl own ↦ skip (λ d p. ground arith) (FirstMatch-matching_bounty rs b (ground arith))
          | inr other ↦ hit (ground arith) (ground arith)
        ]
      ]

  matching_bounty-FirstMatch :
      (rs : List IssueReference) (b : PublishedBounty)
      → FirstMatch rs b
      → matching_bounty u published author rs ≡ some b
  unfolding matching_bounty
  matching_bounty-FirstMatch [] b m = elim m [ ]
  matching_bounty-FirstMatch (r ∷ rs) b (hit e o) = ground arith
  matching_bounty-FirstMatch (r ∷ rs) b (skip own m) =
      elim (Option-cases (get published (reference_key u r))) [
        | inl e ↦ ground (arith, matching_bounty-FirstMatch rs b m)
        | inr (c, e) ↦ ground (arith, matching_bounty-FirstMatch rs b m, own c e)
      ]

  -- `_matching_bounty` returns a bounty exactly when it is that of the first closing reference to a
  -- published bounty that the author did not publish.
  pub matching_bounty_iff :
      (rs : List IssueReference) (b : PublishedBounty)
      → (matching_bounty u published author rs ≡ some b) ↔ FirstMatch rs b
  matching_bounty_iff rs b = (FirstMatch-matching_bounty rs b, matching_bounty-FirstMatch rs b)

  pub matching_bounty-not-own :
      (rs : List IssueReference) (b : PublishedBounty)
      → matching_bounty u published author rs ≡ some b
      → is_own author b ≡ false
  unfolding matching_bounty
  matching_bounty-not-own [] b h = cc
  matching_bounty-not-own (r ∷ rs) b h = ground (arith, matching_bounty-not-own rs b)

module _ (u : Unicode) (pr : AuthoredPr) where
  -- With a bounty that the author did not publish, the verdict is what the first two tests say.
  eligibility-eq :
      (bounty : Option PublishedBounty) (baseline : Bool)
      → ((b : PublishedBounty) → bounty ≡ some b → is_own pr.author_user_id b ≡ false)
      → eligibility u pr bounty baseline ≡ (
          if is_self_merge u pr.repo_full_name pr.author_login
          then (false, some Reason.own_repository)
          else if is_some bounty || baseline
          then (true, none)
          else (false, some (Reason.no_bounties pr.repo_full_name)))
  unfolding eligibility
  eligibility-eq none baseline other = ground arith
  eligibility-eq (some b) baseline other = ground (arith, other b refl)

  module _ (review : Option ReviewState) (inferred_category : Category)
      (published : PublishedBounties) (tracked_repositories : List Text) where
    abbrev result : TrackedPullRequest
    result = assess u pr review inferred_category published tracked_repositories

    abbrev verdict : Bool × Option Reason
    verdict = (result.eligible, result.ineligible_reason)

    result-verdict : verdict ≡ (
        if is_self_merge u pr.repo_full_name pr.author_login
        then (false, some Reason.own_repository)
        else if is_some result.bounty || result.baseline_eligible
        then (true, none)
        else (false, some (Reason.no_bounties pr.repo_full_name)))
    unfolding assess
    result-verdict = eligibility-eq result.bounty result.baseline_eligible (
        matching_bounty-not-own u published pr.author_user_id
          (closed_issues u pr.title pr.body pr.repo_full_name))

    -- A pull request is eligible exactly when it is no self-merge and has a bounty or a repository
    -- that takes part.
    pub assess-eligible_iff : (result.eligible ≡ true) ↔ (
        (is_self_merge u pr.repo_full_name pr.author_login ≡ false)
        × ((is_some result.bounty ≡ true) ⊎ (result.baseline_eligible ≡ true)))
    assess-eligible_iff = (λ h. ground (arith, result-verdict), λ h. ground (arith, result-verdict))

    -- What is not eligible has a reason and what is eligible has none. The reason is never that the
    -- author published the bounty: `_matching_bounty` has dropped such a bounty.
    pub assess-explains :
        (is_some result.ineligible_reason ≡ not result.eligible)
        × (result.ineligible_reason ≢ some Reason.own_bounty)
    assess-explains = (ground (arith, result-verdict), λ h. ground (arith, result-verdict))

    pub assess-eligible-eq :
        is_self_merge u pr.repo_full_name pr.author_login ≡ false
        → result.eligible ≡ (is_some result.bounty || result.baseline_eligible)
    assess-eligible-eq h = ground (arith, result-verdict)
