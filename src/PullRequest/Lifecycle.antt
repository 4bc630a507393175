-- ===== src/PullRequest/Lifecycle.antt =====
-- features/merged_prs/lifecycle.py: the bounty of a pull request, and whether it can earn anything.
use gitbounty.Base.{
  ℕ, ◌+◌, Bool, true, false, not, Option, none, some, List, [], ◌∷◌, ◌&&◌, ◌==◌, opt_eq, is_some,
  if◌then◌else◌,
}
use gitbounty.Text.{Text, one_of, Unicode}
use gitbounty.IssueLinks.{IssueReference}
use gitbounty.Rules.{baseline_award}
use gitbounty.PullRequest.{
  Category, AuthoredPr, PullRequestState, ReviewState, PublishedBounty, PublishedBounties,
  is_self_merge, closed_issues, pull_request_state, get,
}

pub data CategorySource : Type 0 where
  maintainer inferred : CategorySource

-- The sentences of `_eligibility`; the second one names the repository.
pub data Reason : Type 0 where
  own_repository own_bounty : Reason
  no_bounties : Text → Reason

pub record TrackedPullRequest : Type 0 where
  pub pr : AuthoredPr
  pub state : PullRequestState
  pub category : Category
  pub category_source : CategorySource
  pub bounty : Option PublishedBounty
  pub baseline_eligible : Bool
  pub eligible : Bool
  pub ineligible_reason : Option Reason

abbrev pub bounty_points : Option PublishedBounty → ℕ
bounty_points none = 0
bounty_points (some b) = b.points

abbrev pub baseline_points : Bool → ℕ
baseline_points eligible = if eligible then baseline_award else 0

-- `TrackedPullRequest.expected_points`
unfoldable pub expected_points : TrackedPullRequest → ℕ
expected_points t =
    if not t.eligible then 0 else bounty_points t.bounty + baseline_points t.baseline_eligible

-- `bounty.maintainer_user_id and bounty.maintainer_user_id == pr.author_user_id`
abbrev pub is_own : Option ℕ → PublishedBounty → Bool
is_own author b = elim b.maintainer_user_id [
  | none ↦ false
  | some m ↦ not (m == 0) && opt_eq (some m) author
]

abbrev pub reference_key : Unicode → IssueReference → Text × ℕ
reference_key u r = (u.casefold r.repo_full_name, r.number)

-- `_matching_bounty`, over the closing references of the pull request and its author.
unfoldable pub matching_bounty :
    Unicode → PublishedBounties → Option ℕ → List IssueReference → Option PublishedBounty
matching_bounty u published author [] = none
matching_bounty u published author (r ∷ rs) =
    let next = matching_bounty u published author rs in
    elim (get published (reference_key u r)) [
      | none ↦ next
      | some b ↦ if is_own author b then next else some b
    ]

-- `_eligibility`
unfoldable pub eligibility :
    Unicode → AuthoredPr → Option PublishedBounty → Bool → Bool × Option Reason
eligibility u pr bounty baseline_eligible =
    if is_self_merge u pr.repo_full_name pr.author_login
    then (false, some own_repository)
    else if not (is_some bounty) && not baseline_eligible
    then (false, some (no_bounties pr.repo_full_name))
    else elim bounty [
      | none ↦ (true, none)
      | some b ↦ if is_own pr.author_user_id b then (false, some own_bounty) else (true, none)
    ]

-- `bounty.category if bounty else inferred_category`, and `category_source`
abbrev pub chosen_category : Option PublishedBounty → Category → Category
chosen_category none inferred_category = inferred_category
chosen_category (some b) inferred_category = b.category

abbrev pub source_of : Option PublishedBounty → CategorySource
source_of none = inferred
source_of (some b) = maintainer

unfoldable pub assess :
    Unicode
    → AuthoredPr
    → Option ReviewState
    → Category
    → PublishedBounties
    → List Text
    → TrackedPullRequest
assess u pr review inferred_category published tracked_repositories =
    let bounty =
      matching_bounty u published pr.author_user_id
        (closed_issues u pr.title pr.body pr.repo_full_name) in
    let baseline_eligible = one_of (u.casefold pr.repo_full_name) tracked_repositories in
    let verdict = eligibility u pr bounty baseline_eligible in
    record {
      pr = pr;
      state = pull_request_state pr review;
      category = chosen_category bounty inferred_category;
      category_source = source_of bounty;
      bounty = bounty;
      baseline_eligible = baseline_eligible;
      eligible = verdict.0;
      ineligible_reason = verdict.1;
    }
