-- ===== src/Detect.antt =====
-- features/merged_prs/service.py, and the part of `run_sync` in features/points/router.py that turns
-- tracked pull requests into merges to award. What GitHub answers is an argument.
pub mod Agreement
use gitbounty.Base.{
  ℕ, ◌+◌, ◌-◌, Bool, true, false, not, Option, none, some, List, [], ◌∷◌, ◌||◌, map, keep_if,
  is_some, length, if◌then◌else◌, get_or_default,
}
use gitbounty.Text.{Text, one_of, Unicode}
use gitbounty.IssueLinks.{IssueReference}
use gitbounty.PullRequest.{
  Category, MergedPr, AuthoredPr, PullRequestState, ReviewState, PublishedBounty, PublishedBounties,
  is_self_merge, closed_issues, as_merged, with_author_user_id, merged_with_author_user_id,
}
use gitbounty.PullRequest.Lifecycle.{
  TrackedPullRequest, CategorySource, bounty_points, baseline_points, matching_bounty,
  chosen_category, source_of, assess,
}
use gitbounty.Categorise.Wording.{categorise}

pub record DetectedMerge : Type 0 where
  pub pr : MergedPr
  pub inferred_category : Category
  pub closed_issues : List IssueReference
  pub bounty : Option PublishedBounty
  pub baseline_eligible : Bool

-- `DetectedMerge.category`, `category_source`, `eligible_points`
abbrev pub category : DetectedMerge → Category
category m = chosen_category m.bounty m.inferred_category

abbrev pub category_source : DetectedMerge → CategorySource
category_source m = source_of m.bounty

unfoldable pub eligible_points : DetectedMerge → ℕ
eligible_points m = bounty_points m.bounty + baseline_points m.baseline_eligible

pub record DetectionResult : Type 0 where
  pub merges : List DetectedMerge
  pub self_merges_skipped : ℕ

-- `DetectionResult.total_found`
abbrev pub total_found : DetectionResult → ℕ
total_found r = length r.merges + r.self_merges_skipped

-- What GitHub answers about one pull request; `none` is a request that failed.
pub record GitHub : Type 0 where
  pub changed_paths : Text → ℕ → Option (List Text)
  pub review_state : Text → ℕ → Option ReviewState

-- `if author_user_id is not None: …`
abbrev pub tag_author {ℓ} : {A : Type ℓ} → (ℕ → A → A) → Option ℕ → List A → List A
tag_author tag none prs = prs
tag_author tag (some user_id) prs = map (tag user_id) prs

-- `_changed_paths`: a failure is an empty list.
abbrev changed_paths : GitHub → Bool → Text → ℕ → List Text
changed_paths gh inspect_files repo number =
    if inspect_files then get_or_default (gh.changed_paths repo number) [] else []

-- `frozenset(repo for repo, _ in published)`
abbrev pub tracked_repositories : PublishedBounties → List Text
tracked_repositories published = map (λ e. e.0.0) published

module _ (u : Unicode) (gh : GitHub) (inspect_files : Bool) (published : PublishedBounties) where
  -- `_detect_one`
  unfoldable pub detect_one : MergedPr → DetectedMerge
  detect_one pr =
      let closed = closed_issues u pr.title pr.body pr.repo_full_name in
      record {
        pr = pr;
        inferred_category =
            categorise u pr.labels pr.title
              (changed_paths gh inspect_files pr.repo_full_name pr.number);
        closed_issues = closed;
        bounty = matching_bounty u published pr.author_user_id closed;
        baseline_eligible = one_of (u.casefold pr.repo_full_name) (tracked_repositories published);
      }

  -- `detect_merges`, after `fetch_merged_prs`.
  unfoldable pub detect_merges : Option ℕ → List MergedPr → DetectionResult
  detect_merges author_user_id fetched =
      let all_prs = tag_author merged_with_author_user_id author_user_id fetched in
      let countable =
        keep_if (λ pr. not (is_self_merge u pr.repo_full_name pr.author_login)) all_prs in
      record {
        merges = map detect_one countable;
        self_merges_skipped = length all_prs - length countable;
      }

  -- `_review_for`
  abbrev review_for : Bool → AuthoredPr → Option ReviewState
  review_for inspect_reviews pr =
      if not inspect_reviews || is_some pr.merged_at || pr.is_closed || pr.is_draft
      then none
      else gh.review_state pr.repo_full_name pr.number

  -- `one` of `detect_pull_requests`
  unfoldable pub track_one : Bool → AuthoredPr → TrackedPullRequest
  track_one inspect_reviews pr =
      assess u pr (review_for inspect_reviews pr)
        (categorise u pr.labels pr.title
          (changed_paths gh inspect_files pr.repo_full_name pr.number))
        published (tracked_repositories published)

  -- `detect_pull_requests`, after `fetch_authored_prs`.
  unfoldable pub detect_pull_requests : Bool → Option ℕ → List AuthoredPr → List TrackedPullRequest
  detect_pull_requests inspect_reviews author_user_id fetched =
      map (track_one inspect_reviews) (tag_author with_author_user_id author_user_id fetched)

abbrev pub is_merged : PullRequestState → Bool
is_merged PullRequestState.merged = true
is_merged _ = false

-- `LifecycleResult.merged`
abbrev pub merged : List TrackedPullRequest → List TrackedPullRequest
merged tracked = keep_if (λ t. is_merged t.state) tracked

-- The `DetectedMerge` that `run_sync` builds; `none` is the `ValueError` of `as_merged`.
abbrev pub merge_of : Unicode → TrackedPullRequest → MergedPr → DetectedMerge
merge_of u t pr = record {
  pr = pr;
  inferred_category = t.category;
  closed_issues = closed_issues u t.pr.title t.pr.body t.pr.repo_full_name;
  bounty = t.bounty;
  baseline_eligible = t.baseline_eligible;
}

unfoldable pub tracked_merge : Unicode → TrackedPullRequest → Option DetectedMerge
tracked_merge u t = elim (as_merged t.pr) [ none ↦ none | some pr ↦ some (merge_of u t pr) ]

abbrev pub is_own_merge : Unicode → TrackedPullRequest → Bool
is_own_merge u t = is_self_merge u t.pr.repo_full_name t.pr.author_login

abbrev cons_both : Option DetectedMerge → Option (List DetectedMerge) → Option (List DetectedMerge)
cons_both (some m) (some ms) = some (m ∷ ms)
cons_both _ _ = none

-- The merges of `run_sync`: self-merges are counted, all others built.
unfoldable pub build_merges : Unicode → List TrackedPullRequest → Option (List DetectedMerge)
build_merges u [] = some []
build_merges u (t ∷ ts) =
    let rest = build_merges u ts in
    if is_own_merge u t then rest else cons_both (tracked_merge u t) rest

abbrev with_skipped : ℕ → Option (List DetectedMerge) → Option DetectionResult
with_skipped n none = none
with_skipped n (some ms) = some (record { merges = ms; self_merges_skipped = n })

unfoldable pub sync_merges : Unicode → List TrackedPullRequest → Option DetectionResult
unfolding build_merges
sync_merges u tracked =
    with_skipped (length (keep_if (is_own_merge u) (merged tracked)))
      (build_merges u (merged tracked))
