-- ===== src/Detect/Agreement.antt =====
-- What the website forecasts for a pull request, against what a sync awards for it.
use gitbounty.Base.{
  ℕ, ◌≡◌, refl, sym, ◌∙◌, Bool, true, false, Option, none, some, List, [], ◌∷◌, ◌+◌, ◌||◌, arith,
  is_some, All, All-keep_if-map, length, keep_if, map, Option-cases, Bool-cases, inl, inr,
}
use gitbounty.Text.{Unicode}
use gitbounty.PullRequest.{
  AuthoredPr, MergedPr, with_author_user_id, PublishedBounties, pull_request_state, as_merged,
  merged_form, is_self_merge,
}
use gitbounty.PullRequest.Lifecycle.{
  TrackedPullRequest, assess, expected_points, bounty_points, baseline_points,
}
use gitbounty.PullRequest.Eligible.{assess-eligible-eq}
use gitbounty.Detect.{
  DetectedMerge, DetectionResult, GitHub, eligible_points, total_found, detect_one, track_one,
  tag_author, detect_pull_requests, is_merged, merged, merge_of, tracked_merge, is_own_merge,
  build_merges, sync_merges,
}

expected_points-eq :
    (t : TrackedPullRequest)
    → t.eligible ≡ (is_some t.bounty || t.baseline_eligible)
    → expected_points t ≡ bounty_points t.bounty + baseline_points t.baseline_eligible
unfolding expected_points
expected_points-eq t h = ground arith

module _ (u : Unicode) (gh : GitHub) (inspect_files : Bool) (published : PublishedBounties) where
  tracked-points-eq :
      (inspect_reviews : Bool) (pr : AuthoredPr)
      → is_self_merge u pr.repo_full_name pr.author_login ≡ false
      → let t = track_one u gh inspect_files published inspect_reviews pr in
        expected_points t ≡ bounty_points t.bounty + baseline_points t.baseline_eligible
  tracked-points-eq inspect_reviews pr h =
      expected_points-eq (track_one u gh inspect_files published inspect_reviews pr)
        (unfold track_one in assess-eligible-eq u pr _ _ published _ h)

  detected-points-eq :
      (inspect_reviews : Bool) (pr : AuthoredPr) (at : ℕ)
      → let t = track_one u gh inspect_files published inspect_reviews pr in
        eligible_points (detect_one u gh inspect_files published (merged_form pr at))
        ≡ bounty_points t.bounty + baseline_points t.baseline_eligible
  unfolding eligible_points detect_one track_one assess
  detected-points-eq inspect_reviews pr at = refl

  -- For a merged pull request that is no self-merge, the points that the website forecasts are the
  -- points of the merge that detection awards.
  pub expected_points-eq-eligible_points :
      (inspect_reviews : Bool) (pr : AuthoredPr) (m : MergedPr)
      → as_merged pr ≡ some m
      → is_self_merge u pr.repo_full_name pr.author_login ≡ false
      → expected_points (track_one u gh inspect_files published inspect_reviews pr)
        ≡ eligible_points (detect_one u gh inspect_files published m)
  unfolding as_merged
  expected_points-eq-eligible_points inspect_reviews pr m e h = elim (Option-cases pr.merged_at) [
    | inl unmerged ↦ ground arith
    | inr (at, merged) ↦
        let same : m ≡ merged_form pr at = ground arith in
        rw same
          (tracked-points-eq inspect_reviews pr h ∙ sym (detected-points-eq inspect_reviews pr at))
  ]

  -- A tracked pull request in state `merged` has a merge to build.
  track_one-merged :
      (inspect_reviews : Bool) (pr : AuthoredPr)
      → let t = track_one u gh inspect_files published inspect_reviews pr in
        is_merged t.state ≡ true → is_some (tracked_merge u t) ≡ true
  unfolding track_one assess pull_request_state tracked_merge as_merged
  track_one-merged inspect_reviews pr h = ground arith

module _ (u : Unicode) where
  abbrev pub NotSelfMerge : DetectedMerge → Type 0
  NotSelfMerge m = is_self_merge u m.pr.repo_full_name m.pr.author_login ≡ false

  -- What `run_sync` builds of merged pull requests: one merge for each that is no self-merge.
  abbrev Built : List TrackedPullRequest → List DetectedMerge → Type 0
  Built ts ms =
      (build_merges u ts ≡ some ms)
      × (length ms + length (keep_if (is_own_merge u) ts) ≡ length ts)
      × All NotSelfMerge ms

  tracked_merge-NotSelfMerge :
      (t : TrackedPullRequest)
      → is_some (tracked_merge u t) ≡ true
      → is_own_merge u t ≡ false
      → (m : DetectedMerge) × (tracked_merge u t ≡ some m) × NotSelfMerge m
  unfolding tracked_merge as_merged
  tracked_merge-NotSelfMerge t h other = elim (Option-cases t.pr.merged_at) [
    | inl unmerged ↦ absurd (unmerged_not_some unmerged)
    | inr (at, e) ↦ (merge_of u t (merged_form t.pr at), ground arith, other)
  ]
    where
      unmerged_not_some : t.pr.merged_at ≡ none → ⊥
      unmerged_not_some e = ground arith

  build_merges-Built :
      (ts : List TrackedPullRequest)
      → All (λ t. is_some (tracked_merge u t) ≡ true) ts
      → (ms : List DetectedMerge) × Built ts ms
  unfolding build_merges
  build_merges-Built [] h = ([], (refl, refl, tt))
  build_merges-Built (t ∷ ts) h =
      let (ms, (e, n, ok)) = build_merges-Built ts h.1 in
      elim (Bool-cases (is_own_merge u t)) [
        | inl own ↦ (ms, (ground arith, ground arith, ok))
        | inr other ↦
            let (m, f, k) = tracked_merge-NotSelfMerge t h.0 other in
            (m ∷ ms, (ground arith, ground arith, (k, ok)))
      ]

-- A sync builds a result from whatever it tracked: every merged pull request is either a merge to
-- award or counted as a skipped self-merge, and no merge to award is a self-merge.
pub sync_merges-total_found :
    (u : Unicode) (gh : GitHub) (inspect_files inspect_reviews : Bool)
    (published : PublishedBounties) (author_user_id : Option ℕ) (fetched : List AuthoredPr)
    → let ts =
        detect_pull_requests u gh inspect_files published inspect_reviews author_user_id fetched in
      (r : DetectionResult) × (sync_merges u ts ≡ some r)
      × (total_found r ≡ length (merged ts))
      × All (NotSelfMerge u) r.merges
unfolding detect_pull_requests sync_merges
sync_merges-total_found u gh inspect_files inspect_reviews published author_user_id fetched =
    let track = track_one u gh inspect_files published inspect_reviews in
    let ts = map track (tag_author with_author_user_id author_user_id fetched) in
    let (ms, (e, n, ok)) = build_merges-Built u (merged ts) (
      All-keep_if-map _ track (λ t. is_merged t.state)
        (track_one-merged u gh inspect_files published inspect_reviews)
        (tag_author with_author_user_id author_user_id fetched)) in
    (
      record { merges = ms; self_merges_skipped = length (keep_if (is_own_merge u) (merged ts)) },
      rw e,
      n,
      ok,
    )
