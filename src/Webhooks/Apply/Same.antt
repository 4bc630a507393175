-- ===== src/Webhooks/Apply/Same.antt =====
-- The worker and the sync read one pull request alike.
use gitbounty.Base.{ℕ, ◌≡◌, ap, ◌∙◌, Bool, true, false, none, some, List, [], ◌∷◌, arith, subst}
use gitbounty.Text.{Text, Unicode}
use gitbounty.PullRequest.{
  AuthoredPr, MergedPr, PublishedBounties, with_author_user_id, as_merged, merged_form,
  is_self_merge, pull_request_state,
}
use gitbounty.PullRequest.Lifecycle.{TrackedPullRequest, assess, eligibility}
use gitbounty.Categorise.Wording.{categorise}
use gitbounty.Detect.{
  GitHub, detect_pull_requests, track_one, tracked_repositories, sync_merges, build_merges,
  tracked_merge, merge_of, is_merged, is_own_merge,
}
use gitbounty.Github.{parse_any_item}
use gitbounty.Bounties.Offered.{published_bounties}
use gitbounty.Sync.{Tables}
use gitbounty.Webhooks.Apply.{as_item, tracked_pull}
use gitbounty.Webhooks.Apply.Given.{Connected, Pull, App, found}

module _ {E : Type 0} (u : Unicode) (lower : Text → Text) (app : App E) where
  module _ (gh : GitHub) (bounties : PublishedBounties) (pr : AuthoredPr) (at : ℕ)
      (paths : List Text) (merged : pr.merged_at ≡ some at)
      (read : gh.changed_paths pr.repo_full_name pr.number ≡ some paths) where
    tracked : ℕ → TrackedPullRequest
    tracked user_id =
        assess u (with_author_user_id user_id pr) none (categorise u pr.labels pr.title paths)
          bounties (tracked_repositories bounties)

    detect-tracked :
        (user_id : ℕ) (inspect_reviews : Bool)
        → detect_pull_requests u gh true bounties inspect_reviews (some user_id) (pr ∷ [])
          ≡ tracked user_id ∷ []
    unfolding detect_pull_requests track_one tracked
    detect-tracked user_id inspect_reviews = ground (arith, merged, read)

    as_merged-tracked :
        (user_id : ℕ)
        → as_merged (tracked user_id).pr ≡ some (merged_form (with_author_user_id user_id pr) at)
    unfolding as_merged tracked assess
    as_merged-tracked user_id = ground (arith, merged)

    not_own :
        (user_id : ℕ)
        → (tracked user_id).eligible ≡ true
        → is_self_merge u pr.repo_full_name pr.author_login ≡ false
    unfolding tracked assess eligibility
    not_own user_id h = ground (arith, h)

    state-tracked : (user_id : ℕ) → is_merged (tracked user_id).state ≡ true
    unfolding tracked assess pull_request_state
    state-tracked user_id = ground (arith, merged)

    sync_merges-tracked :
        (user_id : ℕ)
        → (tracked user_id).eligible ≡ true
        → sync_merges u (tracked user_id ∷ [])
          ≡ some (record {
            merges =
                merge_of u (tracked user_id) (merged_form (with_author_user_id user_id pr) at) ∷ [];
            self_merges_skipped = 0;
          })
    unfolding sync_merges build_merges tracked_merge
    sync_merges-tracked user_id h =
        ground (arith, state-tracked user_id, own user_id h, as_merged-tracked user_id)
      where
        own : (n : ℕ) → (tracked n).eligible ≡ true → is_own_merge u (tracked n) ≡ false
        own n e = unfold tracked assess in not_own n e

  -- Let the sync of an author see one pull request that is merged, and a delivery of the same one
  -- find it eligible, with the same changed files and with no escrow bounty that only the delivery is
  -- offered. Then the sync tracks it exactly as the delivery does, and what the delivery records is
  -- exactly the merge that the sync records.
  pub tracked_pull-sync :
      (c : Connected) (pull : Pull) (user_id : ℕ) (w : Tables) (pr : AuthoredPr) (at : ℕ)
      (paths : List Text) (gh : GitHub) (inspect_reviews : Bool) (t : TrackedPullRequest)
      → parse_any_item app.parse_time (as_item u lower app c pull) ≡ some pr
      → pr.merged_at ≡ some at
      → app.changed_paths c.full_name pull.item.number ≡ found paths
      → gh.changed_paths pr.repo_full_name pr.number ≡ some paths
      → published_bounties u lower true w.board ≡ published_bounties u lower false w.board
      → tracked_pull u lower app c pull (some user_id) w ≡ found t
      → t.eligible ≡ true
      → let bounties = published_bounties u lower false w.board in
        let seen =
          detect_pull_requests u gh true bounties inspect_reviews (some user_id) (pr ∷ []) in
        (seen ≡ t ∷ [])
        × ((m : MergedPr) × (as_merged t.pr ≡ some m)
            × (sync_merges u seen
                ≡ some (record { merges = merge_of u t m ∷ []; self_merges_skipped = 0 })))
  unfolding tracked_pull
  tracked_pull-sync c pull user_id w pr at paths gh inspect_reviews t parsed merged files read same
        e h =
      subst Agrees one (
        detect-tracked gh bounties pr at paths merged read user_id inspect_reviews,
        (
          merged_form (with_author_user_id user_id pr) at,
          as_merged-tracked gh bounties pr at paths merged read user_id,
          ap (sync_merges u)
                (detect-tracked gh bounties pr at paths merged read user_id inspect_reviews)
              ∙ sync_merges-tracked gh bounties pr at paths merged read user_id eligible,
        ),
      )
    where
      bounties : PublishedBounties
      bounties = published_bounties u lower false w.board

      one : tracked gh bounties pr at paths merged read user_id ≡ t
      one = unfold tracked in ground (arith, parsed, files, same, e)

      eligible : (tracked gh bounties pr at paths merged read user_id).eligible ≡ true
      eligible = ap (λ (x : TrackedPullRequest). x.eligible) one ∙ h

      Agrees : TrackedPullRequest → Type 0
      Agrees x =
          (detect_pull_requests u gh true bounties inspect_reviews (some user_id) (pr ∷ [])
            ≡ x ∷ [])
          × ((m : MergedPr) × (as_merged x.pr ≡ some m)
              × (sync_merges u (
                    detect_pull_requests u gh true bounties inspect_reviews (some user_id)
                      (pr ∷ []))
                  ≡ some (record { merges = merge_of u x m ∷ []; self_merges_skipped = 0 })))
