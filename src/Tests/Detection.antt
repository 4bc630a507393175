-- ===== src/Tests/Detection.antt =====
-- One pull request that closes an issue with a bounty, and one that its author merged alone.
use gitbounty.Base.{
  ℕ, ◌≡◌, ◌≢◌, ◌⊎◌, ◌↔◌, refl, true, false, not, Option, none, some, List, [], ◌∷◌, is_some, All,
  length,
}
use gitbounty.Text.{Text, text, ascii, before_first}
use gitbounty.IssueLinks.{IssueReference}
use gitbounty.PullRequest.{
  AuthoredPr, ReviewState, PublishedBounty, PublishedBounties, backend, docs, is_open,
  is_self_merge, pull_request_state, merged_form, as_merged,
}
use gitbounty.PullRequest.Lifecycle.{
  TrackedPullRequest, Reason, matching_bounty, assess, expected_points,
}
use gitbounty.PullRequest.Eligible.{
  FirstMatch, matching_bounty_iff, assess-eligible_iff, assess-explains, is_open-pull_request_state,
}
use gitbounty.Detect.{
  GitHub, DetectionResult, eligible_points, total_found, detect_one, track_one,
  detect_pull_requests, merged, sync_merges,
}
use gitbounty.Detect.Agreement.{
  NotSelfMerge, expected_points-eq-eligible_points, sync_merges-total_found,
}

abbrev pr : Text → Option ℕ → AuthoredPr
pr author merged_at = record {
  github_pr_id = 11;
  repo_full_name = text "Acme/site";
  number = 5;
  title = text "Fix the login";
  url = text "https://github.com/Acme/site/pull/5";
  author_login = author;
  labels = [];
  body = text "Fixes #3";
  is_draft = false;
  is_closed = false;
  merged_at = merged_at;
  created_at = some 800;
  updated_at = none;
  closed_at = none;
  author_user_id = some 7;
}

abbrev bounty : PublishedBounty
bounty = record {
  repo_full_name = text "Acme/site";
  issue_number = 3;
  points = 40;
  category = backend;
  maintainer_user_id = some 2;
}

abbrev published : PublishedBounties
published = ((text "acme/site", 3), bounty) ∷ []

abbrev references : List IssueReference
references = record { repo_full_name = text "Acme/site"; number = 3 } ∷ []

abbrev answers : GitHub
answers = record {
  changed_paths = λ repo n. some (text "src/api/login.py" ∷ []);
  review_state = λ repo n. none;
}

abbrev approved : Option ReviewState
approved = some (record { approved = true; changes_requested = false; reviewed = true })

abbrev assessed : TrackedPullRequest
assessed = assess ascii (pr (text "mona") none) approved docs published (text "acme/site" ∷ [])

is_open-pull_request_state_example :
    is_open (pull_request_state (pr (text "mona") none) approved) ≡ true
is_open-pull_request_state_example = is_open-pull_request_state (pr (text "mona") none) approved

matching_bounty_iff_example :
    (matching_bounty ascii published (some 7) references ≡ some bounty)
    ↔ FirstMatch ascii published (some 7) references bounty
matching_bounty_iff_example = matching_bounty_iff ascii published (some 7) references bounty

assess-eligible_iff_example : (assessed.eligible ≡ true) ↔ (
    (is_self_merge ascii (text "Acme/site") (text "mona") ≡ false)
    × ((is_some assessed.bounty ≡ true) ⊎ (assessed.baseline_eligible ≡ true)))
assess-eligible_iff_example =
    assess-eligible_iff ascii (pr (text "mona") none) approved docs published
      (text "acme/site" ∷ [])

assess-explains_example :
    (is_some assessed.ineligible_reason ≡ not assessed.eligible)
    × (assessed.ineligible_reason ≢ some Reason.own_bounty)
assess-explains_example =
    assess-explains ascii (pr (text "mona") none) approved docs published (text "acme/site" ∷ [])

not_own : is_self_merge ascii (text "Acme/site") (text "mona") ≡ false
unfolding is_self_merge before_first
not_own = refl

-- A pull request of the owner of the repository is a self-merge, in whatever case.
own : is_self_merge ascii (text "Acme/site") (text "aCME") ≡ true
unfolding is_self_merge before_first
own = refl

as_merged_eq :
    as_merged (pr (text "mona") (some 900)) ≡ some (merged_form (pr (text "mona") (some 900)) 900)
unfolding as_merged
as_merged_eq = refl

expected_points-eq-eligible_points_example :
    expected_points (track_one ascii answers true published true (pr (text "mona") (some 900)))
    ≡ eligible_points
        (detect_one ascii answers true published (merged_form (pr (text "mona") (some 900)) 900))
expected_points-eq-eligible_points_example =
    expected_points-eq-eligible_points ascii answers true published true
      (pr (text "mona") (some 900)) (merged_form (pr (text "mona") (some 900)) 900) as_merged_eq
      not_own

abbrev fetched : List AuthoredPr
fetched = pr (text "mona") (some 900) ∷ pr (text "Acme") (some 901) ∷ pr (text "mona") none ∷ []

abbrev tracked : List TrackedPullRequest
tracked = detect_pull_requests ascii answers true published true (some 7) fetched

sync_merges-total_found_example :
    (r : DetectionResult) × (sync_merges ascii tracked ≡ some r)
    × (total_found r ≡ length (merged tracked))
    × All (NotSelfMerge ascii) r.merges
sync_merges-total_found_example =
    sync_merges-total_found ascii answers true true published (some 7) fetched
