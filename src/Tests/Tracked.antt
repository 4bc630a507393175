-- ===== src/Tests/Tracked.antt =====
-- A pull request that is tracked twice, first open and then merged.
use gitbounty.Base.{ℕ, ◌≡◌, false, Option, none, some, List, [], ◌∷◌, length}
use gitbounty.Text.{text, ascii}
use gitbounty.PullRequest.{AuthoredPr, PublishedBounty, PublishedBounties, backend}
use gitbounty.PullRequest.Lifecycle.{TrackedPullRequest}
use gitbounty.Detect.{GitHub, detect_pull_requests}
use gitbounty.Points.Result.{ok}
use gitbounty.Tracked.{Row, record_pull_requests}
use gitbounty.Tracked.Recorded.{Shown, record_pull_requests_lem}

abbrev pr : Option ℕ → AuthoredPr
pr merged_at = record {
  github_pr_id = 11;
  repo_full_name = text "Acme/site";
  number = 5;
  title = text "Fix the login";
  url = text "https://github.com/Acme/site/pull/5";
  author_login = text "mona";
  labels = [];
  body = text "Fixes #3";
  is_draft = false;
  is_closed = false;
  merged_at = merged_at;
  created_at = some 800;
  updated_at = none;
  closed_at = none;
  author_user_id = none;
}

abbrev bounty : PublishedBounty
bounty = record {
  repo_full_name = text "Acme/site";
  issue_number = 3;
  points = 40;
  category = backend;
  maintainer_user_id = some 2;
}

abbrev published : PublishedBounties
published = ((text "acme/site", 3), bounty) ∷ []

abbrev answers : GitHub
answers = record { changed_paths = λ repo n. none; review_state = λ repo n. none }

abbrev tracked : List TrackedPullRequest
tracked =
    detect_pull_requests ascii answers false published false (some 7) (pr none ∷ pr (some 900) ∷ [])

record_pull_requests_lem_example :
    (rows' : List Row) × (record_pull_requests 1000 7 tracked [] ≡ ok (rows', length tracked))
    × Shown 1000 7 tracked [] rows'
record_pull_requests_lem_example =
    record_pull_requests_lem 1000 7 ascii answers false false published
      (pr none ∷ pr (some 900) ∷ []) []
