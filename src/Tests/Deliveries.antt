-- ===== src/Tests/Deliveries.antt =====
-- A merged pull request that GitHub delivers, and syncs of its author.
use gitbounty.Base.{◌≡◌, refl, true, false, none, some, [], ◌∷◌, map}
use gitbounty.Text.{Text, text, ascii, ascii_lower, before_first}
use gitbounty.PullRequest.{
  AuthoredPr, MergedPr, with_author_user_id, as_merged, is_self_merge, closed_issues, get,
}
use gitbounty.PullRequest.Lifecycle.{TrackedPullRequest, assess, eligibility, matching_bounty}
use gitbounty.IssueLinks.{find_closed_issues}
use gitbounty.Categorise.Wording.{categorise}
use gitbounty.Detect.{GitHub, detect_pull_requests, sync_merges, merge_of, tracked_repositories}
use gitbounty.Github.{Item, parse_any_item}
use gitbounty.Points.{Db}
use gitbounty.Bounties.Rows.{Board, Bounty, BountyStatus, points_only}
use gitbounty.Bounties.Offered.{published_bounties}
use gitbounty.Sync.{Tables, SyncRequest, Remote, fetched}
use gitbounty.Webhooks.Apply.{as_item, tracked_pull}
use gitbounty.Webhooks.Apply.Given.{Connected, Pull, App, found, ignores}
use gitbounty.Webhooks.Apply.Same.{tracked_pull-sync}

abbrev lower : Text → Text
lower = map ascii_lower

abbrev empty_db : Db
empty_db = record {
  users = record { id = 7; github_id = 42; github_login = text "mona"; avatar_url = none } ∷ [];
  next_user = 8;
  ledger = [];
  next_entry = 1;
  allocations = [];
  next_allocation = 1;
  merged_prs = [];
  now = 1000;
}

abbrev bounty_row : Bounty
bounty_row = record {
  id = 1;
  repo_full_name = text "acme/app";
  issue_number = 3;
  points = 40;
  set_by_user_id = 9;
  status = BountyStatus.published;
  reward_mode = points_only;
  created_at = 10;
  updated_at = 10;
}

abbrev board : Board
board = record {
  bounties = bounty_row ∷ [];
  next_bounty = 2;
  history = [];
  payment_terms = [];
  escrow_terms = [];
  repositories = [];
  next_repository = 1;
  issues = [];
  now = 1000;
}

abbrev tables : Tables
tables = record {
  points = empty_db;
  pull_requests = [];
  board = board;
  runs = record { rows = []; next = 1; now = 1000 };
}

abbrev connected : Connected
connected = record {
  github_id = 70;
  installation_id = 5;
  full_name = text "acme/app";
  active = true;
}

abbrev item : Item
item = record {
  id = 900;
  repository_url = none;
  number = 12;
  title = some (text "Fix #3");
  html_url = none;
  login = some (text "mona");
  label_names = [];
  body = none;
  draft = none;
  state = some (text "closed");
  is_pull_request = true;
  merged_at = some (text "today");
  created_at = none;
  updated_at = none;
  closed_at = none;
}

abbrev pull : Pull
pull = record {
  id = 900;
  merged = true;
  merged_at = some (text "today");
  author_id = some 42;
  base_repository_id = 70;
  item = item;
}

abbrev app : App (Unit {0})
app = record {
  github_app_id = text "1";
  parse_time = λ t. 500;
  installation_for = λ name. found 5;
  repository = λ name. ignores;
  issue = λ name number. ignores;
  pull = λ name number. found pull;
  changed_paths = λ name number. found (text "README.md" ∷ []);
  validate_cash = λ w repo p number. found none;
  reserve_cash = λ evidence p author w. found w;
}

abbrev pr : AuthoredPr
pr = record {
  github_pr_id = 900;
  repo_full_name = text "acme/app";
  number = 12;
  title = text "Fix #3";
  url = [];
  author_login = text "mona";
  labels = [];
  body = [];
  is_draft = false;
  is_closed = true;
  merged_at = some 500;
  created_at = none;
  updated_at = none;
  closed_at = none;
  author_user_id = none;
}

abbrev details : GitHub
details = record {
  changed_paths = λ name number. some (text "README.md" ∷ []);
  review_state = λ name number. none;
}

tracked : TrackedPullRequest
tracked =
    let bounties = published_bounties ascii lower true board in
    assess ascii (with_author_user_id 7 pr) none
      (categorise ascii [] (text "Fix #3") (text "README.md" ∷ [])) bounties
      (tracked_repositories bounties)

parsed : parse_any_item app.parse_time (as_item ascii lower app connected pull) ≡ some pr
unfolding parse_any_item
parsed = refl

delivered : tracked_pull ascii lower app connected pull (some 7) tables ≡ found tracked
unfolding tracked_pull tracked
delivered = refl

is_eligible : tracked.eligible ≡ true
unfolding tracked assess eligibility is_self_merge before_first matching_bounty closed_issues
    find_closed_issues get published_bounties
is_eligible = refl

tracked_pull-sync_example :
    let bounties = published_bounties ascii lower false board in
    let seen = detect_pull_requests ascii details true bounties true (some 7) (pr ∷ []) in
    (seen ≡ tracked ∷ [])
    × ((m : MergedPr) × (as_merged tracked.pr ≡ some m)
        × (sync_merges ascii seen
            ≡ some (record { merges = merge_of ascii tracked m ∷ []; self_merges_skipped = 0 })))
unfolding published_bounties
tracked_pull-sync_example =
    tracked_pull-sync ascii lower app connected pull 7 tables pr 500 (text "README.md" ∷ []) details
      true tracked parsed refl refl refl refl delivered is_eligible

abbrev remote : Remote
remote = record {
  authored = λ since. fetched (pr ∷ []);
  details = details;
  issues = λ name number. none;
}

abbrev request : SyncRequest
request = record {
  github_id = 42;
  github_login = text "mona";
  avatar_url = none;
  inspect_files = true;
  inspect_reviews = true;
  full = false;
}
