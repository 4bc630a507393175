-- ===== src/Tracked.antt =====
-- The cache of GitHub's pull requests: `record_pull_requests`, `_expected` and the reads of
-- features/points/store.py, over the table of migrations/0011_pull_requests.sql.
pub mod Recorded
use gitbounty.Base.{
  ℕ, ◌+◌, Bool, not, Option, none, some, List, [], ◌∷◌, ◌&&◌, ◌||◌, ◌==◌, length, is_some,
  if◌then◌else◌, get_or_default,
}
use gitbounty.Text.{Text}
use gitbounty.PullRequest.{Category, PullRequestState, PublishedBounty}
use gitbounty.PullRequest.Lifecycle.{
  CategorySource, Reason, TrackedPullRequest, bounty_points, baseline_points,
}
use gitbounty.Detect.{is_merged}
use gitbounty.Points.Result.{Result, ok, err, check_violation, ◌>>=◌}

-- A row of `pull_requests`.
pub record Row : Type 0 where
  pub user_id : ℕ
  pub github_pr_id : ℕ
  pub repo_full_name : Text
  pub number : ℕ
  pub title : Text
  pub url : Text
  pub author_login : Text
  pub state : PullRequestState
  pub is_draft : Bool
  pub category : Category
  pub category_source : CategorySource
  pub bounty_repo_full_name : Option Text
  pub bounty_issue_number : Option ℕ
  pub bounty_points : Option ℕ
  pub baseline_eligible : Bool
  pub eligible : Bool
  pub ineligible_reason : Option Reason
  pub pr_created_at : Option ℕ
  pub pr_updated_at : Option ℕ
  pub merged_at : Option ℕ
  pub closed_at : Option ℕ
  pub first_seen_at : ℕ
  pub last_synced_at : ℕ

abbrev repo_of : Option PublishedBounty → Option Text
repo_of none = none
repo_of (some b) = some b.repo_full_name

abbrev number_of : Option PublishedBounty → Option ℕ
number_of none = none
number_of (some b) = some b.issue_number

abbrev points_of : Option PublishedBounty → Option ℕ
points_of none = none
points_of (some b) = some b.points

-- The values that `record_pull_requests` inserts.
abbrev pub row_of : ℕ → ℕ → TrackedPullRequest → Row
row_of now user_id t = record {
  user_id = user_id;
  github_pr_id = t.pr.github_pr_id;
  repo_full_name = t.pr.repo_full_name;
  number = t.pr.number;
  title = t.pr.title;
  url = t.pr.url;
  author_login = t.pr.author_login;
  state = t.state;
  is_draft = t.pr.is_draft;
  category = t.category;
  category_source = t.category_source;
  bounty_repo_full_name = repo_of t.bounty;
  bounty_issue_number = number_of t.bounty;
  bounty_points = points_of t.bounty;
  baseline_eligible = t.baseline_eligible;
  eligible = t.eligible;
  ineligible_reason = t.ineligible_reason;
  pr_created_at = t.pr.created_at;
  pr_updated_at = t.pr.updated_at;
  merged_at = t.pr.merged_at;
  closed_at = t.pr.closed_at;
  first_seen_at = now;
  last_synced_at = now;
}

-- `pull_requests_merged_at_check` and `pull_requests_reason_check`.
unfoldable pub is_allowed : Row → Bool
is_allowed r =
    (if is_merged r.state then is_some r.merged_at else not (is_some r.merged_at))
    && (r.eligible || is_some r.ineligible_reason)

-- `unique (user_id, github_pr_id)`
abbrev pub same_pull_request : ℕ → ℕ → Row → Bool
same_pull_request user_id github_pr_id r = r.user_id == user_id && r.github_pr_id == github_pr_id

-- `on conflict … do update`: the columns that it does not set stay.
abbrev pub updated : Row → Row → Row
updated new old = record new {
  author_login = old.author_login;
  pr_created_at = old.pr_created_at;
  first_seen_at = old.first_seen_at;
}

unfoldable pub store_row : Row → List Row → List Row
store_row new [] = new ∷ []
store_row new (old ∷ rows) =
    if same_pull_request new.user_id new.github_pr_id old
    then updated new old ∷ rows
    else old ∷ store_row new rows

unfoldable pub record_pull_request : ℕ → ℕ → TrackedPullRequest → List Row → Result (List Row)
unfolding store_row is_allowed
record_pull_request now user_id t rows =
    if is_allowed (row_of now user_id t)
    then ok (store_row (row_of now user_id t) rows)
    else err check_violation

unfoldable pub record_rows : ℕ → ℕ → List TrackedPullRequest → List Row → Result (List Row)
unfolding record_pull_request
record_rows now user_id [] rows = ok rows
record_rows now user_id (t ∷ ts) rows = do
  rows' ← record_pull_request now user_id t rows
  record_rows now user_id ts rows'

-- `record_pull_requests`, and how many rows it says were written.
unfoldable pub record_pull_requests :
    ℕ → ℕ → List TrackedPullRequest → List Row → Result (List Row × ℕ)
unfolding record_rows
record_pull_requests now user_id tracked rows = do
  rows' ← record_rows now user_id tracked rows
  ok (rows', length tracked)

-- The row that the website shows of a pull request.
unfoldable pub find_row : ℕ → ℕ → List Row → Option Row
find_row user_id github_pr_id [] = none
find_row user_id github_pr_id (r ∷ rows) =
    if same_pull_request user_id github_pr_id r then some r else find_row user_id github_pr_id rows

-- `_expected`
unfoldable pub expected : Row → ℕ
expected r =
    if not r.eligible
    then 0
    else get_or_default r.bounty_points 0 + baseline_points r.baseline_eligible
