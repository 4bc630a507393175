-- ===== src/Sync.antt =====
-- `run_sync` and `start_sync` of features/points/router.py: what GitHub answers about a contributor,
-- and what it changes in the tables. What GitHub answers is an argument.
pub mod Ends
use gitbounty.Base.{
  ℕ, Bool, false, not, Option, none, some, List, [], ◌∷◌, ◌++◌, ltb, length, if◌then◌else◌,
}
use gitbounty.Text.{Text, text, Unicode}
use gitbounty.PullRequest.{AuthoredPr, PublishedBounties}
use gitbounty.PullRequest.Lifecycle.{TrackedPullRequest}
use gitbounty.Detect.{GitHub, DetectionResult, detect_pull_requests, sync_merges}
use gitbounty.Points.{Db}
use gitbounty.Points.Users.{upsert_user}
use gitbounty.Points.Result.{Result, ok, err, ◌>>=◌}
use gitbounty.Points.Record.{SaveOutcome, record_merges}
use gitbounty.Tracked.{Row, record_pull_requests}
use gitbounty.Bounties.Rows.{Board}
use gitbounty.Bounties.Offered.{published_bounties}
use gitbounty.SyncRuns.{
  SyncRun, Runs, Summary, is_running, begin_run, succeed, fail, latest, last_successful_cursor,
  release_stale,
}
use gitbounty.IssueState.{IssueState, Asked, reconcile_issues, store_issue_states}

-- The tables that a sync reads and writes.
pub record Tables : Type 0 where
  pub points : Db
  pub pull_requests : List Row
  pub board : Board
  pub runs : Runs

-- An account, and what the request asks for.
pub record SyncRequest : Type 0 where
  pub github_id : ℕ
  pub github_login : Text
  pub avatar_url : Option Text
  pub inspect_files : Bool
  pub inspect_reviews : Bool
  pub full : Bool

-- How reading from GitHub may end; `unreadable` holds the message of a `GitHubError`.
pub data Fetched (A : Type 0) : Type 0 where
  fetched : A → Fetched A
  rate_limited : Option ℕ → Fetched A
  rejected : Fetched A
  unreadable : Text → Fetched A
  unexpected : Fetched A

-- GitHub: the pull requests of the account since a time, what it says of one, and the issues.
pub record Remote : Type 0 where
  pub authored : Option ℕ → Fetched (List AuthoredPr)
  pub details : GitHub
  pub issues : Asked

-- What a sync has read.
pub record Gathered : Type 0 where
  pub tracked : List TrackedPullRequest
  pub result : DetectionResult
  pub states : List IssueState

-- `item.pr.updated_at or item.pr.merged_at`
abbrev seen_at : TrackedPullRequest → Option ℕ
seen_at t = elim t.pr.updated_at [ some at ↦ some at | none ↦ t.pr.merged_at ]

abbrev later_of : Option ℕ → Option ℕ → Option ℕ
later_of none b = b
later_of (some a) none = some a
later_of (some a) (some b) = some (if ltb a b then b else a)

-- `newest`
unfoldable pub newest : List TrackedPullRequest → Option ℕ
newest [] = none
newest (t ∷ ts) = later_of (seen_at t) (newest ts)

abbrev pub or_since : Option ℕ → Option ℕ → Option ℕ
or_since none since = since
or_since (some at) since = some at

abbrev gathered :
    List TrackedPullRequest → Option DetectionResult → Option (List IssueState) → Fetched Gathered
gathered tracked (some result) (some states) =
    fetched (record { tracked = tracked; result = result; states = states })
gathered tracked _ _ = unexpected

module _ (u : Unicode) (lower : Text → Text) where
  -- The `try` of `run_sync`.
  unfoldable pub gather : Remote → SyncRequest → ℕ → Option ℕ → PublishedBounties → Fetched Gathered
  unfolding detect_pull_requests sync_merges reconcile_issues
  gather remote q user_id since bounties = elim (remote.authored since) [
    | rate_limited seconds ↦ rate_limited seconds
    | rejected ↦ rejected
    | unreadable message ↦ unreadable message
    | unexpected ↦ unexpected
    | fetched prs ↦
        let tracked =
          detect_pull_requests u remote.details q.inspect_files bounties q.inspect_reviews
            (some user_id) prs in
        gathered tracked (sync_merges u tracked) (reconcile_issues remote.issues bounties)
  ]

  -- The transaction of `run_sync`: the cached pull requests, the awards and the issues together.
  unfoldable pub write_sync : ℕ → Gathered → Tables → Result (Tables × SaveOutcome)
  unfolding record_pull_requests record_merges store_issue_states
  write_sync user_id g w = do
    rows ← record_pull_requests w.points.now user_id g.tracked w.pull_requests
    saved ← record_merges lower (some user_id) none g.result.merges w.points
    ok (
      record w {
        points = saved.0;
        pull_requests = rows.0;
        board = store_issue_states lower g.states w.board;
      },
      saved.1,
    )

  unfoldable pub summary_of : Gathered → SaveOutcome → Option ℕ → Summary
  unfolding newest
  summary_of g out since = record {
    prs_seen = length g.tracked;
    self_merges_skipped = g.result.self_merges_skipped;
    newly_counted = out.newly_counted;
    points_awarded = out.points_awarded;
    cursor_merged_at = or_since (newest g.tracked) since;
  }

  -- The error of a statement leaves `run_sync`, with its run as it is.
  unfoldable pub finish : ℕ → Gathered → Option ℕ → Tables → Result (Tables × SaveOutcome) → Tables
  unfolding succeed summary_of
  finish run_id g since w (err e) = w
  finish run_id g since w (ok (w', out)) = record w' {
    runs = succeed run_id (summary_of g out since) w'.runs;
  }

  unfoldable pub fail_run : ℕ → Text → Option ℕ → Tables → Tables
  unfolding fail
  fail_run run_id error seconds w = record w { runs = fail run_id error seconds w.runs }

  unfoldable pub end_sync : ℕ → ℕ → Option ℕ → Tables → Fetched Gathered → Tables
  unfolding write_sync finish fail_run
  end_sync user_id run_id since w (rate_limited seconds) =
      fail_run run_id (text "GitHub's rate limit was reached before the sync finished.") seconds w
  end_sync user_id run_id since w rejected =
      fail_run run_id (text "GitHub rejected the stored token. Sign in again.") none w
  end_sync user_id run_id since w (unreadable message) =
      fail_run run_id (text "GitHub could not be read: " ++ message) none w
  end_sync user_id run_id since w unexpected =
      fail_run run_id (text "The sync failed unexpectedly. Try again.") none w
  end_sync user_id run_id since w (fetched g) = finish run_id g since w (write_sync user_id g w)

  unfoldable pub since_of : SyncRequest → ℕ → Runs → Option ℕ
  unfolding last_successful_cursor
  since_of q user_id runs = if q.full then none else last_successful_cursor user_id runs.rows

  -- A run that has begun.
  unfoldable pub continue_sync : Remote → SyncRequest → ℕ → ℕ → Tables → Tables
  unfolding gather published_bounties end_sync since_of
  continue_sync remote q user_id run_id w =
      let since = since_of q user_id w.runs in
      end_sync user_id run_id since w
        (gather remote q user_id since (published_bounties u lower false w.board))

  -- Half an hour, the default of `release_stale`.
  abbrev pub stale_minutes : ℕ
  stale_minutes = 30

  unfoldable pub with_account : SyncRequest → Db → Db × ℕ
  unfolding upsert_user
  with_account q db = upsert_user q.github_id q.github_login q.avatar_url db

  unfoldable pub before_run : SyncRequest → Tables → Tables
  unfolding release_stale with_account
  before_run q w = record w {
    points = (with_account q w.points).0;
    runs = (release_stale stale_minutes w.runs).0;
  }

  unfoldable pub run_sync : Remote → SyncRequest → Tables → Tables
  unfolding before_run with_account begin_run continue_sync
  run_sync remote q w =
      let user_id = (with_account q w.points).1 in
      let ready = before_run q w in
      elim (begin_run user_id ready.runs) [
        | none ↦ ready
        | some (runs, run_id) ↦ continue_sync remote q user_id run_id (record ready { runs = runs })
      ]

  abbrev is_in_progress : Option SyncRun → Bool
  is_in_progress none = false
  is_in_progress (some r) = is_running r.status

  -- `start_sync`: the tables, and whether a sync is put in the background.
  unfoldable pub start_sync : SyncRequest → Tables → Tables × Bool
  unfolding before_run with_account latest
  start_sync q w =
      let ready = before_run q w in
      (ready, not (is_in_progress (latest (with_account q w.points).1 ready.runs.rows)))
