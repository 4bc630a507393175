-- ===== src/SyncRuns.antt =====
-- features/points/sync_state.py over the table of migrations/0009_sync_runs.sql. The account of a
-- run exists: `run_sync` has just stored it.
pub mod Exclusive
pub mod Released
use gitbounty.Base.{
  ℕ, suc, ◌+◌, ◌*◌, Bool, true, false, Option, none, some, List, [], ◌∷◌, ◌++◌, ◌&&◌, ◌==◌, map,
  any, take, ltb, if◌then◌else◌,
}
use gitbounty.Text.{Text, text}

pub data Status : Type 0 where
  running succeeded failed : Status

abbrev pub is_running : Status → Bool
is_running Status.running = true
is_running _ = false

-- `SyncRun`, and the account of the row.
pub record SyncRun : Type 0 where
  pub id : ℕ
  pub user_id : ℕ
  pub status : Status
  pub started_at : ℕ
  pub finished_at : Option ℕ
  pub prs_seen : ℕ
  pub self_merges_skipped : ℕ
  pub newly_counted : ℕ
  pub points_awarded : ℕ
  pub cursor_merged_at : Option ℕ
  pub error : Option Text
  pub retry_after_seconds : Option ℕ

-- The table, the next number of its sequence, and `now()`.
pub record Runs : Type 0 where
  pub rows : List SyncRun
  pub next : ℕ
  pub now : ℕ

abbrev pub running_of : ℕ → SyncRun → Bool
running_of user_id r = r.user_id == user_id && is_running r.status

-- The row that `begin` inserts: the columns' defaults.
abbrev pub new_run : ℕ → Runs → SyncRun
new_run user_id s = record {
  id = s.next;
  user_id = user_id;
  status = running;
  started_at = s.now;
  finished_at = none;
  prs_seen = 0;
  self_merges_skipped = 0;
  newly_counted = 0;
  points_awarded = 0;
  cursor_merged_at = none;
  error = none;
  retry_after_seconds = none;
}

-- `begin`; `none` is `SyncAlreadyRunning`, by `sync_runs_one_running_per_user`.
unfoldable pub begin_run : ℕ → Runs → Option (Runs × ℕ)
begin_run user_id s =
    if any (running_of user_id) s.rows
    then none
    else some (record s { rows = s.rows ++ new_run user_id s ∷ []; next = suc s.next }, s.next)

-- `update sync_runs set … where id = $1`
abbrev update_row : ℕ → (SyncRun → SyncRun) → SyncRun → SyncRun
update_row run_id f r = if r.id == run_id then f r else r

-- The counts that `succeed` is given.
pub record Summary : Type 0 where
  pub prs_seen : ℕ
  pub self_merges_skipped : ℕ
  pub newly_counted : ℕ
  pub points_awarded : ℕ
  pub cursor_merged_at : Option ℕ

abbrev as_succeeded : Summary → ℕ → SyncRun → SyncRun
as_succeeded x now r = record r {
  status = succeeded;
  finished_at = some now;
  prs_seen = x.prs_seen;
  self_merges_skipped = x.self_merges_skipped;
  newly_counted = x.newly_counted;
  points_awarded = x.points_awarded;
  cursor_merged_at = x.cursor_merged_at;
  error = none;
  retry_after_seconds = none;
}

unfoldable pub succeed : ℕ → Summary → Runs → Runs
succeed run_id x s = record s { rows = map (update_row run_id (as_succeeded x s.now)) s.rows }

abbrev as_failed : Text → Option ℕ → ℕ → SyncRun → SyncRun
as_failed error retry_after_seconds now r = record r {
  status = failed;
  finished_at = some now;
  error = some (take 500 error);
  retry_after_seconds = retry_after_seconds;
}

unfoldable pub fail : ℕ → Text → Option ℕ → Runs → Runs
fail run_id error retry_after_seconds s = record s {
  rows = map (update_row run_id (as_failed error retry_after_seconds s.now)) s.rows;
}

-- The later of two rows by `started_at`; of equal ones the first.
abbrev later : SyncRun → Option SyncRun → SyncRun
later r none = r
later r (some q) = if ltb r.started_at q.started_at then q else r

unfoldable pub latest : ℕ → List SyncRun → Option SyncRun
latest user_id [] = none
latest user_id (r ∷ rs) =
    let rest = latest user_id rs in if r.user_id == user_id then some (later r rest) else rest

abbrev is_succeeded : Status → Bool
is_succeeded Status.succeeded = true
is_succeeded _ = false

-- The greater of two cursors, either of which may be null.
abbrev greater : Option ℕ → Option ℕ → Option ℕ
greater none b = b
greater (some a) none = some a
greater (some a) (some b) = some (if ltb a b then b else a)

unfoldable pub last_successful_cursor : ℕ → List SyncRun → Option ℕ
last_successful_cursor user_id [] = none
last_successful_cursor user_id (r ∷ rs) =
    let rest = last_successful_cursor user_id rs in
    if r.user_id == user_id && is_succeeded r.status then greater r.cursor_merged_at rest else rest

-- A minute on the clock.
abbrev pub minute : ℕ
minute = 60000000

-- `started_at < now() - make_interval(mins => …)` of a run in progress.
abbrev pub is_stale : ℕ → ℕ → SyncRun → Bool
is_stale minutes now r = is_running r.status && ltb (r.started_at + minutes * minute) now

abbrev close_stale : ℕ → ℕ → SyncRun → SyncRun
close_stale minutes now r =
    if is_stale minutes now r
    then record r {
      status = failed;
      finished_at = some now;
      error = some (text "The sync did not finish; it was interrupted.");
    }
    else r

abbrev count_stale : ℕ → ℕ → List SyncRun → ℕ
count_stale minutes now [] = 0
count_stale minutes now (r ∷ rs) =
    (if is_stale minutes now r then 1 else 0) + count_stale minutes now rs

unfoldable pub release_stale : ℕ → Runs → Runs × ℕ
release_stale minutes s =
    (record s { rows = map (close_stale minutes s.now) s.rows }, count_stale minutes s.now s.rows)
