-- ===== src/SyncRuns/Exclusive.antt =====
-- The steps of the table of runs, and the constraints of its schema as an invariant.
use gitbounty.Base.{
  ℕ, suc, ◌≡◌, refl, subst, false, Option, some, List, [], ◌∷◌, ◌+◌, ◌≤◌, ◌++◌, arith, All,
  All-append, All-of_map, Bool-cases, inl, inr, map, any, is_some, not, if◌then◌else◌,
}
use gitbounty.Text.{Text}
use gitbounty.SyncRuns.{
  SyncRun, Runs, Summary, is_running, running_of, new_run, begin_run, update_row, as_succeeded,
  succeed, as_failed, fail, close_stale, release_stale,
}

-- The runs of an account that are in progress.
abbrev pub running_runs : ℕ → List SyncRun → ℕ
running_runs user_id [] = 0
running_runs user_id (r ∷ rs) = (if running_of user_id r then 1 else 0) + running_runs user_id rs

-- `sync_runs_one_running_per_user`, and `sync_runs_finished_check`.
pub record IsExclusive (s : Runs) : Type 0 where
  pub one : (user_id : ℕ) → running_runs user_id s.rows ≤ 1
  pub finished : All (λ r. is_running r.status ≡ not (is_some r.finished_at)) s.rows

-- What a request does to the table; the clock may move between requests.
pub data Step : Runs → Runs → Type 0 where
  begins : {s s' : Runs} {i : ℕ} (user_id : ℕ) → begin_run user_id s ≡ some (s', i) → Step s s'
  succeeds : {s : Runs} (run_id : ℕ) (x : Summary) → Step s (succeed run_id x s)
  fails :
      {s : Runs} (run_id : ℕ) (error : Text) (retry : Option ℕ) → Step s (fail run_id error retry s)
  releases : {s : Runs} (minutes : ℕ) → Step s (release_stale minutes s).0
  ticks : {s : Runs} (now : ℕ) → Step s (record s { now = now })

pub data Reach (s : Runs) : Runs → Type 0 where
  start : Reach s s
  next : {t u : Runs} → Reach s t → Step t u → Reach s u

running_runs-++ :
    (user_id : ℕ) (xs ys : List SyncRun)
    → running_runs user_id (xs ++ ys) ≡ running_runs user_id xs + running_runs user_id ys
running_runs-++ user_id [] ys = omega arith
running_runs-++ user_id (x ∷ xs) ys = omega (arith, running_runs-++ user_id xs ys)

any-running_runs :
    (user_id : ℕ) (rs : List SyncRun)
    → any (running_of user_id) rs ≡ false
    → running_runs user_id rs ≡ 0
any-running_runs user_id [] h = refl
any-running_runs user_id (r ∷ rs) h = ground (arith, any-running_runs user_id rs)

running_runs-any :
    (user_id : ℕ) (rs : List SyncRun)
    → running_runs user_id rs ≡ 0
    → any (running_of user_id) rs ≡ false
running_runs-any user_id [] h = refl
running_runs-any user_id (r ∷ rs) h = ground (arith, running_runs-any user_id rs)

-- An update that starts no run.
abbrev pub Closes : (SyncRun → SyncRun) → Type 0
Closes f =
    (user_id : ℕ) (r : SyncRun) → running_of user_id r ≡ false → running_of user_id (f r) ≡ false

module _ (f : SyncRun → SyncRun) (closes : Closes f) where
  running_runs-map :
      (user_id : ℕ) (rs : List SyncRun) → running_runs user_id (map f rs) ≤ running_runs user_id rs
  running_runs-map user_id [] = omega arith
  running_runs-map user_id (r ∷ rs) = ground (arith, running_runs-map user_id rs, closes user_id r)

update_row-Closes :
    (i : ℕ) (f : SyncRun → SyncRun)
    → ((r : SyncRun) → is_running (f r).status ≡ false)
    → Closes (update_row i f)
update_row-Closes i f h user_id r e = ground (arith, h r)

close_stale-Closes : (minutes now : ℕ) → Closes (close_stale minutes now)
close_stale-Closes minutes now user_id r e = ground arith

abbrev IsFinished : SyncRun → Type 0
IsFinished r = is_running r.status ≡ not (is_some r.finished_at)

update_row-IsFinished :
    (i : ℕ) (f : SyncRun → SyncRun)
    → ((r : SyncRun) → IsFinished (f r))
    → (r : SyncRun) → IsFinished r
    → IsFinished (update_row i f r)
update_row-IsFinished i f h r e = ground (arith, h r)

closing-IsExclusive :
    (f : SyncRun → SyncRun) (s : Runs)
    → Closes f
    → ((r : SyncRun) → IsFinished r → IsFinished (f r))
    → IsExclusive s
    → IsExclusive (record s { rows = map f s.rows })
closing-IsExclusive f s closes keeps h = record {
  one = λ u. omega (arith, running_runs-map f closes u s.rows, h.one u);
  finished = All-of_map _ f s.rows keeps h.finished;
}

begin_run-IsExclusive :
    (s s' : Runs) (i user_id : ℕ)
    → begin_run user_id s ≡ some (s', i)
    → IsExclusive s
    → IsExclusive s'
unfolding begin_run
begin_run-IsExclusive s s' i user_id e h = elim (Bool-cases (any (running_of user_id) s.rows)) [
  | inl busy ↦ absurd (ground arith)
  | inr idle ↦
      let new = new_run user_id s in
      let inserted : record s { rows = s.rows ++ new ∷ []; next = suc s.next } ≡ s' =
        ground arith in
      subst IsExclusive inserted (record {
        one = λ u.
            rw (running_runs-++ u s.rows (new ∷ []))
              (ground (arith, h.one u, any-running_runs user_id s.rows idle));
        finished = All-append IsFinished s.rows (new ∷ []) h.finished (refl, tt);
      })
]

Step-IsExclusive : {s t : Runs} → Step s t → IsExclusive s → IsExclusive t
unfolding succeed fail release_stale
Step-IsExclusive {s = s} {t = t} (begins {i = i} user_id e) h =
    begin_run-IsExclusive s t i user_id e h
Step-IsExclusive {s = s} (succeeds run_id x) h =
    closing-IsExclusive (update_row run_id (as_succeeded x s.now)) s
      (update_row-Closes run_id (as_succeeded x s.now) (λ r. refl))
      (update_row-IsFinished run_id (as_succeeded x s.now) (λ r. refl)) h
Step-IsExclusive {s = s} (fails run_id error retry) h =
    closing-IsExclusive (update_row run_id (as_failed error retry s.now)) s
      (update_row-Closes run_id (as_failed error retry s.now) (λ r. refl))
      (update_row-IsFinished run_id (as_failed error retry s.now) (λ r. refl)) h
Step-IsExclusive {s = s} (releases minutes) h =
    closing-IsExclusive (close_stale minutes s.now) s (close_stale-Closes minutes s.now)
      (λ r e. ground arith) h
Step-IsExclusive (ticks now) h = record { one = h.one; finished = h.finished }

-- From an exclusive table, whatever runs are begun, closed and released in whatever order, an account
-- has at most one run in progress, and a run has an end exactly when it is not in progress.
pub Reach-IsExclusive : {s t : Runs} → Reach s t → IsExclusive s → IsExclusive t
Reach-IsExclusive start h = h
Reach-IsExclusive (next r step) h = Step-IsExclusive step (Reach-IsExclusive r h)
