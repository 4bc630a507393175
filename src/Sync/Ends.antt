-- ===== src/Sync/Ends.antt =====
-- How a sync ends.
use gitbounty.Base.{ℕ, ◌≡◌, true, Option, none, ◌⊎◌, is_some}
use gitbounty.Text.{Text, Unicode}
use gitbounty.Points.Result.{Result, Error, ok, err}
use gitbounty.Points.Record.{SaveOutcome}
use gitbounty.SyncRuns.{begin_run, succeed, fail}
use gitbounty.Sync.{
  Tables, Gathered, Fetched, fetched, rate_limited, rejected, unreadable, unexpected, write_sync,
  summary_of,
}

module _ (u : Unicode) (lower : Text → Text) where
  -- The tables of points, pull requests and bounties of one state are those of another.
  abbrev pub Untouched : Tables → Tables → Type 0
  Untouched w w' =
      (w'.points ≡ w.points) × (w'.pull_requests ≡ w.pull_requests) × (w'.board ≡ w.board)

  -- A run that has ended: its account may begin another.
  abbrev pub HasEnded : ℕ → Tables → Type 0
  HasEnded user_id w = is_some (begin_run user_id w.runs) ≡ true

  -- GitHub could not be read, with the seconds that it asks to wait, if any.
  abbrev pub IsUnread : Fetched Gathered → Option ℕ → Type 0
  IsUnread (rate_limited n) seconds = seconds ≡ n
  IsUnread rejected seconds = seconds ≡ none
  IsUnread (unreadable message) seconds = seconds ≡ none
  IsUnread unexpected seconds = seconds ≡ none
  IsUnread (fetched g) seconds = ⊥

  -- What a sync that has begun leaves.
  abbrev pub Outcome : ℕ → ℕ → Option ℕ → Tables → Fetched Gathered → Tables → Type 0
  Outcome user_id run_id since w read w' =
      ((error : Text) × (seconds : Option ℕ) × IsUnread read seconds
        × (w'.runs ≡ fail run_id error seconds w.runs)
        × HasEnded user_id w'
        × Untouched w w')
      ⊎ ((g : Gathered) × (read ≡ fetched g)
          × (((e : Error) × (write_sync u lower user_id g w ≡ err e) × (w' ≡ w))
              ⊎ ((saved : Tables × SaveOutcome) × (write_sync u lower user_id g w ≡ ok saved)
                  × HasEnded user_id w'
                  × Untouched saved.0 w'
                  × (w'.runs ≡ succeed run_id (summary_of u lower g saved.1 since) w.runs))))
