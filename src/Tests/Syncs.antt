-- ===== src/Tests/Syncs.antt =====
-- One account that syncs, and a run that was interrupted.
use gitbounty.Base.{ℕ, ◌≡◌, ◌↔◌, refl, true, Option, none, some, [], ◌∷◌, ◌*◌, All, is_some, arith}
use gitbounty.Text.{Text, text}
use gitbounty.SyncRuns.{
  Runs, Summary, begin_run, succeed, fail, release_stale, running_of, is_stale, minute, new_run,
}
use gitbounty.SyncRuns.Exclusive.{IsExclusive, Reach, Reach-IsExclusive, begins, fails, start, next}
use gitbounty.SyncRuns.Released.{begin_run-exclusive, begin_run-release_stale}

abbrev empty : Runs
empty = record { rows = []; next = 1; now = 0 }

abbrev one_run : Runs
one_run = record { rows = new_run 7 empty ∷ []; next = 2; now = 0 }

begin_run-empty : begin_run 7 empty ≡ some (one_run, 1)
unfolding begin_run
begin_run-empty = refl

empty-IsExclusive : IsExclusive empty
empty-IsExclusive = record { one = λ u. omega arith; finished = tt }

abbrev failed_run : Runs
failed_run = fail 1 (text "GitHub could not be read") none one_run

run_and_fail : Reach empty failed_run
run_and_fail =
    next (next start (begins 7 begin_run-empty)) (fails 1 (text "GitHub could not be read") none)

Reach-IsExclusive_example : IsExclusive failed_run
Reach-IsExclusive_example = Reach-IsExclusive run_and_fail empty-IsExclusive

begin_run-exclusive_example :
    (begin_run 7 one_run ≡ none)
    × ((x : Summary) → is_some (begin_run 7 (succeed 1 x one_run)) ≡ true)
    × ((error : Text) (retry : Option ℕ)
        → is_some (begin_run 7 (fail 1 error retry one_run)) ≡ true)
begin_run-exclusive_example = begin_run-exclusive 7 empty one_run 1 begin_run-empty

abbrev interrupted : Runs
interrupted = record one_run { now = 31 * minute }

begin_run-release_stale_example :
    (is_some (begin_run 7 (release_stale 30 interrupted).0) ≡ true)
    ↔ All (λ r. running_of 7 r ≡ true → is_stale 30 (31 * minute) r ≡ true) (new_run 7 empty ∷ [])
begin_run-release_stale_example = begin_run-release_stale 7 30 interrupted

released : (release_stale 30 interrupted).1 ≡ 1
unfolding release_stale
released = refl
