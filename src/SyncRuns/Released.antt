-- ===== src/SyncRuns/Released.antt =====
-- When a run may begin: beside another, and after `release_stale`.
use gitbounty.Base.{
  ℕ, suc, ◌≡◌, ◌↔◌, refl, true, false, Option, none, some, List, [], ◌∷◌, ◌++◌, arith, All,
  Bool-cases, inl, inr, map, any, is_some,
}
use gitbounty.Text.{Text}
use gitbounty.SyncRuns.{
  SyncRun, Runs, Summary, is_running, running_of, new_run, begin_run, update_row, as_succeeded,
  succeed, as_failed, fail, is_stale, close_stale, release_stale,
}

any-append_one :
    (user_id : ℕ) (xs : List SyncRun) (y : SyncRun)
    → any (running_of user_id) xs ≡ false
    → any (running_of user_id) (xs ++ y ∷ []) ≡ running_of user_id y
any-append_one user_id [] y h = ground arith
any-append_one user_id (x ∷ xs) y h = ground (arith, any-append_one user_id xs y)

any-update_row :
    (user_id i : ℕ) (f : SyncRun → SyncRun)
    → ((r : SyncRun) → is_running (f r).status ≡ false)
    → (rs : List SyncRun) → any (running_of user_id) rs ≡ false
    → any (running_of user_id) (map (update_row i f) rs) ≡ false
any-update_row user_id i f h [] e = refl
any-update_row user_id i f h (r ∷ rs) e = ground (arith, h r, any-update_row user_id i f h rs)

any-closed :
    (user_id i : ℕ) (f : SyncRun → SyncRun)
    → ((r : SyncRun) → is_running (f r).status ≡ false)
    → (rs : List SyncRun) (new : SyncRun) → new.id ≡ i
    → any (running_of user_id) rs ≡ false
    → any (running_of user_id) (map (update_row i f) (rs ++ new ∷ [])) ≡ false
any-closed user_id i f h [] new e idle = ground (arith, h new, e)
any-closed user_id i f h (r ∷ rs) new e idle =
    ground (arith, h r, any-closed user_id i f h rs new e)

module _ (user_id : ℕ) where
  begin_run-idle :
      (s : Runs) → any (running_of user_id) s.rows ≡ false → is_some (begin_run user_id s) ≡ true
  unfolding begin_run
  begin_run-idle s h = rw h refl

  begin_run-some :
      (s s' : Runs) (i : ℕ)
      → begin_run user_id s ≡ some (s', i)
      → (any (running_of user_id) s.rows ≡ false)
        × (i ≡ s.next)
        × (s' ≡ record s { rows = s.rows ++ new_run user_id s ∷ []; next = suc s.next })
  unfolding begin_run
  begin_run-some s s' i e = elim (Bool-cases (any (running_of user_id) s.rows)) [
    | inl busy ↦ absurd (ground arith)
    | inr idle ↦ (idle, ground arith, ground arith)
  ]

  abbrev with_run : Runs → Runs
  with_run s = record s { rows = s.rows ++ new_run user_id s ∷ []; next = suc s.next }

  begin_run-busy :
      (s : Runs) → any (running_of user_id) s.rows ≡ false → begin_run user_id (with_run s) ≡ none
  unfolding begin_run
  begin_run-busy s idle = ground (arith, any-append_one user_id s.rows (new_run user_id s) idle)

  -- A run that has begun keeps the account's next run from beginning, until it succeeds or fails.
  pub begin_run-exclusive :
      (s s' : Runs) (i : ℕ)
      → begin_run user_id s ≡ some (s', i)
      → (begin_run user_id s' ≡ none)
        × ((x : Summary) → is_some (begin_run user_id (succeed i x s')) ≡ true)
        × ((error : Text) (retry : Option ℕ)
            → is_some (begin_run user_id (fail i error retry s')) ≡ true)
  begin_run-exclusive s s' i e =
      let (idle, number, inserted) = begin_run-some s s' i e in
      rw (inserted, number)
        (
          begin_run-busy s idle,
          (λ x.
              unfold succeed in
              begin_run-idle _
                (any-closed user_id s.next (as_succeeded x s.now) (λ r. refl) s.rows _ refl idle)),
          (λ error retry.
              unfold fail in
              begin_run-idle _ (
                any-closed user_id s.next (as_failed error retry s.now) (λ r. refl) s.rows _ refl
                  idle)),
        )

  any-close_stale :
      (minutes now : ℕ) (rs : List SyncRun)
      → (any (running_of user_id) (map (close_stale minutes now) rs) ≡ false)
        ↔ All (λ r. running_of user_id r ≡ true → is_stale minutes now r ≡ true) rs
  any-close_stale minutes now [] = (λ h. tt, λ h. refl)
  any-close_stale minutes now (r ∷ rs) =
      let rest = any-close_stale minutes now rs in
      (λ h. ((λ e. ground arith), rest.0 (ground arith)), λ h. ground (arith, h.0, rest.1 h.1))

  -- After `release_stale` a run of the account may begin exactly when every run of the account in
  -- progress was stale.
  pub begin_run-release_stale :
      (minutes : ℕ) (s : Runs)
      → (is_some (begin_run user_id (release_stale minutes s).0) ≡ true)
        ↔ All (λ r. running_of user_id r ≡ true → is_stale minutes s.now r ≡ true) s.rows
  unfolding begin_run release_stale
  begin_run-release_stale minutes s =
      let stale = any-close_stale minutes s.now s.rows in
      (λ h. stale.0 (ground arith), λ h. rw (stale.1 h) refl)
