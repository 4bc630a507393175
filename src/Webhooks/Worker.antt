-- ===== src/Webhooks/Worker.antt =====
-- The rounds of the worker: each settles the delivery that is due first.
use gitbounty.Base.{
  ℕ, zero, suc, ◌+◌, ◌*◌, ◌^◌, ◌≤◌, ◌<◌, ◌≡◌, refl, ap, true, false, none, some, List, [], ◌∷◌, min,
  ltb, map, arith, Any, Any-map, here, there, Bool-cases, Option-cases, inl, inr, if◌then◌else◌,
}
use gitbounty.Webhooks.{
  Delivery, Outcome, is_due, next_due, backoff, update, settle, process_one, run_worker, processed,
  ignored, raised,
}

backoff_table : (a : ℕ) → a ≤ 6 → (60 ≤ 60 * 2 ^ a) × (60 * 2 ^ a ≤ 3840)
backoff_table zero h = (omega arith, omega arith)
backoff_table (suc zero) h = (omega arith, omega arith)
backoff_table (suc (suc zero)) h = (omega arith, omega arith)
backoff_table (suc (suc (suc zero))) h = (omega arith, omega arith)
backoff_table (suc (suc (suc (suc zero)))) h = (omega arith, omega arith)
backoff_table (suc (suc (suc (suc (suc zero))))) h = (omega arith, omega arith)
backoff_table (suc (suc (suc (suc (suc (suc a)))))) h =
    let last : a ≡ 0 = omega arith in rw last (omega arith, omega arith)

-- A minute at least and an hour at most.
pub backoff_bounds : (attempts : ℕ) → (60 ≤ backoff attempts) × (backoff attempts ≤ 3600)
unfolding backoff
backoff_bounds attempts =
    let (lo, hi) = backoff_table (min attempts 6) (omega arith) in (omega (arith, lo), omega arith)

module _ {P : Type 0} where
  -- The deliveries that are due.
  abbrev pub due : ℕ → List (Delivery P) → ℕ
  due now [] = 0
  due now (d ∷ ds) = (if is_due now d then 1 else 0) + due now ds

  next_due-none : (now : ℕ) (ds : List (Delivery P)) → next_due now ds ≡ none → due now ds ≡ 0
  unfolding next_due
  next_due-none now [] h = refl
  next_due-none now (d ∷ ds) h = ground (arith, next_due-none now ds)

  -- The delivery that is taken is a row of the queue, and due.
  pub next_due-Any :
      (now : ℕ) (ds : List (Delivery P)) (d : Delivery P)
      → next_due now ds ≡ some d
      → Any (λ e. (e ≡ d) × (is_due now e ≡ true)) ds
  unfolding next_due
  next_due-Any now [] d h = absurd (ground arith)
  next_due-Any now (e ∷ ds) d h = elim (Bool-cases (is_due now e)) [
    | inr wait ↦ there (next_due-Any now ds d (ground arith))
    | inl ready ↦ elim (Option-cases (next_due now ds)) [
      | inl last ↦ here (ground arith, ready)
      | inr (r, found) ↦ elim (Bool-cases (ltb r.received_at e.received_at)) [
        | inl before ↦ there (next_due-Any now ds d (ground arith))
        | inr after ↦ here (ground arith, ready)
      ]
    ]
  ]

  module _ (now i : ℕ) (f : Delivery P → Delivery P)
      (settled : (x : Delivery P) → is_due now (f x) ≡ false) where
    due-update_le : (ds : List (Delivery P)) → due now (map (update i f) ds) ≤ due now ds
    due-update_le [] = omega arith
    due-update_le (d ∷ ds) = ground (arith, settled d, due-update_le ds)

    due-update_lt :
        (ds : List (Delivery P))
        → Any (λ e. (e.delivery_id ≡ i) × (is_due now e ≡ true)) ds
        → due now (map (update i f) ds) < due now ds
    due-update_lt [] m = elim m [ ]
    due-update_lt (d ∷ ds) (here h) = ground (arith, settled d, due-update_le ds)
    due-update_lt (d ∷ ds) (there m) = ground (arith, settled d, due-update_lt ds m)

  module _ {S : Type 0} (apply_delivery : Delivery P → S → Outcome S) (now : ℕ) where
    settle-settled :
        (d : Delivery P) (s : S) (o : Outcome S) (x : Delivery P)
        → is_due now ((settle now d s o).1 x) ≡ false
    settle-settled d s (processed s') x = refl
    settle-settled d s (ignored s') x = refl
    settle-settled d s (raised error) x = ground (arith, backoff_bounds d.attempts)

    -- A round with nothing to do finds nothing due, and any other round leaves less that is due.
    process_one-due :
        (s : S) (ds : List (Delivery P))
        → let (w, worked) = process_one apply_delivery now (s, ds) in
          (worked ≡ false → due now w.1 ≡ 0) × (worked ≡ true → due now w.1 < due now ds)
    unfolding process_one
    process_one-due s ds = elim (Option-cases (next_due now ds)) [
      | inl e ↦ rw (e, process_one) ((λ h. next_due-none now ds e), λ h. absurd (ground arith))
      | inr (d, e) ↦
          rw (e, process_one)
            (
              (λ h. absurd (ground arith)),
              λ h.
                  due-update_lt now d.delivery_id (settle now d s (apply_delivery d s)).1
                    (settle-settled d s (apply_delivery d s)) ds
                    (Any-map
                      (λ x (same, ready). (ap (λ (y : Delivery P). y.delivery_id) same, ready))
                      (next_due-Any now ds d e)),
            )
    ]

    -- The worker comes to an end, whatever the deliveries do: at one time, as many rounds as deliveries
    -- are due leave none that is due.
    pub run_worker-due :
        (fuel : ℕ) (s : S) (ds : List (Delivery P))
        → due now ds ≤ fuel
        → due now (run_worker apply_delivery now fuel (s, ds)).1 ≡ 0
    unfolding run_worker
    run_worker-due zero s ds h = omega arith
    run_worker-due (suc fuel) s ds h =
        let round = process_one apply_delivery now (s, ds) in
        let (idle, less) = process_one-due s ds in
        elim (Bool-cases round.1) [
          | inl worked ↦
              rw worked (run_worker-due fuel round.0.0 round.0.1 (omega (arith, less worked)))
          | inr rest ↦ rw rest (idle rest)
        ]
