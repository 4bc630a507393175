-- ===== src/Webhooks/Retries.antt =====
-- What `process_one` of services/webhooks.py leaves of a delivery that could not be applied.
use gitbounty.Base.{
  ℕ, suc, ◌+◌, ◌≤◌, ◌<◌, ◌≡◌, refl, sym, ap, ◌∙◌, Bool, true, false, not, some, List, [], ◌∷◌, map,
  length, keep_if, arith, All, Bool-cases, inl, inr,
}
use gitbounty.Text.{Text}
use gitbounty.Webhooks.{
  Delivery, Outcome, failed, is_due, has_id, next_due, as_failed, update, process_one, raised,
}
use gitbounty.Webhooks.Worker.{backoff_bounds}

keep_if-skips :
    {A : Type 0} (test : A → Bool) (x : A) (xs : List A)
    → test x ≡ false
    → keep_if test (x ∷ xs) ≡ keep_if test xs
keep_if-skips test x xs h = rw (h, keep_if) refl

keep_if-keeps :
    {A : Type 0} (test : A → Bool) (x : A) (xs : List A)
    → test x ≡ true
    → keep_if test (x ∷ xs) ≡ x ∷ keep_if test xs
keep_if-keeps test x xs h = rw (h, keep_if) refl

module _ {P : Type 0} where
  -- What is left of a delivery that failed: before a minute is over it is not due again, and when an
  -- hour is over it is.
  pub record Waits (now : ℕ) (e : Delivery P) : Type 0 where
    pub has_failed : e.status ≡ failed
    pub not_before : (t : ℕ) → t < now + 60 → is_due t e ≡ false
    pub by_then : (t : ℕ) → now + 3600 ≤ t → is_due t e ≡ true

  as_failed-Waits :
      (now : ℕ) (error : Text) (attempts : ℕ) (e : Delivery P)
      → Waits now (as_failed now error attempts e)
  as_failed-Waits now error attempts e =
      let bounds = backoff_bounds attempts in
      record {
        has_failed = refl;
        not_before = λ t h. ground (arith, bounds);
        by_then = λ t h. ground (arith, bounds);
      }

  -- If applying the delivery that is due first raises, its writes are undone, and of the deliveries of
  -- the queue those with its id have failed, are not due again before a minute is over and are due
  -- again when an hour is over; the others stay.
  pub process_one-retries :
      {S : Type 0} (apply_delivery : Delivery P → S → Outcome S) (now : ℕ) (s : S)
      (queue : List (Delivery P)) (d : Delivery P) (error : Text)
      → next_due now queue ≡ some d
      → apply_delivery d s ≡ raised error
      → let w = (process_one apply_delivery now (s, queue)).0 in
        (w.0 ≡ s)
        × (length w.1 ≡ length queue)
        × All (λ e. has_id d.delivery_id e ≡ true → Waits now e) w.1
        × (keep_if (λ e. not (has_id d.delivery_id e)) w.1
            ≡ keep_if (λ e. not (has_id d.delivery_id e)) queue)
  unfolding process_one
  process_one-retries apply_delivery now s queue d error due_first raises =
      rw (due_first, process_one, raises) (refl, lengths queue, failures queue, others queue)
    where
      f : Delivery P → Delivery P
      f = update d.delivery_id (as_failed now error d.attempts)

      lengths : (ds : List (Delivery P)) → length (map f ds) ≡ length ds
      lengths [] = refl
      lengths (e ∷ ds) = ap suc (lengths ds)

      failures :
          (ds : List (Delivery P))
          → All (λ e. has_id d.delivery_id e ≡ true → Waits now e) (map f ds)
      failures [] = tt
      failures (e ∷ ds) = (one, failures ds)
        where
          one : has_id d.delivery_id (f e) ≡ true → Waits now (f e)
          one = elim (Bool-cases (has_id d.delivery_id e)) [
            | inl same ↦ rw same (λ _. as_failed-Waits now error d.attempts e)
            | inr other ↦ rw other (λ h. absurd (ground (arith, other, h)))
          ]

      others :
          (ds : List (Delivery P))
          → keep_if (λ e. not (has_id d.delivery_id e)) (map f ds)
            ≡ keep_if (λ e. not (has_id d.delivery_id e)) ds
      others [] = refl
      others (e ∷ ds) = elim (Bool-cases (has_id d.delivery_id e)) [
        | inl same ↦
            keep_if-skips _ (f e) (map f ds) (ground (arith, same))
            ∙ others ds
            ∙ sym (keep_if-skips _ e ds (ground (arith, same)))
        | inr other ↦ rw other (
            keep_if-keeps _ e (map f ds) (ground (arith, other))
            ∙ ap (λ t. e ∷ t) (others ds)
            ∙ sym (keep_if-keeps _ e ds (ground (arith, other))))
      ]
