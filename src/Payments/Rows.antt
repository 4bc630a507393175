-- ===== src/Payments/Rows.antt =====
-- The rows of `avax_payments` by their claim, under the statements that change them.
use gitbounty.Base.{
  ℕ, ◌≡◌, refl, false, none, some, List, [], ◌∷◌, ◌++◌, ◌==◌, arith, Bool-cases, inl, inr,
  if◌then◌else◌,
}
use gitbounty.Payments.{Payment, find_payment, update_payment}

pub find_payment-claim_id :
    (c : ℕ) (ps : List Payment) (p : Payment) → find_payment c ps ≡ some p → p.claim_id ≡ c
unfolding find_payment
find_payment-claim_id c [] p e = absurd (ground arith)
find_payment-claim_id c (q ∷ ps) p e = elim (Bool-cases (q.claim_id == c)) [
  | inl here ↦ ground (arith, here)
  | inr later ↦ find_payment-claim_id c ps p (ground arith)
]

module _ (d : ℕ) (f : Payment → Payment) (keeps : (p : Payment) → (f p).claim_id ≡ p.claim_id) where
  pub find_payment-update_other :
      (c : ℕ) (ps : List Payment)
      → (d == c) ≡ false
      → find_payment c (update_payment d f ps) ≡ find_payment c ps
  unfolding find_payment
  find_payment-update_other c [] e = refl
  find_payment-update_other c (p ∷ ps) e = elim (Bool-cases (p.claim_id == d)) [
    | inl here ↦ ground (arith, keeps p, find_payment-update_other c ps e)
    | inr other ↦ ground (arith, find_payment-update_other c ps e)
  ]

  pub find_payment-update :
      (ps : List Payment) (p : Payment)
      → find_payment d ps ≡ some p
      → find_payment d (update_payment d f ps) ≡ some (f p)
  unfolding find_payment
  find_payment-update [] p e = absurd (ground arith)
  find_payment-update (q ∷ ps) p e = elim (Bool-cases (q.claim_id == d)) [
    | inl here ↦ ground (arith, keeps q)
    | inr later ↦ ground (arith, find_payment-update ps p (ground arith))
  ]

module _ (q : Payment) where
  pub find_payment-added :
      (c : ℕ) (ps : List Payment) (p : Payment)
      → find_payment c ps ≡ some p
      → find_payment c (ps ++ q ∷ []) ≡ some p
  unfolding find_payment
  find_payment-added c [] p e = absurd (ground arith)
  find_payment-added c (r ∷ ps) p e = ground (arith, find_payment-added c ps p)

  pub find_payment-new :
      (c : ℕ) (ps : List Payment)
      → find_payment c ps ≡ none
      → find_payment c (ps ++ q ∷ []) ≡ (if q.claim_id == c then some q else none)
  unfolding find_payment
  find_payment-new c [] e = refl
  find_payment-new c (r ∷ ps) e = ground (arith, find_payment-new c ps)
