-- ===== src/Rules/Suggestion.antt =====
-- `points_from_labels` and `suggested_bounty_points` of features/points/rules.py.
use gitbounty.Base.{
  ℕ, ◌≡◌, refl, subst, some, List, [], ◌∷◌, ◌≤◌, arith, All, Any, here, there, max, leb, Bool-cases,
  inl, inr,
}
use gitbounty.Text.{Text, Unicode}
use gitbounty.Rules.{
  all_values, maximum, max_of, points_from_labels, validate_bounty_points, suggested_bounty_points,
}

maximum-max : (n : ℕ) (ms : List ℕ) → (n ≤ maximum n ms) × All (λ m. m ≤ maximum n ms) ms
maximum-max n [] = (omega arith, tt)
maximum-max n (m ∷ ms) =
    let (le, rest) = maximum-max (max n m) ms in (omega (arith, le), (omega (arith, le), rest))

maximum-Any : (n : ℕ) (ms : List ℕ) → Any (λ m. m ≡ maximum n ms) (n ∷ ms)
maximum-Any n [] = here refl
maximum-Any n (m ∷ ms) = elim (maximum-Any (max n m) ms) [
  | here p ↦ elim (Bool-cases (leb n m)) [
    | inl le ↦ there (here (ground (arith, p)))
    | inr gt ↦ here (ground (arith, p))
  ]
  | there k ↦ there (there k)
]

max_of-greatest :
    (v : ℕ) (ms : List ℕ) → max_of ms ≡ some v → Any (λ m. m ≡ v) ms × All (λ m. m ≤ v) ms
max_of-greatest v [] h = absurd (ground arith)
max_of-greatest v (n ∷ ns) h =
    let same : maximum n ns ≡ v = ground arith in
    let (le, rest) = maximum-max n ns in
    subst (λ w. Any (λ m. m ≡ w) (n ∷ ns) × All (λ m. m ≤ w) (n ∷ ns)) same
      (maximum-Any n ns, (le, rest))

module _ (u : Unicode) (labels : List Text) where
  -- `points_from_labels` returns a value that a label carries, and no label carries a greater one.
  pub points_from_labels-greatest :
      (v : ℕ)
      → points_from_labels u labels ≡ some v
      → Any (λ m. m ≡ v) (all_values u labels) × All (λ m. m ≤ v) (all_values u labels)
  unfolding points_from_labels
  points_from_labels-greatest v h = max_of-greatest v (all_values u labels) h

  -- A suggested bounty passes validation, and a value in range is suggested as it is.
  pub suggested_bounty_points-valid :
      (v w : ℕ)
      → points_from_labels u labels ≡ some w
      → suggested_bounty_points u labels ≡ some v
      → (validate_bounty_points v ≡ some v) × (validate_bounty_points w ≡ some w → v ≡ w)
  unfolding suggested_bounty_points validate_bounty_points
  suggested_bounty_points-valid v w h k = (ground arith, λ e. ground arith)
