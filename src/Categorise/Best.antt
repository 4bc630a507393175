-- ===== src/Categorise/Best.antt =====
-- The category that `_from_file_paths` chooses among the contenders.
use gitbounty.Base.{
  ℕ, ◌≡◌, ◌⊎◌, refl, subst, some, List, [], ◌∷◌, ◌≤◌, arith, All, Any, here, there, Bool-cases, inl,
  inr, if◌then◌else◌,
}
use gitbounty.Text.{Text, Unicode}
use gitbounty.PullRequest.{Category, docs}
use gitbounty.Categorise.{classify_path}
use gitbounty.Categorise.Votes.{
  verdicts, contenders, tie_break, better, winner, decide, from_votes, from_file_paths,
}

-- At least as many votes and, with as many, no later place in the order of ties.
abbrev pub AtLeast : ℕ × Category → ℕ × Category → Type 0
AtLeast x y = (y.0 ≤ x.0) × (y.0 ≡ x.0 → tie_break x.1 ≤ tie_break y.1)

-- The category of a contender that no contender beats.
abbrev pub IsBest : Category → List (ℕ × Category) → Type 0
IsBest c xs = (n : ℕ) × Any (λ y. y ≡ (n, c)) xs × All (AtLeast (n, c)) xs

AtLeast-trans : (x y z : ℕ × Category) → AtLeast x y → AtLeast y z → AtLeast x z
AtLeast-trans x y z h k = (omega (arith, h.0, k.0), λ e. ground (arith, h, k))

abbrev chosen : ℕ × Category → ℕ × Category → ℕ × Category
chosen best x = if better x best then x else best

chosen-AtLeast : (best x : ℕ × Category) → AtLeast (chosen best x) best × AtLeast (chosen best x) x
chosen-AtLeast best x = elim (Bool-cases (better x best)) [
  | inl e ↦ rw e ((ground arith, λ h. ground arith), (omega arith, λ h. omega arith))
  | inr e ↦ rw e ((omega arith, λ h. omega arith), (ground arith, λ h. ground arith))
]

from_chosen :
    (best x : ℕ × Category) (xs : List (ℕ × Category)) {P : ℕ × Category → Type 0}
    → Any P (chosen best x ∷ xs)
    → Any P (best ∷ x ∷ xs)
from_chosen best x xs {P} (here p) = elim (Bool-cases (better x best)) [
  | inl e ↦ there (here (subst P (rw e refl) p))
  | inr e ↦ here (subst P (rw e refl) p)
]
from_chosen best x xs (there m) = there (there m)

winner-IsBest :
    (best : ℕ × Category) (xs : List (ℕ × Category)) → IsBest (winner best xs) (best ∷ xs)
unfolding winner
winner-IsBest best [] = (best.0, here refl, ((omega arith, λ h. omega arith), tt))
winner-IsBest best (x ∷ xs) =
    let (n, member, (first, rest)) = winner-IsBest (chosen best x) xs in
    let (a, b) = chosen-AtLeast best x in
    let c = winner (chosen best x) xs in
    (
      n,
      from_chosen best x xs member,
      (AtLeast-trans (n, c) _ best first a, (AtLeast-trans (n, c) _ x first b, rest)),
    )

-- When the changed files decide the category, it is that of a contender with the most votes and, among
-- those, the first in the order of ties; or documentation, if there is no contender.
pub from_file_paths-IsBest :
    (u : Unicode) (paths : List Text) (c : Category)
    → from_file_paths u paths ≡ some c
    → let rivals = contenders (verdicts (classify_path u) paths) in
      ((rivals ≡ []) × (c ≡ docs)) ⊎ IsBest c rivals
unfolding from_file_paths
from_file_paths-IsBest u paths c = decided (verdicts (classify_path u) paths)
  where
    of_rivals :
        (rivals : List (ℕ × Category))
        → decide rivals ≡ c
        → ((rivals ≡ []) × (c ≡ docs)) ⊎ IsBest c rivals
    of_rivals [] h = inl (refl, ground arith)
    of_rivals (x ∷ xs) h = inr (subst (λ d. IsBest d (x ∷ xs)) h (winner-IsBest x xs))

    decided :
        (votes : List Category)
        → from_votes votes ≡ some c
        → ((contenders votes ≡ []) × (c ≡ docs)) ⊎ IsBest c (contenders votes)
    decided [] h = absurd (ground arith)
    decided (v ∷ vs) h = of_rivals (contenders (v ∷ vs)) (ground arith)
