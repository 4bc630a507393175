-- ===== src/Amounts/Stripped.antt =====
-- What `rstrip` leaves of a text that ends in zeros.
use mathlib.Core.List.{reverse, reverse-append, reverse-reverse}
use gitbounty.Base.{
  ℕ, zero, suc, ◌≡◌, ◌⊎◌, refl, sym, ap, ◌∙◌, Bool, false, [], ◌∷◌, ◌++◌, ◌==◌, arith, append_assoc,
  append-nil, Bool-cases, inl, inr, if◌then◌else◌, ==_iff,
}
use gitbounty.Text.{Text, strip_left}
use gitbounty.Amounts.{zeros, rstrip}

strip_left-cons :
    (p : ℕ → Bool) (a : ℕ) (s : Text)
    → strip_left p (a ∷ s) ≡ (if p a then strip_left p s else a ∷ s)
strip_left-cons p a s = ground arith

pub rstrip-snoc :
    (c a : ℕ) (s : Text) → rstrip c (s ++ a ∷ []) ≡ (if a == c then rstrip c s else s ++ a ∷ [])
rstrip-snoc c a s =
    let turned : reverse (s ++ a ∷ []) ≡ a ∷ reverse s = reverse-append s (a ∷ []) in
    let back : reverse (a ∷ reverse s) ≡ s ++ a ∷ [] =
      ap reverse (sym turned) ∙ reverse-reverse (s ++ a ∷ []) in
    ap (λ t. reverse (strip_left (λ b. b == c) t)) turned
    ∙ ap reverse (strip_left-cons (λ b. b == c) a (reverse s))
    ∙ (elim (Bool-cases (a == c)) [ inl e ↦ rw e refl | inr e ↦ rw e back ])

zeros-suc : (k : ℕ) → zeros (suc k) ≡ zeros k ++ b'0' ∷ []
unfolding zeros
zeros-suc zero = refl
zeros-suc (suc k) = ap (λ s. b'0' ∷ s) (zeros-suc k)

-- The zeros at the end go, up to a character that is none.
pub rstrip-zeros :
    (s : Text) (a k : ℕ)
    → (a == b'0') ≡ false
    → rstrip b'0' ((s ++ a ∷ []) ++ zeros k) ≡ s ++ a ∷ []
unfolding zeros
rstrip-zeros s a zero h =
    ap (rstrip b'0') (append-nil (s ++ a ∷ [])) ∙ rstrip-snoc b'0' a s ∙ (rw h refl)
rstrip-zeros s a (suc k) h =
    ap (rstrip b'0') (
      ap (λ z. (s ++ a ∷ []) ++ z) (zeros-suc k)
      ∙ sym (append_assoc (s ++ a ∷ []) (zeros k) (b'0' ∷ [])))
    ∙ rstrip-snoc b'0' b'0' ((s ++ a ∷ []) ++ zeros k)
    ∙ rstrip-zeros s a k h

-- A text is zeros, or zeros stand behind a last character that is none.
abbrev pub Ends : Text → Type 0
Ends s =
    ((k : ℕ) × (s ≡ zeros k))
    ⊎ ((t : Text) × (a : ℕ) × (k : ℕ) × (s ≡ (t ++ a ∷ []) ++ zeros k) × ((a == b'0') ≡ false))

pub ends : (s : Text) → Ends s
unfolding zeros
ends [] = inl (0, refl)
ends (c ∷ s) = elim (ends s) [
  | inr (t, a, k, e, h) ↦ inr (c ∷ t, a, k, ap (λ x. c ∷ x) e, h)
  | inl (k, e) ↦ elim (Bool-cases (c == b'0')) [
    | inl is_zero ↦
        inl (suc k, (let same : c ≡ b'0' = (==_iff c b'0').0 is_zero in rw (same, e) refl))
    | inr other ↦ inr ([], c, k, ap (λ x. c ∷ x) e, other)
  ]
]
