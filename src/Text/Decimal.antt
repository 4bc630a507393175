-- ===== src/Text/Decimal.antt =====
-- `str(n)` of a number, and `int` of its digits.
use gitbounty.Base.{
  ℕ, zero, suc, ◌+◌, ◌*◌, ◌/◌, ◌%◌, ◌<◌, ◌≡◌, ap, true, ◌-◌, [], ◌∷◌, ◌==◌, arith, if◌then◌else◌,
  Bool-cases, inl, inr, refl, ◌≤◌, ◌^◌, Bool, ◌&&◌, leb, length, All,
}
use gitbounty.Text.{Text}

-- The digits of `n` in front of `acc`; the fuel is more than the number of digits.
digits_of : ℕ → ℕ → Text → Text
digits_of zero n acc = acc
digits_of (suc fuel) n acc =
    let rest = digits_of fuel (n / 10) ((48 + n % 10) ∷ acc) in
    if n / 10 == 0 then (48 + n % 10) ∷ acc else rest

unfoldable pub decimal : ℕ → Text
unfolding digits_of
decimal n = digits_of (suc n) n []

-- `int` of a text of ASCII digits, by its digits.
abbrev pub value_of : ℕ → Text → ℕ
value_of acc [] = acc
value_of acc (c ∷ s) = value_of (acc * 10 + (c - 48)) s

value_of-digits_of :
    (fuel n : ℕ) (acc : Text) → n < fuel → value_of 0 (digits_of fuel n acc) ≡ value_of n acc
unfolding digits_of
value_of-digits_of zero n acc h = absurd (omega arith)
value_of-digits_of (suc fuel) n acc h = elim (Bool-cases (n / 10 == 0)) [
  | inl done ↦ rw done (last_digit done)
  | inr more ↦
      rw (more, value_of-digits_of fuel (n / 10) ((48 + n % 10) ∷ acc) (ground arith))
        (ap (λ k. value_of k acc) (omega arith))
]
  where
    last_digit : (n / 10 == 0) ≡ true → value_of 0 ((48 + n % 10) ∷ acc) ≡ value_of n acc
    last_digit done = ap (λ k. value_of k acc) (ground arith)

-- `int(str(n)) == n`
pub value_of-decimal : (n : ℕ) → value_of 0 (decimal n) ≡ n
unfolding decimal
value_of-decimal n = value_of-digits_of (suc n) n [] (omega arith)

abbrev pub is_digit : ℕ → Bool
is_digit c = leb b'0' c && leb c b'9'

module _ (n : ℕ) where
  digit-is_digit : is_digit (48 + n % 10) ≡ true
  digit-is_digit = ground arith

digits_of-digits :
    (fuel n : ℕ) (acc : Text)
    → All (λ c. is_digit c ≡ true) acc
    → All (λ c. is_digit c ≡ true) (digits_of fuel n acc)
unfolding digits_of
digits_of-digits zero n acc h = h
digits_of-digits (suc fuel) n acc h = elim (Bool-cases (n / 10 == 0)) [
  | inl done ↦ rw done (digit-is_digit n, h)
  | inr more ↦ rw more (digits_of-digits fuel (n / 10) _ (digit-is_digit n, h))
]

-- The digits of a number below a power of ten, in front of `acc`.
length-digits_of :
    (fuel k n : ℕ) (acc : Text)
    → n < 10 ^ suc k
    → length (digits_of fuel n acc) ≤ suc k + length acc
unfolding digits_of
length-digits_of zero k n acc h = omega arith
length-digits_of (suc fuel) zero n acc h =
    let last : n / 10 ≡ 0 = omega (arith, h) in rw last (omega arith)
length-digits_of (suc fuel) (suc k) n acc h = elim (Bool-cases (n / 10 == 0)) [
  | inl done ↦ rw done (omega arith)
  | inr more ↦
      rw more
        (omega (arith, length-digits_of fuel k (n / 10) ((48 + n % 10) ∷ acc) (omega (arith, h))))
]

-- The first digit of a number that is not zero is not zero.
abbrev pub Leads : Text → Type 0
Leads s = (c : ℕ) × (t : Text) × (s ≡ c ∷ t) × ((leb b'1' c && leb c b'9') ≡ true)

digits_of-Leads : (fuel n : ℕ) (acc : Text) → 0 < n → n < fuel → Leads (digits_of fuel n acc)
unfolding digits_of
digits_of-Leads zero n acc h k = absurd (omega arith)
digits_of-Leads (suc fuel) n acc h k = elim (Bool-cases (n / 10 == 0)) [
  | inl done ↦ rw done (48 + n % 10, acc, refl, ground arith)
  | inr more ↦ rw more (digits_of-Leads fuel (n / 10) _ (ground arith) (ground arith))
]

pub decimal-digits : (n : ℕ) → All (λ c. is_digit c ≡ true) (decimal n)
unfolding decimal
decimal-digits n = digits_of-digits (suc n) n [] tt

pub length-decimal : (k n : ℕ) → n < 10 ^ suc k → length (decimal n) ≤ suc k
unfolding decimal
length-decimal k n h = omega (arith, length-digits_of (suc n) k n [] h)

pub decimal-Leads : (n : ℕ) → 0 < n → Leads (decimal n)
unfolding decimal
decimal-Leads n h = digits_of-Leads (suc n) n [] h (omega arith)

pub decimal-zero : decimal 0 ≡ b'0' ∷ []
unfolding decimal digits_of
decimal-zero = refl
