-- ===== src/Amounts/RoundTrip.antt =====
-- `amount_to_units` on what `units_to_amount` prints.
use gitbounty.Base.{
  ℕ, zero, suc, ◌+◌, ◌-◌, ◌*◌, ◌/◌, ◌%◌, ◌^◌, ◌≤◌, ◌<◌, ◌≡◌, refl, sym, ap, ◌∙◌, true, false, some,
  [], ◌∷◌, ◌++◌, ◌==◌, arith, inl, inr, length, length-append, append_assoc, subst, All-append,
}
use gitbounty.Text.{Text, Unicode, before_first}
use gitbounty.Text.Decimal.{
  decimal, value_of, value_of-decimal, is_digit, decimal-digits, length-decimal, decimal-Leads,
  decimal-zero,
}
use gitbounty.Regex.{full_match}
use gitbounty.Amounts.{
  zeros, rstrip, after_first, pad_left, pad_right, units_of, amount_pattern, amount_to_units,
  units_to_amount,
}
use gitbounty.Amounts.Stripped.{rstrip-snoc, rstrip-zeros, ends}
use gitbounty.Amounts.Matched.{Digits, IsWhole, whole-full_match, amount-full_match}

length-zeros : (k : ℕ) → length (zeros k) ≡ k
unfolding zeros
length-zeros zero = refl
length-zeros (suc k) = omega (arith, length-zeros k)

value_of-zeros : (k : ℕ) (s : Text) → value_of 0 (zeros k ++ s) ≡ value_of 0 s
unfolding zeros
value_of-zeros zero s = refl
value_of-zeros (suc k) s = value_of-zeros k s

zeros-Digits : (k : ℕ) → Digits (zeros k)
unfolding zeros
zeros-Digits zero = tt
zeros-Digits (suc k) = (refl, zeros-Digits k)

Digits-left : (s t : Text) → Digits (s ++ t) → Digits s
Digits-left [] t h = tt
Digits-left (c ∷ s) t h = (h.0, Digits-left s t h.1)

Digits-last : (s : Text) (a : ℕ) → Digits (s ++ a ∷ []) → is_digit a ≡ true
Digits-last [] a h = h.0
Digits-last (c ∷ s) a h = Digits-last s a h.1

before_first-Digits : (s t : Text) → Digits s → before_first b'.' (s ++ b'.' ∷ t) ≡ s
unfolding before_first
before_first-Digits [] t h = refl
before_first-Digits (c ∷ s) t h = ground (arith, before_first-Digits s t h.1)

before_first-all : (s : Text) → Digits s → before_first b'.' s ≡ s
unfolding before_first
before_first-all [] h = refl
before_first-all (c ∷ s) h = ground (arith, before_first-all s h.1)

after_first-Digits : (s t : Text) → Digits s → after_first b'.' (s ++ b'.' ∷ t) ≡ t
unfolding after_first
after_first-Digits [] t h = refl
after_first-Digits (c ∷ s) t h = ground (arith, after_first-Digits s t h.1)

after_first-none : (s : Text) → Digits s → after_first b'.' s ≡ []
unfolding after_first
after_first-none [] h = refl
after_first-none (c ∷ s) h = ground (arith, after_first-none s h.1)

snoc_view : (c : ℕ) (s : Text) → (t : Text) × (a : ℕ) × (c ∷ s ≡ t ++ a ∷ [])
snoc_view c [] = ([], c, refl)
snoc_view c (d ∷ s) = let (t, a, e) = snoc_view d s in (c ∷ t, a, ap (λ x. c ∷ x) e)

cons_view : (t : Text) (a : ℕ) → (c : ℕ) × (s : Text) × (t ++ a ∷ [] ≡ c ∷ s)
cons_view [] a = (a, [], refl)
cons_view (c ∷ t) a = (c, t ++ a ∷ [], refl)

-- A point goes from the end, a digit does not.
rstrip-point : (s : Text) (a : ℕ) → is_digit a ≡ true → rstrip b'.' (s ++ a ∷ []) ≡ s ++ a ∷ []
rstrip-point s a h =
    let other : (a == b'.') ≡ false = ground arith in rstrip-snoc b'.' a s ∙ (rw other refl)

decimal-IsWhole : (n : ℕ) → IsWhole (decimal n)
decimal-IsWhole zero = inl decimal-zero
decimal-IsWhole (suc n) = inr (decimal-Leads (suc n) (omega arith))

whole_snoc : (s : Text) → IsWhole s → (t : Text) × (a : ℕ) × (s ≡ t ++ a ∷ [])
whole_snoc s (inl e) = ([], b'0', e)
whole_snoc s (inr (c, v, e, lead)) = let (t, a, e') = snoc_view c v in (t, a, e ∙ e')

whole_printed :
    (s : Text) (k : ℕ) → IsWhole s → Digits s → rstrip b'.' (rstrip b'0' (s ++ b'.' ∷ zeros k)) ≡ s
whole_printed s k w h =
    ap (λ t. rstrip b'.' (rstrip b'0' t)) (sym (append_assoc s (b'.' ∷ []) (zeros k)))
    ∙ ap (rstrip b'.') (rstrip-zeros s b'.' k refl)
    ∙ rstrip-snoc b'.' b'.' s
    ∙ (let (t, a, e) = whole_snoc s w in
        ap (rstrip b'.') e ∙ rstrip-point t a (Digits-last t a (subst Digits e h)) ∙ sym e)

amount_printed :
    (s t : Text) (a k : ℕ)
    → (a == b'0') ≡ false
    → is_digit a ≡ true
    → rstrip b'.' (rstrip b'0' (s ++ (b'.' ∷ ((t ++ a ∷ []) ++ zeros k))))
      ≡ s ++ (b'.' ∷ (t ++ a ∷ []))
amount_printed s t a k h h' =
    let last : (s ++ b'.' ∷ t) ++ a ∷ [] ≡ s ++ (b'.' ∷ (t ++ a ∷ [])) =
      append_assoc s (b'.' ∷ t) (a ∷ []) in
    ap (λ v. rstrip b'.' (rstrip b'0' v))
      (sym (append_assoc s (b'.' ∷ (t ++ a ∷ [])) (zeros k)) ∙ ap (λ v. v ++ zeros k) (sym last))
    ∙ ap (rstrip b'.') (rstrip-zeros (s ++ b'.' ∷ t) a k h)
    ∙ rstrip-point (s ++ b'.' ∷ t) a h'
    ∙ last

pow_pos : (k : ℕ) → 0 < 10 ^ k
pow_pos zero = omega arith
pow_pos (suc k) = omega (arith, pow_pos k)

module _ (n k : ℕ) where
  abbrev whole_part : Text
  whole_part = decimal (n / 10 ^ suc k)

  abbrev fraction : Text
  fraction = pad_left (suc k) (decimal (n % 10 ^ suc k))

  length-remainder : length (decimal (n % 10 ^ suc k)) ≤ suc k
  length-remainder = length-decimal k (n % 10 ^ suc k) (omega (arith, pow_pos (suc k)))

  length-fraction : length fraction ≡ suc k
  length-fraction =
      length-append (zeros (suc k - length (decimal (n % 10 ^ suc k)))) (decimal (n % 10 ^ suc k))
      ∙ omega (arith, length-zeros (suc k - length (decimal (n % 10 ^ suc k))), length-remainder)

  fraction-Digits : Digits fraction
  fraction-Digits =
      All-append _ (zeros _) (decimal (n % 10 ^ suc k)) (zeros-Digits _) (decimal-digits _)

  value_of-fraction : value_of 0 fraction ≡ n % 10 ^ suc k
  value_of-fraction =
      value_of-zeros _ (decimal (n % 10 ^ suc k)) ∙ value_of-decimal (n % 10 ^ suc k)

  units : n / 10 ^ suc k * 10 ^ suc k + n % 10 ^ suc k ≡ n
  units = omega (arith, pow_pos (suc k))

  module _ (u : Unicode) (small : n / 10 ^ suc k < 10 ^ 60) where
    length-whole_part : length whole_part ≤ 60
    length-whole_part = length-decimal 59 (n / 10 ^ suc k) small

    -- A text that the pattern takes, whose parts have these values.
    units_of-printed :
        (s : Text)
        → full_match u.is_word (amount_pattern (suc k)) s ≡ true
        → before_first b'.' s ≡ whole_part
        → pad_right (suc k) (after_first b'.' s) ≡ fraction
        → 0 < n
        → amount_to_units u s (suc k) ≡ some n
    unfolding amount_to_units units_of
    units_of-printed s m b a h =
        let total : units_of (suc k) s ≡ n =
          rw (b, a, value_of-decimal (n / 10 ^ suc k), value_of-fraction) units in
        let positive : (units_of (suc k) s == 0) ≡ false = ground (arith, total) in
        rw m (rw positive (ap some total))

    whole_only :
        (j : ℕ)
        → fraction ≡ zeros j
        → 0 < n
        → amount_to_units u (units_to_amount n (suc k)) (suc k) ≡ some n
    unfolding units_to_amount
    whole_only j e h =
        let digits = decimal-digits (n / 10 ^ suc k) in
        let starts = decimal-IsWhole (n / 10 ^ suc k) in
        let all_zeros : j ≡ suc k = sym (length-zeros j) ∙ ap length (sym e) ∙ length-fraction in
        let padded : pad_right (suc k) [] ≡ fraction =
          ap zeros (omega (arith, all_zeros)) ∙ sym e in
        ap (λ s. amount_to_units u s (suc k))
          (ap (λ f. rstrip b'.' (rstrip b'0' (whole_part ++ b'.' ∷ f))) e
            ∙ whole_printed whole_part j starts digits)
        ∙ units_of-printed whole_part
            (whole-full_match u.is_word (suc k) whole_part starts digits length-whole_part)
            (before_first-all whole_part digits)
            (ap (pad_right (suc k)) (after_first-none whole_part digits) ∙ padded) h

    with_places :
        (t : Text) (a j : ℕ)
        → fraction ≡ (t ++ a ∷ []) ++ zeros j
        → (a == b'0') ≡ false
        → 0 < n
        → amount_to_units u (units_to_amount n (suc k)) (suc k) ≡ some n
    unfolding units_to_amount
    with_places t a j e other h =
        let digits = decimal-digits (n / 10 ^ suc k) in
        let starts = decimal-IsWhole (n / 10 ^ suc k) in
        let places = Digits-left (t ++ a ∷ []) (zeros j) (subst Digits e fraction-Digits) in
        let total : length (t ++ a ∷ []) + j ≡ suc k =
          ap (λ i. length (t ++ a ∷ []) + i) (sym (length-zeros j))
          ∙ sym (length-append (t ++ a ∷ []) (zeros j))
          ∙ ap length (sym e)
          ∙ length-fraction in
        let padded : pad_right (suc k) (t ++ a ∷ []) ≡ fraction =
          ap (λ i. (t ++ a ∷ []) ++ zeros i) (omega (arith, total)) ∙ sym e in
        let (c, v, first) = cons_view t a in
        ap (λ s. amount_to_units u s (suc k))
          (ap (λ f. rstrip b'.' (rstrip b'0' (whole_part ++ b'.' ∷ f))) e
            ∙ amount_printed whole_part t a j other (Digits-last t a places))
        ∙ units_of-printed (whole_part ++ (b'.' ∷ (t ++ a ∷ [])))
            (ap (λ p. full_match u.is_word (amount_pattern (suc k)) (whole_part ++ b'.' ∷ p)) first
              ∙ amount-full_match u.is_word (suc k) whole_part c v starts digits length-whole_part
                  (subst Digits first places) (omega (arith, total, ap length first)))
            (before_first-Digits whole_part (t ++ a ∷ []) digits)
            (ap (pad_right (suc k)) (after_first-Digits whole_part (t ++ a ∷ []) digits) ∙ padded) h

    -- An amount of at least one unit, with at most sixty digits in front of the point, is read as it
    -- was printed.
    pub amount_to_units-units_to_amount :
        0 < n → amount_to_units u (units_to_amount n (suc k)) (suc k) ≡ some n
    amount_to_units-units_to_amount h = elim (ends fraction) [
      | inl (j, e) ↦ whole_only j e h
      | inr (t, a, j, e, other) ↦ with_places t a j e other h
    ]
