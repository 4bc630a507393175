-- ===== src/Amounts/Matched.antt =====
-- The texts that the pattern of an amount takes.
use gitbounty.Base.{
  ℕ, zero, suc, ◌-◌, ◌≤◌, ◌≡◌, ◌⊎◌, refl, true, [], ◌∷◌, ◌++◌, leb, ◌&&◌, arith, inl, inr, length,
  All, append-nil, subst, Bool,
}
use gitbounty.Text.{Text}
use gitbounty.Text.Decimal.{is_digit, Leads}
use gitbounty.Regex.{Regex, one, empty, alt, ◌·◌, optional, char, full_match}
use gitbounty.Regex.Takes.{
  Takes, one-Takes, empty-Takes, ·-Takes, alt-Takes_left, alt-Takes_right, full_match-Takes,
}
use gitbounty.Amounts.{digit, up_to, amount_pattern}

abbrev pub Digits : Text → Type 0
Digits s = All (λ c. is_digit c ≡ true) s

-- A whole part: a zero, or digits of which the first is none.
abbrev pub IsWhole : Text → Type 0
IsWhole s = (s ≡ b'0' ∷ []) ⊎ Leads s

module _ (is_word : ℕ → Bool) where
  up_to-Takes :
      (n : ℕ) (s t : Text) → Digits s → length s ≤ n → Takes is_word (up_to n digit) (s ++ t) t
  unfolding up_to
  up_to-Takes zero [] t h k = empty-Takes is_word t
  up_to-Takes zero (c ∷ s) t h k = absurd (omega arith)
  up_to-Takes (suc n) [] t h k = alt-Takes_right is_word _ empty (empty-Takes is_word t)
  up_to-Takes (suc n) (c ∷ s) t h k = alt-Takes_left is_word (digit · up_to n digit) empty (
      ·-Takes is_word digit (up_to n digit) (one-Takes is_word is_digit c (s ++ t) h.0)
        (up_to-Takes n s t h.1 (omega arith)))

  abbrev whole : Regex
  whole = alt (char b'0') (one (λ c. leb b'1' c && leb c b'9') · up_to 59 digit)

  whole-Takes : (s t : Text) → IsWhole s → Digits s → length s ≤ 60 → Takes is_word whole (s ++ t) t
  whole-Takes s t (inl e) h k =
      rw e (alt-Takes_left is_word (char b'0') _ (one-Takes is_word _ b'0' t refl))
  whole-Takes s t (inr (c, v, e, lead)) h k =
      let h' : Digits (c ∷ v) = subst Digits e h in
      let k' : length (c ∷ v) ≤ 60 = subst (λ x. length x ≤ 60) e k in
      rw e (
        alt-Takes_right is_word (char b'0') _ (
          ·-Takes is_word (one (λ c. leb b'1' c && leb c b'9')) (up_to 59 digit)
            (one-Takes is_word _ c (v ++ t) lead) (up_to-Takes 59 v t h'.1 (omega arith))))

  abbrev places : ℕ → Regex
  places n = optional (char b'.' · digit · up_to (n - 1) digit)

  no_places-Takes : (n : ℕ) → Takes is_word (places n) [] []
  no_places-Takes n = alt-Takes_right is_word _ empty (empty-Takes is_word [])

  places-Takes :
      (n : ℕ) (c : ℕ) (s : Text)
      → Digits (c ∷ s)
      → length s ≤ n - 1
      → Takes is_word (places n) (b'.' ∷ c ∷ s) []
  places-Takes n c s h k = alt-Takes_left is_word (char b'.' · digit · up_to (n - 1) digit) empty (
      ·-Takes is_word (char b'.') (digit · up_to (n - 1) digit)
        (one-Takes is_word _ b'.' (c ∷ s) refl)
        (·-Takes is_word digit (up_to (n - 1) digit) (one-Takes is_word is_digit c s h.0) (
          subst (λ x. Takes is_word (up_to (n - 1) digit) x []) (append-nil s)
            (up_to-Takes (n - 1) s [] h.1 k))))

  -- A whole part, and a whole part with decimal places.
  pub whole-full_match :
      (n : ℕ) (s : Text)
      → IsWhole s
      → Digits s
      → length s ≤ 60
      → full_match is_word (amount_pattern n) s ≡ true
  unfolding amount_pattern
  whole-full_match n s w h k = full_match-Takes is_word (amount_pattern n) s (
      ·-Takes is_word whole (places n)
        (subst (λ x. Takes is_word whole x []) (append-nil s) (whole-Takes s [] w h k))
        (no_places-Takes n))

  pub amount-full_match :
      (n : ℕ) (s : Text) (c : ℕ) (t : Text)
      → IsWhole s
      → Digits s
      → length s ≤ 60
      → Digits (c ∷ t)
      → length t ≤ n - 1
      → full_match is_word (amount_pattern n) (s ++ b'.' ∷ c ∷ t) ≡ true
  unfolding amount_pattern
  amount-full_match n s c t w h k h' k' =
      full_match-Takes is_word (amount_pattern n) (s ++ b'.' ∷ c ∷ t) (
        ·-Takes is_word whole (places n) (whole-Takes s (b'.' ∷ c ∷ t) w h k)
          (places-Takes n c t h' k'))
