-- ===== src/Text.antt =====
-- Python's `str`: a text is the list of its code points. What the source takes from Python's tables
-- of Unicode characters (`casefold`, and the classes `\s`, `\w`, `\d` of `re`) is a parameter, the
-- record `Unicode`; `ascii` is an instance of it that agrees with Python on ASCII texts.
pub mod Decimal
use Prim.Native.Char.{code}
use Prim.Native.String.{String}
use mathlib.Core.List.{reverse}
use gitbounty.Base.{
  ℕ, ◌+◌, ◌-◌, ◌≡◌, refl, ◌↔◌, Bool, true, false, ◌&&◌, ◌||◌, Option, none, some, List, [], ◌∷◌,
  map, arith, leb, ◌==◌, if◌then◌else◌, any,
}

abbrev pub Text : Type 0
Text = List ℕ

-- A literal of the source.
abbrev pub text : String → Text
text String.[] = []
text (String.◌∷◌ c s) = code c ∷ text s

abbrev pub text_eq : Text → Text → Bool
text_eq [] [] = true
text_eq (a ∷ s) (b ∷ t) = a == b && text_eq s t
text_eq _ _ = false

pub text_eq_iff : (s t : Text) → (text_eq s t ≡ true) ↔ (s ≡ t)
text_eq_iff [] [] = (λ h. refl, λ h. refl)
text_eq_iff [] (b ∷ t) = ground arith
text_eq_iff (a ∷ s) [] = ground arith
text_eq_iff (a ∷ s) (b ∷ t) = ground (arith, text_eq_iff s t)

-- `s.startswith(p)`
abbrev pub starts_with : Text → Text → Bool
starts_with s [] = true
starts_with [] (b ∷ p) = false
starts_with (a ∷ s) (b ∷ p) = a == b && starts_with s p

-- `s.split(c, 1)[0]`: what stands before the first `c`, or all.
unfoldable pub before_first : ℕ → Text → Text
before_first c [] = []
before_first c (a ∷ s) = let rest = before_first c s in if a == c then [] else a ∷ rest

-- Membership in a tuple or a set of texts.
abbrev pub one_of : Text → List Text → Bool
one_of s ts = any (text_eq s) ts

-- `s.strip(chars)`, over a class of characters.
abbrev pub strip_left : (ℕ → Bool) → Text → Text
strip_left p [] = []
strip_left p (c ∷ s) = elim (p c) [ true ↦ strip_left p s | false ↦ c ∷ s ]

abbrev pub strip : (ℕ → Bool) → Text → Text
strip p s = reverse (strip_left p (reverse (strip_left p s)))

pub record Unicode : Type 0 where
  pub casefold : Text → Text
  -- `\s`, `\w`
  pub is_space : ℕ → Bool
  pub is_word : ℕ → Bool
  -- The value of a decimal digit, `\d`.
  pub digit : ℕ → Option ℕ
  -- Two characters that `re.IGNORECASE` takes for one another.
  pub same_letter : ℕ → ℕ → Bool

abbrev pub ascii_lower : ℕ → ℕ
ascii_lower c = if leb b'A' c && leb c b'Z' then c + 32 else c

abbrev ascii_digit : ℕ → Option ℕ
ascii_digit c = if leb b'0' c && leb c b'9' then some (c - b'0') else none

abbrev ascii_word : ℕ → Bool
ascii_word c =
    leb b'a' (ascii_lower c) && leb (ascii_lower c) b'z' || leb b'0' c && leb c b'9' || c == b'_'

abbrev pub ascii : Unicode
ascii = record {
  casefold = map ascii_lower;
  is_space = λ c. c == 32 || leb 9 c && leb c 13 || leb 28 c && leb c 31;
  is_word = ascii_word;
  digit = ascii_digit;
  same_letter = λ a b. ascii_lower a == ascii_lower b;
}

pub text_eq_sym : (s t : Text) → text_eq s t ≡ text_eq t s
text_eq_sym [] [] = refl
text_eq_sym [] (b ∷ t) = refl
text_eq_sym (a ∷ s) [] = refl
text_eq_sym (a ∷ s) (b ∷ t) = ground (arith, text_eq_sym s t)
