-- ===== src/Regex.antt =====
-- The part of Python's `re` that the source uses: a backtracking matcher. `runs` lists the ways to
-- match in the order in which `re` tries them, so the match that `re` reports is the first.
pub mod Takes
use gitbounty.Base.{
  ℕ, zero, suc, ◌+◌, ◌-◌, ◌*◌, Bool, true, false, not, Option, none, some, List, [], ◌∷◌, ◌++◌, ltb,
  ◌==◌, if◌then◌else◌, length, is_some, get_or_default, any, take,
}
use gitbounty.Text.{Text, Unicode}

pub data Regex : Type 0 where
  -- one character of a class
  one : (ℕ → Bool) → Regex
  empty : Regex
  seq alt : Regex → Regex → Regex
  -- `r*`, greedy
  star : Regex → Regex
  -- `^`, `$` and `\b`
  start finish boundary : Regex
  -- `(?P<name>r)`, by a number
  group : ℕ → Regex → Regex

-- Where a match stands: the character before, the text ahead, what the groups have taken.
pub record Position : Type 0 where
  pub previous : Option ℕ
  pub ahead : Text
  pub groups : List (ℕ × Text)

abbrev pub flat_map {ℓ κ} : {A : Type ℓ} {B : Type κ} → (A → List B) → List A → List B
flat_map f [] = []
flat_map f (x ∷ xs) = f x ++ flat_map f xs

abbrev guarded : Bool → Position → List Position
guarded b p = if b then p ∷ [] else []

abbrev step_one : (ℕ → Bool) → Text → Position → List Position
step_one test [] p = []
step_one test (c ∷ s) p = guarded (test c) (record p { previous = some c; ahead = s })

-- `$` holds at the end and before a newline that ends the text.
abbrev at_end : Text → Bool
at_end [] = true
at_end (c ∷ []) = c == 10
at_end _ = false

abbrev word_at : (ℕ → Bool) → Option ℕ → Bool
word_at is_word none = false
word_at is_word (some c) = is_word c

abbrev next_char : Text → Option ℕ
next_char [] = none
next_char (c ∷ s) = some c

abbrev differ : Bool → Bool → Bool
differ true b = not b
differ false b = b

abbrev is_boundary : (ℕ → Bool) → Position → Bool
is_boundary is_word p = differ (word_at is_word p.previous) (word_at is_word (next_char p.ahead))

abbrev at_start : Option ℕ → Bool
at_start none = true
at_start (some c) = false

abbrev capture : ℕ → Position → Position → Position
capture n p q = record q { groups = (n, take (length p.ahead - length q.ahead) p.ahead) ∷ q.groups }

-- One more round of a star must take a character; the rounds are at most the characters ahead.
repeated : (Position → List Position) → ℕ → Position → List Position
repeated f zero p = p ∷ []
repeated f (suc n) p =
    flat_map
      (λ q. let more = repeated f n q in if ltb (length q.ahead) (length p.ahead) then more else [])
      (f p)
    ++ p ∷ []

abbrev capture_all : ℕ → Position → List Position → List Position
capture_all n p [] = []
capture_all n p (q ∷ qs) = capture n p q ∷ capture_all n p qs

unfoldable pub runs : (ℕ → Bool) → Regex → Position → List Position
unfolding repeated
runs is_word (one test) p = step_one test p.ahead p
runs is_word empty p = p ∷ []
runs is_word (seq r s) p = flat_map (runs is_word s) (runs is_word r p)
runs is_word (alt r s) p = runs is_word r p ++ runs is_word s p
runs is_word (star r) p = repeated (runs is_word r) (length p.ahead) p
runs is_word start p = guarded (at_start p.previous) p
runs is_word finish p = guarded (at_end p.ahead) p
runs is_word boundary p = guarded (is_boundary is_word p) p
runs is_word (group n r) p = capture_all n p (runs is_word r p)

abbrev begin : Text → Position
begin s = record { previous = none; ahead = s; groups = [] }

abbrev first_groups : List Position → Option (List (ℕ × Text))
first_groups [] = none
first_groups (p ∷ ps) = some p.groups

-- `pattern.match(s)`, as the groups of the match.
unfoldable pub match_at_start : (ℕ → Bool) → Regex → Text → Option (List (ℕ × Text))
unfolding runs
match_at_start is_word r s = first_groups (runs is_word r (begin s))

abbrev advance : Position → Text → Position
advance p [] = p
advance p (c ∷ s) = record p { previous = some c; ahead = s }

-- `pattern.finditer(s)`: the matches from left to right, each after the end of the one before.
-- The patterns of the source match no empty text.
scan : (ℕ → Bool) → Regex → ℕ → Position → List (List (ℕ × Text))
unfolding runs
scan is_word r zero p = []
scan is_word r (suc n) p =
    let skipped = scan is_word r n (advance p p.ahead) in
    elim (runs is_word r p) [
      | [] ↦ skipped
      | q ∷ qs ↦
          (let found = scan is_word r n (record q { groups = [] }) in
            if ltb (length q.ahead) (length p.ahead) then q.groups ∷ found else skipped)
    ]

-- `pattern.search(s)`, as a test.
found_from : (ℕ → Bool) → Regex → ℕ → Position → Bool
unfolding runs
found_from is_word r zero p = false
found_from is_word r (suc n) p =
    let later = found_from is_word r n (advance p p.ahead) in
    elim (runs is_word r p) [ [] ↦ later | q ∷ qs ↦ true ]

unfoldable pub search_in : (ℕ → Bool) → Regex → Text → Bool
unfolding found_from
search_in is_word r s = found_from is_word r (suc (length s)) (begin s)

unfoldable pub find_all : (ℕ → Bool) → Regex → Text → List (List (ℕ × Text))
unfolding scan
find_all is_word r s = scan is_word r (suc (length s)) (begin s)

abbrev pub group_of : ℕ → List (ℕ × Text) → Option Text
group_of n [] = none
group_of n ((m, t) ∷ gs) = if n == m then some t else group_of n gs

-- `int(digits)`
abbrev pub digits_value : (ℕ → Option ℕ) → ℕ → Text → ℕ
digits_value digit acc [] = acc
digits_value digit acc (c ∷ s) = digits_value digit (acc * 10 + get_or_default (digit c) 0) s

-- What patterns are written with.
infixr 60 ◌·◌
abbrev pub ◌·◌ : Regex → Regex → Regex
r · s = seq r s

abbrev pub plus : Regex → Regex
plus r = seq r (star r)

-- `r?`, greedy
abbrev pub optional : Regex → Regex
optional r = alt r empty

abbrev pub char : ℕ → Regex
char c = one (λ d. c == d)

abbrev pub word : Text → Regex
word [] = empty
word (c ∷ s) = seq (char c) (word s)

-- A word under `re.IGNORECASE`.
abbrev pub any_case : Unicode → Text → Regex
any_case u [] = empty
any_case u (c ∷ s) = seq (one (u.same_letter c)) (any_case u s)

abbrev pub space : Unicode → Regex
space u = one u.is_space

abbrev pub digit_char : Unicode → Regex
digit_char u = one (λ c. is_some (u.digit c))

abbrev is_nil : Text → Bool
is_nil [] = true
is_nil (c ∷ s) = false

-- `re.fullmatch`, as a test.
unfoldable pub full_match : (ℕ → Bool) → Regex → Text → Bool
unfolding runs
full_match is_word r s = any (λ p. is_nil p.ahead) (runs is_word r (begin s))
