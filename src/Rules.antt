-- ===== src/Rules.antt =====
-- features/points/rules.py: what a merge is worth, the bounds on a bounty, and the values that a
-- maintainer wrote in labels.
pub mod Suggestion
use gitbounty.Base.{
  ℕ, Bool, Option, none, some, List, [], ◌∷◌, ◌++◌, ◌&&◌, ◌||◌, ◌==◌, min, max, leb, if◌then◌else◌,
  get_or_default,
}
use gitbounty.Text.{Text, text, Unicode}
use gitbounty.Regex.{
  Regex, one, alt, star, start, finish, group, ◌·◌, plus, optional, any_case, space, digit_char,
  match_at_start, group_of, digits_value,
}

abbrev pub flat_points_per_merge : ℕ
flat_points_per_merge = 5

abbrev pub min_issue_points : ℕ
min_issue_points = 1

abbrev pub max_issue_points : ℕ
max_issue_points = 1000

module _ (u : Unicode) where
  abbrev separator : Regex
  separator = optional (one (λ c. c == b':' || c == b'=' || c == b'-'))

  abbrev prefixed : Text → Regex
  prefixed w =
      start
      · star (space u)
      · any_case u w
      · star (space u)
      · separator
      · star (space u)
      · group 0 (plus (digit_char u))
      · star (space u)
      · finish

  -- `_LABEL_PATTERNS`
  abbrev pub label_patterns : List Regex
  label_patterns =
      prefixed (text "gitbounty")
      ∷ prefixed (text "points")
      ∷ (start
          · star (space u)
          · group 0 (plus (digit_char u))
          · star (space u)
          · alt (any_case u (text "points"))
              (alt (any_case u (text "pts")) (any_case u (text "xp")))
          · star (space u)
          · finish)
      ∷ []

  -- `int(match.group(1))` of the patterns that match one label.
  unfoldable pub label_values : List Regex → Text → List ℕ
  unfolding match_at_start
  label_values [] label = []
  label_values (r ∷ rs) label =
      let rest = label_values rs label in
      elim (match_at_start u.is_word r label) [
        | none ↦ rest
        | some gs ↦ digits_value u.digit 0 (get_or_default (group_of 0 gs) []) ∷ rest
      ]

  -- `found`
  unfoldable pub all_values : List Text → List ℕ
  unfolding label_values
  all_values [] = []
  all_values (label ∷ labels) = label_values label_patterns label ++ all_values labels

abbrev pub maximum : ℕ → List ℕ → ℕ
maximum n [] = n
maximum n (m ∷ ms) = maximum (max n m) ms

abbrev pub max_of : List ℕ → Option ℕ
max_of [] = none
max_of (n ∷ ns) = some (maximum n ns)

unfoldable pub points_from_labels : Unicode → List Text → Option ℕ
unfolding all_values
points_from_labels u labels = max_of (all_values u labels)

abbrev pub is_valid_bounty_points : ℕ → Bool
is_valid_bounty_points points = leb min_issue_points points && leb points max_issue_points

-- `none` is `PointsOutOfRange`.
unfoldable pub validate_bounty_points : ℕ → Option ℕ
validate_bounty_points points = if is_valid_bounty_points points then some points else none

abbrev clamp : ℕ → ℕ
clamp value = min (max value min_issue_points) max_issue_points

unfoldable pub suggested_bounty_points : Unicode → List Text → Option ℕ
suggested_bounty_points u labels = elim (points_from_labels u labels) [
  | none ↦ none
  | some value ↦ some (clamp value)
]

abbrev pub baseline_award : ℕ
baseline_award = flat_points_per_merge
