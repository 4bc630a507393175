-- ===== src/Tests/Labels.antt =====
-- Labels with points, a text that closes one issue twice, and changed files.
use gitbounty.Base.{ℕ, ◌≡◌, refl, some, List, [], ◌∷◌, ◌≤◌, All, Any, ◌⊎◌}
use gitbounty.Text.{Text, text, ascii}
use gitbounty.PullRequest.{backend, docs}
use gitbounty.Categorise.{classify_path, classify_split, split_path, split_on, rpartition}
use gitbounty.Categorise.Votes.{
  verdicts, contenders, votes_for, stack_verdict, winner, from_file_paths,
}
use gitbounty.Categorise.Best.{IsBest, from_file_paths-IsBest}
use gitbounty.Regex.{match_at_start, runs, find_all}
use gitbounty.IssueLinks.{find_closed_issues, add_unseen}
use gitbounty.IssueLinks.Unseen.{Different, find_closed_issues-Different}
use gitbounty.Rules.{
  points_from_labels, suggested_bounty_points, validate_bounty_points, all_values, label_values,
}
use gitbounty.Rules.Suggestion.{points_from_labels-greatest, suggested_bounty_points-valid}

abbrev labels : List Text
labels = text "Points: 5" ∷ text "bug" ∷ text "2000 xp" ∷ []

labels_points : points_from_labels ascii labels ≡ some 2000
unfolding points_from_labels all_values label_values match_at_start runs
labels_points = refl

points_from_labels-greatest_example :
    Any (λ m. m ≡ 2000) (all_values ascii labels) × All (λ m. m ≤ 2000) (all_values ascii labels)
points_from_labels-greatest_example = points_from_labels-greatest ascii labels 2000 labels_points

abbrev suggested : ℕ
suggested = 1000

labels_bounty : suggested_bounty_points ascii labels ≡ some 1000
unfolding suggested_bounty_points points_from_labels all_values label_values match_at_start runs
labels_bounty = refl

suggested_bounty_points-valid_example :
    (validate_bounty_points suggested ≡ some suggested)
    × (validate_bounty_points 2000 ≡ some 2000 → suggested ≡ 2000)
suggested_bounty_points-valid_example =
    suggested_bounty_points-valid ascii labels 1000 2000 labels_points labels_bounty

find_closed_issues-Different_example :
    Different (find_closed_issues ascii (text "Fixes #3, closes #3") (text "acme/site"))
find_closed_issues-Different_example =
    find_closed_issues-Different ascii (text "Fixes #3, closes #3") (text "acme/site")

one_issue :
    find_closed_issues ascii (text "Fixes #3, closes #3") (text "acme/site")
    ≡ record { repo_full_name = text "acme/site"; number = 3 } ∷ []
unfolding find_closed_issues add_unseen find_all match_at_start runs
one_issue = refl

abbrev paths : List Text
paths = text "src/api/login.py" ∷ text "tests/test_login.py" ∷ text "README.md" ∷ []

one_each : from_file_paths ascii paths ≡ some backend
unfolding from_file_paths classify_path classify_split split_path split_on rpartition verdicts
    contenders votes_for stack_verdict winner
one_each = refl

from_file_paths-IsBest_example :
    let rivals = contenders (verdicts (classify_path ascii) paths) in
    ((rivals ≡ []) × (backend ≡ docs)) ⊎ IsBest backend rivals
from_file_paths-IsBest_example = from_file_paths-IsBest ascii paths backend one_each
