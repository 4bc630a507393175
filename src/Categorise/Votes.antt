-- ===== src/Categorise/Votes.antt =====
-- features/merged_prs/categorise.py: the verdicts on the changed files, counted.
use gitbounty.Base.{
  ℕ, ◌+◌, ◌*◌, Bool, Option, none, some, List, [], ◌∷◌, ◌&&◌, ◌==◌, min, ltb, leb, if◌then◌else◌,
}
use gitbounty.Text.{Text, Unicode}
use gitbounty.PullRequest.{
  Category, frontend, backend, fullstack, docs, testing, devops, design, mobile, other,
}
use gitbounty.Categorise.{classify_path}

-- A number for each category, to compare two by.
abbrev category_index : Category → ℕ
category_index frontend = 0
category_index backend = 1
category_index fullstack = 2
category_index docs = 3
category_index testing = 4
category_index devops = 5
category_index design = 6
category_index mobile = 7
category_index other = 8

abbrev pub same_category : Category → Category → Bool
same_category a b = category_index a == category_index b

-- `_stack_verdict`. `min(f, b) / code >= 0.25` is `code <= 4 * min(f, b)`: for fewer than 2 ** 53
-- files the rounding of the quotient does not cross 0.25.
unfoldable pub stack_verdict : ℕ → ℕ → Option Category × ℕ
stack_verdict frontend_count backend_count =
    let code = frontend_count + backend_count in
    if code == 0
    then (none, 0)
    else if ltb 0 frontend_count
        && ltb 0 backend_count
        && leb code (4 * min frontend_count backend_count)
    then (some fullstack, code)
    else if frontend_count == backend_count
    then (some fullstack, code)
    else (some (if ltb backend_count frontend_count then frontend else backend), code)

-- `votes`: the verdicts of the files that have one, in order.
unfoldable pub verdicts : (Text → Option Category) → List Text → List Category
verdicts classify [] = []
verdicts classify (p ∷ ps) =
    let rest = verdicts classify ps in elim (classify p) [ none ↦ rest | some c ↦ c ∷ rest ]

-- `votes[category]`
unfoldable pub votes_for : Category → List Category → ℕ
votes_for c [] = 0
votes_for c (d ∷ ds) = (if same_category c d then 1 else 0) + votes_for c ds

abbrev add_contender : ℕ → Category → List (ℕ × Category) → List (ℕ × Category)
add_contender n c rest = if n == 0 then rest else (n, c) ∷ rest

abbrev stack_contender : Option Category × ℕ → List (ℕ × Category)
stack_contender (none, n) = []
stack_contender (some c, n) = (n, c) ∷ []

unfoldable pub contenders : List Category → List (ℕ × Category)
unfolding votes_for stack_verdict
contenders votes = add_contender (votes_for testing votes) testing (
    add_contender (votes_for devops votes) devops (
      add_contender (votes_for design votes) design (
        add_contender (votes_for mobile votes) mobile
          (stack_contender (stack_verdict (votes_for frontend votes) (votes_for backend votes))))))

-- The index in `_TIE_BREAK_ORDER`; `docs` and `other` are not in it.
abbrev pub tie_break : Category → ℕ
tie_break fullstack = 0
tie_break backend = 1
tie_break frontend = 2
tie_break mobile = 3
tie_break devops = 4
tie_break testing = 5
tie_break design = 6
tie_break _ = 7

-- `best`, and the earliest in `_TIE_BREAK_ORDER` of the contenders with that count.
abbrev pub better : ℕ × Category → ℕ × Category → Bool
better (n, c) (m, d) = if n == m then ltb (tie_break c) (tie_break d) else ltb m n

unfoldable pub winner : ℕ × Category → List (ℕ × Category) → Category
winner best [] = best.1
winner best (x ∷ xs) = winner (if better x best then x else best) xs

abbrev pub decide : List (ℕ × Category) → Category
decide [] = docs
decide (x ∷ xs) = winner x xs

abbrev pub from_votes : List Category → Option Category
from_votes [] = none
from_votes (v ∷ vs) = some (decide (contenders (v ∷ vs)))

-- `_from_file_paths`
unfoldable pub from_file_paths : Unicode → List Text → Option Category
unfolding verdicts contenders winner classify_path
from_file_paths u paths = from_votes (verdicts (classify_path u) paths)
