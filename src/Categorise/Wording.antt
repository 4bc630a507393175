-- ===== src/Categorise/Wording.antt =====
-- features/merged_prs/categorise.py: the category that the labels or the title name, and
-- `categorise`, which prefers the changed files.
use gitbounty.Base.{
  ℕ, Bool, Option, none, some, List, [], ◌∷◌, ◌++◌, ◌&&◌, ◌||◌, leb, any, keep_if, if◌then◌else◌,
  get_or_default,
}
use gitbounty.Text.{Text, one_of, Unicode}
use gitbounty.Regex.{Regex, one, star, group, ◌·◌, plus, char, find_all, group_of}
use gitbounty.PullRequest.{
  Category, frontend, backend, fullstack, docs, testing, devops, design, mobile, other,
}
use gitbounty.Categorise.{keywords, split_on}
use gitbounty.Categorise.Votes.{same_category, from_file_paths}

-- `[a-z0-9]+(?:-[a-z0-9]+)*`, the whole of it as group 0
abbrev word_pattern : Regex
word_pattern =
    let letters = plus (one (λ c. leb b'a' c && leb c b'z' || leb b'0' c && leb c b'9')) in
    group 0 (letters · star (char b'-' · letters))

abbrev with_parts : List (List (ℕ × Text)) → List Text
with_parts [] = []
with_parts (gs ∷ rest) =
    let w = get_or_default (group_of 0 gs) [] in
    let parts = split_on b'-' w in w ∷ parts.0 ∷ (parts.1 ++ with_parts rest)

-- `_words`; the set is a list, and only membership in it is asked.
unfoldable pub words : Unicode → Text → List Text
unfolding find_all split_on
words u s = with_parts (find_all u.is_word word_pattern (u.casefold s))

-- `words & _KEYWORDS[category]`, as a test.
unfoldable pub mentions : List Text → Category → Bool
mentions ws c = any (λ w. one_of w (keywords c)) ws

-- `_TEXT_PRIORITY`
abbrev pub text_priority : List Category
text_priority = mobile ∷ devops ∷ testing ∷ design ∷ backend ∷ frontend ∷ docs ∷ []

-- `min(specific or matched, key=_TEXT_PRIORITY.index)`: `matched` is in the order of the priorities,
-- with `docs` last, so its first member is meant.
abbrev first_of_all : List Category → Option Category
first_of_all [] = none
first_of_all (c ∷ cs) = some c

unfoldable pub matched : List Text → List Category
unfolding mentions
matched ws = keep_if (mentions ws) text_priority

unfoldable pub from_words : List Text → Option Category
unfolding matched
from_words ws =
    if mentions ws fullstack
    then some fullstack
    else if any (same_category frontend) (matched ws) && any (same_category backend) (matched ws)
    then some fullstack
    else first_of_all (matched ws)

-- `" ".join(labels)`
abbrev join_labels : List Text → Text
join_labels [] = []
join_labels (l ∷ []) = l
join_labels (l ∷ ls) = l ++ (b' ' ∷ join_labels ls)

abbrev or_else : Option Category → Option Category → Option Category
or_else none d = d
or_else (some c) d = some c

-- `_from_text`: the labels are asked before the title. A source with no words names nothing.
unfoldable pub from_text : Unicode → List Text → Text → Option Category
unfolding words from_words
from_text u labels title =
    or_else (from_words (words u (join_labels labels))) (from_words (words u title))

-- `categorise`, of the labels and the title of either shape and the changed files.
unfoldable pub categorise : Unicode → List Text → Text → List Text → Category
unfolding from_file_paths from_text
categorise u labels title paths =
    get_or_default (or_else (from_file_paths u paths) (from_text u labels title)) other
