-- ===== src/Categorise.antt =====
-- features/merged_prs/categorise.py: the category of a pull request, from the files that it changed
-- or else from its labels and title.
mod Words
mod Keywords
pub mod Votes
pub mod Best
pub mod Wording
pub use Keywords.{keywords}
use gitbounty.Base.{ℕ, Bool, Option, none, some, List, [], ◌∷◌, ◌||◌, ◌==◌, any, if◌then◌else◌}
use gitbounty.Text.{Text, text, one_of, strip, Unicode}
use gitbounty.Regex.{Regex, alt, start, finish, ◌·◌, word, search_in}
use gitbounty.PullRequest.{Category, frontend, backend, docs, testing, devops, design, mobile}
use Words.{
  doc_extensions, doc_directories, doc_filenames, test_directories, devops_directories,
  devops_extensions, devops_filenames, mobile_directories, mobile_extensions, mobile_filenames,
  design_directories, design_extensions, frontend_extensions, frontend_directories,
  backend_extensions, backend_directories, backend_filenames,
}

-- `s.split(c)`: never empty, so it comes as the first part and the others.
abbrev cons_first : ℕ → Text × List Text → Text × List Text
cons_first a (s, ss) = (a ∷ s, ss)

unfoldable pub split_on : ℕ → Text → Text × List Text
split_on c [] = ([], [])
split_on c (a ∷ s) =
    let rest = split_on c s in if a == c then ([], rest.0 ∷ rest.1) else cons_first a rest

abbrev init_last : Text → List Text → List Text × Text
init_last s [] = ([], s)
init_last s (t ∷ ts) = let rest = init_last t ts in (s ∷ rest.0, rest.1)

-- The directories and the filename of a cleaned path.
abbrev segments_of : Text × List Text → List Text × Text
segments_of (s, ss) = init_last s ss

-- `filename.rpartition(".")` with the separator dropped: `none` if there is no dot.
abbrev after_dot : ℕ → Text → Option (Text × Text) → Option (Text × Text)
after_dot a s (some (stem, extension)) = some (a ∷ stem, extension)
after_dot a s none = if a == b'.' then some ([], s) else none

unfoldable pub rpartition : Text → Option (Text × Text)
rpartition [] = none
rpartition (a ∷ s) = after_dot a s (rpartition s)

-- The stem and the extension; a name with no stem before its last dot is all stem.
abbrev stem_extension : Text → Option (Text × Text) → Text × Text
stem_extension filename none = (filename, [])
stem_extension filename (some ([], extension)) = (filename, [])
stem_extension filename (some (c ∷ stem, extension)) = (c ∷ stem, b'.' ∷ extension)

pub record SplitPath : Type 0 where
  pub directories : List Text
  pub stem : Text
  pub extension : Text

-- `_split`
unfoldable pub split_path : Unicode → Text → SplitPath
unfolding split_on rpartition
split_path u path =
    let clean = u.casefold (strip (λ c. c == b'/') (strip u.is_space path)) in
    let (directories, filename) = segments_of (split_on b'/' clean) in
    let (stem, extension) = stem_extension filename (rpartition filename) in
    record { directories = directories; stem = stem; extension = extension }

-- `_TEST_FILENAME_PATTERN`
abbrev test_filename : Regex
test_filename = alt (start · word (text "test_")) (
    alt (word (text "_test") · finish) (
      alt (word (text ".test") · finish) (
        alt (word (text ".spec") · finish)
          (alt (start · word (text "conftest") · finish) (start · word (text "test") · finish)))))

-- `segments & names`, as a test.
abbrev share : List Text → List Text → Bool
share segments names = any (λ s. one_of s names) segments

-- The outermost directory that is a frontend or a backend one.
by_directory : List Text → Option Category
by_directory [] = none
by_directory (d ∷ ds) =
    let rest = by_directory ds in
    if one_of d frontend_directories
    then some frontend
    else if one_of d backend_directories
    then some backend
    else rest

-- The last tests of `classify_path`; its test of `_AMBIGUOUS_EXTENSIONS` decides nothing.
abbrev by_extension : SplitPath → Option Category
by_extension p =
    if one_of p.extension frontend_extensions
    then some frontend
    else if one_of p.extension backend_extensions || one_of p.stem backend_filenames
    then some backend
    else none

abbrev or_else : Option Category → Option Category → Option Category
or_else none d = d
or_else (some c) d = some c

unfoldable pub classify_split : Unicode → SplitPath → Option Category
unfolding by_directory search_in
classify_split u p =
    if share p.directories doc_directories
      || one_of p.extension doc_extensions
      || one_of p.stem doc_filenames
    then some docs
    else if share p.directories test_directories || search_in u.is_word test_filename p.stem
    then some testing
    else if share p.directories devops_directories
        || one_of p.extension devops_extensions
        || one_of p.stem devops_filenames
    then some devops
    else if share p.directories mobile_directories
        || one_of p.extension mobile_extensions
        || one_of p.stem mobile_filenames
    then some mobile
    else if share p.directories design_directories || one_of p.extension design_extensions
    then some design
    else or_else (by_directory p.directories) (by_extension p)

unfoldable pub classify_path : Unicode → Text → Option Category
unfolding classify_split split_path
classify_path u path = classify_split u (split_path u path)
