-- ===== src/IssueLinks.antt =====
-- features/merged_prs/issue_links.py: the issues that a pull request says it closes.
pub mod Unseen
use gitbounty.Base.{
  ℕ, Bool, List, [], ◌∷◌, ◌++◌, ◌&&◌, ◌||◌, ◌==◌, map, if◌then◌else◌, get_or_default, any,
}
use gitbounty.Text.{Text, text, text_eq, Unicode}
use gitbounty.Regex.{
  Regex, one, empty, alt, star, boundary, group, ◌·◌, plus, optional, char, any_case, space,
  digit_char, find_all, group_of, digits_value,
}

pub record IssueReference : Type 0 where
  pub repo_full_name : Text
  pub number : ℕ

-- Equality of the frozen dataclass, which the set `seen` is built on.
abbrev pub same_reference : IssueReference → IssueReference → Bool
same_reference a b = text_eq a.repo_full_name b.repo_full_name && a.number == b.number

module _ (u : Unicode) where
  -- `_KEYWORDS`
  abbrev pub keywords : Regex
  keywords =
      alt
        (any_case u (text "clos")
          · alt (any_case u (text "e")) (alt (any_case u (text "es")) (any_case u (text "ed"))))
        (alt
          (any_case u (text "fix")
            · alt empty (alt (any_case u (text "es")) (any_case u (text "ed"))))
          (any_case u (text "resolv")
            · alt (any_case u (text "e")) (alt (any_case u (text "es")) (any_case u (text "ed")))))

  -- `[\w.-]+/[\w.-]+`, group 0
  abbrev pub repository : Regex
  repository =
      let part = plus (one (λ c. u.is_word c || c == b'.' || c == b'-')) in
      group 0 (part · char b'/' · part)

  -- `\b(?:_KEYWORDS)\b\s*:?\s+`
  abbrev pub closing : Regex
  closing = boundary · keywords · boundary · star (space u) · optional (char b':') · plus (space u)

  -- `_SHORT_REFERENCE`
  abbrev pub short_reference : Regex
  short_reference = closing · optional repository · char b'#' · group 1 (plus (digit_char u))

  -- `_URL_REFERENCE`
  abbrev pub url_reference : Regex
  url_reference =
      closing
      · any_case u (text "http")
      · optional (any_case u (text "s"))
      · any_case u (text "://github.com/")
      · repository
      · any_case u (text "/issues/")
      · group 1 (plus (digit_char u))

  abbrev pub to_reference : Text → List (ℕ × Text) → IssueReference
  to_reference default_repo gs = record {
    repo_full_name = get_or_default (group_of 0 gs) default_repo;
    number = digits_value u.digit 0 (get_or_default (group_of 1 gs) []);
  }

-- `seen` and `found` hold the same references.
unfoldable pub add_unseen : List IssueReference → List IssueReference → List IssueReference
add_unseen found [] = found
add_unseen found (r ∷ rs) =
    add_unseen (if any (same_reference r) found then found else found ++ r ∷ []) rs

unfoldable pub find_closed_issues : Unicode → Text → Text → List IssueReference
unfolding add_unseen find_all
find_closed_issues u [] default_repo = []
find_closed_issues u (c ∷ s) default_repo = add_unseen [] (
    map (to_reference u default_repo) (find_all u.is_word (url_reference u) (c ∷ s))
    ++ map (to_reference u default_repo) (find_all u.is_word (short_reference u) (c ∷ s)))
