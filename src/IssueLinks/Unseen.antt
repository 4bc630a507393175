-- ===== src/IssueLinks/Unseen.antt =====
-- The references that `find_closed_issues` returns, compared with one another.
use gitbounty.Base.{
  ◌≡◌, false, List, [], ◌∷◌, ◌++◌, arith, All, All-append, map, Bool-cases, inl, inr, any,
}
use gitbounty.Text.{Text, Unicode}
use gitbounty.IssueLinks.{
  IssueReference, same_reference, to_reference, url_reference, short_reference, add_unseen,
  find_closed_issues,
}
use gitbounty.Regex.{find_all}

-- No reference is the same as one before it.
abbrev pub Different : List IssueReference → Type 0
Different [] = Unit
Different (r ∷ rs) = All (λ s. same_reference s r ≡ false) rs × Different rs

Different-snoc :
    (found : List IssueReference) (r : IssueReference)
    → Different found
    → any (same_reference r) found ≡ false
    → Different (found ++ r ∷ [])
Different-snoc [] r d h = (tt, tt)
Different-snoc (s ∷ found) r d h =
    (All-append _ found (r ∷ []) d.0 (ground arith, tt), Different-snoc found r d.1 (ground arith))

add_unseen-Different :
    (found rs : List IssueReference) → Different found → Different (add_unseen found rs)
unfolding add_unseen
add_unseen-Different found [] d = d
add_unseen-Different found (r ∷ rs) d = elim (Bool-cases (any (same_reference r) found)) [
  | inl seen ↦ rw seen (add_unseen-Different found rs d)
  | inr fresh ↦
      rw fresh (add_unseen-Different (found ++ r ∷ []) rs (Different-snoc found r d fresh))
]

-- `find_closed_issues` never returns one reference twice.
pub find_closed_issues-Different :
    (u : Unicode) (s default_repo : Text) → Different (find_closed_issues u s default_repo)
unfolding find_closed_issues
find_closed_issues-Different u [] default_repo = tt
find_closed_issues-Different u (c ∷ s) default_repo =
    add_unseen-Different []
      (map (to_reference u default_repo) (find_all u.is_word (url_reference u) (c ∷ s))
        ++ map (to_reference u default_repo) (find_all u.is_word (short_reference u) (c ∷ s)))
      tt
