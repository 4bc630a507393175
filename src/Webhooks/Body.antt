-- ===== src/Webhooks/Body.antt =====
-- The body of a request against the chunks that it comes in.
use gitbounty.Base.{
  ℕ, ◌≤◌, ◌≡◌, sym, ap, ◌∙◌, true, Option, none, some, List, [], ◌∷◌, ◌++◌, ltb, length,
  length-append, append_assoc, append-nil, arith, Bool-cases, inl, inr, if◌then◌else◌,
}
use gitbounty.Webhooks.{max_body, read_body}

abbrev pub joined : List (List ℕ) → List ℕ
joined [] = []
joined (chunk ∷ chunks) = chunk ++ joined chunks

-- The bytes that a limit admits.
abbrev pub within : List ℕ → Option (List ℕ)
within bytes = if ltb max_body (length bytes) then none else some bytes

within-some : (bytes : List ℕ) → length bytes ≤ max_body → within bytes ≡ some bytes
within-some bytes h = ground arith

within-none : (xs ys : List ℕ) → ltb max_body (length xs) ≡ true → within (xs ++ ys) ≡ none
within-none xs ys h = ground (arith, length-append xs ys)

read_body-from :
    (chunks : List (List ℕ)) (body : List ℕ)
    → length body ≤ max_body
    → read_body body chunks ≡ within (body ++ joined chunks)
unfolding read_body
read_body-from [] body h = rw (append-nil body) (sym (within-some body h))
read_body-from (chunk ∷ chunks) body h = elim (Bool-cases (ltb max_body (length (body ++ chunk)))) [
  | inl over ↦ rw over (
      sym (
        ap within (sym (append_assoc body chunk (joined chunks)))
        ∙ within-none (body ++ chunk) (joined chunks) over))
  | inr fits ↦ rw fits (
      read_body-from chunks (body ++ chunk) (ground arith)
      ∙ ap within (append_assoc body chunk (joined chunks)))
]

-- However a body is cut into chunks, it is read whole if it has at most two megabytes, and refused
-- otherwise.
pub read_body-eq-within : (chunks : List (List ℕ)) → read_body [] chunks ≡ within (joined chunks)
read_body-eq-within chunks = read_body-from chunks [] (omega arith)
