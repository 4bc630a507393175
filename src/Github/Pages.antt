-- ===== src/Github/Pages.antt =====
-- The loop over the pages of a search, against the list that the pages are cut from.
use gitbounty.Base.{
  ℕ, zero, suc, ◌+◌, ◌*◌, ◌<◌, ◌≡◌, refl, sym, ap, ◌∙◌, Bool-cases, inl, inr, Option, none, some,
  List, [], ◌∷◌, ◌++◌, take, drop, take-add, take-all, drop-add, length, length-take, ltb, ltb→lt,
  arith, append_assoc, append-nil,
}
use gitbounty.Github.{Response, done, read_response, per_page, cons_some, read_all, fetch_pages}

module _ {ℓ κ} {A : Type ℓ} {B : Type κ} (f : A → Option B) where
  cons_some-append : (o : Option B) (xs ys : List B) → cons_some o (xs ++ ys) ≡ cons_some o xs ++ ys
  cons_some-append none xs ys = refl
  cons_some-append (some y) xs ys = refl

  read_all-append : (xs ys : List A) → read_all f (xs ++ ys) ≡ read_all f xs ++ read_all f ys
  read_all-append [] ys = refl
  read_all-append (x ∷ xs) ys =
      ap (cons_some (f x)) (read_all-append xs ys)
      ∙ cons_some-append (f x) (read_all f xs) (read_all f ys)

  -- The server answers page by page from one list, the first page having number 1.
  abbrev pub Serves : (ℕ → Response (List A)) → List A → Type ℓ
  Serves get items =
      (p : ℕ) → read_response (get (p + 1)) ≡ done (take per_page (drop (per_page * p) items))

  module _ (get : ℕ → Response (List A)) (items : List A) (serves : Serves get items) where
    -- The items from a page on.
    abbrev from_page : ℕ → List A
    from_page p = drop (per_page * p) items

    from_page-suc : (p : ℕ) → from_page (p + 1) ≡ drop per_page (from_page p)
    from_page-suc p = ap (λ n. drop n items) (omega arith) ∙ drop-add (per_page * p) per_page items

    pages-split :
        (left p : ℕ)
        → take (per_page * suc left) (from_page p)
          ≡ take per_page (from_page p) ++ take (per_page * left) (from_page (p + 1))
    pages-split left p =
        ap (λ n. take n (from_page p)) (omega arith)
        ∙ take-add per_page (per_page * left) (from_page p)
        ∙ ap (λ xs. take per_page (from_page p) ++ take (per_page * left) xs)
            (sym (from_page-suc p))

    last_page :
        (left p : ℕ)
        → length (take per_page (from_page p)) < per_page
        → take (per_page * suc left) (from_page p) ≡ take per_page (from_page p)
    last_page left p h =
        let short : length (from_page p) < per_page =
          omega (arith, length-take per_page (from_page p)) in
        take-all (per_page * suc left) (from_page p) (omega (arith, short))
        ∙ sym (take-all per_page (from_page p) (omega (arith, short)))

    more :
        (left p : ℕ) (found : List B)
        → (found ++ read_all f (take per_page (from_page p)))
            ++ read_all f (take (per_page * left) (from_page (p + 1)))
          ≡ found ++ read_all f (take (per_page * suc left) (from_page p))
    more left p found =
        append_assoc found _ _
        ∙ ap (λ xs. found ++ xs)
            (sym (read_all-append (take per_page (from_page p)) _)
              ∙ ap (read_all f) (sym (pages-split left p)))

    fetch_pages-from :
        (left p : ℕ) (found : List B)
        → fetch_pages f get left (p + 1) found
          ≡ done (found ++ read_all f (take (per_page * left) (from_page p)))
    unfolding fetch_pages
    fetch_pages-from zero p found = ap done (sym (append-nil found))
    fetch_pages-from (suc left) p found =
        elim (Bool-cases (ltb (length (take per_page (from_page p))) per_page)) [
          | inl short ↦
              rw (serves p, fetch_pages) (rw (short, last_page left p (ltb→lt _ _ short)) refl)
          | inr full ↦
              rw (serves p, fetch_pages)
                (rw full (fetch_pages-from left (p + 1) _ ∙ ap done (more left p found)))
        ]

    -- From a server that answers page by page, the loop returns what it reads of the items on the
    -- pages that it may ask for.
    pub fetch_pages-eq :
        (pages : ℕ)
        → fetch_pages f get pages 1 [] ≡ done (read_all f (take (per_page * pages) items))
    fetch_pages-eq pages = fetch_pages-from pages 0 []
