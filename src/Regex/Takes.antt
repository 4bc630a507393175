-- ===== src/Regex/Takes.antt =====
-- What a pattern may take from the front of a text.
use gitbounty.Base.{
  ℕ, ◌≡◌, refl, Bool, true, List, [], ◌∷◌, ◌++◌, Any, here, there, Any-append_left, Any-map, any,
  arith,
}
use gitbounty.Text.{Text}
use gitbounty.Regex.{Regex, Position, one, empty, alt, flat_map, runs, full_match, ◌·◌}

Any-append_right {ℓ κ} :
    {A : Type ℓ} {P : A → Type κ} (xs : List A) {ys : List A} → Any P ys → Any P (xs ++ ys)
Any-append_right [] m = m
Any-append_right (x ∷ xs) m = there (Any-append_right xs m)

Any-flat_map :
    {A B : Type 0} {P : A → Type 0} {Q : B → Type 0} (f : A → List B) (xs : List A)
    → ((x : A) → P x → Any Q (f x))
    → Any P xs
    → Any Q (flat_map f xs)
Any-flat_map f [] g m = elim m [ ]
Any-flat_map f (x ∷ xs) g (here p) = Any-append_left _ (g x p)
Any-flat_map f (x ∷ xs) g (there m) = Any-append_right (f x) (Any-flat_map f xs g m)

Any→any : {A : Type 0} (p : A → Bool) (xs : List A) → Any (λ x. p x ≡ true) xs → any p xs ≡ true
Any→any p [] m = elim m [ ]
Any→any p (x ∷ xs) (here h) = ground arith
Any→any p (x ∷ xs) (there m) = ground (arith, Any→any p xs m)

module _ (is_word : ℕ → Bool) where
  -- Wherever the text `s` is ahead, one of the ways to match leaves `t` of it.
  abbrev pub Takes : Regex → Text → Text → Type 0
  Takes r s t = (p : Position) → p.ahead ≡ s → Any (λ q. q.ahead ≡ t) (runs is_word r p)

  pub one-Takes : (test : ℕ → Bool) (c : ℕ) (s : Text) → test c ≡ true → Takes (one test) (c ∷ s) s
  unfolding runs
  one-Takes test c s h p e = rw e (rw h (here refl))

  pub empty-Takes : (s : Text) → Takes empty s s
  unfolding runs
  empty-Takes s p e = here e

  pub ·-Takes : (r r' : Regex) {s t v : Text} → Takes r s t → Takes r' t v → Takes (r · r') s v
  unfolding runs
  ·-Takes r r' f g p e = Any-flat_map (runs is_word r') (runs is_word r p) g (f p e)

  pub alt-Takes_left : (r r' : Regex) {s t : Text} → Takes r s t → Takes (alt r r') s t
  unfolding runs
  alt-Takes_left r r' f p e = Any-append_left _ (f p e)

  pub alt-Takes_right : (r r' : Regex) {s t : Text} → Takes r' s t → Takes (alt r r') s t
  unfolding runs
  alt-Takes_right r r' f p e = Any-append_right (runs is_word r p) (f p e)

  pub full_match-Takes : (r : Regex) (s : Text) → Takes r s [] → full_match is_word r s ≡ true
  unfolding full_match
  full_match-Takes r s f = Any→any _ (runs is_word r _) (Any-map (λ q e. rw e refl) (f _ refl))
