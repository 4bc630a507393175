-- ===== src/Base/Lists.antt =====
-- Lists over the native numbers, and the predicates that hold of all members, of one, or of pairs.
use Prim.Native.Nat.{ℕ, zero, suc, ◌+◌, ◌≤◌, min}
use mathlib.Core.Path.{◌≡◌, refl, sym, ap}
use mathlib.Core.Logic.{◌⊎◌, inl, inr}
use mathlib.Core.Bool.{Bool, true, false, ◌||◌}
use mathlib.Core.List.{List, [], ◌∷◌, ◌++◌, map}
use native.Mathlib.Nat.{zero-add, suc-add}
use native.Mathlib.Omega.{arith}

module _ {ℓ} {A : Type ℓ} where
  abbrev pub length : List A → ℕ
  length [] = 0
  length (x ∷ xs) = suc (length xs)

  pub length-append : (xs ys : List A) → length (xs ++ ys) ≡ length xs + length ys
  length-append [] ys = omega arith
  length-append (x ∷ xs) ys = omega (arith, length-append xs ys)

  -- `xs[:n]` and `xs[n:]`
  abbrev pub take : ℕ → List A → List A
  take zero xs = []
  take (suc n) [] = []
  take (suc n) (x ∷ xs) = x ∷ take n xs

  abbrev pub drop : ℕ → List A → List A
  drop zero xs = xs
  drop (suc n) [] = []
  drop (suc n) (x ∷ xs) = drop n xs

  pub length-take : (n : ℕ) (xs : List A) → length (take n xs) ≡ min n (length xs)
  length-take zero xs = omega arith
  length-take (suc n) [] = omega arith
  length-take (suc n) (x ∷ xs) = omega (arith, length-take n xs)

  pub take-all : (n : ℕ) (xs : List A) → length xs ≤ n → take n xs ≡ xs
  take-all zero [] h = refl
  take-all zero (x ∷ xs) h = absurd (omega arith)
  take-all (suc n) [] h = refl
  take-all (suc n) (x ∷ xs) h = ap (λ t. x ∷ t) (take-all n xs (omega arith))

  take-nil : (n : ℕ) → (let e : List A = [] in take n e) ≡ []
  take-nil zero = refl
  take-nil (suc n) = refl

  drop-nil : (n : ℕ) → (let e : List A = [] in drop n e) ≡ []
  drop-nil zero = refl
  drop-nil (suc n) = refl

  pub take-add : (m n : ℕ) (xs : List A) → take (m + n) xs ≡ take m xs ++ take n (drop m xs)
  take-add zero n xs = rw zero-add
  take-add (suc m) n [] = rw suc-add (sym (take-nil n))
  take-add (suc m) n (x ∷ xs) = rw suc-add (ap (λ t. x ∷ t) (take-add m n xs))

  pub drop-add : (m n : ℕ) (xs : List A) → drop (m + n) xs ≡ drop n (drop m xs)
  drop-add zero n xs = rw zero-add
  drop-add (suc m) n [] = rw suc-add (sym (drop-nil n))
  drop-add (suc m) n (x ∷ xs) = rw suc-add (drop-add m n xs)

  -- Python's `any(p(x) for x in xs)`.
  abbrev pub any : (A → Bool) → List A → Bool
  any p [] = false
  any p (x ∷ xs) = p x || any p xs

  -- `[x for x in xs if p(x)]`
  abbrev pub keep_if : (A → Bool) → List A → List A
  keep_if p [] = []
  keep_if p (x ∷ xs) = let rest = keep_if p xs in elim (p x) [ true ↦ x ∷ rest | false ↦ rest ]

module _ {ℓ κ} {A : Type ℓ} where
  abbrev pub All : (A → Type κ) → List A → Type κ
  All P [] = Unit
  All P (x ∷ xs) = P x × All P xs

  -- Some member has the property, and which one is kept.
  pub data Any (P : A → Type κ) : List A → Type (ℓ ⊔ κ) where
    here : {x : A} {xs : List A} → P x → Any P (x ∷ xs)
    there : {x : A} {xs : List A} → Any P xs → Any P (x ∷ xs)

  pub All-append : (P : A → Type κ) (xs ys : List A) → All P xs → All P ys → All P (xs ++ ys)
  All-append P [] ys h k = k
  All-append P (x ∷ xs) ys h k = (h.0, All-append P xs ys h.1 k)

  pub Any-append_left : {P : A → Type κ} {xs : List A} (ys : List A) → Any P xs → Any P (xs ++ ys)
  Any-append_left ys (here p) = here p
  Any-append_left ys (there m) = there (Any-append_left ys m)

module _ {ℓ κ κ'} {A : Type ℓ} {P : A → Type κ} {Q : A → Type κ'} where
  pub All-map : (xs : List A) → ((x : A) → P x → Q x) → All P xs → All Q xs
  All-map [] f h = tt
  All-map (x ∷ xs) f h = (f x h.0, All-map xs f h.1)

  pub Any-map : {xs : List A} → ((x : A) → P x → Q x) → Any P xs → Any Q xs
  Any-map f (here {x = x} p) = here (f x p)
  Any-map f (there m) = there (Any-map f m)

  -- A property of every member holds of the member that an `Any` names.
  pub All-Any : {xs : List A} → All P xs → Any Q xs → Any (λ x. P x × Q x) xs
  All-Any h (here q) = here (h.0, q)
  All-Any h (there m) = there (All-Any h.1 m)

module _ {ℓ κ κ'} {A : Type ℓ} {P : A → Type κ} {C : Type κ'} where
  pub Any-elim : {xs : List A} → ((x : A) → P x → C) → Any P xs → C
  Any-elim f (here {x = x} p) = f x p
  Any-elim f (there m) = Any-elim f m

module _ {ℓ κ κ'} {A : Type ℓ} {B : Type κ} (P : B → Type κ') where
  pub All-keep_if-map :
      (f : A → B) (p : B → Bool)
      → ((x : A) → p (f x) ≡ true → P (f x))
      → (xs : List A) → All P (keep_if p (map f xs))
  All-keep_if-map f p h [] = tt
  All-keep_if-map f p h (x ∷ xs) = go (p (f x)) refl (All-keep_if-map f p h xs)
    where
      go :
          (b : Bool)
          → p (f x) ≡ b
          → All P (keep_if p (map f xs))
          → All P (elim b [ true ↦ f x ∷ keep_if p (map f xs) | false ↦ keep_if p (map f xs) ])
      go true e rest = (h x e, rest)
      go false e rest = rest

module _ {ℓ} {A : Type ℓ} where
  -- A test that fails of the whole list fails of each member, and the other way round.
  pub any-false→All : (p : A → Bool) (xs : List A) → any p xs ≡ false → All (λ x. p x ≡ false) xs
  any-false→All p [] h = tt
  any-false→All p (x ∷ xs) h = (ground arith, any-false→All p xs (ground arith))

  pub All→any-false : (p : A → Bool) (xs : List A) → All (λ x. p x ≡ false) xs → any p xs ≡ false
  All→any-false p [] h = refl
  All→any-false p (x ∷ xs) h = ground (arith, All→any-false p xs h.1)

module _ {ℓ κ κ'} {A B : Type ℓ} {P : A → Type κ} (Q : B → Type κ') (f : A → B) where
  pub All-of_map : (xs : List A) → ((x : A) → P x → Q (f x)) → All P xs → All Q (map f xs)
  All-of_map [] g h = tt
  All-of_map (x ∷ xs) g h = (g x h.0, All-of_map xs g h.1)

  pub Any-of_map : {xs : List A} → ((x : A) → P x → Q (f x)) → Any P xs → Any Q (map f xs)
  Any-of_map g (here {x = x} p) = here (g x p)
  Any-of_map g (there m) = there (Any-of_map g m)

module _ {ℓ κ} {A : Type ℓ} (P : A → Type κ) (p : A → Bool) where
  abbrev pub Split : List A → Type (ℓ ⊔ κ)
  Split xs = Any (λ x. P x × (p x ≡ false)) xs ⊎ Any (λ x. P x × (p x ≡ true)) xs

  there-Split : {x : A} {xs : List A} → Split xs → Split (x ∷ xs)
  there-Split (inl m) = inl (there m)
  there-Split (inr m) = inr (there m)

  here-Split : {x : A} {xs : List A} → P x → (b : Bool) → p x ≡ b → Split (x ∷ xs)
  here-Split h true e = inr (here (h, e))
  here-Split h false e = inl (here (h, e))

  pub Any-Split : {xs : List A} → Any P xs → Split xs
  Any-Split (here {x = x} h) = here-Split h (p x) refl
  Any-Split (there m) = there-Split (Any-Split m)

module _ {ℓ} {A : Type ℓ} where
  pub any-append : (p : A → Bool) (xs ys : List A) → any p (xs ++ ys) ≡ (any p xs || any p ys)
  any-append p [] ys = refl
  any-append p (x ∷ xs) ys = ground (arith, any-append p xs ys)

  pub any-congr : (p q : A → Bool) (xs : List A) → All (λ x. p x ≡ q x) xs → any p xs ≡ any q xs
  any-congr p q [] h = refl
  any-congr p q (x ∷ xs) h = ground (arith, any-congr p q xs h.1, h.0)

  pub any-map :
      (p : A → Bool) (f : A → A) (xs : List A)
      → ((x : A) → p (f x) ≡ p x)
      → any p (map f xs) ≡ any p xs
  any-map p f [] h = refl
  any-map p f (x ∷ xs) h = ground (arith, any-map p f xs h, h x)
