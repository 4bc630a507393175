-- ===== src/Github/Reviews/Latest.antt =====
-- The state of a review against each reviewer's latest decisive review.
use gitbounty.Base.{
  ◌≡◌, ◌↔◌, refl, sym, ap, subst, ◌∙◌, true, false, Option, none, some, List, [], ◌∷◌, All, arith,
  Bool-cases, inl, inr, if◌then◌else◌,
}
use gitbounty.Text.{Text, text_eq, text_eq_iff, Unicode}
use gitbounty.Github.Reviews.{
  Review, Verdict, approved, changes_requested, verdict_eq, put, holds, decisive, reviewer,
  put_decisive, verdicts, review_state_of,
}

abbrev lookup : Text → List (Text × Verdict) → Option Verdict
lookup k [] = none
lookup k ((j, v) ∷ m) = if text_eq j k then some v else lookup k m

lookup-put :
    (j k : Text) (v : Verdict) (m : List (Text × Verdict))
    → lookup j (put k v m) ≡ (if text_eq k j then some v else lookup j m)
unfolding put
lookup-put j k v [] = refl
lookup-put j k v ((i, w) ∷ m) =
    ground (arith, text_eq_iff k j, text_eq_iff i k, text_eq_iff i j, lookup-put j k v m)

-- A dictionary has a key once.
abbrev IsDict : List (Text × Verdict) → Type 0
IsDict [] = Unit
IsDict ((k, v) ∷ m) = All (λ e. text_eq k e.0 ≡ false) m × IsDict m

All-put :
    (i k : Text) (v : Verdict) (m : List (Text × Verdict))
    → text_eq i k ≡ false
    → All (λ e. text_eq i e.0 ≡ false) m
    → All (λ e. text_eq i e.0 ≡ false) (put k v m)
unfolding put
All-put i k v [] h a = (h, tt)
All-put i k v ((j, w) ∷ m) h a = elim (Bool-cases (text_eq j k)) [
  | inl e ↦ rw e (h, a.1)
  | inr e ↦ rw e (a.0, All-put i k v m h a.1)
]

put-IsDict : (k : Text) (v : Verdict) (m : List (Text × Verdict)) → IsDict m → IsDict (put k v m)
unfolding put
put-IsDict k v [] d = (tt, tt)
put-IsDict k v ((j, w) ∷ m) d = elim (Bool-cases (text_eq j k)) [
  | inl e ↦
      let same : j ≡ k = (text_eq_iff j k).0 e in
      rw e (subst (λ i. All (λ x. text_eq i x.0 ≡ false) m) same d.0, d.1)
  | inr e ↦ rw e (All-put j k v m e d.0, put-IsDict k v m d.1)
]

lookup-other :
    (k : Text) (m : List (Text × Verdict))
    → All (λ e. text_eq k e.0 ≡ false) m
    → (j : Text) (v : Verdict) → lookup j m ≡ some v
    → text_eq k j ≡ false
lookup-other k [] a j v h = absurd (ground arith)
lookup-other k ((i, w) ∷ m) a j v h = elim (Bool-cases (text_eq i j)) [
  | inl e ↦ ap (text_eq k) (sym ((text_eq_iff i j).0 e)) ∙ a.0
  | inr e ↦ lookup-other k m a.1 j v (ground arith)
]

verdict_eq_iff : (v w : Verdict) → (verdict_eq v w ≡ true) ↔ (v ≡ w)
verdict_eq_iff v w = ground arith

holds_iff :
    (v : Verdict) (m : List (Text × Verdict))
    → IsDict m
    → (holds v m ≡ true) ↔ ((k : Text) × (lookup k m ≡ some v))
holds_iff v [] d = ((λ h. absurd (ground arith)), λ (k, h). absurd (ground arith))
holds_iff v ((j, w) ∷ m) d =
    let rest = holds_iff v m d.1 in
    (
      λ h. elim (Bool-cases (verdict_eq v w)) [
        | inl e ↦ (j, rw ((text_eq_iff j j).1 refl) (ap some (sym ((verdict_eq_iff v w).0 e))))
        | inr e ↦ let (k, f) = rest.0 (ground arith) in (k, rw (lookup-other j m d.0 k v f) f)
      ],
      λ (k, h). elim (Bool-cases (text_eq j k)) [
        | inl e ↦ ground (arith, verdict_eq_iff v w)
        | inr e ↦ ground (arith, rest.1 (k, (ground arith)))
      ],
    )

module _ (u : Unicode) (upper : Text → Text) where
  -- A review makes its verdict the reviewer's, if it is decisive.
  abbrev after_review : Text → Review → Option Verdict → Option Verdict → Option Verdict
  after_review k r none before = before
  after_review k r (some v) before = if text_eq (reviewer u upper r) k then some v else before

  -- The verdict of the latest decisive review under a login, which is empty if the review has none, or what stood before the reviews.
  abbrev pub last_decisive : Text → List Review → Option Verdict → Option Verdict
  last_decisive k [] before = before
  last_decisive k (r ∷ rs) before =
      last_decisive k rs (after_review k r (decisive u upper r) before)

  lookup-put_decisive :
      (k : Text) (r : Review) (o : Option Verdict) (m : List (Text × Verdict))
      → lookup k (put_decisive u upper r o m) ≡ after_review k r o (lookup k m)
  unfolding put_decisive
  lookup-put_decisive k r none m = refl
  lookup-put_decisive k r (some v) m = lookup-put k (reviewer u upper r) v m

  lookup-verdicts :
      (k : Text) (rs : List Review) (m : List (Text × Verdict))
      → lookup k (verdicts u upper rs m) ≡ last_decisive k rs (lookup k m)
  unfolding verdicts
  lookup-verdicts k [] m = refl
  lookup-verdicts k (r ∷ rs) m =
      lookup-verdicts k rs _
      ∙ ap (last_decisive k rs) (lookup-put_decisive k r (decisive u upper r) m)

  verdicts-IsDict :
      (rs : List Review) (m : List (Text × Verdict)) → IsDict m → IsDict (verdicts u upper rs m)
  unfolding verdicts
  verdicts-IsDict [] m d = d
  verdicts-IsDict (r ∷ rs) m d = verdicts-IsDict rs _ (one (decisive u upper r))
    where
      one : (o : Option Verdict) → IsDict (put_decisive u upper r o m)
      one none = d
      one (some v) = put-IsDict (reviewer u upper r) v m d

  -- The pull request counts as approved exactly if for some login, whose case does not count, the
  -- latest decisive review under it approves, and as having changes requested exactly if for some
  -- login the latest decisive review under it requests them. Reviews without a login count as
  -- those of the empty login.
  pub review_state_of_iff :
      (reviews : List Review)
      → (((review_state_of u upper reviews).approved ≡ true)
          ↔ ((k : Text) × (last_decisive k reviews none ≡ some approved)))
        × (((review_state_of u upper reviews).changes_requested ≡ true)
            ↔ ((k : Text) × (last_decisive k reviews none ≡ some changes_requested)))
  unfolding review_state_of
  review_state_of_iff reviews = (of approved, of changes_requested)
    where
      of :
          (v : Verdict)
          → (holds v (verdicts u upper reviews []) ≡ true)
            ↔ ((k : Text) × (last_decisive k reviews none ≡ some v))
      of v =
          let d = verdicts-IsDict reviews [] tt in
          let both = holds_iff v (verdicts u upper reviews []) d in
          (
            λ h. let (k, e) = both.0 h in (k, sym (lookup-verdicts k reviews []) ∙ e),
            λ (k, e). both.1 (k, lookup-verdicts k reviews [] ∙ e),
          )
