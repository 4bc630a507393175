-- ===== src/Webhooks/Queue.antt =====
-- The queue of deliveries as a state that requests and the worker change.
use gitbounty.Base.{
  ℕ, ◌≡◌, refl, sym, ap, ◌∙◌, false, List, [], ◌∷◌, ◌++◌, any, map, arith, All, All-append,
  All-of_map, Any, Any-map, Any-elim, Any-append_left, here, there, All-Any, Bool-cases,
  Option-cases, inl, inr,
}
use gitbounty.Text.{Text}
use gitbounty.Webhooks.{
  Delivery, Outcome, is_waiting, has_id, is_due, new_delivery, enqueue, update, settle, next_due,
  process_one, processed, ignored, raised,
}
use gitbounty.Webhooks.Worker.{next_due-Any}

module _ {P : Type 0} where
  -- The primary key: no two rows have one id.
  abbrev pub IsKeyed : List (Delivery P) → Type 0
  IsKeyed [] = Unit
  IsKeyed (d ∷ ds) = All (λ e. has_id d.delivery_id e ≡ false) ds × IsKeyed ds

  IsKeyed-snoc :
      (q : List (Delivery P)) (d : Delivery P)
      → IsKeyed q
      → any (has_id d.delivery_id) q ≡ false
      → IsKeyed (q ++ d ∷ [])
  IsKeyed-snoc [] d k h = (tt, tt)
  IsKeyed-snoc (e ∷ q) d k h =
      (All-append _ q (d ∷ []) k.0 (ground arith, tt), IsKeyed-snoc q d k.1 (ground arith))

  enqueue-IsKeyed :
      (now i : ℕ) (event : Text) (payload : P) (q : List (Delivery P))
      → IsKeyed q
      → IsKeyed (enqueue now i event payload q)
  unfolding enqueue
  enqueue-IsKeyed now i event payload q k = elim (Bool-cases (any (has_id i) q)) [
    | inl e ↦ rw e k
    | inr e ↦ rw e (IsKeyed-snoc q (new_delivery now i event payload) k e)
  ]

  update-IsKeyed :
      (i : ℕ) (f : Delivery P → Delivery P)
      → ((x : Delivery P) → (f x).delivery_id ≡ x.delivery_id)
      → (q : List (Delivery P)) → IsKeyed q
      → IsKeyed (map (update i f) q)
  update-IsKeyed i f keeps [] k = tt
  update-IsKeyed i f keeps (d ∷ q) k = (
    All-of_map _ (update i f) q (λ e h. ground (arith, keeps d, keeps e)) k.0,
    update-IsKeyed i f keeps q k.1,
  )

  has_id-differs :
      (q : List (Delivery P)) (x y : Delivery P)
      → All (λ e. has_id x.delivery_id e ≡ false) q
      → Any (λ e. e ≡ y) q
      → has_id x.delivery_id y ≡ false
  has_id-differs q x y h m =
      Any-elim (λ e (other, is_y). ap (has_id x.delivery_id) (sym is_y) ∙ other) (All-Any h m)

  -- Two rows with one id are one row.
  IsKeyed-unique :
      (q : List (Delivery P)) (x y : Delivery P)
      → IsKeyed q
      → Any (λ e. e ≡ x) q
      → Any (λ e. e ≡ y) q
      → x.delivery_id ≡ y.delivery_id
      → x ≡ y
  IsKeyed-unique [] x y k a b same = elim a [ ]
  IsKeyed-unique (d ∷ q) x y k (here a) (here b) same = sym a ∙ b
  IsKeyed-unique (d ∷ q) x y k (here a) (there b) same =
      let other = has_id-differs q d y k.0 b in
      absurd (ground (arith, other, ap (λ (e : Delivery P). e.delivery_id) a))
  IsKeyed-unique (d ∷ q) x y k (there a) (here b) same =
      let other = has_id-differs q d x k.0 a in
      absurd (ground (arith, other, ap (λ (e : Delivery P). e.delivery_id) b))
  IsKeyed-unique (d ∷ q) x y k (there a) (there b) same = IsKeyed-unique q x y k.1 a b same

  -- A row with another id is where it was.
  update-keeps :
      (i : ℕ) (f : Delivery P → Delivery P) (q : List (Delivery P)) (x : Delivery P)
      → has_id i x ≡ false
      → Any (λ e. e ≡ x) q
      → Any (λ e. e ≡ x) (map (update i f) q)
  update-keeps i f [] x other m = elim m [ ]
  update-keeps i f (d ∷ q) x other (here e) = here (ap (update i f) e ∙ (rw other refl))
  update-keeps i f (d ∷ q) x other (there m) = there (update-keeps i f q x other m)

module _ {P S : Type 0} where
  -- What happens to the queue and to the state behind it: a delivery is put in, or a round of the
  -- worker runs.
  pub data Step (apply_delivery : Delivery P → S → Outcome S)
      : S × List (Delivery P) → S × List (Delivery P) → Type 0 where
    receives :
        {s : S} {q : List (Delivery P)} (now i : ℕ) (event : Text) (payload : P)
        → Step apply_delivery (s, q) (s, enqueue now i event payload q)
    works :
        {s : S} {q : List (Delivery P)} (now : ℕ)
        → Step apply_delivery (s, q) (process_one apply_delivery now (s, q)).0

  pub data Reach (apply_delivery : Delivery P → S → Outcome S) (w : S × List (Delivery P))
      : S × List (Delivery P) → Type 0 where
    start : Reach apply_delivery w w
    next :
        {v v' : S × List (Delivery P)}
        → Reach apply_delivery w v
        → Step apply_delivery v v'
        → Reach apply_delivery w v'

  settle-id :
      (now : ℕ) (d : Delivery P) (s : S) (o : Outcome S) (x : Delivery P)
      → ((settle now d s o).1 x).delivery_id ≡ x.delivery_id
  settle-id now d s (processed s') x = refl
  settle-id now d s (ignored s') x = refl
  settle-id now d s (raised e) x = refl

  process_one-IsKeyed :
      (apply_delivery : Delivery P → S → Outcome S) (now : ℕ) (s : S) (q : List (Delivery P))
      → IsKeyed q
      → IsKeyed (process_one apply_delivery now (s, q)).0.1
  unfolding process_one
  process_one-IsKeyed apply_delivery now s q k = elim (Option-cases (next_due now q)) [
    | inl e ↦ rw (e, process_one) k
    | inr (d, e) ↦
        rw (e, process_one)
          (let o = apply_delivery d s in
            update-IsKeyed d.delivery_id (settle now d s o).1 (settle-id now d s o) q k)
  ]

  Step-IsKeyed :
      {apply_delivery : Delivery P → S → Outcome S} {v w : S × List (Delivery P)}
      → Step apply_delivery v w
      → IsKeyed v.1
      → IsKeyed w.1
  Step-IsKeyed (receives {q = q} now i event payload) k = enqueue-IsKeyed now i event payload q k
  Step-IsKeyed {apply_delivery} (works {s = s} {q = q} now) k =
      process_one-IsKeyed apply_delivery now s q k

  process_one-keeps :
      (apply_delivery : Delivery P → S → Outcome S) (now : ℕ) (s : S) (q : List (Delivery P))
      (x : Delivery P)
      → IsKeyed q
      → is_waiting x.status ≡ false
      → Any (λ e. e ≡ x) q
      → Any (λ e. e ≡ x) (process_one apply_delivery now (s, q)).0.1
  unfolding process_one
  process_one-keeps apply_delivery now s q x k finished m = elim (Option-cases (next_due now q)) [
    | inl e ↦ rw (e, process_one) m
    | inr (d, e) ↦
        rw (e, process_one)
          (let found = next_due-Any now q d e in
            let other : has_id d.delivery_id x ≡ false =
              elim (Bool-cases (has_id d.delivery_id x)) [
                | inr differs ↦ differs
                | inl same ↦
                    let one =
                      IsKeyed-unique q d x k (Any-map (λ y (is_d, ready). is_d) found) m
                        (grind arith) in
                    let waits =
                      Any-elim (λ y (is_d, ready). ap (is_due now) (sym (is_d ∙ one)) ∙ ready)
                        found in
                    absurd (ground arith)
              ] in
            update-keeps d.delivery_id (settle now d s (apply_delivery d s)).1 q x other m)
  ]

  Step-keeps :
      {apply_delivery : Delivery P → S → Outcome S} {v w : S × List (Delivery P)}
      → Step apply_delivery v w
      → (x : Delivery P) → IsKeyed v.1
      → is_waiting x.status ≡ false
      → Any (λ e. e ≡ x) v.1
      → Any (λ e. e ≡ x) w.1
  unfolding enqueue
  Step-keeps (receives {q = q} now i event payload) x k finished m =
      elim (Bool-cases (any (has_id i) q)) [ inl e ↦ rw e m | inr e ↦ rw e (Any-append_left _ m) ]
  Step-keeps {apply_delivery} (works {s = s} {q = q} now) x k finished m =
      process_one-keeps apply_delivery now s q x k finished m

  -- A delivery that was finished stays in the queue as it is, whatever deliveries come in and however
  -- often the worker runs, so it is not done again. The ids of the queue stay distinct.
  pub Reach-keeps :
      {apply_delivery : Delivery P → S → Outcome S} {v w : S × List (Delivery P)}
      → Reach apply_delivery v w
      → (x : Delivery P) → IsKeyed v.1
      → is_waiting x.status ≡ false
      → Any (λ e. e ≡ x) v.1
      → IsKeyed w.1 × Any (λ e. e ≡ x) w.1
  Reach-keeps start x k finished m = (k, m)
  Reach-keeps (next r s) x k finished m =
      let (k', m') = Reach-keeps r x k finished m in
      (Step-IsKeyed s k', Step-keeps s x k' finished m')
