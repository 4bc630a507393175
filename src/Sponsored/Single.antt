-- ===== src/Sponsored/Single.antt =====
-- The operations of a wallet as a state that submissions and verifications change in any order.
use gitbounty.Base.{
  ℕ, ◌<◌, ◌≡◌, refl, Bool, true, false, none, List, [], ◌∷◌, ◌++◌, ◌&&◌, ◌==◌, map, arith, All,
  All-append, Bool-cases, inl, inr, if◌then◌else◌,
}
use gitbounty.Sponsored.{Operation, Table, is_pending, is_pending_of, find_pending}
use gitbounty.Sponsored.Verify.{is_row}

-- Two pending operations of one wallet.
abbrev pub compete : Operation → Operation → Bool
compete a b = a.github_id == b.github_id && is_pending a.status && is_pending b.status

-- No two operations compete, and their ids are distinct.
abbrev pub IsSingle : List Operation → Type 0
IsSingle [] = Unit
IsSingle (o ∷ os) = All (λ p. (compete o p ≡ false) × ((p.id == o.id) ≡ false)) os × IsSingle os

pub record IsSound (s : Table) : Type 0 where
  pub single : IsSingle s.rows
  pub fresh : All (λ o. o.id < s.next) s.rows

pub find_pending-none :
    (g : ℕ) (os : List Operation)
    → find_pending g os ≡ none
    → All (λ o. is_pending_of g o ≡ false) os
unfolding find_pending
find_pending-none g [] h = tt
find_pending-none g (o ∷ os) h = (ground arith, find_pending-none g os (ground arith))

pub IsSingle-snoc :
    (os : List Operation) (o : Operation)
    → IsSingle os
    → All (λ p. is_pending_of o.github_id p ≡ false) os
    → All (λ p. p.id < o.id) os
    → IsSingle (os ++ o ∷ [])
IsSingle-snoc [] o h free below = (tt, tt)
IsSingle-snoc (p ∷ os) o h free below = (
  All-append _ os (o ∷ []) h.0 ((ground (arith, free.0), ground (arith, below.0)), tt),
  IsSingle-snoc os o h.1 free.1 below.1,
)

-- Operations compete if others of their wallets do that are pending only if they are.
compete-both :
    (o p o' p' : Operation)
    → o'.github_id ≡ o.github_id
    → p'.github_id ≡ p.github_id
    → (is_pending o'.status ≡ true → is_pending o.status ≡ true)
    → (is_pending p'.status ≡ true → is_pending p.status ≡ true)
    → compete o' p' ≡ true
    → compete o p ≡ true
compete-both o p o' p' go gp po pp e = ground (arith, go, gp, po, pp, e)

absent : (a b : Bool) → (a ≡ true → b ≡ true) → b ≡ false → a ≡ false
absent a b f h = ground (arith, f, h)

module _ (id : ℕ) (f : Operation → Operation)
    (same : (o : Operation) → ((f o).id ≡ o.id) × ((f o).github_id ≡ o.github_id)) where
  abbrev pub changed : Operation → Operation
  changed o = if is_row id o then f o else o

  -- The row becomes pending only if it was.
  abbrev pub StaysFinal : Operation → Type 0
  StaysFinal o = is_row id o ≡ true → is_pending (f o).status ≡ true → is_pending o.status ≡ true

  abbrev pub Apart : Operation → Operation → Type 0
  Apart o p = (compete o p ≡ false) × ((p.id == o.id) ≡ false)

  changed-pending :
      (o : Operation)
      → StaysFinal o
      → is_pending (changed o).status ≡ true
      → is_pending o.status ≡ true
  changed-pending o h e = go (is_row id o) refl e
    where
      go :
          (b : Bool)
          → is_row id o ≡ b
          → is_pending (if b then f o else o).status ≡ true
          → is_pending o.status ≡ true
      go true row e = h row e
      go false row e = e

  pub changed-same :
      (o : Operation) → ((changed o).id ≡ o.id) × ((changed o).github_id ≡ o.github_id)
  changed-same o = elim (Bool-cases (is_row id o)) [
    | inl row ↦ rw row (same o)
    | inr other ↦ rw other (refl, refl)
  ]

  changed-Apart :
      (o p : Operation) → StaysFinal o → StaysFinal p → Apart o p → Apart (changed o) (changed p)
  changed-Apart o p h k a =
      let (io, go) = changed-same o in
      let (ip, gp) = changed-same p in
      let rivals : compete (changed o) (changed p) ≡ true → compete o p ≡ true = λ e.
        compete-both o p (changed o) (changed p) go gp (changed-pending o h) (changed-pending p k)
          e in
      (absent _ _ rivals a.0, ground (arith, io, ip, a.1))

  changed-All :
      (o : Operation) (os : List Operation)
      → StaysFinal o
      → All StaysFinal os
      → All (Apart o) os
      → All (Apart (changed o)) (map changed os)
  changed-All o [] h k a = tt
  changed-All o (p ∷ os) h k a = (changed-Apart o p h k.0 a.0, changed-All o os h k.1 a.1)

  pub IsSingle-changed :
      (os : List Operation) → All StaysFinal os → IsSingle os → IsSingle (map changed os)
  IsSingle-changed [] k h = tt
  IsSingle-changed (o ∷ os) k h = (changed-All o os k.0 k.1 h.0, IsSingle-changed os k.1 h.1)
