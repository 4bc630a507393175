-- ===== src/Sponsored/Again.antt =====
-- A submission of an account that has an operation on its way.
use gitbounty.Base.{
  ℕ, ◌≡◌, ap, ◌∙◌, ◌⊎◌, subst, true, false, Option, some, List, [], ◌∷◌, ◌&&◌, ◌==◌, arith, Any,
  here, there, All-Any, Any-elim, Bool-cases, inl, inr, if◌then◌else◌,
}
use gitbounty.Text.{Text}
use gitbounty.Bounties.Rows.{Answer, done, refused, ◌>>=◌, EscrowTerms}
use gitbounty.Sponsored.{
  Kind, Operation, Table, Session, signed, submitted, confirmed, kind_eq, is_pending_of,
  find_pending, submit_for, submit, voucher_of,
}
use gitbounty.Sponsored.Single.{compete, IsSingle, IsSound}

-- The operation of the row is on its way or done, but not verified.
abbrev pub IsLive : Operation → Type 0
IsLive o = (o.status ≡ signed) ⊎ (o.status ≡ submitted) ⊎ (o.status ≡ confirmed)

live-is_pending : (g : ℕ) (o : Operation) → o.github_id ≡ g → IsLive o → is_pending_of g o ≡ true
live-is_pending g o own (inl e) = ground arith
live-is_pending g o own (inr (inl e)) = ground arith
live-is_pending g o own (inr (inr e)) = ground arith

-- Of rows of which no two are pending for one account, the lookup finds the one that is.
find_pending-only :
    (g : ℕ) (os : List Operation) (o : Operation)
    → IsSingle os
    → Any (λ p. p ≡ o) os
    → is_pending_of g o ≡ true
    → find_pending g os ≡ some o
unfolding find_pending
find_pending-only g [] o h m k = elim m [ ]
find_pending-only g (p ∷ os) o h (here e) k = rw e (ground arith)
find_pending-only g (p ∷ os) o h (there m) k = elim (Bool-cases (is_pending_of g p)) [
  | inr other ↦ rw other (find_pending-only g os o h.1 m k)
  | inl first ↦ absurd (Any-elim (λ q (free, e). two q e first free.0) (All-Any h.0 m))
]
  where
    two : (q : Operation) → q ≡ o → is_pending_of g p ≡ true → compete p q ≡ false → ⊥
    two q e first free =
        let same : compete p o ≡ false = subst (λ x. compete p x ≡ false) e free in
        ground (arith, same, first, k)

bind-done :
    {A B : Type 0} (f : A → Answer B) {v : Answer A} {a : A} {x : Answer B}
    → v ≡ done a
    → f a ≡ x
    → (v >>= f) ≡ x
bind-done f e h = ap (λ w. w >>= f) e ∙ h

submit_for-again :
    (terms : ℕ → Option EscrowTerms) (c : Session) (account : Text) (bounty_id : ℕ) (kind : Kind)
    (s : Table) (o : Operation)
    → find_pending c.github_id s.rows ≡ some o
    → submit_for terms c account bounty_id kind s
      ≡ (if o.bounty_id == bounty_id && kind_eq o.kind kind then done (s, o) else refused 409)
unfolding submit_for
submit_for-again terms c account bounty_id kind s o e = rw (e, submit_for) (ground arith)

-- In a table with distinct numbers below the next one, in which an account has at most one operation
-- that is signed, submitted or confirmed: while an account has one, every submission of the account leaves the table, whatever the chain
-- says. It hands out the operation if it is of the same bounty and action, and is answered with a
-- conflict otherwise. Sponsorship is on, the account is found, and a settlement has its voucher.
pub submit_again :
    (terms : ℕ → Option EscrowTerms) (c : Session) (bounty_id : ℕ) (kind : Kind) (s : Table)
    (o : Operation) (sponsored account voucher : Text)
    → IsSound s
    → Any (λ p. p ≡ o) s.rows
    → o.github_id ≡ c.github_id
    → IsLive o
    → c.sponsorship ≡ done sponsored
    → c.account ≡ done account
    → voucher_of c kind ≡ done voucher
    → submit terms c bounty_id kind s
      ≡ (if o.bounty_id == bounty_id && kind_eq o.kind kind then done (s, o) else refused 409)
unfolding submit
submit_again terms c bounty_id kind s o sponsored account voucher sound row own live p q r =
    bind-done _ p (
      bind-done _ q (
        bind-done _ r (
          submit_for-again terms c account bounty_id kind s o (
            find_pending-only c.github_id s.rows o sound.single row
              (live-is_pending c.github_id o own live)))))
