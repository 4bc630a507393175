-- ===== src/Sponsored/Reach.antt =====
-- Submissions and verifications of any accounts, in any order.
use gitbounty.Base.{
  ℕ, ◌≡◌, refl, ap, ◌∙◌, subst, Bool, true, false, Option, none, some, List, [], ◌∷◌, ◌&&◌, ◌==◌,
  any, arith, All, All-append, All-map, All-of_map, Bool-cases, Option-cases, inl, inr,
  if◌then◌else◌,
}
use gitbounty.Text.{Text, text_eq}
use gitbounty.Bounties.Rows.{done, EscrowTerms}
use gitbounty.Bounties.Then.{Then, Then-any, Then-done}
use gitbounty.Sponsored.{
  Kind, Status, Operation, Table, Session, is_pending, find_pending, check_action, new_operation,
  insert_operation, submit_for, submit, voucher_of, operation_segment, lower,
}
use gitbounty.Sponsored.Verify.{
  Bundler, Found, is_row, find_row, with_status, update, is_final, as_submitted, outcome,
  follow_receipt, observe, as_verified, mark_verified,
}
use gitbounty.Sponsored.Single.{
  IsSingle, IsSound, Apart, StaysFinal, changed-same, find_pending-none, IsSingle-snoc,
  IsSingle-changed,
}

insert_operation-IsSound :
    (o : Operation) (s : Table)
    → IsSound s
    → o.id ≡ s.next
    → find_pending o.github_id s.rows ≡ none
    → Then (λ r. IsSound r.0) (insert_operation o s)
unfolding insert_operation
insert_operation-IsSound o s h e free =
    elim (Bool-cases (any (λ r. text_eq r.userop_hash o.userop_hash) s.rows)) [
      | inl taken ↦ rw taken tt
      | inr new ↦ rw new (record {
        single =
            IsSingle-snoc s.rows o h.single (find_pending-none o.github_id s.rows free)
              (All-map s.rows (λ p l. omega (arith, e, l)) h.fresh);
        fresh =
            All-append _ s.rows (o ∷ []) (All-map s.rows (λ p l. omega (arith, l)) h.fresh)
              (omega (arith, e), tt);
      })
    ]

submit-IsSound :
    (terms : ℕ → Option EscrowTerms) (c : Session) (bounty_id : ℕ) (kind : Kind) (s : Table)
    → IsSound s
    → Then (λ r. IsSound r.0) (submit terms c bounty_id kind s)
unfolding submit
submit-IsSound terms c bounty_id kind s h = Then-any _ c.sponsorship _ (λ sponsored.
    Then-any _ c.account _ (λ account. Then-any _ (voucher_of c kind) _ (λ voucher. found account)))
  where
    found : (account : Text) → Then (λ r. IsSound r.0) (submit_for terms c account bounty_id kind s)
    found account = elim (Option-cases (find_pending c.github_id s.rows)) [
      | inr (o, e) ↦ rw (e, submit_for) (ground (arith, h))
      | inl free ↦
          rw (free, submit_for)
            (elim (Option-cases (terms bounty_id)) [
              | inl e ↦ rw e tt
              | inr (t, e) ↦ rw e (
                  Then-any _ (check_action c account t kind) _ (λ checked.
                    Then-any _ c.authorized _ (λ op.
                      insert_operation-IsSound (new_operation s c.github_id bounty_id kind op) s h
                        refl free)))
            ])
    ]

find_row-All :
    (P : Operation → Type 0) (id g : ℕ) (os : List Operation) (o : Operation)
    → find_row id g os ≡ some o
    → All P os
    → P o
unfolding find_row
find_row-All P id g [] o e h = absurd (ground arith)
find_row-All P id g (p ∷ os) o e h = elim (Bool-cases (is_row id p && p.github_id == g)) [
  | inl row ↦ subst P (ground arith) h.0
  | inr other ↦ find_row-All P id g os o (ground arith) h.1
]

-- The row that is found is the only one with its number.
find_row-only :
    (id g : ℕ) (os : List Operation) (o : Operation)
    → find_row id g os ≡ some o
    → is_pending o.status ≡ true
    → IsSingle os
    → All (λ p. is_row o.id p ≡ true → is_pending p.status ≡ true) os
unfolding find_row
find_row-only id g [] o e h k = tt
find_row-only id g (p ∷ os) o e h k = elim (Bool-cases (is_row id p && p.github_id == g)) [
  | inl row ↦
      let one : p ≡ o = ground arith in
      (
        (λ r. ap (λ (q : Operation). is_pending q.status) one ∙ h),
        All-map os (λ q a r. absurd (ground (arith, a.1, r, one))) k.0,
      )
  | inr other ↦
      let later : find_row id g os ≡ some o = ground arith in
      let apart = find_row-All (Apart id (λ q. q) (λ q. (refl, refl)) p) id g os o later k.0 in
      ((λ r. absurd (ground (arith, apart.1, r))), find_row-only id g os o later h k.1)
]

update-IsSound :
    (id : ℕ) (f : Operation → Operation)
    (same : (o : Operation) → ((f o).id ≡ o.id) × ((f o).github_id ≡ o.github_id)) (s : Table)
    → All (StaysFinal id f same) s.rows
    → IsSound s
    → IsSound (update id f s)
update-IsSound id f same s k h = record {
  single = IsSingle-changed id f same s.rows k h.single;
  fresh =
      All-of_map _ (λ o. if is_row id o then f o else o) s.rows
        (λ o l. omega (arith, (changed-same id f same o).0, l)) h.fresh;
}

-- A status that is not pending, and one that is, of a row that is.
final-IsSound :
    (id : ℕ) (f : Operation → Operation)
    (same : (o : Operation) → ((f o).id ≡ o.id) × ((f o).github_id ≡ o.github_id)) (s : Table)
    → ((o : Operation) → is_pending (f o).status ≡ false)
    → IsSound s
    → IsSound (update id f s)
final-IsSound id f same s ended h = update-IsSound id f same s (all s.rows) h
  where
    all : (os : List Operation) → All (StaysFinal id f same) os
    all [] = tt
    all (o ∷ os) = ((λ r e. absurd (ground (arith, ended o, e))), all os)

pending-IsSound :
    (id g : ℕ) (o : Operation) (f : Operation → Operation)
    (same : (p : Operation) → ((f p).id ≡ p.id) × ((f p).github_id ≡ p.github_id)) (s : Table)
    → find_row id g s.rows ≡ some o
    → is_pending o.status ≡ true
    → IsSound s
    → IsSound (update o.id f s)
pending-IsSound id g o f same s e open_row h =
    update-IsSound o.id f same s
      (All-map s.rows (λ p k r q. k r) (find_row-only id g s.rows o e open_row h.single)) h

not_final : (st : Status) → is_final st ≡ false → is_pending st ≡ true
not_final st h = ground arith

module _ (b : Bundler) (id g : ℕ) (s : Table) (h : IsSound s) where
  outcome-IsSound :
      (o : Operation) (tx : Text) (success : Bool)
      → find_row id g s.rows ≡ some o
      → is_pending o.status ≡ true
      → IsSound (outcome o tx success s).0
  outcome-IsSound o tx true e live =
      pending-IsSound id g o (with_status Status.confirmed (some tx)) (λ p. (refl, refl)) s e live h
  outcome-IsSound o tx false e live =
      final-IsSound o.id (with_status Status.failed (some tx)) (λ p. (refl, refl)) s (λ p. refl) h

  follow_receipt-IsSound :
      (o : Operation) (receipt : Option Text)
      → find_row id g s.rows ≡ some o
      → is_pending o.status ≡ true
      → Then (λ r. IsSound r.0) (follow_receipt b o s receipt)
  unfolding follow_receipt
  follow_receipt-IsSound o none e live = Then-any _ (b.send o) _ (λ sent.
      let sound = pending-IsSound id g o as_submitted (λ p. (refl, refl)) s e live h in
      ground (arith, sound))
  follow_receipt-IsSound o (some tx) e live = Then-any _ (b.evidence (lower tx)) _ (λ receipt.
      Then-any _
        (operation_segment b.entry_point b.event receipt o.userop_hash b.account b.paymaster
          o.nonce)
        _ (λ result. outcome-IsSound o (lower tx) result.0 e live))

  observe-IsSound : Then (λ r. IsSound r.0) (observe b id g s)
  unfolding observe
  observe-IsSound = elim (Option-cases (find_row id g s.rows)) [
    | inl e ↦ rw (e, observe) tt
    | inr (o, e) ↦
        rw (e, observe)
          (elim (Bool-cases (is_final o.status)) [
            | inl done_before ↦ rw done_before h
            | inr live ↦ rw live (
                Then-any _ (b.receipt o.userop_hash) _
                  (λ receipt. follow_receipt-IsSound o receipt e (not_final o.status live)))
          ])
  ]

-- What happens to the table. The last statement of a verification may come at any time.
pub data Step (terms : ℕ → Option EscrowTerms) : Table → Table → Type 0 where
  submits :
      {s s' : Table} {o : Operation} (c : Session) (bounty_id : ℕ) (kind : Kind)
      → submit terms c bounty_id kind s ≡ done (s', o)
      → Step terms s s'
  observes :
      {s s' : Table} {found : Found} (b : Bundler) (id github_id : ℕ)
      → observe b id github_id s ≡ done (s', found)
      → Step terms s s'
  verifies : {s : Table} (id : ℕ) → Step terms s (mark_verified id s)

pub data Reach (terms : ℕ → Option EscrowTerms) (s : Table) : Table → Type 0 where
  start : Reach terms s s
  next : {s' s'' : Table} → Reach terms s s' → Step terms s' s'' → Reach terms s s''

Step-IsSound :
    {terms : ℕ → Option EscrowTerms} {s s' : Table} → Step terms s s' → IsSound s → IsSound s'
unfolding mark_verified
Step-IsSound {terms} {s} (submits c bounty_id kind e) h =
    Then-done (λ r. IsSound r.0) e (submit-IsSound terms c bounty_id kind s h)
Step-IsSound {s} (observes b id github_id e) h =
    Then-done (λ r. IsSound r.0) e (observe-IsSound b id github_id s h)
Step-IsSound {s} (verifies id) h = final-IsSound id as_verified (λ p. (refl, refl)) s (λ p. refl) h

-- However submissions, verifications and their last statements follow one another, an account has at
-- most one operation that is signed, submitted or confirmed, and the numbers of operations are
-- distinct and below the next.
pub Reach-IsSound :
    {terms : ℕ → Option EscrowTerms} {s s' : Table} → Reach terms s s' → IsSound s → IsSound s'
Reach-IsSound start h = h
Reach-IsSound (next r step) h = Step-IsSound step (Reach-IsSound r h)
