-- ===== src/Bounties/NewTerms.antt =====
-- New terms, and the promises.
use gitbounty.Base.{
  ℕ, ◌≤◌, ◌<◌, ◌≡◌, refl, sym, ap, ◌∙◌, subst, Bool, true, false, List, [], ◌∷◌, ◌++◌, ◌==◌,
  any-append, map, arith, All-append, All-of_map, Bool-cases, inl, inr, ==_iff,
}
use gitbounty.Bounties.{with_mode, set_reward_mode, insert_payment_terms, insert_escrow_terms}
use gitbounty.Bounties.Rows.{
  Board, Bounty, PaymentTerms, EscrowTerms, RewardMode, legacy_payment, escrow,
}
use gitbounty.Bounties.Then.{Then, Then-bind, Then-map}
use gitbounty.Bounties.Publish.Stakes.{
  Terms, no_terms, new_payment, new_escrow, find_terms, store_terms,
}
use gitbounty.Bounties.Stored.{TermsFor}
use gitbounty.Bounties.Promised.{
  has_payment, has_escrow, Agrees, IsPromised, find_escrow, Keeps-refl, Kept,
}

find_terms-other :
    (i : ℕ) (t : PaymentTerms) (ts : List PaymentTerms)
    → (t.bounty_id == i) ≡ false
    → find_terms i (ts ++ t ∷ []) ≡ find_terms i ts
find_terms-other i t [] h = ground arith
find_terms-other i t (r ∷ ts) h = ground (arith, find_terms-other i t ts h)

find_escrow-other :
    (i : ℕ) (t : EscrowTerms) (ts : List EscrowTerms)
    → (t.bounty_id == i) ≡ false
    → find_escrow i (ts ++ t ∷ []) ≡ find_escrow i ts
find_escrow-other i t [] h = ground arith
find_escrow-other i t (r ∷ ts) h = ground (arith, find_escrow-other i t ts h)

with_mode-id : (id : ℕ) (m : RewardMode) (b : Bounty) → (with_mode id m b).id ≡ b.id
with_mode-id id m b = ground arith

module _ (base id : ℕ) (s : Board) (h : IsPromised s) (high : base ≤ id)
    (low : id < s.next_bounty) where
  -- A bounty that has no escrow, with new payment terms; and the other way round.
  payment-Agrees :
      (t : PaymentTerms) (b : Bounty)
      → t.bounty_id ≡ id
      → has_escrow t.bounty_id s.escrow_terms ≡ false
      → Agrees s.payment_terms s.escrow_terms b
      → Agrees (s.payment_terms ++ t ∷ []) s.escrow_terms (with_mode id legacy_payment b)
  payment-Agrees t b e free a =
      let more = any-append (λ r. r.bounty_id == b.id) s.payment_terms (t ∷ []) in
      elim (Bool-cases (b.id == id)) [
        | inl same ↦
            let one : b.id ≡ t.bounty_id = omega (arith, (==_iff b.id id).0 same, e) in
            rw same (more ∙ ground (arith, one), ap (λ i. has_escrow i s.escrow_terms) one ∙ free)
        | inr other ↦ rw other (more ∙ ground (arith, a.0, e), a.1)
      ]

  escrow-Agrees :
      (t : EscrowTerms) (b : Bounty)
      → t.bounty_id ≡ id
      → has_payment t.bounty_id s.payment_terms ≡ false
      → Agrees s.payment_terms s.escrow_terms b
      → Agrees s.payment_terms (s.escrow_terms ++ t ∷ []) (with_mode id escrow b)
  escrow-Agrees t b e free a =
      let more = any-append (λ r. r.bounty_id == b.id) s.escrow_terms (t ∷ []) in
      elim (Bool-cases (b.id == id)) [
        | inl same ↦
            let one : b.id ≡ t.bounty_id = omega (arith, (==_iff b.id id).0 same, e) in
            rw same (ap (λ i. has_payment i s.payment_terms) one ∙ free, more ∙ ground (arith, one))
        | inr other ↦ rw other (a.0, more ∙ ground (arith, a.1, e))
      ]

  payment-Kept :
      (t : PaymentTerms)
      → t.bounty_id ≡ id
      → has_escrow t.bounty_id s.escrow_terms ≡ false
      → Kept base s (record s {
        bounties = map (with_mode id legacy_payment) s.bounties;
        payment_terms = s.payment_terms ++ t ∷ [];
      })
  payment-Kept t e free = (
    record {
      fresh =
          All-of_map _ (with_mode id legacy_payment) s.bounties
            (λ b l. omega (arith, l, with_mode-id id legacy_payment b)) h.fresh;
      fresh_payments = All-append _ s.payment_terms (t ∷ []) h.fresh_payments (omega arith, tt);
      fresh_escrows = h.fresh_escrows;
      agrees =
          All-of_map _ (with_mode id legacy_payment) s.bounties (λ b a. payment-Agrees t b e free a)
            h.agrees;
    },
    record {
      more = omega arith;
      payments = λ i l. find_terms-other i t s.payment_terms (ground arith);
      escrows = λ i l. refl;
    },
  )

  escrow-Kept :
      (t : EscrowTerms)
      → t.bounty_id ≡ id
      → has_payment t.bounty_id s.payment_terms ≡ false
      → Kept base s (record s {
        bounties = map (with_mode id escrow) s.bounties;
        escrow_terms = s.escrow_terms ++ t ∷ [];
      })
  escrow-Kept t e free = (
    record {
      fresh =
          All-of_map _ (with_mode id escrow) s.bounties
            (λ b l. omega (arith, l, with_mode-id id escrow b)) h.fresh;
      fresh_payments = h.fresh_payments;
      fresh_escrows = All-append _ s.escrow_terms (t ∷ []) h.fresh_escrows (omega arith, tt);
      agrees =
          All-of_map _ (with_mode id escrow) s.bounties (λ b a. escrow-Agrees t b e free a)
            h.agrees;
    },
    record {
      more = omega arith;
      payments = λ i l. refl;
      escrows = λ i l. find_escrow-other i t s.escrow_terms (ground arith);
    },
  )

  set_reward_mode-Then :
      (mode : RewardMode)
      → Then
          (λ s'. s' ≡ record s { bounties = map (with_mode id mode) s.bounties })
          (set_reward_mode id mode s)
  unfolding set_reward_mode
  set_reward_mode-Then mode = ground arith

insert_payment_terms-Then :
    (t : PaymentTerms) (s : Board)
    → Then
        (λ s'.
          (has_escrow t.bounty_id s.escrow_terms ≡ false)
          × (s' ≡ record s { payment_terms = s.payment_terms ++ t ∷ [] }))
        (insert_payment_terms t s)
unfolding insert_payment_terms
insert_payment_terms-Then t s = ground arith

insert_escrow_terms-Then :
    (t : EscrowTerms) (s : Board)
    → Then
        (λ s'.
          (has_payment t.bounty_id s.payment_terms ≡ false)
          × (s' ≡ record s { escrow_terms = s.escrow_terms ++ t ∷ [] }))
        (insert_escrow_terms t s)
unfolding insert_escrow_terms
insert_escrow_terms-Then t s = ground arith

pub store_terms-Kept :
    (base id : ℕ) (is_new : Bool) (terms : Terms) (s : Board)
    → IsPromised s
    → TermsFor is_new id terms
    → (is_new ≡ true → (base ≤ id) × (id < s.next_bounty))
    → Then (Kept base s) (store_terms id terms s)
unfolding store_terms
store_terms-Kept base id is_new no_terms s h f fresh = (h, Keeps-refl base s)
store_terms-Kept base id is_new (new_payment t) s h f fresh =
    let (high, low) = fresh f.0 in
    let mode = record s { bounties = map (with_mode id legacy_payment) s.bounties } in
    let stored : Then (Kept base s) (insert_payment_terms t mode) =
      Then-map _ (Kept base s) (insert_payment_terms t mode)
        (λ s'' (free, e).
          subst (Kept base s) (sym e) (payment-Kept base id s h high low t f.1 free))
        (insert_payment_terms-Then t mode) in
    Then-bind _ (Kept base s) (set_reward_mode id legacy_payment s) (insert_payment_terms t)
      (set_reward_mode-Then base id s h high low legacy_payment)
      (λ s' e. subst (λ v. Then (Kept base s) (insert_payment_terms t v)) (sym e) stored)
store_terms-Kept base id is_new (new_escrow t) s h f fresh =
    let (high, low) = fresh f.0 in
    let mode = record s { bounties = map (with_mode id escrow) s.bounties } in
    let stored : Then (Kept base s) (insert_escrow_terms t mode) =
      Then-map _ (Kept base s) (insert_escrow_terms t mode)
        (λ s'' (free, e). subst (Kept base s) (sym e) (escrow-Kept base id s h high low t f.1 free))
        (insert_escrow_terms-Then t mode) in
    Then-bind _ (Kept base s) (set_reward_mode id escrow s) (insert_escrow_terms t)
      (set_reward_mode-Then base id s h high low escrow)
      (λ s' e. subst (λ v. Then (Kept base s) (insert_escrow_terms t v)) (sym e) stored)
