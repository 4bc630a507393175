-- ===== src/Payments/Change.antt =====
-- What a statement on the payments may do: leave them, add one that is not paid, or change one that
-- is not paid, to a paid one only with a receipt of the chain.
use gitbounty.Base.{
  ℕ, ◌≡◌, ◌∙◌, sym, subst, true, false, none, some, List, [], ◌∷◌, ◌++◌, ◌==◌, ◌⊎◌, inl, inr, arith,
  Any, Bool-cases, Option-cases, ==_iff, if◌then◌else◌,
}
use gitbounty.Text.{Text}
use gitbounty.Bounties.Rows.{done}
use gitbounty.Payments.{Claim, Payment, Store, find_payment, update_payment, is_paid_status}
use gitbounty.Payments.Encoding.{Crypto}
use gitbounty.Payments.Evidence.{Receipt, verify_receipt}
use gitbounty.Payments.Rows.{
  find_payment-update_other, find_payment-update, find_payment-added, find_payment-new,
}

abbrev pub IsPaid : Payment → Type 0
IsPaid p = is_paid_status p.status ≡ true

-- `chain` relates the hash of a transaction to a receipt that the chain has for it.
module _ (lower : Text → Text) (k : Crypto) (chain : Text → Receipt → Type 0) where
  -- A claim whose amount a receipt of the chain shows to be paid by the operation of the payment.
  abbrev pub IsBackedBy : ℕ → Payment → Claim → Type 0
  IsBackedBy c p claim =
      (claim.allocation_id ≡ c)
      × ((r : Receipt) × (hash tx : Text) × (p.userop_hash ≡ some hash)
          × (p.tx_hash ≡ some tx)
          × chain tx r
          × (verify_receipt lower k r p claim.amount_wei hash ≡ done true))

  abbrev pub IsBacked : List Claim → ℕ → Payment → Type 0
  IsBacked claims c p = Any (IsBackedBy c p) claims

  abbrev pub IsSound : Store → Type 0
  IsSound s =
      (c : ℕ) (p : Payment) → find_payment c s.payments ≡ some p → IsPaid p → IsBacked s.claims c p

  -- From the payments and claims of one store to those of another.
  pub record Change (ps ps' : List Payment) (cs cs' : List Claim) : Type 0 where
    pub stays :
        (c : ℕ) (p : Payment) → find_payment c ps ≡ some p → IsPaid p → find_payment c ps' ≡ some p
    pub paid :
        (c : ℕ) (p : Payment)
        → find_payment c ps' ≡ some p
        → IsPaid p
        → (find_payment c ps ≡ some p) ⊎ IsBacked cs' c p
    pub backed : (c : ℕ) (p : Payment) → IsBacked cs c p → IsBacked cs' c p

  abbrev pub Changes : Store → Store → Type 0
  Changes s s' = Change s.payments s'.payments s.claims s'.claims

  pub Changes-IsSound : (s s' : Store) → Changes s s' → IsSound s → IsSound s'
  Changes-IsSound s s' h sound c p e is_paid = go (h.paid c p e is_paid)
    where
      go : (find_payment c s.payments ≡ some p) ⊎ IsBacked s'.claims c p → IsBacked s'.claims c p
      go (inl before) = h.backed c p (sound c p before is_paid)
      go (inr now) = now

  module _ (ps : List Payment) where
    pub Change-kept :
        {cs cs' : List Claim}
        → ((c : ℕ) (p : Payment) → IsBacked cs c p → IsBacked cs' c p)
        → Change ps ps cs cs'
    Change-kept h = record { stays = λ c p e paid. e; paid = λ c p e paid. inl e; backed = h }

    pub Change-added :
        {cs : List Claim} (q : Payment)
        → is_paid_status q.status ≡ false
        → Change ps (ps ++ q ∷ []) cs cs
    Change-added {cs} q unpaid = record {
      stays = λ c p e paid. find_payment-added q c ps p e;
      paid = was;
      backed = λ c p b. b;
    }
      where
        new :
            (c : ℕ) (p : Payment)
            → (if q.claim_id == c then some q else none) ≡ some p
            → IsPaid p
            → ⊥
        new c p e paid = ground (arith, unpaid)

        was :
            (c : ℕ) (p : Payment)
            → find_payment c (ps ++ q ∷ []) ≡ some p
            → IsPaid p
            → (find_payment c ps ≡ some p) ⊎ IsBacked cs c p
        was c p e paid = elim (Option-cases (find_payment c ps)) [
          | inl missing ↦ absurd (new c p (sym (find_payment-new q c ps missing) ∙ e) paid)
          | inr (o, found) ↦ inl (found ∙ (sym (find_payment-added q c ps o found) ∙ e))
        ]

    module _ (d : ℕ) (f : Payment → Payment) (keeps : (p : Payment) → (f p).claim_id ≡ p.claim_id)
        (row : Payment) (found : find_payment d ps ≡ some row)
        (unpaid : is_paid_status row.status ≡ false) where
      pub Change-updated :
          {cs : List Claim}
          → (IsPaid (f row) → IsBacked cs d (f row))
          → Change ps (update_payment d f ps) cs cs
      Change-updated {cs} proof = record { stays = stays; paid = was; backed = λ c p b. b }
        where
          stays :
              (c : ℕ) (p : Payment)
              → find_payment c ps ≡ some p
              → IsPaid p
              → find_payment c (update_payment d f ps) ≡ some p
          stays c p e paid = elim (Bool-cases (d == c)) [
            | inl same ↦
                let here : find_payment c ps ≡ some row =
                  subst (λ n. find_payment n ps ≡ some row) ((==_iff d c).0 same) found in
                absurd (ground (arith, here, e, unpaid, paid))
            | inr other ↦ find_payment-update_other d f keeps c ps other ∙ e
          ]

          at : (p : Payment) → f row ≡ p → IsPaid p → IsBacked cs d p
          at p e = subst (λ q. IsPaid q → IsBacked cs d q) e proof

          was :
              (c : ℕ) (p : Payment)
              → find_payment c (update_payment d f ps) ≡ some p
              → IsPaid p
              → (find_payment c ps ≡ some p) ⊎ IsBacked cs c p
          was c p e paid = elim (Bool-cases (d == c)) [
            | inl same ↦ inr (
                subst (λ n. IsBacked cs n p) ((==_iff d c).0 same)
                  (at p
                    (ground (
                      arith,
                      find_payment-update d f keeps ps row found,
                      subst (λ n. find_payment n (update_payment d f ps) ≡ some p)
                          (sym ((==_iff d c).0 same)) e,
                    ))
                    paid))
            | inr other ↦ inl (sym (find_payment-update_other d f keeps c ps other) ∙ e)
          ]
