-- ===== src/Payments/Settled.antt =====
-- What signing and confirming a payment do to the payments.
use gitbounty.Base.{
  ◌⊎◌, ℕ, ◌≡◌, refl, ◌∙◌, sym, subst, Bool, true, false, Option, none, some, inl, inr, arith, Any,
  Any-map, Bool-cases, if◌then◌else◌,
}
use gitbounty.Text.{Text, text_eq, text_eq_iff, Unicode}
use gitbounty.Bounties.Rows.{Answer, done, refused, raised, ◌>>=◌}
use gitbounty.Bounties.Then.{Then, Then-bind, Then-any}
use gitbounty.Payments.{
  Claim, Payment, PaymentStatus, Store, Settings, Visitor, demand, found, find_payment,
  update_payment, is_paid_status, is_unfinished, hash_is_taken, wallet_of, require_network,
}
use gitbounty.Payments.Encoding.{Crypto}
use gitbounty.Payments.Operation.{Member, str, UserOperation}
use gitbounty.Payments.Smoothsend.{verify_operation}
use gitbounty.Payments.Evidence.{Receipt, verify_receipt}
use gitbounty.Payments.Wallets.{require_enabled}
use gitbounty.Payments.Prepare.{Network, is_hash, of_payer, find_claim, check_chain}
use gitbounty.Points.Result.{unique_violation}
use gitbounty.Payments.Confirm.{
  signature_of, as_submitted, of_sender, save_operation, settled, settle_payment, confirm_row,
  confirm_payment, transaction_hash, visible, of_provider, put_receipt, verified_row, final_status,
}
use gitbounty.Payments.Rows.{find_payment-claim_id}
use gitbounty.Payments.Change.{IsBackedBy, Changes, Change-kept, Change-updated}
use gitbounty.Payments.Kept.{
  demand-Then, found-Then, find_claim-wanted, find_claim-Any, verify_receipt-settled,
}

of_sender-found :
    (sender : Text) (o : Option Payment) (p : Payment) → of_sender sender o ≡ some p → o ≡ some p
of_sender-found sender none p e = absurd (ground arith)
of_sender-found sender (some q) p e = ground (arith, e)

of_provider-found : (o : Option Payment) (p : Payment) → of_provider o ≡ some p → o ≡ some p
of_provider-found none p e = absurd (ground arith)
of_provider-found (some q) p e = ground (arith, e)

unfinished-not_paid : (st : PaymentStatus) → is_unfinished st ≡ true → is_paid_status st ≡ false
unfinished-not_paid st h = ground arith

-- An answer that returns, or one that ends whatever follows.
answer-cases :
    {A : Type 0} (o : Answer A)
    → ((a : A) × (o ≡ done a))
      ⊎ ((B : Type 0) (Q : B → Type 0) (f : A → Answer B) → Then Q (o >>= f))
answer-cases (done a) = inl (a, refl)
answer-cases (refused code) = inr (λ B Q f. tt)
answer-cases (raised e) = inr (λ B Q f. tt)

-- What a network answers of transactions is what the chain has.
abbrev pub IsHonest : (Text → Receipt → Type 0) → Network → Type 0
IsHonest chain n =
    (asked hash : Text) (r : Receipt) → n.receipt asked ≡ done (some (hash, r)) → chain hash r

visible-chain :
    (chain : Text → Receipt → Type 0) (n : Network)
    → IsHonest chain n
    → (tx : Text) (seen : Option (Text × Receipt)) (r : Receipt) → n.receipt tx ≡ done seen
    → visible tx seen ≡ some r
    → chain tx r
visible-chain chain n honest tx none r e f = absurd (ground arith)
visible-chain chain n honest tx (some (hash, q)) r e f = elim (Bool-cases (text_eq hash tx)) [
  | inr other ↦ absurd (ground (arith, f, other))
  | inl same ↦
      subst (λ t. chain t r) ((text_eq_iff hash tx).0 same)
        (subst (λ x. chain hash x) (ground (arith, f, same)) (honest tx hash q e))
]

module _ (lower : Text → Text) (k : Crypto) (chain : Text → Receipt → Type 0) (s : Store) where
  -- A payment that is not paid is given a hash to look for.
  submitted-Changes :
      (d : ℕ) (hash : Text) (row : Payment)
      → find_payment d s.payments ≡ some row
      → is_paid_status row.status ≡ false
      → Changes lower k chain s
          (record s { payments = update_payment d (as_submitted hash) s.payments })
  submitted-Changes d hash row e unpaid =
      Change-updated lower k chain s.payments d (as_submitted hash) (λ p. refl) row e unpaid
        (λ paid. absurd (ground arith))

  module _ (row : Payment) (found_row : find_payment row.claim_id s.payments ≡ some row)
      (unpaid : is_paid_status row.status ≡ false) (claim : Claim)
      (own : Any
        (λ e. (e.allocation_id ≡ row.claim_id) × (e.amount_wei ≡ claim.amount_wei))
        s.claims) where
    settled-Changes :
        (now : ℕ) (hash tx : Text) (receipt : Receipt) (success : Bool)
        → chain tx receipt
        → verify_receipt lower k receipt row claim.amount_wei hash ≡ done success
        → Changes lower k chain s (record s {
          payments = update_payment row.claim_id (settled now hash tx success) s.payments;
        })
    settled-Changes now hash tx receipt true seen e =
        Change-updated lower k chain s.payments row.claim_id (settled now hash tx true) (λ p. refl)
          row found_row unpaid (λ paid. Any-map backed own)
      where
        backed :
            (e : Claim)
            → (e.allocation_id ≡ row.claim_id) × (e.amount_wei ≡ claim.amount_wei)
            → IsBackedBy lower k chain row.claim_id (settled now hash tx true row) e
        backed d h = (
          h.0,
          (
            receipt,
            hash,
            tx,
            refl,
            refl,
            seen,
            (rw h.1 (verify_receipt-settled lower k now hash tx row claim.amount_wei receipt ∙ e)),
          ),
        )
    settled-Changes now hash tx receipt false seen e =
        Change-updated lower k chain s.payments row.claim_id (settled now hash tx false) (λ p. refl)
          row found_row unpaid (λ paid. absurd (ground arith))

    verified-Changes :
        (hash tx : Text) (receipt : Receipt)
        → chain tx receipt
        → Then
            (λ (r : Store × PaymentStatus). Changes lower k chain s r.0)
            (verify_receipt lower k receipt row claim.amount_wei hash >>= λ success.
              if hash_is_taken row.claim_id hash s.payments
              then refused 409
              else done (
                record s {
                  receipts = put_receipt (verified_row row hash tx success) s.receipts;
                  payments =
                      update_payment row.claim_id (settled s.points.now hash tx success) s.payments;
                },
                final_status success,
              ))
    verified-Changes hash tx receipt seen =
        elim (answer-cases (verify_receipt lower k receipt row claim.amount_wei hash)) [
          | inr other ↦ other _ (λ r. Changes lower k chain s r.0) _
          | inl (success, e) ↦
              rw (e, ◌>>=◌)
                (elim (Bool-cases (hash_is_taken row.claim_id hash s.payments)) [
                  | inl taken ↦ rw taken tt
                  | inr new ↦ rw new (settled-Changes s.points.now hash tx receipt success seen e)
                ])
        ]

    settle_payment-Changes :
        (n : Network)
        → IsHonest chain n
        → (hash : Text) (m : Option Member)
        → Then (λ r. Changes lower k chain s r.0) (settle_payment lower k n claim row hash m s)
    unfolding settle_payment
    settle_payment-Changes n honest hash none =
        elim (Bool-cases (hash_is_taken row.claim_id hash s.payments)) [
          | inl taken ↦ rw taken tt
          | inr new ↦ rw new (submitted-Changes row.claim_id hash row found_row unpaid)
        ]
    settle_payment-Changes n honest hash (some m) = Then-any _ (transaction_hash m) _ (λ t.
        elim (answer-cases (n.receipt (lower t))) [
          | inr other ↦ other _ (λ r. Changes lower k chain s r.0) _
          | inl (seen, told) ↦
              rw (told, ◌>>=◌)
                (Then-bind _ _ (found 409 (visible (lower t) seen)) _ (found-Then 409 _)
                  (λ receipt shown.
                    verified-Changes hash (lower t) receipt
                      (visible-chain chain n honest (lower t) seen receipt told shown)))
        ])

  module _ (u : Unicode) (c : Settings) (n : Network) where
    confirm_row-Changes :
        IsHonest chain n
        → (claim : Claim) (row : Payment) (hash : Text)
        → find_payment row.claim_id s.payments ≡ some row
        → Any (λ e. (e.allocation_id ≡ row.claim_id) × (e.amount_wei ≡ claim.amount_wei)) s.claims
        → Then (λ r. Changes lower k chain s r.0) (confirm_row u lower k n c claim row hash s)
    unfolding confirm_row
    confirm_row-Changes honest claim row hash e own =
        elim (Bool-cases (is_paid_status row.status)) [
          | inl done_before ↦ rw done_before (Change-kept lower k chain s.payments (λ d q b. b))
          | inr unpaid ↦ rw unpaid (
              Then-any _ (require_network c (some row.chain_id)) _ (λ _.
                Then-any _ (check_chain n c) _ (λ _. Then-any _ (n.operation hash) _ (λ asked.
                  Then-any _ (found 409 asked) _ (λ op.
                    Then-any _ (verify_operation u lower k op.0 op.1 row hash) _ (λ _.
                      Then-any _ (n.bundled hash) _
                        (λ m. settle_payment-Changes row e unpaid claim own n honest hash m)))))))
        ]

    pub confirm_payment-Changes :
        IsHonest chain n
        → (v : Visitor) (claim_id : ℕ) (given : Text)
        → Then (λ r. Changes lower k chain s r.0) (confirm_payment u lower k n c v claim_id given s)
    unfolding confirm_payment
    confirm_payment-Changes honest v claim_id given =
        Then-any _ (demand (is_hash given) 422) _ (λ _. Then-any _ (require_enabled u c) _ (λ _.
          Then-bind _ _ (found 404 (find_claim (of_payer claim_id v.github_id) s.claims)) _
            (found-Then 404 _)
            (λ claim is_claim.
              Then-bind _ _ (found 404 (of_provider (find_payment claim_id s.payments))) _
                (found-Then 404 _) (λ row is_row. at claim row is_claim is_row))))
      where
        at :
            (claim : Claim) (row : Payment)
            → find_claim (of_payer claim_id v.github_id) s.claims ≡ some claim
            → of_provider (find_payment claim_id s.payments) ≡ some row
            → Then
                (λ r. Changes lower k chain s r.0)
                (confirm_row u lower k n c claim row (lower given) s)
        at claim row is_claim is_row =
            let e : find_payment claim_id s.payments ≡ some row = of_provider-found _ row is_row in
            let same : row.claim_id ≡ claim_id = find_payment-claim_id claim_id s.payments row e in
            let wanted =
              find_claim-wanted (of_payer claim_id v.github_id) s.claims claim is_claim in
            confirm_row-Changes honest claim row (lower given)
              (subst (λ d. find_payment d s.payments ≡ some row) (sym same) e)
              (find_claim-Any
                (λ d. (d.allocation_id ≡ row.claim_id) × (d.amount_wei ≡ claim.amount_wei))
                (of_payer claim_id v.github_id) s.claims claim is_claim
                (ground (arith, wanted, same), refl))

    pub save_operation-Changes :
        (v : Visitor) (claim_id : ℕ) (given : Text) (operation : UserOperation)
        → Then (Changes lower k chain s) (save_operation u lower k n c v claim_id given operation s)
    unfolding save_operation
    save_operation-Changes v claim_id given operation =
        Then-any _ (demand (is_hash given) 422) _ (λ _. Then-any _ (require_enabled u c) _ (λ _.
          Then-any _ (found 404 (wallet_of v.github_id s.wallets)) _ (λ sender.
            Then-bind _ _ (found 404 (of_sender sender (find_payment claim_id s.payments))) _
              (found-Then 404 _)
              (λ row is_row.
                Then-bind _ _ (demand (is_unfinished row.status) 409) _ (demand-Then _ 409)
                  (λ _ live. Then-any _ (require_network c (some row.chain_id)) _ (λ _.
                    Then-any _
                      (verify_operation u lower k operation (str row.setup.entry_point) row
                        (lower given))
                      _
                      (λ _. Then-any _ (signature_of operation) _ (λ signature.
                        Then-any _ (found 400 (n.recover (lower given) signature)) _ (λ signer.
                          Then-any _ (demand (text_eq signer row.sender) 403) _ (λ _.
                            stored row (of_sender-found sender _ row is_row)
                              (unfinished-not_paid row.status live)))))))))))
      where
        stored :
            (row : Payment)
            → find_payment claim_id s.payments ≡ some row
            → is_paid_status row.status ≡ false
            → Then (Changes lower k chain s) (
                if hash_is_taken claim_id (lower given) s.payments
                then raised unique_violation
                else done (record s {
                  payments = update_payment claim_id (as_submitted (lower given)) s.payments;
                }))
        stored row e unpaid = elim (Bool-cases (hash_is_taken claim_id (lower given) s.payments)) [
          | inl taken ↦ rw taken tt
          | inr new ↦ rw new (submitted-Changes claim_id (lower given) row e unpaid)
        ]
