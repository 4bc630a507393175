-- ===== src/Payments/Confirm.antt =====
-- routes/payments.py: the operation that the owner signs for a payment, and its confirmation.
use gitbounty.Base.{
  ℕ, Bool, true, false, Option, none, some, List, [], ◌∷◌, ◌++◌, ◌&&◌, any, if◌then◌else◌,
}
use gitbounty.Text.{Text, text_eq, Unicode}
use gitbounty.Points.Result.{unique_violation}
use gitbounty.Bounties.Rows.{Answer, done, refused, raised, ◌>>=◌}
use gitbounty.Payments.{
  Claim, Payment, PaymentStatus, submitted, paid, failed, Verified, Store, Settings, Visitor,
  demand, ◌>>◌, found, require_network, wallet_of, find_payment, is_unfinished, is_paid_status,
  update_payment, hash_is_taken,
}
use gitbounty.Payments.Encoding.{Crypto}
use gitbounty.Payments.Operation.{Member, str, UserOperation}
use gitbounty.Payments.Smoothsend.{verify_operation}
use gitbounty.Payments.Evidence.{Receipt, verify_receipt}
use gitbounty.Payments.Wallets.{require_enabled}
use gitbounty.Payments.Prepare.{Network, is_hash, of_payer, find_claim, check_chain}

abbrev pub as_submitted : Text → Payment → Payment
as_submitted hash p = record p { userop_hash = some hash; status = submitted }

abbrev pub of_sender : Text → Option Payment → Option Payment
of_sender sender none = none
of_sender sender (some p) = if text_eq p.sender sender && p.is_smoothsend then some p else none

-- `operation["signature"]`
abbrev pub signature_of : UserOperation → Answer Text
signature_of o = elim o.signature [ str t ↦ done t | _ ↦ refused 400 ]

-- `save_operation`: the operation that the wallet of the owner has signed.
unfoldable pub save_operation :
    Unicode
    → (Text → Text)
    → Crypto
    → Network
    → Settings
    → Visitor
    → ℕ
    → Text
    → UserOperation
    → Store
    → Answer Store
unfolding require_enabled wallet_of find_payment require_network verify_operation
save_operation u lower k n c v claim_id userop_hash operation s = do
  demand (is_hash userop_hash) 422
  require_enabled u c
  sender ← found 404 (wallet_of v.github_id s.wallets)
  row ← found 404 (of_sender sender (find_payment claim_id s.payments))
  demand (is_unfinished row.status) 409
  require_network c (some row.chain_id)
  let hash = lower userop_hash
  verify_operation u lower k operation (str row.setup.entry_point) row hash
  signature ← signature_of operation
  signer ← found 400 (n.recover hash signature)
  demand (text_eq signer row.sender) 403
  if hash_is_taken claim_id hash s.payments
      then raised unique_violation
      else done (record s { payments = update_payment claim_id (as_submitted hash) s.payments })

abbrev pub verified_row : Payment → Text → Text → Bool → Verified
verified_row p hash tx_hash success = record {
  userop_hash = hash;
  tx_hash = tx_hash;
  claim_id = p.claim_id;
  chain_id = p.chain_id;
  nonce = p.nonce;
  is_paid = success;
}

-- `on conflict (userop_hash) do nothing`
abbrev pub put_receipt : Verified → List Verified → List Verified
put_receipt r rs = if any (λ q. text_eq q.userop_hash r.userop_hash) rs then rs else rs ++ r ∷ []

abbrev pub settled : ℕ → Text → Text → Bool → Payment → Payment
settled now hash tx_hash true p = record p {
  status = paid;
  tx_hash = some tx_hash;
  userop_hash = some hash;
  paid_at = some now;
}
settled now hash tx_hash false p = record p {
  status = failed;
  tx_hash = some tx_hash;
  userop_hash = some hash;
  paid_at = none;
}

abbrev pub visible : Text → Option (Text × Receipt) → Option Receipt
visible tx_hash none = none
visible tx_hash (some (hash, r)) = if text_eq hash tx_hash then some r else none

abbrev pub final_status : Bool → PaymentStatus
final_status true = paid
final_status false = failed

abbrev pub transaction_hash : Member → Answer Text
transaction_hash (str t) = if is_hash t then done t else refused 502
transaction_hash _ = refused 502

-- `confirm_payment` once the bundler knows the operation. A hash that another payment has is answered
-- with 409.
unfoldable pub settle_payment :
    (Text → Text)
    → Crypto
    → Network
    → Claim
    → Payment
    → Text
    → Option Member
    → Store
    → Answer (Store × PaymentStatus)
unfolding verify_receipt
settle_payment lower k n claim row hash none s =
    if hash_is_taken row.claim_id hash s.payments
    then refused 409
    else done (
      record s { payments = update_payment row.claim_id (as_submitted hash) s.payments },
      submitted,
    )
settle_payment lower k n claim row hash (some m) s = do
  t ← transaction_hash m
  let tx_hash = lower t
  seen ← n.receipt tx_hash
  receipt ← found 409 (visible tx_hash seen)
  success ← verify_receipt lower k receipt row claim.amount_wei hash
  if hash_is_taken row.claim_id hash s.payments
      then refused 409
      else done (
        record s {
          receipts = put_receipt (verified_row row hash tx_hash success) s.receipts;
          payments =
              update_payment row.claim_id (settled s.points.now hash tx_hash success) s.payments;
        },
        final_status success,
      )

unfoldable pub confirm_row :
    Unicode
    → (Text → Text)
    → Crypto
    → Network
    → Settings
    → Claim
    → Payment
    → Text
    → Store
    → Answer (Store × PaymentStatus)
unfolding require_network check_chain verify_operation settle_payment
confirm_row u lower k n c claim row hash s =
    if is_paid_status row.status then done (s, paid) else do
      require_network c (some row.chain_id)
      check_chain n c
      asked ← n.operation hash
      op ← found 409 asked
      verify_operation u lower k op.0 op.1 row hash
      receipt ← n.bundled hash
      settle_payment lower k n claim row hash receipt s

abbrev pub of_provider : Option Payment → Option Payment
of_provider none = none
of_provider (some p) = if p.is_smoothsend then some p else none

unfoldable pub confirm_payment :
    Unicode
    → (Text → Text)
    → Crypto
    → Network
    → Settings
    → Visitor
    → ℕ
    → Text
    → Store
    → Answer (Store × PaymentStatus)
unfolding require_enabled find_claim find_payment confirm_row
confirm_payment u lower k n c v claim_id userop_hash s = do
  demand (is_hash userop_hash) 422
  require_enabled u c
  claim ← found 404 (find_claim (of_payer claim_id v.github_id) s.claims)
  row ← found 404 (of_provider (find_payment claim_id s.payments))
  confirm_row u lower k n c claim row (lower userop_hash) s
