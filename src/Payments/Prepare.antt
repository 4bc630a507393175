-- ===== src/Payments/Prepare.antt =====
-- routes/payments.py: a reward is claimed by the contributor, and its payment is prepared by the
-- owner. What the chain and the bundler answer is an argument. A transaction that raises leaves
-- nothing, so a route returns the new store or the refusal alone.
use gitbounty.Base.{
  ℕ, ◌^◌, Bool, true, false, not, Option, none, some, List, [], ◌∷◌, ◌++◌, ◌&&◌, ◌||◌, ◌==◌, any,
  map, ltb, length, drop, is_some, if◌then◌else◌,
}
use gitbounty.Text.{Text, text, text_eq, starts_with, Unicode}
use gitbounty.Amounts.{amount_to_units}
use gitbounty.Points.Allocations.{credit}
use gitbounty.Points.Result.{value_error, unique_violation}
use gitbounty.Bounties.Rows.{Answer, done, raised, ◌>>=◌}
use gitbounty.Payments.{
  Claim, Payment, awaiting_signature, Setup, Verified, Store, Settings, Visitor, demand, ◌>>◌,
  found, of_result, active_chain, require_network, actor_id, wallet_of, chain_of, find_payment,
  is_unfinished, is_paid_status, is_failed_status, update_payment,
}
use gitbounty.Payments.Encoding.{Crypto, hex_value}
use gitbounty.Payments.Operation.{Member, UserOperation}
use gitbounty.Payments.Smoothsend.{payment_calldata}
use gitbounty.Payments.Evidence.{Receipt}
use gitbounty.Payments.Wallets.{require_enabled}

-- What is asked of the chain and of the bundler.
pub record Network : Type 0 where
  -- `eth_chainId`
  pub chain_id : Answer ℕ
  -- `account_setup` and the number that `account_nonce` reads
  pub account_setup : Text → ℕ → Answer Setup
  pub account_nonce : Text → Answer ℕ
  -- `eth_getUserOperationByHash`: the operation and its `entryPoint`
  pub operation : Text → Answer (Option (UserOperation × Member))
  -- `eth_getUserOperationReceipt`: the hash of the transaction
  pub bundled : Text → Answer (Option Member)
  -- `eth_getTransactionReceipt`, with its `transactionHash`
  pub receipt : Text → Answer (Option (Text × Receipt))
  -- the address that signed a hash, in small letters
  pub recover : Text → Text → Option Text

-- The pattern of `TransactionProof`.
abbrev all_hex : Text → Bool
all_hex [] = true
all_hex (c ∷ s) = is_some (hex_value c) && all_hex s

abbrev pub is_hash : Text → Bool
is_hash s = starts_with s (text "0x") && length s == 66 && all_hex (drop 2 s)

abbrev pub of_contributor : ℕ → ℕ → Claim → Bool
of_contributor claim_id github_id c = c.allocation_id == claim_id && c.github_id == github_id

abbrev pub of_payer : ℕ → ℕ → Claim → Bool
of_payer claim_id github_id c = c.allocation_id == claim_id && c.payer_github_id == github_id

unfoldable pub find_claim : (Claim → Bool) → List Claim → Option Claim
find_claim wanted [] = none
find_claim wanted (c ∷ cs) = if wanted c then some c else find_claim wanted cs

-- `claimed_at = coalesce(claimed_at, now())`
abbrev pub claimed : ℕ → ℕ → Claim → Claim
claimed claim_id now c =
    if c.allocation_id == claim_id
    then record c { claimed_at = elim c.claimed_at [ none ↦ some now | some t ↦ some t ] }
    else c

abbrev pub is_nonempty : Option Text → Bool
is_nonempty none = false
is_nonempty (some []) = false
is_nonempty (some (c ∷ s)) = true

unfoldable pub claim_reward :
    Unicode → (Text → Text) → Settings → Visitor → ℕ → Store → Answer Store
unfolding require_enabled find_claim require_network chain_of wallet_of actor_id credit
claim_reward u lower c v claim_id s = do
  require_enabled u c
  row ← found 404 (find_claim (of_contributor claim_id v.github_id) s.claims)
  require_network c (chain_of row.bounty_id s.board.payment_terms)
  demand row.is_clear 409
  demand (is_nonempty (wallet_of v.github_id s.wallets)) 409
  let (points, user_id) = actor_id v s.points
  credited ← of_result (credit lower claim_id user_id points)
  done (record s { points = credited.0; claims = map (claimed claim_id points.now) s.claims })

-- `check_chain`
unfoldable pub check_chain : Network → Settings → Answer (Unit {0})
check_chain n c = do id ← n.chain_id; demand (id == active_chain c) 503

abbrev pub nonce_clashes : ℕ → ℕ → Text → ℕ → Payment → Bool
nonce_clashes claim_id chain_id sender nonce p =
    not (p.claim_id == claim_id)
    && p.chain_id == chain_id
    && text_eq p.sender sender
    && p.nonce == nonce

-- `on conflict (claim_id) do update set …`
abbrev pub prepared_again : ℕ → Payment → Payment
prepared_again nonce p = record p {
  nonce = nonce;
  status = awaiting_signature;
  tx_hash = none;
  userop_hash = none;
  paid_at = none;
}

abbrev pub put_payment : Option Payment → Payment → List Payment → List Payment
put_payment none p ps = ps ++ p ∷ []
put_payment (some e) p ps = update_payment e.claim_id (prepared_again p.nonce) ps

abbrev pub stored_payment : Option Payment → Payment → Payment
stored_payment none p = p
stored_payment (some e) p = prepared_again p.nonce e

abbrev pub row_chain : Option Payment → Payment → ℕ × Text
row_chain none p = (p.chain_id, p.sender)
row_chain (some e) p = (e.chain_id, e.sender)

-- The insert of `prepare_payment`, under `unique (chain_id, sender, nonce)`.
unfoldable pub insert_payment : Option Payment → Payment → Store → Answer (Store × Payment)
insert_payment existing p s =
    let (chain_id, sender) = row_chain existing p in
    if any (nonce_clashes p.claim_id chain_id sender p.nonce) s.payments
    then raised unique_violation
    else done (record s { payments = put_payment existing p s.payments }, stored_payment existing p)

abbrev failed_receipt : Text → Verified → Bool
failed_receipt hash r = text_eq r.userop_hash hash && not r.is_paid

-- Whether the failure of a payment is on record; a payment without a hash has none.
unfoldable pub failure_is_verified : Payment → List Verified → Bool
failure_is_verified p rs = elim p.userop_hash [
  | none ↦ false
  | some hash ↦ any (failed_receipt hash) rs
]

abbrev pub is_unfinished_of : Text → Payment → Bool
is_unfinished_of sender p = text_eq p.sender sender && is_unfinished p.status

abbrev pub limit_of : Option ℕ → Answer ℕ
limit_of none = raised value_error
limit_of (some n) = done n

abbrev pub setup_of : Network → Option Payment → Text → ℕ → Answer Setup
setup_of n none sender chain_id = n.account_setup sender chain_id
setup_of n (some p) sender chain_id = done p.setup

abbrev pub may_retry : Option Payment → Store → Bool
unfolding failure_is_verified
may_retry none s = true
may_retry (some p) s = failure_is_verified p s.receipts

-- Nothing was paid yet, or its failure is known: `prepare_payment` behind `check_chain`.
unfoldable pub start_payment :
    Unicode
    → Crypto
    → Network
    → Settings
    → Claim
    → Option Payment
    → Store
    → Answer (Store × Payment)
unfolding failure_is_verified wallet_of amount_to_units payment_calldata insert_payment
start_payment u k n c claim existing s = do
  demand (may_retry existing s) 409
  demand (claim.is_clear && is_some claim.claimed_at) 409
  let sender_wallet = wallet_of claim.payer_github_id s.wallets
  let recipient_wallet = wallet_of claim.github_id s.wallets
  demand (is_nonempty sender_wallet && is_nonempty recipient_wallet) 409
  sender ← found 409 sender_wallet
  recipient ← found 409 recipient_wallet
  demand (not (any (is_unfinished_of sender) s.payments)) 409
  setup ← setup_of n existing sender (active_chain c)
  nonce ← n.account_nonce setup.smart_sender
  demand (ltb nonce (2 ^ 63)) 409
  fee_limit ← limit_of (amount_to_units u c.smoothsend_fee_limit_usdc 6)
  call_data ←
      payment_calldata k (active_chain c) recipient claim.amount_wei setup.paymaster_address
        fee_limit
  let p : Payment = record {
    claim_id = claim.allocation_id;
    chain_id = active_chain c;
    sender = sender;
    recipient = recipient;
    nonce = nonce;
    status = awaiting_signature;
    tx_hash = none;
    paid_at = none;
    is_smoothsend = true;
    setup = setup;
    fee_limit = fee_limit;
    call_data = call_data;
    userop_hash = none;
  }
  insert_payment existing p s

abbrev pub is_legacy : Option Payment → Bool
is_legacy none = false
is_legacy (some p) = not p.is_smoothsend

abbrev pub is_paid : Option Payment → Bool
is_paid none = false
is_paid (some p) = is_paid_status p.status

-- The existing payment that is handed out again.
abbrev pub standing : Option Payment → Option Payment
standing none = none
standing (some p) = if is_failed_status p.status then none else some p

unfoldable pub prepare_payment :
    Unicode → Crypto → Network → Settings → Visitor → ℕ → Store → Answer (Store × Payment)
unfolding require_enabled find_claim require_network chain_of find_payment check_chain start_payment
prepare_payment u k n c v claim_id s = do
  require_enabled u c
  claim ← found 404 (find_claim (of_payer claim_id v.github_id) s.claims)
  require_network c (chain_of claim.bounty_id s.board.payment_terms)
  let existing = find_payment claim_id s.payments
  demand (claim.is_clear || is_paid existing) 409
  demand (not (is_legacy existing)) 409
  elim (standing existing) [
    | some p ↦ done (s, p)
    | none ↦ (do check_chain n c; start_payment u k n c claim existing s)
  ]
