-- ===== src/Tests/Payments.antt =====
-- A reward of one USDC that is prepared, sent and confirmed.
use gitbounty.Base.{
  ℕ, zero, suc, ◌≡◌, refl, true, false, Option, none, some, List, [], ◌∷◌, ◌++◌, length, ◌%◌,
}
use gitbounty.Text.{Text, text, ascii, ascii_lower, before_first}
use gitbounty.Base.{map}
use gitbounty.Amounts.{fuji_usdc, pad_left, zeros, hex}
use gitbounty.Points.{Db}
use gitbounty.Bounties.Rows.{Answer, done, Board}
use gitbounty.Payments.{
  Claim, Payment, awaiting_signature, submitted, paid, failed, Store, Settings, Visitor, Setup,
  Verified, find_payment,
}
use gitbounty.Payments.Encoding.{Crypto, to_hex, to_bytes}
use gitbounty.Payments.Operation.{Member, str, missing, UserOperation}
use gitbounty.Payments.Smoothsend.{entry_point}
use gitbounty.Payments.Evidence.{Log, Receipt, userop_event, transfer_event}
use gitbounty.Payments.Prepare.{Network, prepare_payment}
use gitbounty.Payments.Confirm.{confirm_payment}
use gitbounty.Payments.Reach.{Reach, start, next, prepares, confirms, Reach-paid}

abbrev lower : Text → Text
lower = map ascii_lower

-- Not a hash: the length of what is hashed, and zeros.
abbrev crypto : Crypto
crypto = record { keccak = λ b. (length b % 256) ∷ zero_bytes 31; encode = λ values. done [] }
  where
    zero_bytes : ℕ → List ℕ
    zero_bytes zero = []
    zero_bytes (suc n) = 0 ∷ zero_bytes n

abbrev many : ℕ → ℕ → Text
many zero c = []
many (suc n) c = c ∷ many n c

abbrev address_of : ℕ → Text
address_of c = text "0x" ++ many 40 c

abbrev settings : Settings
settings = record {
  managed_wallets_enabled = false;
  sponsored_escrow = false;
  escrow_enabled = false;
  avax_payments_enabled = true;
  smoothsend_public_key = text "pk_nogas_a";
  smoothsend_secret_key = [];
  smoothsend_fee_limit_usdc = text "1";
  frontend_url = text "https://gitbounty";
  dev_login_stub_enabled = false;
  is_test = false;
  usdc_fuji = true;
}

abbrev owner : Visitor
owner = record { id = 9; github_id = 50; github_login = text "owner"; avatar_url = none }

abbrev claim : Claim
claim = record {
  allocation_id = 3;
  bounty_id = 1;
  github_id = 42;
  payer_github_id = 50;
  amount_wei = 1000000;
  is_clear = true;
  claimed_at = some 900;
}

abbrev empty_db : Db
empty_db = record {
  users = [];
  next_user = 10;
  ledger = [];
  next_entry = 1;
  allocations = [];
  next_allocation = 4;
  merged_prs = [];
  now = 1000;
}

abbrev board : Board
board = record {
  bounties = [];
  next_bounty = 2;
  history = [];
  payment_terms =
      record { bounty_id = 1; payer_github_id = 50; amount_wei = 1000000; chain_id = 43113 } ∷ [];
  escrow_terms = [];
  repositories = [];
  next_repository = 1;
  issues = [];
  now = 1000;
}

abbrev store : List Payment → List Verified → Store
store payments receipts = record {
  points = empty_db;
  board = board;
  wallets =
      record { github_id = 50; address = address_of b'd' }
      ∷ record { github_id = 42; address = address_of b'c' }
      ∷ [];
  challenges = [];
  claims = claim ∷ [];
  payments = payments;
  receipts = receipts;
}

abbrev setup : Setup
setup = record {
  smart_sender = address_of b'a';
  entry_point = entry_point;
  account_factory = address_of b'f';
  paymaster_address = address_of b'b';
}

abbrev prepared : Payment
prepared = record {
  claim_id = 3;
  chain_id = 43113;
  sender = address_of b'd';
  recipient = address_of b'c';
  nonce = 5;
  status = awaiting_signature;
  tx_hash = none;
  paid_at = none;
  is_smoothsend = true;
  setup = setup;
  fee_limit = 1000000;
  call_data = text "0x29000000";
  userop_hash = none;
}

abbrev operation : UserOperation
operation = record {
  sender = str (address_of b'a');
  nonce = str (text "0x5");
  call_data = str (text "0x29000000");
  init_code = missing;
  factory = missing;
  factory_data = missing;
  paymaster_and_data = missing;
  paymaster = str (address_of b'b');
  paymaster_data = missing;
  paymaster_verification_gas_limit = missing;
  paymaster_post_op_gas_limit = missing;
  account_gas_limits = missing;
  verification_gas_limit = missing;
  call_gas_limit = missing;
  pre_verification_gas = str (text "0x1");
  gas_fees = missing;
  max_priority_fee_per_gas = missing;
  max_fee_per_gas = missing;
  signature = missing;
}

-- The hash of the operation, and of the transaction.
abbrev op_hash : Text
op_hash = text "0x" ++ many 64 b'0'

abbrev tx_hash : Text
tx_hash = text "0x" ++ many 64 b'7'

abbrev word_of : ℕ → Text
word_of c = text "0x" ++ pad_left 64 (many 40 c)

abbrev transfer : Log
unfolding hex to_hex
transfer = record {
  removed = false;
  address = fuji_usdc;
  topics = transfer_event lower crypto ∷ word_of b'a' ∷ word_of b'c' ∷ [];
  payload = text "0x" ++ pad_left 64 (hex 1000000);
}

abbrev event : Log
unfolding to_hex to_bytes
event = record {
  removed = false;
  address = entry_point;
  topics = userop_event lower crypto ∷ op_hash ∷ word_of b'a' ∷ word_of b'b' ∷ [];
  payload = text "0x" ++ to_hex (to_bytes 32 5 ++ (to_bytes 32 1 ++ to_bytes 64 0));
}

abbrev receipt : Receipt
receipt = record { status = text "0x1"; to_address = entry_point; logs = transfer ∷ event ∷ [] }

abbrev network : Option Member → Network
network bundled = record {
  chain_id = done 43113;
  account_setup = λ sender chain_id. done setup;
  account_nonce = λ sender. done 5;
  operation = λ hash. done (some (operation, str entry_point));
  bundled = λ hash. done bundled;
  receipt = λ hash. done (some (tx_hash, receipt));
  recover = λ hash signature. none;
}

prepares-done :
    prepare_payment ascii crypto (network none) settings owner 3 (store [] [])
    ≡ done (store (prepared ∷ []) [], prepared)
unfolding prepare_payment before_first zeros
prepares-done = refl

abbrev paid_payment : Payment
paid_payment = record prepared {
  status = paid;
  tx_hash = some tx_hash;
  paid_at = some 1000;
  userop_hash = some op_hash;
}

abbrev verified : Verified
verified = record {
  userop_hash = op_hash;
  tx_hash = tx_hash;
  claim_id = 3;
  chain_id = 43113;
  nonce = 5;
  is_paid = true;
}

abbrev paid_store : Store
paid_store = store (paid_payment ∷ []) (verified ∷ [])

confirms-done :
    confirm_payment ascii lower crypto
      (network (some (str tx_hash)))
      settings
      owner
      3
      op_hash
      (store (prepared ∷ []) [])
    ≡ done (paid_store, paid)
unfolding confirm_payment zeros transfer event
confirms-done = refl

reached : Reach lower crypto ascii (store [] []) paid_store
reached =
    next (next start (prepares (network none) settings owner 3 prepares-done))
      (confirms (network (some (str tx_hash))) settings owner 3 op_hash confirms-done)

-- The chain has this one transaction.
abbrev OnChain : Text → Receipt → Type 0
OnChain hash r = (hash ≡ tx_hash) × (r ≡ receipt)

abbrev answers : Text → Receipt → Answer (Option (Text × Receipt))
answers t q = done (some (t, q))

prepares_again-done :
    prepare_payment ascii crypto (network none) settings owner 3 paid_store
    ≡ done (paid_store, paid_payment)
unfolding prepare_payment
prepares_again-done = refl

Reach-paid_example : find_payment 3 paid_store.payments ≡ some paid_payment
unfolding find_payment
Reach-paid_example =
    Reach-paid {lower = lower} 3 paid_payment refl refl
      (next start (prepares (network none) settings owner 3 prepares_again-done))

-- A failed payment whose operation is seen without a receipt waits for one again, also while another
-- payment of the same wallet does.
abbrev other_payment : Payment
other_payment = record prepared { claim_id = 4; nonce = 6 }

abbrev failed_payment : Payment
failed_payment = record prepared {
  status = failed;
  tx_hash = some tx_hash;
  userop_hash = some op_hash;
}

reopened :
    confirm_payment ascii lower crypto
      (network none)
      settings
      owner
      3
      op_hash
      (store (failed_payment ∷ other_payment ∷ []) [])
    ≡ done (store (record failed_payment { status = submitted } ∷ other_payment ∷ []) [], submitted)
unfolding confirm_payment zeros
reopened = refl
