-- ===== src/Payments/Smoothsend.antt =====
-- smoothsend.py: the call that a payment makes, and whether an operation is the one that a payment
-- reserves.

use gitbounty.Base.{
  ℕ, Bool, true, false, Option, none, some, List, [], ◌∷◌, ◌++◌, ◌&&◌, ◌||◌, ◌==◌, leb, take, drop,
  if◌then◌else◌,
}
use gitbounty.Base.Int.{ℤ, pos, negsuc}
use gitbounty.Text.{Text, text, text_eq, Unicode}
use gitbounty.Regex.{one, word, plus, ◌·◌, full_match}
use gitbounty.Amounts.{asset, fuji_usdc, transfer_data}
use gitbounty.Points.Result.{value_error}
use gitbounty.Bounties.Rows.{Answer, done, refused, raised, ◌>>=◌}
use gitbounty.Payments.{Settings, Payment, demand, ◌>>◌}
use gitbounty.Payments.Encoding.{
  Abi, address, uint256, addresses, uint256s, bytes_list, Crypto, to_hex, from_hex, int_16,
}
use gitbounty.Payments.Operation.{
  Member, member, member_or, or_else, UserOperation, init_of, operation_hash,
}

-- `[A-Za-z0-9_-]+`
abbrev key_character : ℕ → Bool
key_character c =
    leb b'A' c && leb c b'Z'
    || leb b'a' c && leb c b'z'
    || leb b'0' c && leb c b'9'
    || c == b'_'
    || c == b'-'

unfoldable pub is_key : Unicode → Text → Text → Bool
unfolding full_match
is_key u prefix key = full_match u.is_word (word prefix · plus (one key_character)) key

abbrev pub is_empty : Text → Bool
is_empty [] = true
is_empty (c ∷ s) = false

-- `configured`
unfoldable pub configured : Unicode → Settings → Bool
unfolding is_key
configured u c =
    is_key u (text "pk_nogas_") c.smoothsend_public_key
    && (is_empty c.smoothsend_secret_key || is_key u (text "sk_nogas_") c.smoothsend_secret_key)

-- `ENTRY_POINT`
abbrev pub entry_point : Text
entry_point = text "0x0000000071727de22e5e9d8baf0edac6f37da032"

-- `fee_token`
unfoldable pub fee_token : ℕ → Text
fee_token chain_id =
    if chain_id == 43113 then fuji_usdc else text "0xb97ef9ef8734c71904d8002f8b6bc66dd9c48a6e"

-- `token or …` of `asset(chain_id)`; `none` of `asset` is its `ValueError`.
abbrev pub token_of : ℕ → Answer (Option Text)
token_of chain_id = elim (asset chain_id) [
  | none ↦ raised value_error
  | some a ↦ done a.token_address
]

abbrev of_option : Option (List ℕ) → Answer (List ℕ)
of_option none = raised value_error
of_option (some bs) = done bs

module _ (k : Crypto) where
  -- `call`; the texts are ASCII, so that their codes are their bytes.
  unfoldable pub call : Text → List Abi → Answer Text
  unfolding to_hex
  call signature values = do
    encoded ← k.encode values
    done (text "0x" ++ to_hex (take 4 (k.keccak signature) ++ encoded))

  abbrev payment_target : Option Text → Text → Text
  payment_target none recipient = recipient
  payment_target (some token) recipient = token

  abbrev payment_value : Option Text → ℕ → ℕ
  payment_value none amount = amount
  payment_value (some token) amount = 0

  abbrev payment_bytes : Option Text → Text → ℕ → Answer (List ℕ)
  unfolding from_hex transfer_data
  payment_bytes none recipient amount = done []
  payment_bytes (some token) recipient amount =
      of_option (from_hex (drop 2 (transfer_data recipient amount)))

  -- `payment_calldata`
  unfoldable pub payment_calldata : ℕ → Text → ℕ → Text → ℕ → Answer Text
  unfolding call fee_token asset payment_bytes from_hex
  payment_calldata chain_id recipient amount paymaster fee_limit = do
    token ← token_of chain_id
    approve ← call (text "approve(address,uint256)") (address paymaster ∷ uint256 fee_limit ∷ [])
    approve_bytes ← of_option (from_hex (drop 2 approve))
    transfer_bytes ← payment_bytes token recipient amount
    call (text "executeBatch(address[],uint256[],bytes[])") (
        addresses (fee_token chain_id ∷ payment_target token recipient ∷ [])
        ∷ uint256s (0 ∷ payment_value token amount ∷ [])
        ∷ bytes_list (approve_bytes ∷ transfer_bytes ∷ [])
        ∷ [])

module _ (u : Unicode) (lower : Text → Text) (k : Crypto) where
  abbrev is_number : ℕ → Option ℤ → Answer (Unit {0})
  is_number n none = refused 409
  is_number n (some (pos m)) = demand (m == n) 409
  is_number n (some (negsuc m)) = refused 409

  -- `verify_operation`, of the operation and its `entryPoint`; the payment's own fields are those of
  -- its row.
  unfoldable pub verify_operation : UserOperation → Member → Payment → Text → Answer (Unit {0})
  unfolding operation_hash call int_16
  verify_operation op point p userop_hash = do
    pm ← or_else op.paymaster_and_data (member_or [] op.paymaster)
    init ← init_of op
    create ← call k (text "createAccount(address,uint256)") (address p.sender ∷ uint256 0 ∷ [])
    let expected_init = p.setup.account_factory ++ drop 2 create
    demand (text_eq (lower init) (text "0x") || text_eq (lower init) expected_init) 409
    e ← member point
    demand (text_eq (lower e) p.setup.entry_point) 409
    sender ← member op.sender
    demand (text_eq (lower sender) p.setup.smart_sender) 409
    n ← member op.nonce
    is_number p.nonce (int_16 u n)
    data_text ← member op.call_data
    demand (text_eq (lower data_text) p.call_data) 409
    demand (text_eq (lower (take 42 pm)) p.setup.paymaster_address) 409
    hash ← operation_hash u k op p.chain_id p.setup.entry_point
    demand (text_eq hash userop_hash) 409
