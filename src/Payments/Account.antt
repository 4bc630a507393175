-- ===== src/Payments/Account.antt =====
-- smoothsend.py: the smart account of a payer, and routes/payments.py: what is shown of a payment and
-- of a wallet. The answers of the gateway and of the chain are arguments.
use Prim.Native.Nat.{max}
use gitbounty.Base.{
  ℕ, ◌^◌, Bool, true, false, not, Option, none, some, [], ◌∷◌, ◌++◌, ◌&&◌, ◌==◌, ltb, leb, length,
  drop, is_some, if◌then◌else◌,
}
use gitbounty.Base.Int.{ℤ, pos, negsuc}
use gitbounty.Text.{Text, text, text_eq, starts_with, one_of, Unicode}
use gitbounty.Text.Decimal.{decimal}
use gitbounty.Amounts.{Asset, asset, units_to_amount, transfer_data}
use gitbounty.Points.Result.{value_error}
use gitbounty.Bounties.Rows.{Answer, done, refused, raised, ◌>>=◌}
use gitbounty.Sponsored.{last_forty}
use gitbounty.Payments.{
  Setup, Payment, Store, Settings, Visitor, demand, ◌>>◌, found, active_chain, wallet_of,
}
use gitbounty.Payments.Encoding.{address, uint256, Crypto, hex_value, int_16}
use gitbounty.Payments.Smoothsend.{call, entry_point, fee_token}

-- The addresses of the factory and the paymaster for a network, in small letters, if the gateway
-- gives both; a call of a contract; and the code at an address.
pub record Gateway : Type 0 where
  pub defaults : ℕ → Option (Text × Text)
  pub eth_call : Text → Text → Answer Text
  pub code_at : Text → Answer Text
  pub balance_of : Text → Answer Text
  pub chain_id : Answer ℕ

abbrev is_small : ℕ → Bool
is_small c = not (leb b'A' c && leb c b'F')

abbrev all_digits : (ℕ → Bool) → Text → Bool
all_digits allowed [] = true
all_digits allowed (c ∷ s) = is_some (hex_value c) && allowed c && all_digits allowed s

-- `0x[0-9a-f]{40}` and `0x[0-9a-fA-F]{64}`, of the whole text.
abbrev pub is_address : Text → Bool
is_address s = starts_with s (text "0x") && length s == 42 && all_digits is_small (drop 2 s)

abbrev is_word : Text → Bool
is_word s = starts_with s (text "0x") && length s == 66 && all_digits (λ c. true) (drop 2 s)

abbrev is_zero : Option ℤ → Bool
is_zero (some (pos n)) = n == 0
is_zero _ = false

module _ (u : Unicode) (lower : Text → Text) (k : Crypto) (g : Gateway) where
  -- An account that has code belongs to its owner.
  unfoldable pub check_owner : Text → Text → Text → Answer (Unit {0})
  unfolding call
  check_owner owner sender code = if one_of code (text "0x" ∷ text "0x0" ∷ []) then done tt else do
    data_text ← call k (text "owner()") []
    actual ← g.eth_call sender data_text
    demand (text_eq (lower (last_forty actual)) (drop 2 owner)) 502

  unfoldable pub account_setup : Text → ℕ → Answer Setup
  unfolding call int_16 check_owner
  account_setup owner chain_id = do
    addresses ← found 502 (g.defaults chain_id)
    demand (is_address addresses.0 && is_address addresses.1) 502
    data_text ← call k (text "getAddress(address,uint256)") (address owner ∷ uint256 0 ∷ [])
    result ← g.eth_call addresses.0 data_text
    demand (is_word result && not (is_zero (int_16 u result))) 502
    let sender = text "0x" ++ lower (last_forty result)
    code ← g.code_at sender
    check_owner owner sender code
    let setup : Setup = record {
      smart_sender = sender;
      entry_point = entry_point;
      account_factory = addresses.0;
      paymaster_address = addresses.1;
    }
    done setup

  abbrev nonce_of : Option ℤ → Answer ℕ
  nonce_of none = raised value_error
  nonce_of (some (negsuc n)) = raised value_error
  nonce_of (some (pos n)) = if ltb n (2 ^ 63) then done n else refused 409

  -- `account_nonce`; a number below zero, which the table does not take, is an error here.
  unfoldable pub account_nonce : Text → Answer ℕ
  unfolding call int_16
  account_nonce sender = do
    data_text ← call k (text "getNonce(address,uint192)") (address sender ∷ uint256 0 ∷ [])
    value ← g.eth_call entry_point data_text
    nonce_of (int_16 u value)

  abbrev amount_of : Option ℤ → Answer ℕ
  amount_of (some (pos n)) = done n
  amount_of _ = refused 502

  abbrev token_balance : Option Text → Text → ℕ → Answer ℕ
  unfolding call int_16
  token_balance none wallet native = done native
  token_balance (some token) wallet native = do
    data_text ← call k (text "balanceOf(address)") (address wallet ∷ [])
    value ← g.eth_call token data_text
    amount_of (int_16 u value)

  -- The address with the two balances, if a wallet is linked.
  pub record Balance : Type 0 where
    pub address : Text
    pub balance : Text
    pub native_balance_avax : Text

  unfoldable pub balances : Settings → Asset → Text → Answer Balance
  unfolding int_16 token_balance call units_to_amount
  balances c a wallet = do
    id ← g.chain_id
    demand (id == active_chain c) 503
    value ← g.balance_of wallet
    native ← amount_of (int_16 u value)
    balance ← token_balance a.token_address wallet native
    demand (ltb (max native balance) (2 ^ 256)) 502
    let b : Balance = record {
      address = wallet;
      balance = units_to_amount balance a.decimals;
      native_balance_avax = units_to_amount native 18;
    }
    done b

  -- `wallet_balance`
  unfoldable pub wallet_balance : Settings → Visitor → Store → Answer (Option Balance)
  unfolding wallet_of asset balances
  wallet_balance c v s = elim (asset (active_chain c)) [
    | none ↦ raised value_error
    | some a ↦ elim (wallet_of v.github_id s.wallets) [
      | none ↦ done none
      | some wallet ↦ (do b ← balances c a wallet; done (some b))
    ]
  ]

-- What `payment_out` adds to the row of a payment.
pub record PaymentOut : Type 0 where
  pub amount_wei : Text
  pub reward_amount : Text
  pub transaction_to : Text
  pub transaction_value : Text
  pub transaction_data : Text
  pub fee_token : Text
  pub fee_limit_usdc : Text
  pub fee_limit : Text
  pub smoothsend_public_key : Text

abbrev sent_to : Option Text → Text → Text
sent_to none recipient = recipient
sent_to (some token) recipient = token

abbrev sent_value : Option Text → ℕ → Text
sent_value none amount = decimal amount
sent_value (some token) amount = text "0"

abbrev sent_data : Option Text → Text → ℕ → Text
unfolding transfer_data
sent_data none recipient amount = text "0x"
sent_data (some token) recipient amount = transfer_data recipient amount

unfoldable pub payment_out : Settings → Payment → ℕ → Answer PaymentOut
unfolding asset units_to_amount sent_data transfer_data fee_token
payment_out c p amount = elim (asset p.chain_id) [
  | none ↦ raised value_error
  | some a ↦ done (record {
    amount_wei = decimal amount;
    reward_amount = units_to_amount amount a.decimals;
    transaction_to = sent_to a.token_address p.recipient;
    transaction_value = sent_value a.token_address amount;
    transaction_data = sent_data a.token_address p.recipient amount;
    fee_token = fee_token p.chain_id;
    fee_limit_usdc = units_to_amount p.fee_limit 6;
    fee_limit = decimal p.fee_limit;
    smoothsend_public_key = c.smoothsend_public_key;
  })
]
