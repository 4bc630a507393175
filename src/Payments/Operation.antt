-- ===== src/Payments/Operation.antt =====
-- `operation_hash` of smoothsend.py, of a user operation as its JSON holds it.
use Prim.Native.Nat.{bit_or}
use gitbounty.Base.{ℕ, ◌*◌, ◌^◌, Option, none, some, List, [], ◌∷◌, ◌++◌, ltb, drop}
use gitbounty.Base.Int.{ℤ, pos, negsuc}
use gitbounty.Text.{Text, text, Unicode}
use gitbounty.Points.Result.{value_error}
use gitbounty.Bounties.Rows.{Answer, done, refused, raised, ◌>>=◌}
use gitbounty.Payments.{demand, ◌>>◌}
use gitbounty.Payments.Encoding.{
  address, uint256, bytes32, Crypto, to_hex, from_hex, int_16, to_bytes,
}

-- A member of a JSON object: missing; null or another value that is false; a text; any other.
pub data Member : Type 0 where
  missing falsy other : Member
  str : Text → Member

-- `op[key]` used as a text, `op.get(key, default)` and `op.get(key) or …`; an error is caught.
abbrev pub member : Member → Answer Text
member (str t) = done t
member _ = refused 409

abbrev pub member_or : Text → Member → Answer Text
member_or default missing = done default
member_or default m = member m

abbrev pub or_else : Member → Answer Text → Answer Text
or_else (str (c ∷ s)) d = done (c ∷ s)
or_else other d = refused 409
or_else _ d = d

-- The members of a user operation, by their names in JSON.
pub record UserOperation : Type 0 where
  pub sender : Member
  pub nonce : Member
  pub call_data : Member
  pub init_code : Member
  pub factory : Member
  pub factory_data : Member
  pub paymaster_and_data : Member
  pub paymaster : Member
  pub paymaster_data : Member
  pub paymaster_verification_gas_limit : Member
  pub paymaster_post_op_gas_limit : Member
  pub account_gas_limits : Member
  pub verification_gas_limit : Member
  pub call_gas_limit : Member
  pub pre_verification_gas : Member
  pub gas_fees : Member
  pub max_priority_fee_per_gas : Member
  pub max_fee_per_gas : Member
  pub signature : Member

-- `value` of an `except` that is caught.
abbrev pub caught {ℓ} : {A : Type ℓ} → Option A → Answer A
caught none = refused 409
caught (some a) = done a

-- A number that is packed into bytes: `to_bytes` raises what is caught if one is negative.
abbrev pub packable : Option ℤ → Answer ℕ
packable (some (pos n)) = done n
packable _ = refused 409

-- A number that `encode` is given, which raises what is not caught if it is negative.
abbrev pub encodable : Option ℤ → Answer ℕ
encodable none = refused 409
encodable (some (pos n)) = done n
encodable (some (negsuc n)) = raised value_error

abbrev pub init_of : UserOperation → Answer Text
init_of op = or_else op.init_code (do
  factory ← member_or (text "0x") op.factory
  rest ← member_or (text "0x") op.factory_data
  done (factory ++ drop 2 rest))

module _ (u : Unicode) where
  -- `packed_pair`
  unfoldable pub packed_pair : Member → Member → Answer (List ℕ)
  unfolding int_16 to_bytes
  packed_pair high low = do
    h ← member_or (text "0x0") high
    high_value ← packable (int_16 u h)
    l ← member_or (text "0x0") low
    low_value ← packable (int_16 u l)
    let packed = bit_or (high_value * 2 ^ 128) low_value
    demand (ltb packed (2 ^ 256)) 409
    done (to_bytes 32 packed)

  abbrev pub paymaster_of : UserOperation → Answer Text
  unfolding packed_pair to_hex
  paymaster_of op = or_else op.paymaster_and_data (do
    paymaster ← member_or (text "0x") op.paymaster
    limits ← packed_pair op.paymaster_verification_gas_limit op.paymaster_post_op_gas_limit
    rest ← member_or (text "0x") op.paymaster_data
    done (paymaster ++ (to_hex limits ++ drop 2 rest)))

  -- The bytes of a text that begins with "0x".
  abbrev pub bytes_of : Answer Text → Answer (List ℕ)
  unfolding from_hex
  bytes_of m = do s ← m; caught (from_hex (drop 2 s))

  abbrev pub packed_or : Member → Answer (List ℕ) → Answer (List ℕ)
  packed_or (str (c ∷ s)) d = bytes_of (done (c ∷ s))
  packed_or other d = refused 409
  packed_or _ d = d

  module _ (k : Crypto) where
    -- `operation_hash`
    unfoldable pub operation_hash : UserOperation → ℕ → Text → Answer Text
    unfolding packed_pair from_hex to_hex int_16
    operation_hash op chain_id entry_point = do
      init ← init_of op
      pm ← paymaster_of op
      sender ← member op.sender
      n ← member op.nonce
      nonce ← encodable (int_16 u n)
      init_bytes ← bytes_of (done init)
      call_bytes ← bytes_of (member op.call_data)
      limits ←
          packed_or op.account_gas_limits (packed_pair op.verification_gas_limit op.call_gas_limit)
      g ← member op.pre_verification_gas
      gas ← encodable (int_16 u g)
      fees ← packed_or op.gas_fees (packed_pair op.max_priority_fee_per_gas op.max_fee_per_gas)
      pm_bytes ← bytes_of (done pm)
      inner ← k.encode (
          address sender
          ∷ uint256 nonce
          ∷ bytes32 (k.keccak init_bytes)
          ∷ bytes32 (k.keccak call_bytes)
          ∷ bytes32 limits
          ∷ uint256 gas
          ∷ bytes32 fees
          ∷ bytes32 (k.keccak pm_bytes)
          ∷ [])
      outer ← k.encode (bytes32 (k.keccak inner) ∷ address entry_point ∷ uint256 chain_id ∷ [])
      done (text "0x" ++ to_hex (k.keccak outer))
