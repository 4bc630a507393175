-- ===== src/Payments/Evidence.antt =====
-- `verify_receipt` of smoothsend.py: what a receipt of the chain says of an operation. A log's topics
-- and its data are texts; a receipt of another shape is refused by the same code.
pub mod Exact
use gitbounty.Base.{
  ℕ, Bool, true, false, not, Option, none, some, List, [], ◌∷◌, ◌++◌, ◌&&◌, ◌||◌, ◌==◌, any, map,
  length, drop, take, if◌then◌else◌,
}
use gitbounty.Text.{Text, text, text_eq}
use gitbounty.Amounts.{asset, hex, pad_left}
use gitbounty.Bounties.Rows.{Answer, done, refused, ◌>>=◌}
use gitbounty.Sponsored.{last_forty, big_endian}
use gitbounty.Payments.{Payment}
use gitbounty.Payments.Encoding.{Crypto, to_hex, from_hex}

pub record Log : Type 0 where
  pub removed : Bool
  pub address : Text
  pub topics : List Text
  pub payload : Text

pub record Receipt : Type 0 where
  pub status : Text
  pub to_address : Text
  pub logs : List Log

abbrev pub texts_eq : List Text → List Text → Bool
texts_eq [] [] = true
texts_eq (s ∷ ss) (t ∷ ts) = text_eq s t && texts_eq ss ts
texts_eq _ _ = false

module _ (lower : Text → Text) where
  abbrev pub event_hash : List Text → Option Text
  event_hash (t₀ ∷ t₁ ∷ ts) = some (lower t₁)
  event_hash _ = none

  abbrev pub concerns : Payment → List Text → Bool
  concerns p (t₀ ∷ t₁ ∷ t₂ ∷ t₃ ∷ []) =
      text_eq (last_forty (lower t₂)) (drop 2 p.setup.smart_sender)
      && text_eq (last_forty (lower t₃)) (drop 2 p.setup.paymaster_address)
  concerns p _ = false

  -- The flag of the event, after its checks.
  unfoldable pub success_flag : Payment → Log → Option Bool
  unfolding from_hex
  success_flag p l = elim (from_hex (drop 2 l.payload)) [
    | none ↦ none
    | some bs ↦
        if not (concerns p l.topics)
          || not (length bs == 128)
          || not (big_endian 0 (take 32 bs) == p.nonce)
        then none
        else if big_endian 0 (take 32 (drop 32 bs)) == 0
        then some false
        else if big_endian 0 (take 32 (drop 32 bs)) == 1
        then some true
        else none
  ]

module _ (lower : Text → Text) (k : Crypto) where
  -- `USEROP_EVENT` and `TRANSFER_EVENT`
  abbrev pub userop_event : Text
  unfolding to_hex
  userop_event =
      text "0x"
      ++ to_hex (
          k.keccak
            (text "UserOperationEvent(bytes32,address,address,uint256,bool,uint256,uint256)"))

  abbrev pub transfer_event : Text
  unfolding to_hex
  transfer_event = text "0x" ++ to_hex (k.keccak (text "Transfer(address,address,uint256)"))

  -- A log of the EntryPoint about an operation, and the hash of the operation.
  abbrev pub is_event : Payment → Log → Bool
  is_event p l =
      text_eq (lower l.address) p.setup.entry_point
      && elim l.topics [ [] ↦ false | t ∷ ts ↦ text_eq (lower t) userop_event ]

  -- The log of the token that moves exactly the amount, from the smart account to the recipient.
  unfoldable pub is_transfer : Text → Payment → ℕ → Log → Bool
  unfolding hex
  is_transfer token p amount l =
      text_eq (lower l.address) token
      && texts_eq (map lower l.topics) (
          transfer_event
          ∷ (text "0x" ++ pad_left 64 (drop 2 p.setup.smart_sender))
          ∷ (text "0x" ++ pad_left 64 (drop 2 p.recipient))
          ∷ [])
      && text_eq (lower l.payload) (text "0x" ++ pad_left 64 (hex amount))

  abbrev pub has_moved : Option Text → Payment → ℕ → List Log → Bool
  unfolding is_transfer
  has_moved none p amount segment = true
  has_moved (some token) p amount segment = any (is_transfer token p amount) segment

  -- Of the event of the operation, behind the logs of its segment: true is "paid", false "failed".
  unfoldable pub verdict : Payment → ℕ → List Log → Log → Answer Bool
  unfolding success_flag has_moved asset
  verdict p amount segment l = elim (success_flag lower p l) [
    | none ↦ refused 409
    | some success ↦ elim (asset p.chain_id) [
      | none ↦ refused 409
      | some a ↦
          if success && not (has_moved a.token_address p amount segment)
          then refused 409
          else done success
    ]
  ]

  -- The loop over the logs; `segment` is what stands behind the last event of the EntryPoint.
  unfoldable pub scan_receipt : Payment → ℕ → Text → List Log → List Log → Answer Bool
  unfolding verdict
  scan_receipt p amount hash segment [] = refused 409
  scan_receipt p amount hash segment (l ∷ ls) =
      let reset = scan_receipt p amount hash [] ls in
      let more = scan_receipt p amount hash (segment ++ l ∷ []) ls in
      if l.removed
      then refused 409
      else if not (is_event p l)
      then more
      else elim (event_hash lower l.topics) [
        | none ↦ refused 409
        | some h ↦ if text_eq h hash then verdict p amount segment l else reset
      ]

  unfoldable pub verify_receipt : Receipt → Payment → ℕ → Text → Answer Bool
  unfolding scan_receipt
  verify_receipt r p amount hash =
      if not (text_eq r.status (text "0x1"))
        || not (text_eq (lower r.to_address) p.setup.entry_point)
      then refused 409
      else scan_receipt p amount hash [] r.logs
