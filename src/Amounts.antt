-- ===== src/Amounts.antt =====
-- avax.py: amounts of a token as decimal texts and as whole units.
pub mod RoundTrip
pub mod Stripped
pub mod Matched
use mathlib.Core.List.{reverse}
use gitbounty.Base.{
  ℕ, zero, suc, ◌+◌, ◌*◌, ◌-◌, ◌/◌, ◌%◌, ◌^◌, Bool, true, false, Option, none, some, [], ◌∷◌, ◌++◌,
  ◌&&◌, ◌==◌, leb, length, not, drop, if◌then◌else◌,
}
use gitbounty.Text.{Text, text, before_first, strip_left, starts_with, Unicode}
use gitbounty.Text.Decimal.{decimal, value_of}
use gitbounty.Regex.{Regex, one, empty, alt, ◌·◌, optional, char, full_match}

pub record Asset : Type 0 where
  pub chain_id : ℕ
  pub symbol : Text
  pub decimals : ℕ
  pub token_address : Option Text
  pub network : Text
  pub testnet : Bool
  pub explorer : Text
  pub rpc_url : Text

-- `FUJI_USDC`
abbrev pub fuji_usdc : Text
fuji_usdc = text "0x5425890298aed601595a70ab815c96711a31bc65"

-- `none` is the `ValueError`.
unfoldable pub asset : ℕ → Option Asset
asset chain_id =
    if chain_id == 43113
    then some (record {
      chain_id = 43113;
      symbol = text "USDC";
      decimals = 6;
      token_address = some fuji_usdc;
      network = text "Avalanche Fuji";
      testnet = true;
      explorer = text "https://testnet.snowtrace.io";
      rpc_url = text "https://api.avax-test.network/ext/bc/C/rpc";
    })
    else if not (chain_id == 43114)
    then none
    else some (record {
      chain_id = 43114;
      symbol = text "AVAX";
      decimals = 18;
      token_address = none;
      network = text "Avalanche mainnet";
      testnet = false;
      explorer = text "https://snowtrace.io";
      rpc_url = text "https://api.avax.network/ext/bc/C/rpc";
    })

-- `[0-9]`, and `r{0,n}`
abbrev pub digit : Regex
digit = one (λ c. leb b'0' c && leb c b'9')

unfoldable pub up_to : ℕ → Regex → Regex
up_to zero r = empty
up_to (suc n) r = optional (r · up_to n r)

-- The pattern of an amount with at most so many decimal places, at least one.
abbrev pub amount_pattern : ℕ → Regex
unfolding up_to
amount_pattern decimals =
    alt (char b'0') (one (λ c. leb b'1' c && leb c b'9') · up_to 59 digit)
    · optional (char b'.' · digit · up_to (decimals - 1) digit)

-- What stands behind the first `c`, or nothing.
unfoldable pub after_first : ℕ → Text → Text
after_first c [] = []
after_first c (a ∷ s) = let rest = after_first c s in if a == c then s else rest

unfoldable pub zeros : ℕ → Text
zeros zero = []
zeros (suc n) = b'0' ∷ zeros n

-- `s.ljust(n, "0")`, and the width of `:0{n}d`
abbrev pub pad_right : ℕ → Text → Text
pad_right n s = s ++ zeros (n - length s)

abbrev pub pad_left : ℕ → Text → Text
pad_left n s = zeros (n - length s) ++ s

abbrev pub units_of : ℕ → Text → ℕ
unfolding after_first
units_of decimals value =
    value_of 0 (before_first b'.' value) * 10 ^ decimals
    + value_of 0 (pad_right decimals (after_first b'.' value))

-- `none` is either `ValueError`.
unfoldable pub amount_to_units : Unicode → Text → ℕ → Option ℕ
unfolding amount_pattern units_of full_match
amount_to_units u value decimals =
    if not (full_match u.is_word (amount_pattern decimals) value)
    then none
    else if units_of decimals value == 0
    then none
    else some (units_of decimals value)

-- `s.rstrip(c)`
abbrev pub rstrip : ℕ → Text → Text
rstrip c s = reverse (strip_left (λ a. a == c) (reverse s))

unfoldable pub units_to_amount : ℕ → ℕ → Text
units_to_amount value decimals = rstrip b'.' (
    rstrip b'0' (
      decimal (value / 10 ^ decimals)
      ++ (b'.' ∷ pad_left decimals (decimal (value % 10 ^ decimals)))))

-- `avax_to_wei` and `wei_to_avax`
abbrev pub avax_to_wei : Unicode → Text → Option ℕ
avax_to_wei u value = amount_to_units u value 18

abbrev pub wei_to_avax : ℕ → Text
wei_to_avax value = units_to_amount value 18

pub record RewardFields : Type 0 where
  pub reward_avax : Option Text
  pub reward_usdc : Option Text
  pub reward_chain_id : Option ℕ

abbrev shown_on : ℕ → ℕ → Text → Option Text
shown_on chain_id on amount = if chain_id == on then some amount else none

-- `reward_fields`; `none` is the `ValueError` of `asset`.
unfoldable pub reward_fields : Option ℕ → ℕ → Option RewardFields
unfolding asset units_to_amount
reward_fields none chain_id =
    some (record { reward_avax = none; reward_usdc = none; reward_chain_id = none })
reward_fields (some amount) chain_id = elim (asset chain_id) [
  | none ↦ none
  | some a ↦
      let printed = units_to_amount amount a.decimals in
      some (record {
        reward_avax = shown_on chain_id 43114 printed;
        reward_usdc = shown_on chain_id 43113 printed;
        reward_chain_id = some chain_id;
      })
]

abbrev hex_digit : ℕ → ℕ
hex_digit d = if leb d 9 then b'0' + d else b'a' + (d - 10)

-- The hexadecimal digits of `n` in front of `acc`; the fuel is more than the number of digits.
hex_of : ℕ → ℕ → Text → Text
hex_of zero n acc = acc
hex_of (suc fuel) n acc =
    let rest = hex_of fuel (n / 16) (hex_digit (n % 16) ∷ acc) in
    if n / 16 == 0 then hex_digit (n % 16) ∷ acc else rest

-- `f"{n:x}"`
unfoldable pub hex : ℕ → Text
unfolding hex_of
hex n = hex_of (suc n) n []

-- `s.removeprefix(p)`
abbrev remove_prefix : Text → Text → Text
remove_prefix s p = if starts_with s p then drop (length p) s else s

unfoldable pub transfer_data : Text → ℕ → Text
unfolding hex
transfer_data recipient amount =
    text "0xa9059cbb"
    ++ pad_left 64 (remove_prefix recipient (text "0x"))
    ++ pad_left 64 (hex amount)
