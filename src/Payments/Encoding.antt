-- ===== src/Payments/Encoding.antt =====
-- What smoothsend.py reads and writes numbers and bytes with: `bytes.hex`, `bytes.fromhex`,
-- `int(s, 16)` and `to_bytes`, and the values that eth_abi encodes. `keccak` of eth_utils and `encode`
-- of eth_abi are arguments.

use gitbounty.Base.{
  ℕ, zero, suc, ◌+◌, ◌*◌, ◌/◌, ◌%◌, ◌-◌, Bool, true, false, Option, none, some, List, [], ◌∷◌, ◌++◌,
  ◌&&◌, ◌||◌, ◌==◌, leb, if◌then◌else◌,
}
use gitbounty.Base.Int.{ℤ, pos, negsuc}
use gitbounty.Text.{Text, strip, Unicode}
use gitbounty.Bounties.Rows.{Answer}

-- A value of the types that the calls are encoded with.
pub data Abi : Type 0 where
  address : Text → Abi
  uint256 : ℕ → Abi
  bytes32 bytes : List ℕ → Abi
  addresses : List Text → Abi
  uint256s : List ℕ → Abi
  bytes_list : List (List ℕ) → Abi

-- `encode` answers with its bytes, or raises.
pub record Crypto : Type 0 where
  pub keccak : List ℕ → List ℕ
  pub encode : List Abi → Answer (List ℕ)

-- `b.hex()`
abbrev pub nibble : ℕ → ℕ
nibble d = if leb d 9 then b'0' + d else b'a' + (d - 10)

unfoldable pub to_hex : List ℕ → Text
to_hex [] = []
to_hex (b ∷ bs) = nibble (b / 16) ∷ nibble (b % 16) ∷ to_hex bs

abbrev pub hex_value : ℕ → Option ℕ
hex_value c =
    if leb b'0' c && leb c b'9'
    then some (c - b'0')
    else if leb b'a' c && leb c b'f'
    then some (c - b'a' + 10)
    else if leb b'A' c && leb c b'F'
    then some (c - b'A' + 10)
    else none

-- `bytes.fromhex`: white space may stand before each pair of digits.
abbrev pub is_blank : ℕ → Bool
is_blank c = c == 32 || leb 9 c && leb c 13

abbrev pub pair_of : Option ℕ → Option ℕ → Option (List ℕ) → Option (List ℕ)
pair_of (some h) (some l) (some bs) = some ((h * 16 + l) ∷ bs)
pair_of _ _ _ = none

-- `high` is the first digit of a pair, once it is read.
bytes_from : Option ℕ → Text → Option (List ℕ)
bytes_from none [] = some []
bytes_from (some h) [] = none
bytes_from none (c ∷ s) =
    let skipped = bytes_from none s in
    let begun = bytes_from (hex_value c) s in
    if is_blank c then skipped else elim (hex_value c) [ none ↦ none | some h ↦ begun ]
bytes_from (some h) (c ∷ s) = pair_of (some h) (hex_value c) (bytes_from none s)

unfoldable pub from_hex : Text → Option (List ℕ)
unfolding bytes_from
from_hex s = bytes_from none s

-- `int(s, 16)`, of the digits behind a prefix; `after` is true behind a digit.
abbrev pub digit_value : Unicode → ℕ → Option ℕ
digit_value u c = elim (u.digit c) [ some d ↦ some d | none ↦ hex_value c ]

unfoldable pub hex_number : Unicode → Bool → ℕ → Text → Option ℕ
hex_number u after acc [] = if after then some acc else none
hex_number u after acc (c ∷ s) =
    let gap = hex_number u false acc s in
    if c == b'_'
    then (if after then gap else none)
    else elim (digit_value u c) [ none ↦ none | some d ↦ hex_number u true (acc * 16 + d) s ]

abbrev pub without_underscore : Text → Text
without_underscore [] = []
without_underscore (c ∷ s) = if c == b'_' then s else c ∷ s

abbrev pub unsigned_number : Unicode → Text → Option ℕ
unfolding hex_number
unsigned_number u (z ∷ x ∷ s) =
    if z == b'0' && (x == b'x' || x == b'X')
    then hex_number u false 0 (without_underscore s)
    else hex_number u false 0 (z ∷ x ∷ s)
unsigned_number u s = hex_number u false 0 s

abbrev pub with_sign : (ℕ → ℤ) → Option ℕ → Option ℤ
with_sign f none = none
with_sign f (some n) = some (f n)

abbrev pub minus : ℕ → ℤ
minus zero = pos 0
minus (suc n) = negsuc n

abbrev pub signed_number : Unicode → Text → Option ℤ
signed_number u [] = none
signed_number u (c ∷ s) =
    if c == b'-'
    then with_sign minus (unsigned_number u s)
    else if c == b'+'
    then with_sign pos (unsigned_number u s)
    else with_sign pos (unsigned_number u (c ∷ s))

unfoldable pub int_16 : Unicode → Text → Option ℤ
unfolding hex_number
int_16 u s = signed_number u (strip u.is_space s)

-- `n.to_bytes(k, "big")`
unfoldable pub to_bytes : ℕ → ℕ → List ℕ
to_bytes zero n = []
to_bytes (suc k) n = to_bytes k (n / 256) ++ (n % 256) ∷ []
