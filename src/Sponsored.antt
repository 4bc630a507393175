-- ===== src/Sponsored.antt =====
-- sponsored.py over the table of migrations/0019_sponsored_operations.sql: the operations of a wallet
-- whose gas is sponsored. The chain, the bundler, the signature of an operation and the checks of
-- routes/escrow.py are arguments. The unique index `sponsored_one_pending_per_wallet` is left out, so
-- that nothing rests on it.
pub mod Verify
pub mod Single
pub mod Reach
pub mod Again
use gitbounty.Base.{
  ℕ, suc, ◌+◌, ◌*◌, ◌-◌, Bool, true, false, not, Option, none, some, List, [], ◌∷◌, ◌++◌, ◌&&◌,
  ◌||◌, ◌==◌, any, map, length, drop, take, ltb, if◌then◌else◌,
}
use gitbounty.Text.{Text, text, text_eq, ascii_lower}
use gitbounty.Points.Result.{unique_violation}
use gitbounty.Bounties.Rows.{Answer, done, refused, raised, ◌>>=◌, EscrowTerms}

pub data Kind : Type 0 where
  fund settle refund : Kind

pub data Status : Type 0 where
  signed submitted confirmed failed verified : Status

abbrev pub kind_eq : Kind → Kind → Bool
kind_eq fund fund = true
kind_eq settle settle = true
kind_eq refund refund = true
kind_eq _ _ = false

-- `status in ('signed','submitted','confirmed')`
abbrev pub is_pending : Status → Bool
is_pending Status.failed = false
is_pending Status.verified = false
is_pending _ = true

-- A row of `sponsored_operations`; of the operation's JSON its nonce is kept.
pub record Operation : Type 0 where
  pub id : ℕ
  pub github_id : ℕ
  pub bounty_id : ℕ
  pub kind : Kind
  pub userop_hash : Text
  pub nonce : ℕ
  pub status : Status
  pub tx_hash : Option Text

pub record Table : Type 0 where
  pub rows : List Operation
  pub next : ℕ

-- What is asked of the chain; a bounty there has a state and the end of its claims.
pub record Chain : Type 0 where
  pub bounty_state : Text → Answer (ℕ × ℕ)
  pub balance : Answer ℕ
  pub latest_timestamp : Answer ℕ

-- Who submits: `require_sponsorship`, `smart_account`, the voucher of a settlement, and what
-- `signed_operation` signs.
pub record Session : Type 0 where
  pub github_id : ℕ
  pub sponsorship : Answer Text
  pub account : Answer Text
  pub voucher : Answer Text
  pub chain : Chain
  pub authorized : Answer (Text × ℕ)

abbrev pub is_pending_of : ℕ → Operation → Bool
is_pending_of github_id o = o.github_id == github_id && is_pending o.status

unfoldable pub find_pending : ℕ → List Operation → Option Operation
find_pending github_id [] = none
find_pending github_id (o ∷ os) =
    if is_pending_of github_id o then some o else find_pending github_id os

-- Who pays, for what is funded or refunded.
abbrev is_payer : Session → Text → EscrowTerms → Bool
is_payer c account t = t.payer_github_id == c.github_id && text_eq t.payer_address account

-- The guards of an action, in the order of the code.
unfoldable pub check_action : Session → Text → EscrowTerms → Kind → Answer ℕ
check_action c account t fund = if not (is_payer c account t) then refused 403 else do
  state ← c.chain.bounty_state t.onchain_bounty_id
  balance ← if not (state.0 == 0) then refused 409 else c.chain.balance
  if ltb balance t.amount_units then refused 409 else done 0
check_action c account t refund = if not (is_payer c account t) then refused 403 else do
  state ← c.chain.bounty_state t.onchain_bounty_id
  now ← c.chain.latest_timestamp
  if not (state.0 == 1) || ltb now state.1 then refused 409 else done 0
check_action c account t settle = done 0

abbrev pub new_operation : Table → ℕ → ℕ → Kind → Text × ℕ → Operation
new_operation s github_id bounty_id kind op = record {
  id = s.next;
  github_id = github_id;
  bounty_id = bounty_id;
  kind = kind;
  userop_hash = op.0;
  nonce = op.1;
  status = Status.signed;
  tx_hash = none;
}

-- `userop_hash text not null unique`
unfoldable pub insert_operation : Operation → Table → Answer (Table × Operation)
insert_operation o s =
    if any (λ r. text_eq r.userop_hash o.userop_hash) s.rows
    then raised unique_violation
    else done (record { rows = s.rows ++ o ∷ []; next = suc s.next }, o)

abbrev pub voucher_of : Session → Kind → Answer Text
voucher_of c settle = c.voucher
voucher_of c _ = done []

-- `submit` once the account is known: a pending operation is handed out again.
unfoldable pub submit_for :
    (ℕ → Option EscrowTerms) → Session → Text → ℕ → Kind → Table → Answer (Table × Operation)
unfolding find_pending check_action insert_operation
submit_for terms c account bounty_id kind s = elim (find_pending c.github_id s.rows) [
  | some o ↦
      if not (o.bounty_id == bounty_id) || not (kind_eq o.kind kind)
      then refused 409
      else done (s, o)
  | none ↦ elim (terms bounty_id) [
    | none ↦ refused 404
    | some t ↦ do
      checked ← check_action c account t kind
      op ← c.authorized
      insert_operation (new_operation s c.github_id bounty_id kind op) s
  ]
]

-- `submit`
unfoldable pub submit :
    (ℕ → Option EscrowTerms) → Session → ℕ → Kind → Table → Answer (Table × Operation)
unfolding submit_for
submit terms c bounty_id kind s = do
  sponsored ← c.sponsorship
  account ← c.account
  voucher ← voucher_of c kind
  submit_for terms c account bounty_id kind s

-- A log of a receipt; `data` is its bytes.
pub record Log : Type 0 where
  pub removed : Bool
  pub address : Text
  pub topics : List Text
  pub data_bytes : List ℕ

pub record Receipt : Type 0 where
  pub status : Text
  pub to_address : Text
  pub logs : List Log

abbrev pub lower : Text → Text
lower s = map ascii_lower s

-- `s[-40:]`, and `address[2:]`
abbrev pub last_forty : Text → Text
last_forty s = drop (length s - 40) s

abbrev pub big_endian : ℕ → List ℕ → ℕ
big_endian acc [] = acc
big_endian acc (b ∷ bs) = big_endian (acc * 256 + b) bs

abbrev is_entry_event : Text → Text → Log → Bool
is_entry_event entry_point event l =
    text_eq (lower l.address) entry_point
    && elim l.topics [ [] ↦ false | t ∷ ts ↦ text_eq (lower t) event ]

-- Whether a log of the EntryPoint is of an operation, and of which account and paymaster.
abbrev is_of : Text → List Text → Bool
is_of hash (t₀ ∷ t₁ ∷ t₂ ∷ t₃ ∷ []) = text_eq (lower t₁) hash
is_of hash _ = false

abbrev is_for : Text → Text → List Text → Bool
is_for account paymaster (t₀ ∷ t₁ ∷ t₂ ∷ t₃ ∷ []) =
    text_eq (last_forty (lower t₂)) (drop 2 account)
    && text_eq (last_forty (lower t₃)) (drop 2 paymaster)
is_for account paymaster _ = false

-- The flag of a matching event, after its checks.
unfoldable pub read_event : Text → Text → ℕ → Log → Answer Bool
read_event account paymaster nonce l =
    if not (is_for account paymaster l.topics)
      || not (length l.data_bytes == 128)
      || not (big_endian 0 (take 32 l.data_bytes) == nonce)
    then refused 409
    else if big_endian 0 (take 32 (drop 32 l.data_bytes)) == 0
    then done false
    else if big_endian 0 (take 32 (drop 32 l.data_bytes)) == 1
    then done true
    else refused 409

module _ (entry_point event : Text) where
  -- The loop over the logs; `segment` is what stands behind the last event of the EntryPoint.
  unfoldable pub scan_logs : Text → Text → Text → ℕ → List Log → List Log → Answer (Bool × List Log)
  unfolding read_event
  scan_logs hash account paymaster nonce segment [] = refused 409
  scan_logs hash account paymaster nonce segment (l ∷ ls) =
      let reset = scan_logs hash account paymaster nonce [] ls in
      let more = scan_logs hash account paymaster nonce (segment ++ l ∷ []) ls in
      if l.removed
      then refused 409
      else if not (is_entry_event entry_point event l)
      then more
      else if is_of hash l.topics
      then (do success ← read_event account paymaster nonce l; done (success, segment))
      else reset

  -- `operation_segment`
  unfoldable pub operation_segment : Receipt → Text → Text → Text → ℕ → Answer (Bool × List Log)
  unfolding scan_logs
  operation_segment r hash account paymaster nonce =
      if not (text_eq r.status (text "0x1")) || not (text_eq (lower r.to_address) entry_point)
      then refused 409
      else scan_logs hash account paymaster nonce [] r.logs
