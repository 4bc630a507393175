-- ===== src/Payments.antt =====
-- routes/payments.py: the tables of migrations/0015_avax_reward_promises.sql and 0016_fuji_usdc.sql,
-- and the guards that the routes share. The routes are in the children.
pub mod Encoding
pub mod Operation
pub mod Smoothsend
pub mod Evidence
pub mod Wallets
pub mod Account
pub mod Prepare
pub mod Confirm
pub mod Rows
pub mod Change
pub mod Kept
pub mod Final
pub mod Settled
pub mod Reach
use gitbounty.Base.{
  ℕ, ◌+◌, Bool, true, false, not, Option, none, some, List, [], ◌∷◌, ◌++◌, ◌&&◌, ◌==◌, any, map,
  if◌then◌else◌,
}
use gitbounty.Text.{Text, text_eq}
use gitbounty.Points.{Db, Allocation, Kind, kind_eq, lower_eq, sql_eq}
use gitbounty.Points.Users.{upsert_user}
use gitbounty.Points.Result.{Result, unique_violation}
use gitbounty.Bounties.Rows.{Answer, done, refused, raised, ◌>>=◌, Board, Bounty, PaymentTerms}

-- A row of `wallets`.
pub record Wallet : Type 0 where
  pub github_id : ℕ
  pub address : Text

-- A row of `wallet_challenges`.
pub record Challenge : Type 0 where
  pub github_id : ℕ
  pub message : Text
  pub expires_at : ℕ

-- A row of `avax_reward_claims`; `is_clear` is `review_status = 'clear'`.
pub record Claim : Type 0 where
  pub allocation_id : ℕ
  pub bounty_id : ℕ
  pub github_id : ℕ
  pub payer_github_id : ℕ
  pub amount_wei : ℕ
  pub is_clear : Bool
  pub claimed_at : Option ℕ

pub data PaymentStatus : Type 0 where
  awaiting_signature submitted paid failed : PaymentStatus

-- The smart account of a payer and who pays for its gas.
pub record Setup : Type 0 where
  pub smart_sender : Text
  pub entry_point : Text
  pub account_factory : Text
  pub paymaster_address : Text

-- A row of `avax_payments`; `is_smoothsend` is `provider = 'smoothsend'`.
pub record Payment : Type 0 where
  pub claim_id : ℕ
  pub chain_id : ℕ
  pub sender : Text
  pub recipient : Text
  pub nonce : ℕ
  pub status : PaymentStatus
  pub tx_hash : Option Text
  pub paid_at : Option ℕ
  pub is_smoothsend : Bool
  pub setup : Setup
  pub fee_limit : ℕ
  pub call_data : Text
  pub userop_hash : Option Text

-- A row of `smoothsend_payment_receipts`; its status is `paid` or `failed`.
pub record Verified : Type 0 where
  pub userop_hash : Text
  pub tx_hash : Text
  pub claim_id : ℕ
  pub chain_id : ℕ
  pub nonce : ℕ
  pub is_paid : Bool

pub record Store : Type 0 where
  pub points : Db
  pub board : Board
  pub wallets : List Wallet
  pub challenges : List Challenge
  pub claims : List Claim
  pub payments : List Payment
  pub receipts : List Verified

-- The members of `settings` that the routes read; texts that are not set are empty.
pub record Settings : Type 0 where
  pub managed_wallets_enabled : Bool
  pub sponsored_escrow : Bool
  pub escrow_enabled : Bool
  pub avax_payments_enabled : Bool
  pub smoothsend_public_key : Text
  pub smoothsend_secret_key : Text
  pub smoothsend_fee_limit_usdc : Text
  pub frontend_url : Text
  pub dev_login_stub_enabled : Bool
  pub is_test : Bool
  pub usdc_fuji : Bool

-- `CurrentUser`
pub record Visitor : Type 0 where
  pub id : ℕ
  pub github_id : ℕ
  pub github_login : Text
  pub avatar_url : Option Text

-- `if not …: raise HTTPException(code, …)`
abbrev pub demand : Bool → ℕ → Answer (Unit {0})
demand true code = done tt
demand false code = refused code

infixl 5 ◌>>◌
abbrev pub ◌>>◌ {ℓ} : {B : Type ℓ} → Answer (Unit {0}) → Answer B → Answer B
m >> k = m >>= λ _. k

-- A row that must be there.
abbrev pub found {ℓ} : {A : Type ℓ} → ℕ → Option A → Answer A
found code none = refused code
found code (some a) = done a

-- The error of a statement.
abbrev pub of_result {ℓ} : {A : Type ℓ} → Result A → Answer A
of_result (Result.ok a) = done a
of_result (Result.err e) = raised e

-- `active_asset()["chain_id"]`
abbrev pub active_chain : Settings → ℕ
active_chain c = if c.usdc_fuji then 43113 else 43114

-- `require_network`
unfoldable pub require_network : Settings → Option ℕ → Answer (Unit {0})
require_network c none = refused 409
require_network c (some chain_id) = demand (chain_id == active_chain c) 409

-- `_actor_id`
unfoldable pub actor_id : Visitor → Db → Db × ℕ
actor_id v db =
    if v.id == 0 then upsert_user v.github_id v.github_login v.avatar_url db else (db, v.id)

-- `select address from wallets where github_id = $1`
unfoldable pub wallet_of : ℕ → List Wallet → Option Text
wallet_of github_id [] = none
wallet_of github_id (w ∷ ws) =
    if w.github_id == github_id then some w.address else wallet_of github_id ws

-- `select chain_id from avax_reward_terms where bounty_id = $1`
unfoldable pub chain_of : ℕ → List PaymentTerms → Option ℕ
chain_of bounty_id [] = none
chain_of bounty_id (t ∷ ts) =
    if t.bounty_id == bounty_id then some t.chain_id else chain_of bounty_id ts

unfoldable pub find_payment : ℕ → List Payment → Option Payment
find_payment claim_id [] = none
find_payment claim_id (p ∷ ps) = if p.claim_id == claim_id then some p else find_payment claim_id ps

-- `status in ('awaiting_signature', 'submitted')`
abbrev pub is_unfinished : PaymentStatus → Bool
is_unfinished awaiting_signature = true
is_unfinished submitted = true
is_unfinished _ = false

abbrev pub is_paid_status : PaymentStatus → Bool
is_paid_status paid = true
is_paid_status _ = false

abbrev pub is_failed_status : PaymentStatus → Bool
is_failed_status failed = true
is_failed_status _ = false

-- `update avax_payments set … where claim_id = $1`
abbrev pub update_payment : ℕ → (Payment → Payment) → List Payment → List Payment
update_payment claim_id f ps = map (λ p. if p.claim_id == claim_id then f p else p) ps

abbrev has_hash : Text → Payment → Bool
has_hash hash p = elim p.userop_hash [ none ↦ false | some h ↦ text_eq h hash ]

-- `avax_payments_userop_hash_unique`: another payment has the hash.
abbrev pub hash_is_taken : ℕ → Text → List Payment → Bool
hash_is_taken claim_id hash ps = any (λ p. not (p.claim_id == claim_id) && has_hash hash p) ps

-- The terms of the bounty that an allocation is of, with the `join` of the trigger.
abbrev terms_of : ℕ → List PaymentTerms → Option PaymentTerms
terms_of bounty_id [] = none
terms_of bounty_id (t ∷ ts) = if t.bounty_id == bounty_id then some t else terms_of bounty_id ts

abbrev claim_on : Allocation → PaymentTerms → Claim
claim_on a t = record {
  allocation_id = a.id;
  bounty_id = t.bounty_id;
  github_id = a.github_id;
  payer_github_id = t.payer_github_id;
  amount_wei = t.amount_wei;
  is_clear = true;
  claimed_at = none;
}

abbrev is_bounty_of_award : (Text → Text) → Allocation → Bounty → Bool
is_bounty_of_award lower a b =
    lower_eq lower (some b.repo_full_name) a.bounty_repo_full_name
    && sql_eq (some b.issue_number) a.bounty_issue_number

abbrev pub claims_on : (Text → Text) → Allocation → List PaymentTerms → List Bounty → List Claim
claims_on lower a terms [] = []
claims_on lower a terms (b ∷ bs) =
    let rest = claims_on lower a terms bs in
    if is_bounty_of_award lower a b
    then elim (terms_of b.id terms) [ none ↦ rest | some t ↦ claim_on a t ∷ rest ]
    else rest

-- The trigger `reserve_avax_reward`, after an insert into `reward_allocations`. The key of the claims
-- is the id of the allocation.
unfoldable pub reserve_reward : (Text → Text) → Allocation → Store → Answer Store
reserve_reward lower a s =
    if not (kind_eq a.kind Kind.bounty_award)
    then done s
    else elim (claims_on lower a s.board.payment_terms s.board.bounties) [
      | [] ↦ done s
      | c ∷ [] ↦
          if any (λ d. d.allocation_id == c.allocation_id) s.claims
          then raised unique_violation
          else done (record s { claims = s.claims ++ c ∷ [] })
      | c ∷ d ∷ rest ↦ raised unique_violation
    ]
