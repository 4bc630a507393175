-- ===== src/Bounties/Publish/Stakes.antt =====
-- What routes/maintainer.py promises besides points: the settings, who publishes, and the storing of
-- the terms.
use gitbounty.Base.{
  ℕ, Bool, true, false, Option, none, some, List, [], ◌∷◌, ◌==◌, is_some, if◌then◌else◌,
}
use gitbounty.Text.{Text}
use gitbounty.Points.Result.{value_error}
use gitbounty.Bounties.{set_reward_mode, insert_payment_terms, insert_escrow_terms}
use gitbounty.Bounties.Rows.{
  Answer, done, refused, raised, ◌>>=◌, Board, PaymentTerms, EscrowTerms, legacy_payment, escrow,
}
use gitbounty.Bounties.Selected.{Input}

pub record Settings : Type 0 where
  pub managed_wallets_enabled : Bool
  pub sponsored : Bool
  pub escrow_enabled : Bool
  pub escrow_contract_address : Text
  pub escrow_token_address : Text
  pub escrow_chain_id : ℕ
  pub payment_mode_is_usdc : Bool

-- Who publishes, with `_actor_id`, and what is asked of others on the way.
pub record Publisher : Type 0 where
  pub actor_id : ℕ
  pub github_id : ℕ
  pub github_login : Text
  -- `require_sponsorship` and `smart_account`
  pub sponsor : Answer Text
  -- `select address from wallets`
  pub wallet : Option Text
  -- "0x" and 32 random bytes, for a bounty
  pub reference_id : ℕ → Text
  pub derive_bounty_id : ℕ → Text → Text → Text → Text

-- What is promised besides points.
pub data Terms : Type 0 where
  no_terms : Terms
  new_payment : PaymentTerms → Terms
  new_escrow : EscrowTerms → Terms

abbrev first_of : Option Text → Option Text → Option Text
first_of (some a) b = some a
first_of none b = b

-- `item.reward_usdc if item.reward_usdc is not None else item.reward_avax`
abbrev pub cash_of : Input → Option Text
cash_of i = first_of i.reward_usdc i.reward_avax

abbrev pub chain_of : Input → ℕ
chain_of i = if is_some i.reward_usdc then 43113 else 43114

abbrev pub given : Option Text → Answer Text
given none = refused 409
given (some t) = done t

abbrev pub units : Option ℕ → Answer ℕ
units none = raised value_error
units (some n) = done n

abbrev pub find_terms : ℕ → List PaymentTerms → Option PaymentTerms
find_terms id [] = none
find_terms id (t ∷ ts) = if t.bounty_id == id then some t else find_terms id ts

abbrev pub is_empty : Text → Bool
is_empty [] = true
is_empty (c ∷ s) = false

abbrev pub fifteen_minutes : ℕ
fifteen_minutes = 900000000

-- The rest of a publication that promises something.
unfoldable pub store_terms : ℕ → Terms → Board → Answer Board
unfolding set_reward_mode insert_escrow_terms insert_payment_terms
store_terms bounty_id no_terms s = done s
store_terms bounty_id (new_escrow t) s = do
  s' ← set_reward_mode bounty_id escrow s
  insert_escrow_terms t s'
store_terms bounty_id (new_payment t) s = do
  s' ← set_reward_mode bounty_id legacy_payment s
  insert_payment_terms t s'
