-- ===== src/Bounties/Rows.antt =====
-- The rows of the tables that a publication writes: migrations/0002_repositories.sql, 0003_issues.sql,
-- 0004_published_bounties.sql, 0007_bounty_lifecycle.sql, 0015_avax_reward_promises.sql and
-- 0017_escrow_rewards.sql.
use gitbounty.Base.{ℕ, Bool, Option, List}
use gitbounty.Text.{Text}
use gitbounty.PullRequest.{Category}
use gitbounty.PullRequest.Lifecycle.{CategorySource}
use gitbounty.Points.Result.{Error}

pub data BountyStatus : Type 0 where
  published unpublished archived : BountyStatus

pub data RewardMode : Type 0 where
  points_only legacy_payment escrow : RewardMode

pub data Action : Type 0 where
  published repriced recategorised unpublished republished archived : Action

-- An `HTTPException` by its status code, or an error of a statement.
pub data Answer {ℓ} (A : Type ℓ) : Type ℓ where
  done : A → Answer A
  refused : ℕ → Answer A
  raised : Error → Answer A

infixl 5 ◌>>=◌
abbrev pub ◌>>=◌ {ℓ κ} : {A : Type ℓ} {B : Type κ} → Answer A → (A → Answer B) → Answer B
done a >>= f = f a
refused code >>= f = refused code
raised e >>= f = raised e

-- A row of `issue_points`.
pub record Bounty : Type 0 where
  pub id : ℕ
  pub repo_full_name : Text
  pub issue_number : ℕ
  pub points : ℕ
  pub set_by_user_id : ℕ
  pub status : BountyStatus
  pub reward_mode : RewardMode
  pub created_at : ℕ
  pub updated_at : ℕ

-- A row of `issue_points_history`.
pub record Change : Type 0 where
  pub repo_full_name : Text
  pub issue_number : ℕ
  pub action : Action
  pub points_before : Option ℕ
  pub points_after : ℕ
  pub status_before : Option BountyStatus
  pub status_after : BountyStatus
  pub category_before : Option Category
  pub category_after : Category
  pub actor_user_id : ℕ
  pub actor_login : Text
  pub reason : Text
  pub created_at : ℕ

-- A row of `avax_reward_terms`.
pub record PaymentTerms : Type 0 where
  pub bounty_id : ℕ
  pub payer_github_id : ℕ
  pub amount_wei : ℕ
  pub chain_id : ℕ

-- A row of `escrow_reward_terms`.
pub record EscrowTerms : Type 0 where
  pub bounty_id : ℕ
  pub chain_id : ℕ
  pub contract_address : Text
  pub token_address : Text
  pub reference_id : Text
  pub onchain_bounty_id : Text
  pub repository_github_id : ℕ
  pub issue_github_id : ℕ
  pub payer_github_id : ℕ
  pub payer_address : Text
  pub amount_units : ℕ
  pub work_ends_at : ℕ
  pub claim_until : ℕ

-- A row of `repositories`.
pub record Repository : Type 0 where
  pub id : ℕ
  pub github_id : ℕ
  pub full_name : Text
  pub owner_login : Text
  pub owner_type : Option Text
  pub primary_language : Option Text
  pub description : Option Text
  pub stargazers_count : ℕ
  pub repo_created_at : Option ℕ
  pub fetched_at : ℕ

-- A row of `issues`.
pub record Issue : Type 0 where
  pub github_id : ℕ
  pub repository_id : ℕ
  pub number : ℕ
  pub title : Text
  pub html_url : Text
  pub is_open : Bool
  pub category : Category
  pub category_source : CategorySource
  pub language : Option Text
  pub labels : List Text
  pub comments_count : ℕ
  pub issue_created_at : Option ℕ
  pub issue_updated_at : Option ℕ
  pub fetched_at : ℕ

pub record Board : Type 0 where
  pub bounties : List Bounty
  pub next_bounty : ℕ
  pub history : List Change
  pub payment_terms : List PaymentTerms
  pub escrow_terms : List EscrowTerms
  pub repositories : List Repository
  pub next_repository : ℕ
  pub issues : List Issue
  pub now : ℕ
