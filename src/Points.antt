-- ===== src/Points.antt =====
-- The tables behind features/points/: `users`, `points_ledger`, `reward_allocations` and
-- `merged_prs`, with the constraints that migrations/ declares on them. A table is the list of its
-- rows in the order of insertion. A transaction that raises leaves nothing, so an operation returns
-- the new database or the error alone.
pub mod Result
pub mod Users
pub mod Ledger
pub mod Allocations
pub mod Record
pub mod Sound
pub mod Credit
pub mod Gain
pub mod Reserve
pub mod Progress
pub mod Merges
pub mod Repeat
pub mod Once
pub mod Reach
pub mod Claim
use gitbounty.Base.{ℕ, Bool, true, false, Option, some, List, ◌&&◌, ◌||◌, ◌==◌}
use gitbounty.Base.Int.{ℤ}
use gitbounty.Text.{Text, text_eq}
use gitbounty.PullRequest.{Category}
use gitbounty.PullRequest.Lifecycle.{CategorySource}

pub data Kind : Type 0 where
  bounty_award baseline_award adjustment void : Kind

abbrev pub is_award : Kind → Bool
is_award Kind.bounty_award = true
is_award Kind.baseline_award = true
is_award _ = false

pub record User : Type 0 where
  pub id : ℕ
  pub github_id : ℕ
  pub github_login : Text
  pub avatar_url : Option Text

-- The frozen fields of an award, `reward_allocations.award`.
pub record Award : Type 0 where
  pub kind : Kind
  pub points : ℕ
  pub category : Category
  pub category_source : CategorySource
  pub rule_version : Text
  pub reason : Text
  pub github_pr_id : ℕ
  pub pr_repo_full_name : Text
  pub pr_number : ℕ
  pub pr_author_login : Text
  pub merged_at : ℕ
  pub title : Text
  pub url : Text
  pub bounty_repo_full_name : Option Text
  pub bounty_issue_number : Option ℕ
  pub bounty_points_at_award : Option ℕ
  pub maintainer_user_id : Option ℕ

-- A row of `points_ledger`.
pub record Entry : Type 0 where
  pub id : ℕ
  pub user_id : ℕ
  pub kind : Kind
  pub points : ℤ
  pub category : Category
  pub category_source : CategorySource
  pub rule_version : Text
  pub reason : Text
  pub github_pr_id : Option ℕ
  pub pr_repo_full_name : Option Text
  pub pr_number : Option ℕ
  pub pr_author_login : Option Text
  pub merged_at : Option ℕ
  pub bounty_repo_full_name : Option Text
  pub bounty_issue_number : Option ℕ
  pub bounty_points_at_award : Option ℕ
  pub maintainer_user_id : Option ℕ
  pub created_at : ℕ

-- A row of `reward_allocations`.
pub record Allocation : Type 0 where
  pub id : ℕ
  pub github_id : ℕ
  pub github_pr_id : ℕ
  pub kind : Kind
  pub bounty_repo_full_name : Option Text
  pub bounty_issue_number : Option ℕ
  pub award : Award
  pub ledger_entry_id : Option ℕ

-- A row of `merged_prs`.
pub record MergedRow : Type 0 where
  pub user_id : ℕ
  pub github_pr_id : ℕ
  pub repo_full_name : Text
  pub number : ℕ
  pub title : Text
  pub url : Text
  pub merged_at : ℕ
  pub category : Category
  pub closed_issue_repo : Option Text
  pub closed_issue_number : Option ℕ
  pub issue_points : Option ℕ
  pub points : ℕ

-- `next_…` are the sequences that number the rows; `now` is `now()`.
pub record Db : Type 0 where
  pub users : List User
  pub next_user : ℕ
  pub ledger : List Entry
  pub next_entry : ℕ
  pub allocations : List Allocation
  pub next_allocation : ℕ
  pub merged_prs : List MergedRow
  pub now : ℕ

abbrev pub kind_eq : Kind → Kind → Bool
kind_eq Kind.bounty_award Kind.bounty_award = true
kind_eq Kind.baseline_award Kind.baseline_award = true
kind_eq Kind.adjustment Kind.adjustment = true
kind_eq Kind.void Kind.void = true
kind_eq _ _ = false

-- `a = b` in SQL: not true where a side is null.
abbrev pub sql_eq : Option ℕ → Option ℕ → Bool
sql_eq (some a) (some b) = a == b
sql_eq _ _ = false

-- `lower(a) = lower(b)`
abbrev pub lower_eq : (Text → Text) → Option Text → Option Text → Bool
lower_eq lower (some a) (some b) = text_eq (lower a) (lower b)
lower_eq lower _ _ = false

module _ (lower : Text → Text) where
  -- What the unique constraints of `reward_allocations` forbid of two rows: the primary key,
  -- `unique (github_id, github_pr_id, kind)` and `reward_allocations_bounty_once`.
  abbrev pub same_bounty : Allocation → Allocation → Bool
  same_bounty a b =
      kind_eq a.kind Kind.bounty_award
      && kind_eq b.kind Kind.bounty_award
      && lower_eq lower a.bounty_repo_full_name b.bounty_repo_full_name
      && sql_eq a.bounty_issue_number b.bounty_issue_number

  unfoldable pub awards_clash : Allocation → Allocation → Bool
  awards_clash a b =
      a.github_id == b.github_id && a.github_pr_id == b.github_pr_id && kind_eq a.kind b.kind
      || same_bounty a b

  unfoldable pub allocations_clash : Allocation → Allocation → Bool
  unfolding awards_clash
  allocations_clash a b = a.id == b.id || awards_clash a b

  -- What `points_ledger_baseline_once` and `points_ledger_bounty_once` forbid of two rows.
  unfoldable pub entries_clash : Entry → Entry → Bool
  entries_clash e f =
      kind_eq e.kind Kind.baseline_award
        && kind_eq f.kind Kind.baseline_award
        && e.user_id == f.user_id
        && sql_eq e.github_pr_id f.github_pr_id
      || kind_eq e.kind Kind.bounty_award
        && kind_eq f.kind Kind.bounty_award
        && lower_eq lower e.bounty_repo_full_name f.bounty_repo_full_name
        && sql_eq e.bounty_issue_number f.bounty_issue_number
