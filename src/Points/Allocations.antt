-- ===== src/Points/Allocations.antt =====
-- features/points/allocations.py: awards are reserved for a GitHub identity, and credited to the
-- account of that identity.
use gitbounty.Base.{
  ℕ, suc, ◌+◌, Bool, true, false, not, Option, none, some, List, [], ◌∷◌, ◌++◌, ◌&&◌, ◌||◌, ◌==◌,
  is_some, any, map, if◌then◌else◌,
}
use gitbounty.Text.{Text}
use gitbounty.Points.{
  Kind, Award, Allocation, MergedRow, Db, is_award, kind_eq, sql_eq, allocations_clash,
}
use gitbounty.Points.Result.{Result, ok, err, check_violation, ◌>>=◌}
use gitbounty.Points.Ledger.{insert_entry, award_entry}
use gitbounty.Points.Users.{github_id_of, user_id_of}

abbrev pub award_merged_row : ℕ → Award → MergedRow
award_merged_row user_id a = record {
  user_id = user_id;
  github_pr_id = a.github_pr_id;
  repo_full_name = a.pr_repo_full_name;
  number = a.pr_number;
  title = a.title;
  url = a.url;
  merged_at = a.merged_at;
  category = a.category;
  closed_issue_repo = a.bounty_repo_full_name;
  closed_issue_number = a.bounty_issue_number;
  issue_points = a.bounty_points_at_award;
  points = a.points;
}

-- `on conflict (user_id, github_pr_id) do nothing`
abbrev pub same_pr : MergedRow → MergedRow → Bool
same_pr r s = r.user_id == s.user_id && r.github_pr_id == s.github_pr_id

abbrev pub insert_merged_row : MergedRow → List MergedRow → List MergedRow
insert_merged_row r rows = if any (same_pr r) rows then rows else rows ++ r ∷ []

-- The row that `credit` locks: not yet credited, and of the GitHub identity of the user.
abbrev pub is_pending : Allocation → Bool
is_pending a = not (is_some a.ledger_entry_id)

unfoldable pub pending_row : ℕ → Option ℕ → List Allocation → Option Allocation
pending_row allocation_id identity [] = none
pending_row allocation_id identity (a ∷ rows) =
    if a.id == allocation_id && is_pending a && sql_eq (some a.github_id) identity
    then some a
    else pending_row allocation_id identity rows

-- `update reward_allocations set ledger_entry_id = $2 where id = $1`
abbrev pub relink : ℕ → ℕ → Allocation → Allocation
relink allocation_id entry_id a =
    if a.id == allocation_id then record a { ledger_entry_id = some entry_id } else a

abbrev pub link : ℕ → ℕ → List Allocation → List Allocation
link allocation_id entry_id rows = map (relink allocation_id entry_id) rows

module _ (lower : Text → Text) where
  unfoldable pub credit_row : ℕ → Allocation → Db → Result (Db × ℕ)
  unfolding insert_entry
  credit_row user_id a db = do
    db' ← insert_entry lower (award_entry db user_id a.award) db
    ok (
      record db' {
        allocations = link a.id db.next_entry db'.allocations;
        merged_prs = insert_merged_row (award_merged_row user_id a.award) db'.merged_prs;
      },
      a.award.points,
    )

  -- `credit`: zero if there is no such row.
  unfoldable pub credit : ℕ → ℕ → Db → Result (Db × ℕ)
  unfolding credit_row
  credit allocation_id user_id db =
      elim (pending_row allocation_id (github_id_of db.users user_id) db.allocations) [
        | none ↦ ok (db, 0)
        | some a ↦ credit_row user_id a db
      ]

  abbrev pub new_allocation : Db → ℕ → Award → Allocation
  new_allocation db github_id a = record {
    id = db.next_allocation;
    github_id = github_id;
    github_pr_id = a.github_pr_id;
    kind = a.kind;
    bounty_repo_full_name = a.bounty_repo_full_name;
    bounty_issue_number = a.bounty_issue_number;
    award = a;
    ledger_entry_id = none;
  }

  -- The check constraints of `reward_allocations`.
  unfoldable pub allocation_is_allowed : Award → Bool
  allocation_is_allowed a =
      is_award a.kind
      && (not (kind_eq a.kind Kind.bounty_award)
          || is_some a.bounty_repo_full_name && is_some a.bounty_issue_number)

  abbrev pub with_allocation : Allocation → Db → Db
  with_allocation a db = record db {
    allocations = db.allocations ++ a ∷ [];
    next_allocation = suc db.next_allocation;
  }

  -- The credit of `reserve`, if there is an account.
  unfoldable pub credit_reserved : ℕ → Option ℕ → Db → Result (Db × Bool)
  unfolding credit
  credit_reserved allocation_id none db = ok (db, true)
  credit_reserved allocation_id (some user_id) db = do
    credited ← credit allocation_id user_id db
    ok (credited.0, true)

  -- `reserve`: false, and nothing written, if the database holds the award. (The numbers that a
  -- sequence skips on a conflict are not modelled.)
  unfoldable pub reserve : ℕ → Award → Option ℕ → Db → Result (Db × Bool)
  unfolding credit_reserved
  reserve github_id a user_id db =
      if not (allocation_is_allowed a)
      then err check_violation
      else if any (allocations_clash lower (new_allocation db github_id a)) db.allocations
      then ok (db, false)
      else credit_reserved db.next_allocation user_id
          (with_allocation (new_allocation db github_id a) db)

-- `where github_id = $1 and ledger_entry_id is null order by id`; the rows stand in that order.
unfoldable pub pending_ids : ℕ → List Allocation → List ℕ
pending_ids github_id [] = []
pending_ids github_id (a ∷ rows) =
    let rest = pending_ids github_id rows in
    if a.github_id == github_id && is_pending a then a.id ∷ rest else rest

-- The `points` of `pending_claims`.
unfoldable pub pending_points : ℕ → List Allocation → ℕ
pending_points github_id [] = 0
pending_points github_id (a ∷ rows) =
    (if a.github_id == github_id && is_pending a then a.award.points else 0)
    + pending_points github_id rows

module _ (lower : Text → Text) where
  unfoldable pub credit_all : List ℕ → ℕ → ℕ → Db → Result (Db × ℕ)
  unfolding credit
  credit_all [] user_id points db = ok (db, points)
  credit_all (i ∷ is) user_id points db = do
    credited ← credit lower i user_id db
    credit_all is user_id (points + credited.1) credited.0

  -- `claim_points`; an identity with no account has nothing credited.
  unfoldable pub claim_points : ℕ → Db → Result (Db × ℕ)
  unfolding credit_all
  claim_points github_id db = elim (user_id_of db.users github_id) [
    | none ↦ ok (db, 0)
    | some user_id ↦ credit_all (pending_ids github_id db.allocations) user_id 0 db
  ]
