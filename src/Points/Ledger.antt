-- ===== src/Points/Ledger.antt =====
-- `points_ledger`, append-only: insertion under its constraints, and of features/points/store.py
-- `record_adjustment`, `user_totals` and `user_points_since`.
use gitbounty.Base.{
  ℕ, suc, ◌+◌, Bool, true, false, not, Option, none, some, List, [], ◌∷◌, ◌++◌, ◌&&◌, ◌||◌, ◌==◌,
  leb, is_some, any, if◌then◌else◌, get_or_default,
}
use gitbounty.Base.Int.{ℤ, pos, ◌+ℤ◌, ltb_ℤ}
use gitbounty.Text.{Text, text, strip, Unicode}
use gitbounty.PullRequest.{Category}
use gitbounty.PullRequest.Lifecycle.{CategorySource}
use gitbounty.Points.{Kind, User, Award, Entry, MergedRow, Db, is_award, kind_eq, entries_clash}
use gitbounty.Points.Result.{
  Result, ok, err, check_violation, unique_violation, foreign_key_violation, value_error, ◌>>=◌,
}
use gitbounty.Points.Users.{github_id_of}

-- The check constraints of `points_ledger`; `trim` cuts spaces.
abbrev pub is_blank : Text → Bool
is_blank [] = true
is_blank (c ∷ s) = c == 32 && is_blank s

unfoldable pub entry_is_allowed : Entry → Bool
entry_is_allowed e =
    (not (is_award e.kind) || ltb_ℤ (pos 0) e.points && is_some e.github_pr_id)
    && (not (kind_eq e.kind Kind.bounty_award)
        || is_some e.bounty_repo_full_name
          && is_some e.bounty_issue_number
          && is_some e.bounty_points_at_award)
    && (is_award e.kind || not (is_blank e.reason))

-- `maintainer_user_id bigint references users (id)`; null refers to nothing.
abbrev pub is_null_or_user : List User → Option ℕ → Bool
is_null_or_user users none = true
is_null_or_user users (some user_id) = is_some (github_id_of users user_id)

module _ (lower : Text → Text) where
  -- `insert into points_ledger … returning id`. Foreign keys are looked at last.
  unfoldable pub insert_entry : Entry → Db → Result Db
  insert_entry e db =
      if not (entry_is_allowed e)
      then err check_violation
      else if any (entries_clash lower e) db.ledger
      then err unique_violation
      else if not (
          is_some (github_id_of db.users e.user_id)
          && is_null_or_user db.users e.maintainer_user_id)
      then err foreign_key_violation
      else ok (record db { ledger = db.ledger ++ e ∷ []; next_entry = suc db.next_entry })

-- The ledger row of an award: `jsonb_populate_record(null::points_ledger, …)`.
abbrev pub award_entry : Db → ℕ → Award → Entry
award_entry db user_id a = record {
  id = db.next_entry;
  user_id = user_id;
  kind = a.kind;
  points = pos a.points;
  category = a.category;
  category_source = a.category_source;
  rule_version = a.rule_version;
  reason = a.reason;
  github_pr_id = some a.github_pr_id;
  pr_repo_full_name = some a.pr_repo_full_name;
  pr_number = some a.pr_number;
  pr_author_login = some a.pr_author_login;
  merged_at = some a.merged_at;
  bounty_repo_full_name = a.bounty_repo_full_name;
  bounty_issue_number = a.bounty_issue_number;
  bounty_points_at_award = a.bounty_points_at_award;
  maintainer_user_id = a.maintainer_user_id;
  created_at = db.now;
}

-- `RULE_VERSION`
abbrev pub rule_version : Text
rule_version = text "points-v1"

abbrev pub is_empty : Text → Bool
is_empty [] = true
is_empty (c ∷ s) = false

-- The arguments of `record_adjustment`.
pub record Adjustment : Type 0 where
  pub user_id : ℕ
  pub points : ℤ
  pub reason : Text
  pub category : Category
  pub kind : Kind
  pub github_pr_id : Option ℕ
  pub bounty_repo_full_name : Option Text
  pub bounty_issue_number : Option ℕ

abbrev pub adjustment_entry : Unicode → Db → Adjustment → Entry
adjustment_entry u db x = record {
  id = db.next_entry;
  user_id = x.user_id;
  kind = x.kind;
  points = x.points;
  category = x.category;
  category_source = CategorySource.inferred;
  rule_version = rule_version;
  reason = strip u.is_space x.reason;
  github_pr_id = x.github_pr_id;
  pr_repo_full_name = none;
  pr_number = none;
  pr_author_login = none;
  merged_at = none;
  bounty_repo_full_name = x.bounty_repo_full_name;
  bounty_issue_number = x.bounty_issue_number;
  bounty_points_at_award = none;
  maintainer_user_id = none;
  created_at = db.now;
}

unfoldable pub record_adjustment : Unicode → (Text → Text) → Adjustment → Db → Result (Db × ℕ)
unfolding insert_entry
record_adjustment u lower x db =
    if is_empty (strip u.is_space x.reason)
    then err value_error
    else do db' ← insert_entry lower (adjustment_entry u db x) db; ok (db', db.next_entry)

-- `sum(points)` over the entries of a user that a test accepts.
unfoldable pub sum_points : (Entry → Bool) → List Entry → ℤ
sum_points p [] = pos 0
sum_points p (e ∷ es) = (if p e then e.points else pos 0) +ℤ sum_points p es

-- The `points` of `user_totals`.
unfoldable pub total_points : ℕ → List Entry → ℤ
unfolding sum_points
total_points user_id es = sum_points (λ e. e.user_id == user_id) es

-- The `merges` of `user_totals`.
unfoldable pub total_merges : ℕ → List MergedRow → ℕ
total_merges user_id [] = 0
total_merges user_id (r ∷ rs) = (if r.user_id == user_id then 1 else 0) + total_merges user_id rs

-- `user_points_since`, by `coalesce(merged_at, created_at)`.
unfoldable pub user_points_since : ℕ → ℕ → List Entry → ℤ
unfolding sum_points
user_points_since user_id since es =
    sum_points (λ e. e.user_id == user_id && leb since (get_or_default e.merged_at e.created_at)) es
