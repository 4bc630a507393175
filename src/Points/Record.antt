-- ===== src/Points/Record.antt =====
-- `record_merges` and `_insert_award` of features/points/store.py.
use gitbounty.Base.{ℕ, ◌+◌, Bool, Option, none, some, List, [], ◌∷◌, ◌++◌, any, if◌then◌else◌}
use gitbounty.Text.{Text, text}
use gitbounty.Text.Decimal.{decimal}
use gitbounty.PullRequest.{PublishedBounty}
use gitbounty.PullRequest.Lifecycle.{CategorySource}
use gitbounty.Rules.{baseline_award}
use gitbounty.Detect.{DetectedMerge, category, category_source, eligible_points}
use gitbounty.Points.{Kind, User, Award, MergedRow, Db}
use gitbounty.Points.Result.{Result, ok, err, value_error, ◌>>=◌}
use gitbounty.Points.Users.{github_id_of}
use gitbounty.Points.Ledger.{rule_version}
use gitbounty.Points.Allocations.{same_pr, reserve}

pub record SaveOutcome : Type 0 where
  pub newly_counted : ℕ
  pub already_counted : ℕ
  pub awards_written : ℕ
  pub points_awarded : ℕ
  pub bounties_already_claimed : ℕ

abbrev pub no_outcome : SaveOutcome
no_outcome = record {
  newly_counted = 0;
  already_counted = 0;
  awards_written = 0;
  points_awarded = 0;
  bounties_already_claimed = 0;
}

abbrev pub baseline_of : DetectedMerge → Award
baseline_of m = record {
  kind = Kind.baseline_award;
  points = baseline_award;
  category = category m;
  category_source = category_source m;
  rule_version = rule_version;
  reason = text "Flat award for a merged pull request in a participating repository.";
  github_pr_id = m.pr.github_pr_id;
  pr_repo_full_name = m.pr.repo_full_name;
  pr_number = m.pr.number;
  pr_author_login = m.pr.author_login;
  merged_at = m.pr.merged_at;
  title = m.pr.title;
  url = m.pr.url;
  bounty_repo_full_name = none;
  bounty_issue_number = none;
  bounty_points_at_award = none;
  maintainer_user_id = none;
}

abbrev bounty_reason : PublishedBounty → Text
bounty_reason b =
    text "Merged pull request closed the bounty published on "
    ++ (b.repo_full_name ++ (b'#' ∷ (decimal b.issue_number ++ text ".")))

abbrev pub bounty_of : DetectedMerge → PublishedBounty → Award
bounty_of m b = record {
  kind = Kind.bounty_award;
  points = b.points;
  category = b.category;
  category_source = CategorySource.maintainer;
  rule_version = rule_version;
  reason = bounty_reason b;
  github_pr_id = m.pr.github_pr_id;
  pr_repo_full_name = m.pr.repo_full_name;
  pr_number = m.pr.number;
  pr_author_login = m.pr.author_login;
  merged_at = m.pr.merged_at;
  title = m.pr.title;
  url = m.pr.url;
  bounty_repo_full_name = some b.repo_full_name;
  bounty_issue_number = some b.issue_number;
  bounty_points_at_award = some b.points;
  maintainer_user_id = b.maintainer_user_id;
}

abbrev bounty_repo : Option PublishedBounty → Option Text
bounty_repo none = none
bounty_repo (some b) = some b.repo_full_name

abbrev bounty_number : Option PublishedBounty → Option ℕ
bounty_number none = none
bounty_number (some b) = some b.issue_number

abbrev bounty_value : Option PublishedBounty → Option ℕ
bounty_value none = none
bounty_value (some b) = some b.points

abbrev pub merged_row : ℕ → DetectedMerge → MergedRow
merged_row user_id m = record {
  user_id = user_id;
  github_pr_id = m.pr.github_pr_id;
  repo_full_name = m.pr.repo_full_name;
  number = m.pr.number;
  title = m.pr.title;
  url = m.pr.url;
  merged_at = m.pr.merged_at;
  category = category m;
  closed_issue_repo = bounty_repo m.bounty;
  closed_issue_number = bounty_number m.bounty;
  issue_points = bounty_value m.bounty;
  points = eligible_points m;
}

-- The insertion into `merged_prs`, and the count of it.
unfoldable pub store_merge : Option ℕ → DetectedMerge → Db × SaveOutcome → Db × SaveOutcome
store_merge none m (db, out) = (db, record out { already_counted = out.already_counted + 1 })
store_merge (some user_id) m (db, out) =
    if any (same_pr (merged_row user_id m)) db.merged_prs
    then (db, record out { already_counted = out.already_counted + 1 })
    else (
      record db { merged_prs = db.merged_prs ++ merged_row user_id m ∷ [] },
      record out { newly_counted = out.newly_counted + 1 },
    )

abbrev pub add_award : ℕ → SaveOutcome → SaveOutcome
add_award points out = record out {
  awards_written = out.awards_written + 1;
  points_awarded = out.points_awarded + points;
}

-- `if github_id is None: …`
abbrev pub identity : Option ℕ → Option ℕ → List User → Option ℕ
identity user_id (some github_id) users = some github_id
identity none none users = none
identity (some user_id) none users = github_id_of users user_id

module _ (lower : Text → Text) (user_id github_id : Option ℕ) where
  -- `_insert_award`
  unfoldable pub insert_award : Award → Db → Result (Db × Bool)
  unfolding reserve
  insert_award a db = elim (identity user_id github_id db.users) [
    | none ↦ err value_error
    | some g ↦ reserve lower g a user_id db
  ]

  unfoldable pub write_baseline : DetectedMerge → Db × SaveOutcome → Result (Db × SaveOutcome)
  unfolding insert_award
  write_baseline m (db, out) =
      if m.baseline_eligible
      then (do
        (db', written) ← insert_award (baseline_of m) db
        ok (db', if written then add_award baseline_award out else out))
      else ok (db, out)

  unfoldable pub write_bounty : DetectedMerge → Db × SaveOutcome → Result (Db × SaveOutcome)
  unfolding insert_award
  write_bounty m (db, out) = elim m.bounty [
    | none ↦ ok (db, out)
    | some b ↦ (do
      (db', written) ← insert_award (bounty_of m b) db
      ok (
        db',
        if written
            then add_award b.points out
            else record out { bounties_already_claimed = out.bounties_already_claimed + 1 },
      ))
  ]

  -- One round of the loop of `record_merges`.
  unfoldable pub record_merge : DetectedMerge → Db × SaveOutcome → Result (Db × SaveOutcome)
  unfolding store_merge write_baseline write_bounty
  record_merge m s = do s' ← write_baseline m (store_merge user_id m s); write_bounty m s'

  unfoldable pub record_loop : List DetectedMerge → Db × SaveOutcome → Result (Db × SaveOutcome)
  unfolding record_merge
  record_loop [] s = ok s
  record_loop (m ∷ ms) s = do s' ← record_merge m s; record_loop ms s'

  unfoldable pub record_merges : List DetectedMerge → Db → Result (Db × SaveOutcome)
  unfolding record_loop
  record_merges ms db = record_loop ms (db, no_outcome)
