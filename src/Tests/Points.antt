-- ===== src/Tests/Points.antt =====
-- Awards: two merges of one contributor, the second for a published bounty.
use gitbounty.Base.{
  ℕ, ◌<◌, ◌≤◌, ◌≡◌, subst, refl, true, Option, none, some, List, [], ◌∷◌, map, arith, All,
}
use gitbounty.Text.{Text, text, ascii_lower, ascii}
use gitbounty.Text.Decimal.{decimal}
use gitbounty.PullRequest.{MergedPr, PublishedBounty, backend, docs}
use gitbounty.Detect.{DetectedMerge}
use gitbounty.Points.{Db, Award, awards_clash, allocations_clash, entries_clash}
use gitbounty.Points.Result.{Result, ok, err}
use gitbounty.Points.Users.{github_id_of, user_id_of, upsert_user}
use gitbounty.Points.Ledger.{entry_is_allowed, is_null_or_user}
use gitbounty.Points.Allocations.{
  new_allocation, pending_row, allocation_is_allowed, pending_points, claim_points,
}
use gitbounty.Points.Claim.{Claimed, claim_points_lem}
use gitbounty.Points.Sound.{IsSound}
use gitbounty.Points.Gain.{Gain}
use gitbounty.Points.Reserve.{Reserves, reserve_lem}
use gitbounty.Points.Record.{SaveOutcome, no_outcome, record_merges, baseline_of, bounty_of}
use gitbounty.Points.Progress.{IsPayable, IsFor}
use gitbounty.Points.Merges.{record_merges_lem}
use gitbounty.Points.Once.{awards_of}
use gitbounty.Points.Reach.{empty_tables, Reach, start, next, signs_in, records, Reach-once}
use gitbounty.Points.Repeat.{SameAwards, record_merges_twice}

abbrev lower : Text → Text
lower s = map ascii_lower s

abbrev empty_db : Db
empty_db = record {
  users =
      record { id = 7; github_id = 42; github_login = text "mona"; avatar_url = none }
      ∷ record { id = 2; github_id = 41; github_login = text "lead"; avatar_url = none }
      ∷ [];
  next_user = 8;
  ledger = [];
  next_entry = 1;
  allocations = [];
  next_allocation = 1;
  merged_prs = [];
  now = 1000;
}

abbrev pr : ℕ → MergedPr
pr n = record {
  github_pr_id = n;
  repo_full_name = text "acme/site";
  number = n;
  title = text "Fix";
  url = text "https://github.com/acme/site/pull/1";
  merged_at = 900;
  author_login = text "mona";
  labels = [];
  body = text "Fixes #3";
  author_user_id = some 7;
}

abbrev bounty : PublishedBounty
bounty = record {
  repo_full_name = text "acme/site";
  issue_number = 3;
  points = 40;
  category = backend;
  maintainer_user_id = some 2;
}

abbrev merges : List DetectedMerge
merges =
    record {
      pr = pr 11;
      inferred_category = docs;
      closed_issues = [];
      bounty = none;
      baseline_eligible = true;
    }
    ∷ record {
      pr = pr 12;
      inferred_category = docs;
      closed_issues = [];
      bounty = some bounty;
      baseline_eligible = true;
    }
    ∷ []

merges-IsPayable : All (IsPayable empty_db.users) merges
unfolding github_id_of decimal
merges-IsPayable = ((λ b e. cc), ((λ b e. payable b e), tt))
  where
    same : (a b : PublishedBounty) → some a ≡ some b → a ≡ b
    same a b e = cc

    payable :
        (b : PublishedBounty)
        → some bounty ≡ some b
        → (0 < b.points) × (is_null_or_user empty_db.users b.maintainer_user_id ≡ true)
    payable b e =
        subst
          (λ (x : PublishedBounty).
            (0 < x.points) × (is_null_or_user empty_db.users x.maintainer_user_id ≡ true))
          (same bounty b e) (ground arith, refl)

empty_db-IsSound : IsSound lower empty_db
empty_db-IsSound = record {
  distinct = tt;
  fresh = tt;
  formed = tt;
  known = tt;
  numbered = tt;
  backed = tt;
}

IsFor-mona : IsFor lower (some 7) none 42 empty_db.users
unfolding github_id_of
IsFor-mona = record { resolved = refl; owned = refl }

IsFor-stranger : IsFor lower none (some 99) 99 empty_db.users
IsFor-stranger = record { resolved = refl; owned = tt }

abbrev Recorded : Type 0
Recorded =
    (db' : Db) × (out : SaveOutcome) × (record_merges lower (some 7) none merges empty_db
      ≡ ok (db', out))
    × IsSound lower db'
    × Gain (some 7) 42 out.points_awarded empty_db db'

record_merges_lem_example : Recorded
record_merges_lem_example =
    record_merges_lem lower (some 7) none 42 merges empty_db merges-IsPayable empty_db-IsSound
      IsFor-mona

abbrev awarded : Result (Db × SaveOutcome) → Option SaveOutcome
awarded (ok (db, out)) = some out
awarded (err e) = none

-- Two baselines and one bounty.
fifty_points :
    awarded (record_merges lower (some 7) none merges empty_db)
    ≡ some (record {
      newly_counted = 2;
      already_counted = 0;
      awards_written = 3;
      points_awarded = 50;
      bounties_already_claimed = 0;
    })
unfolding record_merges awards_clash allocations_clash entries_clash entry_is_allowed
    allocation_is_allowed github_id_of pending_row decimal
fifty_points = refl

record_merges_twice_example :
    (db' : Db) × (out again : SaveOutcome) × (record_merges lower none (some 99) merges empty_db
      ≡ ok (db', out))
    × (record_merges lower none (some 99) merges db' ≡ ok (db', again))
    × SameAwards no_outcome again
record_merges_twice_example =
    record_merges_twice lower none (some 99) 99 merges empty_db merges-IsPayable empty_db-IsSound
      IsFor-stranger

abbrev flat : Award
flat = baseline_of (record {
  pr = pr 11;
  inferred_category = docs;
  closed_issues = [];
  bounty = none;
  baseline_eligible = true;
})

reserve_lem_example : Reserves lower empty_db empty_db-IsSound 42 flat (some 7)
unfolding github_id_of
reserve_lem_example = reserve_lem lower empty_db empty_db-IsSound 42 flat (some 7) refl refl refl

abbrev award : Award
award =
    bounty_of
      (record {
        pr = pr 12;
        inferred_category = docs;
        closed_issues = [];
        bounty = some bounty;
        baseline_eligible = true;
      })
      bounty

-- Tables in which that bounty waits for an account that was made since.
abbrev waiting_db : Db
waiting_db = record empty_db {
  allocations = new_allocation lower empty_db 42 award ∷ [];
  next_allocation = 2;
}

waiting_db-IsSound : IsSound lower waiting_db
unfolding github_id_of decimal
waiting_db-IsSound = record {
  distinct = (tt, tt);
  fresh = (ground arith, tt);
  formed = (
    record {
      same_kind = refl;
      same_pr = refl;
      same_repo = refl;
      same_number = refl;
      complete = refl;
    },
    tt,
  );
  known = (refl, tt);
  numbered = tt;
  backed = tt;
}

claim_points_lem_example :
    (db' : Db) × (claim_points lower 42 waiting_db
      ≡ ok (db', pending_points 42 waiting_db.allocations))
    × Claimed lower 7 42 (pending_points 42 waiting_db.allocations) waiting_db db'
unfolding github_id_of user_id_of
claim_points_lem_example = claim_points_lem lower 7 42 waiting_db waiting_db-IsSound refl refl

forty_waiting : pending_points 42 waiting_db.allocations ≡ 40
unfolding pending_points decimal
forty_waiting = refl

-- From empty tables: two sign in, and the merges of one are recorded for a bounty of the other.
abbrev signed_in : Db
signed_in = record (empty_tables 1000) {
  users =
      record { id = 1; github_id = 41; github_login = text "lead"; avatar_url = none }
      ∷ record { id = 2; github_id = 42; github_login = text "mona"; avatar_url = none }
      ∷ [];
  next_user = 3;
}

signed_in-Reach : Reach lower ascii signed_in
unfolding upsert_user user_id_of
signed_in-Reach =
    next (next (start 1000) (signs_in 41 (text "lead") none)) (signs_in 42 (text "mona") none)

abbrev own_merges : List DetectedMerge
own_merges =
    record {
      pr = pr 12;
      inferred_category = docs;
      closed_issues = [];
      bounty = some (record bounty { maintainer_user_id = some 1 });
      baseline_eligible = true;
    }
    ∷ []

abbrev recorded : Result (Db × SaveOutcome)
recorded = record_merges lower (some 2) none own_merges signed_in

abbrev tables_of : Result (Db × SaveOutcome) → Db
tables_of (ok (db, out)) = db
tables_of (err e) = signed_in

abbrev counts_of : Result (Db × SaveOutcome) → SaveOutcome
counts_of (ok (db, out)) = out
counts_of (err e) = no_outcome

recorded-ok : recorded ≡ ok (tables_of recorded, counts_of recorded)
unfolding record_merges awards_clash allocations_clash entries_clash entry_is_allowed
    allocation_is_allowed github_id_of pending_row decimal
recorded-ok = refl

signed_in-IsFor : IsFor lower (some 2) none 42 signed_in.users
unfolding github_id_of
signed_in-IsFor = record { resolved = refl; owned = refl }

own_merges-IsPayable : All (IsPayable signed_in.users) own_merges
unfolding github_id_of
own_merges-IsPayable = ((λ b e. payable b e), tt)
  where
    same : (a b : PublishedBounty) → some a ≡ some b → a ≡ b
    same a b e = cc

    payable :
        (b : PublishedBounty)
        → some (record bounty { maintainer_user_id = some 1 }) ≡ some b
        → (0 < b.points) × (is_null_or_user signed_in.users b.maintainer_user_id ≡ true)
    payable b e =
        subst
          (λ (x : PublishedBounty).
            (0 < x.points) × (is_null_or_user signed_in.users x.maintainer_user_id ≡ true))
          (same _ b e) (ground arith, refl)

recorded-Reach : Reach lower ascii (tables_of recorded)
recorded-Reach =
    next signed_in-Reach
      (records (some 2) none 42 own_merges signed_in-IsFor own_merges-IsPayable recorded-ok)

Reach-once_example :
    IsSound lower (tables_of recorded)
    × ((repo : Text) (number : ℕ) → awards_of lower repo number (tables_of recorded).ledger ≤ 1)
Reach-once_example = Reach-once lower ascii recorded-Reach

-- The award is there.
awarded_once : awards_of lower (text "Acme/site") 3 (tables_of recorded).ledger ≡ 1
unfolding record_merges awards_clash allocations_clash entries_clash entry_is_allowed
    allocation_is_allowed github_id_of pending_row decimal
awarded_once = refl
