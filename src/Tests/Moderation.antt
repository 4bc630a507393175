-- ===== src/Tests/Moderation.antt =====
-- A report about an award, its dismissal and its withdrawal.
use gitbounty.Base.{◌≡◌, refl, true, false, none, some, [], ◌∷◌, map}
use gitbounty.Base.Int.{pos, negate}
use gitbounty.Text.{Text, text, ascii, ascii_lower}
use gitbounty.Text.Decimal.{decimal}
use gitbounty.PullRequest.{backend}
use gitbounty.PullRequest.Lifecycle.{maintainer}
use gitbounty.Points.{Kind, Entry, Db}
use gitbounty.Points.Users.{github_id_of}
use gitbounty.Moderation.{already_void, resolved, withdraw_entry, resolve_flag}
use gitbounty.Moderation.Flags.{
  done, conflict, SubjectKind, FlagStatus, Resolution, CurrentUser, Flag, Desk, is_admin,
}
use gitbounty.Moderation.Withdraw.{Withdrawn, withdraw_entry_lem}
use gitbounty.Moderation.Resolve.{resolve_flag-once}

abbrev lower : Text → Text
lower s = map ascii_lower s

abbrev award : Entry
award = record {
  id = 1;
  user_id = 7;
  kind = Kind.bounty_award;
  points = pos 40;
  category = backend;
  category_source = maintainer;
  rule_version = text "points-v1";
  reason = text "Merged";
  github_pr_id = some 11;
  pr_repo_full_name = some (text "acme/site");
  pr_number = some 5;
  pr_author_login = some (text "mona");
  merged_at = some 900;
  bounty_repo_full_name = some (text "acme/site");
  bounty_issue_number = some 3;
  bounty_points_at_award = some 40;
  maintainer_user_id = some 2;
  created_at = 1000;
}

abbrev db : Db
db = record {
  users =
      record { id = 7; github_id = 42; github_login = text "mona"; avatar_url = none }
      ∷ record { id = 9; github_id = 90; github_login = text "ada"; avatar_url = none }
      ∷ [];
  next_user = 10;
  ledger = award ∷ [];
  next_entry = 2;
  allocations = [];
  next_allocation = 1;
  merged_prs = [];
  now = 2000;
}

abbrev flag : Flag
flag = record {
  id = 3;
  subject_kind = SubjectKind.ledger_entry;
  bounty_repo_full_name = none;
  bounty_issue_number = none;
  github_pr_id = none;
  ledger_entry_id = some 1;
  reason = text "Not their work";
  reporter_user_id = 7;
  reporter_login = text "mona";
  status = FlagStatus.open_flag;
  moderator_user_id = none;
  moderator_login = none;
  resolution = none;
  resolution_reason = none;
  resolution_ledger_entry_id = none;
  resolved_at = none;
  created_at = 1500;
}

abbrev moderator : CurrentUser
moderator = record { id = some 9; github_id = 90; github_login = text "ada"; avatar_url = none }

abbrev desk : Desk
desk = record { db = db; flags = flag ∷ []; next_flag = 4 }

abbrev dismissed_desk : Desk
dismissed_desk = record desk { flags = dismissed_flag ∷ [] }
  where
    dismissed_flag : Flag
    dismissed_flag =
        resolved ascii Resolution.dismissed (text "It is fine") 9 (text "ada") none 2000 flag

known : (already_void award db.ledger) ≡ false
unfolding decimal
known = refl

withdraw_entry_lem_example :
    (db' : Db) × (withdraw_entry ascii lower flag (text "Copied") (text "ada") award db
      ≡ done (db', 2))
    × Withdrawn ascii lower flag (text "Copied") (text "ada") award db refl db'
unfolding decimal github_id_of
withdraw_entry_lem_example =
    withdraw_entry_lem ascii lower flag (text "Copied") (text "ada") award db refl refl refl refl

dismissed :
    resolve_flag ascii lower (90 ∷ []) 3 Resolution.dismissed (text "It is fine") moderator desk
    ≡ done (
      dismissed_desk,
      resolved ascii Resolution.dismissed (text "It is fine") 9 (text "ada") none 2000 flag,
    )
unfolding resolve_flag github_id_of
dismissed = refl

resolve_flag-once_example :
    resolve_flag ascii lower
      (90 ∷ [])
      3
      Resolution.award_withdrawn
      (text "Copied")
      moderator
      dismissed_desk
    ≡ conflict
unfolding is_admin
resolve_flag-once_example =
    resolve_flag-once ascii lower (90 ∷ []) 3 desk dismissed_desk
      (resolved ascii Resolution.dismissed (text "It is fine") 9 (text "ada") none 2000 flag)
      Resolution.dismissed Resolution.award_withdrawn (text "It is fine") (text "Copied") moderator
      moderator dismissed refl

-- The correction of entry 12 keeps entry 1 of the same account and pull request from being withdrawn.
abbrev correction : Entry
correction = record award {
  id = 13;
  kind = Kind.void;
  points = negate (pos 5);
  reason = text "Award withdrawn by moderation (@ada), flag 2, entry 12: Copied";
}

taken_for_withdrawn : already_void award (award ∷ correction ∷ []) ≡ true
unfolding decimal
taken_for_withdrawn = refl
