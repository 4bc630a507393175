-- ===== src/Moderation.antt =====
-- routes/moderation.py over the table of migrations/0012_moderation_flags.sql: the
-- resolution of a report. `list_flags` is a query.
pub mod Flags
pub mod Withdraw
pub mod Resolve
use gitbounty.Base.{
  ℕ, is_some, Bool, true, false, not, Option, none, some, List, [], ◌∷◌, ◌++◌, ◌&&◌, ◌||◌, ◌==◌,
  opt_eq, any, map, if◌then◌else◌,
}
use gitbounty.Base.Int.{pos, negate, ltb_ℤ}
use gitbounty.Text.{Text, text, strip, starts_with, Unicode}
use gitbounty.Text.Decimal.{decimal}
use gitbounty.Points.{Kind, Entry, Db, kind_eq}
use gitbounty.Points.Users.{github_id_of}
use gitbounty.Points.Result.{check_violation, foreign_key_violation}
use gitbounty.Points.Ledger.{Adjustment, is_blank, record_adjustment}
use gitbounty.Moderation.Flags.{
  Answer, CurrentUser, Desk, Flag, FlagStatus, Resolution, SubjectKind, actor, answer,
  award_withdrawn, bad_request, conflict, dismissed, done, find_entry, forbidden, is_admin,
  ledger_entry, not_found, open_flag, raised, upheld, ◌>>=◌,
}

-- `s like '%p%'`, for a pattern without wildcards.
abbrev pub contains : Text → Text → Bool
contains [] p = starts_with [] p
contains (c ∷ s) p = starts_with (c ∷ s) p || contains s p

-- A correction of the award, by its account, its pull request and the number in its reason.
abbrev withdraws : Entry → Entry → Bool
withdraws award e =
    kind_eq e.kind Kind.void
    && e.user_id == award.user_id
    && opt_eq e.github_pr_id award.github_pr_id
    && contains e.reason (text "entry " ++ decimal award.id)

abbrev pub already_void : Entry → List Entry → Bool
already_void award es = any (withdraws award) es

abbrev pub withdrawal_reason : Unicode → Flag → Text → Text → Entry → Text
withdrawal_reason u flag reason login award =
    text "Award withdrawn by moderation (@"
    ++ (login
        ++ (text "), flag "
            ++ (decimal flag.id
                ++ (text ", entry "
                    ++ (decimal award.id ++ (text ": " ++ strip u.is_space reason))))))

abbrev pub withdrawal : Unicode → Flag → Text → Text → Entry → Adjustment
withdrawal u flag reason login award = record {
  user_id = award.user_id;
  points = negate award.points;
  reason = withdrawal_reason u flag reason login award;
  category = award.category;
  kind = Kind.void;
  github_pr_id = award.github_pr_id;
  bounty_repo_full_name = award.bounty_repo_full_name;
  bounty_issue_number = award.bounty_issue_number;
}

-- The entry that a flag is about; `none` is the first test of `_withdraw_award`.
abbrev flagged_entry : Flag → Option ℕ
flagged_entry flag = elim flag.subject_kind [
  | SubjectKind.ledger_entry ↦ flag.ledger_entry_id
  | _ ↦ none
]

module _ (u : Unicode) (lower : Text → Text) where
  -- `_withdraw_award`, once it has read the award.
  unfoldable pub withdraw_entry : Flag → Text → Text → Entry → Db → Answer (Db × ℕ)
  unfolding record_adjustment
  withdraw_entry flag reason login award db =
      if not (ltb_ℤ (pos 0) award.points)
      then bad_request
      else if already_void award db.ledger
      then conflict
      else answer (record_adjustment u lower (withdrawal u flag reason login award) db)

  -- `_withdraw_award`
  unfoldable pub withdraw_award : Flag → Text → Text → Db → Answer (Db × ℕ)
  unfolding withdraw_entry find_entry
  withdraw_award flag reason login db = elim (flagged_entry flag) [
    | none ↦ bad_request
    | some i ↦ elim (find_entry i db.ledger) [
      | none ↦ not_found
      | some award ↦ withdraw_entry flag reason login award db
    ]
  ]

  abbrev with_void : Db × ℕ → Db × Option ℕ
  with_void (db, i) = (db, some i)

  -- The correction of a resolution, if it asks for one.
  unfoldable pub correct : Resolution → Flag → Text → Text → Db → Answer (Db × Option ℕ)
  unfolding withdraw_award
  correct Resolution.award_withdrawn flag reason login db = do
    withdrawn ← withdraw_award flag reason login db
    done (with_void withdrawn)
  correct _ flag reason login db = done (db, none)

abbrev pub status_of : Resolution → FlagStatus
status_of Resolution.dismissed = FlagStatus.dismissed
status_of _ = FlagStatus.upheld

abbrev pub resolved : Unicode → Resolution → Text → ℕ → Text → Option ℕ → ℕ → Flag → Flag
resolved u resolution reason moderator login void_entry now flag = record flag {
  status = status_of resolution;
  resolution = some resolution;
  resolution_reason = some (strip u.is_space reason);
  moderator_user_id = some moderator;
  moderator_login = some login;
  resolved_at = some now;
  resolution_ledger_entry_id = void_entry;
}

abbrev pub update_flag : ℕ → (Flag → Flag) → Flag → Flag
update_flag i f flag = if flag.id == i then f flag else flag

unfoldable pub find_flag : ℕ → List Flag → Option Flag
find_flag i [] = none
find_flag i (f ∷ fs) = let rest = find_flag i fs in if f.id == i then some f else rest

abbrev pub is_unresolved : FlagStatus → Bool
is_unresolved FlagStatus.open_flag = true
is_unresolved _ = false

module _ (u : Unicode) (lower : Text → Text) where
  -- The update of the flag, under the checks of the table and its foreign key to the moderator.
  unfoldable pub store_resolution :
      Resolution → Text → ℕ → Text → Flag → Desk → Db × Option ℕ → Answer (Desk × Flag)
  store_resolution resolution reason moderator_id login flag d (db, void_entry) =
      let f = resolved u resolution reason moderator_id login void_entry d.db.now in
      if is_blank (strip u.is_space reason)
      then raised check_violation
      else if not (is_some (github_id_of db.users moderator_id))
      then raised foreign_key_violation
      else done (record d { db = db; flags = map (update_flag flag.id f) d.flags }, f flag)

  -- `resolve_flag` of an open flag: the correction, then the update.
  unfoldable pub resolve_open : Resolution → Text → CurrentUser → Flag → Desk → Answer (Desk × Flag)
  unfolding correct actor store_resolution
  resolve_open resolution reason moderator flag d =
      let (db, moderator_id) = actor moderator d.db in
      correct u lower resolution flag reason moderator.github_login db
      >>= store_resolution resolution reason moderator_id moderator.github_login flag d

  -- `resolve_flag`, for the configured administrators. An error undoes the transaction.
  unfoldable pub resolve_flag :
      List ℕ → ℕ → Resolution → Text → CurrentUser → Desk → Answer (Desk × Flag)
  unfolding resolve_open find_flag is_admin
  resolve_flag administrators flag_id resolution reason moderator d =
      if not (is_admin administrators moderator)
      then forbidden
      else elim (find_flag flag_id d.flags) [
        | none ↦ not_found
        | some flag ↦
            if is_unresolved flag.status
            then resolve_open resolution reason moderator flag d
            else conflict
      ]
