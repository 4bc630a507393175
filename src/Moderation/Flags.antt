-- ===== src/Moderation/Flags.antt =====
-- The reports of routes/moderation.py, over the table of migrations/0012_moderation_flags.sql, and
-- `raise_flag`. The schemas of the requests are pydantic's.
use gitbounty.Base.{
  ℕ, suc, Bool, true, not, Option, none, some, List, [], ◌∷◌, ◌++◌, ◌&&◌, ◌||◌, ◌==◌, is_some, any,
  if◌then◌else◌,
}
use gitbounty.Text.{Text, strip, Unicode}
use gitbounty.Points.{Entry, Db}
use gitbounty.Points.Result.{Result, ok, err, Error, check_violation}
use gitbounty.Points.Users.{upsert_user, github_id_of}
use gitbounty.Points.Ledger.{is_blank}

pub data SubjectKind : Type 0 where
  bounty pull_request ledger_entry : SubjectKind

pub data Resolution : Type 0 where
  dismissed upheld award_withdrawn : Resolution

pub data FlagStatus : Type 0 where
  open_flag upheld dismissed : FlagStatus

-- The `HTTPException`s, or an exception of a statement.
pub data Answer {ℓ} (A : Type ℓ) : Type ℓ where
  done : A → Answer A
  bad_request forbidden not_found conflict : Answer A
  raised : Error → Answer A

infixl 5 ◌>>=◌
abbrev pub ◌>>=◌ {ℓ κ} : {A : Type ℓ} {B : Type κ} → Answer A → (A → Answer B) → Answer B
done a >>= f = f a
bad_request >>= f = bad_request
forbidden >>= f = forbidden
not_found >>= f = not_found
conflict >>= f = conflict
raised e >>= f = raised e

abbrev pub answer {ℓ} : {A : Type ℓ} → Result A → Answer A
answer (ok a) = done a
answer (err e) = raised e

pub record CurrentUser : Type 0 where
  pub id : Option ℕ
  pub github_id : ℕ
  pub github_login : Text
  pub avatar_url : Option Text

-- A row of `moderation_flags`.
pub record Flag : Type 0 where
  pub id : ℕ
  pub subject_kind : SubjectKind
  pub bounty_repo_full_name : Option Text
  pub bounty_issue_number : Option ℕ
  pub github_pr_id : Option ℕ
  pub ledger_entry_id : Option ℕ
  pub reason : Text
  pub reporter_user_id : ℕ
  pub reporter_login : Text
  pub status : FlagStatus
  pub moderator_user_id : Option ℕ
  pub moderator_login : Option Text
  pub resolution : Option Resolution
  pub resolution_reason : Option Text
  pub resolution_ledger_entry_id : Option ℕ
  pub resolved_at : Option ℕ
  pub created_at : ℕ

-- The table of flags, the next number of its sequence, and the other tables.
pub record Desk : Type 0 where
  pub db : Db
  pub flags : List Flag
  pub next_flag : ℕ

-- `is_admin`, with the configured list.
unfoldable pub is_admin : List ℕ → CurrentUser → Bool
is_admin administrators user = any (λ g. user.github_id == g) administrators

record FlagRequest : Type 0 where
  pub subject_kind : SubjectKind
  pub reason : Text
  pub bounty_repo_full_name : Option Text
  pub bounty_issue_number : Option ℕ
  pub github_pr_id : Option ℕ
  pub ledger_entry_id : Option ℕ

abbrev subject_is_identified : FlagRequest → Bool
subject_is_identified r = elim r.subject_kind [
  | SubjectKind.bounty ↦ is_some r.bounty_repo_full_name && is_some r.bounty_issue_number
  | SubjectKind.pull_request ↦ is_some r.github_pr_id
  | SubjectKind.ledger_entry ↦ is_some r.ledger_entry_id
]

-- `user.id or await upsert_user(…)`
unfoldable pub actor : CurrentUser → Db → Db × ℕ
unfolding upsert_user
actor user db =
    let stored = upsert_user user.github_id user.github_login user.avatar_url db in
    elim user.id [ none ↦ stored | some i ↦ if i == 0 then stored else (db, i) ]

-- `select … from points_ledger where id = $1`
unfoldable pub find_entry : ℕ → List Entry → Option Entry
find_entry i [] = none
find_entry i (e ∷ es) = let rest = find_entry i es in if e.id == i then some e else rest

abbrev entry_exists : Option ℕ → List Entry → Bool
unfolding find_entry
entry_exists none es = true
entry_exists (some i) es = is_some (find_entry i es)

abbrev new_flag : Unicode → FlagRequest → ℕ → Text → Desk → Flag
new_flag u r reporter login d = record {
  id = d.next_flag;
  subject_kind = r.subject_kind;
  bounty_repo_full_name = r.bounty_repo_full_name;
  bounty_issue_number = r.bounty_issue_number;
  github_pr_id = r.github_pr_id;
  ledger_entry_id = r.ledger_entry_id;
  reason = strip u.is_space r.reason;
  reporter_user_id = reporter;
  reporter_login = login;
  status = FlagStatus.open_flag;
  moderator_user_id = none;
  moderator_login = none;
  resolution = none;
  resolution_reason = none;
  resolution_ledger_entry_id = none;
  resolved_at = none;
  created_at = d.db.now;
}

-- The account is stored before the insertion, which may still be refused. A foreign key that refers
-- to nothing is answered with 404, that of the entry as that of the reporter.
unfoldable raise_flag : Unicode → FlagRequest → CurrentUser → Desk → Desk × Answer Flag
unfolding actor entry_exists
raise_flag u r user d =
    let (db, reporter) = actor user d.db in
    let flag = new_flag u r reporter user.github_login d in
    if not (subject_is_identified r)
    then (d, bad_request)
    else if is_blank flag.reason
    then (record d { db = db }, raised check_violation)
    else if not (entry_exists r.ledger_entry_id db.ledger)
        || not (is_some (github_id_of db.users reporter))
    then (record d { db = db }, not_found)
    else (record { db = db; flags = d.flags ++ flag ∷ []; next_flag = suc d.next_flag }, done flag)
