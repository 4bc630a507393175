-- ===== src/Points/Reach.antt =====
-- The tables from the beginning on: accounts are made, merges recorded, points claimed and corrections
-- appended in any order.
pub mod SignIn
use gitbounty.Base.{
  ℕ, suc, ◌≤◌, ◌≡◌, refl, sym, ◌∙◌, subst, false, Option, some, List, [], ◌∷◌, ◌++◌, arith, All,
  All-append,
}
use gitbounty.Text.{Text, Unicode}
use gitbounty.Detect.{DetectedMerge}
use gitbounty.Points.{Entry, Db, is_award}
use gitbounty.Points.Result.{Result, ok, err}
use gitbounty.Points.Users.{github_id_of, user_id_of, upsert_user}
use gitbounty.Points.Ledger.{Adjustment, adjustment_entry, insert_entry, record_adjustment}
use gitbounty.Points.Allocations.{claim_points}
use gitbounty.Points.Sound.{IsSound, IsNumbered-snoc}
use gitbounty.Points.Claim.{claim_points_lem}
use gitbounty.Points.Record.{SaveOutcome, record_merges}
use gitbounty.Points.Progress.{IsPayable, IsFor}
use gitbounty.Points.Merges.{record_merges_lem}
use gitbounty.Points.Reach.SignIn.{users-IsSound, upsert_user-IsSound}
use gitbounty.Points.Once.{awards_of, awards_of-le_one}

abbrev pub empty_tables : ℕ → Db
empty_tables now = record {
  users = [];
  next_user = 1;
  ledger = [];
  next_entry = 1;
  allocations = [];
  next_allocation = 1;
  merged_prs = [];
  now = now;
}

-- What is done to the tables: an account is made or signs in again, merges are recorded for an identity
-- and an account of it or none, an account claims, a correction is appended, and time passes.
pub data Step (lower : Text → Text) (u : Unicode) : Db → Db → Type 0 where
  signs_in :
      {db : Db} (github_id : ℕ) (login : Text) (avatar_url : Option Text)
      → Step lower u db (upsert_user github_id login avatar_url db).0
  records :
      {db db' : Db} {out : SaveOutcome} (account github_id : Option ℕ) (g : ℕ)
      (ms : List DetectedMerge)
      → IsFor lower account github_id g db.users
      → All (IsPayable db.users) ms
      → record_merges lower account github_id ms db ≡ ok (db', out)
      → Step lower u db db'
  claims :
      {db db' : Db} {points : ℕ} (github_id user_id : ℕ)
      → user_id_of db.users github_id ≡ some user_id
      → github_id_of db.users user_id ≡ some github_id
      → claim_points lower github_id db ≡ ok (db', points)
      → Step lower u db db'
  corrects :
      {db db' : Db} {entry_id : ℕ} (x : Adjustment)
      → is_award x.kind ≡ false
      → record_adjustment u lower x db ≡ ok (db', entry_id)
      → Step lower u db db'
  passes : {db : Db} (later : ℕ) → Step lower u db (record db { now = later })

pub data Reach (lower : Text → Text) (u : Unicode) : Db → Type 0 where
  start : (now : ℕ) → Reach lower u (empty_tables now)
  next : {db db' : Db} → Reach lower u db → Step lower u db db' → Reach lower u db'

module _ (lower : Text → Text) where
  -- An entry that is no award needs no reservation.
  appended-IsSound :
      (e : Entry) (db : Db)
      → is_award e.kind ≡ false
      → e.id ≡ db.next_entry
      → IsSound lower db
      → IsSound lower (record db { ledger = db.ledger ++ e ∷ []; next_entry = suc db.next_entry })
  appended-IsSound e db other same sound = record {
    distinct = sound.distinct;
    fresh = sound.fresh;
    formed = sound.formed;
    known = sound.known;
    numbered = IsNumbered-snoc db.next_entry db.ledger e same sound.numbered;
    backed = All-append _ db.ledger (e ∷ []) sound.backed ((λ h. absurd (ground arith)), tt);
  }

  insert_entry-ok :
      (e : Entry) (db db' : Db)
      → insert_entry lower e db ≡ ok db'
      → db' ≡ record db { ledger = db.ledger ++ e ∷ []; next_entry = suc db.next_entry }
  unfolding insert_entry
  insert_entry-ok e db db' h = ground arith

  ok-first :
      {A B : Type 0} (r : Result (A × B)) {a b : A} {x y : B}
      → r ≡ ok (a, x)
      → r ≡ ok (b, y)
      → a ≡ b
  ok-first r h k = cc

  module _ (u : Unicode) where
    record_adjustment-IsSound :
        (x : Adjustment) (db db' : Db) (i : ℕ)
        → is_award x.kind ≡ false
        → record_adjustment u lower x db ≡ ok (db', i)
        → IsSound lower db
        → IsSound lower db'
    unfolding record_adjustment
    record_adjustment-IsSound x db db' i other h sound = go _ refl
      where
        after : Db
        after = record db {
          ledger = db.ledger ++ adjustment_entry u db x ∷ [];
          next_entry = suc db.next_entry;
        }

        go :
            (r : Result Db)
            → insert_entry lower (adjustment_entry u db x) db ≡ r
            → IsSound lower db'
        go (err e) f = absurd (ground (arith, f, h))
        go (ok t) f =
            let same : t ≡ db' = ground (arith, f, h) in
            subst (IsSound lower) (sym (insert_entry-ok (adjustment_entry u db x) db t f) ∙ same)
              (appended-IsSound (adjustment_entry u db x) db other refl sound)

    Step-IsSound : {db db' : Db} → Step lower u db db' → IsSound lower db → IsSound lower db'
    Step-IsSound {db} (signs_in github_id login avatar_url) sound =
        upsert_user-IsSound lower github_id login avatar_url db sound
    Step-IsSound {db} (records account github_id g ms for payable e) sound =
        let (t, out, f, after, gain) =
          record_merges_lem lower account github_id g ms db payable sound for in
        subst (IsSound lower) (ok-first _ f e) after
    Step-IsSound {db} (claims github_id user_id known owned e) sound =
        let (t, f, c) = claim_points_lem lower user_id github_id db sound known owned in
        subst (IsSound lower) (ok-first _ f e) c.sound
    Step-IsSound {db} {db'} (corrects {entry_id = i} x other e) sound =
        record_adjustment-IsSound x db db' i other e sound
    Step-IsSound {db} (passes later) sound =
        users-IsSound lower db _ (λ i g h. h) refl refl refl refl sound

    Reach-IsSound : {db : Db} → Reach lower u db → IsSound lower db
    Reach-IsSound (start now) = record {
      distinct = tt;
      fresh = tt;
      formed = tt;
      known = tt;
      numbered = tt;
      backed = tt;
    }
    Reach-IsSound (next r step) = Step-IsSound step (Reach-IsSound r)

    -- From empty tables on, however sign-ins, records of merges, claims and corrections that are
    -- no awards follow one another, where the merges are recorded for an identity and an account
    -- of it or none and their bounties are worth at least one point and name a maintainer who is a
    -- user, or none: the tables are sound, and of every issue at most one entry of the ledger
    -- awards the bounty.
    pub Reach-once :
        {db : Db}
        → Reach lower u db
        → IsSound lower db
          × ((repo : Text) (number : ℕ) → awards_of lower repo number db.ledger ≤ 1)
    Reach-once {db} r =
        let sound = Reach-IsSound r in
        (
          sound,
          λ repo number.
              awards_of-le_one lower repo number db.users db.allocations sound.distinct
                db.next_entry db.ledger sound.numbered sound.backed,
        )
