-- ===== src/Points/Progress.antt =====
-- The parts of the loop of `record_merges` in sound tables, and what each adds.
use gitbounty.Base.{
  ℕ, ◌+◌, ◌<◌, ◌≡◌, refl, sym, subst, Bool, true, Option, none, some, List, [], ◌∷◌, ◌++◌, arith,
  any, Bool-cases, inl, inr, if◌then◌else◌, any-append,
}
use gitbounty.Text.{Text}
use gitbounty.PullRequest.{PublishedBounty}
use gitbounty.Detect.{DetectedMerge}
use gitbounty.Points.{User, Award, Allocation, MergedRow, Db, awards_clash}
use gitbounty.Points.Result.{ok}
use gitbounty.Points.Allocations.{same_pr}
use gitbounty.Points.Sound.{IsSound, is_complete}
use gitbounty.Points.Ledger.{is_null_or_user}
use gitbounty.Points.Gain.{Gain, Gain-none, Gain-trans}
use gitbounty.Points.Reserve.{reserve_lem}
use gitbounty.Points.Reserve.Fresh.{Owns, request}
use gitbounty.Points.Record.{SaveOutcome, merged_row, store_merge, identity, insert_award}

-- The bounty of a merge is as the tables have a published one: it is worth a point or more, and the
-- maintainer that it names, if any, is a user.
abbrev pub IsPayable : List User → DetectedMerge → Type 0
IsPayable users m =
    (b : PublishedBounty)
    → m.bounty ≡ some b
    → (0 < b.points) × (is_null_or_user users b.maintainer_user_id ≡ true)

module _ (lower : Text → Text) (account github_id : Option ℕ) (g : ℕ) where
  -- The awards of the call are for the GitHub identity `g`, and the account is that identity's.
  pub record IsFor (users : List User) : Type 0 where
    pub resolved : identity account github_id users ≡ some g
    pub owned : Owns users account g

  -- What part of the loop does.
  pub record Progress (s s' : Db × SaveOutcome) : Type 0 where
    pub sound : IsSound lower s'.0
    pub addressed : IsFor s'.0.users
    pub gained : ℕ
    pub counted : s'.1.points_awarded ≡ s.1.points_awarded + gained
    pub gain : Gain account g gained s.0 s'.0
    pub keeps :
        (a : Allocation)
        → any (awards_clash lower a) s.0.allocations ≡ true
        → any (awards_clash lower a) s'.0.allocations ≡ true
    pub keeps_rows :
        (r : MergedRow)
        → any (same_pr r) s.0.merged_prs ≡ true
        → any (same_pr r) s'.0.merged_prs ≡ true

  pub Progress-trans : {s t v : Db × SaveOutcome} → Progress s t → Progress t v → Progress s v
  Progress-trans {s} {t} {v} p q = record {
    sound = q.sound;
    addressed = q.addressed;
    gained = p.gained + q.gained;
    counted = omega (arith, p.counted, q.counted);
    gain = Gain-trans p.gain q.gain;
    keeps = λ a h. q.keeps a (p.keeps a h);
    keeps_rows = λ r h. q.keeps_rows r (p.keeps_rows r h);
  }

  pub Progress-users : {s t : Db × SaveOutcome} → Progress s t → t.0.users ≡ s.0.users
  Progress-users p = p.gain.same_users

  -- The members of a list of rows are kept where it grows at its end.
  grown :
      (r : MergedRow) (rows : List MergedRow) (x : MergedRow)
      → any (same_pr r) rows ≡ true
      → any (same_pr r) (rows ++ x ∷ []) ≡ true
  grown r rows x h = ground (arith, any-append (same_pr r) rows (x ∷ []))

  Gain-rows :
      {n : ℕ} {db : Db} (db' : Db) (rows : List MergedRow)
      → Gain account g n db db'
      → Gain account g n db (record db' { merged_prs = rows })
  Gain-rows db' rows h = record {
    credited_points = h.credited_points;
    waiting_points = h.waiting_points;
    appended = h.appended;
    same_users = h.same_users;
  }

  -- A change of the counts and of `merged_prs` that keeps its rows.
  rows_only :
      (db : Db) (out out' : SaveOutcome) (rows : List MergedRow)
      → IsSound lower db
      → IsFor db.users
      → out'.points_awarded ≡ out.points_awarded
      → ((r : MergedRow) → any (same_pr r) db.merged_prs ≡ true → any (same_pr r) rows ≡ true)
      → Progress (db, out) (record db { merged_prs = rows }, out')
  rows_only db out out' rows sound for e keep = record {
    sound = record {
      distinct = sound.distinct;
      fresh = sound.fresh;
      formed = sound.formed;
      known = sound.known;
      numbered = sound.numbered;
      backed = sound.backed;
    };
    addressed = for;
    gained = 0;
    counted = omega (arith, e);
    gain = Gain-rows db rows (Gain-none account g db);
    keeps = λ a h. h;
    keeps_rows = keep;
  }

  pub store_merge-Progress :
      (m : DetectedMerge) (db : Db) (out : SaveOutcome)
      → IsSound lower db
      → IsFor db.users
      → Progress (db, out) (store_merge account m (db, out))
  unfolding store_merge
  store_merge-Progress m db out sound for = stored account
    where
      stored : (a : Option ℕ) → Progress (db, out) (store_merge a m (db, out))
      stored none = rows_only db out _ db.merged_prs sound for refl (λ r h. h)
      stored (some user_id) =
          elim (Bool-cases (any (same_pr (merged_row user_id m)) db.merged_prs)) [
            | inl old ↦ rw old (rows_only db out _ db.merged_prs sound for refl (λ r h. h))
            | inr new ↦ rw new (
                rows_only db out _ (db.merged_prs ++ merged_row user_id m ∷ []) sound for refl
                  (λ r h. grown r db.merged_prs (merged_row user_id m) h))
          ]

  -- One award, by `_insert_award`, and the counts `f written` after it.
  pub award_step :
      (w : Award) (db : Db) (out : SaveOutcome) (f : Bool → SaveOutcome)
      → is_complete w ≡ true
      → is_null_or_user db.users w.maintainer_user_id ≡ true
      → ((b : Bool) → (f b).points_awarded ≡ out.points_awarded + (if b then w.points else 0))
      → IsSound lower db
      → IsFor db.users
      → (db' : Db) × (written : Bool) × (insert_award lower account github_id w db
          ≡ ok (db', written))
        × Progress (db, out) (db', f written)
        × (any (awards_clash lower (request g w)) db'.allocations ≡ true)
  unfolding insert_award
  award_step w db out f complete known count sound for =
      let (db', written, e, r) = reserve_lem lower db sound g w account for.owned complete known in
      (
        db',
        written,
        rw (for.resolved, insert_award) e,
        record {
          sound = r.sound;
          addressed = subst IsFor (sym r.gain.same_users) for;
          gained = if written then w.points else 0;
          counted = count written;
          gain = r.gain;
          keeps = r.keeps;
          keeps_rows = r.keeps_rows;
        },
        r.held,
      )
