-- ===== src/Points/Repeat.antt =====
-- A second run of `record_merges` over the same merges.
use gitbounty.Base.{
  ℕ, ◌+◌, ◌≡◌, refl, sym, subst, ◌∙◌, true, false, Option, none, some, List, [], ◌∷◌, All, any,
  Bool-cases, Option-cases, inl, inr,
}
use gitbounty.Text.{Text}
use gitbounty.Detect.{DetectedMerge}
use gitbounty.Points.{Award, Db, awards_clash}
use gitbounty.Points.Result.{Result, ok}
use gitbounty.Points.Allocations.{same_pr}
use gitbounty.Points.Sound.{IsSound, is_complete}
use gitbounty.Points.Reserve.{reserve-held}
use gitbounty.Points.Reserve.Fresh.{request}
use gitbounty.Points.Record.{
  SaveOutcome, no_outcome, baseline_of, bounty_of, merged_row, store_merge, insert_award,
  write_baseline, write_bounty, record_merge, record_loop, record_merges,
}
use gitbounty.Points.Progress.{IsPayable, IsFor, Progress-users}
use gitbounty.Points.Merges.{
  Done, write_bounty-none, write_bounty-some, record_loop-goes, bounty_of_complete, after_bounty,
}

-- A run over merges that the database holds adds to the counts of repeats alone.
abbrev pub SameAwards : SaveOutcome → SaveOutcome → Type 0
SameAwards out out' =
    (out'.awards_written ≡ out.awards_written)
    × (out'.points_awarded ≡ out.points_awarded)
    × (out'.newly_counted ≡ out.newly_counted)

module _ (lower : Text → Text) (account github_id : Option ℕ) (g : ℕ) where
  abbrev Repeats : Db → SaveOutcome → Result (Db × SaveOutcome) → Type 0
  Repeats db out r = (out' : SaveOutcome) × (r ≡ ok (db, out')) × SameAwards out out'

  store_merge-again :
      (m : DetectedMerge) (db : Db) (out : SaveOutcome)
      → Done lower account github_id g m db
      → (out' : SaveOutcome) × (store_merge account m (db, out) ≡ (db, out')) × SameAwards out out'
  store_merge-again m db out done = again account done.stored
    where
      again :
          (a : Option ℕ)
          → ((user_id : ℕ)
              → a ≡ some user_id
              → any (same_pr (merged_row user_id m)) db.merged_prs ≡ true)
          → (out' : SaveOutcome) × (store_merge a m (db, out) ≡ (db, out')) × SameAwards out out'
      again none h = (
        record out { already_counted = out.already_counted + 1 },
        unfold store_merge in refl,
        (refl, refl, refl),
      )
      again (some user_id) h = (
        record out { already_counted = out.already_counted + 1 },
        unfold store_merge in rw (h user_id refl),
        (refl, refl, refl),
      )

  insert_award-held :
      (w : Award) (db : Db)
      → IsSound lower db
      → IsFor lower account github_id g db.users
      → is_complete w ≡ true
      → any (awards_clash lower (request g w)) db.allocations ≡ true
      → insert_award lower account github_id w db ≡ ok (db, false)
  unfolding insert_award
  insert_award-held w db sound for complete h =
      rw (for.resolved, insert_award) (reserve-held lower db sound g w account complete h)

  write_baseline-again :
      (m : DetectedMerge) (db : Db) (out : SaveOutcome)
      → IsSound lower db
      → IsFor lower account github_id g db.users
      → Done lower account github_id g m db
      → write_baseline lower account github_id m (db, out) ≡ ok (db, out)
  unfolding write_baseline
  write_baseline-again m db out sound for done = elim (Bool-cases m.baseline_eligible) [
    | inl eligible ↦
        rw (eligible, insert_award-held (baseline_of m) db sound for refl (done.baseline eligible))
    | inr not_eligible ↦ rw not_eligible
  ]

  write_bounty-again :
      (m : DetectedMerge) (db : Db) (out : SaveOutcome)
      → IsPayable db.users m
      → IsSound lower db
      → IsFor lower account github_id g db.users
      → Done lower account github_id g m db
      → Repeats db out (write_bounty lower account github_id m (db, out))
  write_bounty-again m db out priced sound for done = elim (Option-cases m.bounty) [
    | inl absent ↦
        (out, write_bounty-none lower account github_id g m db out absent, (refl, refl, refl))
    | inr (b, present) ↦ (
      after_bounty lower account github_id g b out false,
      write_bounty-some lower account github_id g m b db db out false present (
          insert_award-held (bounty_of m b) db sound for
            (bounty_of_complete lower account github_id g m b (priced b present).0)
            (done.bounty b present)),
      (refl, refl, refl),
    )
  ]

  record_merge-again :
      (m : DetectedMerge) (db : Db) (out : SaveOutcome)
      → IsPayable db.users m
      → IsSound lower db
      → IsFor lower account github_id g db.users
      → Done lower account github_id g m db
      → Repeats db out (record_merge lower account github_id m (db, out))
  unfolding record_merge
  record_merge-again m db out priced sound for done =
      let (o, e, c) = store_merge-again m db out done in
      let (p, f, d) = write_bounty-again m db o priced sound for done in
      (p, rw (e, write_baseline-again m db o sound for done) f, (d.0 ∙ c.0, d.1 ∙ c.1, d.2 ∙ c.2))

  record_loop-again :
      (ms : List DetectedMerge) (db : Db) (out : SaveOutcome)
      → All (IsPayable db.users) ms
      → IsSound lower db
      → IsFor lower account github_id g db.users
      → All (λ m. Done lower account github_id g m db) ms
      → Repeats db out (record_loop lower account github_id ms (db, out))
  unfolding record_loop
  record_loop-again [] db out priced sound for done = (out, refl, (refl, refl, refl))
  record_loop-again (m ∷ ms) db out priced sound for done =
      let (o, e, c) = record_merge-again m db out priced.0 sound for done.0 in
      let (p, f, d) = record_loop-again ms db o priced.1 sound for done.1 in
      (p, rw e f, (d.0 ∙ c.0, d.1 ∙ c.1, d.2 ∙ c.2))

  -- In sound tables, for an identity and an account of it or none, and merges whose bounties are
  -- worth at least one point and name a maintainer who is a user, or none, `record_merges` is safe
  -- to run again: after a run, a second run over the same merges returns with the database
  -- unchanged, no award written, no point awarded and no merge newly counted.
  pub record_merges_twice :
      (ms : List DetectedMerge) (db : Db)
      → All (IsPayable db.users) ms
      → IsSound lower db
      → IsFor lower account github_id g db.users
      → (db' : Db) × (out again : SaveOutcome) × (record_merges lower account github_id ms db
          ≡ ok (db', out))
        × (record_merges lower account github_id ms db' ≡ ok (db', again))
        × SameAwards no_outcome again
  unfolding record_merges
  record_merges_twice ms db priced sound for =
      let (s, e, p, d) =
        record_loop-goes lower account github_id g ms db no_outcome priced sound for in
      let (again, f, c) =
        record_loop-again ms s.0 no_outcome
          (subst (λ us. All (IsPayable us) ms) (sym (Progress-users lower account github_id g p))
            priced)
          p.sound p.addressed d in
      (s.0, s.1, again, e, f, c)
