-- ===== src/Points/Merges.antt =====
-- `record_merges` of features/points/store.py in sound tables.
use gitbounty.Base.{
  ℕ, ◌+◌, ◌<◌, ◌≡◌, refl, sym, subst, ◌∙◌, Bool, true, false, Option, none, some, List, [], ◌∷◌,
  arith, All, any, Bool-cases, Option-cases, inl, inr, if◌then◌else◌, any-append,
}
use gitbounty.Text.{Text}
use gitbounty.PullRequest.{PublishedBounty}
use gitbounty.Rules.{baseline_award}
use gitbounty.Detect.{DetectedMerge}
use gitbounty.Points.{Db, awards_clash}
use gitbounty.Points.Result.{Result, ok}
use gitbounty.Points.Allocations.{same_pr}
use gitbounty.Points.Sound.{IsSound, is_complete}
use gitbounty.Points.Gain.{Gain, Gain-none}
use gitbounty.Points.Reserve.Fresh.{request}
use gitbounty.Points.Record.{
  SaveOutcome, no_outcome, baseline_of, bounty_of, merged_row, store_merge, add_award, insert_award,
  write_baseline, write_bounty, record_merge, record_loop, record_merges,
}
use gitbounty.Points.Progress.{
  IsPayable, IsFor, Progress, Progress-trans, Progress-users, store_merge-Progress, award_step,
}

module _ (lower : Text → Text) (account github_id : Option ℕ) (g : ℕ) where
  -- What of a merge the database holds.
  pub record Done (m : DetectedMerge) (db : Db) : Type 0 where
    pub baseline :
        m.baseline_eligible ≡ true
        → any (awards_clash lower (request g (baseline_of m))) db.allocations ≡ true
    pub bounty :
        (b : PublishedBounty)
        → m.bounty ≡ some b
        → any (awards_clash lower (request g (bounty_of m b))) db.allocations ≡ true
    pub stored :
        (user_id : ℕ)
        → account ≡ some user_id
        → any (same_pr (merged_row user_id m)) db.merged_prs ≡ true

  pub bounty_of_complete :
      (m : DetectedMerge) (b : PublishedBounty) → 0 < b.points → is_complete (bounty_of m b) ≡ true
  bounty_of_complete m b h = ground arith

  -- The counts after the award of a bounty.
  abbrev pub after_bounty : PublishedBounty → SaveOutcome → Bool → SaveOutcome
  after_bounty b out written =
      if written
      then add_award b.points out
      else record out { bounties_already_claimed = out.bounties_already_claimed + 1 }

  after_bounty-counted :
      (b : PublishedBounty) (out : SaveOutcome) (written : Bool)
      → (after_bounty b out written).points_awarded
        ≡ out.points_awarded + (if written then b.points else 0)
  after_bounty-counted b out true = refl
  after_bounty-counted b out false = omega arith

  store_merge-stored :
      (m : DetectedMerge) (db : Db) (out : SaveOutcome) (user_id : ℕ)
      → account ≡ some user_id
      → any (same_pr (merged_row user_id m)) (store_merge account m (db, out)).0.merged_prs ≡ true
  unfolding store_merge
  store_merge-stored m db out user_id e =
      rw e (elim (Bool-cases (any (same_pr (merged_row user_id m)) db.merged_prs)) [
        | inl old ↦ rw (old, old)
        | inr new ↦ rw new (
            ground (
              arith,
              any-append (same_pr (merged_row user_id m)) db.merged_prs (merged_row user_id m ∷ []),
            ))
      ])

  abbrev pub Goes :
      (Db × SaveOutcome) → Result (Db × SaveOutcome) → (Db × SaveOutcome → Type 0) → Type 0
  Goes s r Post =
      (s' : Db × SaveOutcome) × (r ≡ ok s') × Progress lower account github_id g s s' × Post s'

  abbrev BaselineDone : DetectedMerge → Db × SaveOutcome → Type 0
  BaselineDone m s =
      m.baseline_eligible ≡ true
      → any (awards_clash lower (request g (baseline_of m))) s.0.allocations ≡ true

  abbrev BountyDone : DetectedMerge → Db × SaveOutcome → Type 0
  BountyDone m s =
      (b : PublishedBounty)
      → m.bounty ≡ some b
      → any (awards_clash lower (request g (bounty_of m b))) s.0.allocations ≡ true

  Progress-refl :
      (db : Db) (out : SaveOutcome)
      → IsSound lower db
      → IsFor lower account github_id g db.users
      → Progress lower account github_id g (db, out) (db, out)
  Progress-refl db out sound for = record {
    sound = sound;
    addressed = for;
    gained = 0;
    counted = omega arith;
    gain = Gain-none account g db;
    keeps = λ a h. h;
    keeps_rows = λ r h. h;
  }

  write_baseline-goes :
      (m : DetectedMerge) (db : Db) (out : SaveOutcome)
      → IsSound lower db
      → IsFor lower account github_id g db.users
      → Goes (db, out) (write_baseline lower account github_id m (db, out)) (BaselineDone m)
  unfolding write_baseline
  write_baseline-goes m db out sound for = elim (Bool-cases m.baseline_eligible) [
    | inl eligible ↦
        (let (db', written, e, p, held) =
            award_step lower account github_id g (baseline_of m) db out
              (λ b. if b then add_award baseline_award out else out) refl refl (λ b. ground arith)
              sound for in
          (
            (db', if written then add_award baseline_award out else out),
            rw (eligible, e),
            p,
            λ h. held,
          ))
    | inr not_eligible ↦ ((db, out), rw not_eligible, Progress-refl db out sound for, λ h. cc)
  ]

  pub write_bounty-none :
      (m : DetectedMerge) (db : Db) (out : SaveOutcome)
      → m.bounty ≡ none
      → write_bounty lower account github_id m (db, out) ≡ ok (db, out)
  unfolding write_bounty
  write_bounty-none m db out absent = rw absent

  pub write_bounty-some :
      (m : DetectedMerge) (b : PublishedBounty) (db db' : Db) (out : SaveOutcome) (written : Bool)
      → m.bounty ≡ some b
      → insert_award lower account github_id (bounty_of m b) db ≡ ok (db', written)
      → write_bounty lower account github_id m (db, out) ≡ ok (db', after_bounty b out written)
  unfolding write_bounty
  write_bounty-some m b db db' out written present e = rw (present, e)

  write_bounty-goes :
      (m : DetectedMerge) (db : Db) (out : SaveOutcome)
      → IsPayable db.users m
      → IsSound lower db
      → IsFor lower account github_id g db.users
      → Goes (db, out) (write_bounty lower account github_id m (db, out)) (BountyDone m)
  write_bounty-goes m db out priced sound for = elim (Option-cases m.bounty) [
    | inl absent ↦ (
      (db, out),
      write_bounty-none m db out absent,
      Progress-refl db out sound for,
      λ b e. ground arith,
    )
    | inr (b, present) ↦
        (let f : Bool → SaveOutcome = λ w. after_bounty b out w in
          let (db', written, e, p, held) =
            award_step lower account github_id g (bounty_of m b) db out f
              (bounty_of_complete m b (priced b present).0) (priced b present).1
              (after_bounty-counted b out) sound for in
          (
            (db', f written),
            write_bounty-some m b db db' out written present e,
            p,
            λ c k.
                subst
                  (λ x. any (awards_clash lower (request g (bounty_of m x))) db'.allocations ≡ true)
                  (same_bounty b c (sym present ∙ k)) held,
          ))
  ]
    where
      same_bounty : (b c : PublishedBounty) → some b ≡ some c → b ≡ c
      same_bounty b c e = cc

  record_merge-goes :
      (m : DetectedMerge) (db : Db) (out : SaveOutcome)
      → IsPayable db.users m
      → IsSound lower db
      → IsFor lower account github_id g db.users
      → Goes (db, out) (record_merge lower account github_id m (db, out)) (λ s. Done m s.0)
  unfolding record_merge
  record_merge-goes m db out priced sound for =
      let p = store_merge-Progress lower account github_id g m db out sound for in
      let (s, e, q, h) =
        write_baseline-goes m (store_merge account m (db, out)).0
          (store_merge account m (db, out)).1 p.sound p.addressed in
      let (t, f, r, k) =
        write_bounty-goes m s.0 s.1
          (subst (λ us. IsPayable us m)
            (sym (
              Progress-users lower account github_id g
                (Progress-trans lower account github_id g p q)))
            priced)
          q.sound q.addressed in
      (
        t,
        rw e f,
        Progress-trans lower account github_id g (Progress-trans lower account github_id g p q) r,
        record {
          baseline = λ b. r.keeps _ (h b);
          bounty = k;
          stored = λ user_id b.
              r.keeps_rows (merged_row user_id m)
                (q.keeps_rows (merged_row user_id m) (store_merge-stored m db out user_id b));
        },
      )

  Done-keeps :
      {s t : Db × SaveOutcome} (m : DetectedMerge)
      → Progress lower account github_id g s t
      → Done m s.0
      → Done m t.0
  Done-keeps m p d = record {
    baseline = λ h. p.keeps _ (d.baseline h);
    bounty = λ b h. p.keeps _ (d.bounty b h);
    stored = λ v h. p.keeps_rows (merged_row v m) (d.stored v h);
  }

  pub record_loop-goes :
      (ms : List DetectedMerge) (db : Db) (out : SaveOutcome)
      → All (IsPayable db.users) ms
      → IsSound lower db
      → IsFor lower account github_id g db.users
      → Goes
          (db, out)
          (record_loop lower account github_id ms (db, out))
          (λ s. All (λ m. Done m s.0) ms)
  unfolding record_loop
  record_loop-goes [] db out priced sound for =
      ((db, out), refl, Progress-refl db out sound for, tt)
  record_loop-goes (m ∷ ms) db out priced sound for =
      let (s, e, p, d) = record_merge-goes m db out priced.0 sound for in
      let (t, f, q, ds) =
        record_loop-goes ms s.0 s.1
          (subst (λ us. All (IsPayable us) ms) (sym (Progress-users lower account github_id g p))
            priced.1)
          p.sound p.addressed in
      (t, rw e f, Progress-trans lower account github_id g p q, (Done-keeps m q d, ds))

  -- In sound tables, for an identity and an account of it or none, and merges whose bounties are
  -- worth at least one point and name a maintainer who is a user, or none, `record_merges` never
  -- raises. The tables stay sound, the ledger only grows, and the points that the outcome reports
  -- are what the account has more or, with no account, what waits for the identity; nobody else's
  -- points change.
  pub record_merges_lem :
      (ms : List DetectedMerge) (db : Db)
      → All (IsPayable db.users) ms
      → IsSound lower db
      → IsFor lower account github_id g db.users
      → (db' : Db) × (out : SaveOutcome) × (record_merges lower account github_id ms db
          ≡ ok (db', out))
        × IsSound lower db'
        × Gain account g out.points_awarded db db'
  unfolding record_merges
  record_merges_lem ms db priced sound for =
      let (s, e, p, d) = record_loop-goes ms db no_outcome priced sound for in
      (s.0, s.1, e, p.sound, subst (λ n. Gain account g n db s.0) (omega (arith, p.counted)) p.gain)
