-- ===== src/Points/Reserve.antt =====
-- `reserve` of features/points/allocations.py in sound tables.
pub mod Fresh
use gitbounty.Base.{
  ℕ, ◌<◌, ◌≡◌, refl, sym, ◌∙◌, Bool, true, false, Option, none, some, [], arith, All-map, any,
  Bool-cases, inl, inr, any-congr,
}
use gitbounty.Text.{Text}
use gitbounty.Points.{Award, Allocation, Db, awards_clash, allocations_clash}
use gitbounty.Points.Result.{ok, ◌>>=◌}
use gitbounty.Points.Ledger.{is_null_or_user}
use gitbounty.Points.Allocations.{new_allocation, with_allocation, allocation_is_allowed, reserve}
use gitbounty.Points.Sound.{is_complete, IsSound}
use gitbounty.Points.Gain.{Gain-none}
use gitbounty.Points.Reserve.Fresh.{
  Owns, request, Reserved, clash_of_new, as_request, Reserved-only, after, Reserved-and_credited,
  credit_reserved-new,
}

module _ (lower : Text → Text) where
  module _ (db : Db) (sound : IsSound lower db) (github_id : ℕ) (w : Award) where
    abbrev asked : Allocation
    asked = new_allocation lower db github_id w

    complete-is_allowed : is_complete w ≡ true → allocation_is_allowed lower w ≡ true
    unfolding allocation_is_allowed
    complete-is_allowed h = ground arith

    -- A new number is no row's, so only an award that is held clashes.
    clash-eq-held :
        any (allocations_clash lower asked) db.allocations
        ≡ any (awards_clash lower asked) db.allocations
    clash-eq-held = any-congr _ _ db.allocations (All-map db.allocations fresh_number sound.fresh)
      where
        fresh_number :
            (b : Allocation)
            → b.id < db.next_allocation
            → allocations_clash lower asked b ≡ awards_clash lower asked b
        fresh_number b h = clash_of_new lower asked b (ground arith)

    already_held :
        (account : Option ℕ)
        → any (allocations_clash lower asked) db.allocations ≡ true
        → Reserved lower account github_id w db db false
    already_held account h = record {
      sound = sound;
      gain = Gain-none account github_id db;
      untouched = λ e. refl;
      held = as_request lower db sound github_id w db.allocations (sym clash-eq-held ∙ h);
      keeps_rows = λ r k. k;
      keeps = λ a k. k;
    }

    -- What `reserve` returns for an award that the constraints admit.
    abbrev pub Reserves : Option ℕ → Type 0
    Reserves account =
        (db' : Db) × (written : Bool) × (reserve lower github_id w account db ≡ ok (db', written))
        × Reserved lower account github_id w db db' written

    -- For an award that the constraints admit and whose maintainer is a user, or none, and an
    -- account of the identity or none, `reserve` never raises in sound tables and keeps them
    -- sound. It returns false and changes nothing if the award is held, and otherwise adds its
    -- points once, to the account or to what waits for the identity.
    pub reserve_lem :
        (account : Option ℕ)
        → Owns db.users account github_id
        → is_complete w ≡ true
        → is_null_or_user db.users w.maintainer_user_id ≡ true
        → Reserves account
    unfolding reserve
    reserve_lem account owns complete known =
        elim (Bool-cases (any (allocations_clash lower asked) db.allocations)) [
          | inl h ↦ (db, false, rw (complete-is_allowed complete, h), already_held account h)
          | inr free ↦ fresh_case account owns free
        ]
      where
        fresh_case :
            (account : Option ℕ)
            → Owns db.users account github_id
            → any (allocations_clash lower asked) db.allocations ≡ false
            → Reserves account
        fresh_case none owns free = (
          with_allocation lower asked db,
          true,
          rw (complete-is_allowed complete, free),
          Reserved-only lower db sound github_id w complete known free,
        )
        fresh_case (some user_id) owns free = (
          after lower db sound github_id w complete known free user_id owns,
          true,
          rw (complete-is_allowed complete, free)
              (credit_reserved-new lower db sound github_id w complete known free user_id owns),
          Reserved-and_credited lower db sound github_id w complete known free user_id owns,
        )

    as_new :
        any (awards_clash lower (request github_id w)) db.allocations ≡ true
        → any (awards_clash lower asked) db.allocations ≡ true
    unfolding awards_clash
    as_new h = h

    -- An award that is held is refused, and nothing changes.
    pub reserve-held :
        (account : Option ℕ)
        → is_complete w ≡ true
        → any (awards_clash lower (request github_id w)) db.allocations ≡ true
        → reserve lower github_id w account db ≡ ok (db, false)
    unfolding reserve
    reserve-held account complete h = rw (complete-is_allowed complete, clashes)
      where
        clashes : any (allocations_clash lower asked) db.allocations ≡ true
        clashes = clash-eq-held ∙ as_new h
