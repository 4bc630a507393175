-- ===== src/Points/Reserve/Fresh.antt =====
-- The reservation of an award that nobody holds, for an account or for an identity without one.
use gitbounty.Base.{
  ℕ, ◌+◌, ◌<◌, ◌≡◌, refl, sym, ap, ◌∙◌, Bool, true, false, Option, none, some, List, [], ◌∷◌, ◌++◌,
  ◌||◌, ◌==◌, arith, All, Any, All-map, All-append, Any-append_left, any, Bool-cases, inl, inr,
  if◌then◌else◌, any-false→All, any-append, any-map, append-nil,
}
use gitbounty.Base.Int.{pos, ◌+ℤ◌}
use gitbounty.Text.{Text}
use gitbounty.Points.{User, Award, Allocation, MergedRow, Db, awards_clash, allocations_clash}
use gitbounty.Points.Result.{Result, ok, ◌>>=◌}
use gitbounty.Points.Users.{github_id_of}
use gitbounty.Points.Ledger.{is_null_or_user, award_entry, total_points}
use gitbounty.Points.Allocations.{
  same_pr, insert_merged_row, award_merged_row, relink, pending_points, pending_row, new_allocation,
  with_allocation, credit, credit_reserved,
}
use gitbounty.Points.Sound.{is_complete, Distinct, IsSound, allocations_clash_sym}
use gitbounty.Points.Credit.{IsRow, credited, pending_row-found, credit_row-eq, credited-IsSound}
use gitbounty.Points.Gain.{
  Gain, +ℤ-zero, points_for, points_waiting, sum_points-append, pending_points-append,
  pending_points-link,
}

-- The account, if there is one, is the GitHub identity's.
abbrev pub Owns : List User → Option ℕ → ℕ → Type 0
Owns users none github_id = Unit
Owns users (some user_id) github_id = github_id_of users user_id ≡ some github_id

-- The reservation that an award asks for; its number plays no part in whether it is held.
abbrev pub request : ℕ → Award → Allocation
request github_id w = record {
  id = 0;
  github_id = github_id;
  github_pr_id = w.github_pr_id;
  kind = w.kind;
  bounty_repo_full_name = w.bounty_repo_full_name;
  bounty_issue_number = w.bounty_issue_number;
  award = w;
  ledger_entry_id = none;
}

insert_merged_row-keeps :
    (r s : MergedRow) (rows : List MergedRow)
    → any (same_pr r) rows ≡ true
    → any (same_pr r) (insert_merged_row s rows) ≡ true
insert_merged_row-keeps r s rows h = ground (arith, any-append (same_pr r) rows (s ∷ []))

-- What `reserve` does for an award when it returns `written`: `held` that the database holds the
-- award afterwards, `keeps` that it holds what it held before.
pub record Reserved (lower : Text → Text) (account : Option ℕ) (github_id : ℕ) (w : Award)
    (db db' : Db) (written : Bool) : Type 0 where
  pub sound : IsSound lower db'
  pub gain : Gain account github_id (if written then w.points else 0) db db'
  pub untouched : written ≡ false → db' ≡ db
  pub held : any (awards_clash lower (request github_id w)) db'.allocations ≡ true
  pub keeps :
      (a : Allocation)
      → any (awards_clash lower a) db.allocations ≡ true
      → any (awards_clash lower a) db'.allocations ≡ true
  pub keeps_rows :
      (r : MergedRow) → any (same_pr r) db.merged_prs ≡ true → any (same_pr r) db'.merged_prs ≡ true

module _ (lower : Text → Text) where
  awards_clash_refl : (a : Allocation) → awards_clash lower a a ≡ true
  unfolding awards_clash
  awards_clash_refl a = ground arith

  awards_clash-relink :
      (i n : ℕ) (a b : Allocation) → awards_clash lower a (relink i n b) ≡ awards_clash lower a b
  unfolding awards_clash
  awards_clash-relink i n a b = elim (Bool-cases (b.id == i)) [ inl e ↦ rw e | inr e ↦ rw e ]

  pub clash_of_new :
      (a b : Allocation)
      → (a.id == b.id) ≡ false
      → allocations_clash lower a b ≡ awards_clash lower a b
  unfolding allocations_clash
  clash_of_new a b e = rw e

  Distinct-append :
      (rows : List Allocation) (a : Allocation)
      → Distinct lower rows
      → All (λ b. allocations_clash lower b a ≡ false) rows
      → Distinct lower (rows ++ a ∷ [])
  Distinct-append [] a d h = (tt, tt)
  Distinct-append (r ∷ rows) a d h =
      (All-append _ rows (a ∷ []) d.0 (h.0, tt), Distinct-append rows a d.1 h.1)

  module _ (db : Db) (sound : IsSound lower db) (github_id : ℕ) (w : Award) where
    abbrev pub new : Allocation
    new = new_allocation lower db github_id w

    pub as_request :
        (rows : List Allocation)
        → any (awards_clash lower new) rows ≡ true
        → any (awards_clash lower (request github_id w)) rows ≡ true
    unfolding awards_clash
    as_request rows h = h

    module _ (complete : is_complete w ≡ true)
        (known : is_null_or_user db.users w.maintainer_user_id ≡ true)
        (free : any (allocations_clash lower new) db.allocations ≡ false) where
      with_allocation-IsSound : IsSound lower (with_allocation lower new db)
      with_allocation-IsSound = record {
        distinct = Distinct-append db.allocations new sound.distinct (
            All-map db.allocations (λ b h. allocations_clash_sym lower b new ∙ h)
              (any-false→All _ db.allocations free));
        fresh =
            All-append _ db.allocations (new ∷ [])
              (All-map db.allocations (λ b h. omega arith) sound.fresh) (omega arith, tt);
        formed = All-append _ db.allocations (new ∷ []) sound.formed (
          record {
            same_kind = refl;
            same_pr = refl;
            same_repo = refl;
            same_number = refl;
            complete = complete;
          },
          tt,
        );
        known = All-append _ db.allocations (new ∷ []) sound.known (known, tt);
        numbered = sound.numbered;
        backed = All-map db.ledger (λ e h k. Any-append_left (new ∷ []) (h k)) sound.backed;
      }

      pending_row-new :
          (identity : Option ℕ) (rows : List Allocation)
          → identity ≡ some github_id
          → All (λ a. a.id < db.next_allocation) rows
          → pending_row db.next_allocation identity (rows ++ new ∷ []) ≡ some new
      unfolding pending_row
      pending_row-new identity [] o h = ground arith
      pending_row-new identity (r ∷ rows) o h = ground (arith, pending_row-new identity rows o h.1)

      -- Reserved for an identity with no account.
      pub Reserved-only : Reserved lower none github_id w db (with_allocation lower new db) true
      Reserved-only = record {
        sound = with_allocation-IsSound;
        gain = record {
          credited_points = λ v. sym (+ℤ-zero (total_points v db.ledger));
          waiting_points = λ g. ground (arith, pending_points-append g db.allocations new);
          appended = ([], sym (append-nil db.ledger));
          same_users = refl;
        };
        untouched = λ e. cc;
        held = as_request (db.allocations ++ new ∷ []) (
            ground (
              arith,
              any-append (awards_clash lower new) db.allocations (new ∷ []),
              awards_clash_refl new,
            ));
        keeps_rows = λ r h. h;
        keeps = λ a h. ground (arith, any-append (awards_clash lower a) db.allocations (new ∷ []));
      }

      module _ (user_id : ℕ) (owner : github_id_of db.users user_id ≡ some github_id) where
        abbrev pub after : Db
        after = credited (with_allocation lower new db) user_id new

        found :
            Any
              (IsRow db.next_allocation (github_id_of db.users user_id) new)
              (db.allocations ++ new ∷ [])
        found =
            pending_row-found db.next_allocation (github_id_of db.users user_id)
              (db.allocations ++ new ∷ []) new
              (pending_row-new (github_id_of db.users user_id) db.allocations owner sound.fresh)

        credited_after :
            (v : ℕ)
            → total_points v after.ledger
              ≡ total_points v db.ledger +ℤ pos (points_for (some user_id) v w.points)
        unfolding total_points
        credited_after v =
            sum_points-append (λ e. e.user_id == v) db.ledger (award_entry db user_id w)
            ∙ ap (λ k. total_points v db.ledger +ℤ k) (ground arith)

        waiting_after :
            (g : ℕ)
            → pending_points g after.allocations
              ≡ pending_points g db.allocations + points_waiting (some user_id) github_id g w.points
        waiting_after g = ground (
          arith,
          pending_points-append g db.allocations new,
          pending_points-link lower g db.next_allocation db.next_entry
              (github_id_of db.users user_id) new (db.allocations ++ new ∷ [])
              with_allocation-IsSound.distinct found,
        )

        any-after :
            (a : Allocation)
            → any (awards_clash lower a) after.allocations
              ≡ (any (awards_clash lower a) db.allocations || awards_clash lower a new)
        any-after a =
            any-map (awards_clash lower a) (relink db.next_allocation db.next_entry)
              (db.allocations ++ new ∷ []) (awards_clash-relink db.next_allocation db.next_entry a)
            ∙ ground (arith, any-append (awards_clash lower a) db.allocations (new ∷ []))

        pub Reserved-and_credited : Reserved lower (some user_id) github_id w db after true
        Reserved-and_credited = record {
          sound = credited-IsSound lower with_allocation-IsSound user_id new found;
          gain = record {
            credited_points = credited_after;
            waiting_points = waiting_after;
            appended = (award_entry db user_id w ∷ [], refl);
            same_users = refl;
          };
          untouched = λ e. cc;
          held =
              as_request after.allocations (ground (arith, any-after new, awards_clash_refl new));
          keeps_rows =
              λ r h. insert_merged_row-keeps r (award_merged_row user_id w) db.merged_prs h;
          keeps = λ a h. ground (arith, any-after a);
        }

      module _ (user_id : ℕ) (owner : github_id_of db.users user_id ≡ some github_id) where
        credit-new :
            credit lower db.next_allocation user_id (with_allocation lower new db)
            ≡ ok (after user_id owner, w.points)
        unfolding credit
        credit-new =
            rw
              (
                pending_row-new (github_id_of db.users user_id) db.allocations owner sound.fresh,
                credit,
              )
              (credit_row-eq lower with_allocation-IsSound user_id new (found user_id owner))

        pub credit_reserved-new :
            credit_reserved lower db.next_allocation (some user_id) (with_allocation lower new db)
            ≡ ok (after user_id owner, true)
        unfolding credit_reserved
        credit_reserved-new = ap (λ (r : Result (Db × ℕ)). r >>= (λ c. ok (c.0, true))) credit-new
