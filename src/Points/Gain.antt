-- ===== src/Points/Gain.antt =====
-- How sums over the tables change: the points credited to an account, and those that wait for one.
use gitbounty.Base.{
  ℕ, ◌+◌, ◌≡◌, refl, sym, ap, ◌∙◌, Bool, true, false, Option, some, List, [], ◌∷◌, ◌++◌, ◌&&◌, ◌==◌,
  arith, All, Any, here, there, All-Any, Any-elim, is_some, not, opt_eq, if◌then◌else◌,
  append_assoc, append-nil, All-map,
}
use gitbounty.Base.Int.{ℤ, pos, ◌+ℤ◌, int_laws}
use gitbounty.Text.{Text}
use gitbounty.Points.{Entry, Allocation, Db, allocations_clash}
use gitbounty.Points.Ledger.{sum_points, total_points}
use gitbounty.Points.Allocations.{is_pending, link, pending_points}
use gitbounty.Points.Sound.{Distinct}
use gitbounty.Points.Credit.{IsRow}

abbrev pub points_for : Option ℕ → ℕ → ℕ → ℕ
points_for account user_id points = if opt_eq (some user_id) account then points else 0

abbrev pub points_waiting : Option ℕ → ℕ → ℕ → ℕ → ℕ
points_waiting account github_id g points =
    if not (is_some account) && g == github_id then points else 0

-- `points` more, credited to the account or, if there is none, waiting for the GitHub identity; all
-- other accounts and identities have what they had, the ledger has only grown.
pub record Gain (account : Option ℕ) (github_id points : ℕ) (db db' : Db) : Type 0 where
  pub credited_points :
      (user_id : ℕ)
      → total_points user_id db'.ledger
        ≡ total_points user_id db.ledger +ℤ pos (points_for account user_id points)
  pub waiting_points :
      (g : ℕ)
      → pending_points g db'.allocations
        ≡ pending_points g db.allocations + points_waiting account github_id g points
  pub appended : (new : List Entry) × (db'.ledger ≡ db.ledger ++ new)
  pub same_users : db'.users ≡ db.users

pub +ℤ-zero : (a : ℤ) → a +ℤ pos 0 ≡ a
+ℤ-zero a = omega int_laws

pub Gain-none : (account : Option ℕ) (github_id : ℕ) (db : Db) → Gain account github_id 0 db db
Gain-none account github_id db = record {
  credited_points = λ v. none_credited (opt_eq (some v) account) (total_points v db.ledger);
  waiting_points = λ g. ground arith;
  appended = ([], sym (append-nil db.ledger));
  same_users = refl;
}
  where
    none_credited : (b : Bool) (a : ℤ) → a ≡ a +ℤ pos (if b then 0 else 0)
    none_credited true a = sym (+ℤ-zero a)
    none_credited false a = sym (+ℤ-zero a)

pub Gain-trans :
    {account : Option ℕ} {github_id m n : ℕ} {db db' db'' : Db}
    → Gain account github_id m db db'
    → Gain account github_id n db' db''
    → Gain account github_id (m + n) db db''
Gain-trans {account} {github_id} {m} {n} {db} {db'} {db''} h k = record {
  credited_points = λ v.
      sums (opt_eq (some v) account) (total_points v db.ledger) _ _ (h.credited_points v)
        (k.credited_points v);
  waiting_points = λ g. ground (arith, h.waiting_points g, k.waiting_points g);
  appended = (
    h.appended.0 ++ k.appended.0,
    k.appended.1
        ∙ ap (λ l. l ++ k.appended.0) h.appended.1
        ∙ append_assoc db.ledger h.appended.0 k.appended.0,
  );
  same_users = k.same_users ∙ h.same_users;
}
  where
    sums :
        (b : Bool) (x y z : ℤ)
        → y ≡ x +ℤ pos (if b then m else 0)
        → z ≡ y +ℤ pos (if b then n else 0)
        → z ≡ x +ℤ pos (if b then m + n else 0)
    sums true x y z p q = rw (q, p) (omega int_laws)
    sums false x y z p q = rw (q, p) (omega int_laws)

pub sum_points-append :
    (p : Entry → Bool) (xs : List Entry) (e : Entry)
    → sum_points p (xs ++ e ∷ []) ≡ sum_points p xs +ℤ (if p e then e.points else pos 0)
unfolding sum_points
sum_points-append p [] e = omega int_laws
sum_points-append p (x ∷ xs) e = rw (sum_points-append p xs e) (omega int_laws)

pub pending_points-append :
    (g : ℕ) (rows : List Allocation) (a : Allocation)
    → pending_points g (rows ++ a ∷ [])
      ≡ pending_points g rows + (if a.github_id == g && is_pending a then a.award.points else 0)
unfolding pending_points
pending_points-append g [] a = ground arith
pending_points-append g (r ∷ rows) a = ground (arith, pending_points-append g rows a)

pending_points-link_other :
    (g i n : ℕ) (rows : List Allocation)
    → All (λ b. (b.id == i) ≡ false) rows
    → pending_points g (link i n rows) ≡ pending_points g rows
unfolding pending_points
pending_points-link_other g i n [] h = refl
pending_points-link_other g i n (r ∷ rows) h =
    ground (arith, pending_points-link_other g i n rows h.1)

module _ (lower : Text → Text) where
  id_of_clash : (a b : Allocation) → allocations_clash lower a b ≡ false → (b.id == a.id) ≡ false
  unfolding allocations_clash
  id_of_clash a b h = ground arith

  -- The rows behind a row with the number `i` have another.
  pub others :
      (r : Allocation) (i : ℕ) (rows : List Allocation)
      → r.id ≡ i
      → All (λ b. allocations_clash lower r b ≡ false) rows
      → All (λ b. (b.id == i) ≡ false) rows
  others r i rows e h =
      All-map rows (λ b free. ap (λ k. b.id == k) (sym e) ∙ id_of_clash r b free) h

  head_other :
      {identity : Option ℕ} {a : Allocation} (r : Allocation) (i : ℕ) (rows : List Allocation)
      → All (λ b. allocations_clash lower r b ≡ false) rows
      → Any (IsRow i identity a) rows
      → (r.id == i) ≡ false
  head_other r i rows h m = Any-elim (λ b (free, row). flipped b free row.row_id) (All-Any h m)
    where
      flipped :
          (b : Allocation) → allocations_clash lower r b ≡ false → b.id ≡ i → (r.id == i) ≡ false
      flipped b free e = ground (arith, id_of_clash r b free)

  -- Linking the one row with the number `i` takes its points from what waits for its identity.
  pub pending_points-link :
      (g i n : ℕ) (identity : Option ℕ) (a : Allocation) (rows : List Allocation)
      → Distinct lower rows
      → Any (IsRow i identity a) rows
      → pending_points g (link i n rows) + (if g == a.github_id then a.award.points else 0)
        ≡ pending_points g rows
  unfolding pending_points
  pending_points-link g i n identity a [] d m = elim m [ ]
  pending_points-link g i n identity a (r ∷ rows) d (here row) = ground (
    arith,
    row.is_row,
    row.row_id,
    row.pending,
    pending_points-link_other g i n rows (others r i rows row.row_id d.0),
  )
  pending_points-link g i n identity a (r ∷ rows) d (there m) =
      ground (arith, pending_points-link g i n identity a rows d.1 m, head_other r i rows d.0 m)
