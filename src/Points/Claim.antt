-- ===== src/Points/Claim.antt =====
-- `claim_points` of features/points/allocations.py in sound tables.
use gitbounty.Base.{
  ℕ, ◌+◌, ◌≡◌, refl, sym, ap, ◌∙◌, Bool, true, false, some, List, [], ◌∷◌, ◌==◌, ◌&&◌, arith, All,
  Any, Any-elim, subst, ==_iff, Bool-cases, inl, inr, if◌then◌else◌,
}
use gitbounty.Base.Int.{ℤ, pos, ◌+ℤ◌, int_laws}
use gitbounty.Text.{Text}
use gitbounty.Points.{Allocation, Db}
use gitbounty.Points.Result.{Result, ok, ◌>>=◌}
use gitbounty.Points.Users.{github_id_of, user_id_of}
use gitbounty.Points.Ledger.{award_entry, total_points}
use gitbounty.Points.Allocations.{
  is_pending, link, pending_row, pending_ids, pending_points, credit, credit_all, claim_points,
}
use gitbounty.Points.Sound.{Distinct, IsSound}
use gitbounty.Points.Credit.{IsRow, credited, pending_row-found, credit_row-eq, credited-IsSound}
use gitbounty.Points.Gain.{others, sum_points-append, pending_points-link, +ℤ-zero}

pending_ids-nil :
    (g : ℕ) (rows : List Allocation) → pending_ids g rows ≡ [] → pending_points g rows ≡ 0
unfolding pending_ids pending_points
pending_ids-nil g [] h = refl
pending_ids-nil g (r ∷ rows) h = ground (arith, pending_ids-nil g rows)

pending_ids-link_other :
    (g i n : ℕ) (rows : List Allocation)
    → All (λ b. (b.id == i) ≡ false) rows
    → pending_ids g (link i n rows) ≡ pending_ids g rows
unfolding pending_ids
pending_ids-link_other g i n [] h = refl
pending_ids-link_other g i n (r ∷ rows) h =
    rw h.0 (ground (arith, pending_ids-link_other g i n rows h.1))

module _ (lower : Text → Text) where
  -- The first of the rows that wait is found by its number, and linking it leaves the others.
  pending_ids-cons :
      (g i n : ℕ) (is : List ℕ) (rows : List Allocation)
      → pending_ids g rows ≡ i ∷ is
      → Distinct lower rows
      → (a : Allocation) × (pending_row i (some g) rows ≡ some a)
        × (pending_ids g (link i n rows) ≡ is)
  unfolding pending_ids pending_row
  pending_ids-cons g i n is [] h d = absurd (ground arith)
  pending_ids-cons g i n is (r ∷ rows) h d = elim (Bool-cases (r.github_id == g && is_pending r)) [
    | inl e ↦
        let same : r.id ≡ i = ground arith in
        (
          r,
          ground arith,
          ground (arith, pending_ids-link_other g i n rows (others lower r i rows same d.0)),
        )
    | inr e ↦
        let (a, found, rest) = pending_ids-cons g i n is rows (ground arith) d.1 in
        (a, ground arith, ground arith)
  ]

  -- What a claim leaves: sound tables, nothing that waits for the identity, and the points that
  -- waited for it credited to the account. Nobody else's points change.
  pub record Claimed (user_id github_id points : ℕ) (db db' : Db) : Type 0 where
    pub sound : IsSound lower db'
    pub same_users : db'.users ≡ db.users
    pub credited_points :
        (v : ℕ)
        → total_points v db'.ledger
          ≡ total_points v db.ledger +ℤ pos (if user_id == v then points else 0)
    pub waiting_points :
        (g : ℕ)
        → pending_points g db'.allocations
          ≡ (if g == github_id then 0 else pending_points g db.allocations)

  module _ (user_id github_id : ℕ) where
    abbrev Owned : Db → Type 0
    Owned db = github_id_of db.users user_id ≡ some github_id

    Claimed-none :
        (db : Db)
        → IsSound lower db
        → pending_points github_id db.allocations ≡ 0
        → Claimed user_id github_id 0 db db
    Claimed-none db sound h = record {
      sound = sound;
      same_users = refl;
      credited_points = λ v. nothing (user_id == v) (total_points v db.ledger);
      waiting_points = λ g. elim (Bool-cases (g == github_id)) [
        | inl e ↦ rw e (ap (λ k. pending_points k db.allocations) ((==_iff g github_id).0 e) ∙ h)
        | inr e ↦ rw e refl
      ];
    }
      where
        nothing : (b : Bool) (x : ℤ) → x ≡ x +ℤ pos (if b then 0 else 0)
        nothing true x = sym (+ℤ-zero x)
        nothing false x = sym (+ℤ-zero x)

    module _ (db : Db) (sound : IsSound lower db) (owned : Owned db) (i : ℕ) (a : Allocation)
        (row : pending_row i (some github_id) db.allocations ≡ some a) where
      by_number : Any (IsRow i (github_id_of db.users user_id) a) db.allocations
      by_number = rw owned (pending_row-found i (some github_id) db.allocations a row)

      row_number : a.id ≡ i
      row_number =
          Any-elim (λ b r. ap (λ (x : Allocation). x.id) (sym r.is_row) ∙ r.row_id) by_number

      row_owner : a.github_id ≡ github_id
      row_owner = Any-elim (λ b r. ground (arith, r.is_row, r.owner, owned)) by_number

      found : Any (IsRow a.id (github_id_of db.users user_id) a) db.allocations
      found =
          subst (λ n. Any (IsRow n (github_id_of db.users user_id) a) db.allocations)
            (sym row_number) by_number

      row_of_account : pending_row i (github_id_of db.users user_id) db.allocations ≡ some a
      row_of_account = rw owned row

      credit-eq : credit lower i user_id db ≡ ok (credited db user_id a, a.award.points)
      unfolding credit
      credit-eq = rw (row_of_account, credit) (credit_row-eq lower sound user_id a found)

      -- One round: the points of the row go from what waits for the identity to the account.
      credited_one :
          (v : ℕ)
          → total_points v (credited db user_id a).ledger
            ≡ total_points v db.ledger +ℤ pos (if user_id == v then a.award.points else 0)
      unfolding total_points
      credited_one v =
          sum_points-append (λ e. e.user_id == v) db.ledger (award_entry db user_id a.award)
          ∙ ap (λ k. total_points v db.ledger +ℤ k) (ground arith)

      waiting_one :
          (g : ℕ)
          → pending_points g (credited db user_id a).allocations
              + (if g == github_id then a.award.points else 0)
            ≡ pending_points g db.allocations
      waiting_one g = ground (
        arith,
        row_owner,
        pending_points-link lower g a.id db.next_entry (github_id_of db.users user_id) a
            db.allocations sound.distinct found,
      )

      Claimed-cons :
          (n : ℕ) (db' : Db)
          → Claimed user_id github_id n (credited db user_id a) db'
          → Claimed user_id github_id (a.award.points + n) db db'
      Claimed-cons n db' h = record {
        sound = h.sound;
        same_users = h.same_users;
        credited_points = λ v.
            sums (user_id == v) (total_points v db.ledger) _ _ (credited_one v)
              (h.credited_points v);
        waiting_points = λ g. ground (arith, h.waiting_points g, waiting_one g);
      }
        where
          sums :
              (b : Bool) (x y z : ℤ)
              → y ≡ x +ℤ pos (if b then a.award.points else 0)
              → z ≡ y +ℤ pos (if b then n else 0)
              → z ≡ x +ℤ pos (if b then a.award.points + n else 0)
          sums true x y z p q = rw (q, p) (omega int_laws)
          sums false x y z p q = rw (q, p) (omega int_laws)

    credit_all-Claimed :
        (is : List ℕ) (points : ℕ) (db : Db)
        → IsSound lower db
        → Owned db
        → pending_ids github_id db.allocations ≡ is
        → (db' : Db) × (credit_all lower is user_id points db
            ≡ ok (db', points + pending_points github_id db.allocations))
          × Claimed user_id github_id (pending_points github_id db.allocations) db db'
    unfolding credit_all
    credit_all-Claimed [] points db sound owned h =
        let e = pending_ids-nil github_id db.allocations h in
        (db, rw e (ap (λ n. ok (db, n)) (omega arith)), rw e (Claimed-none db sound e))
    credit_all-Claimed (i ∷ is) points db sound owned h =
        let (a, row, rest) =
          pending_ids-cons github_id i db.next_entry is db.allocations h sound.distinct in
        let f = found db sound owned i a row in
        let n = a.award.points in
        let left = credited db user_id a in
        let (db', e, c) =
          credit_all-Claimed is (points + n) left (credited-IsSound lower sound user_id a f) owned (
            ap (λ m. pending_ids github_id (link m db.next_entry db.allocations))
              (row_number db sound owned i a row)
            ∙ rest) in
        let total : n + pending_points github_id left.allocations
            ≡ pending_points github_id db.allocations =
          ground (arith, waiting_one db sound owned i a row github_id) in
        (
          db',
          ap (λ (r : Result (Db × ℕ)). r >>= (λ c. credit_all lower is user_id (points + c.1) c.0))
                (credit-eq db sound owned i a row)
              ∙ e
              ∙ ap (λ m. ok (db', m)) (omega (arith, total)),
          subst (λ m. Claimed user_id github_id m db db') total
              (Claimed-cons db sound owned i a row _ db' c),
        )

    -- In sound tables an account that claims is credited exactly what waits for its GitHub identity:
    -- no statement raises, the tables stay sound, nothing waits afterwards, and nobody else's points
    -- change.
    pub claim_points_lem :
        (db : Db)
        → IsSound lower db
        → user_id_of db.users github_id ≡ some user_id
        → Owned db
        → (db' : Db) × (claim_points lower github_id db
            ≡ ok (db', pending_points github_id db.allocations))
          × Claimed user_id github_id (pending_points github_id db.allocations) db db'
    unfolding claim_points
    claim_points_lem db sound known owned =
        let (db', e, c) =
          credit_all-Claimed (pending_ids github_id db.allocations) 0 db sound owned refl in
        (db', rw (known, claim_points) (e ∙ ap (λ m. ok (db', m)) (omega arith)), c)
