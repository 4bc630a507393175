-- ===== src/Points/Credit.antt =====
-- `credit` of features/points/allocations.py in sound tables: the ledger entry that it writes.
use gitbounty.Base.{
  ℕ, suc, ◌≡◌, refl, sym, ap, ◌∙◌, true, false, Option, none, some, List, [], ◌∷◌, ◌++◌, ◌&&◌, ◌==◌,
  arith, Any, here, there, All-Any, All-map, All-append, All-of_map, Any-of_map, Any-elim,
  Any-Split, any, Bool-cases, inl, inr, All→any-false,
}
use gitbounty.Text.{Text}
use gitbounty.Points.{
  User, Award, Entry, Allocation, Db, is_award, sql_eq, allocations_clash, entries_clash,
}
use gitbounty.Points.Result.{ok}
use gitbounty.Points.Users.{github_id_of}
use gitbounty.Points.Ledger.{is_null_or_user, insert_entry, entry_is_allowed, award_entry}
use gitbounty.Points.Allocations.{
  is_pending, pending_row, link, relink, credit_row, insert_merged_row, award_merged_row,
}
use gitbounty.Points.Sound.{
  Covers, is_complete, IsFormed, IsOfUser, IsNumbered-snoc, Distinct, Backed, IsSound, one_row,
}

-- The row that `pending_row` finds for an account.
pub record IsRow (i : ℕ) (identity : Option ℕ) (a b : Allocation) : Type 0 where
  pub is_row : b ≡ a
  pub row_id : b.id ≡ i
  pub pending : b.ledger_entry_id ≡ none
  pub owner : identity ≡ some b.github_id

pub pending_row-found :
    (i : ℕ) (identity : Option ℕ) (rows : List Allocation) (a : Allocation)
    → pending_row i identity rows ≡ some a
    → Any (IsRow i identity a) rows
unfolding pending_row
pending_row-found i identity [] a h = cc
pending_row-found i identity (r ∷ rows) a h =
    elim (Bool-cases (r.id == i && is_pending r && sql_eq (some r.github_id) identity)) [
      | inl found ↦ here (record {
        is_row = ground arith;
        row_id = ground arith;
        pending = ground arith;
        owner = ground arith;
      })
      | inr other ↦ there (pending_row-found i identity rows a (ground arith))
    ]

-- The tables after the credit of `a`.
abbrev pub credited : Db → ℕ → Allocation → Db
credited db user_id a = record db {
  ledger = db.ledger ++ award_entry db user_id a.award ∷ [];
  next_entry = suc db.next_entry;
  allocations = link a.id db.next_entry db.allocations;
  merged_prs = insert_merged_row (award_merged_row user_id a.award) db.merged_prs;
}

relink-IsFormed : (i n : ℕ) (b : Allocation) → IsFormed b → IsFormed (relink i n b)
relink-IsFormed i n b h = elim (Bool-cases (b.id == i)) [
  | inl same ↦ rw same (record {
    same_kind = h.same_kind;
    same_pr = h.same_pr;
    same_repo = h.same_repo;
    same_number = h.same_number;
    complete = h.complete;
  })
  | inr other ↦ rw other h
]

relink-IsOfUser :
    (users : List User) (i n : ℕ) (b : Allocation)
    → IsOfUser users b
    → IsOfUser users (relink i n b)
relink-IsOfUser users i n b h = elim (Bool-cases (b.id == i)) [ inl e ↦ rw e h | inr e ↦ rw e h ]

module _ (lower : Text → Text) where
  relink-clash :
      (i n : ℕ) (x y : Allocation)
      → allocations_clash lower (relink i n x) (relink i n y) ≡ allocations_clash lower x y
  unfolding allocations_clash
  relink-clash i n x y = elim (Bool-cases (x.id == i)) [
    | inl e ↦ elim (Bool-cases (y.id == i)) [ inl f ↦ rw (e, f) | inr f ↦ rw (e, f) ]
    | inr e ↦ elim (Bool-cases (y.id == i)) [ inl f ↦ rw (e, f) | inr f ↦ rw (e, f) ]
  ]

  same_id-clash : (x y : Allocation) → x.id ≡ y.id → allocations_clash lower x y ≡ true
  unfolding allocations_clash
  same_id-clash x y e = ground arith

  -- An entry that would clash with the credit of `a` is the credit of a row that clashes with `a`.
  clash_of_entries :
      (users : List User) (e f : Entry) (a b : Allocation)
      → e.kind ≡ a.kind
      → e.github_pr_id ≡ some a.github_pr_id
      → e.bounty_repo_full_name ≡ a.bounty_repo_full_name
      → e.bounty_issue_number ≡ a.bounty_issue_number
      → github_id_of users e.user_id ≡ some a.github_id
      → Covers users f b
      → entries_clash lower e f ≡ true
      → allocations_clash lower a b ≡ true
  unfolding entries_clash allocations_clash
  clash_of_entries users e f a b k p r n o c h = ground arith

  award_of_clash : (e f : Entry) → entries_clash lower e f ≡ true → is_award f.kind ≡ true
  unfolding entries_clash
  award_of_clash e f h = ground arith

  pub complete-allowed :
      (db : Db) (user_id : ℕ) (w : Award)
      → is_complete w ≡ true
      → entry_is_allowed (award_entry db user_id w) ≡ true
  unfolding entry_is_allowed
  complete-allowed db user_id w h = ground arith

  module _ {db : Db} (sound : IsSound lower db) (user_id : ℕ) (a : Allocation)
      (found : Any (IsRow a.id (github_id_of db.users user_id) a) db.allocations) where
    abbrev Located : Allocation → Type 0
    Located x = IsFormed x × IsRow a.id (github_id_of db.users user_id) a x

    located : Any Located db.allocations
    located = All-Any sound.formed found

    Located-clash :
        (f : Entry)
        → entries_clash lower (award_entry db user_id a.award) f ≡ true
        → (x y : Allocation) → Located x
        → Covers db.users f y
        → allocations_clash lower x y ≡ true
    Located-clash f h x y (formed, row) c =
        clash_of_entries db.users (award_entry db user_id a.award) f x y
          (ap (λ r. r.award.kind) (sym row.is_row) ∙ formed.same_kind)
          (ap (λ r. some r.award.github_pr_id) (sym row.is_row) ∙ ap some formed.same_pr)
          (ap (λ r. r.award.bounty_repo_full_name) (sym row.is_row) ∙ formed.same_repo)
          (ap (λ r. r.award.bounty_issue_number) (sym row.is_row) ∙ formed.same_number) row.owner c
          h

    pending_not_linked : (f : Entry) (x : Allocation) → Located x × Covers db.users f x → ⊥
    pending_not_linked f x ((formed, row), c) = none-ne-some (sym row.pending ∙ c.linked)
      where
        none-ne-some : {n : ℕ} → none ≡ some n → ⊥
        none-ne-some e = cc

    entry-free :
        (f : Entry)
        → Backed lower db.users db.allocations f
        → entries_clash lower (award_entry db user_id a.award) f ≡ false
    entry-free f backed =
        elim (Bool-cases (entries_clash lower (award_entry db user_id a.award) f)) [
          | inl h ↦ absurd (
              Any-elim (pending_not_linked f) (
                one_row lower (Located-clash f h) db.allocations sound.distinct located
                  (backed (award_of_clash (award_entry db user_id a.award) f h))))
          | inr free ↦ free
        ]

    no_clash : any (entries_clash lower (award_entry db user_id a.award)) db.ledger ≡ false
    no_clash = All→any-false _ db.ledger (All-map db.ledger entry-free sound.backed)

    complete : is_complete a.award ≡ true
    complete =
        Any-elim
          (λ x (formed, row). ap (λ r. is_complete r.award) (sym row.is_row) ∙ formed.complete)
          located

    known_user : (g : ℕ) × (github_id_of db.users user_id ≡ some g)
    known_user = Any-elim (λ x (formed, row). (x.github_id, row.owner)) located

    known_maintainer : is_null_or_user db.users a.award.maintainer_user_id ≡ true
    known_maintainer =
        Any-elim
          (λ x (known, row).
            ap (λ r. is_null_or_user db.users r.award.maintainer_user_id) (sym row.is_row) ∙ known)
          (All-Any sound.known found)

    pub credit_row-eq : credit_row lower user_id a db ≡ ok (credited db user_id a, a.award.points)
    unfolding credit_row insert_entry
    credit_row-eq =
        rw (known_user.1, complete-allowed db user_id a.award complete, no_clash, known_maintainer)

    -- The row that covers an earlier entry is not the one that is linked now.
    abbrev Kept : Entry → Allocation → Type 0
    Kept f b = Covers db.users f b × ((b.id == a.id) ≡ false)

    kept : (f : Entry) → Any (Covers db.users f) db.allocations → Any (Kept f) db.allocations
    kept f m = elim (Any-Split _ (λ b. b.id == a.id) m) [
      | inl other ↦ other
      | inr same ↦ absurd (
          Any-elim (λ x (l, (c, e)). pending_not_linked f x (l, c))
            (one_row lower same_id db.allocations sound.distinct located same))
    ]
      where
        same_id :
            (x y : Allocation)
            → Located x
            → Covers db.users f y × ((y.id == a.id) ≡ true)
            → allocations_clash lower x y ≡ true
        same_id x y (formed, row) (c, e) = same_id-clash x y (ground arith)

    linked-Covers :
        (f : Entry) (b : Allocation) → Kept f b → Covers db.users f (relink a.id db.next_entry b)
    linked-Covers f b (c, other) = rw other c

    new-Covers :
        (b : Allocation)
        → Located b
        → Covers db.users (award_entry db user_id a.award) (relink a.id db.next_entry b)
    new-Covers b (formed, row) = record {
      linked = ground arith;
      kind = ground arith;
      pr = ground arith;
      repo = ground arith;
      number = ground arith;
      owner = ground arith;
    }

    relink-Distinct :
        (rows : List Allocation)
        → Distinct lower rows
        → Distinct lower (link a.id db.next_entry rows)
    relink-Distinct [] d = tt
    relink-Distinct (x ∷ rows) d = (
      All-of_map _ (relink a.id db.next_entry) rows (λ y h. relink-clash a.id db.next_entry x y ∙ h)
          d.0,
      relink-Distinct rows d.1,
    )

    pub credited-IsSound : IsSound lower (credited db user_id a)
    credited-IsSound = record {
      distinct = relink-Distinct db.allocations sound.distinct;
      fresh =
          All-of_map _ (relink a.id db.next_entry) db.allocations (λ b h. ground arith) sound.fresh;
      formed =
          All-of_map _ (relink a.id db.next_entry) db.allocations
            (relink-IsFormed a.id db.next_entry) sound.formed;
      known =
          All-of_map _ (relink a.id db.next_entry) db.allocations
            (relink-IsOfUser db.users a.id db.next_entry) sound.known;
      numbered =
          IsNumbered-snoc db.next_entry db.ledger (award_entry db user_id a.award) refl
            sound.numbered;
      backed =
          All-append _ db.ledger _
            (All-map db.ledger
              (λ f bk h. Any-of_map _ (relink a.id db.next_entry) (linked-Covers f) (kept f (bk h)))
              sound.backed)
            ((λ h. Any-of_map _ (relink a.id db.next_entry) new-Covers located), tt);
    }
