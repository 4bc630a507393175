-- ===== src/Points/Sound.antt =====
-- The invariant of the tables: no two reservations clash, the maintainers that their awards name are
-- users, the numbers of the ledger's entries grow, and every award in the ledger is one reservation's,
-- which points back at it.
use gitbounty.Base.{
  ℕ, suc, ◌++◌, All-append, ◌<◌, ◌≡◌, refl, ◌∙◌, Bool, true, false, Option, none, some, List, [],
  ◌∷◌, ◌&&◌, ◌||◌, arith, All, Any, here, there, All-Any, Any-elim, is_some, ltb,
}
use gitbounty.Text.{Text, text_eq_sym}
use gitbounty.Points.{
  Kind, User, Award, Entry, Allocation, Db, is_award, kind_eq, lower_eq, allocations_clash,
}
use gitbounty.Points.Users.{github_id_of}
use gitbounty.Points.Ledger.{is_null_or_user}

-- The ledger entry `e` is the credit of the reservation `a`.
pub record Covers (users : List User) (e : Entry) (a : Allocation) : Type 0 where
  pub linked : a.ledger_entry_id ≡ some e.id
  pub kind : e.kind ≡ a.kind
  pub pr : e.github_pr_id ≡ some a.github_pr_id
  pub repo : e.bounty_repo_full_name ≡ a.bounty_repo_full_name
  pub number : e.bounty_issue_number ≡ a.bounty_issue_number
  pub owner : github_id_of users e.user_id ≡ some a.github_id

-- An award that the constraints of both tables admit.
abbrev pub is_complete : Award → Bool
is_complete a =
    ltb 0 a.points
    && (kind_eq a.kind Kind.baseline_award
        || kind_eq a.kind Kind.bounty_award
          && is_some a.bounty_repo_full_name
          && is_some a.bounty_issue_number
          && is_some a.bounty_points_at_award)

-- The columns of a reservation are those of its award.
pub record IsFormed (a : Allocation) : Type 0 where
  pub same_kind : a.award.kind ≡ a.kind
  pub same_pr : a.award.github_pr_id ≡ a.github_pr_id
  pub same_repo : a.award.bounty_repo_full_name ≡ a.bounty_repo_full_name
  pub same_number : a.award.bounty_issue_number ≡ a.bounty_issue_number
  pub complete : is_complete a.award ≡ true

-- The maintainer of the award is a user, or there is none.
abbrev pub IsOfUser : List User → Allocation → Type 0
IsOfUser users a = is_null_or_user users a.award.maintainer_user_id ≡ true

-- The numbers of the entries grow along the ledger, and are below the next one.
abbrev pub IsNumbered : ℕ → List Entry → Type 0
IsNumbered n [] = Unit
IsNumbered n (e ∷ es) = (e.id < n) × All (λ f. e.id < f.id) es × IsNumbered n es

pub IsNumbered-snoc :
    (n : ℕ) (es : List Entry) (e : Entry)
    → e.id ≡ n
    → IsNumbered n es
    → IsNumbered (suc n) (es ++ e ∷ [])
IsNumbered-snoc n [] e same h = (omega (arith, same), tt, tt)
IsNumbered-snoc n (x ∷ es) e same h = (
  omega (arith, h.0),
  All-append _ es (e ∷ []) h.1 (omega (arith, same, h.0), tt),
  IsNumbered-snoc n es e same h.2,
)

module _ (lower : Text → Text) where
  abbrev pub Distinct : List Allocation → Type 0
  Distinct [] = Unit
  Distinct (a ∷ rows) = All (λ b. allocations_clash lower a b ≡ false) rows × Distinct rows

  abbrev pub Backed : List User → List Allocation → Entry → Type 0
  Backed users rows e = is_award e.kind ≡ true → Any (Covers users e) rows

  pub record IsSound (db : Db) : Type 0 where
    pub distinct : Distinct db.allocations
    pub fresh : All (λ a. a.id < db.next_allocation) db.allocations
    pub formed : All IsFormed db.allocations
    pub known : All (IsOfUser db.users) db.allocations
    pub numbered : IsNumbered db.next_entry db.ledger
    pub backed : All (Backed db.users db.allocations) db.ledger

  kind_eq_sym : (a b : Kind) → kind_eq a b ≡ kind_eq b a
  kind_eq_sym a b = ground arith

  lower_eq_sym : (s t : Option Text) → lower_eq lower s t ≡ lower_eq lower t s
  lower_eq_sym (some s) (some t) = text_eq_sym (lower s) (lower t)
  lower_eq_sym none none = refl
  lower_eq_sym none (some t) = refl
  lower_eq_sym (some s) none = refl

  pub allocations_clash_sym :
      (a b : Allocation) → allocations_clash lower a b ≡ allocations_clash lower b a
  unfolding allocations_clash
  allocations_clash_sym a b = ground (
    arith,
    kind_eq_sym a.kind b.kind,
    lower_eq_sym a.bounty_repo_full_name b.bounty_repo_full_name,
  )

  -- Of rows that do not clash, two that would clash are one row.
  pub one_row :
      {P Q : Allocation → Type 0}
      (clash : (a b : Allocation) → P a → Q b → allocations_clash lower a b ≡ true)
      (rows : List Allocation)
      → Distinct rows
      → Any P rows
      → Any Q rows
      → Any (λ a. P a × Q a) rows
  one_row clash [] d m k = elim m [ ]
  one_row clash (a ∷ rows) d (here p) (here q) = here (p, q)
  one_row clash (a ∷ rows) d (here p) (there m) =
      absurd (Any-elim (λ b (free, q). contradiction free (clash a b p q)) (All-Any d.0 m))
    where
      contradiction : {x : Bool} → x ≡ false → x ≡ true → ⊥
      contradiction e f = cc
  one_row clash (a ∷ rows) d (there m) (here q) = absurd (
      Any-elim (λ b (free, p). contradiction free (allocations_clash_sym a b ∙ clash b a p q))
        (All-Any d.0 m))
    where
      contradiction : {x : Bool} → x ≡ false → x ≡ true → ⊥
      contradiction e f = cc
  one_row clash (a ∷ rows) d (there m) (there k) = there (one_row clash rows d.1 m k)
