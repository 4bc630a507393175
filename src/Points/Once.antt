-- ===== src/Points/Once.antt =====
-- The ledger entries that award one published bounty.
use gitbounty.Base.{
  ℕ, ◌+◌, ◌≤◌, ◌<◌, ◌≡◌, sym, ◌∙◌, Bool, true, Option, none, some, List, [], ◌∷◌, ◌&&◌, arith, All,
  Any-elim, Bool-cases, inl, inr, if◌then◌else◌,
}
use gitbounty.Text.{Text, text_eq_iff}
use gitbounty.Points.{
  User, Kind, Entry, Allocation, is_award, kind_eq, allocations_clash, lower_eq, sql_eq,
}
use gitbounty.Points.Sound.{Covers, Backed, IsNumbered, Distinct, one_row}

module _ (lower : Text → Text) where
  -- An entry that awards the bounty of an issue.
  abbrev pub awards : Text → ℕ → Entry → Bool
  awards repo number e =
      kind_eq e.kind Kind.bounty_award
      && lower_eq lower e.bounty_repo_full_name (some repo)
      && sql_eq e.bounty_issue_number (some number)

  -- The entries that do.
  abbrev pub awards_of : Text → ℕ → List Entry → ℕ
  awards_of repo number [] = 0
  awards_of repo number (e ∷ es) =
      (if awards repo number e then 1 else 0) + awards_of repo number es

  awards-is_award :
      (repo : Text) (number : ℕ) (e : Entry) → awards repo number e ≡ true → is_award e.kind ≡ true
  awards-is_award repo number e h = ground arith

  awards-kind :
      (repo : Text) (number : ℕ) (e : Entry)
      → awards repo number e ≡ true
      → e.kind ≡ Kind.bounty_award
  awards-kind repo number e h = ground arith

  awards-repo :
      (repo : Text) (number : ℕ) (e : Entry)
      → awards repo number e ≡ true
      → lower_eq lower e.bounty_repo_full_name (some repo) ≡ true
  awards-repo repo number e h = ground arith

  awards-number :
      (repo : Text) (number : ℕ) (e : Entry)
      → awards repo number e ≡ true
      → sql_eq e.bounty_issue_number (some number) ≡ true
  awards-number repo number e h = ground arith

  lower_eq-meet :
      (s t : Option Text) (r : Text)
      → lower_eq lower s (some r) ≡ true
      → lower_eq lower t (some r) ≡ true
      → lower_eq lower s t ≡ true
  lower_eq-meet none t r h k = absurd (ground arith)
  lower_eq-meet (some s) none r h k = absurd (ground arith)
  lower_eq-meet (some s) (some t) r h k =
      (text_eq_iff (lower s) (lower t)).1
        ((text_eq_iff (lower s) (lower r)).0 h ∙ sym ((text_eq_iff (lower t) (lower r)).0 k))

  sql_eq-meet :
      (m n : Option ℕ) (i : ℕ)
      → sql_eq m (some i) ≡ true
      → sql_eq n (some i) ≡ true
      → sql_eq m n ≡ true
  sql_eq-meet m n i h k = ground arith

  clash_of_bounty :
      (users : List User) (e f : Entry)
      → e.kind ≡ Kind.bounty_award
      → f.kind ≡ Kind.bounty_award
      → lower_eq lower e.bounty_repo_full_name f.bounty_repo_full_name ≡ true
      → sql_eq e.bounty_issue_number f.bounty_issue_number ≡ true
      → (a b : Allocation) → Covers users e a
      → Covers users f b
      → allocations_clash lower a b ≡ true
  unfolding allocations_clash
  clash_of_bounty users e f h k r n a b c d = ground arith

  module _ (repo : Text) (number : ℕ) (users : List User) (rows : List Allocation)
      (distinct : Distinct lower rows) where
    clash_of_awards :
        (e f : Entry)
        → awards repo number e ≡ true
        → awards repo number f ≡ true
        → (a b : Allocation) → Covers users e a
        → Covers users f b
        → allocations_clash lower a b ≡ true
    clash_of_awards e f h k =
        clash_of_bounty users e f (awards-kind repo number e h) (awards-kind repo number f k)
          (lower_eq-meet e.bounty_repo_full_name f.bounty_repo_full_name repo
            (awards-repo repo number e h) (awards-repo repo number f k))
          (sql_eq-meet e.bounty_issue_number f.bounty_issue_number number
            (awards-number repo number e h) (awards-number repo number f k))

    -- Two of them are the credit of one reservation, so that they have one number.
    one_number :
        (e f : Entry)
        → awards repo number e ≡ true
        → awards repo number f ≡ true
        → Backed lower users rows e
        → Backed lower users rows f
        → e.id ≡ f.id
    one_number e f h k b c =
        Any-elim (λ a (p, q). injective (sym p.linked ∙ q.linked))
          (one_row lower (clash_of_awards e f h k) rows distinct
            (b (awards-is_award repo number e h)) (c (awards-is_award repo number f k)))
      where
        injective : {m n : ℕ} → some m ≡ some n → m ≡ n
        injective p = cc

    none_more :
        (e : Entry) (es : List Entry)
        → awards repo number e ≡ true
        → Backed lower users rows e
        → All (λ f. e.id < f.id) es
        → All (Backed lower users rows) es
        → awards_of repo number es ≡ 0
    none_more e [] h b apart backed = omega arith
    none_more e (f ∷ es) h b apart backed = elim (Bool-cases (awards repo number f)) [
      | inl k ↦
          absurd
            (let same : e.id ≡ f.id = one_number e f h k b backed.0 in omega (arith, same, apart.0))
      | inr other ↦ rw other (omega (arith, none_more e es h b apart.1 backed.1))
    ]

    pub awards_of-le_one :
        (n : ℕ) (es : List Entry)
        → IsNumbered n es
        → All (Backed lower users rows) es
        → awards_of repo number es ≤ 1
    awards_of-le_one n [] h backed = omega arith
    awards_of-le_one n (e ∷ es) h backed = elim (Bool-cases (awards repo number e)) [
      | inl k ↦ rw k (omega (arith, none_more e es k backed.0 h.1 backed.1))
      | inr other ↦ rw other (omega (arith, awards_of-le_one n es h.2 backed.1))
    ]
