-- ===== src/Moderation/Withdraw.antt =====
-- `_withdraw_award` of routes/moderation.py: what it writes to the ledger.
use mathlib.Core.List.{reverse, reverse-cons, reverse-append}
use gitbounty.Base.{
  ℕ, suc, ◌≡◌, refl, ap, ◌∙◌, Bool, true, false, List, [], ◌∷◌, ◌++◌, ◌==◌, is_some, any,
  Bool-cases, inl, inr, if◌then◌else◌,
}
use gitbounty.Base.Int.{pos, negate, ltb_ℤ, ◌+ℤ◌}
use gitbounty.Text.{Text, strip, strip_left, Unicode}
use gitbounty.Points.{Entry, Db, entries_clash}
use gitbounty.Points.Users.{github_id_of}
use gitbounty.Points.Ledger.{adjustment_entry, entry_is_allowed, record_adjustment, total_points}
use gitbounty.Points.Gain.{sum_points-append}
use gitbounty.Moderation.{already_void, withdrawal, withdraw_entry}
use gitbounty.Moderation.Flags.{done, Flag}

module _ (p : ℕ → Bool) where
  strip_left-snoc :
      (c : ℕ) → p c ≡ false → (s : Text) → (t : Text) × (strip_left p (s ++ c ∷ []) ≡ t ++ c ∷ [])
  strip_left-snoc c h [] = ([], rw h refl)
  strip_left-snoc c h (d ∷ s) = elim (Bool-cases (p d)) [
    | inl e ↦ let (t, f) = strip_left-snoc c h s in (t, rw e f)
    | inr e ↦ (d ∷ s, rw e refl)
  ]

  strip_left-head : (c : ℕ) (s : Text) → p c ≡ false → strip_left p (c ∷ s) ≡ c ∷ s
  strip_left-head c s h = rw (h, strip_left) refl

  -- A text that starts with no space keeps its first character.
  strip-head : (c : ℕ) (s : Text) → p c ≡ false → (t : Text) × (strip p (c ∷ s) ≡ c ∷ t)
  strip-head c s h =
      let (t, e) = strip_left-snoc c h (reverse s) in
      (
        reverse t,
        ap (λ x. reverse (strip_left p (reverse x))) (strip_left-head c s h)
            ∙ ap (λ x. reverse (strip_left p x)) (reverse-cons c s)
            ∙ ap reverse e
            ∙ reverse-append t (c ∷ []),
      )

module _ (u : Unicode) (lower : Text → Text) (flag : Flag) (reason login : Text) where
  module _ (award : Entry) (db : Db) (letter : u.is_space b'A' ≡ false) where
    abbrev pub void : Entry
    void = adjustment_entry u db (withdrawal u flag reason login award)

    void-reason : (t : Text) × (void.reason ≡ b'A' ∷ t)
    void-reason = strip-head u.is_space b'A' _ letter

    void-is_allowed : entry_is_allowed void ≡ true
    unfolding entry_is_allowed
    void-is_allowed = rw (void-reason.1) refl

    void-no_clash : (es : List Entry) → any (entries_clash lower void) es ≡ false
    unfolding entries_clash
    void-no_clash [] = refl
    void-no_clash (e ∷ es) = void-no_clash es

    -- What a withdrawal leaves: one more entry, the award still there, and the account of the award
    -- with its points less; nobody else's points change.
    pub record Withdrawn (db' : Db) : Type 0 where
      pub appended : db'.ledger ≡ db.ledger ++ void ∷ []
      pub balances :
          (user_id : ℕ)
          → total_points user_id db'.ledger
            ≡ total_points user_id db.ledger
              +ℤ (if award.user_id == user_id then negate award.points else pos 0)
      pub others :
          (db'.users ≡ db.users)
          × (db'.allocations ≡ db.allocations)
          × (db'.merged_prs ≡ db.merged_prs)

    -- Where `A` is no white space: the positive award of a known account can be withdrawn if no
    -- void entry of the account and the pull request has the text "entry " and the number of the
    -- award in its reason, which the number of another award may do too. No statement fails, one
    -- entry is appended, the account of the award has exactly its points less and nobody else's
    -- points change.
    pub withdraw_entry_lem :
        ltb_ℤ (pos 0) award.points ≡ true
        → already_void award db.ledger ≡ false
        → is_some (github_id_of db.users award.user_id) ≡ true
        → (db' : Db) × (withdraw_entry u lower flag reason login award db
            ≡ done (db', db.next_entry))
          × Withdrawn db'
    withdraw_entry_lem positive free known = (
      record db { ledger = db.ledger ++ void ∷ []; next_entry = suc db.next_entry },
      written,
      record {
        appended = refl;
        balances = λ v. unfold total_points in sum_points-append _ db.ledger void;
        others = (refl, refl, refl);
      },
    )
      where
        written :
            withdraw_entry u lower flag reason login award db
            ≡ done (
              record db { ledger = db.ledger ++ void ∷ []; next_entry = suc db.next_entry },
              db.next_entry,
            )
        written =
            unfold withdraw_entry record_adjustment in
            rw (positive, free, known, void-is_allowed, void-no_clash db.ledger, void-reason.1) refl
