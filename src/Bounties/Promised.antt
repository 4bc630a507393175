-- ===== src/Bounties/Promised.antt =====
-- What publishing and editing leave of the promises: the reward mode of a bounty and its terms.
use gitbounty.Base.{
  ℕ, suc, ◌≤◌, ◌<◌, ◌≡◌, refl, ◌∙◌, Bool, false, Option, none, some, List, [], ◌∷◌, ◌++◌, ◌==◌, any,
  map, arith, All, All-append, All-map, All-of_map, if◌then◌else◌,
}
use gitbounty.Bounties.{mode_eq}
use gitbounty.Bounties.Rows.{
  Board, Bounty, PaymentTerms, EscrowTerms, points_only, legacy_payment, escrow,
}
use gitbounty.Bounties.Publish.Stakes.{find_terms}

abbrev pub has_payment : ℕ → List PaymentTerms → Bool
has_payment id ts = any (λ t. t.bounty_id == id) ts

abbrev pub has_escrow : ℕ → List EscrowTerms → Bool
has_escrow id ts = any (λ t. t.bounty_id == id) ts

-- The mode of a bounty says which terms it has.
abbrev pub Agrees : List PaymentTerms → List EscrowTerms → Bounty → Type 0
Agrees ps es b =
    (has_payment b.id ps ≡ mode_eq b.reward_mode legacy_payment)
    × (has_escrow b.id es ≡ mode_eq b.reward_mode escrow)

pub record Promised (next : ℕ) (bs : List Bounty) (ps : List PaymentTerms) (es : List EscrowTerms)
    : Type 0 where
  pub fresh : All (λ b. b.id < next) bs
  pub fresh_payments : All (λ t. t.bounty_id < next) ps
  pub fresh_escrows : All (λ t. t.bounty_id < next) es
  pub agrees : All (Agrees ps es) bs

abbrev pub IsPromised : Board → Type 0
IsPromised s = Promised s.next_bounty s.bounties s.payment_terms s.escrow_terms

abbrev pub find_escrow : ℕ → List EscrowTerms → Option EscrowTerms
find_escrow id [] = none
find_escrow id (t ∷ ts) = if t.bounty_id == id then some t else find_escrow id ts

-- The bounties below a number keep their terms.
pub record Keeps (base : ℕ) (s s' : Board) : Type 0 where
  pub more : s.next_bounty ≤ s'.next_bounty
  pub payments : (i : ℕ) → i < base → find_terms i s'.payment_terms ≡ find_terms i s.payment_terms
  pub escrows : (i : ℕ) → i < base → find_escrow i s'.escrow_terms ≡ find_escrow i s.escrow_terms

abbrev pub Kept : ℕ → Board → Board → Type 0
Kept base s s' = IsPromised s' × Keeps base s s'

pub Keeps-refl : (base : ℕ) (s : Board) → Keeps base s s
Keeps-refl base s = record { more = omega arith; payments = λ i h. refl; escrows = λ i h. refl }

pub Keeps-trans :
    (base : ℕ) (s s' s'' : Board) → Keeps base s s' → Keeps base s' s'' → Keeps base s s''
Keeps-trans base s s' s'' h k = record {
  more = omega (arith, h.more, k.more);
  payments = λ i l. k.payments i l ∙ h.payments i l;
  escrows = λ i l. k.escrows i l ∙ h.escrows i l;
}

-- Bounties that are changed but for their number and mode, and a new one without terms.
pub Agrees-same :
    (ps : List PaymentTerms) (es : List EscrowTerms) (b c : Bounty)
    → c.id ≡ b.id
    → c.reward_mode ≡ b.reward_mode
    → Agrees ps es b
    → Agrees ps es c
Agrees-same ps es b c h k a = rw (h, k) a

fresh-has_payment :
    (next : ℕ) (ps : List PaymentTerms)
    → All (λ t. t.bounty_id < next) ps
    → has_payment next ps ≡ false
fresh-has_payment next [] h = refl
fresh-has_payment next (t ∷ ps) h = ground (arith, fresh-has_payment next ps h.1)

fresh-has_escrow :
    (next : ℕ) (es : List EscrowTerms)
    → All (λ t. t.bounty_id < next) es
    → has_escrow next es ≡ false
fresh-has_escrow next [] h = refl
fresh-has_escrow next (t ∷ es) h = ground (arith, fresh-has_escrow next es h.1)

pub All-< :
    {A : Type 0} (f : A → ℕ) (n m : ℕ) (xs : List A)
    → n ≤ m
    → All (λ x. f x < n) xs
    → All (λ x. f x < m) xs
All-< f n m xs l h = All-map xs (λ x p. omega (arith, p)) h

pub mapped-Promised :
    (f : Bounty → Bounty) (s : Board)
    → ((b : Bounty) → ((f b).id ≡ b.id) × ((f b).reward_mode ≡ b.reward_mode))
    → IsPromised s
    → Promised s.next_bounty (map f s.bounties) s.payment_terms s.escrow_terms
mapped-Promised f s same h = record {
  fresh = All-of_map _ f s.bounties (λ b l. omega (arith, (same b).0)) h.fresh;
  fresh_payments = h.fresh_payments;
  fresh_escrows = h.fresh_escrows;
  agrees =
      All-of_map _ f s.bounties (λ b a. Agrees-same _ _ b (f b) (same b).0 (same b).1 a) h.agrees;
}

pub new-Promised :
    (s : Board) (b : Bounty)
    → b.id ≡ s.next_bounty
    → b.reward_mode ≡ points_only
    → IsPromised s
    → Promised (suc s.next_bounty) (s.bounties ++ b ∷ []) s.payment_terms s.escrow_terms
new-Promised s b e m h = record {
  fresh =
      All-append _ s.bounties (b ∷ []) (All-< _ _ _ s.bounties (omega arith) h.fresh)
        (omega arith, tt);
  fresh_payments = All-< _ _ _ s.payment_terms (omega arith) h.fresh_payments;
  fresh_escrows = All-< _ _ _ s.escrow_terms (omega arith) h.fresh_escrows;
  agrees = All-append _ s.bounties (b ∷ []) h.agrees (
    rw (e, m)
        (
          fresh-has_payment s.next_bounty _ h.fresh_payments,
          fresh-has_escrow s.next_bounty _ h.fresh_escrows,
        ),
    tt,
  );
}
