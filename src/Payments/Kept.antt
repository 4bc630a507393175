-- ===== src/Payments/Kept.antt =====
-- What each route does to the payments and the claims.
use gitbounty.Base.{
  ℕ, ◌≡◌, refl, subst, Bool, true, false, Option, none, some, List, [], ◌∷◌, ◌++◌, inl, inr, arith,
  Any, Bool-cases,
}
use gitbounty.Text.{Text}
use gitbounty.Bounties.Then.{Then}
use gitbounty.Payments.{Claim, Payment, demand, found}
use gitbounty.Payments.Encoding.{Crypto}
use gitbounty.Payments.Evidence.{
  Log, Receipt, success_flag, is_transfer, verdict, scan_receipt, verify_receipt,
}
use gitbounty.Payments.Prepare.{find_claim}
use gitbounty.Payments.Confirm.{settled}

pub demand-Then : (b : Bool) (code : ℕ) → Then (λ _. b ≡ true) (demand b code)
demand-Then true code = refl
demand-Then false code = tt

pub found-Then : {A : Type 0} (code : ℕ) (o : Option A) → Then (λ a. o ≡ some a) (found code o)
found-Then code none = tt
found-Then code (some a) = refl

pub find_claim-wanted :
    (wanted : Claim → Bool) (cs : List Claim) (c : Claim)
    → find_claim wanted cs ≡ some c
    → wanted c ≡ true
unfolding find_claim
find_claim-wanted wanted [] c e = absurd (ground arith)
find_claim-wanted wanted (d ∷ cs) c e = elim (Bool-cases (wanted d)) [
  | inl here ↦ subst (λ x. wanted x ≡ true) (ground arith) here
  | inr later ↦ find_claim-wanted wanted cs c (ground arith)
]

pub find_claim-Any :
    (P : Claim → Type 0) (wanted : Claim → Bool) (cs : List Claim) (c : Claim)
    → find_claim wanted cs ≡ some c
    → P c
    → Any P cs
unfolding find_claim
find_claim-Any P wanted [] c e h = absurd (ground arith)
find_claim-Any P wanted (d ∷ cs) c e h = elim (Bool-cases (wanted d)) [
  | inl here ↦ Any.here (subst P (ground arith) h)
  | inr later ↦ Any.there (find_claim-Any P wanted cs c (ground arith) h)
]

module _ (lower : Text → Text) (k : Crypto) (now : ℕ) (hash tx : Text) (p : Payment)
    (amount : ℕ) where
  scan_receipt-settled :
      (segment logs : List Log)
      → scan_receipt lower k (settled now hash tx true p) amount hash segment logs
        ≡ scan_receipt lower k p amount hash segment logs
  unfolding scan_receipt verdict success_flag is_transfer
  scan_receipt-settled segment [] = refl
  scan_receipt-settled segment (l ∷ ls) =
      ground (arith, scan_receipt-settled [] ls, scan_receipt-settled (segment ++ l ∷ []) ls)

  pub verify_receipt-settled :
      (r : Receipt)
      → verify_receipt lower k r (settled now hash tx true p) amount hash
        ≡ verify_receipt lower k r p amount hash
  unfolding verify_receipt
  verify_receipt-settled r = rw (scan_receipt-settled [] r.logs)
