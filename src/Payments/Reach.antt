-- ===== src/Payments/Reach.antt =====
-- The payments under any sequence of routes, and of whatever other parts of the program do to the
-- ledger and to the bounties.
use gitbounty.Base.{
  ℕ, ◌≡◌, not, any, some, List, [], ◌∷◌, ◌++◌, ◌==◌, Any-append_left, Bool-cases, Option, inl, inr,
  if◌then◌else◌,
}
use gitbounty.Text.{Text, text_eq, Unicode}
use gitbounty.Points.{Db, Allocation, Kind, kind_eq}
use gitbounty.Bounties.Rows.{done, raised, Board}
use gitbounty.Points.Result.{unique_violation}
use gitbounty.Bounties.Then.{Then, Then-any, Then-done}
use gitbounty.Payments.{
  Claim, Payment, PaymentStatus, Store, Settings, Visitor, demand, found, find_payment, wallet_of,
  reserve_reward, claims_on, actor_id,
}
use gitbounty.Payments.Encoding.{Crypto}
use gitbounty.Payments.Operation.{UserOperation}
use gitbounty.Payments.Evidence.{Receipt}
use gitbounty.Payments.Wallets.{
  require_payments, wallet_challenge, connect_wallet, live_message, insert_wallet, differs, known,
}
use gitbounty.Payments.Prepare.{Network, claim_reward, prepare_payment}
use gitbounty.Payments.Confirm.{save_operation, confirm_payment}
use gitbounty.Payments.Change.{IsPaid, Changes, Change-kept}
use gitbounty.Payments.Final.{claim_reward-Changes, prepare_payment-Changes}
use gitbounty.Payments.Settled.{IsHonest, save_operation-Changes, confirm_payment-Changes}

module _ (lower : Text → Text) (k : Crypto) (chain : Text → Receipt → Type 0) (s : Store) where
  same-Changes : Changes lower k chain s s
  same-Changes = Change-kept lower k chain s.payments (λ d p b. b)

  added-Changes : (c : Claim) → Changes lower k chain s (record s { claims = s.claims ++ c ∷ [] })
  added-Changes c = Change-kept lower k chain s.payments (λ d p b. Any-append_left (c ∷ []) b)

  reserve_reward-Changes :
      (a : Allocation) → Then (Changes lower k chain s) (reserve_reward lower a s)
  unfolding reserve_reward
  reserve_reward-Changes a = elim (Bool-cases (kind_eq a.kind Kind.bounty_award)) [
    | inr other ↦ rw other same-Changes
    | inl award ↦ rw award (go (claims_on lower a s.board.payment_terms s.board.bounties))
  ]
    where
      go :
          (cs : List Claim)
          → Then (Changes lower k chain s) (elim cs [
            | [] ↦ done s
            | c ∷ [] ↦
                if any (λ d. d.allocation_id == c.allocation_id) s.claims
                then raised unique_violation
                else done (record s { claims = s.claims ++ c ∷ [] })
            | c ∷ d ∷ rest ↦ raised unique_violation
          ])
      go [] = same-Changes
      go (c ∷ []) = elim (Bool-cases (any (λ d. d.allocation_id == c.allocation_id) s.claims)) [
        | inl taken ↦ rw taken tt
        | inr new ↦ rw new (added-Changes c)
      ]
      go (c ∷ d ∷ rest) = tt

  module _ (u : Unicode) (c : Settings) (v : Visitor) where
    wallet_challenge-Changes :
        (nonce : Text) → Then (λ r. Changes lower k chain s r.0) (wallet_challenge u c v nonce s)
    unfolding wallet_challenge
    wallet_challenge-Changes nonce =
        Then-any _ (require_payments u c) _
          (λ _. Then-any _ (known v.github_id (actor_id v s.points).0) _ (λ _. same-Changes))

    connect_wallet-Changes :
        (recover : Text → Text → Option Text) (signature : Text)
        → Then (λ r. Changes lower k chain s r.0) (connect_wallet u recover c v signature s)
    unfolding connect_wallet
    connect_wallet-Changes recover signature = Then-any _ (require_payments u c) _ (λ _.
        Then-any _ (found 409 (live_message s.points.now v.github_id s.challenges)) _ (λ message.
          Then-any _ (found 400 (recover message signature)) _ (λ address.
            Then-any _ (demand (not (differs (wallet_of v.github_id s.wallets) address)) 409) _
              (λ _. Then-any _ (insert_wallet v.github_id address s) _ (λ wallets.
                Then-any _ (found 409 (wallet_of v.github_id wallets)) _ (λ actual.
                  Then-any _ (demand (text_eq actual address) 409) _ (λ _. same-Changes)))))))

-- What may happen to the store: the trigger on a new reservation, a route with any settings, user and
-- answers of the network, or a change of the ledger or the bounties by another part.
pub data Step (lower : Text → Text) (k : Crypto) (u : Unicode) : Store → Store → Type 0 where
  reserves :
      {s s' : Store} (a : Allocation) → reserve_reward lower a s ≡ done s' → Step lower k u s s'
  challenges :
      {s s' : Store} {message : Text} (c : Settings) (v : Visitor) (nonce : Text)
      → wallet_challenge u c v nonce s ≡ done (s', message)
      → Step lower k u s s'
  connects :
      {s s' : Store} {address : Text} (recover : Text → Text → Option Text) (c : Settings)
      (v : Visitor) (signature : Text)
      → connect_wallet u recover c v signature s ≡ done (s', address)
      → Step lower k u s s'
  claims :
      {s s' : Store} (c : Settings) (v : Visitor) (claim_id : ℕ)
      → claim_reward u lower c v claim_id s ≡ done s'
      → Step lower k u s s'
  prepares :
      {s s' : Store} {p : Payment} (n : Network) (c : Settings) (v : Visitor) (claim_id : ℕ)
      → prepare_payment u k n c v claim_id s ≡ done (s', p)
      → Step lower k u s s'
  saves :
      {s s' : Store} (n : Network) (c : Settings) (v : Visitor) (claim_id : ℕ) (hash : Text)
      (operation : UserOperation)
      → save_operation u lower k n c v claim_id hash operation s ≡ done s'
      → Step lower k u s s'
  confirms :
      {s s' : Store} {status : PaymentStatus} (n : Network) (c : Settings) (v : Visitor)
      (claim_id : ℕ) (hash : Text)
      → confirm_payment u lower k n c v claim_id hash s ≡ done (s', status)
      → Step lower k u s s'
  elsewhere :
      {s : Store} (points : Db) (board : Board)
      → Step lower k u s (record s { points = points; board = board })

pub data Reach (lower : Text → Text) (k : Crypto) (u : Unicode) (s : Store) : Store → Type 0 where
  start : Reach lower k u s s
  next : {t t' : Store} → Reach lower k u s t → Step lower k u t t' → Reach lower k u s t'

-- A chain of which anything may be said.
abbrev Anything : Text → Receipt → Type 0
Anything hash r = Unit

module _ {lower : Text → Text} {k : Crypto} {u : Unicode} where
  module _ (chain : Text → Receipt → Type 0) where
    -- The network that a step asks for a receipt answers what the chain has.
    abbrev pub AsksHonest : {s s' : Store} → Step lower k u s s' → Type 0
    AsksHonest (confirms n c v claim_id hash e) = IsHonest chain n
    AsksHonest (reserves a e) = Unit
    AsksHonest (challenges c v nonce e) = Unit
    AsksHonest (connects recover c v signature e) = Unit
    AsksHonest (claims c v claim_id e) = Unit
    AsksHonest (prepares n c v claim_id e) = Unit
    AsksHonest (saves n c v claim_id hash operation e) = Unit
    AsksHonest (elsewhere points board) = Unit

    unfoldable pub AllHonest : {s s' : Store} → Reach lower k u s s' → Type 0
    AllHonest start = Unit
    AllHonest (next r step) = AllHonest r × AsksHonest step

    Step-Changes :
        {s s' : Store} (step : Step lower k u s s') → AsksHonest step → Changes lower k chain s s'
    Step-Changes {s} (reserves a e) _ =
        Then-done (Changes lower k chain s) e (reserve_reward-Changes lower k chain s a)
    Step-Changes {s} (challenges c v nonce e) _ =
        Then-done (λ r. Changes lower k chain s r.0) e
          (wallet_challenge-Changes lower k chain s u c v nonce)
    Step-Changes {s} (connects recover c v signature e) _ =
        Then-done (λ r. Changes lower k chain s r.0) e
          (connect_wallet-Changes lower k chain s u c v recover signature)
    Step-Changes {s} (claims c v claim_id e) _ =
        Then-done (Changes lower k chain s) e (claim_reward-Changes lower k chain u c v claim_id s)
    Step-Changes {s} (prepares n c v claim_id e) _ =
        Then-done (λ r. Changes lower k chain s r.0) e
          (prepare_payment-Changes lower k chain u c n s v claim_id)
    Step-Changes {s} (saves n c v claim_id hash operation e) _ =
        Then-done (Changes lower k chain s) e
          (save_operation-Changes lower k chain s u c n v claim_id hash operation)
    Step-Changes {s} (confirms n c v claim_id hash e) honest =
        Then-done (λ r. Changes lower k chain s r.0) e
          (confirm_payment-Changes lower k chain s u c n honest v claim_id hash)
    Step-Changes {s} (elsewhere points board) _ = same-Changes lower k chain s

  Step-Anything : {s s' : Store} (step : Step lower k u s s') → AsksHonest Anything step
  Step-Anything (confirms n c v claim_id hash e) = λ asked h r f. tt
  Step-Anything (reserves a e) = tt
  Step-Anything (challenges c v nonce e) = tt
  Step-Anything (connects recover c v signature e) = tt
  Step-Anything (claims c v claim_id e) = tt
  Step-Anything (prepares n c v claim_id e) = tt
  Step-Anything (saves n c v claim_id hash operation e) = tt
  Step-Anything (elsewhere points board) = tt

  -- A payment that is paid stays as it is, with its transaction, its operation and the time at which
  -- it was paid, whatever is asked of the routes and whatever else happens.
  pub Reach-paid :
      {s s' : Store} (c : ℕ) (p : Payment)
      → find_payment c s.payments ≡ some p
      → IsPaid p
      → Reach lower k u s s'
      → find_payment c s'.payments ≡ some p
  Reach-paid c p e paid start = e
  Reach-paid c p e paid (next r step) =
      (Step-Changes Anything step (Step-Anything step)).stays c p (Reach-paid c p e paid r) paid
