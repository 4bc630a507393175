-- ===== src/Payments/Final.antt =====
-- Routes and other parts of the program change the payments in any order.
use gitbounty.Base.{
  ℕ, ◌≡◌, refl, ap, sym, subst, false, not, Option, none, some, List, ◌==◌, ◌&&◌, any, map, inl,
  inr, arith, Any-of_map, Bool-cases, Option-cases, is_some, ltb, ◌^◌, ◌||◌,
}
use gitbounty.Text.{Text, Unicode}
use gitbounty.Amounts.{amount_to_units}
use gitbounty.Points.Allocations.{credit}
use gitbounty.Bounties.Rows.{done, ◌>>=◌}
use gitbounty.Bounties.Then.{Then, Then-bind, Then-any}
use gitbounty.Payments.{
  Claim, Payment, Store, Settings, Visitor, demand, found, of_result, find_payment, is_paid_status,
  wallet_of, chain_of, require_network, actor_id, active_chain,
}
use gitbounty.Payments.Encoding.{Crypto}
use gitbounty.Payments.Smoothsend.{payment_calldata}
use gitbounty.Payments.Wallets.{require_enabled}
use gitbounty.Payments.Prepare.{
  Network, of_payer, of_contributor, find_claim, claimed, claim_reward, is_nonempty, check_chain,
  insert_payment, start_payment, prepare_payment, standing, prepared_again, nonce_clashes,
  is_legacy, is_paid, may_retry, is_unfinished_of, setup_of, limit_of,
}
use gitbounty.Payments.Evidence.{Receipt}
use gitbounty.Payments.Rows.{find_payment-claim_id}
use gitbounty.Payments.Change.{
  IsBackedBy, IsBacked, Changes, Change-kept, Change-added, Change-updated,
}
use gitbounty.Payments.Kept.{found-Then, find_claim-wanted}

module _ (lower : Text → Text) (k : Crypto) (chain : Text → Receipt → Type 0) (u : Unicode)
    (c : Settings) where
  claimed-IsBacked :
      (claim_id now d : ℕ) (p : Payment) (cs : List Claim)
      → IsBacked lower k chain cs d p
      → IsBacked lower k chain (map (claimed claim_id now) cs) d p
  claimed-IsBacked claim_id now d p cs b =
      Any-of_map (IsBackedBy lower k chain d p) (claimed claim_id now) same b
    where
      same :
          (e : Claim)
          → IsBackedBy lower k chain d p e
          → IsBackedBy lower k chain d p (claimed claim_id now e)
      same e h = elim (Bool-cases (e.allocation_id == claim_id)) [
        | inl own ↦ rw own h
        | inr other ↦ rw other h
      ]

  pub claim_reward-Changes :
      (v : Visitor) (claim_id : ℕ) (s : Store)
      → Then (Changes lower k chain s) (claim_reward u lower c v claim_id s)
  unfolding claim_reward
  claim_reward-Changes v claim_id s = Then-any _ (require_enabled u c) _ (λ _.
      Then-any _ (found 404 (find_claim (of_contributor claim_id v.github_id) s.claims)) _ (λ row.
        Then-any _ (require_network c (chain_of row.bounty_id s.board.payment_terms)) _ (λ _.
          Then-any _ (demand row.is_clear 409) _ (λ _.
            Then-any _ (demand (is_nonempty (wallet_of v.github_id s.wallets)) 409) _ (λ _.
              Then-any _
                (of_result (credit lower claim_id (actor_id v s.points).1 (actor_id v s.points).0))
                _
                (λ credited.
                  Change-kept lower k chain s.payments (λ d p.
                    claimed-IsBacked claim_id (actor_id v s.points).0.now d p s.claims)))))))

  module _ (n : Network) (s : Store) where
    insert_payment-Changes :
        (existing : Option Payment) (p : Payment)
        → find_payment p.claim_id s.payments ≡ existing
        → standing existing ≡ none
        → is_paid_status p.status ≡ false
        → Then (λ r. Changes lower k chain s r.0) (insert_payment existing p s)
    unfolding insert_payment
    insert_payment-Changes none p e free unpaid =
        elim (Bool-cases (any (nonce_clashes p.claim_id p.chain_id p.sender p.nonce) s.payments)) [
          | inl taken ↦ rw taken tt
          | inr new ↦ rw new (Change-added lower k chain s.payments p unpaid)
        ]
    insert_payment-Changes (some q) p e free unpaid =
        elim (Bool-cases (any (nonce_clashes p.claim_id q.chain_id q.sender p.nonce) s.payments)) [
          | inl taken ↦ rw taken tt
          | inr new ↦ rw new (
              Change-updated lower k chain s.payments q.claim_id (prepared_again p.nonce)
                (λ r. refl) q
                (subst (λ d. find_payment d s.payments ≡ some q)
                  (sym (find_payment-claim_id p.claim_id s.payments q e)) e)
                (ground (arith, free)) (λ paid. absurd (ground arith)))
        ]

    pub start_payment-Changes :
        (claim : Claim) (existing : Option Payment)
        → find_payment claim.allocation_id s.payments ≡ existing
        → standing existing ≡ none
        → Then (λ r. Changes lower k chain s r.0) (start_payment u k n c claim existing s)
    unfolding start_payment
    start_payment-Changes claim existing e free =
        Then-any _ (demand (may_retry existing s) 409) _ (λ _.
          Then-any _ (demand (claim.is_clear && is_some claim.claimed_at) 409) _ (λ _.
            Then-any _
              (demand
                (is_nonempty (wallet_of claim.payer_github_id s.wallets)
                  && is_nonempty (wallet_of claim.github_id s.wallets))
                409)
              _
              (λ _. Then-any _ (found 409 (wallet_of claim.payer_github_id s.wallets)) _ (λ sender.
                Then-any _ (found 409 (wallet_of claim.github_id s.wallets)) _ (λ recipient.
                  Then-any _ (demand (not (any (is_unfinished_of sender) s.payments)) 409) _ (λ _.
                    Then-any _ (setup_of n existing sender (active_chain c)) _ (λ setup.
                      Then-any _ (n.account_nonce setup.smart_sender) _ (λ nonce.
                        Then-any _ (demand (ltb nonce (2 ^ 63)) 409) _ (λ _.
                          Then-any _ (limit_of (amount_to_units u c.smoothsend_fee_limit_usdc 6)) _
                            (λ fee_limit.
                              Then-any _
                                (payment_calldata k (active_chain c) recipient claim.amount_wei
                                  setup.paymaster_address fee_limit)
                                _
                                (λ call_data.
                                  insert_payment-Changes existing _ e free refl)))))))))))

    pub prepare_payment-Changes :
        (v : Visitor) (claim_id : ℕ)
        → Then (λ r. Changes lower k chain s r.0) (prepare_payment u k n c v claim_id s)
    unfolding prepare_payment
    prepare_payment-Changes v claim_id = Then-any _ (require_enabled u c) _ (λ _.
        Then-bind _ _ (found 404 (find_claim (of_payer claim_id v.github_id) s.claims)) _
          (found-Then 404 _)
          (λ claim e.
            Then-any _ (require_network c (chain_of claim.bounty_id s.board.payment_terms)) _ (λ _.
              Then-any _ (demand (claim.is_clear || is_paid (find_payment claim_id s.payments)) 409)
                _
                (λ _.
                  Then-any _ (demand (not (is_legacy (find_payment claim_id s.payments))) 409) _
                    (λ _. begin claim (own claim e))))))
      where
        own :
            (claim : Claim)
            → find_claim (of_payer claim_id v.github_id) s.claims ≡ some claim
            → claim.allocation_id ≡ claim_id
        own claim e =
            let wanted = find_claim-wanted (of_payer claim_id v.github_id) s.claims claim e in
            ground (arith, wanted)

        begin :
            (claim : Claim)
            → claim.allocation_id ≡ claim_id
            → Then
                (λ r. Changes lower k chain s r.0)
                (elim (standing (find_payment claim_id s.payments)) [
                  | some p ↦ done (s, p)
                  | none ↦
                      (check_chain n c >>= λ _.
                      start_payment u k n c claim (find_payment claim_id s.payments) s)
                ])
        begin claim same = elim (Option-cases (standing (find_payment claim_id s.payments))) [
          | inr (p, e) ↦ rw e (Change-kept lower k chain s.payments (λ d q b. b))
          | inl free ↦ rw free (
              Then-any _ (check_chain n c) _ (λ _.
                start_payment-Changes claim (find_payment claim_id s.payments)
                  (ap (λ d. find_payment d s.payments) same) free))
        ]
