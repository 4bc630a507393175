-- ===== src/Bounties/Stored.antt =====
-- The statements of `publish_bounties` on bounties and terms, and the promises.
use gitbounty.Base.{
  ℕ, ◌≤◌, ◌<◌, ◌≡◌, refl, ap, Bool, true, not, Option, none, some, List, [], ◌∷◌, any, arith,
  is_some, Bool-cases, inl, inr,
}
use gitbounty.Text.{Text, text_eq_iff, Unicode}
use gitbounty.Bounties.{
  is_same_issue, new_bounty, published_again, upsert_bounty, find_bounty, points_are_allowed,
}
use gitbounty.Bounties.Rows.{Board, Bounty, PaymentTerms}
use gitbounty.Bounties.Then.{Then}
use gitbounty.Bounties.Selected.{Input, OpenIssue}
use gitbounty.Bounties.Access.{Repo}
use gitbounty.Bounties.Publish.{choose_terms, escrow_terms_of, payment_terms_of}
use gitbounty.Bounties.Publish.Stakes.{
  Settings, Publisher, Terms, no_terms, new_payment, new_escrow,
}
use gitbounty.Bounties.Promised.{IsPromised, mapped-Promised, new-Promised}

any-find_bounty :
    (lower : Text → Text) (repo : Text) (n : ℕ) (bs : List Bounty)
    → any (is_same_issue repo n) bs ≡ true
    → is_some (find_bounty lower repo n bs) ≡ true
unfolding find_bounty
any-find_bounty lower repo n [] h = absurd (ground arith)
any-find_bounty lower repo n (b ∷ bs) h = elim (Bool-cases (is_same_issue repo n b)) [
  | inl same ↦
      let name : b.repo_full_name ≡ repo = (text_eq_iff _ _).0 (ground arith) in
      let lowered = (text_eq_iff _ _).1 (ap lower name) in ground arith
  | inr other ↦ let rest = any-find_bounty lower repo n bs (ground arith) in ground arith
]

-- The insert of a bounty, before which a bounty of the issue was found or not.
pub record Upserted (is_new : Bool) (s : Board) (r : Board × ℕ) : Type 0 where
  pub promised : IsPromised r.0
  pub payments : r.0.payment_terms ≡ s.payment_terms
  pub escrows : r.0.escrow_terms ≡ s.escrow_terms
  pub more : s.next_bounty ≤ r.0.next_bounty
  pub fresh : is_new ≡ true → (s.next_bounty ≤ r.1) × (r.1 < r.0.next_bounty)

pub upsert_bounty-Upserted :
    (lower : Text → Text) (repo : Text) (n points actor : ℕ) (s : Board)
    → IsPromised s
    → Then
        (Upserted (not (is_some (find_bounty lower repo n s.bounties))) s)
        (upsert_bounty repo n points actor s)
unfolding upsert_bounty
upsert_bounty-Upserted lower repo n points actor s h =
    elim (Bool-cases (points_are_allowed points)) [
      | inr over ↦ rw over tt
      | inl allowed ↦ elim (Bool-cases (any (is_same_issue repo n) s.bounties)) [
        | inl old ↦ rw allowed (
            rw old (record {
              promised =
                  mapped-Promised (published_again s.now repo n points actor) s
                    (λ b. (ground arith, ground arith)) h;
              payments = refl;
              escrows = refl;
              more = omega arith;
              fresh =
                  λ is_new. absurd (ground (arith, any-find_bounty lower repo n s.bounties old));
            }))
        | inr new ↦ rw allowed (
            rw new (record {
              promised = new-Promised s (new_bounty s repo n points actor) refl refl h;
              payments = refl;
              escrows = refl;
              more = omega arith;
              fresh = λ is_new. (omega arith, omega arith);
            }))
      ]
    ]

abbrev pub TermsFor : Bool → ℕ → Terms → Type 0
TermsFor is_new id no_terms = Unit
TermsFor is_new id (new_payment t) = (is_new ≡ true) × (t.bounty_id ≡ id)
TermsFor is_new id (new_escrow t) = (is_new ≡ true) × (t.bounty_id ≡ id)

module _ (u : Unicode) (g : Settings) (p : Publisher) (is_new : Bool) (id : ℕ) where
  escrow_terms_of-TermsFor :
      (repo : Repo) (issue : OpenIssue) (item : Input) (now ends : ℕ)
      → Then (TermsFor is_new id) (escrow_terms_of u g p repo issue item is_new id now ends)
  unfolding escrow_terms_of
  escrow_terms_of-TermsFor repo issue item now ends = ground arith

  payment_terms_of-TermsFor :
      (cash : Text) (chain_id : ℕ) (terms : Option PaymentTerms)
      → Then (TermsFor is_new id) (payment_terms_of u g p cash chain_id terms is_new id)
  unfolding payment_terms_of
  payment_terms_of-TermsFor cash chain_id none = ground arith
  payment_terms_of-TermsFor cash chain_id (some t) = ground arith

  pub choose_terms-TermsFor :
      (repo : Repo) (issue : OpenIssue) (item : Input) (s : Board)
      → Then (TermsFor is_new id) (choose_terms u g p repo issue item is_new id s)
  unfolding choose_terms
  choose_terms-TermsFor repo issue item s =
      ground (arith, escrow_terms_of-TermsFor repo issue item s.now)
