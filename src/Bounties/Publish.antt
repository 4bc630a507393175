-- ===== src/Bounties/Publish.antt =====
-- `publish_bounties` of routes/maintainer.py. Times count microseconds, and `datetime.now` is the
-- clock of the database. The wallet of the payer, the random references and the hash of
-- `derive_bounty_id` are arguments.
pub mod Stakes
use gitbounty.Base.{
  ℕ, ◌+◌, ◌*◌, Bool, not, Option, none, some, List, [], ◌∷◌, ◌++◌, ◌&&◌, ◌||◌, ◌==◌, map, leb,
  length, is_some, get_or_default, if◌then◌else◌,
}
use gitbounty.Text.{Text, text, ascii_lower, Unicode}
use gitbounty.Amounts.{amount_to_units}
use gitbounty.Bounties.{upsert_bounty, find_bounty, points_of, status_of, day}
use gitbounty.Bounties.Rows.{
  Answer, done, refused, ◌>>=◌, Board, Bounty, BountyStatus, Action, Change, PaymentTerms, escrow,
}
use gitbounty.Bounties.Access.{Repo, Read, authorized_repository, open_issues}
use gitbounty.Bounties.Selected.{
  Input, OpenIssue, has_repeats, requested_by_repo, select_issues, upsert_repository, upsert_issue,
}
use gitbounty.Bounties.Publish.Stakes.{
  Publisher, Settings, Terms, cash_of, chain_of, fifteen_minutes, find_terms, given, is_empty,
  new_escrow, new_payment, no_terms, store_terms, units,
}

module _ (u : Unicode) (g : Settings) (p : Publisher) where
  -- The terms of an escrow that is published with a deadline.
  unfoldable pub escrow_terms_of : Repo → OpenIssue → Input → Bool → ℕ → ℕ → ℕ → Answer Terms
  unfolding amount_to_units
  escrow_terms_of repo issue item is_new bounty_id now ends =
      if not (is_some item.reward_usdc) || is_some item.reward_avax
      then refused 422
      else if not is_new
      then refused 409
      else if not g.escrow_enabled || is_empty g.escrow_contract_address
      then refused 503
      else if leb ends (now + fifteen_minutes)
      then refused 422
      else do
        payer ← if g.sponsored then p.sponsor else given p.wallet
        amount ← units (amount_to_units u (get_or_default item.reward_usdc []) 6)
        done (
            new_escrow (record {
              bounty_id = bounty_id;
              chain_id = g.escrow_chain_id;
              contract_address = map ascii_lower g.escrow_contract_address;
              token_address = map ascii_lower g.escrow_token_address;
              reference_id = p.reference_id bounty_id;
              onchain_bounty_id =
                  p.derive_bounty_id g.escrow_chain_id (map ascii_lower g.escrow_contract_address)
                    (map ascii_lower payer) (p.reference_id bounty_id);
              repository_github_id = repo.id;
              issue_github_id = issue.id;
              payer_github_id = p.github_id;
              payer_address = map ascii_lower payer;
              amount_units = amount;
              work_ends_at = ends;
              claim_until = ends + 7 * day;
            }))

  -- The terms of a payment that the owner promises; `terms` are those that the bounty has.
  unfoldable pub payment_terms_of : Text → ℕ → Option PaymentTerms → Bool → ℕ → Answer Terms
  unfolding amount_to_units
  payment_terms_of cash chain_id terms is_new bounty_id = do
    amount ← units (amount_to_units u cash (if chain_id == 43113 then 6 else 18))
    elim terms [
      | some t ↦
          if not (t.amount_wei == amount) || not (t.chain_id == chain_id)
          then refused 409
          else done no_terms
      | none ↦
          if not (chain_id == (if g.payment_mode_is_usdc then 43113 else 43114))
          then refused 409
          else if not is_new
          then refused 409
          else done (
              new_payment (record {
                bounty_id = bounty_id;
                payer_github_id = p.github_id;
                amount_wei = amount;
                chain_id = chain_id;
              }))
    ]

  -- What the bounty promises, with the guards in the order of the code.
  unfoldable pub choose_terms : Repo → OpenIssue → Input → Bool → ℕ → Board → Answer Terms
  unfolding escrow_terms_of payment_terms_of
  choose_terms repo issue item is_new bounty_id s =
      if g.managed_wallets_enabled && is_some (cash_of item) && not g.sponsored
      then refused 503
      else if g.sponsored && is_some (cash_of item) && not (is_some item.escrow_work_ends_at)
      then refused 422
      else if is_some item.reward_usdc && is_some item.reward_avax
      then refused 422
      else elim item.escrow_work_ends_at [
        | some ends ↦ escrow_terms_of repo issue item is_new bounty_id s.now ends
        | none ↦ elim (cash_of item) [
          | none ↦ done no_terms
          | some cash ↦
              payment_terms_of cash (chain_of item) (find_terms bounty_id s.payment_terms) is_new
                bounty_id
        ]
      ]

  -- The reason in the history.
  abbrev reason_of : Input → Text
  reason_of item = elim (cash_of item) [
    | none ↦ text "Published from the maintainer workspace."
    | some cash ↦
        if is_some item.escrow_work_ends_at
        then text "Published with Fuji USDC escrow terms."
        else text "Published with owner-promised "
          ++ cash
          ++ (if chain_of item == 43113 then text " USDC (Fuji testnet)." else text " AVAX.")
  ]

  abbrev pub published_change : Board → Repo → Input → OpenIssue → Option Bounty → Change
  published_change s repo item issue before = record {
    repo_full_name = repo.full_name;
    issue_number = issue.number;
    action = if is_some before then Action.repriced else Action.published;
    points_before = points_of before;
    points_after = item.points;
    status_before = status_of before;
    status_after = BountyStatus.published;
    category_before = none;
    category_after = item.category;
    actor_user_id = p.actor_id;
    actor_login = p.github_login;
    reason = reason_of item;
    created_at = s.now;
  }

  abbrev pub with_change : Change → Board → Board
  with_change c s = record s { history = s.history ++ c ∷ [] }

  -- `lower` is SQL's.
  module _ (lower : Text → Text) where
    -- The body of the loop over the selected issues.
    unfoldable pub publish_issue : ℕ → Repo → Input → OpenIssue → Board → Answer Board
    unfolding upsert_issue find_bounty upsert_bounty choose_terms store_terms
    publish_issue repository_id repo item issue s = do
      s₁ ← upsert_issue repository_id repo issue item.category s
      r ← upsert_bounty repo.full_name issue.number item.points p.actor_id s₁
      let before = find_bounty lower repo.full_name issue.number s₁.bounties
      terms ← choose_terms repo issue item (not (is_some before)) r.1 r.0
      s₂ ← store_terms r.1 terms r.0
      done (with_change (published_change s₂ repo item issue before) s₂)

    unfoldable pub publish_selected : ℕ → Repo → List (Input × OpenIssue) → Board → Answer Board
    unfolding publish_issue
    publish_selected repository_id repo [] s = done s
    publish_selected repository_id repo ((item, issue) ∷ rest) s = do
      s' ← publish_issue repository_id repo item issue s
      publish_selected repository_id repo rest s'

    unfoldable pub publish_verified : List (Repo × List (Input × OpenIssue)) → Board → Answer Board
    unfolding upsert_repository publish_selected
    publish_verified [] s = done s
    publish_verified ((repo, selected) ∷ rest) s = do
      r ← upsert_repository repo s
      s' ← publish_selected r.1 repo selected r.0
      publish_verified rest s'

    module _ (get_repo : Text → Read (Option Repo))
        (list_issues : Text → Read (List OpenIssue)) where
      -- Every repository is asked for again, and every issue has to be open.
      unfoldable pub verify :
          List (Text × List Input) → Answer (List (Repo × List (Input × OpenIssue)))
      unfolding authorized_repository select_issues
      verify [] = done []
      verify ((reference, requested) ∷ rest) = do
        repo ← authorized_repository u p.github_login (get_repo reference)
        opened ← open_issues (list_issues repo.full_name)
        selected ← select_issues opened requested
        verified ← verify rest
        done ((repo, selected) ∷ verified)

      -- `publish_bounties`, and how many bounties it says were published; the tables stay as they are
      -- unless it returns.
      unfoldable pub publish_bounties : List Input → Board → Answer (Board × ℕ)
      unfolding requested_by_repo verify publish_verified
      publish_bounties items s = if has_repeats u items then refused 400 else do
        verified ← verify (requested_by_repo items [])
        s' ← publish_verified verified s
        done (s', length items)
