-- ===== src/Tests/Bounties.antt =====
-- A maintainer publishes an issue with a payment, and another gives it a new value.
use gitbounty.Base.{ap, ℕ, ◌≡◌, refl, true, false, Option, none, some, List, [], ◌∷◌, map}
use gitbounty.Text.{Text, text, ascii, ascii_lower, before_first}
use gitbounty.PullRequest.{docs, get}
use gitbounty.Regex.{runs, full_match}
use gitbounty.Amounts.{amount_to_units, up_to, after_first, zeros}
use gitbounty.Bounties.{upsert_bounty, find_bounty, set_reward_mode, insert_payment_terms}
use gitbounty.Bounties.Rows.{Answer, done, refused, raised, Board, BountyStatus, unpublished}
use gitbounty.Bounties.Access.{
  Repo, Read, answered, authorized_repository, can_publish_bounties, blocked_reason,
}
use gitbounty.Bounties.Selected.{
  Input, OpenIssue, add_request, requested_by_repo, select_issues, upsert_repository, upsert_issue,
}
use gitbounty.Bounties.Publish.{
  choose_terms, payment_terms_of, publish_issue, publish_selected, publish_verified, verify,
  publish_bounties,
}
use gitbounty.Bounties.Publish.Stakes.{Settings, Publisher, store_terms}
use gitbounty.Bounties.Edit.{Update, action_for, checked, change_bounty, update_bounty}
use gitbounty.Bounties.Offered.{published_bounties, update_bounty-NotOffered}
use gitbounty.Bounties.Told.{last_told}
use gitbounty.Bounties.History.{IsTold, AllSpell, Reach-IsTold}
use gitbounty.Bounties.Promised.{IsPromised, Keeps}
use gitbounty.Bounties.Reach.{Reach, start, next, publishes, changes, Reach-IsPromised}

abbrev lower : Text → Text
lower s = map ascii_lower s

abbrev empty_board : Board
empty_board = record {
  bounties = [];
  next_bounty = 1;
  history = [];
  payment_terms = [];
  escrow_terms = [];
  repositories = [];
  next_repository = 1;
  issues = [];
  now = 1000;
}

abbrev repo : Repo
repo = record {
  id = 70;
  full_name = text "Acme/site";
  owner_login = text "Acme";
  owner_type = some (text "Organization");
  language = none;
  description = none;
  stargazers_count = 4;
  created_at = none;
  admin = false;
  maintain = true;
  private = false;
  archived = false;
  has_issues = true;
  open_issues_count = 2;
}

abbrev issue : OpenIssue
issue = record {
  id = 700;
  number = 3;
  title = text "Login";
  html_url = text "https://github.com/Acme/site/issues/3";
  labels = [];
  comments = 0;
  created_at = none;
  updated_at = none;
}

abbrev get_repo : Text → Read (Option Repo)
get_repo name = answered (some repo)

abbrev list_issues : Text → Read (List OpenIssue)
list_issues name = answered (issue ∷ [])

abbrev settings : Settings
settings = record {
  managed_wallets_enabled = false;
  sponsored = false;
  escrow_enabled = false;
  escrow_contract_address = [];
  escrow_token_address = [];
  escrow_chain_id = 43113;
  payment_mode_is_usdc = true;
}

abbrev publisher : Publisher
publisher = record {
  actor_id = 7;
  github_id = 42;
  github_login = text "mona";
  sponsor = refused 503;
  wallet = none;
  reference_id = λ n. [];
  derive_bounty_id = λ chain contract payer reference. [];
}

abbrev input : Input
input = record {
  repository = text "acme/site";
  number = 3;
  points = 40;
  category = docs;
  reward_avax = none;
  reward_usdc = some (text "5");
  escrow_work_ends_at = none;
}

abbrev published : Answer (Board × ℕ)
published =
    publish_bounties ascii settings publisher lower get_repo list_issues (input ∷ []) empty_board

abbrev board_of : Answer (Board × ℕ) → Board
board_of (done r) = r.0
board_of (refused code) = empty_board
board_of (raised e) = empty_board

published-done : published ≡ done (board_of published, 1)
unfolding publish_bounties requested_by_repo add_request verify authorized_repository
    can_publish_bounties blocked_reason select_issues publish_verified upsert_repository
    publish_selected publish_issue upsert_issue find_bounty upsert_bounty choose_terms
    payment_terms_of amount_to_units up_to after_first zeros before_first runs full_match
    store_terms set_reward_mode insert_payment_terms
published-done = refl

abbrev raise : Update
raise = record { points = some 60; category = none; status = none; reason = [] }

abbrev after : Answer Board → Board
after (done s) = s
after (refused code) = empty_board
after (raised e) = empty_board

abbrev raised_board : Answer Board
raised_board =
    update_bounty lower ascii get_repo 7 (text "mona") (text "acme/site") 3 raise
      (board_of published)

raised-done : raised_board ≡ done (after raised_board)
unfolding update_bounty change_bounty action_for checked publish_bounties requested_by_repo
    add_request verify authorized_repository can_publish_bounties blocked_reason select_issues
    publish_verified upsert_repository publish_selected publish_issue upsert_issue find_bounty
    upsert_bounty choose_terms payment_terms_of amount_to_units up_to after_first zeros before_first
    runs full_match store_terms set_reward_mode insert_payment_terms
raised-done = refl

abbrev board_reach : Reach lower empty_board (after raised_board)
board_reach =
    next
      (next start
        (publishes ascii settings publisher get_repo list_issues (input ∷ []) published-done))
      (changes ascii get_repo 7 (text "mona") (text "acme/site") 3 raise raised-done)

empty_board-IsPromised : IsPromised empty_board
empty_board-IsPromised = record { fresh = tt; fresh_payments = tt; fresh_escrows = tt; agrees = tt }

Reach-IsPromised_example :
    IsPromised (after raised_board) × Keeps empty_board.next_bounty empty_board (after raised_board)
Reach-IsPromised_example = Reach-IsPromised board_reach empty_board-IsPromised

abbrev withdraw : Update
withdraw = record raise { points = none; status = some unpublished }

abbrev withdrawn_board : Answer Board
withdrawn_board =
    update_bounty lower ascii get_repo 7 (text "mona") (text "acme/site") 3 withdraw
      (board_of published)

withdrawn-done : withdrawn_board ≡ done (after withdrawn_board)
unfolding update_bounty change_bounty action_for checked publish_bounties requested_by_repo
    add_request verify authorized_repository can_publish_bounties blocked_reason select_issues
    publish_verified upsert_repository publish_selected publish_issue upsert_issue find_bounty
    upsert_bounty choose_terms payment_terms_of amount_to_units up_to after_first zeros before_first
    runs full_match store_terms set_reward_mode insert_payment_terms
withdrawn-done = refl

update_bounty-NotOffered_example :
    get
      (published_bounties ascii lower false (after withdrawn_board))
      (ascii.casefold (text "acme/site"), 3)
    ≡ none
update_bounty-NotOffered_example =
    update_bounty-NotOffered ascii lower false (λ s t e. e) (text "acme/site") 3 unpublished refl
      get_repo 7 (text "mona") withdraw (board_of published) (after withdrawn_board) refl
      withdrawn-done

abbrev spelling : Text → Text
spelling s = text "Acme/site"

abbrev name_in : Read (Option Repo) → Text
name_in (answered (some r)) = r.full_name
name_in a = []

board_reach-AllSpell : AllSpell lower spelling board_reach
board_reach-AllSpell = ((tt, λ t r e. ap name_in e), tt)

Reach-IsTold_example : IsTold lower spelling (after raised_board)
Reach-IsTold_example = Reach-IsTold lower spelling board_reach board_reach-AllSpell tt

told_sixty :
    last_told lower (text "ACME/site") 3 (after raised_board).history none
    ≡ some (60, BountyStatus.published)
unfolding update_bounty change_bounty action_for checked publish_bounties requested_by_repo
    add_request verify authorized_repository can_publish_bounties blocked_reason select_issues
    publish_verified upsert_repository publish_selected publish_issue upsert_issue find_bounty
    upsert_bounty choose_terms payment_terms_of amount_to_units up_to after_first zeros before_first
    runs full_match store_terms set_reward_mode insert_payment_terms
told_sixty = refl
