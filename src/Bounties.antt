-- ===== src/Bounties.antt =====
-- The tables of published bounties: migrations/0002_repositories.sql, 0003_issues.sql,
-- 0004_published_bounties.sql, 0007_bounty_lifecycle.sql, 0015_avax_reward_promises.sql and
-- 0017_escrow_rewards.sql, with the statements of routes/maintainer.py on one row.
pub mod Rows
pub mod Access
pub mod Selected
pub mod Publish
pub mod Edit
pub mod Then
pub mod Promised
pub mod Stored
pub mod NewTerms
pub mod Reach
pub mod Told
pub mod History
pub mod Offered
use gitbounty.Base.{
  ℕ, suc, ◌+◌, ◌*◌, ◌^◌, Bool, true, false, not, Option, none, some, List, [], ◌∷◌, ◌++◌, ◌&&◌,
  ◌||◌, ◌==◌, any, map, ltb, leb, if◌then◌else◌,
}
use gitbounty.Text.{Text, text_eq}
use gitbounty.Points.Result.{unique_violation, check_violation}
use gitbounty.Bounties.Rows.{
  Answer, Board, Bounty, BountyStatus, EscrowTerms, PaymentTerms, RewardMode, done, escrow,
  legacy_payment, points_only, published, raised, ◌>>=◌,
}

abbrev pub mode_eq : RewardMode → RewardMode → Bool
mode_eq points_only points_only = true
mode_eq legacy_payment legacy_payment = true
mode_eq escrow escrow = true
mode_eq _ _ = false

-- `on conflict (repo_full_name, issue_number)`
abbrev pub is_same_issue : Text → ℕ → Bounty → Bool
is_same_issue repo number b = text_eq b.repo_full_name repo && b.issue_number == number

-- `check (points >= 1 and points <= 1000)`
abbrev pub points_are_allowed : ℕ → Bool
points_are_allowed points = leb 1 points && leb points 1000

abbrev pub new_bounty : Board → Text → ℕ → ℕ → ℕ → Bounty
new_bounty s repo number points actor = record {
  id = s.next_bounty;
  repo_full_name = repo;
  issue_number = number;
  points = points;
  set_by_user_id = actor;
  status = BountyStatus.published;
  reward_mode = points_only;
  created_at = s.now;
  updated_at = s.now;
}

abbrev pub published_again : ℕ → Text → ℕ → ℕ → ℕ → Bounty → Bounty
published_again now repo number points actor b =
    if is_same_issue repo number b
    then record b {
      points = points;
      set_by_user_id = actor;
      status = BountyStatus.published;
      updated_at = now;
    }
    else b

abbrev id_of_issue : Text → ℕ → List Bounty → ℕ
id_of_issue repo number [] = 0
id_of_issue repo number (b ∷ bs) =
    if is_same_issue repo number b then b.id else id_of_issue repo number bs

-- The insert of `publish_bounties` into `issue_points`, and the id that it returns.
unfoldable pub upsert_bounty : Text → ℕ → ℕ → ℕ → Board → Answer (Board × ℕ)
upsert_bounty repo number points actor s =
    if not (points_are_allowed points)
    then raised check_violation
    else if any (is_same_issue repo number) s.bounties
    then done (
      record s { bounties = map (published_again s.now repo number points actor) s.bounties },
      id_of_issue repo number s.bounties,
    )
    else done (
      record s {
        bounties = s.bounties ++ new_bounty s repo number points actor ∷ [];
        next_bounty = suc s.next_bounty;
      },
      s.next_bounty,
    )

abbrev pub has_payment_terms : ℕ → Board → Bool
has_payment_terms id s = any (λ t. t.bounty_id == id) s.payment_terms

abbrev pub has_escrow_terms : ℕ → Board → Bool
has_escrow_terms id s = any (λ t. t.bounty_id == id) s.escrow_terms

-- Some row of a bounty has another reward mode.
abbrev changes_mode : ℕ → RewardMode → Bounty → Bool
changes_mode id mode b = b.id == id && not (mode_eq b.reward_mode mode)

abbrev pub with_mode : ℕ → RewardMode → Bounty → Bounty
with_mode id mode b = if b.id == id then record b { reward_mode = mode } else b

-- `update issue_points set reward_mode = …`, under the trigger `guard_reward_mode`.
unfoldable pub set_reward_mode : ℕ → RewardMode → Board → Answer Board
set_reward_mode id mode s =
    if any (changes_mode id mode) s.bounties && (has_payment_terms id s || has_escrow_terms id s)
    then raised check_violation
    else done (record s { bounties = map (with_mode id mode) s.bounties })

abbrev has_mode : ℕ → RewardMode → Bounty → Bool
has_mode id mode b = b.id == id && mode_eq b.reward_mode mode

-- Under the trigger `guard_legacy_reward_path` and the constraints of `avax_reward_terms`.
unfoldable pub insert_payment_terms : PaymentTerms → Board → Answer Board
insert_payment_terms t s =
    if has_escrow_terms t.bounty_id s || not (any (has_mode t.bounty_id legacy_payment) s.bounties)
    then raised check_violation
    else if not (ltb 0 t.amount_wei && ltb t.amount_wei (10 ^ 78))
        || not (t.chain_id == 43114 || t.chain_id == 43113)
    then raised check_violation
    else if has_payment_terms t.bounty_id s
    then raised unique_violation
    else done (record s { payment_terms = s.payment_terms ++ t ∷ [] })

abbrev clashes : EscrowTerms → EscrowTerms → Bool
clashes t e =
    e.bounty_id == t.bounty_id
    || text_eq e.reference_id t.reference_id
    || e.issue_github_id == t.issue_github_id
    || e.chain_id == t.chain_id
      && text_eq e.contract_address t.contract_address
      && text_eq e.onchain_bounty_id t.onchain_bounty_id

-- A day has so many microseconds.
abbrev pub day : ℕ
day = 86400000000

-- Under the trigger `guard_escrow_reward_path` and the constraints of `escrow_reward_terms`. The
-- formats of addresses and hashes are not looked at.
unfoldable pub insert_escrow_terms : EscrowTerms → Board → Answer Board
insert_escrow_terms t s =
    if has_payment_terms t.bounty_id s || not (any (has_mode t.bounty_id escrow) s.bounties)
    then raised check_violation
    else if not (t.chain_id == 43113)
        || not (ltb 0 t.amount_units && ltb t.amount_units (10 ^ 78))
        || not (t.claim_until == t.work_ends_at + 7 * day)
    then raised check_violation
    else if any (clashes t) s.escrow_terms
    then raised unique_violation
    else done (record s { escrow_terms = s.escrow_terms ++ t ∷ [] })

-- `lower(repo_full_name) = lower($1) and issue_number = $2`; `lower` is an argument.
abbrev pub is_bounty_of : (Text → Text) → Text → ℕ → Bounty → Bool
is_bounty_of lower repo number b =
    text_eq (lower b.repo_full_name) (lower repo) && b.issue_number == number

unfoldable pub find_bounty : (Text → Text) → Text → ℕ → List Bounty → Option Bounty
find_bounty lower repo number [] = none
find_bounty lower repo number (b ∷ bs) =
    if is_bounty_of lower repo number b then some b else find_bounty lower repo number bs

abbrev pub points_of : Option Bounty → Option ℕ
points_of none = none
points_of (some b) = some b.points

abbrev pub status_of : Option Bounty → Option BountyStatus
status_of none = none
status_of (some b) = some b.status
