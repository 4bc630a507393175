-- ===== src/Lib.antt =====
-- GitBounty awards points for merged pull requests. A contributor signs in with GitHub; a sync
-- reads their pull requests, finds the issues that each closes, the bounty that a maintainer
-- published on such an issue and a category, and records awards in an append-only ledger. An award
-- is first reserved for a numeric GitHub identity, and credited when that identity has an account.
--
-- The files and the code that they model, all of it under backend/app unless a path says
-- otherwise:
--
--   Base and its parts: names of the library, Boolean tests, lists and integers over the native
--     numbers.
--   Text, Text/Decimal: strings as lists of code points, and the printing of numbers.
--   Regex: the part of Python's `re` that the patterns use, by backtracking.
--   IssueLinks: features/merged_prs/issue_links.py, `find_closed_issues`; Unseen compares what
--     it returns.
--   PullRequest: features/merged_prs/models.py. PullRequest/Lifecycle:
--     features/merged_prs/lifecycle.py, `assess` and its parts. PullRequest/Eligible: what a
--     verdict says.
--   Rules: features/points/rules.py; Suggestion: the values in labels.
--   Categorise and its parts: features/merged_prs/categorise.py, the votes of the changed files
--     (Votes, and Best on the choice among them) and the wording (Wording), over the lists of
--     Words and Keywords.
--   Detect: features/merged_prs/service.py, and the part of `run_sync` in
--     features/points/router.py that builds merges of tracked pull requests. Detect/Agreement
--     compares what is forecast with what is awarded.
--   Points: the tables of migrations/0008_points_ledger.sql and 0013_reward_allocations.sql with
--     their unique and check constraints and the foreign keys of the ledger. Points/Users,
--     Points/Ledger, Points/Allocations, Points/Record: features/points/allocations.py and
--     features/points/store.py as functions that return the new tables or the error that is
--     raised. Points/Sound is the invariant of the tables; the other files of Points carry it
--     through `credit`, `reserve` and `record_merges`, and Reach through these and sign-ins,
--     claims and corrections in any order.
--   Points/Claim: `claim_points` of features/points/allocations.py.
--   Github: features/merged_prs/github.py; Pages is the loop over the pages of a search, Reviews
--     the state of the reviews of a pull request.
--   Tracked: `record_pull_requests` and `_expected` of features/points/store.py over the table
--     of migrations/0011_pull_requests.sql.
--   Sponsored: sponsored.py over the table of migrations/0019_sponsored_operations.sql, `submit`
--     and `operation_segment`; Verify is `verify`. Single and Reach carry the invariant of the
--     table through steps in any order, Again is about submissions while an operation is on its
--     way.
--   Webhooks: `receive_webhook` of routes/github_app.py and services/webhooks.py over the table
--     of migrations/0014_github_app.sql, Apply is `apply_delivery`, which the other parts take as
--     an argument, over what Apply/Given reads, and Apply/Same compares it with a sync. Queue is
--     the step relation, Worker the rounds of the worker, Retries what it leaves of a delivery
--     that failed, Body the chunks of a request.
--   RateLimit and its parts: ratelimit.py, the limiter as a function of its state and `dispatch`
--     as its decision. Reference compares it with a limiter that never sweeps, Bound counts what a
--     window admits, Retry is about `Retry-After`.
--   SyncRuns and its parts: features/points/sync_state.py over the table of
--     migrations/0009_sync_runs.sql. Exclusive is the step relation and its invariant, Released
--     says when a run may begin.
--   IssueState: services/issue_state.py. Sync: `run_sync` and `start_sync` of
--     features/points/router.py over Detect, Points, Tracked, SyncRuns and IssueState; Ends says
--     how a sync ends.
--   Payments: routes/payments.py and smoothsend.py over the tables of
--     migrations/0015_avax_reward_promises.sql and 0016_fuji_usdc.sql. Wallets, Prepare and
--     Confirm are the routes that change them, Account what is asked of the gateway and shown.
--     Encoding, Operation and Smoothsend are the operation that a payer signs, Evidence the check
--     of a receipt, and Evidence/Exact what a receipt that passes holds. Rows, Change, Kept,
--     Final, Settled and Reach carry the payments through the routes in any order.
--   Moderation and its parts: routes/moderation.py over the table of
--     migrations/0012_moderation_flags.sql. Flags is `raise_flag`, Moderation itself
--     `resolve_flag`. Withdraw is about the ledger, Resolve about the flags.
--   Amounts: avax.py, the amounts of a token as texts and as units. Stripped and Matched are
--     about `rstrip` and the pattern, RoundTrip about parsing what is printed; Regex/Takes says
--     what a pattern may take.
--   Bounties: the tables of migrations/0002, 0003, 0004, 0007, 0015 and 0017 that a publication
--     writes, with their triggers; Rows are their rows. Access, Selected, Publish (with Stakes)
--     and Edit are routes/maintainer.py (and `can_publish_bounties` of github.py): authorization,
--     `publish_bounties`, `update_bounty`. Then reasons about answers; Promised, Stored, NewTerms
--     and Reach (with Lasting) carry the promises through publications and changes. Told and
--     History are about the history of a bounty. Offered is `published_bounties` of
--     features/points/store.py, whose result Detect matches against.
--   Tests: runs on small inputs, and the theorems applied to them.
--
-- How the parts interact: Detect calls IssueLinks, Categorise and PullRequest/Lifecycle on what
-- GitHub answers and hands merges to Points/Record, which writes through Points/Allocations into
-- the ledger. Points/Allocations refuses a reservation that clashes with one that is held. Sync
-- and Webhooks/Apply are the two ways in which a merge reaches Points/Record: Sync from the search
-- of an author's pull requests, Webhooks/Apply from a delivery about one. A reservation on a
-- bounty with payment terms makes a claim, which Payments carries to a paid payment.
--
-- A time is its number of microseconds, on the monotonic clock of the limiter of nanoseconds and
-- in Webhooks of seconds (the code has floats there, whose rounding is left out). Ids are natural
-- numbers, and a sequence gives the next one. The points of an award are a natural number, those
-- of a correction an integer. A pattern's repetition has as much fuel as there are characters
-- ahead, and a round that consumes none is not repeated; a search tries every position of the
-- string, so its fuel is one more than the length. The printing of n has n + 1 digits of fuel, and
-- each digit divides n by ten (by sixteen in hexadecimal). The rounds of the worker of Webhooks
-- have as much fuel as deliveries are due.
--
-- Parameters, because their code is not in the repository: what GitHub answers, the signatures and
-- hashes of `hmac` and of the chain, Python's Unicode tables (case folding, white space, word
-- characters, decimal digits) and SQL's `lower`. Where a test runs, they are those of ASCII.
-- Parameters too, though their code is in the repository, since it is not modelled: the evidence
-- for the cash of an escrow bounty and its reservation (services/escrow_rewards.py),
-- `derive_bounty_id`, `signed_operation`, `smart_account`, the voucher of a settlement and the RPC
-- calls of the chain. So are the members of a delivery or of an answer of GitHub that the code
-- reads without a default, and `keccak` of eth_utils, `encode` of eth_abi and the recovery of a
-- signer of eth_account. Not modelled: HTTP, sessions, settings and logging; the concurrency of
-- Postgres, whose row locks and unique indexes make each handler a single step here (two for
-- `verify` of Sponsored, which has two transactions); the listing of rewards and
-- `verify_transaction` of payments.py; escrow.py and the chain behind it; the numbers that a
-- sequence skips on a conflict; the text of a reservation's JSON, whose fields are kept as a
-- record; the web client, the browser extension and the Solidity contract.
pub mod Base
pub mod Text
pub mod Regex
pub mod IssueLinks
pub mod PullRequest
pub mod Rules
pub mod Categorise
pub mod Detect
pub mod Points
pub mod Amounts
pub mod Bounties
pub mod Github
pub mod IssueState
pub mod Moderation
pub mod Payments
pub mod RateLimit
pub mod Sponsored
pub mod Sync
pub mod SyncRuns
pub mod Tracked
pub mod Webhooks
pub mod Tests
