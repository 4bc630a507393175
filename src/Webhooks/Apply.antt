-- ===== src/Webhooks/Apply.antt =====
-- `apply_delivery` of services/webhooks.py: what a delivery of GitHub does to the tables. GitHub's
-- current answers, and the cash of an escrow bounty, are arguments; so are members of a payload or an
-- answer that the code reads without a default.
pub mod Given
pub mod Same
use gitbounty.Base.{
  ℕ, Bool, true, false, not, Option, none, some, [], ◌∷◌, ◌++◌, ◌&&◌, ◌==◌, any, opt_eq,
  get_or_default, if◌then◌else◌,
}
use gitbounty.Text.{Text, text, text_eq, Unicode}
use gitbounty.PullRequest.{AuthoredPr, with_author_user_id, as_merged, PublishedBounty}
use gitbounty.PullRequest.Lifecycle.{TrackedPullRequest, CategorySource, assess}
use gitbounty.Categorise.Wording.{categorise}
use gitbounty.Detect.{tracked_repositories, merge_of}
use gitbounty.Github.{Item, parse_any_item}
use gitbounty.Points.Users.{user_id_of}
use gitbounty.Points.Record.{record_merges}
use gitbounty.Tracked.{record_pull_requests}
use gitbounty.Bounties.{find_bounty, mode_eq}
use gitbounty.Bounties.Rows.{escrow}
use gitbounty.Bounties.Offered.{published_bounties}
use gitbounty.IssueState.{IssueState, open_state, store_issue_states}
use gitbounty.Sync.{Tables}
use gitbounty.Webhooks.{Delivery, Outcome, processed, ignored, raised}
use gitbounty.Webhooks.Apply.Given.{
  App, Connected, Payload, Pull, Repo, Run, State, app_text, breaks, deactivate, find_connected,
  found, ignores, is_action, is_given, is_private, of_installation, of_result, only_if, or_break,
  or_ignore, ◌>>=◌, ◌>>◌,
}

module _ {E : Type 0} (u : Unicode) (lower : Text → Text) (app : App E) where
  -- The repository of a delivery, if it is connected and still what GitHub says.
  unfoldable pub connected_repository : Payload → State → Run (Connected × Repo)
  unfolding find_connected
  connected_repository p s = do
    c ← or_ignore (find_connected p.repository_id p.installation_id s.connected)
    only_if (text_eq (u.casefold c.full_name) (u.casefold (get_or_default p.repository_name [])))
    current ← app.installation_for c.full_name
    only_if (opt_eq (some current) p.installation_id)
    repo ← app.repository c.full_name
    only_if (repo.id == c.github_id && not (is_private repo.private))
    found (c, repo)

  unfoldable pub apply_issue : Payload → State → Run State
  unfolding connected_repository store_issue_states
  apply_issue p s = do
    (c, repo) ← connected_repository p s
    issue ← app.issue c.full_name p.issue_number
    only_if (opt_eq issue.id p.issue_id && not issue.has_pull_request)
    is_open ← or_ignore (open_state issue.state)
    id ← or_break (text "KeyError") issue.id
    let state : IssueState = record {
      repository = c.full_name;
      number = issue.number;
      github_id = id;
      is_open = is_open;
    }
    found (record s {
      tables = record s.tables { board = store_issue_states lower (state ∷ []) s.tables.board };
    })

  -- The pull request, if it is the one that was sent and is not by the owner of the repository.
  unfoldable pub merged_pull : Payload → Connected × Repo → Run (Pull × ℕ)
  merged_pull p (c, repo) = do
    pull ← app.pull c.full_name p.pull_number
    author ← or_ignore pull.author_id
    only_if (pull.merged && is_given pull.merged_at)
    only_if (
        pull.id == p.pull_id
        && author == p.pull_user_id
        && pull.base_repository_id == repo.id
        && not (author == 0))
    only_if (not (author == repo.owner_id))
    found (pull, author)

  abbrev pub as_item : Connected → Pull → Item
  as_item c pull = record pull.item {
    repository_url = some (text "https://api.github.com/repos/" ++ c.full_name);
    is_pull_request = true;
    merged_at = pull.merged_at;
  }

  abbrev by_account : Option ℕ → AuthoredPr → AuthoredPr
  by_account none pr = pr
  by_account (some user_id) pr = with_author_user_id user_id pr

  -- The pull request of GitHub's answer, and what GitBounty makes of it.
  unfoldable pub tracked_pull : Connected → Pull → Option ℕ → Tables → Run TrackedPullRequest
  unfolding parse_any_item published_bounties assess categorise
  tracked_pull c pull user_id w = do
    parsed ← or_break (text "AttributeError") (parse_any_item app.parse_time (as_item c pull))
    let pr = by_account user_id parsed
    let bounties = published_bounties u lower true w.board
    paths ← app.changed_paths c.full_name pull.item.number
    found (
        assess u pr none (categorise u pr.labels pr.title paths) bounties
          (tracked_repositories bounties))

  abbrev is_escrow : Tables → PublishedBounty → Bool
  unfolding find_bounty
  is_escrow w b = elim (find_bounty lower b.repo_full_name b.issue_number w.board.bounties) [
    | none ↦ false
    | some row ↦ mode_eq row.reward_mode escrow
  ]

  -- `replace(tracked, bounty=None, category_source="inferred")`
  abbrev without_bounty : TrackedPullRequest → TrackedPullRequest
  without_bounty t = record t { bounty = none; category_source = CategorySource.inferred }

  abbrev judged : TrackedPullRequest → Option E → TrackedPullRequest × Option E
  judged t none = (without_bounty t, none)
  judged t (some evidence) = (t, some evidence)

  -- The bounty is dropped if its cash may not be reserved.
  unfoldable pub judge_cash :
      TrackedPullRequest → Repo → Pull → Tables → Run (TrackedPullRequest × Option E)
  unfolding is_escrow find_bounty
  judge_cash t repo pull w = elim t.bounty [
    | none ↦ found (t, none)
    | some b ↦
        if is_escrow w b
        then (do evidence ← app.validate_cash w repo pull b.issue_number; found (judged t evidence))
        else found (t, none)
  ]

  abbrev store_pull : Option ℕ → TrackedPullRequest → Tables → Run Tables
  unfolding record_pull_requests
  store_pull none t w = found w
  store_pull (some user_id) t w = do
    rows ← of_result (record_pull_requests w.points.now user_id (t ∷ []) w.pull_requests)
    found (record w { pull_requests = rows.0 })

  abbrev reserve_evidence : Option E → Pull → ℕ → Tables → Run Tables
  reserve_evidence none pull author w = found w
  reserve_evidence (some evidence) pull author w = app.reserve_cash evidence pull author w

  -- What is written of a pull request that is eligible.
  unfoldable pub write_pull :
      Pull × ℕ → Option ℕ → TrackedPullRequest × Option E → Tables → Run Tables
  unfolding store_pull record_pull_requests record_merges
  write_pull (pull, author) user_id (t, evidence) w = do
    w' ← store_pull user_id t w
    pr ← or_break (text "ValueError") (as_merged t.pr)
    saved ← of_result (record_merges lower user_id (some author) (merge_of u t pr ∷ []) w'.points)
    reserve_evidence evidence pull author (record w' { points = saved.0 })

  unfoldable pub apply_pull : Payload → State → Run State
  unfolding connected_repository merged_pull tracked_pull judge_cash write_pull
  apply_pull p s = do
    (c, repo) ← connected_repository p s
    (pull, author) ← merged_pull p (c, repo)
    let user_id = user_id_of s.tables.points.users author
    t ← tracked_pull c pull user_id s.tables
    only_if t.eligible
    judged ← judge_cash t repo pull s.tables
    w ← write_pull (pull, author) user_id judged s.tables
    found (record s { tables = w })

  abbrev is_closing : Text → Payload → Bool
  is_closing event p = text_eq event (text "pull_request") && is_action p (text "closed" ∷ [])

  abbrev is_issue_event : Text → Payload → Bool
  is_issue_event event p =
      text_eq event (text "issues") && is_action p (text "closed" ∷ text "reopened" ∷ [])

  -- The events that change what is connected.
  abbrev forget_installation : Payload → State → State
  forget_installation p s =
      if text_eq (app_text p.app_id) app.github_app_id
      then deactivate (of_installation p.installation_id) s
      else s

  abbrev forget_repositories : Payload → State → State
  forget_repositories p s =
      deactivate (λ c. of_installation p.installation_id c && any (λ r. c.github_id == r) p.removed)
        s

  unfoldable pub apply_event : Text → Payload → State → Run State
  unfolding apply_issue apply_pull
  apply_event event p s =
      if text_eq event (text "installation") && is_action p (text "deleted" ∷ text "suspend" ∷ [])
      then found (forget_installation p s)
      else if text_eq event (text "installation_repositories") && is_action p (text "removed" ∷ [])
      then found (forget_repositories p s)
      else if is_private p.repository_private
      then ignores
      else if is_issue_event event p
      then apply_issue p s
      else if is_closing event p && p.pull_merged
      then apply_pull p s
      else ignores

  abbrev outcome_of : State → Run State → Outcome State
  outcome_of s (found s') = processed s'
  outcome_of s ignores = ignored s
  outcome_of s (breaks e) = raised e

  -- `apply_delivery`, in the shape that `process_one` takes.
  unfoldable pub apply_delivery : Delivery Payload → State → Outcome State
  unfolding apply_event
  apply_delivery d s = outcome_of s (apply_event d.event d.payload s)
