-- ===== src/IssueState.antt =====
-- services/issue_state.py: whether GitHub says that the issues of bounties are open, and the update of
-- the stored issues. What GitHub answers is an argument.
use gitbounty.Base.{
  ℕ, Bool, true, false, not, Option, none, some, List, [], ◌∷◌, ◌&&◌, ◌||◌, ◌==◌, any, map,
  if◌then◌else◌,
}
use gitbounty.Text.{Text, text, text_eq}
use gitbounty.PullRequest.{PublishedBounties}
use gitbounty.Bounties.Rows.{Board, Issue, Repository}

-- The members of an issue's JSON that the code reads.
pub record Reported : Type 0 where
  pub number : Option ℕ
  pub has_pull_request : Bool
  pub id : Option ℕ
  pub state : Option Text

-- `(repository, number, github_id, state)`
pub record IssueState : Type 0 where
  pub repository : Text
  pub number : ℕ
  pub github_id : ℕ
  pub is_open : Bool

-- What a request for an issue gives: a status code and a body, or no answer.
abbrev pub Asked : Type 0
Asked = Text → ℕ → Option (ℕ × Reported)

abbrev is_number : Option ℕ → ℕ → Bool
is_number none n = false
is_number (some m) n = m == n

-- `issue.get("state") not in {"open", "closed"}`
abbrev pub open_state : Option Text → Option Bool
open_state none = none
open_state (some s) =
    if text_eq s (text "open")
    then some true
    else if text_eq s (text "closed")
    then some false
    else none

-- What becomes of one reference: nothing, a state, or the `KeyError` of an issue without an id.
pub data Reconciled : Type 0 where
  deferred broken : Reconciled
  reconciled : IssueState → Reconciled

abbrev with_id : Text → ℕ → Option ℕ → Bool → Reconciled
with_id repository number none is_open = broken
with_id repository number (some id) is_open =
    reconciled
      (record { repository = repository; number = number; github_id = id; is_open = is_open })

abbrev read_issue : Text → ℕ → Reported → Reconciled
read_issue repository number issue =
    if not (is_number issue.number number) || issue.has_pull_request
    then deferred
    else elim (open_state issue.state) [
      | none ↦ deferred
      | some is_open ↦ with_id repository number issue.id is_open
    ]

-- `one` of `reconcile_issues`
unfoldable pub reconcile_one : Asked → Text → ℕ → Reconciled
reconcile_one ask repository number = elim (ask repository number) [
  | none ↦ deferred
  | some (status_code, issue) ↦
      if not (status_code == 200) then deferred else read_issue repository number issue
]

abbrev add_state : Reconciled → Option (List IssueState) → Option (List IssueState)
add_state broken rest = none
add_state deferred rest = rest
add_state (reconciled s) none = none
add_state (reconciled s) (some states) = some (s ∷ states)

-- `reconcile_issues`, over the keys of the bounties in order; `none` is the error that `gather` raises.
unfoldable pub reconcile_issues : Asked → PublishedBounties → Option (List IssueState)
unfolding reconcile_one
reconcile_issues ask [] = some []
reconcile_issues ask (((repository, number), b) ∷ rest) =
    add_state (reconcile_one ask repository number) (reconcile_issues ask rest)

module _ (lower : Text → Text) where
  -- The issue of a state: by the name of its repository, its number and its id.
  abbrev is_repository : Text → ℕ → Repository → Bool
  is_repository full_name id r = r.id == id && text_eq (lower r.full_name) (lower full_name)

  abbrev pub is_issue : List Repository → IssueState → Issue → Bool
  is_issue repositories s i =
      i.number == s.number
      && i.github_id == s.github_id
      && any (is_repository s.repository i.repository_id) repositories

  -- The statement of `store_issue_states`.
  abbrev pub store_state : IssueState → Board → Board
  store_state s b = record b {
    issues =
        map
          (λ i.
            if is_issue b.repositories s i
            then record i { is_open = s.is_open; fetched_at = b.now }
            else i)
          b.issues;
  }

  unfoldable pub store_issue_states : List IssueState → Board → Board
  store_issue_states [] b = b
  store_issue_states (s ∷ states) b = store_issue_states states (store_state s b)
