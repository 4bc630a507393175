-- ===== src/PullRequest.antt =====
-- features/merged_prs/models.py: pull requests as GitHub describes them, and published bounties.
-- A `datetime` is its number of microseconds since a fixed instant.
pub mod Lifecycle
pub mod Eligible
use gitbounty.Base.{
  ℕ, Bool, true, false, Option, none, some, List, [], ◌∷◌, ◌++◌, ◌&&◌, ◌==◌, if◌then◌else◌,
}
use gitbounty.Text.{Text, text_eq, before_first, Unicode}
use gitbounty.IssueLinks.{IssueReference, find_closed_issues}

pub data Category : Type 0 where
  frontend backend fullstack docs testing devops design mobile other : Category

pub record MergedPr : Type 0 where
  pub github_pr_id : ℕ
  pub repo_full_name : Text
  pub number : ℕ
  pub title : Text
  pub url : Text
  pub merged_at : ℕ
  pub author_login : Text
  pub labels : List Text
  pub body : Text
  pub author_user_id : Option ℕ

pub data PullRequestState : Type 0 where
  draft open_state in_review changes_requested approved merged closed_unmerged : PullRequestState

-- `PullRequestState.is_open`
abbrev pub is_open : PullRequestState → Bool
is_open PullRequestState.merged = false
is_open PullRequestState.closed_unmerged = false
is_open _ = true

pub record ReviewState : Type 0 where
  pub approved : Bool
  pub changes_requested : Bool
  pub reviewed : Bool

pub record AuthoredPr : Type 0 where
  pub github_pr_id : ℕ
  pub repo_full_name : Text
  pub number : ℕ
  pub title : Text
  pub url : Text
  pub author_login : Text
  pub labels : List Text
  pub body : Text
  pub is_draft : Bool
  pub is_closed : Bool
  pub merged_at : Option ℕ
  pub created_at : Option ℕ
  pub updated_at : Option ℕ
  pub closed_at : Option ℕ
  pub author_user_id : Option ℕ

-- `AuthoredPR.with_author_user_id`, `MergedPR.with_author_user_id`
abbrev pub with_author_user_id : ℕ → AuthoredPr → AuthoredPr
with_author_user_id user_id pr = record pr { author_user_id = some user_id }

abbrev pub merged_with_author_user_id : ℕ → MergedPr → MergedPr
merged_with_author_user_id user_id pr = record pr { author_user_id = some user_id }

-- `repo_owner`
abbrev pub repo_owner : Text → Text
repo_owner repo_full_name = before_first b'/' repo_full_name

-- `is_self_merge`, of either shape: the owner of the repository against the author.
unfoldable pub is_self_merge : Unicode → Text → Text → Bool
is_self_merge u repo_full_name author_login =
    text_eq (u.casefold (repo_owner repo_full_name)) (u.casefold author_login)

-- `closed_issues`, of either shape.
unfoldable pub closed_issues : Unicode → Text → Text → Text → List IssueReference
closed_issues u title body repo_full_name =
    find_closed_issues u (title ++ (b'\n' ∷ body)) repo_full_name

-- The `MergedPR` with the fields of an `AuthoredPR` and the time of its merge.
abbrev pub merged_form : AuthoredPr → ℕ → MergedPr
merged_form pr at = record {
  github_pr_id = pr.github_pr_id;
  repo_full_name = pr.repo_full_name;
  number = pr.number;
  title = pr.title;
  url = pr.url;
  merged_at = at;
  author_login = pr.author_login;
  labels = pr.labels;
  body = pr.body;
  author_user_id = pr.author_user_id;
}

-- `AuthoredPR.as_merged`; `none` is the `ValueError`.
unfoldable pub as_merged : AuthoredPr → Option MergedPr
as_merged pr = elim pr.merged_at [ none ↦ none | some at ↦ some (merged_form pr at) ]

abbrev review_verdict : Option ReviewState → PullRequestState
review_verdict none = PullRequestState.open_state
review_verdict (some r) =
    if r.changes_requested
    then PullRequestState.changes_requested
    else if r.approved
    then PullRequestState.approved
    else if r.reviewed
    then PullRequestState.in_review
    else PullRequestState.open_state

unfoldable pub pull_request_state : AuthoredPr → Option ReviewState → PullRequestState
pull_request_state pr review = elim pr.merged_at [
  | some at ↦ PullRequestState.merged
  | none ↦
      if pr.is_closed
      then PullRequestState.closed_unmerged
      else if pr.is_draft
      then PullRequestState.draft
      else review_verdict review
]

pub record PublishedBounty : Type 0 where
  pub repo_full_name : Text
  pub issue_number : ℕ
  pub points : ℕ
  pub category : Category
  pub maintainer_user_id : Option ℕ

-- `PublishedBounty.key`
abbrev pub bounty_key : Unicode → PublishedBounty → Text × ℕ
bounty_key u b = (u.casefold b.repo_full_name, b.issue_number)

-- `PublishedBounties`: the items of the mapping.
abbrev pub PublishedBounties : Type 0
PublishedBounties = List ((Text × ℕ) × PublishedBounty)

abbrev pub same_key : Text × ℕ → Text × ℕ → Bool
same_key (s, n) (t, m) = text_eq s t && n == m

-- `published.get(key)`
unfoldable pub get : PublishedBounties → Text × ℕ → Option PublishedBounty
get [] k = none
get ((j, b) ∷ m) k = if same_key j k then some b else get m k

-- `found[key] = bounty`
unfoldable pub put : Text × ℕ → PublishedBounty → PublishedBounties → PublishedBounties
put k b [] = (k, b) ∷ []
put k b ((j, c) ∷ m) = if same_key j k then (k, b) ∷ m else (j, c) ∷ put k b m
