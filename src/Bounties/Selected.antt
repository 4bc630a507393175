-- ===== src/Bounties/Selected.antt =====
-- What `publish_bounties` of routes/maintainer.py is asked to publish, and its statements on
-- repositories and issues.
use gitbounty.Base.{
  ℕ, suc, Bool, true, false, not, Option, none, some, List, [], ◌∷◌, ◌++◌, ◌&&◌, ◌||◌, ◌==◌, any,
  map, if◌then◌else◌,
}
use gitbounty.Text.{Text, text_eq, Unicode}
use gitbounty.PullRequest.{Category}
use gitbounty.PullRequest.Lifecycle.{maintainer}
use gitbounty.Points.Result.{unique_violation}
use gitbounty.Bounties.Rows.{Answer, done, refused, raised, ◌>>=◌, Board, Repository, Issue}
use gitbounty.Bounties.Access.{Repo}

-- `BountyInput`, after its validation.
pub record Input : Type 0 where
  pub repository : Text
  pub number : ℕ
  pub points : ℕ
  pub category : Category
  pub reward_avax : Option Text
  pub reward_usdc : Option Text
  pub escrow_work_ends_at : Option ℕ

-- An issue in GitHub's answer; a label that has no name is left out by `_labels`.
pub record OpenIssue : Type 0 where
  pub id : ℕ
  pub number : ℕ
  pub title : Text
  pub html_url : Text
  pub labels : List Text
  pub comments : ℕ
  pub created_at : Option ℕ
  pub updated_at : Option ℕ

abbrev same_input : Unicode → Input → Input → Bool
same_input u a b =
    text_eq (u.casefold a.repository) (u.casefold b.repository) && a.number == b.number

-- `len(issue_keys) != len(request.issues)`
abbrev pub has_repeats : Unicode → List Input → Bool
has_repeats u [] = false
has_repeats u (i ∷ is) = any (same_input u i) is || has_repeats u is

-- `requested_by_repo.setdefault(…).append(…)`
unfoldable pub add_request : Input → List (Text × List Input) → List (Text × List Input)
add_request i [] = (i.repository, i ∷ []) ∷ []
add_request i ((r, is) ∷ rs) =
    if text_eq r i.repository then (r, is ++ i ∷ []) ∷ rs else (r, is) ∷ add_request i rs

unfoldable pub requested_by_repo : List Input → List (Text × List Input) → List (Text × List Input)
unfolding add_request
requested_by_repo [] rs = rs
requested_by_repo (i ∷ is) rs = requested_by_repo is (add_request i rs)

-- `by_number[number]`: a dictionary keeps the last issue of a number.
abbrev last_issue : ℕ → List OpenIssue → Option OpenIssue → Option OpenIssue
last_issue n [] found = found
last_issue n (i ∷ is) found = last_issue n is (if i.number == n then some i else found)

-- The issues of the inputs, or a refusal if one is not open.
unfoldable pub select_issues : List OpenIssue → List Input → Answer (List (Input × OpenIssue))
select_issues opened [] = done []
select_issues opened (i ∷ is) = elim (last_issue i.number opened none) [
  | none ↦ refused 400
  | some issue ↦ do rest ← select_issues opened is; done ((i, issue) ∷ rest)
]

-- `_upsert_repository` sets these columns.
abbrev refreshed_repository : ℕ → Repo → Repository → Repository
refreshed_repository now repo r =
    if r.github_id == repo.id
    then record r {
      full_name = repo.full_name;
      owner_login = repo.owner_login;
      owner_type = repo.owner_type;
      primary_language = repo.language;
      description = repo.description;
      stargazers_count = repo.stargazers_count;
      fetched_at = now;
    }
    else r

abbrev new_repository : Board → Repo → Repository
new_repository s repo = record {
  id = s.next_repository;
  github_id = repo.id;
  full_name = repo.full_name;
  owner_login = repo.owner_login;
  owner_type = repo.owner_type;
  primary_language = repo.language;
  description = repo.description;
  stargazers_count = repo.stargazers_count;
  repo_created_at = repo.created_at;
  fetched_at = s.now;
}

abbrev repository_id_of : ℕ → List Repository → ℕ
repository_id_of github_id [] = 0
repository_id_of github_id (r ∷ rs) =
    if r.github_id == github_id then r.id else repository_id_of github_id rs

-- `full_name text not null unique`
abbrev takes_name : Repo → Repository → Bool
takes_name repo r = text_eq r.full_name repo.full_name && not (r.github_id == repo.id)

unfoldable pub upsert_repository : Repo → Board → Answer (Board × ℕ)
upsert_repository repo s =
    if any (takes_name repo) s.repositories
    then raised unique_violation
    else if any (λ r. r.github_id == repo.id) s.repositories
    then done (
      record s { repositories = map (refreshed_repository s.now repo) s.repositories },
      repository_id_of repo.id s.repositories,
    )
    else done (
      record s {
        repositories = s.repositories ++ new_repository s repo ∷ [];
        next_repository = suc s.next_repository;
      },
      s.next_repository,
    )

abbrev new_issue : ℕ → ℕ → Repo → OpenIssue → Category → Issue
new_issue now repository_id repo issue category = record {
  github_id = issue.id;
  repository_id = repository_id;
  number = issue.number;
  title = issue.title;
  html_url = issue.html_url;
  is_open = true;
  category = category;
  category_source = maintainer;
  language = repo.language;
  labels = issue.labels;
  comments_count = issue.comments;
  issue_created_at = issue.created_at;
  issue_updated_at = issue.updated_at;
  fetched_at = now;
}

-- The row that the statement writes: on a conflict the number and the time at which the issue was
-- opened stay.
abbrev written_issue : Issue → List Issue → Issue
written_issue new [] = new
written_issue new (i ∷ is) =
    if i.github_id == new.github_id
    then record new { number = i.number; issue_created_at = i.issue_created_at }
    else written_issue new is

abbrev replaced_issue : Issue → Issue → Issue
replaced_issue row i = if i.github_id == row.github_id then row else i

-- `issues_repo_number_key`
abbrev takes_number : Issue → Issue → Bool
takes_number row i =
    i.repository_id == row.repository_id
    && i.number == row.number
    && not (i.github_id == row.github_id)

unfoldable pub upsert_issue : ℕ → Repo → OpenIssue → Category → Board → Answer Board
upsert_issue repository_id repo issue category s =
    let new = new_issue s.now repository_id repo issue category in
    let row = written_issue new s.issues in
    if any (takes_number row) s.issues
    then raised unique_violation
    else if any (λ i. i.github_id == row.github_id) s.issues
    then done (record s { issues = map (replaced_issue row) s.issues })
    else done (record s { issues = s.issues ++ row ∷ [] })
