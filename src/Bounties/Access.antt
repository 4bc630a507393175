-- ===== src/Bounties/Access.antt =====
-- Who may publish: `can_publish_bounties` of github.py, and `_authorized_repository` of
-- routes/maintainer.py. What GitHub answers is an argument.
use gitbounty.Base.{
  ℕ, Bool, true, false, not, Option, none, some, ◌&&◌, ◌||◌, ◌==◌, is_some, if◌then◌else◌,
}
use gitbounty.Text.{Text, text, text_eq, Unicode}
use gitbounty.Bounties.Rows.{Answer, done, refused}

-- A repository in GitHub's answer: the members that the code reads.
pub record Repo : Type 0 where
  pub id : ℕ
  pub full_name : Text
  pub owner_login : Text
  pub owner_type : Option Text
  pub language : Option Text
  pub description : Option Text
  pub stargazers_count : ℕ
  pub created_at : Option ℕ
  pub admin : Bool
  pub maintain : Bool
  pub private : Bool
  pub archived : Bool
  pub has_issues : Bool
  pub open_issues_count : ℕ

pub data Failure : Type 0 where
  auth_error rate_limited github_error : Failure

pub data Read {ℓ} (A : Type ℓ) : Type ℓ where
  answered : A → Read A
  failed : Failure → Read A

-- `_github_error`
unfoldable pub github_error_code : Failure → ℕ
github_error_code auth_error = 401
github_error_code rate_limited = 429
github_error_code github_error = 502

-- Why `_blocked_reason` blocks a repository.
pub data Block : Type 0 where
  is_private is_archived no_issues no_open_issues : Block

unfoldable pub blocked_reason : Repo → Option Block
blocked_reason r =
    if r.private
    then some is_private
    else if r.archived
    then some is_archived
    else if not r.has_issues
    then some no_issues
    else if r.open_issues_count == 0
    then some no_open_issues
    else none

abbrev is_user : Option Text → Bool
is_user none = false
is_user (some t) = text_eq t (text "User")

-- `_open_issues`, of GitHub's answer.
abbrev pub open_issues {ℓ} : {A : Type ℓ} → Read A → Answer A
unfolding github_error_code
open_issues (failed e) = refused (github_error_code e)
open_issues (answered a) = done a

module _ (u : Unicode) where
  unfoldable pub can_publish_bounties : Repo → Text → Bool
  can_publish_bounties r github_login =
      if r.admin || r.maintain
      then true
      else is_user r.owner_type && text_eq (u.casefold r.owner_login) (u.casefold github_login)

  -- `_authorized_repository`, of GitHub's answer.
  unfoldable pub authorized_repository : Text → Read (Option Repo) → Answer Repo
  unfolding github_error_code blocked_reason can_publish_bounties
  authorized_repository github_login (failed e) = refused (github_error_code e)
  authorized_repository github_login (answered none) = refused 404
  authorized_repository github_login (answered (some r)) =
      if not (can_publish_bounties r github_login)
      then refused 403
      else if is_some (blocked_reason r) && not (r.open_issues_count == 0)
      then refused 400
      else if r.private
      then refused 400
      else done r
