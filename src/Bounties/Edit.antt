-- ===== src/Bounties/Edit.antt =====
-- `update_bounty` and `_action_for` of routes/maintainer.py.
use gitbounty.Base.{
  ℕ, Bool, true, false, not, Option, none, some, List, [], ◌∷◌, ◌++◌, ◌&&◌, ◌==◌, any, map,
  get_or_default, if◌then◌else◌,
}
use gitbounty.Text.{Text, text, text_eq, Unicode}
use gitbounty.PullRequest.{Category, other}
use gitbounty.PullRequest.Lifecycle.{maintainer}
use gitbounty.Points.Result.{check_violation}
use gitbounty.Bounties.{is_bounty_of, find_bounty, points_are_allowed}
use gitbounty.Bounties.Rows.{
  Answer, done, refused, raised, ◌>>=◌, Board, Bounty, BountyStatus, Action, Change, Repository,
  Issue,
}
use gitbounty.Bounties.Access.{Repo, Read, authorized_repository}

-- `UpdateBountyRequest`
pub record Update : Type 0 where
  pub points : Option ℕ
  pub category : Option Category
  pub status : Option BountyStatus
  pub reason : Text

abbrev pub status_eq : BountyStatus → BountyStatus → Bool
status_eq BountyStatus.published BountyStatus.published = true
status_eq BountyStatus.unpublished BountyStatus.unpublished = true
status_eq BountyStatus.archived BountyStatus.archived = true
status_eq _ _ = false

abbrev pub category_eq : Category → Category → Bool
category_eq Category.frontend Category.frontend = true
category_eq Category.backend Category.backend = true
category_eq Category.fullstack Category.fullstack = true
category_eq Category.docs Category.docs = true
category_eq Category.testing Category.testing = true
category_eq Category.devops Category.devops = true
category_eq Category.design Category.design = true
category_eq Category.mobile Category.mobile = true
category_eq Category.other Category.other = true
category_eq _ _ = false

abbrev action_of_status : BountyStatus → Action
action_of_status BountyStatus.unpublished = Action.unpublished
action_of_status BountyStatus.archived = Action.archived
action_of_status BountyStatus.published = Action.republished

-- `_action_for`
unfoldable pub action_for : Bounty → Category → ℕ → BountyStatus → Category → Action
action_for before category_before points new_status category =
    if not (status_eq new_status before.status)
    then action_of_status new_status
    else if not (points == before.points)
    then Action.repriced
    else if not (category_eq category category_before)
    then Action.recategorised
    else Action.repriced

abbrev action_name : Action → Text
action_name Action.published = text "published"
action_name Action.repriced = text "repriced"
action_name Action.recategorised = text "recategorised"
action_name Action.unpublished = text "unpublished"
action_name Action.republished = text "republished"
action_name Action.archived = text "archived"

abbrev is_empty : Text → Bool
is_empty [] = true
is_empty (c ∷ s) = false

-- "Nothing to change", and the check of the table.
unfoldable pub checked : Bool → Bool → Board → Answer Board
checked unchanged allowed s =
    if unchanged then refused 400 else if not allowed then raised check_violation else done s

module _ (lower : Text → Text) where
  abbrev is_issue_of : List Repository → Text → ℕ → Issue → Bool
  is_issue_of rs name number i =
      i.number == number
      && any (λ r. r.id == i.repository_id && text_eq (lower r.full_name) (lower name)) rs

  abbrev pub category_of : List Repository → Text → ℕ → List Issue → Category
  category_of rs name number [] = other
  category_of rs name number (i ∷ is) =
      if is_issue_of rs name number i then i.category else category_of rs name number is

  -- `update issue_points set points = $3, status = $4, updated_at = now()`
  abbrev pub changed_bounty : ℕ → Text → ℕ → ℕ → BountyStatus → Bounty → Bounty
  changed_bounty now name number points status b =
      if is_bounty_of lower name number b
      then record b { points = points; status = status; updated_at = now }
      else b

  -- `update issues set category = $3, category_source = 'maintainer', fetched_at = now()`
  abbrev categorised_issue : ℕ → List Repository → Text → ℕ → Category → Issue → Issue
  categorised_issue now rs name number category i =
      if is_issue_of rs name number i
      then record i { category = category; category_source = maintainer; fetched_at = now }
      else i

  abbrev with_category : Text → ℕ → Option Category → Board → List Issue
  with_category name number none s = s.issues
  with_category name number (some c) s =
      map (categorised_issue s.now s.repositories name number c) s.issues

  -- The columns that change, their values, and the entry of the history.
  abbrev changed_board : Text → ℕ → ℕ → BountyStatus → Option Category → Change → Board → Board
  changed_board name number points status category c s = record s {
    bounties = map (changed_bounty s.now name number points status) s.bounties;
    issues = with_category name number category s;
    history = s.history ++ c ∷ [];
  }

  -- `update_bounty` in the transaction, of an account and a login.
  unfoldable pub change_bounty : ℕ → Text → Text → ℕ → Update → Board → Answer Board
  unfolding find_bounty action_for checked
  change_bounty actor_id actor_login name number r s =
      elim (find_bounty lower name number s.bounties) [
        | none ↦ refused 404
        | some before ↦
            let category_before = category_of s.repositories name number s.issues in
            let points = get_or_default r.points before.points in
            let status = get_or_default r.status before.status in
            let category = get_or_default r.category category_before in
            let action = action_for before category_before points status category in
            checked
              (points == before.points
                && status_eq status before.status
                && category_eq category category_before)
              (points_are_allowed points)
              (changed_board name number points status r.category
                (record {
                  repo_full_name = name;
                  issue_number = number;
                  action = action;
                  points_before = some before.points;
                  points_after = points;
                  status_before = some before.status;
                  status_after = status;
                  category_before = some category_before;
                  category_after = category;
                  actor_user_id = actor_id;
                  actor_login = actor_login;
                  reason =
                      if is_empty r.reason
                      then text "Changed from the maintainer workspace ("
                        ++ action_name action
                        ++ text ")."
                      else r.reason;
                  created_at = s.now;
                })
                s)
      ]

  -- `update_bounty`
  unfoldable pub update_bounty :
      Unicode → (Text → Read (Option Repo)) → ℕ → Text → Text → ℕ → Update → Board → Answer Board
  unfolding change_bounty authorized_repository
  update_bounty u get_repo actor_id actor_login name number r s =
      if number == 0 then refused 400 else do
        repo ← authorized_repository u actor_login (get_repo name)
        change_bounty actor_id actor_login name number r s
