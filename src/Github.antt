-- ===== src/Github.antt =====
-- features/merged_prs/github.py: what is asked of GitHub, and how its answers are read. A request is
-- an argument: a function from what is asked to a response. An answer's JSON is a record of the
-- members that the code reads, a member that may be missing an option.
pub mod Pages
pub mod Reviews
use gitbounty.Base.{
  ℕ, zero, suc, ◌+◌, Bool, true, false, not, Option, none, some, List, [], ◌∷◌, ◌++◌, ◌&&◌, ◌||◌,
  ◌==◌, ltb, leb, length, drop, if◌then◌else◌, get_or_default,
}
use gitbounty.Text.{Text, text, text_eq, starts_with}
use gitbounty.Text.Decimal.{value_of}
use gitbounty.PullRequest.{MergedPr, AuthoredPr}

-- `GitHubError` and its two subclasses.
pub data Failure : Type 0 where
  auth_error : Failure
  rate_limited : Option ℕ → Failure
  github_error : Failure

pub data Answer {ℓ} (A : Type ℓ) : Type ℓ where
  done : A → Answer A
  failed : Failure → Answer A

pub record Response {ℓ} (A : Type ℓ) : Type ℓ where
  pub status_code : ℕ
  pub retry_after : Option Text
  pub ratelimit_remaining : Option Text
  pub body : A

abbrev is_ascii_digit : ℕ → Bool
is_ascii_digit c = leb b'0' c && leb c b'9'

abbrev all_digits : Text → Bool
all_digits [] = true
all_digits (c ∷ s) = is_ascii_digit c && all_digits s

-- `int(retry_after) if retry_after and retry_after.isdigit() else None`, of an ASCII header.
abbrev pub seconds : Option Text → Option ℕ
seconds none = none
seconds (some []) = none
seconds (some (c ∷ s)) = if all_digits (c ∷ s) then some (value_of 0 (c ∷ s)) else none

abbrev is_given : Option Text → Bool
is_given none = false
is_given (some []) = false
is_given (some (c ∷ s)) = true

abbrev is_zero : Option Text → Bool
is_zero none = false
is_zero (some s) = text_eq s (text "0")

-- `_raise_for_status`: the failure that it raises, if any.
unfoldable pub status_failure : ℕ → Option Text → Option Text → Option Failure
status_failure status_code retry_after remaining =
    if status_code == 401
    then some auth_error
    else if status_code == 403 || status_code == 429
    then some (
        if is_given retry_after || is_zero remaining
        then rate_limited (seconds retry_after)
        else github_error)
    else if leb 400 status_code
    then some github_error
    else none

unfoldable pub read_response {ℓ} : {A : Type ℓ} → Response A → Answer A
unfolding status_failure
read_response r = elim (status_failure r.status_code r.retry_after r.ratelimit_remaining) [
  | none ↦ done r.body
  | some f ↦ failed f
]

-- What stands behind the first occurrence of a text, or nothing.
abbrev after_text : Text → Text → Text
after_text p [] = []
after_text p (c ∷ s) =
    let rest = after_text p s in if starts_with (c ∷ s) p then drop (length p) (c ∷ s) else rest

-- `_repo_full_name`
unfoldable pub repo_full_name_of : Text → Text
repo_full_name_of repository_url = after_text (text "/repos/") repository_url

pub record Item : Type 0 where
  pub id : ℕ
  pub repository_url : Option Text
  pub number : ℕ
  pub title : Option Text
  pub html_url : Option Text
  pub login : Option Text
  pub label_names : List (Option Text)
  pub body : Option Text
  pub draft : Option Bool
  pub state : Option Text
  pub is_pull_request : Bool
  pub merged_at : Option Text
  pub created_at : Option Text
  pub updated_at : Option Text
  pub closed_at : Option Text

abbrev or_empty : Option Text → Text
or_empty t = get_or_default t []

-- `label["name"] for label in … if "name" in label`
abbrev named : List (Option Text) → List Text
named [] = []
named (none ∷ labels) = named labels
named (some name ∷ labels) = name ∷ named labels

module _ (parse_time : Text → ℕ) where
  -- `_timestamp`, with `datetime.fromisoformat` as an argument.
  abbrev pub timestamp : Option Text → Option ℕ
  timestamp none = none
  timestamp (some []) = none
  timestamp (some (c ∷ s)) = some (parse_time (c ∷ s))

  -- `_parse_item`
  unfoldable pub parse_item : Item → Option MergedPr
  unfolding repo_full_name_of
  parse_item item = elim (timestamp item.merged_at) [
    | none ↦ none
    | some at ↦ some (record {
      github_pr_id = item.id;
      repo_full_name = repo_full_name_of (or_empty item.repository_url);
      number = item.number;
      title = or_empty item.title;
      url = or_empty item.html_url;
      merged_at = at;
      author_login = or_empty item.login;
      labels = named item.label_names;
      body = or_empty item.body;
      author_user_id = none;
    })
  ]

  abbrev is_closed_state : Option Text → Bool
  is_closed_state none = false
  is_closed_state (some s) = text_eq s (text "closed")

  -- `_parse_any_item`
  unfoldable pub parse_any_item : Item → Option AuthoredPr
  unfolding repo_full_name_of
  parse_any_item item =
      if not item.is_pull_request
      then none
      else some (record {
        github_pr_id = item.id;
        repo_full_name = repo_full_name_of (or_empty item.repository_url);
        number = item.number;
        title = or_empty item.title;
        url = or_empty item.html_url;
        author_login = or_empty item.login;
        labels = named item.label_names;
        body = or_empty item.body;
        is_draft = get_or_default item.draft false;
        is_closed = is_closed_state item.state;
        merged_at = timestamp item.merged_at;
        created_at = timestamp item.created_at;
        updated_at = timestamp item.updated_at;
        closed_at = timestamp item.closed_at;
        author_user_id = none;
      })

abbrev pub per_page : ℕ
per_page = 100

abbrev pub max_pages : ℕ
max_pages = 10

abbrev pub cons_some {ℓ} : {A : Type ℓ} → Option A → List A → List A
cons_some none ys = ys
cons_some (some y) ys = y ∷ ys

-- The members of a page that a reader accepts, in order.
abbrev pub read_all {ℓ κ} : {A : Type ℓ} {B : Type κ} → (A → Option B) → List A → List B
read_all f [] = []
read_all f (x ∷ xs) = cons_some (f x) (read_all f xs)

-- The loop over pages of `fetch_merged_prs`, `fetch_authored_prs` and `fetch_review_state`: so many
-- pages are left, and the next has a number. It stops at a page that is not full.
unfoldable pub fetch_pages {ℓ κ} :
    {A : Type ℓ} {B : Type κ}
    → (A → Option B)
    → (ℕ → Response (List A))
    → ℕ
    → ℕ
    → List B
    → Answer (List B)
unfolding read_response
fetch_pages f get zero page found = done found
fetch_pages f get (suc left) page found = elim (read_response (get page)) [
  | failed e ↦ failed e
  | done items ↦
      let next = fetch_pages f get left (page + 1) (found ++ read_all f items) in
      if ltb (length items) per_page then done (found ++ read_all f items) else next
]

-- `fetch_merged_prs` and `fetch_authored_prs`, of the pages of the search.
unfoldable pub fetch_merged_prs :
    (Text → ℕ) → (ℕ → Response (List Item)) → ℕ → Answer (List MergedPr)
unfolding fetch_pages parse_item
fetch_merged_prs parse_time search pages = fetch_pages (parse_item parse_time) search pages 1 []

unfoldable pub fetch_authored_prs :
    (Text → ℕ) → (ℕ → Response (List Item)) → ℕ → Answer (List AuthoredPr)
unfolding fetch_pages parse_any_item
fetch_authored_prs parse_time search pages =
    fetch_pages (parse_any_item parse_time) search pages 1 []

-- `fetch_changed_paths` and `fetch_issue_labels`: one request, and the names in its answer.
unfoldable pub fetch_names : Response (List (Option Text)) → Answer (List Text)
unfolding read_response
fetch_names r = elim (read_response r) [ failed e ↦ failed e | done names ↦ done (named names) ]
