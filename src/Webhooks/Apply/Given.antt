-- ===== src/Webhooks/Apply/Given.antt =====
-- What `apply_delivery` of services/webhooks.py reads: the connected repositories, the members of a
-- payload and GitHub's answers, and the results of its steps.
use gitbounty.Base.{
  ℕ, Bool, true, false, Option, none, some, List, [], ◌∷◌, ◌&&◌, ◌==◌, map, opt_eq, get_or_default,
  if◌then◌else◌,
}
use gitbounty.Text.{Text, text, one_of}
use gitbounty.Text.Decimal.{decimal}
use gitbounty.Github.{Item}
use gitbounty.Points.Result.{
  Result, Error, ok, err, unique_violation, check_violation, foreign_key_violation, value_error,
}
use gitbounty.Sync.{Tables}

-- A row of `connected_repositories`.
pub record Connected : Type 0 where
  pub github_id : ℕ
  pub installation_id : ℕ
  pub full_name : Text
  pub active : Bool

pub record State : Type 0 where
  pub tables : Tables
  pub connected : List Connected

-- The members of a payload; a pull request and an issue are those that were sent.
pub record Payload : Type 0 where
  pub action : Option Text
  pub installation_id : Option ℕ
  pub app_id : Option ℕ
  pub removed : List ℕ
  pub repository_id : Option ℕ
  pub repository_name : Option Text
  pub repository_private : Option Bool
  pub issue_number : ℕ
  pub issue_id : Option ℕ
  pub pull_merged : Bool
  pub pull_number : ℕ
  pub pull_id : ℕ
  pub pull_user_id : ℕ

-- A repository, an issue and a pull request as GitHub says that they are now. An author's id is a
-- number below which there is only zero; `none` is a value of another kind.
pub record Repo : Type 0 where
  pub id : ℕ
  pub owner_id : ℕ
  pub private : Option Bool

pub record CurrentIssue : Type 0 where
  pub number : ℕ
  pub id : Option ℕ
  pub has_pull_request : Bool
  pub state : Option Text

pub record Pull : Type 0 where
  pub id : ℕ
  pub merged : Bool
  pub merged_at : Option Text
  pub author_id : Option ℕ
  pub base_repository_id : ℕ
  pub item : Item

-- What a step of the handler gives: a value, "ignored", or the type of an error.
pub data Run {ℓ} (A : Type ℓ) : Type ℓ where
  found : A → Run A
  ignores : Run A
  breaks : Text → Run A

infixl 5 ◌>>=◌ ◌>>◌
abbrev pub ◌>>=◌ {ℓ κ} : {A : Type ℓ} {B : Type κ} → Run A → (A → Run B) → Run B
found a >>= f = f a
ignores >>= f = ignores
breaks e >>= f = breaks e

abbrev pub ◌>>◌ {ℓ} : {B : Type ℓ} → Run (Unit {0}) → Run B → Run B
m >> k = m >>= λ _. k

abbrev pub only_if : Bool → Run (Unit {0})
only_if true = found tt
only_if false = ignores

-- GitHub; the evidence that an escrow bounty may be paid, `none` if it may not, and its reservation.
pub record App (E : Type 0) : Type 0 where
  pub github_app_id : Text
  pub parse_time : Text → ℕ
  pub installation_for : Text → Run ℕ
  pub repository : Text → Run Repo
  pub issue : Text → ℕ → Run CurrentIssue
  pub pull : Text → ℕ → Run Pull
  pub changed_paths : Text → ℕ → Run (List Text)
  pub validate_cash : Tables → Repo → Pull → ℕ → Run (Option E)
  pub reserve_cash : E → Pull → ℕ → Tables → Run Tables

abbrev pub is_given : Option Text → Bool
is_given none = false
is_given (some []) = false
is_given (some (c ∷ s)) = true

-- The state of a repository counts as private if it is not said.
abbrev pub is_private : Option Bool → Bool
is_private p = get_or_default p true

abbrev pub is_action : Payload → List Text → Bool
is_action p actions = elim p.action [ none ↦ false | some a ↦ one_of a actions ]

-- `update connected_repositories set active = false where …`
abbrev pub deactivate : (Connected → Bool) → State → State
deactivate test s = record s {
  connected = map (λ c. if test c then record c { active = false } else c) s.connected;
}

abbrev pub of_installation : Option ℕ → Connected → Bool
of_installation i c = elim i [ none ↦ false | some n ↦ c.installation_id == n ]

-- `str(installation.get("app_id"))`
abbrev pub app_text : Option ℕ → Text
app_text none = text "None"
app_text (some n) = decimal n

unfoldable pub find_connected : Option ℕ → Option ℕ → List Connected → Option Connected
find_connected repository_id installation_id [] = none
find_connected repository_id installation_id (c ∷ cs) =
    if opt_eq (some c.github_id) repository_id && of_installation installation_id c && c.active
    then some c
    else find_connected repository_id installation_id cs

abbrev error_name : Error → Text
error_name unique_violation = text "UniqueViolationError"
error_name check_violation = text "CheckViolationError"
error_name foreign_key_violation = text "ForeignKeyViolationError"
error_name value_error = text "ValueError"

abbrev pub of_result {ℓ} : {A : Type ℓ} → Result A → Run A
of_result (ok a) = found a
of_result (err e) = breaks (error_name e)

abbrev pub or_break {ℓ} : {A : Type ℓ} → Text → Option A → Run A
or_break e none = breaks e
or_break e (some a) = found a

abbrev pub or_ignore {ℓ} : {A : Type ℓ} → Option A → Run A
or_ignore none = ignores
or_ignore (some a) = found a
