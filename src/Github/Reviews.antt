-- ===== src/Github/Reviews.antt =====
-- `fetch_review_state`: the reviews of a pull request, and the verdicts in them.
pub mod Latest
use gitbounty.Base.{
  ℕ, Bool, true, false, not, Option, none, some, List, [], ◌∷◌, ◌||◌, any, if◌then◌else◌,
}
use gitbounty.Text.{Text, text, text_eq, Unicode}
use gitbounty.PullRequest.{ReviewState}
use gitbounty.Github.{Response, Answer, done, failed, fetch_pages}

-- A review: its state and who wrote it.
pub record Review : Type 0 where
  pub state : Text
  pub login : Text

pub data Verdict : Type 0 where
  approved changes_requested : Verdict

abbrev pub verdict_eq : Verdict → Verdict → Bool
verdict_eq approved approved = true
verdict_eq changes_requested changes_requested = true
verdict_eq _ _ = false

-- `verdict_by_reviewer[reviewer] = state`
unfoldable pub put : Text → Verdict → List (Text × Verdict) → List (Text × Verdict)
put k v [] = (k, v) ∷ []
put k v ((j, w) ∷ m) = if text_eq j k then (k, v) ∷ m else (j, w) ∷ put k v m

-- `"APPROVED" in verdicts`, and the like.
abbrev holds : Verdict → List (Text × Verdict) → Bool
holds v m = any (λ e. verdict_eq v e.1) m

-- `str.upper` is an argument.
module _ (u : Unicode) (upper : Text → Text) where
  abbrev pub decisive : Review → Option Verdict
  decisive r =
      if text_eq (upper r.state) (text "APPROVED")
      then some approved
      else if text_eq (upper r.state) (text "CHANGES_REQUESTED")
      then some changes_requested
      else none

  abbrev pub reviewer : Review → Text
  reviewer r = u.casefold r.login

  abbrev put_decisive : Review → Option Verdict → List (Text × Verdict) → List (Text × Verdict)
  unfolding put
  put_decisive r none m = m
  put_decisive r (some v) m = put (reviewer r) v m

  -- `verdict_by_reviewer` after the loop over the reviews.
  unfoldable pub verdicts : List Review → List (Text × Verdict) → List (Text × Verdict)
  unfolding put_decisive
  verdicts [] m = m
  verdicts (r ∷ rs) m = verdicts rs (put_decisive r (decisive r) m)

  abbrev is_commented : Review → Bool
  is_commented r = text_eq (upper r.state) (text "COMMENTED")

  abbrev is_empty : List Review → Bool
  is_empty [] = true
  is_empty (r ∷ rs) = false

  unfoldable pub review_state_of : List Review → ReviewState
  unfolding verdicts
  review_state_of reviews =
      let m = verdicts reviews [] in
      record {
        approved = holds Verdict.approved m;
        changes_requested = holds Verdict.changes_requested m;
        reviewed = not (is_empty reviews) || any is_commented reviews;
      }

  abbrev pub answer_map : Answer (List Review) → Answer ReviewState
  unfolding review_state_of
  answer_map (failed e) = failed e
  answer_map (done reviews) = done (review_state_of reviews)

  -- `fetch_review_state`: at most three pages.
  unfoldable pub fetch_review_state : (ℕ → Response (List Review)) → Answer ReviewState
  unfolding fetch_pages
  fetch_review_state get = answer_map (fetch_pages some get 3 1 [])
