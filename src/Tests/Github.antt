-- ===== src/Tests/Github.antt =====
-- Answers of GitHub: one short page, and two reviewers of whom one changes their mind.
use gitbounty.Base.{
  ℕ, ◌*◌, ◌≡◌, ◌↔◌, refl, ap, true, false, Option, none, some, List, [], ◌∷◌, drop, take, arith,
  ◌-◌, ◌==◌, if◌then◌else◌,
}
use gitbounty.Text.{Text, text, ascii}
use gitbounty.Github.{
  Response, done, status_failure, read_response, per_page, read_all, fetch_pages, repo_full_name_of,
  rate_limited,
}
use gitbounty.Github.Pages.{Serves, fetch_pages-eq}
use gitbounty.Github.Reviews.{Review, approved, changes_requested, put, verdicts, review_state_of}
use gitbounty.Github.Reviews.Latest.{last_decisive, review_state_of_iff}

abbrev names : List ℕ
names = 3 ∷ 4 ∷ 5 ∷ []

abbrev server : ℕ → Response (List ℕ)
server p = record {
  status_code = 200;
  retry_after = none;
  ratelimit_remaining = none;
  body = take per_page (drop (per_page * (p - 1)) names);
}

abbrev odd : ℕ → Option ℕ
odd n = if n == 4 then none else some n

server-Serves : Serves odd server names
unfolding read_response status_failure
server-Serves p = ap (λ n. done (take per_page (drop (per_page * n) names))) (omega arith)

fetch_pages-eq_example :
    fetch_pages odd server 10 1 [] ≡ done (read_all odd (take (per_page * 10) names))
fetch_pages-eq_example = fetch_pages-eq odd server names server-Serves 10

rate_limit : status_failure 429 (some (text "30")) none ≡ some (rate_limited (some 30))
unfolding status_failure
rate_limit = refl

repository : repo_full_name_of (text "https://api.github.com/repos/acme/site") ≡ text "acme/site"
unfolding repo_full_name_of
repository = refl

abbrev upper : Text → Text
upper s = s

abbrev review : Text → Text → Review
review state login = record { state = state; login = login }

abbrev reviews : List Review
reviews =
    review (text "CHANGES_REQUESTED") (text "mona")
    ∷ review (text "APPROVED") (text "hubot")
    ∷ review (text "APPROVED") (text "Mona")
    ∷ review (text "COMMENTED") (text "hubot")
    ∷ []

approved_by_both :
    review_state_of ascii upper reviews
    ≡ record { approved = true; changes_requested = false; reviewed = true }
unfolding review_state_of verdicts put
approved_by_both = refl

review_state_of_iff_example :
    (((review_state_of ascii upper reviews).approved ≡ true)
      ↔ ((k : Text) × (last_decisive ascii upper k reviews none ≡ some approved)))
    × (((review_state_of ascii upper reviews).changes_requested ≡ true)
        ↔ ((k : Text) × (last_decisive ascii upper k reviews none ≡ some changes_requested)))
review_state_of_iff_example = review_state_of_iff ascii upper reviews
