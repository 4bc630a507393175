-- ===== src/Tests/Requests.antt =====
-- Callers of one endpoint, a limit of two requests a minute, and a sweep between them.
use gitbounty.Base.{ℕ, ◌≡◌, refl, false, none, some, List, [], ◌∷◌, ◌-◌, ◌*◌, ◌≤◌, All, min, arith}
use gitbounty.Text.{text}
use gitbounty.RateLimit.{
  Limit, Key, Limiter, second, check, sweep, count_request, set_window, dispatch,
}
use gitbounty.RateLimit.Reference.{
  Request, InOrder, answers, unswept_answers, answers-eq-unswept_answers,
}
use gitbounty.RateLimit.Bound.{Within, requests_of, allowed, allowed-answers}
use gitbounty.RateLimit.Retry.{check_again}

abbrev two : Limit
two = record { requests = 2; window_seconds = 60 }

abbrev mona : Key
mona = (text "/api/me", text "user:7")

abbrev other : Key
other = (text "/api/me", text "user:8")

abbrev limiter : Limiter
limiter = record {
  windows = set_window mona (record { started = 400 * second; count = 1 }) (λ k. none);
  last_swept = 100 * second;
}

abbrev request : Key → ℕ → Request
request key seconds = record { key = key; limit = two; now = seconds * second }

abbrev requests : List Request
requests = request mona 410 ∷ request other 411 ∷ request mona 420 ∷ request mona 421 ∷ []

requests-InOrder : InOrder 0 requests
requests-InOrder = (
  omega arith,
  omega arith,
  (omega arith, omega arith, (omega arith, omega arith, (omega arith, omega arith, tt))),
)

answers-eq-unswept_answers_example :
    answers requests limiter ≡ unswept_answers requests limiter.windows
answers-eq-unswept_answers_example = answers-eq-unswept_answers requests 0 limiter requests-InOrder

-- The second and the third request of the caller are refused, the other caller is not.
refused : answers requests limiter ≡ (none ∷ none ∷ some 41 ∷ some 40 ∷ [])
unfolding check sweep count_request
refused = refl

requests-Within : All (Within mona 2 (400 * second)) requests
requests-Within = (
  (λ e. (omega arith, refl)),
  ((λ e. (omega arith, refl)), ((λ e. (omega arith, refl)), ((λ e. (omega arith, refl)), tt))),
)

allowed-answers_example :
    allowed mona requests (answers requests limiter) ≡ min (requests_of mona requests) (2 - 1)
allowed-answers_example =
    allowed-answers mona 2 requests 0 limiter (record { started = 400 * second; count = 1 })
      requests-InOrder refl requests-Within

abbrev full : Limiter
full = record limiter {
  windows = set_window mona (record { started = 400 * second; count = 2 }) (λ k. none);
}

full_refused : (check mona two (420 * second) full).1 ≡ some 41
unfolding check sweep count_request
full_refused = refl

check_again_example :
    (1 ≤ 41) × ((check mona two (461 * second) (check mona two (420 * second) full).0).1 ≡ none)
check_again_example =
    check_again mona two (420 * second) 41 (461 * second) full full_refused (omega arith)

-- The exempt prefix comes before every rule.
health_passes : (dispatch 1 false (text "/health") (text "ip:1") 0 full).1 ≡ none
unfolding dispatch
health_passes = refl
