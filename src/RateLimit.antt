-- ===== src/RateLimit.antt =====
-- ratelimit.py: the fixed-window limiter and the rules of the middleware. The clock counts
-- nanoseconds; the dictionary of windows is a function.
pub mod Reference
pub mod Bound
pub mod Retry
use gitbounty.Base.{
  ℕ, ◌+◌, ◌*◌, ◌-◌, ◌/◌, Bool, Option, none, some, List, [], ◌∷◌, ◌&&◌, ◌||◌, max, ltb, leb,
  if◌then◌else◌, any,
}
use gitbounty.Text.{Text, text, text_eq, starts_with}

pub record Limit : Type 0 where
  pub requests : ℕ
  pub window_seconds : ℕ

abbrev limited : ℕ → ℕ → Limit
limited requests window_seconds = record { requests = requests; window_seconds = window_seconds }

-- `RULES`
abbrev pub rules : List (Text × Limit)
rules =
    (text "/api/sponsored", limited 30 60)
    ∷ (text "/api/me/sync", limited 6 60)
    ∷ (text "/api/maintainer/bounties", limited 30 60)
    ∷ (text "/api/maintainer/repositories", limited 60 60)
    ∷ (text "/api/moderation/flags", limited 20 60)
    ∷ (text "/auth/github", limited 20 60)
    ∷ (text "/test-auth/", limited 60 60)
    ∷ (text "/api/leaderboard", limited 120 60)
    ∷ (text "/api/issues", limited 120 60)
    ∷ (text "/api/me", limited 240 60)
    ∷ []

-- `EXEMPT_PREFIXES`
abbrev pub exempt_prefixes : List Text
exempt_prefixes =
    text "/health" ∷ text "/ready" ∷ text "/docs" ∷ text "/openapi.json" ∷ text "/redoc" ∷ []

-- `_Window`
pub record Window : Type 0 where
  pub started : ℕ
  pub count : ℕ

abbrev pub Key : Type 0
Key = Text × Text

abbrev pub key_eq : Key → Key → Bool
key_eq j k = text_eq j.0 k.0 && text_eq j.1 k.1

abbrev pub Windows : Type 0
Windows = Key → Option Window

-- `FixedWindowLimiter`
pub record Limiter : Type 0 where
  pub windows : Windows
  pub last_swept : ℕ

abbrev pub second : ℕ
second = 1000000000

abbrev longest_of : List (Text × Limit) → ℕ
longest_of [] = 0
longest_of ((prefix, limit) ∷ rest) = max limit.window_seconds (longest_of rest)

-- `longest` of `_sweep`
abbrev pub longest : ℕ
longest = longest_of rules

abbrev pub fresh_only : ℕ → Option Window → Option Window
fresh_only now none = none
fresh_only now (some w) = if ltb (now - w.started) (longest * second) then some w else none

-- `_sweep`
unfoldable pub sweep : ℕ → Limiter → Limiter
sweep now l =
    if ltb (now - l.last_swept) (300 * second)
    then l
    else record { windows = λ k. fresh_only now (l.windows k); last_swept = now }

abbrev pub set_window : Key → Window → Windows → Windows
set_window k w windows j = if key_eq k j then some w else windows j

abbrev pub wait : Limit → ℕ → Window → ℕ
wait limit now w = max 1 ((limit.window_seconds * second + w.started - now) / second + 1)

-- The window after one more request, and the seconds to wait if it is refused.
unfoldable pub count_request : Limit → ℕ → Option Window → Window × Option ℕ
count_request limit now none = (record { started = now; count = 1 }, none)
count_request limit now (some w) =
    if leb (limit.window_seconds * second) (now - w.started)
    then (record { started = now; count = 1 }, none)
    else (
      record w { count = w.count + 1 },
      if ltb limit.requests (w.count + 1) then some (wait limit now w) else none,
    )

-- `check`
unfoldable pub check : Key → Limit → ℕ → Limiter → Limiter × Option ℕ
unfolding sweep count_request
check key limit now l =
    let l' = sweep now l in
    let (w, answer) = count_request limit now (l'.windows key) in
    (record l' { windows = set_window key w l'.windows }, answer)

-- `reset`
abbrev pub reset : Limiter → Limiter
reset l = record l { windows = λ k. none }

abbrev first_rule : Text → List (Text × Limit) → Option (Text × Limit)
first_rule path [] = none
first_rule path ((prefix, limit) ∷ rest) =
    if starts_with path prefix then some (prefix, limit) else first_rule path rest

-- `rule_for`
unfoldable pub rule_for : Text → Option (Text × Limit)
rule_for path = first_rule path rules

abbrev pub scaled : ℕ → Limit → Limit
scaled multiplier limit =
    if ltb 1 multiplier then record limit { requests = limit.requests * multiplier } else limit

abbrev starts_with_one_of : List Text → Text → Bool
starts_with_one_of prefixes path = any (λ prefix. starts_with path prefix) prefixes

-- `dispatch`: the seconds to wait of a request that is refused, or none if it is passed on.
unfoldable pub dispatch : ℕ → Bool → Text → Text → ℕ → Limiter → Limiter × Option ℕ
unfolding check rule_for
dispatch multiplier is_options path caller now l =
    if is_options || starts_with_one_of exempt_prefixes path
    then (l, none)
    else elim (rule_for path) [
      | none ↦ (l, none)
      | some rule ↦ check (rule.0, caller) (scaled multiplier rule.1) now l
    ]
