-- ===== src/RateLimit/Retry.antt =====
-- How long a refused caller has to wait.
use gitbounty.Base.{
  ℕ, ◌≡◌, refl, sym, ◌∙◌, Option, none, some, ◌+◌, ◌*◌, ◌-◌, ◌≤◌, ◌⊎◌, inl, inr, arith, Bool-cases,
  ltb,
}
use gitbounty.RateLimit.{
  Limit, Window, Key, Limiter, second, longest, fresh_only, sweep, wait, count_request, check,
}
use gitbounty.RateLimit.Bound.{key_eq_refl}

wait-long :
    (limit : Limit) (now : ℕ) (w : Window)
    → (1 ≤ wait limit now w)
      × (limit.window_seconds * second + w.started ≤ now + wait limit now w * second)
wait-long limit now w = (omega arith, omega arith)

-- A refusal counts the request in its window, which the wait outlasts.
count_request-refused :
    (limit : Limit) (now n : ℕ) (o : Option Window)
    → (count_request limit now o).1 ≡ some n
    → (1 ≤ n)
      × (limit.window_seconds * second + (count_request limit now o).0.started ≤ now + n * second)
unfolding count_request
count_request-refused limit now n none h = ground arith
count_request-refused limit now n (some w) h = ground (arith, wait-long limit now w)

count_request-expired :
    (limit : Limit) (later : ℕ) (w : Window)
    → limit.window_seconds * second + w.started ≤ later
    → (count_request limit later (some w)).1 ≡ none
unfolding count_request
count_request-expired limit later w h = ground arith

fresh_only-cases :
    (now : ℕ) (o : Option Window) → (fresh_only now o ≡ none) ⊎ (fresh_only now o ≡ o)
fresh_only-cases now none = inl refl
fresh_only-cases now (some w) = elim (Bool-cases (ltb (now - w.started) (longest * second))) [
  | inl h ↦ inr (rw h refl)
  | inr h ↦ inl (rw h refl)
]

sweep-cases :
    (now : ℕ) (l : Limiter) (k : Key)
    → ((sweep now l).windows k ≡ none) ⊎ ((sweep now l).windows k ≡ l.windows k)
unfolding sweep
sweep-cases now l k = elim (Bool-cases (ltb (now - l.last_swept) (300 * second))) [
  | inl h ↦ inr (rw h refl)
  | inr h ↦ rw h (fresh_only-cases now (l.windows k))
]

check-expired :
    (key : Key) (limit : Limit) (later : ℕ) (l : Limiter) (w : Window)
    → l.windows key ≡ some w
    → limit.window_seconds * second + w.started ≤ later
    → (check key limit later l).1 ≡ none
unfolding check
check-expired key limit later l w held le = elim (sweep-cases later l key) [
  | inl e ↦ rw e (unfold count_request in refl)
  | inr e ↦ rw (e, held) (count_request-expired limit later w le)
]

check-window :
    (key : Key) (limit : Limit) (now : ℕ) (l : Limiter)
    → let counted = count_request limit now ((sweep now l).windows key) in
      ((check key limit now l).1 ≡ counted.1)
      × ((check key limit now l).0.windows key ≡ some counted.0)
unfolding check
check-window key limit now l = (refl, rw (key_eq_refl key) refl)

-- A caller that is refused with a number of seconds, and asks again no sooner than that many seconds
-- later, is passed on. The number is at least one.
pub check_again :
    (key : Key) (limit : Limit) (now n later : ℕ) (l : Limiter)
    → (check key limit now l).1 ≡ some n
    → now + n * second ≤ later
    → (1 ≤ n) × ((check key limit later (check key limit now l).0).1 ≡ none)
check_again key limit now n later l h le =
    let (answer, held) = check-window key limit now l in
    let (one, long) = count_request-refused limit now n _ (sym answer ∙ h) in
    (one, check-expired key limit later _ _ held (omega (arith, long, le)))
