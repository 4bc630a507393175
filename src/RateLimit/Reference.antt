-- ===== src/RateLimit/Reference.antt =====
-- The limiter against a limiter that never forgets a window.
use gitbounty.Base.{
  ℕ, ◌≡◌, refl, ap, Option, none, some, List, [], ◌∷◌, ◌*◌, ◌-◌, ◌≤◌, arith, Bool-cases, inl, inr,
  ltb,
}
use gitbounty.RateLimit.{
  Limit, Window, Windows, Key, Limiter, key_eq, second, longest, fresh_only, sweep, set_window,
  count_request, check,
}

pub record Request : Type 0 where
  pub key : Key
  pub limit : Limit
  pub now : ℕ

abbrev pub answers : List Request → Limiter → List (Option ℕ)
answers [] l = []
answers (r ∷ rs) l = let (l', answer) = check r.key r.limit r.now l in answer ∷ answers rs l'

-- The same without `_sweep`.
abbrev pub unswept_answers : List Request → Windows → List (Option ℕ)
unswept_answers [] windows = []
unswept_answers (r ∷ rs) windows =
    let (w, answer) = count_request r.limit r.now (windows r.key) in
    answer ∷ unswept_answers rs (set_window r.key w windows)

-- Requests at times that do not go back, under limits no longer than the longest rule.
abbrev pub InOrder : ℕ → List Request → Type 0
InOrder before [] = Unit
InOrder before (r ∷ rs) = (before ≤ r.now) × (r.limit.window_seconds ≤ longest) × InOrder r.now rs

-- What the limiter holds of a window is the window, or nothing once it has expired for every rule.
data Alike (now : ℕ) : Option Window → Option Window → Type 0 where
  same : {o : Option Window} → Alike now o o
  gone : {w : Window} → longest * second ≤ now - w.started → Alike now none (some w)

Alike-later : {now later : ℕ} {o p : Option Window} → now ≤ later → Alike now o p → Alike later o p
Alike-later h same = same
Alike-later h (gone e) = gone (omega arith)

count_request-Alike :
    (limit : Limit) (now : ℕ) {o p : Option Window}
    → limit.window_seconds ≤ longest
    → Alike now o p
    → count_request limit now o ≡ count_request limit now p
unfolding count_request
count_request-Alike limit now h same = refl
count_request-Alike limit now h (gone e) = ground arith

fresh_only-Alike : (now : ℕ) {o p : Option Window} → Alike now o p → Alike now (fresh_only now o) p
fresh_only-Alike now {o = none} same = same
fresh_only-Alike now {o = some w} same =
    elim (Bool-cases (ltb (now - w.started) (longest * second))) [
      | inl h ↦ rw h same
      | inr h ↦ rw h (gone (ground arith))
    ]
fresh_only-Alike now (gone e) = gone e

module _ (now : ℕ) where
  abbrev AllAlike : Windows → Windows → Type 0
  AllAlike windows full = (k : Key) → Alike now (windows k) (full k)

  sweep-Alike :
      (l : Limiter) (full : Windows) → AllAlike l.windows full → AllAlike (sweep now l).windows full
  unfolding sweep
  sweep-Alike l full h k = elim (Bool-cases (ltb (now - l.last_swept) (300 * second))) [
    | inl e ↦ rw e (h k)
    | inr e ↦ rw e (fresh_only-Alike now (h k))
  ]

  set_window-Alike :
      (key : Key) (w : Window) (windows full : Windows)
      → AllAlike windows full
      → AllAlike (set_window key w windows) (set_window key w full)
  set_window-Alike key w windows full h k = elim (Bool-cases (key_eq key k)) [
    | inl e ↦ rw e same
    | inr e ↦ rw e (h k)
  ]

answers-Alike :
    (rs : List Request) (before : ℕ) (l : Limiter) (full : Windows)
    → InOrder before rs
    → AllAlike before l.windows full
    → answers rs l ≡ unswept_answers rs full
unfolding check
answers-Alike [] before l full o h = refl
answers-Alike (r ∷ rs) before l full (le, short, o) h =
    let swept = sweep-Alike r.now l full (λ k. Alike-later le (h k)) in
    let e = count_request-Alike r.limit r.now short (swept r.key) in
    rw e (
      ap (λ rest. (count_request r.limit r.now (full r.key)).1 ∷ rest)
        (answers-Alike rs r.now _ _ o (set_window-Alike r.now r.key _ _ full swept)))

-- For requests in the order of time, under limits no longer than the longest rule, the answers of
-- the limiter are those of a limiter that never sweeps.
pub answers-eq-unswept_answers :
    (rs : List Request) (before : ℕ) (l : Limiter)
    → InOrder before rs
    → answers rs l ≡ unswept_answers rs l.windows
answers-eq-unswept_answers rs before l o = answers-Alike rs before l l.windows o (λ k. same)
