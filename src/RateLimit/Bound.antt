-- ===== src/RateLimit/Bound.antt =====
-- How many requests a window admits.
use gitbounty.Base.{
  ℕ, ◌≡◌, refl, ◌∙◌, ap, true, false, Option, none, some, List, [], ◌∷◌, ◌+◌, ◌*◌, ◌-◌, ◌<◌, ◌≤◌,
  ◌⊎◌, inl, inr, arith, All, Bool-cases, min, if◌then◌else◌, ltb,
}
use gitbounty.Text.{text_eq_iff}
use gitbounty.RateLimit.{
  Limit, Window, Windows, Key, Limiter, key_eq, second, set_window, wait, count_request,
}
use gitbounty.RateLimit.Reference.{
  Request, answers, unswept_answers, InOrder, answers-eq-unswept_answers,
}

key_eq-eq : (j k : Key) → key_eq j k ≡ true → j ≡ k
key_eq-eq (a, b) (c, d) h =
    let first = (text_eq_iff a c).0 (ground arith) in
    let last = (text_eq_iff b d).0 (ground arith) in rw (first, last) refl

pub key_eq_refl : (k : Key) → key_eq k k ≡ true
key_eq_refl (a, b) = rw ((text_eq_iff a a).1 refl, (text_eq_iff b b).1 refl) refl

-- The requests of one caller, and those of them that are answered by passing them on.
abbrev pub requests_of : Key → List Request → ℕ
requests_of k [] = 0
requests_of k (r ∷ rs) = (if key_eq r.key k then 1 else 0) + requests_of k rs

abbrev pub allowed : Key → List Request → List (Option ℕ) → ℕ
allowed k (r ∷ rs) (none ∷ rest) = (if key_eq r.key k then 1 else 0) + allowed k rs rest
allowed k (r ∷ rs) (some n ∷ rest) = allowed k rs rest
allowed k _ _ = 0

-- A request of the caller that stands in the window that started then, under a limit of n requests.
abbrev pub Within : Key → ℕ → ℕ → Request → Type 0
Within k n started r =
    key_eq r.key k ≡ true
    → (r.now - started < r.limit.window_seconds * second) × (r.limit.requests ≡ n)

module _ (k : Key) (n : ℕ) where
  count_request-open :
      (limit : Limit) (now : ℕ) (w : Window)
      → now - w.started < limit.window_seconds * second
      → (a : Option ℕ) × (count_request limit now (some w) ≡ (record w { count = w.count + 1 }, a))
        × (((a ≡ none) × (w.count < limit.requests))
            ⊎ ((m : ℕ) × (a ≡ some m) × (limit.requests ≤ w.count)))
  unfolding count_request
  count_request-open limit now w h = elim (Bool-cases (ltb limit.requests (w.count + 1))) [
    | inl e ↦ (some (wait limit now w), ground arith, inr (wait limit now w, refl, ground arith))
    | inr e ↦ (none, ground arith, inl (refl, ground arith))
  ]

  allowed-other :
      (r : Request) (rs : List Request) (a : Option ℕ) (rest : List (Option ℕ))
      → key_eq r.key k ≡ false
      → allowed k (r ∷ rs) (a ∷ rest) ≡ allowed k rs rest
  allowed-other r rs none rest h = rw h (omega arith)
  allowed-other r rs (some m) rest h = refl

  allowed-unswept_answers :
      (rs : List Request) (windows : Windows) (w : Window)
      → windows k ≡ some w
      → All (Within k n w.started) rs
      → allowed k rs (unswept_answers rs windows) ≡ min (requests_of k rs) (n - w.count)
  allowed-unswept_answers [] windows w e h = omega arith
  allowed-unswept_answers (r ∷ rs) windows w e h = elim (Bool-cases (key_eq r.key k)) [
    | inl own ↦ own_request own (allowed-unswept_answers rs)
    | inr other ↦
        let rest = (count_request r.limit r.now (windows r.key)).0 in
        rw (other, allowed-other r rs _ _ other)
          (ground
            (arith, allowed-unswept_answers rs (set_window r.key rest windows) w (rw other e) h.1))
  ]
    where
      own_request :
          key_eq r.key k ≡ true
          → ((windows : Windows) (w : Window)
              → windows k ≡ some w
              → All (Within k n w.started) rs
              → allowed k rs (unswept_answers rs windows) ≡ min (requests_of k rs) (n - w.count))
          → allowed k (r ∷ rs) (unswept_answers (r ∷ rs) windows)
            ≡ min (requests_of k (r ∷ rs)) (n - w.count)
      own_request own again =
          let (within, same) = h.0 own in
          let (a, counted, fate) = count_request-open r.limit r.now w within in
          let held = ap windows (key_eq-eq r.key k own) ∙ e in
          let next = record w { count = w.count + 1 } in
          let rest = again (set_window r.key next windows) next (rw own refl) h.1 in
          elim fate [
            | inl (none_eq, room) ↦
                rw (held, counted, none_eq, own, rest) (omega (arith, same, room))
            | inr (m, some_eq, full) ↦
                rw (held, counted, some_eq, own, rest) (omega (arith, same, full))
          ]

  -- For requests in the order of time, under limits no longer than the longest rule: of those of one
  -- caller, all in the caller's window and under one limit, as many are passed on as the window has
  -- left, or all if they are fewer, whatever other callers send in between.
  pub allowed-answers :
      (rs : List Request) (before : ℕ) (l : Limiter) (w : Window)
      → InOrder before rs
      → l.windows k ≡ some w
      → All (Within k n w.started) rs
      → allowed k rs (answers rs l) ≡ min (requests_of k rs) (n - w.count)
  allowed-answers rs before l w o e h =
      rw (answers-eq-unswept_answers rs before l o) (allowed-unswept_answers rs l.windows w e h)
