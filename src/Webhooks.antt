-- ===== src/Webhooks.antt =====
-- The deliveries of GitHub: `receive_webhook` of routes/github_app.py puts them in a queue, and
-- `process_one` and `run_worker` of services/webhooks.py take them out, over the table of
-- migrations/0014_github_app.sql. What a payload holds and what a delivery does are arguments.
pub mod Queue
pub mod Worker
pub mod Retries
pub mod Body
pub mod Apply
use gitbounty.Base.{
  ℕ, zero, suc, ◌+◌, ◌*◌, ◌^◌, Bool, true, false, not, Option, none, some, List, [], ◌∷◌, ◌++◌,
  ◌&&◌, ◌==◌, min, ltb, leb, any, map, length, if◌then◌else◌,
}
use gitbounty.Text.{Text, text, text_eq, one_of}

pub data Status : Type 0 where
  pending failed processed ignored : Status

abbrev pub is_waiting : Status → Bool
is_waiting Status.pending = true
is_waiting Status.failed = true
is_waiting _ = false

-- A row of `webhook_deliveries`; times count seconds.
pub record Delivery (P : Type 0) : Type 0 where
  pub delivery_id : ℕ
  pub event : Text
  pub payload : P
  pub status : Status
  pub attempts : ℕ
  pub next_attempt_at : ℕ
  pub error : Option Text
  pub received_at : ℕ
  pub processed_at : Option ℕ

-- `bytearray` of the chunks, unless it grows beyond the limit.
abbrev pub max_body : ℕ
max_body = 2 * 1024 * 1024

unfoldable pub read_body : List ℕ → List (List ℕ) → Option (List ℕ)
read_body body [] = some body
read_body body (chunk ∷ chunks) =
    let next = read_body (body ++ chunk) chunks in
    if ltb max_body (length (body ++ chunk)) then none else next

pub data Reply : Type 0 where
  accepted ignored_event not_configured too_large invalid_signature invalid_delivery : Reply

abbrev known_events : List Text
known_events =
    text "issues"
    ∷ text "pull_request"
    ∷ text "installation"
    ∷ text "installation_repositories"
    ∷ text "ping"
    ∷ []

-- A request: its chunks and headers; a header that is missing is empty.
pub record Request : Type 0 where
  pub chunks : List (List ℕ)
  pub signature : Text
  pub delivery : Text
  pub event : Text

-- `min(3600, 60 * 2 ** min(attempts, 6))`
unfoldable pub backoff : ℕ → ℕ
backoff attempts = min 3600 (60 * 2 ^ min attempts 6)

-- What `apply_delivery` returns: "processed" or "ignored" with a new state, or the type of the error
-- that it raised.
pub data Outcome (S : Type 0) : Type 0 where
  processed ignored : S → Outcome S
  raised : Text → Outcome S

module _ {P : Type 0} where
  abbrev pub has_id : ℕ → Delivery P → Bool
  has_id i d = d.delivery_id == i

  abbrev new_delivery : ℕ → ℕ → Text → P → Delivery P
  new_delivery now i event payload = record {
    delivery_id = i;
    event = event;
    payload = payload;
    status = Status.pending;
    attempts = 0;
    next_attempt_at = now;
    error = none;
    received_at = now;
    processed_at = none;
  }

  -- `insert … on conflict (delivery_id) do nothing`
  unfoldable pub enqueue : ℕ → ℕ → Text → P → List (Delivery P) → List (Delivery P)
  enqueue now i event payload queue =
      if any (has_id i) queue then queue else queue ++ new_delivery now i event payload ∷ []

  -- `receive_webhook`: the secret, the signature of a body, and the readers of a UUID and of a JSON
  -- object are arguments.
  unfoldable pub receive_webhook :
      (secret : Text) (sign : Text → List ℕ → Text) (uuid : Text → Option ℕ)
      (json : List ℕ → Option P) (now : ℕ)
      → Request
      → List (Delivery P)
      → List (Delivery P) × Reply
  unfolding enqueue
  receive_webhook [] sign uuid json now r queue = (queue, not_configured)
  receive_webhook (c ∷ secret) sign uuid json now r queue = elim (read_body [] r.chunks) [
    | none ↦ (queue, too_large)
    | some body ↦
        if not (text_eq (sign (c ∷ secret) body) r.signature)
        then (queue, invalid_signature)
        else elim (uuid r.delivery) [
          | none ↦ (queue, invalid_delivery)
          | some i ↦ elim (json body) [
            | none ↦ (queue, invalid_delivery)
            | some payload ↦
                if not (one_of r.event known_events)
                then (queue, ignored_event)
                else (enqueue now i r.event payload queue, accepted)
          ]
        ]
  ]

  -- `status in ('pending', 'failed') and next_attempt_at <= now()`
  abbrev pub is_due : ℕ → Delivery P → Bool
  is_due now d = is_waiting d.status && leb d.next_attempt_at now

  abbrev pub earlier : Delivery P → Option (Delivery P) → Delivery P
  earlier d none = d
  earlier d (some e) = if ltb e.received_at d.received_at then e else d

  -- `order by received_at … limit 1`
  unfoldable pub next_due : ℕ → List (Delivery P) → Option (Delivery P)
  next_due now [] = none
  next_due now (d ∷ ds) =
      let rest = next_due now ds in if is_due now d then some (earlier d rest) else rest

  -- `$3` is of the attempts that `process_one` has read.
  abbrev pub as_failed : ℕ → Text → ℕ → Delivery P → Delivery P
  as_failed now error attempts d = record d {
    status = Status.failed;
    attempts = d.attempts + 1;
    error = some error;
    next_attempt_at = now + backoff attempts;
  }

  abbrev as_finished : ℕ → Status → Delivery P → Delivery P
  as_finished now status d = record d {
    status = status;
    attempts = d.attempts + 1;
    error = none;
    processed_at = some now;
  }

  -- `update webhook_deliveries set … where delivery_id = $1`
  abbrev pub update : ℕ → (Delivery P → Delivery P) → Delivery P → Delivery P
  update i f d = if has_id i d then f d else d

  module _ {S : Type 0} where
    abbrev pub settle : ℕ → Delivery P → S → Outcome S → S × (Delivery P → Delivery P)
    settle now d s (processed s') = (s', as_finished now Status.processed)
    settle now d s (ignored s') = (s', as_finished now Status.ignored)
    settle now d s (raised error) = (s, as_failed now error d.attempts)

    -- `process_one`: an error undoes what `apply_delivery` wrote.
    unfoldable pub process_one :
        (Delivery P → S → Outcome S) → ℕ → S × List (Delivery P) → (S × List (Delivery P)) × Bool
    unfolding next_due backoff
    process_one apply_delivery now (s, queue) = elim (next_due now queue) [
      | none ↦ ((s, queue), false)
      | some d ↦
          let (s', f) = settle now d s (apply_delivery d s) in
          ((s', map (update d.delivery_id f) queue), true)
    ]

    -- The rounds of `run_worker` until there is nothing to do.
    unfoldable pub run_worker :
        (Delivery P → S → Outcome S) → ℕ → ℕ → S × List (Delivery P) → S × List (Delivery P)
    unfolding process_one
    run_worker apply_delivery now zero w = w
    run_worker apply_delivery now (suc fuel) w =
        let (w', worked) = process_one apply_delivery now w in
        let next = run_worker apply_delivery now fuel w' in if worked then next else w'
