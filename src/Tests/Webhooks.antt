-- ===== src/Tests/Webhooks.antt =====
-- A delivery that is done, one that waits, and a worker whose work fails.
use gitbounty.Base.{
  ℕ, ◌+◌, ◌≡◌, All, length, keep_if, not, true, refl, Option, none, some, List, [], ◌∷◌, arith, Any,
  here,
}
use gitbounty.Text.{Text, text}
use gitbounty.Webhooks.{
  Delivery, Outcome, Status, Request, Reply, accepted, invalid_signature, backoff, has_id,
  read_body, enqueue, receive_webhook, next_due, process_one, run_worker, raised, processed,
}
use gitbounty.Webhooks.Worker.{due, run_worker-due}
use gitbounty.Webhooks.Retries.{Waits, process_one-retries}
use gitbounty.Webhooks.Body.{joined, within, read_body-eq-within}
use gitbounty.Webhooks.Queue.{IsKeyed, Reach, start, next, receives, works, Reach-keeps}

abbrev finished : Delivery Text
finished = record {
  delivery_id = 1;
  event = text "ping";
  payload = [];
  status = Status.ignored;
  attempts = 1;
  next_attempt_at = 100;
  error = none;
  received_at = 100;
  processed_at = some 110;
}

abbrev waiting : Delivery Text
waiting = record finished {
  delivery_id = 2;
  status = Status.pending;
  attempts = 0;
  received_at = 105;
  processed_at = none;
}

abbrev queue : List (Delivery Text)
queue = finished ∷ waiting ∷ []

first_due : next_due 200 queue ≡ some waiting
unfolding next_due
first_due = refl

-- The work fails if the payload is empty.
abbrev work : Delivery Text → ℕ → Outcome ℕ
work d s = elim d.payload [ [] ↦ raised (text "KeyError") | c ∷ p ↦ processed (s + 1) ]

process_one-retries_example :
    let w = (process_one work 200 (0, queue)).0 in
    (w.0 ≡ 0)
    × (length w.1 ≡ length queue)
    × All (λ e. has_id 2 e ≡ true → Waits 200 e) w.1
    × (keep_if (λ e. not (has_id 2 e)) w.1 ≡ keep_if (λ e. not (has_id 2 e)) queue)
process_one-retries_example =
    process_one-retries work 200 0 queue waiting (text "KeyError") first_due refl

run_worker-due_example : due 200 (run_worker work 200 1 (0, queue)).1 ≡ 0
run_worker-due_example = run_worker-due work 200 1 0 queue (omega arith)

-- The second attempt waits for two minutes.
retried :
    (process_one work 200 (0, record waiting { attempts = 1 } ∷ [])).0.1
    ≡ record waiting {
      status = Status.failed;
      attempts = 2;
      error = some (text "KeyError");
      next_attempt_at = 320;
    }
      ∷ []
unfolding process_one next_due backoff
retried = refl

read_body-eq-within_example :
    read_body [] ((1 ∷ 2 ∷ []) ∷ (3 ∷ []) ∷ []) ≡ within (joined ((1 ∷ 2 ∷ []) ∷ (3 ∷ []) ∷ []))
read_body-eq-within_example = read_body-eq-within ((1 ∷ 2 ∷ []) ∷ (3 ∷ []) ∷ [])

-- The finished delivery comes in again, another one too, and the worker runs.
queue-Reach :
    Reach work
      (0, queue)
      (process_one work 300
        (0, enqueue 290 3 (text "ping") [] (enqueue 280 1 (text "ping") [] queue))).0
queue-Reach =
    next (next (next start (receives 280 1 (text "ping") [])) (receives 290 3 (text "ping") []))
      (works 300)

queue-IsKeyed : IsKeyed queue
queue-IsKeyed = ((refl, tt), (tt, tt))

abbrev later : ℕ × List (Delivery Text)
later =
    (process_one work 300
      (0, enqueue 290 3 (text "ping") [] (enqueue 280 1 (text "ping") [] queue))).0

Reach-keeps_example : IsKeyed later.1 × Any (λ e. e ≡ finished) later.1
Reach-keeps_example = Reach-keeps queue-Reach finished queue-IsKeyed refl (here refl)

abbrev uuid : Text → Option ℕ
uuid s = elim s [ [] ↦ none | c ∷ t ↦ some c ]

abbrev request : Text → Request
request signature = record {
  chunks = (1 ∷ []) ∷ (2 ∷ []) ∷ [];
  signature = signature;
  delivery = text "a";
  event = text "ping";
}

-- The signature of a body is its secret.
abbrev receive : Text → List (Delivery (List ℕ)) × Reply
receive signature =
    receive_webhook (text "s") (λ secret body. secret) uuid some 7 (request signature) []

forged : (receive (text "x")).1 ≡ invalid_signature
unfolding receive_webhook read_body
forged = refl

signed : (receive (text "s")).1 ≡ accepted
unfolding receive_webhook read_body enqueue
signed = refl
