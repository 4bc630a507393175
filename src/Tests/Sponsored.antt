-- ===== src/Tests/Sponsored.antt =====
-- A refund that is submitted, submitted again, sent and verified.
use gitbounty.Base.{ℕ, ◌≡◌, refl, false, arith, here, inl, inr, Option, none, some, List, [], ◌∷◌}
use gitbounty.Text.{Text, text}
use gitbounty.Bounties.Rows.{done, refused, EscrowTerms}
use gitbounty.Sponsored.{
  refund, Status, Operation, Table, Session, Log, Receipt, find_pending, check_action,
  insert_operation, submit_for, submit, scan_logs, read_event, operation_segment,
}
use gitbounty.Sponsored.Verify.{Bundler, Found, observe, find_row, follow_receipt, mark_verified}
use gitbounty.Sponsored.Single.{IsSound}
use gitbounty.Sponsored.Reach.{Reach, start, next, submits, observes, verifies, Reach-IsSound}
use gitbounty.Sponsored.Again.{submit_again}

abbrev terms : ℕ → Option EscrowTerms
terms n = some (record {
  bounty_id = n;
  chain_id = 43113;
  contract_address = [];
  token_address = [];
  reference_id = [];
  onchain_bounty_id = [];
  repository_github_id = 70;
  issue_github_id = 700;
  payer_github_id = 42;
  payer_address = text "0xaa";
  amount_units = 5;
  work_ends_at = 100;
  claim_until = 200;
})

abbrev session : ℕ → Session
session now = record {
  github_id = 42;
  sponsorship = done [];
  account = done (text "0xaa");
  voucher = refused 403;
  chain = record {
    bounty_state = λ b. done (1, 200);
    balance = refused 502;
    latest_timestamp = done now;
  };
  authorized = done (text "0x01", 9);
}

abbrev empty_table : Table
empty_table = record { rows = []; next = 1 }

abbrev operation : Operation
operation = record {
  id = 1;
  github_id = 42;
  bounty_id = 3;
  kind = refund;
  userop_hash = text "0x01";
  nonce = 9;
  status = Status.signed;
  tx_hash = none;
}

abbrev one_row : Table
one_row = record { rows = operation ∷ []; next = 2 }

submitted-done : submit terms (session 300) 3 refund empty_table ≡ done (one_row, operation)
unfolding submit submit_for find_pending check_action insert_operation
submitted-done = refl

too_early : submit terms (session 100) 3 refund empty_table ≡ refused 409
unfolding submit submit_for find_pending check_action
too_early = refl

-- The operation, once it is handed to the bundler.
abbrev waiting : Operation
waiting = record operation { status = Status.submitted }

abbrev waiting_table : Table
waiting_table = record { rows = waiting ∷ []; next = 2 }

-- The chain has gone back before the end of the claims by then.
submit_again_example :
    submit terms (session 100) 3 refund waiting_table ≡ done (waiting_table, waiting)
submit_again_example =
    submit_again terms (session 100) 3 refund waiting_table waiting [] (text "0xaa") []
      (record { single = (tt, tt); fresh = (omega arith, tt) }) (here refl) refl (inr (inl refl))
      refl refl refl

abbrev bundler : Bundler
bundler = record {
  entry_point = text "0xee";
  event = text "0xe0";
  receipt = λ hash. done none;
  send = λ o. done (text "0x01");
  evidence = λ tx. refused 409;
  account = text "0xaa";
  paymaster = text "0xbb";
}

abbrev sent_table : Table
sent_table = record one_row { rows = record operation { status = Status.submitted } ∷ [] }

sent-done :
    observe bundler 1 42 one_row
    ≡ done (sent_table, Found.settled (record operation { status = Status.submitted }))
unfolding observe find_row follow_receipt
sent-done = refl

table-Reach : Reach terms empty_table (mark_verified 1 sent_table)
table-Reach =
    next
      (next (next start (submits (session 300) 3 refund submitted-done))
        (observes bundler 1 42 sent-done))
      (verifies 1)

empty_table-IsSound : IsSound empty_table
empty_table-IsSound = record { single = tt; fresh = tt }

Reach-IsSound_example : IsSound (mark_verified 1 sent_table)
Reach-IsSound_example = Reach-IsSound table-Reach empty_table-IsSound

-- The logs of another operation stand in front of its event.
abbrev log : Text → List Text → Log
log address topics = record { removed = false; address = address; topics = topics; data_bytes = [] }

abbrev receipt : Receipt
receipt = record {
  status = text "0x1";
  to_address = text "0xEE";
  logs =
      log (text "0xcc") []
      ∷ log (text "0xEE") (text "0xe0" ∷ text "0x02" ∷ [])
      ∷ log (text "0xdd") []
      ∷ [];
}

not_visible :
    operation_segment
      (text "0xee")
      (text "0xe0")
      receipt
      (text "0x01")
      (text "0xaa")
      (text "0xbb")
      9
    ≡ refused 409
unfolding operation_segment scan_logs read_event
not_visible = refl
