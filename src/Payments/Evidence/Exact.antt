-- ===== src/Payments/Evidence/Exact.antt =====
-- What a receipt that `verify_receipt` takes for a payment holds.
use gitbounty.Base.{
  ℕ, ◌≡◌, refl, ap, ◌∙◌, sym, subst, Bool, true, false, some, List, [], ◌∷◌, ◌++◌, arith, All,
  All-append, Bool-cases, Option-cases, inl, inr, append_assoc,
}
use gitbounty.Text.{Text, text, text_eq, text_eq_iff}
use gitbounty.Amounts.{Asset, asset}
use gitbounty.Bounties.Rows.{done}
use gitbounty.Payments.{Payment}
use gitbounty.Payments.Encoding.{Crypto}
use gitbounty.Payments.Evidence.{
  Log, Receipt, is_event, event_hash, success_flag, has_moved, verdict, scan_receipt,
  verify_receipt,
}

-- Empty, or a list whose last member passes a test.
abbrev pub EndsIn : (Log → Bool) → List Log → Type 0
EndsIn test [] = Unit
EndsIn test (l ∷ []) = test l ≡ true
EndsIn test (l ∷ m ∷ ls) = EndsIn test (m ∷ ls)

EndsIn-cons :
    (test : Log → Bool) (l : Log) (ls : List Log)
    → test l ≡ true
    → EndsIn test ls
    → EndsIn test (l ∷ ls)
EndsIn-cons test l [] h k = h
EndsIn-cons test l (m ∷ ls) h k = k

EndsIn-append :
    (test : Log → Bool) (xs : List Log) (l : Log) (ls : List Log)
    → EndsIn test (l ∷ ls)
    → EndsIn test (xs ++ (l ∷ ls))
EndsIn-append test [] l ls h = h
EndsIn-append test (x ∷ []) l ls h = h
EndsIn-append test (x ∷ y ∷ xs) l ls h = EndsIn-append test (y ∷ xs) l ls h

module _ (lower : Text → Text) (k : Crypto) (p : Payment) (amount : ℕ) (hash : Text) where
  -- Among the logs there is the event of the operation, with the flag of success; between it and the
  -- event of the EntryPoint before it stand only other logs, and they move the amount.
  pub record Proof (logs : List Log) : Type 0 where
    pub before : List Log
    pub between : List Log
    pub after : List Log
    pub event : Log
    pub shape : logs ≡ before ++ (between ++ (event ∷ after))
    pub bounded : EndsIn (is_event lower k p) before
    pub plain : All (λ l. is_event lower k p l ≡ false) between
    pub named : is_event lower k p event ≡ true
    pub hashed : event_hash lower event.topics ≡ some hash
    pub flagged : success_flag lower p event ≡ some true
    pub currency : Asset
    pub supported : asset p.chain_id ≡ some currency
    pub moved : has_moved lower k currency.token_address p amount between ≡ true

  abbrev Verdict : List Log → Log → Type 0
  Verdict segment l =
      (success_flag lower p l ≡ some true)
      × ((a : Asset) × (asset p.chain_id ≡ some a)
          × (has_moved lower k a.token_address p amount segment ≡ true))

  verdict_paid :
      (segment : List Log) (l : Log)
      → verdict lower k p amount segment l ≡ done true
      → Verdict segment l
  unfolding verdict
  verdict_paid segment l e = elim (Option-cases (success_flag lower p l)) [
    | inl unread ↦ absurd (ground (arith, unread))
    | inr (flag, f) ↦ elim (Option-cases (asset p.chain_id)) [
      | inl unknown ↦ absurd (ground (arith, f, unknown))
      | inr (a, known) ↦ (ground (arith, f, known), (a, known, ground (arith, f, known)))
    ]
  ]

  module _ (segment : List Log) (l : Log) (ls : List Log) where
    settled :
        All (λ m. is_event lower k p m ≡ false) segment
        → is_event lower k p l ≡ true
        → event_hash lower l.topics ≡ some hash
        → Verdict segment l
        → Proof (segment ++ (l ∷ ls))
    settled h is_named is_hashed v = record {
      before = [];
      between = segment;
      after = ls;
      event = l;
      shape = refl;
      bounded = tt;
      plain = h;
      named = is_named;
      hashed = is_hashed;
      flagged = v.0;
      currency = v.1.0;
      supported = v.1.1;
      moved = v.1.2;
    }

    -- The segment begins again behind the event of another operation.
    begun_again : is_event lower k p l ≡ true → Proof ls → Proof (segment ++ (l ∷ ls))
    begun_again other q = record {
      before = segment ++ (l ∷ q.before);
      between = q.between;
      after = q.after;
      event = q.event;
      shape =
          ap (λ t. segment ++ (l ∷ t)) q.shape
          ∙ sym (append_assoc segment (l ∷ q.before) (q.between ++ (q.event ∷ q.after)));
      bounded =
          EndsIn-append (is_event lower k p) segment l q.before
            (EndsIn-cons (is_event lower k p) l q.before other q.bounded);
      plain = q.plain;
      named = q.named;
      hashed = q.hashed;
      flagged = q.flagged;
      currency = q.currency;
      supported = q.supported;
      moved = q.moved;
    }

  scan_receipt-paid :
      (segment logs : List Log)
      → All (λ m. is_event lower k p m ≡ false) segment
      → scan_receipt lower k p amount hash segment logs ≡ done true
      → Proof (segment ++ logs)
  unfolding scan_receipt
  scan_receipt-paid segment [] h e = absurd (ground arith)
  scan_receipt-paid segment (l ∷ ls) h e = elim (Bool-cases (is_event lower k p l)) [
    | inl event ↦ elim (Option-cases (event_hash lower l.topics)) [
      | inl short ↦ absurd (ground (arith, event, short))
      | inr (t, named) ↦ elim (Bool-cases (text_eq t hash)) [
        | inl same ↦
            settled segment l ls h event (named ∙ ap (λ s. some s) ((text_eq_iff t hash).0 same))
              (verdict_paid segment l (ground (arith, event, named, same)))
        | inr other ↦
            begun_again segment l ls event
              (scan_receipt-paid [] ls tt (ground (arith, event, named, other)))
      ]
    ]
    | inr plain ↦ subst Proof (append_assoc segment (l ∷ []) ls) (
        scan_receipt-paid (segment ++ l ∷ []) ls (All-append _ segment (l ∷ []) h (plain, tt))
          (ground (arith, plain)))
  ]

-- A receipt that is taken for a payment was successful and went to the EntryPoint of the payment.
-- Among its logs is an event of that EntryPoint for the hash of the operation, for the smart account,
-- the paymaster and the nonce of the payment, with the flag of success. Where the payment's network
-- has a token, a log of exactly the amount to the recipient stands before the event, and no event of
-- another operation stands between the two.
pub verify_receipt-paid :
    (lower : Text → Text) (k : Crypto) (r : Receipt) (p : Payment) (amount : ℕ) (hash : Text)
    → verify_receipt lower k r p amount hash ≡ done true
    → (r.status ≡ text "0x1")
      × (lower r.to_address ≡ p.setup.entry_point)
      × Proof lower k p amount hash r.logs
unfolding verify_receipt
verify_receipt-paid lower k r p amount hash e = elim (Bool-cases (text_eq r.status (text "0x1"))) [
  | inr wrong ↦ absurd (ground (arith, wrong))
  | inl ok ↦ elim (Bool-cases (text_eq (lower r.to_address) p.setup.entry_point)) [
    | inr wrong ↦ absurd (ground (arith, ok, wrong))
    | inl to ↦ (
      (text_eq_iff r.status (text "0x1")).0 ok,
      (text_eq_iff (lower r.to_address) p.setup.entry_point).0 to,
      scan_receipt-paid lower k p amount hash [] r.logs tt (ground (arith, ok, to)),
    )
  ]
]
