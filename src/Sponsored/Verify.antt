-- ===== src/Sponsored/Verify.antt =====
-- `verify` of sponsored.py: a transaction that looks for the receipt of an operation, the checks of
-- routes/escrow.py, and the statement that marks it verified.
use gitbounty.Base.{
  ℕ, Bool, true, false, not, Option, none, some, List, [], ◌∷◌, ◌&&◌, ◌==◌, map, if◌then◌else◌,
}
use gitbounty.Text.{Text, text_eq}
use gitbounty.Bounties.Rows.{Answer, done, refused, ◌>>=◌}
use gitbounty.Sponsored.{Operation, Status, Table, Receipt, lower, operation_segment}

-- What the bundler and the chain answer, and the paymaster of the account.
pub record Bundler : Type 0 where
  pub entry_point : Text
  pub event : Text
  -- The hash of the transaction in the receipt of an operation, if there is one.
  pub receipt : Text → Answer (Option Text)
  pub send : Operation → Answer Text
  pub evidence : Text → Answer Receipt
  pub account : Text
  pub paymaster : Text

-- What the first transaction finds: nothing is left to do, or the checks of the escrow.
pub data Found : Type 0 where
  settled : Operation → Found
  to_check : Operation → Found

abbrev pub is_row : ℕ → Operation → Bool
is_row id o = o.id == id

unfoldable pub find_row : ℕ → ℕ → List Operation → Option Operation
find_row id github_id [] = none
find_row id github_id (o ∷ os) =
    if is_row id o && o.github_id == github_id then some o else find_row id github_id os

abbrev pub with_status : Status → Option Text → Operation → Operation
with_status status tx_hash o = record o { status = status; tx_hash = tx_hash }

-- `update sponsored_operations set … where id = $1`
abbrev pub update : ℕ → (Operation → Operation) → Table → Table
update id f s = record s { rows = map (λ o. if is_row id o then f o else o) s.rows }

abbrev pub is_final : Status → Bool
is_final Status.verified = true
is_final Status.failed = true
is_final _ = false

abbrev pub as_submitted : Operation → Operation
as_submitted o = record o { status = Status.submitted }

abbrev pub outcome : Operation → Text → Bool → Table → Table × Found
outcome o tx true s = (
  update o.id (with_status Status.confirmed (some tx)) s,
  to_check (with_status Status.confirmed (some tx) o),
)
outcome o tx false s = (
  update o.id (with_status Status.failed (some tx)) s,
  settled (with_status Status.failed (some tx) o),
)

-- A row that is not final, of its receipt: the operation is sent again if there is none.
unfoldable pub follow_receipt : Bundler → Operation → Table → Option Text → Answer (Table × Found)
unfolding operation_segment
follow_receipt b o s none = do
  sent ← b.send o
  if not (text_eq (lower sent) o.userop_hash)
      then refused 502
      else done (update o.id as_submitted s, settled (as_submitted o))
follow_receipt b o s (some tx) = do
  receipt ← b.evidence (lower tx)
  result ←
      operation_segment b.entry_point b.event receipt o.userop_hash b.account b.paymaster o.nonce
  done (outcome o (lower tx) result.0 s)

-- The first transaction.
unfoldable pub observe : Bundler → ℕ → ℕ → Table → Answer (Table × Found)
unfolding find_row follow_receipt
observe b id github_id s = elim (find_row id github_id s.rows) [
  | none ↦ refused 404
  | some o ↦
      if is_final o.status
      then done (s, settled o)
      else do receipt ← b.receipt o.userop_hash; follow_receipt b o s receipt
]

abbrev pub as_verified : Operation → Operation
as_verified o = record o { status = Status.verified }

-- The statement after the checks, which does not look at the row again.
unfoldable pub mark_verified : ℕ → Table → Table
mark_verified id s = update id as_verified s
