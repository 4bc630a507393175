-- ===== src/Payments/Wallets.antt =====
-- routes/payments.py: who may use payments at all, and the wallet that a GitHub identity proves to be
-- its own. The signature check of eth_account and the random nonce are arguments. The format of an
-- address is not looked at.
use gitbounty.Base.{
  ℕ, ◌+◌, ◌*◌, Bool, false, not, Option, none, some, List, [], ◌∷◌, ◌++◌, ◌&&◌, ◌||◌, ◌==◌, any,
  ltb, is_some, keep_if, if◌then◌else◌,
}
use gitbounty.Text.{Text, text, text_eq, Unicode}
use gitbounty.Text.Decimal.{decimal}
use gitbounty.Points.{Db}
use gitbounty.Points.Users.{user_id_of}
use gitbounty.Points.Result.{foreign_key_violation}
use gitbounty.Bounties.Rows.{Answer, done, refused, raised, ◌>>=◌}
use gitbounty.Payments.{
  Wallet, Challenge, Store, Settings, Visitor, demand, ◌>>◌, found, active_chain, actor_id,
  wallet_of,
}
use gitbounty.Payments.Smoothsend.{configured}

-- `require_enabled`
unfoldable pub require_enabled : Unicode → Settings → Answer (Unit {0})
unfolding configured
require_enabled u c = do
  demand (not (c.managed_wallets_enabled || c.sponsored_escrow)) 409
  demand c.avax_payments_enabled 503
  demand (configured u c) 503
  demand (not (c.dev_login_stub_enabled && not c.is_test)) 503

abbrev pub require_payments : Unicode → Settings → Answer (Unit {0})
unfolding require_enabled
require_payments u c = if c.escrow_enabled then done tt else require_enabled u c

abbrev line : Text → Text → Text
line label value = 10 ∷ (label ++ value)

abbrev pub challenge_message : Settings → ℕ → Text → Text
challenge_message c github_id nonce =
    c.frontend_url
    ++ line (text "GitBounty: connect my receiving/payment wallet.") []
    ++ line (text "GitHub ID: ") (decimal github_id)
    ++ line (text "Chain ID: ") (decimal (active_chain c))
    ++ line (text "This links one wallet permanently; it does not authorize a transfer.") []
    ++ line (text "Nonce: ") nonce

-- Five minutes, in microseconds.
abbrev pub challenge_time : ℕ
challenge_time = 5 * 60 * 1000000

abbrev is_challenge_of : ℕ → Challenge → Bool
is_challenge_of github_id h = h.github_id == github_id

-- `on conflict (github_id) do update`
abbrev pub put_challenge : Challenge → List Challenge → List Challenge
put_challenge h hs = keep_if (λ g. not (is_challenge_of h.github_id g)) hs ++ h ∷ []

-- A GitHub identity that a foreign key refers to.
abbrev pub known : ℕ → Db → Answer (Unit {0})
known github_id db =
    if is_some (user_id_of db.users github_id) then done tt else raised foreign_key_violation

unfoldable pub wallet_challenge :
    Unicode → Settings → Visitor → Text → Store → Answer (Store × Text)
unfolding require_enabled actor_id
wallet_challenge u c v nonce s = do
  require_payments u c
  let (points, user_id) = actor_id v s.points
  known v.github_id points
  let message = challenge_message c v.github_id nonce
  let h : Challenge = record {
    github_id = v.github_id;
    message = message;
    expires_at = points.now + challenge_time;
  }
  done (record s { points = points; challenges = put_challenge h s.challenges }, message)

-- `delete … where github_id = $1 and expires_at > now() returning message`
unfoldable pub live_message : ℕ → ℕ → List Challenge → Option Text
live_message now github_id [] = none
live_message now github_id (h ∷ hs) =
    if is_challenge_of github_id h && ltb now h.expires_at
    then some h.message
    else live_message now github_id hs

abbrev without_challenge : ℕ → ℕ → List Challenge → List Challenge
without_challenge now github_id hs =
    keep_if (λ h. not (is_challenge_of github_id h && ltb now h.expires_at)) hs

abbrev has_address : Text → Wallet → Bool
has_address address w = text_eq w.address address

-- `existing and existing != address`
abbrev pub differs : Option Text → Text → Bool
differs none address = false
differs (some []) address = false
differs (some (c ∷ s)) address = not (text_eq (c ∷ s) address)

-- `insert into wallets … on conflict (github_id) do nothing`; the unique address of another wallet is
-- answered with 409.
unfoldable pub insert_wallet : ℕ → Text → Store → Answer (List Wallet)
unfolding wallet_of
insert_wallet github_id address s =
    if is_some (wallet_of github_id s.wallets)
    then done s.wallets
    else if any (has_address address) s.wallets
    then refused 409
    else do
      known github_id s.points
      done (s.wallets ++ record { github_id = github_id; address = address } ∷ [])

-- `recover` gives the address that signed a message, in small letters.
unfoldable pub connect_wallet :
    Unicode
    → (Text → Text → Option Text)
    → Settings
    → Visitor
    → Text
    → Store
    → Answer (Store × Text)
unfolding require_enabled live_message wallet_of insert_wallet
connect_wallet u recover c v signature s = do
  require_payments u c
  message ← found 409 (live_message s.points.now v.github_id s.challenges)
  address ← found 400 (recover message signature)
  demand (not (differs (wallet_of v.github_id s.wallets) address)) 409
  wallets ← insert_wallet v.github_id address s
  actual ← found 409 (wallet_of v.github_id wallets)
  demand (text_eq actual address) 409
  done (
    record s {
      wallets = wallets;
      challenges = without_challenge s.points.now v.github_id s.challenges;
    },
    address,
  )
