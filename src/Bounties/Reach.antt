-- ===== src/Bounties/Reach.antt =====
-- Publications and changes in any order, and the promises.
pub mod Lasting
use gitbounty.Base.{ℕ, ◌≤◌, ◌≡◌, refl, Option, List, [], arith, ◌==◌, Bool-cases, inl, inr}
use gitbounty.Text.{Text, Unicode}
use gitbounty.Bounties.Rows.{done, ◌>>=◌, Board}
use gitbounty.Bounties.Then.{Then, Then-any, Then-done}
use gitbounty.Bounties.Access.{Repo, Read, authorized_repository}
use gitbounty.Bounties.Selected.{Input, OpenIssue}
use gitbounty.Bounties.Publish.{publish_bounties}
use gitbounty.Bounties.Publish.Stakes.{Settings, Publisher}
use gitbounty.Bounties.Edit.{Update, update_bounty}
use gitbounty.Bounties.Promised.{IsPromised, Keeps, Kept, Keeps-refl, Keeps-trans}
use gitbounty.Bounties.Reach.Lasting.{publish_bounties-Kept, change_bounty-Kept}

-- What happens to the tables: a publication or a change that returns, and the passing of time.
pub data Step (lower : Text → Text) : Board → Board → Type 0 where
  publishes :
      {s s' : Board} {n : ℕ} (u : Unicode) (g : Settings) (p : Publisher)
      (get_repo : Text → Read (Option Repo)) (list_issues : Text → Read (List OpenIssue))
      (items : List Input)
      → publish_bounties u g p lower get_repo list_issues items s ≡ done (s', n)
      → Step lower s s'
  changes :
      {s s' : Board} (u : Unicode) (get_repo : Text → Read (Option Repo)) (actor_id : ℕ)
      (login name : Text) (number : ℕ) (r : Update)
      → update_bounty lower u get_repo actor_id login name number r s ≡ done s'
      → Step lower s s'
  passes : {s : Board} (later : ℕ) → Step lower s (record s { now = later })

pub data Reach (lower : Text → Text) (s : Board) : Board → Type 0 where
  start : Reach lower s s
  next : {s' s'' : Board} → Reach lower s s' → Step lower s' s'' → Reach lower s s''

update_bounty-Kept :
    (lower : Text → Text) (base : ℕ) (u : Unicode) (get_repo : Text → Read (Option Repo))
    (actor_id : ℕ) (login name : Text) (number : ℕ) (r : Update) (s : Board)
    → IsPromised s
    → Then (Kept base s) (update_bounty lower u get_repo actor_id login name number r s)
unfolding update_bounty
update_bounty-Kept lower base u get_repo actor_id login name number r s h =
    elim (Bool-cases (number == 0)) [
      | inl e ↦ rw e tt
      | inr e ↦ rw e (
          Then-any (Kept base s) (authorized_repository u login (get_repo name)) _
            (λ repo. change_bounty-Kept lower base actor_id login name number r s h))
    ]

Step-Kept :
    {lower : Text → Text} {s s' : Board} (base : ℕ)
    → Step lower s s'
    → base ≤ s.next_bounty
    → IsPromised s
    → Kept base s s'
Step-Kept {lower} {s} base (publishes u g p get_repo list_issues items e) l h =
    Then-done (λ r. Kept base s r.0) e
      (publish_bounties-Kept u g p lower base get_repo list_issues items s l h)
Step-Kept {lower} {s} base (changes u get_repo actor_id login name number r e) l h =
    Then-done (Kept base s) e
      (update_bounty-Kept lower base u get_repo actor_id login name number r s h)
Step-Kept {s} base (passes later) l h =
    (h, record { more = omega arith; payments = λ i l. refl; escrows = λ i l. refl })

Reach-Kept :
    {lower : Text → Text} {s s' : Board} (base : ℕ)
    → Reach lower s s'
    → base ≤ s.next_bounty
    → IsPromised s
    → Kept base s s'
Reach-Kept {s} base start l h = (h, Keeps-refl base s)
Reach-Kept {s} base (next {s'} {s''} r step) l h =
    let (h', k) = Reach-Kept base r l h in
    let (h'', k') = Step-Kept base step (omega (arith, k.more)) h' in
    (h'', Keeps-trans base s s' s'' k k')

-- Whatever is published and changed in whatever order: a bounty has payment terms exactly if its mode
-- is that of payments and escrow terms exactly if its mode is escrow, and the terms of a bounty that
-- there was are those that they were, as is their absence.
pub Reach-IsPromised :
    {lower : Text → Text} {s s' : Board}
    → Reach lower s s'
    → IsPromised s
    → IsPromised s' × Keeps s.next_bounty s s'
Reach-IsPromised {s} r h = Reach-Kept s.next_bounty r (omega arith) h
