-- ===== src/Bounties/Then.antt =====
-- What holds of an answer if it is one that returns.
use gitbounty.Base.{◌≡◌, subst}
use gitbounty.Bounties.Rows.{Answer, done, refused, raised, ◌>>=◌}

abbrev pub Then : {A : Type 0} → (A → Type 0) → Answer A → Type 0
Then P (done a) = P a
Then P (refused code) = Unit
Then P (raised e) = Unit

pub Then-bind :
    {A B : Type 0} (P : A → Type 0) (Q : B → Type 0) (o : Answer A) (f : A → Answer B)
    → Then P o
    → ((a : A) → P a → Then Q (f a))
    → Then Q (o >>= f)
Then-bind P Q (done a) f h k = k a h
Then-bind P Q (refused code) f h k = tt
Then-bind P Q (raised e) f h k = tt

-- Of an answer of which nothing is known.
pub Then-any :
    {A B : Type 0} (Q : B → Type 0) (o : Answer A) (f : A → Answer B)
    → ((a : A) → Then Q (f a))
    → Then Q (o >>= f)
Then-any Q (done a) f k = k a
Then-any Q (refused code) f k = tt
Then-any Q (raised e) f k = tt

pub Then-done : {A : Type 0} (P : A → Type 0) {o : Answer A} {a : A} → o ≡ done a → Then P o → P a
Then-done P e h = subst (Then P) e h

pub Then-map :
    {A : Type 0} (P Q : A → Type 0) (o : Answer A) → ((a : A) → P a → Q a) → Then P o → Then Q o
Then-map P Q (done a) f h = f a h
Then-map P Q (refused code) f h = tt
Then-map P Q (raised e) f h = tt
