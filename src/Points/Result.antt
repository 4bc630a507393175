-- ===== src/Points/Result.antt =====
-- A statement that the database may refuse, or a Python exception.

pub data Error : Type 0 where
  unique_violation check_violation foreign_key_violation value_error : Error

pub data Result {ℓ} (A : Type ℓ) : Type ℓ where
  ok : A → Result A
  err : Error → Result A

infixl 5 ◌>>=◌
abbrev pub ◌>>=◌ {ℓ κ} : {A : Type ℓ} {B : Type κ} → Result A → (A → Result B) → Result B
ok a >>= f = f a
err e >>= f = err e
