-- ===== src/Prelude/Result.antt =====
-- How a computation of the engine ends.

-- `fatal`: `context.Fatal`, which stops the process with an error. `panic`: a Go panic.
pub data Result {ℓ} (A : Type ℓ) : Type ℓ where
  ok : A → Result A
  fatal : Result A
  panic : Result A

infixl 5 ◌>>=◌
abbrev pub ◌>>=◌ {ℓ κ} : {A : Type ℓ} {B : Type κ} → Result A → (A → Result B) → Result B
ok a >>= f = f a
fatal >>= f = fatal
panic >>= f = panic
