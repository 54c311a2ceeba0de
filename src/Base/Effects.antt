-- ===== src/Base/Effects.antt =====
-- What a call of the program can do: return, throw, or run into undefined behaviour. An exception
-- carries the state at the point of the throw, since what was changed before it stays changed.
use Prim.Native.String.{String}
use Prim.Native.Nat.{ℕ}

pub data Exception : Type 0 where
  runtime_error : String → Exception
  self_in_right right_in_self : Exception
  int_thrown : ℕ → Exception

pub data Outcome {ℓ} (A : Type ℓ) : Type ℓ where
  ok : A → Outcome A
  throws : Exception → A → Outcome A
  undefined : Outcome A

-- The next step, on the state that the step before it left.
infixl 5 ◌>>=◌
abbrev pub ◌>>=◌ {ℓ} : {A : Type ℓ} → Outcome A → (A → Outcome A) → Outcome A
ok a >>= f = f a
throws e a >>= f = throws e a
undefined >>= f = undefined
