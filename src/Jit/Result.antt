-- ===== src/Jit/Result.antt =====
-- The results of src/hc_ir.h: HC_IR_ERR_* as values.
-- `stuck` is a loop out of fuel.
pub data Error : Type 0 where
  depth op space trunc label local stuck : Error

pub data Result {ℓ} (A : Type ℓ) : Type ℓ where
  ok : A → Result A
  err : Error → Result A

infixl 10 ◌>>=◌
abbrev pub ◌>>=◌ {ℓ ℓ'} : {A : Type ℓ} {B : Type ℓ'} → Result A → (A → Result B) → Result B
ok a >>= f = f a
err e >>= f = err e
