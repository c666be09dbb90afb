-- ===== src/Jit/Machine/Run.antt =====
-- The processor of Jit/Machine, one instruction at a time.
use zealos_aarch64_bringup.Base.{
  ℕ, ◌<◌, ◌≡◌, ◌≢◌, refl, inl, inr, Bool-cases, arith, some, false, List, ◌∷◌, ◌==◌,
}
use mathlib.Core.Path.{fun_ext}
use zealos_aarch64_bringup.Jit.Machine.{
  Alu, Insn, Machine, decode, exec, is_ret, new_flags, alu_value, reg, set_reg, put_reg, run,
}

pub set_reg_self : (r v : ℕ) (regs : ℕ → ℕ) → r < 31 → set_reg r v regs r ≡ v
set_reg_self r v regs h = ground arith

pub set_reg_ne : (r v k : ℕ) (regs : ℕ → ℕ) → k ≢ r → set_reg r v regs k ≡ regs k
set_reg_ne r v k regs ne = ground arith

pub set_reg_zero : (v k : ℕ) (regs : ℕ → ℕ) → set_reg 31 v regs k ≡ regs k
set_reg_zero v k regs = ground arith

pub set_reg-set_reg : (r u v : ℕ) (regs : ℕ → ℕ) → set_reg r v (set_reg r u regs) ≡ set_reg r v regs
set_reg-set_reg r u v regs =
    fun_ext λ k. elim (Bool-cases (k == r)) [ inl e ↦ ground arith | inr ne ↦ ground arith ]

pub reg_lem : (m : Machine) (r : ℕ) → r < 31 → reg m r ≡ m.regs r
reg_lem m r h = ground arith

pub run-step :
    (w : ℕ) (i : Insn) (m m' : Machine) (ws : List ℕ)
    → decode w ≡ some i
    → is_ret i ≡ false
    → exec i m ≡ some m'
    → run (w ∷ ws) m ≡ run ws m'
unfolding run
run-step w i m m' ws d r e = ground arith

pub run-alu :
    (w : ℕ) (o : Alu) (rd rn rm : ℕ) (m : Machine) (ws : List ℕ)
    → decode w ≡ some (Insn.alu o rd rn rm)
    → run (w ∷ ws) m
      ≡ run ws (
          put_reg rd
            (alu_value o m.flags (reg m rn) (reg m rm))
            (record m { flags = new_flags o m.flags (reg m rn) (reg m rm) }))
unfolding exec
run-alu w o rd rn rm m ws d = run-step w (Insn.alu o rd rn rm) m _ ws d refl refl
