-- ===== src/Jit/Ir.antt =====
-- What the bytecode of src/hc_ir.h without branches, calls and memory means: a stack and four
-- locals. The comments of its enumeration say what each operation does.
pub mod Emission
pub mod Lengths
pub mod Program
pub mod Steps
pub mod Mirrors
pub mod Simulation
pub mod Frame
pub mod Correct
use zealos_aarch64_bringup.Base.{
  ℕ, zero, suc, ◌+◌, ◌-◌, ◌^◌, ◌<◌, ◌≡◌, Bool, true, false, not, ◌&&◌, Option, none, some, List, [],
  ◌∷◌, ◌++◌, bit_and, bit_or, bit_xor, ltb, ◌==◌, if◌then◌else◌, length,
}
use zealos_aarch64_bringup.Jit.Ops.{Arith, Compare}
use zealos_aarch64_bringup.Jit.Compile.{max_locals}
use zealos_aarch64_bringup.Jit.Pack.{pack_imm64, pack_u8op}
use zealos_aarch64_bringup.Jit.Words.{
  word_add, word_sub, word_mul, signed_div, signed_lt, shift_left, shift_right, shift_right_signed,
}

pub data Instr : Type 0 where
  imm : ℕ → Instr
  arith : Arith → Instr
  compare : Compare → Instr
  neg dup swap drop : Instr
  st_local ld_local : ℕ → Instr

-- HC_ADD to HC_ASR, by number
abbrev pub arith_code : Arith → ℕ
arith_code Arith.add = 2
arith_code Arith.sub = 3
arith_code Arith.mul = 4
arith_code Arith.and = 21
arith_code Arith.or = 22
arith_code Arith.xor = 23
arith_code Arith.shl = 24
arith_code Arith.shr = 25
arith_code Arith.div = 37
arith_code Arith.rem = 38
arith_code Arith.asr = 39

abbrev pub compare_code : Compare → ℕ
compare_code Compare.eq = 7
compare_code Compare.lt = 8
compare_code Compare.ne = 26
compare_code Compare.le = 27
compare_code Compare.gt = 28
compare_code Compare.ge = 29

abbrev pub bytes_of : Instr → List ℕ
bytes_of (Instr.imm v) = pack_imm64 v
bytes_of (Instr.arith o) = arith_code o ∷ []
bytes_of (Instr.compare o) = compare_code o ∷ []
bytes_of Instr.neg = 9 ∷ []
bytes_of Instr.dup = 10 ∷ []
bytes_of Instr.drop = 11 ∷ []
bytes_of Instr.swap = 65 ∷ []
bytes_of (Instr.st_local slot) = pack_u8op 16 slot
bytes_of (Instr.ld_local slot) = pack_u8op 17 slot

-- A program, and HC_RET.
abbrev pub bytecode : List Instr → List ℕ
bytecode [] = 6 ∷ []
bytecode (i ∷ is) = bytes_of i ++ bytecode is

-- The stack with its top in front, and the locals.
pub record Values : Type 0 where
  pub stack : List ℕ
  pub locals : ℕ → ℕ

abbrev pub values : List ℕ → (ℕ → ℕ) → Values
values vs ls = record { stack = vs; locals = ls }

abbrev pub arith_value : Arith → ℕ → ℕ → ℕ
arith_value Arith.add a b = word_add a b
arith_value Arith.sub a b = word_sub a b
arith_value Arith.mul a b = word_mul a b
arith_value Arith.div a b = signed_div a b
arith_value Arith.rem a b = word_sub a (word_mul (signed_div a b) b)
arith_value Arith.and a b = bit_and a b
arith_value Arith.or a b = bit_or a b
arith_value Arith.xor a b = bit_xor a b
arith_value Arith.shl a b = shift_left a b
arith_value Arith.shr a b = shift_right a b
arith_value Arith.asr a b = shift_right_signed a b

abbrev pub compares : Compare → ℕ → ℕ → Bool
compares Compare.eq a b = a == b
compares Compare.ne a b = not (a == b)
compares Compare.lt a b = signed_lt a b
compares Compare.le a b = not (signed_lt b a)
compares Compare.gt a b = signed_lt b a
compares Compare.ge a b = not (signed_lt a b)

-- The registers x9 to x15 keep the stack, the next one is used by the compiler itself.
abbrev pub deepest : ℕ
deepest = 7

abbrev push_value : ℕ → Values → Option Values
push_value v s =
    if ltb (length s.stack) deepest then some (record s { stack = v ∷ s.stack }) else none

abbrev set_local : ℕ → ℕ → (ℕ → ℕ) → ℕ → ℕ
set_local slot v locals k = if k == slot then v else locals k

-- `none` is a stack that is too short or too deep, or an operand out of range.
unfoldable pub eval : Instr → Values → Option Values
eval (Instr.imm v) s = if ltb v (2 ^ 64) then push_value v s else none
eval (Instr.arith o) s = elim s.stack [
  | b ∷ (a ∷ vs) ↦ some (record s { stack = arith_value o a b ∷ vs })
  | _ ↦ none
]
eval (Instr.compare o) s = elim s.stack [
  | b ∷ (a ∷ vs) ↦ some (record s { stack = (if compares o a b then 1 else 0) ∷ vs })
  | _ ↦ none
]
eval Instr.neg s = elim s.stack [
  | [] ↦ none
  | a ∷ vs ↦ some (record s { stack = word_sub 0 a ∷ vs })
]
eval Instr.dup s = elim s.stack [ [] ↦ none | a ∷ vs ↦ push_value a s ]
eval Instr.swap s = elim s.stack [
  | b ∷ (a ∷ vs) ↦ some (record s { stack = a ∷ (b ∷ vs) })
  | _ ↦ none
]
eval Instr.drop s = elim s.stack [ [] ↦ none | a ∷ vs ↦ some (record s { stack = vs }) ]
eval (Instr.st_local slot) s = elim s.stack [
  | [] ↦ none
  | a ∷ vs ↦
      if ltb slot max_locals
      then some (record { stack = vs; locals = set_local slot a s.locals })
      else none
]
eval (Instr.ld_local slot) s = if ltb slot max_locals then push_value (s.locals slot) s else none

unfoldable pub eval_all : List Instr → Values → Option Values
eval_all [] s = some s
eval_all (i ∷ is) s = elim (eval i s) [ none ↦ none | some s' ↦ eval_all is s' ]
