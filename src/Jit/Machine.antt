-- ===== src/Jit/Machine.antt =====
-- The instructions of the processor that the code of src/hc_ir.h without branches and calls is made
-- of: what a word means and what it does. Register 31 is zero; the memory below `sp`, which is
-- moved by 16 bytes at a time, is a list of pairs.
pub mod Run
use zealos_aarch64_bringup.Base.{
  ℕ, ◌+◌, ◌-◌, ◌*◌, ◌/◌, ◌%◌, ◌^◌, Bool, true, false, not, ◌&&◌, ◌||◌, Option, none, some, List, [],
  ◌∷◌, bit_and, bit_or, bit_xor, ltb, ◌==◌, if◌then◌else◌,
}
use zealos_aarch64_bringup.Jit.Words.{
  word_add, word_sub, word_mul, signed_div, signed_lt, shift_left, shift_right, shift_right_signed,
}

pub data Alu : Type 0 where
  add sub subs and orr eor lslv lsrv asrv mul sdiv : Alu
  csinc : ℕ → Alu

pub data Insn : Type 0 where
  movz movk : ℕ → ℕ → ℕ → Insn
  alu : Alu → ℕ → ℕ → ℕ → Insn
  msub : ℕ → ℕ → ℕ → ℕ → Insn
  push pop : ℕ → ℕ → Insn
  ret : Insn

-- What the top eleven bits and bits 10 to 15 tell.
pub data Class : Type 0 where
  move keep : ℕ → Class
  three : Alu → Class
  four stp ldp branch unknown : Class

unfoldable pub class_of : ℕ → ℕ → Class
class_of top mid =
    if top == 1112 && mid == 0
    then Class.three Alu.add
    else if top == 1624 && mid == 0
    then Class.three Alu.sub
    else if top == 1880 && mid == 0
    then Class.three Alu.subs
    else if top == 1104 && mid == 0
    then Class.three Alu.and
    else if top == 1360 && mid == 0
    then Class.three Alu.orr
    else if top == 1616 && mid == 0
    then Class.three Alu.eor
    else if top == 1240 && mid == 31
    then Class.three Alu.mul
    else if top == 1240 && ltb 31 mid
    then Class.four
    else if top == 1238 && mid == 3
    then Class.three Alu.sdiv
    else if top == 1238 && mid == 8
    then Class.three Alu.lslv
    else if top == 1238 && mid == 9
    then Class.three Alu.lsrv
    else if top == 1238 && mid == 10
    then Class.three Alu.asrv
    else if top == 1236 && mid % 4 == 1
    then Class.three (Alu.csinc (mid / 4))
    else if top / 4 == 421
    then Class.move (top % 4)
    else if top / 4 == 485
    then Class.keep (top % 4)
    else if top == 1357
    then Class.stp
    else if top == 1350
    then Class.ldp
    else if top == 1714
    then Class.branch
    else Class.unknown

-- `[sp, #-16]!` and `[sp], #16` for the offset in bits 15 to 20 and the base in bits 5 to 9
abbrev is_at_sp : ℕ → ℕ → Bool
is_at_sp offset w = w / 2 ^ 15 % 64 == offset && w / 2 ^ 5 % 32 == 31

unfoldable pub read_class : Class → ℕ → Option Insn
read_class (Class.move hw) w = some (Insn.movz (w % 32) hw (w / 2 ^ 5 % 2 ^ 16))
read_class (Class.keep hw) w = some (Insn.movk (w % 32) hw (w / 2 ^ 5 % 2 ^ 16))
read_class (Class.three o) w = some (Insn.alu o (w % 32) (w / 2 ^ 5 % 32) (w / 2 ^ 16 % 32))
read_class Class.four w =
    some (Insn.msub (w % 32) (w / 2 ^ 5 % 32) (w / 2 ^ 16 % 32) (w / 2 ^ 10 % 32))
read_class Class.stp w = if is_at_sp 62 w then some (Insn.push (w % 32) (w / 2 ^ 10 % 32)) else none
read_class Class.ldp w = if is_at_sp 2 w then some (Insn.pop (w % 32) (w / 2 ^ 10 % 32)) else none
read_class Class.branch w = if w == 0xd65f03c0 then some Insn.ret else none
read_class Class.unknown w = none

unfoldable pub decode : ℕ → Option Insn
decode w = read_class (class_of (w / 2 ^ 21) (w / 2 ^ 10 % 64)) w

-- `flags` are the operands of the last comparison.
pub record Machine : Type 0 where
  pub regs : ℕ → ℕ
  pub flags : ℕ × ℕ
  pub frames : List (ℕ × ℕ)

abbrev pub reg : Machine → ℕ → ℕ
reg m r = if r == 31 then 0 else m.regs r

abbrev pub set_reg : ℕ → ℕ → (ℕ → ℕ) → ℕ → ℕ
set_reg r v regs k = if k == r then (if r == 31 then regs k else v) else regs k

abbrev pub put_reg : ℕ → ℕ → Machine → Machine
put_reg r v m = record m { regs = set_reg r v m.regs }

-- The conditions of the encoders: EQ, NE, GE, LT, GT and LE.
abbrev pub passes : ℕ → ℕ × ℕ → Bool
passes cond (a, b) =
    if cond == 0
    then a == b
    else if cond == 1
    then not (a == b)
    else if cond == 10
    then not (signed_lt a b)
    else if cond == 11
    then signed_lt a b
    else if cond == 12
    then signed_lt b a
    else not (signed_lt b a)

unfoldable pub alu_value : Alu → ℕ × ℕ → ℕ → ℕ → ℕ
alu_value Alu.add flags a b = word_add a b
alu_value Alu.sub flags a b = word_sub a b
alu_value Alu.subs flags a b = word_sub a b
alu_value Alu.and flags a b = bit_and a b
alu_value Alu.orr flags a b = bit_or a b
alu_value Alu.eor flags a b = bit_xor a b
alu_value Alu.lslv flags a b = shift_left a b
alu_value Alu.lsrv flags a b = shift_right a b
alu_value Alu.asrv flags a b = shift_right_signed a b
alu_value Alu.mul flags a b = word_mul a b
alu_value Alu.sdiv flags a b = signed_div a b
alu_value (Alu.csinc cond) flags a b = if passes cond flags then a else word_add b 1

abbrev pub new_flags : Alu → ℕ × ℕ → ℕ → ℕ → ℕ × ℕ
new_flags Alu.subs flags a b = (a, b)
new_flags o flags a b = flags

-- `none` is a pair taken from an empty stack.
unfoldable pub exec : Insn → Machine → Option Machine
exec (Insn.movz rd hw imm) m = some (put_reg rd (imm * 2 ^ (16 * hw)) m)
exec (Insn.movk rd hw imm) m = some (
    put_reg rd
      (reg m rd / 2 ^ (16 * hw + 16) * 2 ^ (16 * hw + 16)
        + imm * 2 ^ (16 * hw)
        + reg m rd % 2 ^ (16 * hw))
      m)
exec (Insn.alu o rd rn rm) m =
    let a = reg m rn in
    let b = reg m rm in
    some (put_reg rd (alu_value o m.flags a b) (record m { flags = new_flags o m.flags a b }))
exec (Insn.msub rd rn rm ra) m =
    some (put_reg rd (word_sub (reg m ra) (word_mul (reg m rn) (reg m rm))) m)
exec (Insn.push rt rt2) m = some (record m { frames = (reg m rt, reg m rt2) ∷ m.frames })
exec (Insn.pop rt rt2) m = elim m.frames [
  | [] ↦ none
  | f ∷ fs ↦ some (put_reg rt2 f.1 (put_reg rt f.0 (record m { frames = fs })))
]
exec Insn.ret m = none

abbrev pub is_ret : Insn → Bool
is_ret Insn.ret = true
is_ret i = false

-- The words one after the other, up to a return; `none` where there is none or a word is no
-- instruction.
unfoldable pub run : List ℕ → Machine → Option Machine
run [] m = none
run (w ∷ ws) m = elim (decode w) [
  | none ↦ none
  | some i ↦ elim (is_ret i) [
    | true ↦ some m
    | false ↦ elim (exec i m) [ none ↦ none | some m' ↦ run ws m' ]
  ]
]
