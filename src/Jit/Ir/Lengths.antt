-- ===== src/Jit/Ir/Lengths.antt =====
-- How long the bytecode of a program of Jit/Ir is, and its code, src/hc_ir.h.
use zealos_aarch64_bringup.Base.{
  ℕ, ◌+◌, ◌-◌, ◌*◌, ◌≤◌, arith, List, [], ◌∷◌, ◌++◌, length, length-append,
}
use zealos_aarch64_bringup.Jit.Encode.{a64_emit_imm64, a64_mov_x}
use zealos_aarch64_bringup.Jit.Compile.{reg_at}
use zealos_aarch64_bringup.Jit.Calls.{epilogue}
use zealos_aarch64_bringup.Jit.Step.{}
use zealos_aarch64_bringup.Jit.Pack.{pack_imm64, pack_u8op}
use zealos_aarch64_bringup.Jit.Ir.{Instr, bytes_of, bytecode}
use zealos_aarch64_bringup.Jit.Ir.Emission.{words_of, depth_after, arith_words-short}

-- The words behind the last instruction.
abbrev pub return_words : ℕ → List ℕ
return_words n = a64_mov_x 0 (reg_at (n - 1)) ∷ epilogue

abbrev pub program_words : List Instr → ℕ → List ℕ
program_words [] n = return_words n
program_words (i ∷ is) n = words_of i n ++ program_words is (depth_after i n)

pub words_of-short : (i : Instr) (n : ℕ) → length (words_of i n) ≤ 4
unfolding a64_emit_imm64
words_of-short (Instr.imm v) n = omega arith
words_of-short (Instr.arith o) n =
    omega (arith, arith_words-short o (reg_at (n - 2)) (reg_at (n - 1)))
words_of-short (Instr.compare o) n = omega arith
words_of-short Instr.neg n = omega arith
words_of-short Instr.dup n = omega arith
words_of-short Instr.swap n = omega arith
words_of-short Instr.drop n = omega arith
words_of-short (Instr.st_local slot) n = omega arith
words_of-short (Instr.ld_local slot) n = omega arith

pub program_words-short :
    (is : List Instr) (n : ℕ) → length (program_words is n) ≤ 4 * length is + 5
program_words-short [] n = omega arith
program_words-short (i ∷ is) n = omega (
  arith,
  length-append (words_of i n) (program_words is (depth_after i n)),
  words_of-short i n,
  program_words-short is (depth_after i n),
)

bytes_of-long : (i : Instr) → 1 ≤ length (bytes_of i)
unfolding pack_imm64 pack_u8op
bytes_of-long (Instr.imm v) = omega arith
bytes_of-long (Instr.arith o) = omega arith
bytes_of-long (Instr.compare o) = omega arith
bytes_of-long Instr.neg = omega arith
bytes_of-long Instr.dup = omega arith
bytes_of-long Instr.swap = omega arith
bytes_of-long Instr.drop = omega arith
bytes_of-long (Instr.st_local slot) = omega arith
bytes_of-long (Instr.ld_local slot) = omega arith

pub bytecode-long : (is : List Instr) → length is + 1 ≤ length (bytecode is)
bytecode-long [] = omega arith
bytecode-long (i ∷ is) =
    omega (arith, length-append (bytes_of i) (bytecode is), bytes_of-long i, bytecode-long is)
