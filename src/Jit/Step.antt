-- ===== src/Jit/Step.antt =====
-- hc_ir_compile of src/hc_ir.h: the switch, its loop, the end of the code and the branches.
use zealos_aarch64_bringup.Base.{
  ℕ, zero, suc, ◌+◌, ◌-◌, ◌^◌, ◌%◌, Bool, true, false, Option, none, some, List, [], ◌∷◌, ltb,
  if◌then◌else◌, length,
}
use zealos_aarch64_bringup.Jit.Result.{Error, Result, ok, err, ◌>>=◌}
use zealos_aarch64_bringup.Jit.Encode.{a64_b, a64_cbnz, a64_cbz, a64_movz_x, a64_neg_x, a64_stp_pre}
use zealos_aarch64_bringup.Jit.Ops.{Op, op_of}
use zealos_aarch64_bringup.Jit.Compile.{
  PatchKind, Patch, Places, Gen, minus16, emits, set_word, leave_frame,
}
use zealos_aarch64_bringup.Jit.Stack.{
  gen_arith, gen_compare, gen_drop, gen_dup, gen_imm64, gen_jmp, gen_jump_on, gen_label,
  gen_ld_local, gen_st_local, gen_swap, gen_top,
}
use zealos_aarch64_bringup.Jit.Memory.{
  AddressBase, gen_addr, gen_enter, gen_inarg, gen_ld, gen_leave, gen_load, gen_st, gen_store,
}
use zealos_aarch64_bringup.Jit.Calls.{
  epilogue, f2i_words, fneg_words, gen_call, gen_float_arith, gen_float_compare, gen_ret, i2f_words,
}

-- The switch.
unfoldable pub step : Places → ℕ → Op → List ℕ → Gen → Result (List ℕ × Gen)
step at cap Op.end_of_code bs g = ok (bs, g)
step at cap Op.imm64 bs g = gen_imm64 cap bs g
step at cap (Op.arith o) bs g = gen_arith cap o bs g
step at cap (Op.compare o) bs g = gen_compare cap o bs g
step at cap Op.neg bs g = gen_top cap (λ r. a64_neg_x r r ∷ []) bs g
step at cap Op.dup bs g = gen_dup cap bs g
step at cap Op.swap bs g = gen_swap cap bs g
step at cap Op.drop bs g = gen_drop bs g
step at cap Op.label bs g = gen_label bs g
step at cap Op.jmp bs g = gen_jmp cap bs g
step at cap Op.jz bs g = gen_jump_on cap PatchKind.if_zero (a64_cbz 16 0) bs g
step at cap Op.jnz bs g = gen_jump_on cap PatchKind.if_not_zero (a64_cbnz 16 0) bs g
step at cap Op.st_local bs g = gen_st_local cap bs g
step at cap Op.ld_local bs g = gen_ld_local cap bs g
step at cap Op.slot_addr bs g = gen_addr AddressBase.frame at cap bs g
step at cap (Op.load w) bs g = gen_load cap w bs g
step at cap (Op.store w) bs g = gen_store cap w bs g
step at cap Op.enter bs g = gen_enter at cap bs g
step at cap Op.leave bs g = gen_leave at cap bs g
step at cap (Op.call argc) bs g = gen_call cap argc bs g
step at cap Op.ld_slot bs g = gen_ld AddressBase.frame at cap bs g
step at cap Op.st_slot bs g = gen_st AddressBase.frame at cap bs g
step at cap Op.ld_abs bs g = gen_ld AddressBase.absolute at cap bs g
step at cap Op.st_abs bs g = gen_st AddressBase.absolute at cap bs g
step at cap Op.abs_addr bs g = gen_addr AddressBase.absolute at cap bs g
step at cap Op.i2f bs g = gen_top cap i2f_words bs g
step at cap Op.f2i bs g = gen_top cap f2i_words bs g
step at cap Op.fneg bs g = gen_top cap fneg_words bs g
step at cap (Op.float_arith o) bs g = gen_float_arith cap o bs g
step at cap (Op.float_compare o) bs g = gen_float_compare cap o bs g
step at cap Op.inarg bs g = gen_inarg at cap bs g
step at cap Op.ret bs g = gen_ret at cap bs g

abbrev pub is_end : Op → Bool
is_end Op.end_of_code = true
is_end o = false

-- `while (i < bc_len)`
unfoldable pub loop : ℕ → Places → ℕ → List ℕ → Gen → Result Gen
loop zero at cap bs g = err Error.stuck
loop (suc fuel) at cap [] g = ok g
loop (suc fuel) at cap (b ∷ bs) g = elim (op_of b) [
  | none ↦ err Error.op
  | some o ↦ elim (is_end o) [
    | true ↦ ok g
    | false ↦ do (rest, g') ← step at cap o bs g; loop fuel at cap rest g'
  ]
]

-- The word that a branch ends up as, for the offset `off`.
unfoldable pub branch_word : PatchKind → ℕ → ℕ
branch_word PatchKind.always off = a64_b off
branch_word PatchKind.if_zero off = a64_cbz 16 off
branch_word PatchKind.if_not_zero off = a64_cbnz 16 off

-- `(int32_t)(target - (site - out))`, as its bits
abbrev pub offset_of : ℕ → ℕ → ℕ
offset_of target site = (target + 2 ^ 32 - site) % 2 ^ 32

-- `for (int k = 0; k < npatch; k++)`
unfoldable pub patch_all : List Patch → (ℕ → Option ℕ) → List ℕ → Result (List ℕ)
patch_all [] label_at code = ok code
patch_all (x ∷ xs) label_at code = elim (label_at x.label) [
  | none ↦ err Error.label
  | some target ↦
      patch_all xs label_at (set_word x.site (branch_word x.kind (offset_of target x.site)) code)
]

-- Behind the loop.
unfoldable pub finish : Places → ℕ → Gen → Result (List ℕ)
finish at cap g = do
  g₁ ← leave_frame at cap g
  g₂ ← emits cap (a64_movz_x 0 0 0 ∷ epilogue) g₁
  patch_all g₂.patches g₂.label_at g₂.code

-- The words in front of the code.
abbrev pub prologue : List ℕ
prologue =
    a64_stp_pre 20 21 31 minus16
    ∷ (a64_stp_pre 22 23 31 minus16 ∷ (a64_stp_pre 30 31 31 minus16 ∷ []))

abbrev pub empty_gen : Gen
empty_gen = record { code = prologue; sp = 0; framed = false; label_at = λ k. none; patches = [] }

-- hc_ir_compile: the words, of which it returns the size in bytes, or the error.
unfoldable pub compile : Places → List ℕ → ℕ → Result (List ℕ)
compile at bc cap =
    if ltb cap 3
    then err Error.space
    else (do g ← loop (suc (length bc)) at cap bc empty_gen; finish at cap g)
