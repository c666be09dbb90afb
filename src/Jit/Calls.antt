-- ===== src/Jit/Calls.antt =====
-- The cases of hc_ir_compile, src/hc_ir.h, for calls, for floating point, and HC_RET.
use zealos_aarch64_bringup.Base.{
  ℕ, zero, suc, ◌+◌, ◌-◌, List, [], ◌∷◌, ◌++◌, ltb, leb, if◌then◌else◌,
}
use zealos_aarch64_bringup.Jit.Result.{Error, Result, err, ◌>>=◌}
use zealos_aarch64_bringup.Jit.Encode.{
  a64_blr, a64_emit_imm64, a64_fadd_d, a64_fcmp_d, a64_fcvtzs_x_d, a64_fdiv_d, a64_fmov_d_x,
  a64_fmov_x_d, a64_fmul_d, a64_fneg_d, a64_fsub_d, a64_ldp_post, a64_mov_x, a64_movz_x, a64_ret,
  a64_scvtf_d_x, a64_stp_pre,
}
use zealos_aarch64_bringup.Jit.Ops.{Compare, FloatArith}
use zealos_aarch64_bringup.Jit.Compile.{
  max_depth, Places, Gen, minus16, emits, emit_block, reg_at, leave_frame,
}
use zealos_aarch64_bringup.Jit.Stack.{read_u64, done, top_reg, second_reg, cset}

-- The arguments, from the top of a stack of `sp` values: the last one first.
unfoldable pub move_args : ℕ → ℕ → List ℕ
move_args zero sp = []
move_args (suc n) sp = a64_mov_x n (reg_at (sp - 1)) ∷ move_args n (sp - 1)

-- The values below the arguments are saved from the lowest on, and restored from the highest on.
unfoldable pub save_stack : ℕ → List ℕ
save_stack zero = []
save_stack (suc n) = save_stack n ++ a64_stp_pre (reg_at n) 31 31 minus16 ∷ []

unfoldable pub restore_stack : ℕ → List ℕ
restore_stack zero = []
restore_stack (suc n) = a64_ldp_post (reg_at n) 31 31 16 ∷ restore_stack n

abbrev pub save_locals : List ℕ
save_locals = a64_stp_pre 20 21 31 minus16 ∷ (a64_stp_pre 22 23 31 minus16 ∷ [])

abbrev pub restore_locals : List ℕ
restore_locals = a64_ldp_post 22 23 31 16 ∷ (a64_ldp_post 20 21 31 16 ∷ [])

-- HC_CALL0 to HC_CALL7
unfoldable pub gen_call : ℕ → ℕ → List ℕ → Gen → Result (List ℕ × Gen)
gen_call cap argc bs g = do
  (fn, rest) ← read_u64 bs
  if ltb g.sp argc then err Error.depth else (do
    let need = g.sp - argc
    g₁ ← emits cap (move_args argc g.sp) g
    g₂ ← emits cap (save_stack need ++ save_locals) g₁
    g₃ ← emit_block cap 4 (a64_emit_imm64 16 fn) g₂
    g₄ ← emits cap (a64_blr 16 ∷ restore_locals) g₃
    if leb max_depth need
        then err Error.depth
        else done rest (need + 1)
            (emits cap (restore_stack need ++ a64_mov_x (reg_at need) 0 ∷ []) g₄))

-- HC_I2F, HC_F2I and HC_FNEG
abbrev pub i2f_words : ℕ → List ℕ
i2f_words r = a64_scvtf_d_x 0 r ∷ (a64_fmov_x_d r 0 ∷ [])

abbrev pub f2i_words : ℕ → List ℕ
f2i_words r = a64_fmov_d_x 0 r ∷ (a64_fcvtzs_x_d r 0 ∷ [])

abbrev pub fneg_words : ℕ → List ℕ
fneg_words r = a64_fmov_d_x 0 r ∷ (a64_fneg_d 0 0 ∷ (a64_fmov_x_d r 0 ∷ []))

unfoldable pub float_word : FloatArith → ℕ
float_word FloatArith.fadd = a64_fadd_d 0 0 1
float_word FloatArith.fsub = a64_fsub_d 0 0 1
float_word FloatArith.fmul = a64_fmul_d 0 0 1
float_word FloatArith.fdiv = a64_fdiv_d 0 0 1

-- HC_FADD to HC_FDIV
unfoldable pub gen_float_arith : ℕ → FloatArith → List ℕ → Gen → Result (List ℕ × Gen)
gen_float_arith cap o bs g =
    if ltb g.sp 2
    then err Error.depth
    else done bs (g.sp - 1) (
        emits cap
          (a64_fmov_d_x 0 (second_reg g)
            ∷ (a64_fmov_d_x 1 (top_reg g) ∷ (float_word o ∷ (a64_fmov_x_d (second_reg g) 0 ∷ []))))
          g)

-- HC_FEQ to HC_FNE
unfoldable pub gen_float_compare : ℕ → Compare → List ℕ → Gen → Result (List ℕ × Gen)
gen_float_compare cap o bs g =
    if ltb g.sp 2
    then err Error.depth
    else done bs (g.sp - 1) (
        emits cap
          (a64_fmov_d_x 0 (second_reg g)
            ∷ (a64_fmov_d_x 1 (top_reg g) ∷ (a64_fcmp_d 0 1 ∷ (cset o (second_reg g) ∷ []))))
          g)

-- The words behind the result: the saved registers come back.
abbrev pub epilogue : List ℕ
epilogue =
    a64_ldp_post 30 31 31 16
    ∷ (a64_ldp_post 22 23 31 16 ∷ (a64_ldp_post 20 21 31 16 ∷ (a64_ret ∷ [])))

-- HC_RET
unfoldable pub gen_ret : Places → ℕ → List ℕ → Gen → Result (List ℕ × Gen)
gen_ret at cap bs g = do
  g' ← leave_frame at cap g
  done bs 0
      (emits cap ((if ltb g.sp 1 then a64_movz_x 0 0 0 else a64_mov_x 0 (top_reg g)) ∷ epilogue) g')
