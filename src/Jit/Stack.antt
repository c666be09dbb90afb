-- ===== src/Jit/Stack.antt =====
-- The cases of hc_ir_compile, src/hc_ir.h, that work on the stack, the labels and the locals.
use zealos_aarch64_bringup.Base.{
  ℕ, zero, suc, ◌+◌, ◌-◌, ◌*◌, ◌^◌, Bool, true, false, ◌||◌, Option, none, some, List, [], ◌∷◌,
  bit_or, ltb, leb, ◌==◌, if◌then◌else◌, length,
}
use zealos_aarch64_bringup.Jit.Result.{Error, Result, ok, err, ◌>>=◌}
use zealos_aarch64_bringup.Jit.Encode.{
  a64_add_x_reg, a64_and_x, a64_asrv_x, a64_cmp_x, a64_cset_eq, a64_cset_ge, a64_cset_gt,
  a64_cset_le, a64_cset_lt, a64_cset_ne, a64_emit_imm64, a64_eor_x, a64_lslv_x, a64_lsrv_x,
  a64_mov_x, a64_msub_x, a64_mul_x, a64_orr_x, a64_sdiv_x, a64_sub_x_reg,
}
use zealos_aarch64_bringup.Jit.Ops.{Arith, Compare}
use zealos_aarch64_bringup.Jit.Compile.{
  max_depth, max_labels, max_locals, PatchKind, Gen, with_sp, emit, emits, emit_block, emit_br,
  set_word, local_reg, reg_at,
}

-- `bc[i++]`
unfoldable pub take_byte : List ℕ → Result (ℕ × List ℕ)
take_byte [] = err Error.trunc
take_byte (b ∷ bs) = ok (b, bs)

-- `imm |= (uint64_t)bc[i++] << (8 * b)`, for `n` bytes from `b` on
unfoldable pub read_le : ℕ → ℕ → ℕ → List ℕ → Result (ℕ × List ℕ)
read_le zero b acc bs = ok (acc, bs)
read_le (suc n) b acc [] = err Error.trunc
read_le (suc n) b acc (x ∷ xs) = read_le n (b + 1) (bit_or acc (x * 2 ^ (8 * b))) xs

abbrev pub read_u64 : List ℕ → Result (ℕ × List ℕ)
read_u64 bs = read_le 8 0 0 bs

-- The bytes that are left and the new `sp`.
abbrev pub done : List ℕ → ℕ → Result Gen → Result (List ℕ × Gen)
done rest sp r = do g ← r; ok (rest, with_sp sp g)

-- `rb` and `ra`
abbrev pub top_reg : Gen → ℕ
top_reg g = reg_at (g.sp - 1)

abbrev pub second_reg : Gen → ℕ
second_reg g = reg_at (g.sp - 2)

-- HC_IMM64
unfoldable pub gen_imm64 : ℕ → List ℕ → Gen → Result (List ℕ × Gen)
gen_imm64 cap bs g = do
  (imm, rest) ← read_u64 bs
  if leb max_depth g.sp
      then err Error.depth
      else done rest (g.sp + 1) (emit_block cap 4 (a64_emit_imm64 (reg_at g.sp) imm) g)

-- HC_ADD to HC_ASR
unfoldable pub arith_words : Arith → ℕ → ℕ → List ℕ
arith_words Arith.add ra rb = a64_add_x_reg ra ra rb ∷ []
arith_words Arith.sub ra rb = a64_sub_x_reg ra ra rb ∷ []
arith_words Arith.mul ra rb = a64_mul_x ra ra rb ∷ []
arith_words Arith.div ra rb = a64_sdiv_x ra ra rb ∷ []
arith_words Arith.rem ra rb = a64_sdiv_x 8 ra rb ∷ (a64_msub_x ra 8 rb ra ∷ [])
arith_words Arith.and ra rb = a64_and_x ra ra rb ∷ []
arith_words Arith.or ra rb = a64_orr_x ra ra rb ∷ []
arith_words Arith.xor ra rb = a64_eor_x ra ra rb ∷ []
arith_words Arith.shl ra rb = a64_lslv_x ra ra rb ∷ []
arith_words Arith.asr ra rb = a64_asrv_x ra ra rb ∷ []
arith_words Arith.shr ra rb = a64_lsrv_x ra ra rb ∷ []

unfoldable pub gen_arith : ℕ → Arith → List ℕ → Gen → Result (List ℕ × Gen)
gen_arith cap o bs g =
    if ltb g.sp 2
    then err Error.depth
    else done bs (g.sp - 1) (emits cap (arith_words o (second_reg g) (top_reg g)) g)

-- The CSET of a comparison.
unfoldable pub cset : Compare → ℕ → ℕ
cset Compare.eq r = a64_cset_eq r
cset Compare.ne r = a64_cset_ne r
cset Compare.lt r = a64_cset_lt r
cset Compare.le r = a64_cset_le r
cset Compare.gt r = a64_cset_gt r
cset Compare.ge r = a64_cset_ge r

-- HC_EQ to HC_GE
unfoldable pub gen_compare : ℕ → Compare → List ℕ → Gen → Result (List ℕ × Gen)
gen_compare cap o bs g =
    if ltb g.sp 2
    then err Error.depth
    else done bs (g.sp - 1)
        (emits cap (a64_cmp_x (second_reg g) (top_reg g) ∷ (cset o (second_reg g) ∷ [])) g)

-- A case that changes the top of the stack alone.
abbrev pub gen_top : ℕ → (ℕ → List ℕ) → List ℕ → Gen → Result (List ℕ × Gen)
gen_top cap words bs g =
    if ltb g.sp 1 then err Error.depth else done bs g.sp (emits cap (words (top_reg g)) g)

-- HC_DUP, HC_SWAP and HC_DROP
unfoldable pub gen_dup : ℕ → List ℕ → Gen → Result (List ℕ × Gen)
gen_dup cap bs g =
    if ltb g.sp 1 || leb max_depth g.sp
    then err Error.depth
    else done bs (g.sp + 1) (emit cap (a64_mov_x (reg_at g.sp) (top_reg g)) g)

unfoldable pub gen_swap : ℕ → List ℕ → Gen → Result (List ℕ × Gen)
gen_swap cap bs g =
    if ltb g.sp 2
    then err Error.depth
    else done bs g.sp (
        emits cap
          (a64_mov_x 16 (second_reg g)
            ∷ (a64_mov_x (second_reg g) (top_reg g) ∷ (a64_mov_x (top_reg g) 16 ∷ [])))
          g)

unfoldable pub gen_drop : List ℕ → Gen → Result (List ℕ × Gen)
gen_drop bs g = if ltb g.sp 1 then err Error.depth else ok (bs, with_sp (g.sp - 1) g)

abbrev pub is_set : Option ℕ → Bool
is_set none = false
is_set (some at) = true

-- HC_LABEL
unfoldable pub gen_label : List ℕ → Gen → Result (List ℕ × Gen)
gen_label bs g = do
  (id, rest) ← take_byte bs
  if leb max_labels id || is_set (g.label_at id)
      then err Error.label
      else ok (
        rest,
        record g { label_at = λ k. if k == id then some (length g.code) else g.label_at k },
      )

-- HC_JMP
unfoldable pub gen_jmp : ℕ → List ℕ → Gen → Result (List ℕ × Gen)
gen_jmp cap bs g = do (id, rest) ← take_byte bs; done rest g.sp (emit_br cap PatchKind.always id g)

-- HC_JZ and HC_JNZ, with the word that replaces the placeholder
unfoldable pub gen_jump_on : ℕ → PatchKind → ℕ → List ℕ → Gen → Result (List ℕ × Gen)
gen_jump_on cap kind word bs g = do
  (id, rest) ← take_byte bs
  if ltb g.sp 1 then err Error.depth else (do
    g₁ ← emit cap (a64_mov_x 16 (top_reg g)) g
    g₂ ← emit_br cap kind id g₁
    ok (rest, record g₂ { code = set_word (length g₁.code) word g₂.code; sp = g.sp - 1 }))

-- HC_ST_LOCAL and HC_LD_LOCAL
unfoldable pub gen_st_local : ℕ → List ℕ → Gen → Result (List ℕ × Gen)
gen_st_local cap bs g = do
  (slot, rest) ← take_byte bs
  if leb max_locals slot || ltb g.sp 1
      then err Error.local
      else done rest (g.sp - 1) (emit cap (a64_mov_x (local_reg slot) (top_reg g)) g)

unfoldable pub gen_ld_local : ℕ → List ℕ → Gen → Result (List ℕ × Gen)
gen_ld_local cap bs g = do
  (slot, rest) ← take_byte bs
  if leb max_locals slot || leb max_depth g.sp
      then err Error.local
      else done rest (g.sp + 1) (emit cap (a64_mov_x (reg_at g.sp) (local_reg slot)) g)
