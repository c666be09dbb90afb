-- ===== src/Jit/Compile.antt =====
-- What hc_ir_compile of src/hc_ir.h keeps while it goes over the bytecode, and how it puts out
-- words: EMIT, EMIT_BR and the hc_emit_ helpers.
use zealos_aarch64_bringup.Base.{
  ℕ, zero, suc, ◌+◌, ◌-◌, ◌*◌, ◌%◌, ◌^◌, Bool, Option, List, [], ◌∷◌, ◌++◌, ltb, leb, ◌==◌,
  if◌then◌else◌, length,
}
use zealos_aarch64_bringup.Jit.Result.{Error, Result, ok, err, ◌>>=◌}
use zealos_aarch64_bringup.Jit.Encode.{
  a64_add_x_imm, a64_add_x_lsl, a64_emit_imm64, a64_ldp_post, a64_ldr_x, a64_stp_pre, a64_str_x,
}

-- HC_IR_MAX_DEPTH, HC_IR_MAX_LABELS, HC_IR_MAX_LOCALS, HC_IR_MEM_WORDS and the length of `patches`
abbrev pub max_depth : ℕ
max_depth = 16

abbrev pub max_labels : ℕ
max_labels = 128

abbrev pub max_locals : ℕ
max_locals = 4

abbrev pub mem_words : ℕ
mem_words = 256

abbrev pub max_patches : ℕ
max_patches = 256

-- HC_PATCH_B, HC_PATCH_CBZ and HC_PATCH_CBNZ
pub data PatchKind : Type 0 where
  always if_zero if_not_zero : PatchKind

-- `struct hc_patch`; `site` counts words from `out`.
pub record Patch : Type 0 where
  pub kind : PatchKind
  pub label : ℕ
  pub site : ℕ

-- Where the linker put `g_hc_fp`, `g_hc_alloc` and `g_hc_mem`.
pub record Places : Type 0 where
  pub fp : ℕ
  pub alloc : ℕ
  pub mem : ℕ

-- The words from `out` to `p`, and the variables of the loop. A label is `none` for its -1.
pub record Gen : Type 0 where
  pub code : List ℕ
  pub sp : ℕ
  pub framed : Bool
  pub label_at : ℕ → Option ℕ
  pub patches : List Patch

-- `-16` as its bits
abbrev pub minus16 : ℕ
minus16 = 2 ^ 32 - 16

abbrev pub more_code : List ℕ → Gen → Gen
more_code ws g = record g { code = g.code ++ ws }

abbrev pub with_sp : ℕ → Gen → Gen
with_sp sp g = record g { sp = sp }

-- EMIT
unfoldable pub emit : ℕ → ℕ → Gen → Result Gen
emit cap w g = if leb cap (length g.code) then err Error.space else ok (more_code (w ∷ []) g)

-- One EMIT after the other.
unfoldable pub emits : ℕ → List ℕ → Gen → Result Gen
emits cap [] g = ok g
emits cap (w ∷ ws) g = do g' ← emit cap w g; emits cap ws g'

-- `if (p + need > pend)`, and then the words.
unfoldable pub emit_block : ℕ → ℕ → List ℕ → Gen → Result Gen
emit_block cap need ws g =
    if ltb cap (length g.code + need) then err Error.space else ok (more_code ws g)

-- EMIT_BR
unfoldable pub emit_br : ℕ → PatchKind → ℕ → Gen → Result Gen
emit_br cap kind lab g =
    if leb cap (length g.code)
    then err Error.space
    else if leb max_labels lab
    then err Error.label
    else if leb max_patches (length g.patches)
    then err Error.space
    else ok (record g {
      code = g.code ++ 0x14000000 ∷ [];
      patches = g.patches ++ record { kind = kind; label = lab; site = length g.code } ∷ [];
    })

-- `site[0] = w`
unfoldable pub set_word : ℕ → ℕ → List ℕ → List ℕ
set_word site w [] = []
set_word zero w (x ∷ xs) = w ∷ xs
set_word (suc site) w (x ∷ xs) = x ∷ set_word site w xs

-- hc_local_reg, and the register of a place on the stack
abbrev pub local_reg : ℕ → ℕ
local_reg slot = 20 + slot

abbrev pub reg_at : ℕ → ℕ
reg_at k = 9 + k

-- hc_emit_slot_addr
abbrev pub slot_addr_words : Places → ℕ → ℕ → List ℕ
slot_addr_words at rd slot =
    a64_emit_imm64 17 at.fp
    ++ (a64_ldr_x 17 17
        ∷ ((if slot == 0 then [] else a64_add_x_imm 17 17 slot ∷ [])
            ++ (a64_emit_imm64 rd at.mem ++ a64_add_x_lsl rd rd 17 3 ∷ [])))

unfoldable pub emit_slot_addr : Places → ℕ → ℕ → ℕ → Gen → Result Gen
emit_slot_addr at cap rd slot g =
    if rd == 17 then err Error.space else emit_block cap 12 (slot_addr_words at rd slot) g

-- hc_emit_abs_addr
unfoldable pub emit_abs_addr : Places → ℕ → ℕ → ℕ → Gen → Result Gen
emit_abs_addr at cap rd slot g =
    emit_block cap 8 (a64_emit_imm64 rd ((at.mem + 8 * slot) % 2 ^ 64)) g

-- hc_emit_enter
abbrev pub enter_words : Places → ℕ → List ℕ
enter_words at nwords =
    a64_emit_imm64 16 at.fp
    ++ (a64_ldr_x 17 16
        ∷ (a64_stp_pre 17 31 31 minus16
            ∷ (a64_emit_imm64 18 at.alloc
                ++ (a64_ldr_x 17 18
                    ∷ (a64_str_x 17 16
                        ∷ ((if nwords == 0 then [] else a64_add_x_imm 17 17 nwords ∷ [])
                            ++ a64_str_x 17 18 ∷ []))))))

unfoldable pub emit_enter : Places → ℕ → ℕ → Gen → Result Gen
emit_enter at cap nwords g = emit_block cap 16 (enter_words at nwords) g

-- hc_emit_leave
abbrev pub leave_words : Places → List ℕ
leave_words at =
    a64_emit_imm64 16 at.fp
    ++ (a64_emit_imm64 18 at.alloc
        ++ (a64_ldr_x 17 16
            ∷ (a64_str_x 17 18 ∷ (a64_ldp_post 17 31 31 16 ∷ (a64_str_x 17 16 ∷ [])))))

unfoldable pub emit_leave : Places → ℕ → Gen → Result Gen
emit_leave at cap g = emit_block cap 12 (leave_words at) g

-- `if (framed) hc_emit_leave`
unfoldable pub leave_frame : Places → ℕ → Gen → Result Gen
leave_frame at cap g = if g.framed then emit_leave at cap g else ok g
