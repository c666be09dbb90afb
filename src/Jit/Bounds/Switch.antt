-- ===== src/Jit/Bounds/Switch.antt =====
-- One round of the switch in hc_ir_compile, src/hc_ir.h: how many bytes it takes, and what it does
-- to the labels and the branches.
use zealos_aarch64_bringup.Base.{ℕ, List, [], ◌∷◌, length, ◌≡◌, ◌+◌, refl, sym, append-nil, drop}
use zealos_aarch64_bringup.Jit.Result.{Result, ok, err}
use zealos_aarch64_bringup.Jit.Encode.{a64_cbnz, a64_cbz, a64_neg_x}
use zealos_aarch64_bringup.Jit.Ops.{Op}
use zealos_aarch64_bringup.Jit.Compile.{PatchKind, Places, Gen}
use zealos_aarch64_bringup.Jit.Calls.{f2i_words, fneg_words, i2f_words}
use zealos_aarch64_bringup.Jit.Memory.{AddressBase}
use zealos_aarch64_bringup.Jit.Step.{step}
use zealos_aarch64_bringup.Jit.Bounds.{Ensures, IsSound}
use zealos_aarch64_bringup.Jit.Bounds.Cases.{
  gen_arith-Next, gen_compare-Next, gen_drop-Next, gen_dup-Next, gen_imm64-Next, Marks, Extends,
  gen_label-Marks, gen_ld_local-Next, gen_st_local-Next, gen_swap-Next, gen_top-Next,
}
use zealos_aarch64_bringup.Jit.Bounds.Jumps.{gen_jmp-Jumps, gen_jump_on-Jumps, Jumps}
use zealos_aarch64_bringup.Jit.Bounds.Calls.{
  gen_addr-Next, gen_call-Next, gen_enter-Next, gen_float_arith-Next, gen_float_compare-Next,
  gen_inarg-Next, gen_ld-Next, gen_leave-Next, gen_load-Next, gen_ret-Next, gen_st-Next,
  gen_store-Next,
}

-- How many bytes behind an operation are its operand.
abbrev pub operand_bytes : Op → ℕ
operand_bytes Op.imm64 = 8
operand_bytes (Op.call argc) = 8
operand_bytes Op.label = 1
operand_bytes Op.jmp = 1
operand_bytes Op.jz = 1
operand_bytes Op.jnz = 1
operand_bytes Op.st_local = 1
operand_bytes Op.ld_local = 1
operand_bytes Op.slot_addr = 1
operand_bytes Op.enter = 1
operand_bytes Op.ld_slot = 1
operand_bytes Op.st_slot = 1
operand_bytes Op.ld_abs = 1
operand_bytes Op.st_abs = 1
operand_bytes Op.abs_addr = 1
operand_bytes Op.inarg = 2
operand_bytes o = 0

-- What an operation is for the branches.
pub data Flow : Type 0 where
  straight mark : Flow
  jump : PatchKind → Flow

abbrev pub flow_of : Op → Flow
flow_of Op.label = Flow.mark
flow_of Op.jmp = Flow.jump PatchKind.always
flow_of Op.jz = Flow.jump PatchKind.if_zero
flow_of Op.jnz = Flow.jump PatchKind.if_not_zero
flow_of o = Flow.straight

-- A conditional branch has a word in front of it, which moves the value to x16.
abbrev pub site_of : PatchKind → ℕ → ℕ
site_of PatchKind.always place = place
site_of PatchKind.if_zero place = 1 + place
site_of PatchKind.if_not_zero place = 1 + place

abbrev pub Moves : Flow → Op → List ℕ → Gen → List ℕ × Gen → Type 0
Moves Flow.straight o bs g r = Extends g r.1
Moves Flow.mark o bs g r = (o ≡ Op.label) × Marks bs g r
Moves (Flow.jump kind) o bs g r = Jumps kind (site_of kind (length g.code)) bs g r

abbrev pub Stepped : ℕ → Op → List ℕ → Gen → List ℕ × Gen → Type 0
Stepped cap o bs g r =
    (r.0 ≡ drop (operand_bytes o) bs) × IsSound cap r.1 × Moves (flow_of o) o bs g r

label-Stepped :
    (cap : ℕ) (bs : List ℕ) (g : Gen) (r : Result (List ℕ × Gen))
    → Ensures (λ r. (r.0 ≡ drop 1 bs) × IsSound cap r.1 × Marks bs g r) r
    → Ensures (Stepped cap Op.label bs g) r
label-Stepped cap bs g (ok r) (read, s, marks) = (read, s, (refl, marks))
label-Stepped cap bs g (err e) h = h

-- One round of the switch.
pub step-Stepped :
    (at : Places) (cap : ℕ) (o : Op) (bs : List ℕ) (g : Gen)
    → IsSound cap g
    → Ensures (Stepped cap o bs g) (step at cap o bs g)
unfolding step
step-Stepped at cap Op.end_of_code bs g s = (refl, s, (refl, [], sym (append-nil g.patches)))
step-Stepped at cap Op.imm64 bs g s = gen_imm64-Next cap bs g s
step-Stepped at cap (Op.arith o) bs g s = gen_arith-Next cap bs g s o
step-Stepped at cap (Op.compare o) bs g s = gen_compare-Next cap bs g s o
step-Stepped at cap Op.neg bs g s = gen_top-Next cap bs g s (λ r. a64_neg_x r r ∷ [])
step-Stepped at cap Op.dup bs g s = gen_dup-Next cap bs g s
step-Stepped at cap Op.swap bs g s = gen_swap-Next cap bs g s
step-Stepped at cap Op.drop bs g s = gen_drop-Next cap bs g s
step-Stepped at cap Op.label bs g s = label-Stepped cap bs g _ (gen_label-Marks cap bs g s)
step-Stepped at cap Op.jmp bs g s = gen_jmp-Jumps cap bs g s
step-Stepped at cap Op.jz bs g s = gen_jump_on-Jumps cap PatchKind.if_zero (a64_cbz 16 0) bs g s
step-Stepped at cap Op.jnz bs g s =
    gen_jump_on-Jumps cap PatchKind.if_not_zero (a64_cbnz 16 0) bs g s
step-Stepped at cap Op.st_local bs g s = gen_st_local-Next cap bs g s
step-Stepped at cap Op.ld_local bs g s = gen_ld_local-Next cap bs g s
step-Stepped at cap Op.slot_addr bs g s = gen_addr-Next at cap bs g s AddressBase.frame
step-Stepped at cap (Op.load w) bs g s = gen_load-Next at cap bs g s w
step-Stepped at cap (Op.store w) bs g s = gen_store-Next at cap bs g s w
step-Stepped at cap Op.enter bs g s = gen_enter-Next at cap bs g s
step-Stepped at cap Op.leave bs g s = gen_leave-Next at cap bs g s
step-Stepped at cap (Op.call argc) bs g s = gen_call-Next at cap bs g s argc
step-Stepped at cap Op.ld_slot bs g s = gen_ld-Next at cap bs g s AddressBase.frame
step-Stepped at cap Op.st_slot bs g s = gen_st-Next at cap bs g s AddressBase.frame
step-Stepped at cap Op.ld_abs bs g s = gen_ld-Next at cap bs g s AddressBase.absolute
step-Stepped at cap Op.st_abs bs g s = gen_st-Next at cap bs g s AddressBase.absolute
step-Stepped at cap Op.abs_addr bs g s = gen_addr-Next at cap bs g s AddressBase.absolute
step-Stepped at cap Op.i2f bs g s = gen_top-Next cap bs g s i2f_words
step-Stepped at cap Op.f2i bs g s = gen_top-Next cap bs g s f2i_words
step-Stepped at cap Op.fneg bs g s = gen_top-Next cap bs g s fneg_words
step-Stepped at cap (Op.float_arith o) bs g s = gen_float_arith-Next at cap bs g s o
step-Stepped at cap (Op.float_compare o) bs g s = gen_float_compare-Next at cap bs g s o
step-Stepped at cap Op.inarg bs g s = gen_inarg-Next at cap bs g s
step-Stepped at cap Op.ret bs g s = gen_ret-Next at cap bs g s
