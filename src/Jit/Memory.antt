-- ===== src/Jit/Memory.antt =====
-- The cases of hc_ir_compile, src/hc_ir.h, that load and store.
use zealos_aarch64_bringup.Base.{ℕ, ◌+◌, ◌-◌, true, false, ◌||◌, List, ltb, leb, if◌then◌else◌}
use zealos_aarch64_bringup.Jit.Result.{Error, Result, ok, err, ◌>>=◌}
use zealos_aarch64_bringup.Jit.Encode.{
  a64_ldr_w, a64_ldr_x, a64_ldrb, a64_str_w, a64_str_x, a64_strb,
}
use zealos_aarch64_bringup.Jit.Ops.{Width}
use zealos_aarch64_bringup.Jit.Compile.{
  max_depth, mem_words, Places, Gen, emit, emit_slot_addr, emit_abs_addr, emit_enter, emit_leave,
  reg_at,
}
use zealos_aarch64_bringup.Jit.Stack.{take_byte, done, top_reg, second_reg}

-- The instruction of a load and of a store.
unfoldable pub load_word : Width → ℕ → ℕ
load_word Width.bits64 r = a64_ldr_x r r
load_word Width.bits8 r = a64_ldrb r r
load_word Width.bits32 r = a64_ldr_w r r

unfoldable pub store_word : Width → ℕ → ℕ → ℕ
store_word Width.bits64 rval rptr = a64_str_x rval rptr
store_word Width.bits8 rval rptr = a64_strb rval rptr
store_word Width.bits32 rval rptr = a64_str_w rval rptr

-- HC_LOAD, HC_LOAD8 and HC_LOAD32
unfoldable pub gen_load : ℕ → Width → List ℕ → Gen → Result (List ℕ × Gen)
gen_load cap w bs g =
    if ltb g.sp 1 then err Error.depth else done bs g.sp (emit cap (load_word w (top_reg g)) g)

-- HC_STORE, HC_STORE8 and HC_STORE32
unfoldable pub gen_store : ℕ → Width → List ℕ → Gen → Result (List ℕ × Gen)
gen_store cap w bs g =
    if ltb g.sp 2
    then err Error.depth
    else done bs (g.sp - 2) (emit cap (store_word w (top_reg g) (second_reg g)) g)

-- HC_ENTER and HC_LEAVE
unfoldable pub gen_enter : Places → ℕ → List ℕ → Gen → Result (List ℕ × Gen)
gen_enter at cap bs g = do
  (nwords, rest) ← take_byte bs
  g' ← emit_enter at cap nwords g
  ok (rest, record g' { framed = true })

unfoldable pub gen_leave : Places → ℕ → List ℕ → Gen → Result (List ℕ × Gen)
gen_leave at cap bs g = do g' ← emit_leave at cap g; ok (bs, record g' { framed = false })

-- `&g_hc_mem[g_hc_fp + slot]` or `&g_hc_mem[slot]`
pub data AddressBase : Type 0 where
  frame absolute : AddressBase

unfoldable pub emit_addr : AddressBase → Places → ℕ → ℕ → ℕ → Gen → Result Gen
emit_addr AddressBase.frame at cap rd slot g = emit_slot_addr at cap rd slot g
emit_addr AddressBase.absolute at cap rd slot g = emit_abs_addr at cap rd slot g

-- HC_SLOT_ADDR and HC_ABS_ADDR
unfoldable pub gen_addr : AddressBase → Places → ℕ → List ℕ → Gen → Result (List ℕ × Gen)
gen_addr base at cap bs g = do
  (slot, rest) ← take_byte bs
  if leb mem_words slot || leb max_depth g.sp
      then err Error.local
      else done rest (g.sp + 1) (emit_addr base at cap (reg_at g.sp) slot g)

-- HC_LD_SLOT and HC_LD_ABS
unfoldable pub gen_ld : AddressBase → Places → ℕ → List ℕ → Gen → Result (List ℕ × Gen)
gen_ld base at cap bs g = do
  (slot, rest) ← take_byte bs
  if leb mem_words slot || leb max_depth g.sp
      then err Error.local
      else done rest (g.sp + 1) (do
        g' ← emit_addr base at cap (reg_at g.sp) slot g
        emit cap (a64_ldr_x (reg_at g.sp) (reg_at g.sp)) g')

-- HC_ST_SLOT and HC_ST_ABS
unfoldable pub gen_st : AddressBase → Places → ℕ → List ℕ → Gen → Result (List ℕ × Gen)
gen_st base at cap bs g = do
  (slot, rest) ← take_byte bs
  if leb mem_words slot || ltb g.sp 1
      then err Error.local
      else done rest (g.sp - 1)
          (do g' ← emit_addr base at cap 16 slot g; emit cap (a64_str_x (top_reg g) 16) g')

-- HC_INARG
unfoldable pub gen_inarg : Places → ℕ → List ℕ → Gen → Result (List ℕ × Gen)
gen_inarg at cap bs g = do
  (slot, rest₁) ← take_byte bs
  (regno, rest₂) ← take_byte rest₁
  if leb mem_words slot || ltb 6 regno
      then err Error.local
      else done rest₂ g.sp
          (do g' ← emit_slot_addr at cap 16 slot g; emit cap (a64_str_x regno 16) g')
