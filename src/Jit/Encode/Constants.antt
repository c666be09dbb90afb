-- ===== src/Jit/Encode/Constants.antt =====
-- The words of src/a64_emit.h that put a constant into a register: a64_emit_imm64 and the CSETs.
use zealos_aarch64_bringup.Base.{
  ℕ, ◌+◌, ◌*◌, ◌/◌, ◌%◌, ◌^◌, ◌<◌, ◌≡◌, refl, bit_or, ap, ◌∙◌, arith, some, List, ◌∷◌, ◌++◌,
}
use zealos_aarch64_bringup.Jit.Ops.{Compare}
use zealos_aarch64_bringup.Jit.Stack.{cset}
use zealos_aarch64_bringup.Jit.Machine.{
  Alu, Insn, Class, Machine, class_of, decode, exec, put_reg, read_class, reg, run,
}
use zealos_aarch64_bringup.Jit.Machine.Run.{run-step, set_reg-set_reg}
use zealos_aarch64_bringup.Jit.Encode.{
  with_rd, a64_cset_eq, a64_cset_ge, a64_cset_gt, a64_cset_le, a64_cset_lt, a64_cset_ne,
  a64_emit_imm64, a64_movk_x, a64_movz_x, a64_ret,
}
use zealos_aarch64_bringup.Jit.Encode.Fields.{bit_or_free, with_rd-free}
use zealos_aarch64_bringup.Jit.Encode.Decoding.{decode-class, decode-three}

-- The condition in the word of a CSET, which is the opposite of the comparison.
abbrev pub opposite : Compare → ℕ
opposite Compare.eq = 1
opposite Compare.ne = 0
opposite Compare.lt = 10
opposite Compare.le = 12
opposite Compare.gt = 13
opposite Compare.ge = 11

decode_cset :
    (c cond rd : ℕ)
    → rd < 32
    → c % 2 ^ 10 ≡ 0
    → c / 2 ^ 16 % 32 ≡ 0
    → class_of (c / 2 ^ 21) (c / 2 ^ 10 % 64) ≡ Class.three (Alu.csinc cond)
    → decode (with_rd (c + 31 * 2 ^ 16 + 31 * 2 ^ 5) rd) ≡ some (Insn.alu (Alu.csinc cond) rd 31 31)
decode_cset c cond rd d low high cls =
    let w = with_rd (c + 31 * 2 ^ 16 + 31 * 2 ^ 5) rd in
    let sum : w ≡ c + 31 * 2 ^ 16 + 31 * 2 ^ 5 + rd =
      with_rd-free (c + 31 * 2 ^ 16 + 31 * 2 ^ 5) rd (omega arith) ∙ omega arith in
    decode-three w c (Alu.csinc cond) rd 31 31 sum d (omega arith) (omega arith) low high cls

pub decode-cset :
    (o : Compare) (rd : ℕ)
    → rd < 32
    → decode (cset o rd) ≡ some (Insn.alu (Alu.csinc (opposite o)) rd 31 31)
unfolding cset class_of a64_cset_eq a64_cset_ge a64_cset_gt a64_cset_le a64_cset_lt a64_cset_ne
decode-cset Compare.eq rd d = decode_cset 0x9a801400 1 rd d refl refl refl
decode-cset Compare.ne rd d = decode_cset 0x9a800400 0 rd d refl refl refl
decode-cset Compare.lt rd d = decode_cset 0x9a80a400 10 rd d refl refl refl
decode-cset Compare.le rd d = decode_cset 0x9a80c400 12 rd d refl refl refl
decode-cset Compare.gt rd d = decode_cset 0x9a80d400 13 rd d refl refl refl
decode-cset Compare.ge rd d = decode_cset 0x9a80b400 11 rd d refl refl refl

pub decode-a64_ret : decode a64_ret ≡ some Insn.ret
unfolding decode a64_ret class_of read_class
decode-a64_ret = refl

-- The sum that a wide move is, and its parts.
module _ (c hw imm rd : ℕ) (h : hw < 4) (fits : imm < 2 ^ 16) (d : rd < 32)
    (low : c % 2 ^ 23 ≡ 0) where
  wide : ℕ
  wide = with_rd (bit_or (bit_or c (hw * 2 ^ 21)) (imm * 2 ^ 5)) rd

  wide-sum : wide ≡ c + hw * 2 ^ 21 + imm * 2 ^ 5 + rd
  unfolding wide
  wide-sum =
      ap (λ (t : ℕ). with_rd (bit_or t (imm * 2 ^ 5)) rd)
        (bit_or_free 21 2 c hw (omega arith) (omega arith) (omega arith))
      ∙ ap (λ (t : ℕ). with_rd t rd)
          (bit_or_free 5 16 (c + hw * 2 ^ 21) imm (omega arith) (omega arith) (omega arith))
      ∙ with_rd-free (c + hw * 2 ^ 21 + imm * 2 ^ 5) rd (omega arith)
      ∙ omega arith

  decode-wide :
      (cls : Class)
      → ((mid : ℕ) → class_of (c / 2 ^ 21 + hw) mid ≡ cls)
      → decode wide ≡ read_class cls wide
  decode-wide cls known =
      decode-class wide (c / 2 ^ 21 + hw) (wide / 2 ^ 10 % 64) cls (omega (arith, wide-sum)) refl
        (known _)

  wide_rd : wide % 32 ≡ rd
  wide_rd = omega (arith, wide-sum)

  wide_imm : wide / 2 ^ 5 % 2 ^ 16 ≡ imm
  wide_imm = omega (arith, wide-sum)

module _ (rd imm : ℕ) (d : rd < 31) (fits : imm < 2 ^ 16) where
  decode-a64_movz_x : decode (a64_movz_x rd imm 0) ≡ some (Insn.movz rd 0 imm)
  unfolding a64_movz_x wide class_of read_class
  decode-a64_movz_x =
      decode-wide 0xd2800000 0 imm rd (omega arith) fits (omega arith) refl (Class.move 0)
        (λ mid. refl)
      ∙ rw
          (
            wide_rd 0xd2800000 0 imm rd (omega arith) fits (omega arith) refl,
            wide_imm 0xd2800000 0 imm rd (omega arith) fits (omega arith) refl,
          )
          refl

  decode-a64_movk_x :
      (hw : ℕ)
      → hw < 4
      → ((mid : ℕ) → class_of (1940 + hw) mid ≡ Class.keep hw)
      → decode (a64_movk_x rd imm (16 * hw)) ≡ some (Insn.movk rd hw imm)
  unfolding a64_movk_x wide read_class
  decode-a64_movk_x hw h known =
      let shift : 16 * hw / 2 ^ 4 % 4 ≡ hw = omega arith in
      ap (λ (t : ℕ). decode (with_rd (bit_or (bit_or 0xf2800000 (t * 2 ^ 21)) (imm * 2 ^ 5)) rd))
        shift
      ∙ decode-wide 0xf2800000 hw imm rd h fits (omega arith) refl (Class.keep hw) known
      ∙ rw
          (
            wide_rd 0xf2800000 hw imm rd h fits (omega arith) refl,
            wide_imm 0xf2800000 hw imm rd h fits (omega arith) refl,
          )
          refl

  abbrev kept : ℕ → ℕ → ℕ
  kept hw u = u / 2 ^ (16 * hw + 16) * 2 ^ (16 * hw + 16) + imm * 2 ^ (16 * hw) + u % 2 ^ (16 * hw)

  run-movk :
      (hw u : ℕ) (m : Machine) (ws : List ℕ)
      → hw < 4
      → ((mid : ℕ) → class_of (1940 + hw) mid ≡ Class.keep hw)
      → run (a64_movk_x rd imm (16 * hw) ∷ ws) (put_reg rd u m) ≡ run ws (put_reg rd (kept hw u) m)
  unfolding exec
  run-movk hw u m ws h known =
      let old : reg (put_reg rd u m) rd ≡ u = ground arith in
      run-step (a64_movk_x rd imm (16 * hw)) (Insn.movk rd hw imm) (put_reg rd u m)
        (put_reg rd (kept hw (reg (put_reg rd u m) rd)) (put_reg rd u m)) ws
        (decode-a64_movk_x hw h known) refl refl
      ∙ ap (λ (v : ℕ). run ws (put_reg rd (kept hw v) (put_reg rd u m))) old
      ∙ ap (λ (f : ℕ → ℕ). run ws (record m { regs = f })) (set_reg-set_reg rd u (kept hw u) m.regs)

  run-movz :
      (m : Machine) (ws : List ℕ) → run (a64_movz_x rd imm 0 ∷ ws) m ≡ run ws (put_reg rd imm m)
  unfolding exec
  run-movz m ws =
      run-step (a64_movz_x rd imm 0) (Insn.movz rd 0 imm) m (put_reg rd (imm * 2 ^ 0) m) ws
        decode-a64_movz_x refl refl
      ∙ ap (λ (v : ℕ). run ws (put_reg rd v m)) (omega arith)

-- Whatever the register held, the four words of a64_emit_imm64 leave the 64-bit constant in it and
-- change no other.
pub run-a64_emit_imm64 :
    (rd imm : ℕ) (m : Machine) (ws : List ℕ)
    → rd < 31
    → imm < 2 ^ 64
    → run (a64_emit_imm64 rd imm ++ ws) m ≡ run ws (put_reg rd imm m)
unfolding a64_emit_imm64 class_of
run-a64_emit_imm64 rd imm m ws d fits =
    run-movz rd (imm % 2 ^ 16) d (omega arith) m _
    ∙ run-movk rd (imm / 2 ^ 16 % 2 ^ 16) d (omega arith) 1 (imm % 2 ^ 16) m _ (omega arith)
        (λ mid. refl)
    ∙ run-movk rd (imm / 2 ^ 32 % 2 ^ 16) d (omega arith) 2 _ m _ (omega arith) (λ mid. refl)
    ∙ run-movk rd (imm / 2 ^ 48 % 2 ^ 16) d (omega arith) 3 _ m ws (omega arith) (λ mid. refl)
    ∙ ap (λ (v : ℕ). run ws (put_reg rd v m)) (omega arith)
