-- ===== src/Jit/Encode/Decoding.antt =====
-- What the processor reads in the words of src/a64_emit.h.
use zealos_aarch64_bringup.Base.{
  ℕ, ◌+◌, ◌*◌, ◌/◌, ◌%◌, ◌^◌, ◌<◌, ◌≡◌, refl, bit_or, ap, ◌∙◌, arith, some,
}
use zealos_aarch64_bringup.Jit.Compile.{minus16}
use zealos_aarch64_bringup.Jit.Machine.{Alu, Insn, Class, class_of, read_class, decode}
use zealos_aarch64_bringup.Jit.Encode.{
  with_rd, with_rn, regs3, a64_add_x_reg, a64_and_x, a64_asrv_x, a64_cmp_x, a64_eor_x, a64_ldp_post,
  a64_lslv_x, a64_lsrv_x, a64_mov_x, a64_msub_x, a64_mul_x, a64_orr_x, a64_sdiv_x, a64_stp_pre,
  a64_sub_x_reg,
}
use zealos_aarch64_bringup.Jit.Encode.Fields.{
  bit_or_free, with_rm-free, with_rn-free, with_rd-free, regs3-sum,
}

pub decode-class :
    (w top mid : ℕ) (cls : Class)
    → w / 2 ^ 21 ≡ top
    → w / 2 ^ 10 % 64 ≡ mid
    → class_of top mid ≡ cls
    → decode w ≡ read_class cls w
unfolding decode
decode-class w top mid cls t e c = rw (t, e, c) refl

-- A word that is a sum of its opcode and three operands.
pub decode-three :
    (w c : ℕ) (o : Alu) (rd rn rm : ℕ)
    → w ≡ c + rm * 2 ^ 16 + rn * 2 ^ 5 + rd
    → rd < 32
    → rn < 32
    → rm < 32
    → c % 2 ^ 10 ≡ 0
    → c / 2 ^ 16 % 32 ≡ 0
    → class_of (c / 2 ^ 21) (c / 2 ^ 10 % 64) ≡ Class.three o
    → decode w ≡ some (Insn.alu o rd rn rm)
unfolding read_class
decode-three w c o rd rn rm sum d n m low high cls =
    let at_d : w % 32 ≡ rd = omega arith in
    let at_n : w / 2 ^ 5 % 32 ≡ rn = omega arith in
    let at_m : w / 2 ^ 16 % 32 ≡ rm = omega arith in
    decode-class w (c / 2 ^ 21) (c / 2 ^ 10 % 64) (Class.three o) (omega arith) (omega arith) cls
    ∙ rw (at_d, at_n, at_m) refl

decode-regs3 :
    (c : ℕ) (o : Alu) (rd rn rm : ℕ)
    → rd < 32
    → rn < 32
    → rm < 32
    → c % 2 ^ 10 ≡ 0
    → c / 2 ^ 16 % 32 ≡ 0
    → class_of (c / 2 ^ 21) (c / 2 ^ 10 % 64) ≡ Class.three o
    → decode (regs3 c rd rn rm) ≡ some (Insn.alu o rd rn rm)
decode-regs3 c o rd rn rm d n m low high cls =
    decode-three (regs3 c rd rn rm) c o rd rn rm (omega (arith, regs3-sum c rd rn rm low high)) d n
      m low high cls

module _ (rd rn rm : ℕ) (d : rd < 32) (n : rn < 32) (m : rm < 32) where
  pub decode-a64_add_x_reg : decode (a64_add_x_reg rd rn rm) ≡ some (Insn.alu Alu.add rd rn rm)
  unfolding a64_add_x_reg class_of
  decode-a64_add_x_reg = decode-regs3 0x8b000000 Alu.add rd rn rm d n m refl refl refl

  pub decode-a64_sub_x_reg : decode (a64_sub_x_reg rd rn rm) ≡ some (Insn.alu Alu.sub rd rn rm)
  unfolding a64_sub_x_reg class_of
  decode-a64_sub_x_reg = decode-regs3 0xcb000000 Alu.sub rd rn rm d n m refl refl refl

  pub decode-a64_mul_x : decode (a64_mul_x rd rn rm) ≡ some (Insn.alu Alu.mul rd rn rm)
  unfolding a64_mul_x class_of
  decode-a64_mul_x = decode-regs3 0x9b007c00 Alu.mul rd rn rm d n m refl refl refl

  pub decode-a64_sdiv_x : decode (a64_sdiv_x rd rn rm) ≡ some (Insn.alu Alu.sdiv rd rn rm)
  unfolding a64_sdiv_x class_of
  decode-a64_sdiv_x = decode-regs3 0x9ac00c00 Alu.sdiv rd rn rm d n m refl refl refl

  pub decode-a64_and_x : decode (a64_and_x rd rn rm) ≡ some (Insn.alu Alu.and rd rn rm)
  unfolding a64_and_x class_of
  decode-a64_and_x = decode-regs3 0x8a000000 Alu.and rd rn rm d n m refl refl refl

  pub decode-a64_orr_x : decode (a64_orr_x rd rn rm) ≡ some (Insn.alu Alu.orr rd rn rm)
  unfolding a64_orr_x class_of
  decode-a64_orr_x = decode-regs3 0xaa000000 Alu.orr rd rn rm d n m refl refl refl

  pub decode-a64_eor_x : decode (a64_eor_x rd rn rm) ≡ some (Insn.alu Alu.eor rd rn rm)
  unfolding a64_eor_x class_of
  decode-a64_eor_x = decode-regs3 0xca000000 Alu.eor rd rn rm d n m refl refl refl

  pub decode-a64_lslv_x : decode (a64_lslv_x rd rn rm) ≡ some (Insn.alu Alu.lslv rd rn rm)
  unfolding a64_lslv_x class_of
  decode-a64_lslv_x = decode-regs3 0x9ac02000 Alu.lslv rd rn rm d n m refl refl refl

  pub decode-a64_lsrv_x : decode (a64_lsrv_x rd rn rm) ≡ some (Insn.alu Alu.lsrv rd rn rm)
  unfolding a64_lsrv_x class_of
  decode-a64_lsrv_x = decode-regs3 0x9ac02400 Alu.lsrv rd rn rm d n m refl refl refl

  pub decode-a64_asrv_x : decode (a64_asrv_x rd rn rm) ≡ some (Insn.alu Alu.asrv rd rn rm)
  unfolding a64_asrv_x class_of
  decode-a64_asrv_x = decode-regs3 0x9ac02800 Alu.asrv rd rn rm d n m refl refl refl

  pub decode-a64_msub_x :
      (ra : ℕ) → ra < 32 → decode (a64_msub_x rd rn rm ra) ≡ some (Insn.msub rd rn rm ra)
  unfolding a64_msub_x class_of read_class
  decode-a64_msub_x ra a =
      let w = a64_msub_x rd rn rm ra in
      let sum : w ≡ 0x9b008000 + rm * 2 ^ 16 + ra * 2 ^ 10 + rn * 2 ^ 5 + rd =
        (ap (λ (t : ℕ). with_rd (with_rn (bit_or t (ra % 32 * 2 ^ 10)) rn) rd)
            (with_rm-free 0x9b008000 rm (omega arith))
          ∙ ap (λ (t : ℕ). with_rd (with_rn t rn) rd)
              (bit_or_free 10 5 (0x9b008000 + rm % 32 * 2 ^ 16) (ra % 32) (omega arith)
                (omega arith) (omega arith))
          ∙ ap (λ (t : ℕ). with_rd t rd)
              (with_rn-free (0x9b008000 + rm % 32 * 2 ^ 16 + ra % 32 * 2 ^ 10) rn (omega arith))
          ∙ with_rd-free (0x9b008000 + rm % 32 * 2 ^ 16 + ra % 32 * 2 ^ 10 + rn % 32 * 2 ^ 5) rd
              (omega arith)
          ∙ omega arith) in
      let at_d : w % 32 ≡ rd = omega arith in
      let at_n : w / 2 ^ 5 % 32 ≡ rn = omega arith in
      let at_m : w / 2 ^ 16 % 32 ≡ rm = omega arith in
      let at_a : w / 2 ^ 10 % 32 ≡ ra = omega arith in
      decode-class w 1240 (32 + ra) Class.four (omega arith) (omega arith) (ground arith)
      ∙ rw (at_d, at_n, at_m, at_a) refl

module _ (rd rm : ℕ) (d : rd < 32) (m : rm < 32) where
  pub decode-a64_mov_x : decode (a64_mov_x rd rm) ≡ some (Insn.alu Alu.orr rd 31 rm)
  unfolding a64_mov_x class_of
  decode-a64_mov_x =
      let sum : a64_mov_x rd rm ≡ 0xaa000000 + rm * 2 ^ 16 + 31 * 2 ^ 5 + rd =
        ap (λ (t : ℕ). with_rd t rd) (with_rm-free 0xaa0003e0 rm (omega arith))
        ∙ with_rd-free (0xaa0003e0 + rm % 32 * 2 ^ 16) rd (omega arith)
        ∙ omega arith in
      decode-three (a64_mov_x rd rm) 0xaa000000 Alu.orr rd 31 rm sum d (omega arith) m refl refl
        refl

  pub decode-a64_cmp_x : decode (a64_cmp_x rd rm) ≡ some (Insn.alu Alu.subs 31 rd rm)
  unfolding a64_cmp_x class_of
  decode-a64_cmp_x =
      let sum : a64_cmp_x rd rm ≡ 0xeb000000 + rm * 2 ^ 16 + rd * 2 ^ 5 + 31 =
        ap (λ (t : ℕ). with_rn t rd) (with_rm-free 0xeb00001f rm (omega arith))
        ∙ with_rn-free (0xeb00001f + rm % 32 * 2 ^ 16) rd (omega arith)
        ∙ omega arith in
      decode-three (a64_cmp_x rd rm) 0xeb000000 Alu.subs 31 rd rm sum (omega arith) d m refl refl
        refl

  pub decode-push : decode (a64_stp_pre rd rm 31 minus16) ≡ some (Insn.push rd rm)
  unfolding a64_stp_pre class_of read_class
  decode-push =
      let w = a64_stp_pre rd rm 31 minus16 in
      let sum : w ≡ 0xa9bf0000 + rm * 2 ^ 10 + 31 * 2 ^ 5 + rd =
        (ap (λ (t : ℕ). with_rd (with_rn t 31) rd)
            (bit_or_free 10 5 0xa9bf0000 (rm % 32) (omega arith) (omega arith) (omega arith))
          ∙ ap (λ (t : ℕ). with_rd t rd)
              (with_rn-free (0xa9bf0000 + rm % 32 * 2 ^ 10) 31 (omega arith))
          ∙ with_rd-free (0xa9bf0000 + rm % 32 * 2 ^ 10 + 31 * 2 ^ 5) rd (omega arith)
          ∙ omega arith) in
      let at_d : w % 32 ≡ rd = omega arith in
      let at_m : w / 2 ^ 10 % 32 ≡ rm = omega arith in
      let offset : w / 2 ^ 15 % 64 ≡ 62 = omega arith in
      let at_sp : w / 2 ^ 5 % 32 ≡ 31 = omega arith in
      decode-class w 1357 (w / 2 ^ 10 % 64) Class.stp (omega arith) refl refl
      ∙ rw (offset, at_sp, at_d, at_m) refl

  pub decode-pop : decode (a64_ldp_post rd rm 31 16) ≡ some (Insn.pop rd rm)
  unfolding a64_ldp_post class_of read_class
  decode-pop =
      let w = a64_ldp_post rd rm 31 16 in
      let sum : w ≡ 0xa8c10000 + rm * 2 ^ 10 + 31 * 2 ^ 5 + rd =
        (ap (λ (t : ℕ). with_rd (with_rn t 31) rd)
            (bit_or_free 10 5 0xa8c10000 (rm % 32) (omega arith) (omega arith) (omega arith))
          ∙ ap (λ (t : ℕ). with_rd t rd)
              (with_rn-free (0xa8c10000 + rm % 32 * 2 ^ 10) 31 (omega arith))
          ∙ with_rd-free (0xa8c10000 + rm % 32 * 2 ^ 10 + 31 * 2 ^ 5) rd (omega arith)
          ∙ omega arith) in
      let at_d : w % 32 ≡ rd = omega arith in
      let at_m : w / 2 ^ 10 % 32 ≡ rm = omega arith in
      let offset : w / 2 ^ 15 % 64 ≡ 2 = omega arith in
      let at_sp : w / 2 ^ 5 % 32 ≡ 31 = omega arith in
      decode-class w 1350 (w / 2 ^ 10 % 64) Class.ldp (omega arith) refl refl
      ∙ rw (offset, at_sp, at_d, at_m) refl
