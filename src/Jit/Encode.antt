-- ===== src/Jit/Encode.antt =====
-- The instruction encoders of src/a64_emit.h. A word is a number below 2^32; a signed offset is
-- its 32-bit pattern.
pub mod Fields
pub mod Decoding
pub mod Constants
use zealos_aarch64_bringup.Base.{ℕ, ◌+◌, ◌*◌, ◌/◌, ◌%◌, ◌^◌, List, [], ◌∷◌, bit_or}

-- `w | (r & 31u)`, `w | ((r & 31u) << 5)` and `w | ((r & 31u) << 16)`
abbrev pub with_rd : ℕ → ℕ → ℕ
with_rd w r = bit_or w (r % 32)

abbrev pub with_rn : ℕ → ℕ → ℕ
with_rn w r = bit_or w (r % 32 * 2 ^ 5)

abbrev pub with_rm : ℕ → ℕ → ℕ
with_rm w r = bit_or w (r % 32 * 2 ^ 16)

-- The operands that most encoders put in.
abbrev pub regs3 : ℕ → ℕ → ℕ → ℕ → ℕ
regs3 w rd rn rm = with_rd (with_rn (with_rm w rm) rn) rd

abbrev pub regs2 : ℕ → ℕ → ℕ → ℕ
regs2 w rd rn = with_rd (with_rn w rn) rd

unfoldable pub a64_ret : ℕ
a64_ret = 0xd65f03c0

unfoldable pub a64_blr : ℕ → ℕ
a64_blr rn = with_rn 0xd63f0000 rn

-- The constants of these encoders are their first bits shifted and put together.
unfoldable pub a64_movz_x : ℕ → ℕ → ℕ → ℕ
a64_movz_x rd imm16 shift =
    with_rd (bit_or (bit_or 0xd2800000 (shift / 2 ^ 4 % 4 * 2 ^ 21)) (imm16 * 2 ^ 5)) rd

unfoldable pub a64_movk_x : ℕ → ℕ → ℕ → ℕ
a64_movk_x rd imm16 shift =
    with_rd (bit_or (bit_or 0xf2800000 (shift / 2 ^ 4 % 4 * 2 ^ 21)) (imm16 * 2 ^ 5)) rd

unfoldable pub a64_add_x_reg : ℕ → ℕ → ℕ → ℕ
a64_add_x_reg rd rn rm = regs3 0x8b000000 rd rn rm

unfoldable pub a64_sub_x_reg : ℕ → ℕ → ℕ → ℕ
a64_sub_x_reg rd rn rm = regs3 0xcb000000 rd rn rm

unfoldable pub a64_cmp_x : ℕ → ℕ → ℕ
a64_cmp_x rn rm = with_rn (with_rm 0xeb00001f rm) rn

unfoldable pub a64_mul_x : ℕ → ℕ → ℕ → ℕ
a64_mul_x rd rn rm = regs3 0x9b007c00 rd rn rm

unfoldable pub a64_sdiv_x : ℕ → ℕ → ℕ → ℕ
a64_sdiv_x rd rn rm = regs3 0x9ac00c00 rd rn rm

unfoldable pub a64_msub_x : ℕ → ℕ → ℕ → ℕ → ℕ
a64_msub_x rd rn rm ra = with_rd (with_rn (bit_or (with_rm 0x9b008000 rm) (ra % 32 * 2 ^ 10)) rn) rd

unfoldable pub a64_mov_x : ℕ → ℕ → ℕ
a64_mov_x rd rn = with_rd (with_rm 0xaa0003e0 rn) rd

unfoldable pub a64_neg_x : ℕ → ℕ → ℕ
a64_neg_x rd rm = a64_sub_x_reg rd 31 rm

unfoldable pub a64_add_x_imm : ℕ → ℕ → ℕ → ℕ
a64_add_x_imm rd rn imm12 = with_rd (with_rn (bit_or 0x91000000 (imm12 % 2 ^ 12 * 2 ^ 10)) rn) rd

unfoldable pub a64_cset_eq : ℕ → ℕ
a64_cset_eq rd = with_rd 0x9a9f17e0 rd

unfoldable pub a64_cset_ne : ℕ → ℕ
a64_cset_ne rd = with_rd 0x9a9f07e0 rd

unfoldable pub a64_cset_lt : ℕ → ℕ
a64_cset_lt rd = with_rd 0x9a9fa7e0 rd

unfoldable pub a64_cset_ge : ℕ → ℕ
a64_cset_ge rd = with_rd 0x9a9fb7e0 rd

unfoldable pub a64_cset_le : ℕ → ℕ
a64_cset_le rd = with_rd 0x9a9fc7e0 rd

unfoldable pub a64_cset_gt : ℕ → ℕ
a64_cset_gt rd = with_rd 0x9a9fd7e0 rd

unfoldable pub a64_and_x : ℕ → ℕ → ℕ → ℕ
a64_and_x rd rn rm = regs3 0x8a000000 rd rn rm

unfoldable pub a64_orr_x : ℕ → ℕ → ℕ → ℕ
a64_orr_x rd rn rm = regs3 0xaa000000 rd rn rm

unfoldable pub a64_eor_x : ℕ → ℕ → ℕ → ℕ
a64_eor_x rd rn rm = regs3 0xca000000 rd rn rm

unfoldable pub a64_lslv_x : ℕ → ℕ → ℕ → ℕ
a64_lslv_x rd rn rm = regs3 0x9ac02000 rd rn rm

unfoldable pub a64_lsrv_x : ℕ → ℕ → ℕ → ℕ
a64_lsrv_x rd rn rm = regs3 0x9ac02400 rd rn rm

unfoldable pub a64_b : ℕ → ℕ
a64_b word_off = bit_or 0x14000000 (word_off % 2 ^ 26)

unfoldable pub a64_cbz : ℕ → ℕ → ℕ
a64_cbz rt word_off = with_rd (bit_or 0xb4000000 (word_off % 2 ^ 19 * 2 ^ 5)) rt

unfoldable pub a64_cbnz : ℕ → ℕ → ℕ
a64_cbnz rt word_off = with_rd (bit_or 0xb5000000 (word_off % 2 ^ 19 * 2 ^ 5)) rt

unfoldable pub a64_stp_pre : ℕ → ℕ → ℕ → ℕ → ℕ
a64_stp_pre rt rt2 rn imm =
    with_rd
      (with_rn (bit_or (bit_or 0xa9800000 (imm / 2 ^ 3 % 2 ^ 7 * 2 ^ 15)) (rt2 % 32 * 2 ^ 10)) rn)
      rt

unfoldable pub a64_ldp_post : ℕ → ℕ → ℕ → ℕ → ℕ
a64_ldp_post rt rt2 rn imm =
    with_rd
      (with_rn (bit_or (bit_or 0xa8c00000 (imm / 2 ^ 3 % 2 ^ 7 * 2 ^ 15)) (rt2 % 32 * 2 ^ 10)) rn)
      rt

-- The four words of a 64-bit constant.
unfoldable pub a64_emit_imm64 : ℕ → ℕ → List ℕ
a64_emit_imm64 rd imm =
    a64_movz_x rd (imm % 2 ^ 16) 0
    ∷ (a64_movk_x rd (imm / 2 ^ 16 % 2 ^ 16) 16
        ∷ (a64_movk_x rd (imm / 2 ^ 32 % 2 ^ 16) 32
            ∷ (a64_movk_x rd (imm / 2 ^ 48 % 2 ^ 16) 48 ∷ [])))

unfoldable pub a64_ldr_x : ℕ → ℕ → ℕ
a64_ldr_x rt rn = regs2 0xf9400000 rt rn

unfoldable pub a64_str_x : ℕ → ℕ → ℕ
a64_str_x rt rn = regs2 0xf9000000 rt rn

unfoldable pub a64_ldrb : ℕ → ℕ → ℕ
a64_ldrb rt rn = regs2 0x39400000 rt rn

unfoldable pub a64_strb : ℕ → ℕ → ℕ
a64_strb rt rn = regs2 0x39000000 rt rn

unfoldable pub a64_ldr_w : ℕ → ℕ → ℕ
a64_ldr_w rt rn = regs2 0xb9400000 rt rn

unfoldable pub a64_str_w : ℕ → ℕ → ℕ
a64_str_w rt rn = regs2 0xb9000000 rt rn

unfoldable pub a64_add_x_lsl : ℕ → ℕ → ℕ → ℕ → ℕ
a64_add_x_lsl rd rn rm imm6 =
    with_rd (with_rn (bit_or (with_rm 0x8b000000 rm) (imm6 % 64 * 2 ^ 10)) rn) rd

unfoldable pub a64_asrv_x : ℕ → ℕ → ℕ → ℕ
a64_asrv_x rd rn rm = regs3 0x9ac02800 rd rn rm

unfoldable pub a64_fp_dataproc2 : ℕ → ℕ → ℕ → ℕ → ℕ
a64_fp_dataproc2 opcode rd rn rm =
    with_rd
      (with_rn (bit_or (bit_or (with_rm 0x1e600000 rm) (opcode % 16 * 2 ^ 12)) (2 * 2 ^ 10)) rn) rd

unfoldable pub a64_fadd_d : ℕ → ℕ → ℕ → ℕ
a64_fadd_d rd rn rm = a64_fp_dataproc2 2 rd rn rm

unfoldable pub a64_fsub_d : ℕ → ℕ → ℕ → ℕ
a64_fsub_d rd rn rm = a64_fp_dataproc2 3 rd rn rm

unfoldable pub a64_fmul_d : ℕ → ℕ → ℕ → ℕ
a64_fmul_d rd rn rm = a64_fp_dataproc2 0 rd rn rm

unfoldable pub a64_fdiv_d : ℕ → ℕ → ℕ → ℕ
a64_fdiv_d rd rn rm = a64_fp_dataproc2 1 rd rn rm

unfoldable pub a64_fneg_d : ℕ → ℕ → ℕ
a64_fneg_d rd rn = regs2 0x1e614000 rd rn

unfoldable pub a64_fcmp_d : ℕ → ℕ → ℕ
a64_fcmp_d rn rm = with_rn (bit_or (with_rm 0x1e600000 rm) (2 ^ 13)) rn

unfoldable pub a64_fmov_d_x : ℕ → ℕ → ℕ
a64_fmov_d_x dd xn = regs2 0x9e670000 dd xn

unfoldable pub a64_fmov_x_d : ℕ → ℕ → ℕ
a64_fmov_x_d xd dn = regs2 0x9e660000 xd dn

unfoldable pub a64_scvtf_d_x : ℕ → ℕ → ℕ
a64_scvtf_d_x dd xn = regs2 0x9e620000 dd xn

unfoldable pub a64_fcvtzs_x_d : ℕ → ℕ → ℕ
a64_fcvtzs_x_d xd dn = regs2 0x9e780000 xd dn
