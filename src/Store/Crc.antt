-- ===== src/Store/Crc.antt =====
-- zss_crc_step and zss_crc of src/zc_source_store.h: CRC-32, one byte at a time.
pub mod Laws
use zealos_aarch64_bringup.Base.{ℕ, zero, suc, ◌-◌, ◌/◌, ◌%◌, ◌^◌, List, [], ◌∷◌, bit_and, bit_xor}

-- One round of the inner loop: `(crc >> 1) ^ (0xedb88320u & (0u - (crc & 1u)))`.
abbrev pub crc_bit : ℕ → ℕ
crc_bit crc = bit_xor (crc / 2) (bit_and 0xedb88320 ((2 ^ 32 - bit_and crc 1) % 2 ^ 32))

unfoldable pub crc_rounds : ℕ → ℕ → ℕ
crc_rounds zero crc = crc
crc_rounds (suc n) crc = crc_rounds n (crc_bit crc)

unfoldable pub crc_step : ℕ → ℕ → ℕ
crc_step crc byte = crc_rounds 8 (bit_xor crc byte)

-- The running value over a block of bytes.
unfoldable pub crc_bytes : ℕ → List ℕ → ℕ
crc_bytes crc [] = crc
crc_bytes crc (c ∷ cs) = crc_bytes (crc_step crc c) cs

abbrev pub crc_init : ℕ
crc_init = 0xffffffff

abbrev pub crc_final : ℕ → ℕ
crc_final crc = bit_xor crc 0xffffffff

unfoldable pub crc : List ℕ → ℕ
crc bytes = crc_final (crc_bytes crc_init bytes)
