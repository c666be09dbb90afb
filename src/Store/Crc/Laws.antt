-- ===== src/Store/Crc/Laws.antt =====
-- The CRC of bytes fits 32 bits.
use zealos_aarch64_bringup.Base.{
  ℕ, zero, suc, ◌-◌, ◌%◌, ◌^◌, ◌/◌, ◌<◌, ◌≡◌, refl, List, [], ◌∷◌, ◌++◌, arith, bit_and, bit_xor,
  bit_xor-lt, bit_and-le,
}
use zealos_aarch64_bringup.Store.Crc.{crc_bit, crc_rounds, crc_step, crc_bytes, crc_init, crc}

abbrev pub AreBytes : List ℕ → Type 0
AreBytes [] = Unit
AreBytes (c ∷ cs) = (c < 256) × AreBytes cs

crc_rounds-lt : (n c : ℕ) → c < 2 ^ 32 → crc_rounds n c < 2 ^ 32
unfolding crc_rounds
crc_rounds-lt zero c h = h
crc_rounds-lt (suc n) c h = crc_rounds-lt n (crc_bit c) (
    bit_xor-lt 32 (c / 2) (bit_and 0xedb88320 ((2 ^ 32 - bit_and c 1) % 2 ^ 32)) (omega arith) (
      omega
        (arith, bit_and-le 0xedb88320 0xedb88320 ((2 ^ 32 - bit_and c 1) % 2 ^ 32) (omega arith))))

pub crc_bytes-lt :
    (c : ℕ) (bytes : List ℕ) → AreBytes bytes → c < 2 ^ 32 → crc_bytes c bytes < 2 ^ 32
unfolding crc_bytes crc_step
crc_bytes-lt c [] b h = h
crc_bytes-lt c (x ∷ xs) b h =
    crc_bytes-lt (crc_step c x) xs b.1
      (crc_rounds-lt 8 (bit_xor c x) (bit_xor-lt 32 c x h (omega (arith, b.0))))

pub crc-lt : (bytes : List ℕ) → AreBytes bytes → crc bytes < 2 ^ 32
unfolding crc
crc-lt bytes b =
    bit_xor-lt 32 (crc_bytes crc_init bytes) 0xffffffff
      (crc_bytes-lt crc_init bytes b (omega arith)) (omega arith)

pub crc_bytes-append :
    (c : ℕ) (xs ys : List ℕ) → crc_bytes c (xs ++ ys) ≡ crc_bytes (crc_bytes c xs) ys
unfolding crc_bytes
crc_bytes-append c [] ys = refl
crc_bytes-append c (x ∷ xs) ys = crc_bytes-append (crc_step c x) xs ys
