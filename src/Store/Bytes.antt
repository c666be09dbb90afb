-- ===== src/Store/Bytes.antt =====
-- Bytes of a sector: zss_u32, zss_w32, zss_eq and the copy loops of src/zc_source_store.h.
-- A C char is taken as the byte that it is stored as.
pub mod Ranges
use zealos_aarch64_bringup.Base.{
  ℕ, zero, suc, ◌+◌, ◌*◌, ◌/◌, ◌%◌, ◌^◌, ◌≤◌, ◌<◌, ◌≡◌, refl, Bool, true, false, List, [], ◌∷◌, ◌⊎◌,
  inl, ◌≢◌, bit_or, arith, ◌==◌, if◌then◌else◌, length, bit_or-shifted,
}
use zealos_aarch64_bringup.Device.{Sector}

-- `for (i = 0; i < 512; i++) sector[i] = 0;`
abbrev pub zero_sector : Sector
zero_sector = λ i. 0

abbrev pub set_byte : Sector → ℕ → ℕ → Sector
set_byte s k v = λ i. if i == k then v else s i

-- `for (i = 0; i < n; i++) s[k + i] = bytes[i];`
unfoldable pub put_bytes : Sector → ℕ → List ℕ → Sector
put_bytes s k [] = s
put_bytes s k (c ∷ cs) = put_bytes (set_byte s k c) (k + 1) cs

-- `for (i = 0; i < n; i++) out[i] = s[k + i];`
unfoldable pub read_bytes : Sector → ℕ → ℕ → List ℕ
read_bytes s k zero = []
read_bytes s k (suc n) = s k ∷ read_bytes s (k + 1) n

-- zss_eq at offset 0, where `bytes` are the first n characters of the string.
unfoldable pub eq_bytes : Sector → ℕ → List ℕ → Bool
eq_bytes s k [] = true
eq_bytes s k (c ∷ cs) = let rest = eq_bytes s (k + 1) cs in if s k == c then rest else false

-- The scan for an empty header: n bytes from offset k on are zero.
unfoldable pub zeros : ℕ → ℕ → Sector → Bool
zeros zero k s = true
zeros (suc n) k s = let rest = zeros n (k + 1) s in if s k == 0 then rest else false

unfoldable pub is_empty : Sector → Bool
is_empty s = zeros 512 0 s

unfoldable pub u32_at : Sector → ℕ → ℕ
u32_at s k =
    bit_or (bit_or (bit_or (s k) (s (k + 1) * 2 ^ 8)) (s (k + 2) * 2 ^ 16)) (s (k + 3) * 2 ^ 24)

abbrev pub u8 : ℕ → ℕ
u8 v = v % 2 ^ 8

unfoldable pub w32 : Sector → ℕ → ℕ → Sector
w32 s k v =
    set_byte
      (set_byte (set_byte (set_byte s k (u8 v)) (k + 1) (u8 (v / 2 ^ 8))) (k + 2) (u8 (v / 2 ^ 16)))
      (k + 3) (u8 (v / 2 ^ 24))

-- Bytes outside the copied range stay.
pub put_bytes_outside :
    (s : Sector) (k : ℕ) (cs : List ℕ) (i : ℕ)
    → (i + 1 ≤ k) ⊎ (k + length cs ≤ i)
    → put_bytes s k cs i ≡ s i
unfolding put_bytes
put_bytes_outside s k [] i h = refl
put_bytes_outside s k (c ∷ cs) i h = ground (arith, put_bytes_outside (set_byte s k c) (k + 1) cs i)

-- What was copied in is read back.
pub read_bytes-put_bytes :
    (s : Sector) (k : ℕ) (cs : List ℕ) → read_bytes (put_bytes s k cs) k (length cs) ≡ cs
unfolding read_bytes put_bytes
read_bytes-put_bytes s k [] = refl
read_bytes-put_bytes s k (c ∷ cs) = ground (
  arith,
  read_bytes-put_bytes (set_byte s k c) (k + 1) cs,
  put_bytes_outside (set_byte s k c) (k + 1) cs k,
)

-- Four bytes as a number, where the lower three are bytes.
pub u32_at_sum :
    (s : Sector) (k : ℕ)
    → s k < 256
    → s (k + 1) < 256
    → s (k + 2) < 256
    → u32_at s k ≡ s k + s (k + 1) * 2 ^ 8 + s (k + 2) * 2 ^ 16 + s (k + 3) * 2 ^ 24
unfolding u32_at
u32_at_sum s k h0 h1 h2 = rw (bit_or-shifted 8 (s k) (s (k + 1)) h0) (
    rw (bit_or-shifted 16 (s k + s (k + 1) * 2 ^ 8) (s (k + 2)) (omega arith))
      (bit_or-shifted 24 _ (s (k + 3)) (omega arith)))

pub u32_at-w32 : (s : Sector) (k v : ℕ) → v < 2 ^ 32 → u32_at (w32 s k v) k ≡ v
unfolding w32
u32_at-w32 s k v h = ground (arith, u32_at_sum (w32 s k v) k)

pub w32_outside : (s : Sector) (k v i : ℕ) → (i + 1 ≤ k) ⊎ (k + 4 ≤ i) → w32 s k v i ≡ s i
unfolding w32
w32_outside s k v i h = ground arith

pub u32_at_congr :
    (s t : Sector) (k : ℕ)
    → s k ≡ t k
    → s (k + 1) ≡ t (k + 1)
    → s (k + 2) ≡ t (k + 2)
    → s (k + 3) ≡ t (k + 3)
    → u32_at s k ≡ u32_at t k
unfolding u32_at
u32_at_congr s t k h0 h1 h2 h3 = rw (h0, h1, h2, h3)

module _ (s : Sector) (k j : ℕ) where
  pub u32_at-put_bytes : (cs : List ℕ) → j + 4 ≤ k → u32_at (put_bytes s k cs) j ≡ u32_at s j
  u32_at-put_bytes cs h =
      u32_at_congr _ _ j (put_bytes_outside s k cs j (inl (omega arith)))
        (put_bytes_outside s k cs (j + 1) (inl (omega arith)))
        (put_bytes_outside s k cs (j + 2) (inl (omega arith)))
        (put_bytes_outside s k cs (j + 3) (inl (omega arith)))

  pub u32_at-w32_ne : (v : ℕ) → (j + 4 ≤ k) ⊎ (k + 4 ≤ j) → u32_at (w32 s k v) j ≡ u32_at s j
  u32_at-w32_ne v h =
      u32_at_congr _ _ j (w32_outside s k v j (omega arith))
        (w32_outside s k v (j + 1) (omega arith)) (w32_outside s k v (j + 2) (omega arith))
        (w32_outside s k v (j + 3) (omega arith))

pub eq_bytes_congr :
    (s t : Sector) (k : ℕ) (cs : List ℕ)
    → ((i : ℕ) → i < k + length cs → s i ≡ t i)
    → eq_bytes s k cs ≡ eq_bytes t k cs
unfolding eq_bytes
eq_bytes_congr s t k [] h = refl
eq_bytes_congr s t k (c ∷ cs) h =
    ground (arith, h k, eq_bytes_congr s t (k + 1) cs (λ i lt. h i (omega arith)))

-- A sector with a byte that is not zero is not empty.
pub zeros-false : (n k i : ℕ) (s : Sector) → i < n → s (k + i) ≢ 0 → zeros n k s ≡ false
unfolding zeros
zeros-false zero k i s lt ne = absurd (omega arith)
zeros-false (suc n) k zero s lt ne = let e : k + 0 ≡ k = omega arith in ground arith
zeros-false (suc n) k (suc i) s lt ne =
    let e : k + 1 + i ≡ k + suc i = omega arith in
    ground (arith, zeros-false n (k + 1) i s (omega arith) (rw e ne))

pub is_empty-false : (s : Sector) → s 0 ≢ 0 → is_empty s ≡ false
unfolding is_empty
is_empty-false s ne = zeros-false 512 0 0 s (omega arith) ne

zeros-zero_sector : (n k : ℕ) → zeros n k zero_sector ≡ true
unfolding zeros
zeros-zero_sector zero k = refl
zeros-zero_sector (suc n) k = zeros-zero_sector n (k + 1)

pub is_empty-zero_sector : is_empty zero_sector ≡ true
unfolding is_empty
is_empty-zero_sector = zeros-zero_sector 512 0
