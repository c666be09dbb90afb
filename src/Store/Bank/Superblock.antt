-- ===== src/Store/Bank/Superblock.antt =====
-- What the bytes of a superblock say, src/zc_source_store.h.
use zealos_aarch64_bringup.Base.{
  ℕ, ◌+◌, ◌≤◌, ◌<◌, ◌≡◌, refl, inl, inr, ◌⊎◌, true, false, ◌&&◌, none, some, arith, Bool,
  Bool-cases, List, [], ◌∷◌, ltb, ◌==◌, ◌∙◌, ap, sym, length,
}
use mathlib.Core.Option.{some-injective}
use zealos_aarch64_bringup.Device.{Sector, Device}
use zealos_aarch64_bringup.Store.Bytes.{read_bytes, eq_bytes, u32_at}
use zealos_aarch64_bringup.Store.Crc.{crc}
use zealos_aarch64_bringup.Store.Bank.{magic_v1, magic_v2, superblock}
use zealos_aarch64_bringup.Store.Bank.Select.{generation_of}

-- A superblock of version 1 is of generation 0; one of version 2 has a generation that is not 0, and
-- the checksum of the 20 bytes in front of it. Both give the size of the bank.
abbrev pub IsFirst : Sector → Type 0
IsFirst s =
    (read_bytes s 0 8 ≡ b'Z' ∷ b'C' ∷ b'S' ∷ b'R' ∷ b'C' ∷ b'0' ∷ b'0' ∷ b'1' ∷ [])
    × (u32_at s 8 ≡ 1)
    × (u32_at s 12 ≡ 65536)

abbrev pub IsSecond : Sector → ℕ → Type 0
IsSecond s g =
    (read_bytes s 0 8 ≡ b'Z' ∷ b'C' ∷ b'S' ∷ b'R' ∷ b'C' ∷ b'0' ∷ b'0' ∷ b'2' ∷ [])
    × (u32_at s 8 ≡ 2)
    × (u32_at s 12 ≡ 65536)
    × (u32_at s 16 ≡ g)
    × (0 < g)
    × (u32_at s 20 ≡ crc (read_bytes s 0 20))

-- The disk has room for the bank, and its superblock is of this generation.
abbrev pub HasBank : Device → ℕ → ℕ → Type 0
HasBank d base g =
    (base + 65536 ≤ d.full_capacity)
    × ((IsFirst (d.medium base) × (g ≡ 0)) ⊎ IsSecond (d.medium base) g)

read_bytes-eq_bytes :
    (s : Sector) (k : ℕ) (cs : List ℕ) → eq_bytes s k cs ≡ true → read_bytes s k (length cs) ≡ cs
unfolding eq_bytes read_bytes
read_bytes-eq_bytes s k [] h = refl
read_bytes-eq_bytes s k (c ∷ cs) h = ground (arith, read_bytes-eq_bytes s (k + 1) cs)

eq_bytes-read_bytes :
    (s : Sector) (k : ℕ) (cs : List ℕ) → read_bytes s k (length cs) ≡ cs → eq_bytes s k cs ≡ true
unfolding eq_bytes read_bytes
eq_bytes-read_bytes s k [] h = refl
eq_bytes-read_bytes s k (c ∷ cs) h = ground (arith, eq_bytes-read_bytes s (k + 1) cs)

superblock-says :
    (s : Sector) (g : ℕ) → superblock s 65536 ≡ some g → (IsFirst s × (g ≡ 0)) ⊎ IsSecond s g
unfolding superblock
superblock-says s g h = elim (Bool-cases (u32_at s 12 == 65536)) [
  | inr other ↦ absurd (ground (arith, other))
  | inl size ↦ elim (Bool-cases (eq_bytes s 0 magic_v1 && u32_at s 8 == 1)) [
    | inl old ↦
        let magic : eq_bytes s 0 magic_v1 ≡ true = ground arith in
        let zero : 0 ≡ g = some-injective 0 g (rw (size, old) at h) in
        inl ((read_bytes-eq_bytes s 0 magic_v1 magic, ground arith, ground arith), sym zero)
    | inr newer ↦
        let new : Bool =
          eq_bytes s 0 magic_v2 && u32_at s 8 == 2 && u32_at s 20 == crc (read_bytes s 0 20) in
        elim (Bool-cases new) [
          | inr neither ↦ let c : none ≡ some g = rw (size, newer, neither) at h in cc
          | inl second ↦
              let magic : eq_bytes s 0 magic_v2 ≡ true = ground arith in
              elim (Bool-cases (u32_at s 16 == 0)) [
                | inl none_yet ↦
                    let c : none ≡ some g = rw (size, newer, second, none_yet) at h in cc
                | inr some_yet ↦
                    let e : u32_at s 16 ≡ g =
                      some-injective (u32_at s 16) g (rw (size, newer, second, some_yet) at h) in
                    inr (
                      read_bytes-eq_bytes s 0 magic_v2 magic,
                      ground arith,
                      ground arith,
                      e,
                      ground arith,
                      ground arith,
                    )
              ]
        ]
  ]
]

says-superblock :
    (s : Sector) (g : ℕ) → (IsFirst s × (g ≡ 0)) ⊎ IsSecond s g → superblock s 65536 ≡ some g
unfolding superblock
says-superblock s g (inl ((magic, version, size), zero)) =
    ground (arith, eq_bytes-read_bytes s 0 magic_v1 magic)
says-superblock s g (inr (magic, version, size, gen, pos, checked)) =
    ground (arith, eq_bytes-read_bytes s 0 magic_v2 magic)

pub HasBank-generation_of :
    (d : Device) (base g : ℕ) → HasBank d base g → generation_of d base 65536 ≡ some g
unfolding generation_of
HasBank-generation_of d base g (room, says) =
    let same : d.medium (base + 0) ≡ d.medium base = ap d.medium (omega arith) in
    let fits : ltb d.full_capacity (base + 65536) ≡ false = ground arith in
    rw (fits, same) (says-superblock (d.medium base) g says)

pub generation_of-HasBank :
    (d : Device) (base g : ℕ) → generation_of d base 65536 ≡ some g → HasBank d base g
unfolding generation_of
generation_of-HasBank d base g h = elim (Bool-cases (ltb d.full_capacity (base + 65536))) [
  | inl small ↦ let c : none ≡ some g = rw small at h in cc
  | inr fits ↦
      let same : d.medium (base + 0) ≡ d.medium base = ap d.medium (omega arith) in
      let said : superblock (d.medium (base + 0)) 65536 ≡ some g = rw fits at h in
      (
        ground arith,
        superblock-says (d.medium base) g
            (ap (λ (s : Sector). superblock s 65536) (sym same) ∙ said),
      )
]
