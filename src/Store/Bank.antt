-- ===== src/Store/Bank.antt =====
-- The two banks of the source store and the choice between them: the `g_zss_` globals,
-- zss_bank_read to zss_available of src/zc_source_store.h, and src/disk_layout.h.
pub mod Laws
pub mod Again
pub mod Select
pub mod Superblock
pub mod Choice
use zealos_aarch64_bringup.Base.{
  ℕ, ◌+◌, Bool, true, false, not, ◌&&◌, ◌||◌, Option, none, some, List, [], ◌∷◌, ltb, leb, ◌==◌,
  if◌then◌else◌,
}
use zealos_aarch64_bringup.Device.{Sector, Device, read_abs, write_abs, flush_abs}
use zealos_aarch64_bringup.Store.Bytes.{zero_sector, read_bytes, eq_bytes, u32_at}
use zealos_aarch64_bringup.Store.Crc.{crc}

-- ZEAL_SRC_LBA_BASE, ZEAL_SRC_SECTS, ZEAL_SRC_SHADOW_LBA and ZEAL_SRC_SHADOW_SECTS
abbrev pub src_lba_base : ℕ
src_lba_base = 131039

abbrev pub src_sects : ℕ
src_sects = 65536

abbrev pub src_shadow_lba : ℕ
src_shadow_lba = 196575

abbrev pub src_shadow_sects : ℕ
src_shadow_sects = 65536

-- `g_zss_base`, `g_zss_sectors`, `g_zss_generation`, `g_zss_catalog_valid` and
-- `g_zss_catalog_revision`, over the device.
pub record Store : Type 0 where
  pub dev : Device
  pub base : ℕ
  pub sectors : ℕ
  pub generation : ℕ
  pub catalog_valid : Bool
  pub catalog_revision : ℕ

unfoldable pub bank_read : Store → ℕ → ℕ → Store × Option Sector
bank_read st base sector =
    let (dev, r) = read_abs st.dev (base + sector) in (record st { dev = dev }, r)

unfoldable pub bank_write : Store → ℕ → ℕ → Sector → Store × Bool
bank_write st base sector buf =
    let (dev, r) = write_abs st.dev (base + sector) buf in (record st { dev = dev }, r)

unfoldable pub sector_read : Store → ℕ → Store × Option Sector
sector_read st sector = if ltb sector st.sectors then bank_read st st.base sector else (st, none)

unfoldable pub sector_write : Store → ℕ → Sector → Store × Bool
sector_write st sector buf =
    if ltb sector st.sectors then bank_write st st.base sector buf else (st, false)

unfoldable pub terminate_log : Store → ℕ → Store × Bool
terminate_log st next = if leb st.sectors next then (st, true) else sector_write st next zero_sector

-- virtio_blk_flush_abs
unfoldable pub flush : Store → Store × Bool
flush st = let (dev, r) = flush_abs st.dev in (record st { dev = dev }, r)

abbrev pub magic_v1 : List ℕ
magic_v1 = b'Z' ∷ b'C' ∷ b'S' ∷ b'R' ∷ b'C' ∷ b'0' ∷ b'0' ∷ b'1' ∷ []

abbrev pub magic_v2 : List ℕ
magic_v2 = b'Z' ∷ b'C' ∷ b'S' ∷ b'R' ∷ b'C' ∷ b'0' ∷ b'0' ∷ b'2' ∷ []

-- The generation that a superblock stands for, if it is one of a bank of that size.
unfoldable pub superblock : Sector → ℕ → Option ℕ
superblock sector sectors =
    if not (u32_at sector 12 == sectors)
    then none
    else if eq_bytes sector 0 magic_v1 && u32_at sector 8 == 1
    then some 0
    else if eq_bytes sector 0 magic_v2
        && u32_at sector 8 == 2
        && u32_at sector 20 == crc (read_bytes sector 0 20)
    then (if u32_at sector 16 == 0 then none else some (u32_at sector 16))
    else none

-- zss_probe_bank: the generation, or `none` for its 0.
unfoldable pub probe_bank : Store → ℕ → ℕ → Store × Option ℕ
probe_bank st base sectors =
    if ltb st.dev.full_capacity (base + sectors)
    then (st, none)
    else let (st', r) = bank_read st base 0 in
      elim r [ none ↦ (st', none) | some sector ↦ (st', superblock sector sectors) ]

abbrev pub select_main : Store → ℕ → Store
select_main st gen = record st { base = src_lba_base; sectors = src_sects; generation = gen }

abbrev pub select_shadow : Store → ℕ → Store
select_shadow st gen = record st {
  base = src_shadow_lba;
  sectors = src_shadow_sects;
  generation = gen;
}

-- The choice of zss_available from what the probes of bank A and bank B found.
unfoldable pub choose_bank : Store → Option ℕ → Option ℕ → Store × Bool
choose_bank st none none = (st, false)
choose_bank st none (some b) = (select_shadow st b, true)
choose_bank st (some a) none = (select_main st a, true)
choose_bank st (some a) (some b) = (if ltb a b then select_shadow st b else select_main st a, true)

unfoldable pub available : Store → Store × Bool
available st =
    if not st.dev.ready || not st.dev.pci
    then (st, false)
    else let (st1, a) = probe_bank st src_lba_base src_sects in
      let (st2, b) = probe_bank st1 src_shadow_lba src_shadow_sects in choose_bank st2 a b
