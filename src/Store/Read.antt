-- ===== src/Store/Read.antt =====
-- Reading a file back: zss_read and zss_verify of src/zc_source_store.h.
use zealos_aarch64_bringup.Base.{
  ℕ, zero, suc, ◌+◌, ◌-◌, Bool, false, Option, none, some, List, [], ◌++◌, ltb, leb, ◌==◌,
  if◌then◌else◌,
}
use zealos_aarch64_bringup.Store.Bytes.{read_bytes}
use zealos_aarch64_bringup.Store.Crc.{crc_bytes, crc_init, crc_final}
use zealos_aarch64_bringup.Store.Record.{Entry, u32}
use zealos_aarch64_bringup.Store.Bank.{Store, sector_read}

-- `if (chunk > 512) chunk = 512;`
abbrev pub chunk_of : ℕ → ℕ
chunk_of left = if ltb 512 left then 512 else left

-- The loop over the blocks `b`, with `left` bytes to go: what was copied to `dst`, and the CRC.
unfoldable pub read_blocks : ℕ → ℕ → ℕ → ℕ → ℕ → List ℕ → Store → Store × Option (List ℕ × ℕ)
read_blocks zero b header left crc dst st = (st, some (dst, crc))
read_blocks (suc n) b header left crc dst st =
    let (st', r) = sector_read st (u32 (header + 1 + b)) in
    elim r [
      | none ↦ (st', none)
      | some sector ↦
          let bytes = read_bytes sector 0 (chunk_of left) in
          read_blocks n (b + 1) header (left - chunk_of left) (crc_bytes crc bytes) (dst ++ bytes)
            st'
    ]

-- zss_read with a buffer `dst[cap]`: what `dst` holds before the terminator, or `none` for -1. The
-- bytes that a failing read leaves in `dst` are not kept.
unfoldable pub read : Entry → ℕ → Store → Store × Option (List ℕ)
read entry cap st =
    if leb cap entry.length
    then (st, none)
    else let (st', r) =
        read_blocks entry.blocks 0 entry.header_sector entry.length crc_init [] st in
      elim r [
        | none ↦ (st', none)
        | some (dst, crc) ↦ (st', if crc_final crc == entry.checksum then some dst else none)
      ]

-- zss_verify: the same loop with nowhere to copy to.
unfoldable pub verify : Entry → Store → Store × Bool
verify entry st =
    let (st', r) = read_blocks entry.blocks 0 entry.header_sector entry.length crc_init [] st in
    elim r [ none ↦ (st', false) | some (dst, crc) ↦ (st', crc_final crc == entry.checksum) ]
