-- ===== src/Store/Write.antt =====
-- Appending to the log: zss_put and zss_delete of src/zc_source_store.h, with the commit sequence
-- that they share with zss_stream_finish.
pub mod Atomic
pub mod Blocks
pub mod Healthy
pub mod Put
pub mod Remove
pub mod Safety
pub mod Commit
pub mod Confined
use zealos_aarch64_bringup.Base.{
  ℕ, zero, suc, ◌+◌, Bool, true, false, not, ◌||◌, Option, none, some, List, ltb, leb, ◌==◌,
  if◌then◌else◌, length, take, drop,
}
use zealos_aarch64_bringup.Device.{Sector}
use zealos_aarch64_bringup.Store.Bytes.{zero_sector, put_bytes}
use zealos_aarch64_bringup.Store.Crc.{crc_bytes, crc_init, crc_final}
use zealos_aarch64_bringup.Store.Name.{name_ok}
use zealos_aarch64_bringup.Store.Record.{max_file, u32, blocks_of, file_header, delete_header}
use zealos_aarch64_bringup.Store.Bank.{Store, sector_write, terminate_log, flush}
use zealos_aarch64_bringup.Store.Find.{Status, find}

-- 0, -1, -2, -3, -4 and -5.
pub data Code : Type 0 where
  ok invalid unavailable full missing unflushed : Code

-- `if (g_vb.flush_supported && !virtio_blk_flush_abs())` fails.
unfoldable pub barrier : Store → Store × Bool
barrier st = if st.dev.flush_supported then flush st else (st, true)

-- The end of the log behind the new record, and a flush, before the header is written.
unfoldable pub prepare : Store → ℕ → Store × Bool
prepare st next =
    let (st1, terminated) = terminate_log st next in
    if not terminated then (st1, false) else barrier st1

-- The header write that makes the record visible, and what follows it.
unfoldable pub publish : Store → ℕ → Sector → Store × Code
publish st tail header =
    let (st1, written) = sector_write st tail header in
    if not written
    then (st1, invalid)
    else let st2 : Store = record st1 {
      catalog_valid = false;
      catalog_revision = suc st1.catalog_revision;
    } in
      let (st3, flushed) = barrier st2 in (st3, if flushed then ok else unflushed)

unfoldable pub commit : Store → ℕ → ℕ → Sector → Store × Code
commit st tail next header =
    let (st1, prepared) = prepare st next in
    if not prepared then (st1, invalid) else publish st1 tail header

-- Block `b` of zss_put: the data and the zeros behind it.
abbrev pub data_sector : List ℕ → Sector
data_sector chunk = put_bytes zero_sector 0 chunk

-- The loop over the blocks `b`, with `rest` at `src + off`; the running CRC comes back.
unfoldable pub write_blocks : ℕ → ℕ → List ℕ → ℕ → ℕ → Store → Store × Option ℕ
write_blocks zero b rest tail crc st = (st, some crc)
write_blocks (suc n) b rest tail crc st =
    let (st', written) = sector_write st (u32 (tail + 1 + b)) (data_sector (take 512 rest)) in
    elim written [
      | false ↦ (st', none)
      | true ↦ write_blocks n (b + 1) (drop 512 rest) tail (crc_bytes crc (take 512 rest)) st'
    ]

-- `if (scan < 0) return scan;`, where `full` is the other reading of -3.
unfoldable pub scan_error : Status → Option Code
scan_error Status.found = none
scan_error Status.absent = none
scan_error Status.damaged = some invalid
scan_error Status.unavailable = some unavailable
scan_error Status.tombstoned = some full
scan_error Status.stuck = some invalid

-- zss_put once the tail is known.
unfoldable pub append_file : List ℕ → List ℕ → ℕ → Store → Store × Code
append_file name src tail st =
    let blocks = blocks_of (length src) in
    if ltb st.sectors (u32 (tail + 1 + blocks))
    then (st, full)
    else let (st1, summed) = write_blocks blocks 0 src tail crc_init st in
      elim summed [
        | none ↦ (st1, invalid)
        | some crc ↦
            commit st1 tail (u32 (tail + 1 + blocks))
              (file_header name (length src) (crc_final crc) blocks)
      ]

unfoldable pub put : List ℕ → List ℕ → Store → Store × Code
put name src st =
    if length src == 0 || ltb max_file (length src) || not (name_ok name)
    then (st, invalid)
    else let (st1, scan) = find none st in
      elim (scan_error scan.status) [
        | some code ↦ (st1, code)
        | none ↦ append_file name src scan.tail st1
      ]

-- zss_delete once the name is found.
unfoldable pub append_tombstone : List ℕ → ℕ → Store → Store × Code
append_tombstone name tail st =
    if leb st.sectors tail then (st, full) else commit st tail (u32 (tail + 1)) (delete_header name)

-- What zss_delete makes of the scan: `none` to go on.
unfoldable pub delete_error : Status → Option Code
delete_error Status.found = none
delete_error Status.absent = some missing
delete_error Status.tombstoned = some missing
delete_error Status.damaged = some invalid
delete_error Status.unavailable = some unavailable
delete_error Status.stuck = some invalid

unfoldable pub delete : List ℕ → Store → Store × Code
delete name st =
    if not (name_ok name)
    then (st, invalid)
    else let (st1, scan) = find (some name) st in
      elim (delete_error scan.status) [
        | some code ↦ (st1, code)
        | none ↦ append_tombstone name scan.tail st1
      ]
