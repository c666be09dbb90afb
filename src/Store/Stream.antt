-- ===== src/Store/Stream.antt =====
-- Streamed uploads: zss_stream_begin, zss_stream_write and zss_stream_finish of
-- src/zc_source_store.h, and the calls of zrecv_serial in src/kernel_stub.c.
pub mod Blocks
pub mod Bytes
pub mod Chunks
pub mod Upload
use zealos_aarch64_bringup.Base.{
  ℕ, ◌+◌, ◌-◌, ◌/◌, ◌%◌, ◌^◌, Bool, true, false, not, ◌||◌, Option, none, some, List, [], ◌∷◌, ltb,
  ◌==◌, if◌then◌else◌, length,
}
use zealos_aarch64_bringup.Device.{Sector}
use zealos_aarch64_bringup.Store.Bytes.{zero_sector, set_byte}
use zealos_aarch64_bringup.Store.Crc.{crc_step, crc_init, crc_final}
use zealos_aarch64_bringup.Store.Name.{name_ok}
use zealos_aarch64_bringup.Store.Record.{max_file, u32, blocks_of, file_header}
use zealos_aarch64_bringup.Store.Bank.{Store, sector_write}
use zealos_aarch64_bringup.Store.Find.{Status, find}
use zealos_aarch64_bringup.Store.Write.{Code, scan_error, commit}

-- `struct zss_stream`; `name` is its first `name_len` characters.
pub record Stream : Type 0 where
  pub tail : ℕ
  pub length : ℕ
  pub written : ℕ
  pub expected_crc : ℕ
  pub crc : ℕ
  pub name : List ℕ
  pub sector : Sector

-- The result of zss_stream_begin: a code that is not 0, or the stream.
pub data Begun : Type 0 where
  refused : Code → Begun
  begun : Stream → Begun

-- zss_stream_begin
unfoldable pub stream_begin : List ℕ → ℕ → ℕ → Store → Store × Begun
stream_begin name length expected_crc st =
    if length == 0 || ltb max_file length || not (name_ok name)
    then (st, Begun.refused Code.invalid)
    else let (st1, scan) = find none st in
      elim (scan_error scan.status) [
        | some code ↦ (st1, Begun.refused code)
        | none ↦
            if ltb st1.sectors (u32 (scan.tail + 1 + blocks_of length))
            then (st1, Begun.refused Code.full)
            else (
              st1,
              Begun.begun (record {
                tail = scan.tail;
                length = length;
                written = 0;
                expected_crc = expected_crc;
                crc = crc_init;
                name = name;
                sector = zero_sector;
              }),
            )
      ]

-- A byte has gone to the sector: `sector[written & 511]`, `crc` and `written++`.
unfoldable pub taken : ℕ → Stream → Stream
taken c s = record s {
  sector = set_byte s.sector (s.written % 512) c;
  crc = crc_step s.crc c;
  written = u32 (s.written + 1);
}

-- One round of the loop of zss_stream_write.
unfoldable pub write_byte : ℕ → Stream → Store → (Stream × Store) × Bool
write_byte c s st =
    let s1 = taken c s in
    let (st1, fine) = sector_write st (u32 (s1.tail + s1.written / 512)) s1.sector in
    if s1.written % 512 == 0
    then ((if fine then record s1 { sector = zero_sector } else s1, st1), fine)
    else ((s1, st), true)

unfoldable pub write_bytes : List ℕ → Stream → Store → (Stream × Store) × Bool
write_bytes [] s st = ((s, st), true)
write_bytes (c ∷ cs) s st =
    let ((s1, st1), fine) = write_byte c s st in
    elim fine [ false ↦ ((s1, st1), false) | true ↦ write_bytes cs s1 st1 ]

-- zss_stream_write
unfoldable pub stream_write : Stream → List ℕ → Store → (Stream × Store) × Bool
stream_write s src st =
    if ltb (u32 (s.length + 2 ^ 32 - s.written)) (length src)
    then ((s, st), false)
    else write_bytes src s st

-- The sector that is not full yet.
unfoldable pub write_last : Stream → Store → Store × Bool
write_last s st =
    if s.written % 512 == 0
    then (st, true)
    else sector_write st (u32 (s.tail + 1 + s.written / 512)) s.sector

-- zss_stream_finish; `missing` is its -4.
unfoldable pub stream_finish : Stream → Store → Store × Code
stream_finish s st =
    if not (s.written == s.length) || not (crc_final s.crc == s.expected_crc)
    then (st, Code.missing)
    else let (st1, fine) = write_last s st in
      if not fine
      then (st1, Code.invalid)
      else commit st1 s.tail (u32 (s.tail + 1 + blocks_of s.length))
          (file_header s.name s.length s.expected_crc (blocks_of s.length))

-- `while (stream.written < length)` of zrecv_serial, over the chunks that zrecv_chunk gives; the
-- line is silent behind the last one.
unfoldable pub receive : List (List ℕ) → Stream → Store → (Stream × Store) × Bool
receive [] s st = ((s, st), not (ltb s.written s.length))
receive (bytes ∷ chunks) s st =
    let ((s1, st1), fine) = stream_write s bytes st in
    elim (ltb s.written s.length) [
      | false ↦ ((s, st), true)
      | true ↦ elim fine [ false ↦ ((s1, st1), false) | true ↦ receive chunks s1 st1 ]
    ]

-- The calls of zrecv_serial: the first result that is not 0, where -1 stands for a chunk that fails.
unfoldable pub upload : List ℕ → ℕ → ℕ → List (List ℕ) → Store → Store × Code
upload name length checksum chunks st =
    let (st1, r) = stream_begin name length checksum st in
    elim r [
      | Begun.refused code ↦ (st1, code)
      | Begun.begun s ↦
          let ((s2, st2), fine) = receive chunks s st1 in
          elim fine [ false ↦ (st2, Code.invalid) | true ↦ stream_finish s2 st2 ]
    ]
