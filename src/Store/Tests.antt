-- ===== src/Store/Tests.antt =====
-- Runs of src/zc_source_store.h on small disks.
mod Witnesses
use zealos_aarch64_bringup.Base.{
  ◌==◌, if◌then◌else◌, ◌≤◌, ◌<◌, ℕ, zero, suc, ◌+◌, ◌≡◌, refl, inl, inr, true, false, Option, none,
  some, List, [], ◌∷◌, arith, length, list_eq,
}
use zealos_aarch64_bringup.Device
use zealos_aarch64_bringup.Device.{
  Sector, Medium, Completion, done, failed, torn, Device, write_at, IsHealthy, rejects, read_abs,
  write_abs, flush_abs, read_sector, write_sector,
}
use zealos_aarch64_bringup.Store.Bytes.{
  zero_sector, put_bytes, read_bytes, eq_bytes, zeros, is_empty, u32_at, w32, is_empty-zero_sector,
}
use zealos_aarch64_bringup.Store.Crc.{crc_rounds, crc_step, crc_bytes, crc}
use zealos_aarch64_bringup.Store.Crc.Laws.{AreBytes}
use zealos_aarch64_bringup.Base.{◌≢◌, ap, get_or}
use zealos_aarch64_bringup.Store.Name.{
  c_string, str_eq, check_chars, component_length, is_traversal, check_components, name_ok,
}
use zealos_aarch64_bringup.Store.Record.{
  Decoded, is_delete, is_file, is_malformed, decoded, decode_record, file_header, delete_header,
}
use zealos_aarch64_bringup.Store.Record.Laws.{
  file_record, decode_record-file_header, file_header-not_empty,
}
use zealos_aarch64_bringup.Store.Bank.{
  Store, bank_read, bank_write, sector_read, sector_write, terminate_log, flush, superblock,
  probe_bank, choose_bank, available, magic_v1,
}
use zealos_aarch64_bringup.Store.Bank.Select.{available-fits}
use zealos_aarch64_bringup.Store.Find.{absent, found, matches, update, find_loop, find}
use zealos_aarch64_bringup.Store.Write.{
  barrier, prepare, publish, commit, write_blocks, scan_error, append_file, put, append_tombstone,
  delete_error, delete, ok, invalid,
}
use zealos_aarch64_bringup.Store.Read.{read_blocks, read, verify}
use zealos_aarch64_bringup.Store.Log.{view, IsLog, latest}
use zealos_aarch64_bringup.Store.Log.Lookup.{Holds}

-- The file `A` with the one byte 7, and a disk whose bank A has a superblock of version 1.
abbrev pub name_a : List ℕ
name_a = b'A' ∷ []

abbrev pub name_b : List ℕ
name_b = b'B' ∷ []

abbrev pub bytes_a : List ℕ
bytes_a = 7 ∷ []

abbrev pub super_v1 : Sector
super_v1 = w32 (w32 (put_bytes zero_sector 0 magic_v1) 8 1) 12 65536

abbrev pub empty_medium : Medium
empty_medium = write_at (λ a. zero_sector) 131039 super_v1

abbrev pub one_file : Medium
one_file = write_at empty_medium 131040 (file_header name_a 1 5 1)

abbrev pub disk : Medium → (ℕ → Completion) → Device
disk m c = record {
  ready = true;
  mapped = true;
  pci = true;
  capacity = 131039;
  full_capacity = 262144;
  lba_base = 0;
  data_sectors = 8;
  flush_supported = true;
  medium = m;
  completion = c;
  requests = 0;
}

abbrev pub store_on : Medium → (ℕ → Completion) → Store
store_on m c = record {
  dev = disk m c;
  base = 131039;
  sectors = 65536;
  generation = 0;
  catalog_valid = true;
  catalog_revision = 0;
}

-- Every request succeeds; or request 6, the header write of zss_put on the empty disk, tears its
-- sector.
abbrev pub all_well : ℕ → Completion
all_well n = done

abbrev pub tearing : ℕ → Completion
tearing n = if n == 6 then torn (λ i. 255) else done

abbrev pub record_a : Decoded
record_a = file_record 1 name_a 1 5

pub disk-IsHealthy : (m : Medium) → IsHealthy (disk m all_well)
disk-IsHealthy m = record {
  is_ready = refl;
  is_pci = refl;
  has_capacity = ground arith;
  has_buffer = omega arith;
  all_done = λ n. refl;
}

pub empty-Holds : Holds (store_on empty_medium all_well) 1 []
unfolding available probe_bank choose_bank bank_read superblock u32_at w32 put_bytes eq_bytes
    read_abs rejects read_sector
empty-Holds = record { selected = refl; log = (refl, inr is_empty-zero_sector) }

pub torn-Holds : Holds (store_on empty_medium tearing) 1 []
unfolding available probe_bank choose_bank bank_read superblock u32_at w32 put_bytes eq_bytes
    read_abs rejects read_sector
torn-Holds = record { selected = refl; log = (refl, inr is_empty-zero_sector) }

pub one_file-Holds : Holds (store_on one_file all_well) 3 (record_a ∷ [])
unfolding available probe_bank choose_bank bank_read superblock u32_at w32 put_bytes eq_bytes
    read_abs rejects read_sector check_chars check_components component_length is_traversal name_ok
one_file-Holds = record {
  selected = refl;
  log = (
    omega arith,
    file_header-not_empty name_a 1 5 1,
    decode_record-file_header name_a 1 5 1 65536 refl (omega arith) (omega arith) (omega arith)
        (omega arith) (omega arith),
    (refl, inr is_empty-zero_sector),
  );
}

pub name_a-ok : name_ok name_a ≡ true
unfolding check_chars check_components component_length is_traversal name_ok
name_a-ok = refl

pub name_b-ok : name_ok name_b ≡ true
unfolding check_chars check_components component_length is_traversal name_ok
name_b-ok = refl

pub name_b-absent : (latest (some name_b) (record_a ∷ []) (absent, none)).0 ≡ absent
unfolding latest update matches str_eq
name_b-absent = refl

pub name_a-found : (latest (some name_a) (record_a ∷ []) (absent, none)).0 ≡ found
unfolding latest update matches str_eq
name_a-found = refl

-- The stores of the runs.
abbrev pub empty : Store
empty = store_on empty_medium all_well

abbrev pub failing : Store
failing = store_on empty_medium tearing

abbrev pub single : Store
single = store_on one_file all_well

pub empty-room : 3 ≤ (available empty).0.sectors
empty-room = omega (arith, available-fits empty empty-Holds.selected)

pub single-room : 3 < (available single).0.sectors
single-room = omega (arith, available-fits single one_file-Holds.selected)

put_torn : (put name_a bytes_a failing).1 ≡ invalid
unfolding put find name_ok check_chars check_components component_length is_traversal find_loop
    matches update sector_read is_empty zeros available probe_bank choose_bank bank_read superblock
    u32_at w32 put_bytes eq_bytes read_abs rejects read_sector scan_error append_file write_blocks
    sector_write bank_write write_abs write_sector commit prepare terminate_log barrier flush
    flush_abs publish crc_bytes crc_step crc_rounds file_header
put_torn = refl

pub bytes_a-AreBytes : AreBytes bytes_a
bytes_a-AreBytes = (omega arith, tt)

pub differ : name_a ≢ name_b
differ e = omega (arith, ap (λ (n : List ℕ). get_or n 0 0) e)
