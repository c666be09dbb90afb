-- ===== src/Store/Tests/Witnesses.antt =====
-- The theorems on src/zc_source_store.h at small disks.
use zealos_aarch64_bringup.Base.{
  false, ℕ, ◌+◌, ◌≤◌, ◌≡◌, ◌≢◌, refl, ◌⊎◌, inl, true, some, none, List, [], ◌∷◌, arith,
}
use zealos_aarch64_bringup.Store.Crc.{crc}
use zealos_aarch64_bringup.Store.Name.{name_ok}
use zealos_aarch64_bringup.Store.Record.{max_file, blocks_of, decode_record, file_header}
use zealos_aarch64_bringup.Store.Record.Laws.{
  file_record, decode_record-file_header, decode_record-bounds,
}
use zealos_aarch64_bringup.Store.Record.Tombstone.{tombstone}
use zealos_aarch64_bringup.Store.Bank.{available, src_lba_base, src_shadow_lba}
use zealos_aarch64_bringup.Store.Bank.Superblock.{HasBank}
use zealos_aarch64_bringup.Store.Bank.Choice.{IsNewest, IsReselected, available-IsNewest}
use zealos_aarch64_bringup.Store.Find.{absent, found, tombstoned, find}
use zealos_aarch64_bringup.Store.Log.{view}
use zealos_aarch64_bringup.Store.Log.Scan.{Ends, whole}
use zealos_aarch64_bringup.Store.Log.Frame.{Beyond}
use zealos_aarch64_bringup.Store.Log.Lookup.{Holds, find-Ends, find-healthy}
use zealos_aarch64_bringup.Store.Read.{read, verify}
use zealos_aarch64_bringup.Store.Write.{ok, put, delete}
use zealos_aarch64_bringup.Store.Write.Atomic.{Appended}
use zealos_aarch64_bringup.Store.Write.Blocks.{Stored}
use zealos_aarch64_bringup.Store.Write.Safety.{put-Appended, put-Beyond, put-Stored, put-ok}
use zealos_aarch64_bringup.Store.Write.Remove.{delete-Appended, delete-ok}
use zealos_aarch64_bringup.Store.Session.Put.{put-Holds, find-put_self, find-put_other}
use zealos_aarch64_bringup.Store.Session.Remove.{delete-Holds, find-delete}
use zealos_aarch64_bringup.Store.Session.Content.{read-find-put}
use zealos_aarch64_bringup.Store.Stream.{upload}
use zealos_aarch64_bringup.Store.Stream.Upload.{upload-put}
use zealos_aarch64_bringup.Store.Tests.{
  name_a, name_b, bytes_a, empty_medium, one_file, record_a, empty, failing, single, empty-Holds,
  torn-Holds, one_file-Holds, disk-IsHealthy, name_a-ok, name_b-ok, name_a-found, empty-room,
  single-room, bytes_a-AreBytes, differ,
}

read-find-put_example :
    ((find (some name_a) (put name_a bytes_a empty).0).1.entry
      ≡ some (file_record 1 name_a 1 (crc bytes_a)).entry)
    × ((read
          (file_record 1 name_a 1 (crc bytes_a)).entry
          4
          (find (some name_a) (put name_a bytes_a empty).0).0).1
        ≡ some bytes_a)
    × ((verify
          (file_record 1 name_a 1 (crc bytes_a)).entry
          (find (some name_a) (put name_a bytes_a empty).0).0).1
        ≡ true)
read-find-put_example =
    read-find-put name_a bytes_a empty 1 [] name_a-ok (omega arith) (omega arith) bytes_a-AreBytes
      empty-Holds (disk-IsHealthy empty_medium) empty-room 4 (omega arith)

put-Appended_example :
    Appended
      (available failing).0
      1
      3
      []
      (file_record 1 name_a 1 (crc bytes_a))
      (put name_a bytes_a failing)
put-Appended_example =
    put-Appended name_a bytes_a failing 1 [] name_a-ok (omega arith) (omega arith) bytes_a-AreBytes
      torn-Holds

put-Beyond_example : Beyond 1 (available failing).0 (put name_a bytes_a failing).0
put-Beyond_example =
    put-Beyond name_a bytes_a failing 1 [] name_a-ok (omega arith) (omega arith) bytes_a-AreBytes
      torn-Holds

put-Stored_example : Stored (view (put name_a bytes_a empty).0) 2 1 bytes_a
put-Stored_example =
    put-Stored name_a bytes_a empty 1 [] name_a-ok (omega arith) (omega arith) bytes_a-AreBytes
      empty-Holds
      (inl (
        put-ok name_a bytes_a empty 1 [] name_a-ok (omega arith) (omega arith) bytes_a-AreBytes
          empty-Holds (disk-IsHealthy empty_medium) empty-room))

put-ok_example : (put name_a bytes_a empty).1 ≡ ok
put-ok_example =
    put-ok name_a bytes_a empty 1 [] name_a-ok (omega arith) (omega arith) bytes_a-AreBytes
      empty-Holds (disk-IsHealthy empty_medium) empty-room

put-Holds_example : Holds (put name_a bytes_a empty).0 3 (file_record 1 name_a 1 (crc bytes_a) ∷ [])
put-Holds_example =
    put-Holds name_a bytes_a empty 1 [] name_a-ok (omega arith) (omega arith) bytes_a-AreBytes
      empty-Holds (disk-IsHealthy empty_medium) empty-room

find-put_self_example : (find (some name_a) (put name_a bytes_a empty).0).1 ≡ record {
  status = found;
  entry = some (file_record 1 name_a 1 (crc bytes_a)).entry;
  tail = 3;
  records = 1;
}
find-put_self_example =
    find-put_self name_a bytes_a empty 1 [] name_a-ok (omega arith) (omega arith) bytes_a-AreBytes
      empty-Holds (disk-IsHealthy empty_medium) empty-room

find-put_other_example :
    ((find (some name_b) (put name_a bytes_a empty).0).1.status
      ≡ (find (some name_b) empty).1.status)
    × ((find (some name_b) (put name_a bytes_a empty).0).1.entry
        ≡ (find (some name_b) empty).1.entry)
find-put_other_example =
    find-put_other name_a bytes_a empty 1 [] name_a-ok (omega arith) (omega arith) bytes_a-AreBytes
      empty-Holds (disk-IsHealthy empty_medium) empty-room name_b name_b-ok differ

delete-Appended_example :
    Appended (available single).0 3 4 (record_a ∷ []) (tombstone 3 name_a) (delete name_a single)
delete-Appended_example =
    delete-Appended name_a single 3 (record_a ∷ []) name_a-ok one_file-Holds name_a-found

delete-ok_example : (delete name_a single).1 ≡ ok
delete-ok_example =
    delete-ok name_a single 3 (record_a ∷ []) name_a-ok one_file-Holds (disk-IsHealthy one_file)
      name_a-found single-room

delete-Holds_example : Holds (delete name_a single).0 4 (record_a ∷ tombstone 3 name_a ∷ [])
delete-Holds_example =
    delete-Holds name_a single 3 (record_a ∷ []) name_a-ok one_file-Holds (disk-IsHealthy one_file)
      name_a-found single-room

find-delete_example :
    (((find (some name_a) (delete name_a single).0).1.status ≡ tombstoned)
      × ((find (some name_a) (delete name_a single).0).1.records ≡ 2))
    × ((other : List ℕ)
        → name_ok other ≡ true
        → name_a ≢ other
        → ((find (some other) (delete name_a single).0).1.status
            ≡ (find (some other) single).1.status)
          × ((find (some other) (delete name_a single).0).1.entry
              ≡ (find (some other) single).1.entry))
find-delete_example =
    find-delete name_a single 3 (record_a ∷ []) name_a-ok one_file-Holds (disk-IsHealthy one_file)
      name_a-found single-room

find-Ends_example :
    Ends
      (available single).0
      (whole (some name_a) (record_a ∷ []) (absent, none) 3 0)
      (find (some name_a) single)
find-Ends_example =
    find-Ends (some name_a) single 3 (record_a ∷ []) (rw name_a-ok refl) one_file-Holds

find-healthy_example :
    (find (some name_a) single).1 ≡ whole (some name_a) (record_a ∷ []) (absent, none) 3 0
find-healthy_example =
    find-healthy (some name_a) single 3 (record_a ∷ []) (rw name_a-ok refl) one_file-Holds
      (disk-IsHealthy one_file)

decode_record-file_header_example :
    decode_record (file_header name_a 600 9 (blocks_of 600)) 5 64
    ≡ some (file_record 5 name_a 600 9)
decode_record-file_header_example =
    decode_record-file_header name_a 600 9 5 64 name_a-ok (omega arith) (omega arith) (omega arith)
      (omega arith) (omega arith)

decode_record-bounds_example :
    (1 + 1 + record_a.entry.blocks ≤ 65536)
    × (record_a.entry.header_sector ≡ 1)
    × (record_a.entry.length ≤ max_file)
    × (record_a.entry.blocks ≡ blocks_of record_a.entry.length)
decode_record-bounds_example =
    decode_record-bounds (file_header name_a 1 5 1) 1 65536 record_a
      (decode_record-file_header name_a 1 5 1 65536 name_a-ok (omega arith) (omega arith)
        (omega arith) (omega arith) (omega arith))
      (omega arith) (omega arith)

available-IsNewest_example :
    IsReselected single (available single).0
    × ((((available single).1 ≡ true) × IsNewest single.dev (available single).0)
        ⊎ (((available single).1 ≡ false)
            × ((g : ℕ) → ¬ HasBank single.dev src_lba_base g)
            × ((g : ℕ) → ¬ HasBank single.dev src_shadow_lba g)))
available-IsNewest_example = available-IsNewest single (disk-IsHealthy one_file)

upload-put_example :
    upload name_a 1 (crc bytes_a) ([] ∷ bytes_a ∷ []) empty ≡ put name_a bytes_a empty
upload-put_example = upload-put name_a bytes_a ([] ∷ bytes_a ∷ []) empty refl
