-- ===== src/Fat/Tests.antt =====
-- Runs of src/pi4_fat32.h on a small volume.
mod Witnesses
use zealos_aarch64_bringup.Base.{
  ℕ, ◌+◌, ◌%◌, ◌≤◌, ◌<◌, ◌≡◌, refl, Option, none, some, List, [], ◌∷◌, arith, ltb, ◌==◌,
  if◌then◌else◌, length,
}
use zealos_aarch64_bringup.Device.{Sector}
use zealos_aarch64_bringup.Store.Bytes.{zero_sector, set_byte, put_bytes, read_bytes}
use zealos_aarch64_bringup.Fat.Volume.{
  Volume, le16, le32, signature, bpb_fields, is_foreign, is_unsound, is_miscounted, bpb,
  cluster_lba,
}
use zealos_aarch64_bringup.Base.{drop}
use zealos_aarch64_bringup.Fat.Directory.{
  live, trimmed, part_chars, short_name, is_malformed_entry, directory_entry, name_equal_loop,
  name_equal, find_file,
}
use zealos_aarch64_bringup.Fat.File.{
  FileEntry, Reader, read_pass, chain_bad, read_sectors, is_seen, next_cluster, is_bad_link, hops,
  read_file,
}

-- 70000 clusters of one sector behind two FATs of 600 sectors, from sector 2048 on.
abbrev pub boot : Sector
boot =
    put_bytes
      (put_bytes
        (put_bytes (put_bytes zero_sector 0 (0xeb ∷ 0 ∷ 0x90 ∷ [])) 11
          (0 ∷ 2 ∷ 1 ∷ 32 ∷ 0 ∷ 2 ∷ []))
        32 (0x40 ∷ 0x16 ∷ 1 ∷ 0 ∷ 0x58 ∷ 2 ∷ 0 ∷ 0 ∷ 0 ∷ 0 ∷ 0 ∷ 0 ∷ 2 ∷ []))
      510 (0x55 ∷ 0xaa ∷ [])

abbrev pub small_volume : Volume
small_volume = record {
  first = 2048;
  sectors = 71232;
  fat_first = 2080;
  fat_sectors = 600;
  data_first = 3280;
  sectors_per_cluster = 1;
  clusters = 70000;
  root_cluster = 2;
  active_fat = 0;
}

pub boot-accepted : bpb boot 2048 71232 100000 ≡ some small_volume
unfolding bpb is_foreign is_unsound is_miscounted bpb_fields le32 le16 signature put_bytes
boot-accepted = refl

-- Cluster 5 leads to cluster 6, the last one.
abbrev pub links : Sector
links = put_bytes zero_sector 20 (6 ∷ 0 ∷ 0 ∷ 0 ∷ 0xff ∷ 0xff ∷ 0xff ∷ 0x0f ∷ [])

abbrev pub card : Reader
card = λ n lba. if lba == 2080 then some links else some (λ i. (lba + i) % 256)

-- The same card, which fails in front of the volume.
abbrev pub worn_card : Reader
worn_card = λ n lba. if ltb lba 2048 then none else card n lba

abbrev pub file_of : ℕ → FileEntry
file_of bytes = record { name = b'A' ∷ []; attributes = 32; cluster = 5; bytes = bytes }

two_clusters :
    ((read_file small_volume (file_of 600) card 2048).0.result ≡ read_pass)
    × ((read_file small_volume (file_of 600) card 2048).0.reads ≡ 4)
    × (length (read_file small_volume (file_of 600) card 2048).1 ≡ 600)
unfolding read_file hops is_seen cluster_lba next_cluster le32 le16 is_bad_link read_sectors
    read_bytes put_bytes
two_clusters = (refl, refl, refl)

chain_too_short : (read_file small_volume (file_of 1200) card 2048).0.result ≡ chain_bad
unfolding read_file hops is_seen cluster_lba next_cluster le32 le16 is_bad_link read_sectors
    read_bytes put_bytes
chain_too_short = refl

pub card_agrees : (n lba : ℕ) → 2048 ≤ lba → lba < 2048 + 71232 → card n lba ≡ worn_card n lba
card_agrees n lba lo hi = ground arith

-- `KERNEL8.IMG` with a lower-case extension, in cluster 5.
abbrev pub kernel_slot : Sector
kernel_slot =
    put_bytes
      (put_bytes zero_sector 0
        (b'K' ∷ b'E' ∷ b'R' ∷ b'N' ∷ b'E' ∷ b'L' ∷ b'8' ∷ 32 ∷ b'I' ∷ b'M' ∷ b'G' ∷ 32 ∷ 16 ∷ []))
      26 (5 ∷ 0 ∷ 88 ∷ 2 ∷ [])

abbrev pub kernel_name : List ℕ
kernel_name = b'K' ∷ b'E' ∷ b'R' ∷ b'N' ∷ b'E' ∷ b'L' ∷ b'8' ∷ b'.' ∷ b'i' ∷ b'm' ∷ b'g' ∷ []

abbrev pub kernel_file : FileEntry
kernel_file = record { name = kernel_name; attributes = 32; cluster = 5; bytes = 600 }

pub kernel_slot-live : directory_entry kernel_slot small_volume ≡ live kernel_file
unfolding directory_entry is_malformed_entry short_name part_chars trimmed le32 le16 put_bytes
kernel_slot-live = refl

found_by_name : find_file (kernel_file ∷ []) (b'k' ∷ drop 1 kernel_name) ≡ some kernel_file
unfolding find_file name_equal name_equal_loop
found_by_name = refl
