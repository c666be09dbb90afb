-- ===== src/Fat/Tests/Witnesses.antt =====
-- The theorems on src/pi4_fat32.h at the small volume.
use zealos_aarch64_bringup.Base.{◌+◌, ◌≤◌, ◌≡◌, arith, length}
use zealos_aarch64_bringup.Base.{◌≢◌, ◌⊎◌}
use zealos_aarch64_bringup.Fat.Directory.Laws.{IsPrintable, directory_entry-live}
use zealos_aarch64_bringup.Fat.Volume.Layout.{IsVolume, LaidOutBy, bpb-IsVolume}
use zealos_aarch64_bringup.Fat.File.{read_pass, read_file}
use zealos_aarch64_bringup.Fat.File.Bounds.{read_file-bounds}
use zealos_aarch64_bringup.Fat.File.Confined.{read_file-confined}
use zealos_aarch64_bringup.Fat.Tests.{
  kernel_slot, kernel_name, kernel_file, kernel_slot-live, boot, small_volume, boot-accepted, card,
  worn_card, file_of, card_agrees,
}

bpb-IsVolume_example :
    IsVolume 100000 small_volume
    × (small_volume.first ≡ 2048)
    × (small_volume.sectors ≤ 71232)
    × LaidOutBy boot 2048 small_volume
bpb-IsVolume_example = bpb-IsVolume boot 2048 71232 100000 small_volume (omega arith) boot-accepted

small_volume-IsVolume : IsVolume 100000 small_volume
small_volume-IsVolume =
    (bpb-IsVolume boot 2048 71232 100000 small_volume (omega arith) boot-accepted).0

read_file-bounds_example :
    (length (read_file small_volume (file_of 600) card 2048).1
      ≡ (read_file small_volume (file_of 600) card 2048).0.bytes)
    × (length (read_file small_volume (file_of 600) card 2048).1 ≤ 600)
    × (length (read_file small_volume (file_of 600) card 2048).1 ≤ 2048)
    × ((read_file small_volume (file_of 600) card 2048).0.result ≡ read_pass
        → length (read_file small_volume (file_of 600) card 2048).1 ≡ 600)
    × ((read_file small_volume (file_of 600) card 2048).0.clusters ≤ 4)
    × ((read_file small_volume (file_of 600) card 2048).0.reads ≤ 516)
read_file-bounds_example = read_file-bounds small_volume (file_of 600) card (omega arith) 2048

read_file-confined_example :
    read_file small_volume (file_of 600) card 2048
    ≡ read_file small_volume (file_of 600) worn_card 2048
read_file-confined_example =
    read_file-confined 100000 small_volume (omega arith) small_volume-IsVolume (file_of 600) card
      worn_card card_agrees 2048

directory_entry-live_example :
    IsPrintable kernel_name
    × (length kernel_name ≤ 12)
    × (kernel_slot 0 ≢ 0xe5)
    × (((kernel_file.bytes ≡ 0) × (kernel_file.cluster ≡ 0))
        ⊎ ((2 ≤ kernel_file.cluster) × (kernel_file.cluster ≤ small_volume.clusters + 1)))
directory_entry-live_example =
    directory_entry-live kernel_slot small_volume kernel_file kernel_slot-live
