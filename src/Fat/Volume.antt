-- ===== src/Fat/Volume.antt =====
-- The volume of src/pi4_fat32.h: pi4_fat32_le16 to pi4_fat32_cluster_lba.
pub mod Layout
use zealos_aarch64_bringup.Base.{
  ℕ, ◌+◌, ◌-◌, ◌*◌, ◌/◌, ◌%◌, ◌^◌, Bool, true, false, not, ◌&&◌, ◌||◌, Option, none, some, bit_and,
  bit_or, ltb, leb, ◌==◌, if◌then◌else◌,
}
use zealos_aarch64_bringup.Device.{Sector}

-- uint32_t arithmetic
abbrev pub wrap : ℕ → ℕ
wrap n = n % 2 ^ 32

-- `struct pi4_fat32_volume`
pub record Volume : Type 0 where
  pub first : ℕ
  pub sectors : ℕ
  pub fat_first : ℕ
  pub fat_sectors : ℕ
  pub data_first : ℕ
  pub sectors_per_cluster : ℕ
  pub clusters : ℕ
  pub root_cluster : ℕ
  pub active_fat : ℕ

unfoldable pub le16 : Sector → ℕ → ℕ
le16 p k = bit_or (p k) (p (k + 1) * 2 ^ 8)

unfoldable pub le32 : Sector → ℕ → ℕ
le32 p k = bit_or (le16 p k) (wrap (le16 p (k + 2) * 2 ^ 16))

unfoldable pub signature : Sector → Bool
signature p = p 510 == 0x55 && p 511 == 0xaa

-- The values that pi4_fat32_bpb reads first.
pub record Bpb : Type 0 where
  pub spc : ℕ
  pub reserved : ℕ
  pub fats : ℕ
  pub total : ℕ
  pub fat : ℕ
  pub flags : ℕ
  pub active : ℕ
  pub root : ℕ

unfoldable pub bpb_fields : Sector → Bpb
bpb_fields b = record {
  spc = b 13;
  reserved = le16 b 14;
  fats = b 16;
  total = le32 b 32;
  fat = le32 b 36;
  flags = le16 b 40;
  active = if bit_and (le16 b 40) 0x80 == 0 then 0 else bit_and (le16 b 40) 15;
  root = le32 b 44;
}

abbrev pub overhead : Bpb → ℕ
overhead f = f.reserved + f.fats * f.fat

-- The test of the first `if`, up to the fields that must be zero.
unfoldable pub is_foreign : Sector → Bool
is_foreign b =
    not (signature b)
    || not ((b 0 == 0xeb && b 2 == 0x90) || b 0 == 0xe9)
    || not (le16 b 11 == 512)
    || not (le16 b 17 == 0)
    || not (le16 b 19 == 0)
    || not (le16 b 22 == 0)
    || not (le16 b 42 == 0)

-- The rest of that test, on the values.
unfoldable pub is_unsound : Bpb → ℕ → ℕ → ℕ → Bool
is_unsound f first partition_sectors last_lba =
    f.spc == 0
    || ltb 128 f.spc
    || not (bit_and f.spc (f.spc - 1) == 0)
    || f.reserved == 0
    || not (f.fats == 1 || f.fats == 2)
    || f.fat == 0
    || f.total == 0
    || not (bit_and f.flags 0xff70 == 0)
    || leb f.fats f.active
    || leb f.total (overhead f)
    || ltb partition_sectors f.total
    || ltb (last_lba + 1) (first + f.total)

-- `clusters`, where the cluster size is not zero.
abbrev pub cluster_count : Bpb → ℕ
cluster_count f = (f.total - overhead f) / f.spc

-- The second `if`.
unfoldable pub is_miscounted : Bpb → Bool
is_miscounted f =
    ltb (cluster_count f) 65525
    || leb 0x0ffffff0 (cluster_count f + 1)
    || ltb (f.fat * 128) (cluster_count f + 2)
    || ltb f.root 2
    || ltb (cluster_count f + 1) f.root

abbrev pub volume_of : Bpb → ℕ → Volume
volume_of f first = record {
  first = first;
  sectors = f.total;
  fat_first = wrap (first + f.reserved + f.active * f.fat);
  fat_sectors = f.fat;
  data_first = wrap (first + overhead f);
  sectors_per_cluster = f.spc;
  clusters = cluster_count f;
  root_cluster = f.root;
  active_fat = f.active;
}

-- pi4_fat32_bpb
unfoldable pub bpb : Sector → ℕ → ℕ → ℕ → Option Volume
bpb b first partition_sectors last_lba =
    if is_foreign b || is_unsound (bpb_fields b) first partition_sectors last_lba
    then none
    else if is_miscounted (bpb_fields b)
    then none
    else some (volume_of (bpb_fields b) first)

-- pi4_fat32_cluster_lba
unfoldable pub cluster_lba : Volume → ℕ → Option ℕ
cluster_lba v cluster =
    let start = v.data_first + (cluster - 2) * v.sectors_per_cluster in
    if ltb cluster 2 || ltb (v.clusters + 1) cluster
    then none
    else if ltb (v.first + v.sectors) (start + v.sectors_per_cluster) || leb (2 ^ 32) start
    then none
    else some start
