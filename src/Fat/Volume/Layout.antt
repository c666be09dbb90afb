-- ===== src/Fat/Volume/Layout.antt =====
-- What pi4_fat32_bpb of src/pi4_fat32.h guarantees of a volume, and where its clusters lie.
use zealos_aarch64_bringup.Base.{
  ℕ, ◌+◌, ◌-◌, ◌*◌, ◌^◌, ◌≤◌, ◌<◌, ◌≡◌, refl, ◌⊎◌, inl, inr, false, ◌||◌, some, none, arith,
  or_false, Bool-cases, ltb→ge, leb→gt, leb, not, bit_and, ◌==◌, subst, ltb, if◌then◌else◌,
}
use mathlib.Core.Option.{some-injective}
use native.Mathlib.Nat.{mod-add-div', mod-lt}
use zealos_aarch64_bringup.Device.{Sector}
use zealos_aarch64_bringup.Fat.Volume.{
  Volume, Bpb, bpb_fields, overhead, cluster_count, is_foreign, is_unsound, is_miscounted,
  volume_of, bpb, cluster_lba, wrap, le16, le32,
}

-- A volume whose FAT and clusters lie on the disk one behind the other.
pub record IsVolume (last_lba : ℕ) (v : Volume) : Type 0 where
  pub on_disk : v.first + v.sectors ≤ last_lba + 1
  pub fat_behind : v.first < v.fat_first
  pub fat_ahead : v.fat_first + v.fat_sectors ≤ v.data_first
  pub data_inside : v.data_first + v.clusters * v.sectors_per_cluster ≤ v.first + v.sectors
  pub cluster_positive : 0 < v.sectors_per_cluster
  pub cluster_small : v.sectors_per_cluster ≤ 128
  pub fat_covers : v.clusters + 2 ≤ v.fat_sectors * 128
  pub root_low : 2 ≤ v.root_cluster
  pub root_high : v.root_cluster ≤ v.clusters + 1

-- What the first test leaves.
record IsSound (f : Bpb) (first partition_sectors last_lba : ℕ) : Type 0 where
  spc_positive : 0 < f.spc
  spc_small : f.spc ≤ 128
  reserved_positive : 0 < f.reserved
  one_or_two : (f.fats ≡ 1) ⊎ (f.fats ≡ 2)
  active_low : f.active < f.fats
  overhead_low : overhead f < f.total
  total_low : f.total ≤ partition_sectors
  end_low : first + f.total ≤ last_lba + 1

zero_test : (n : ℕ) → (n == 0) ≡ false → 0 < n
zero_test n h = ground arith

two_test : (n : ℕ) → not (n == 1 || n == 2) ≡ false → (n ≡ 1) ⊎ (n ≡ 2)
two_test n h = ground arith

is_unsound-false :
    (f : Bpb) (first partition_sectors last_lba : ℕ)
    → is_unsound f first partition_sectors last_lba ≡ false
    → IsSound f first partition_sectors last_lba
unfolding is_unsound
is_unsound-false f first partition_sectors last_lba h =
    let (h, last) = or_false {b = ltb (last_lba + 1) (first + f.total)} h in
    let (h, part) = or_false {b = ltb partition_sectors f.total} h in
    let (h, over) = or_false {b = leb f.total (overhead f)} h in
    let (h, act) = or_false {b = leb f.fats f.active} h in
    let (h, flags) = or_false {b = not (bit_and f.flags 0xff70 == 0)} h in
    let (h, tot) = or_false {b = f.total == 0} h in
    let (h, fat) = or_false {b = f.fat == 0} h in
    let (h, fats) = or_false {b = not (f.fats == 1 || f.fats == 2)} h in
    let (h, res) = or_false {b = f.reserved == 0} h in
    let (h, power) = or_false {b = not (bit_and f.spc (f.spc - 1) == 0)} h in
    let (spc0, spc1) = or_false {b = ltb 128 f.spc} h in
    record {
      spc_positive = zero_test f.spc spc0;
      spc_small = ltb→ge _ _ spc1;
      reserved_positive = zero_test f.reserved res;
      one_or_two = two_test f.fats fats;
      active_low = leb→gt _ _ act;
      overhead_low = leb→gt _ _ over;
      total_low = ltb→ge _ _ part;
      end_low = ltb→ge _ _ last;
    }

-- What the second test leaves.
record IsCounted (f : Bpb) : Type 0 where
  many : 65525 ≤ cluster_count f
  few : cluster_count f + 1 < 0x0ffffff0
  covered : cluster_count f + 2 ≤ f.fat * 128
  root_low : 2 ≤ f.root
  root_high : f.root ≤ cluster_count f + 1

is_miscounted-false : (f : Bpb) → is_miscounted f ≡ false → IsCounted f
unfolding is_miscounted
is_miscounted-false f h =
    let (h, high) = or_false {b = ltb (cluster_count f + 1) f.root} h in
    let (h, low) = or_false {b = ltb f.root 2} h in
    let (h, covered) = or_false {b = ltb (f.fat * 128) (cluster_count f + 2)} h in
    let (many, few) = or_false {b = leb 0x0ffffff0 (cluster_count f + 1)} h in
    record {
      many = ltb→ge _ _ many;
      few = leb→gt _ _ few;
      covered = ltb→ge _ _ covered;
      root_low = ltb→ge _ _ low;
      root_high = ltb→ge _ _ high;
    }

at_most_one : (n : ℕ) → n ≤ 1 → (n ≡ 0) ⊎ (n ≡ 1)
at_most_one n h = omega arith

-- One FAT of `fat` sectors from the active one on does not reach behind the last.
active_inside :
    (fats fat active : ℕ)
    → (fats ≡ 1) ⊎ (fats ≡ 2)
    → active < fats
    → active * fat + fat ≤ fats * fat
active_inside fats fat active (inl e) lt =
    let none_before : active ≡ 0 = omega arith in rw (e, none_before) (omega arith)
active_inside fats fat active (inr e) lt = elim (at_most_one active (omega arith)) [
  | inl z ↦ rw (e, z) (omega arith)
  | inr o ↦ rw (e, o) (omega arith)
]

volume_of-IsVolume :
    (f : Bpb) (first partition_sectors last_lba : ℕ)
    → last_lba < 2 ^ 32
    → IsSound f first partition_sectors last_lba
    → IsCounted f
    → IsVolume last_lba (volume_of f first)
volume_of-IsVolume f first partition_sectors last_lba small s c =
    let a = active_inside f.fats f.fat f.active s.one_or_two s.active_low in
    let end = s.end_low in
    let over = s.overhead_low in
    let res = s.reserved_positive in
    let fat_unwrapped : wrap (first + f.reserved + f.active * f.fat)
        ≡ first + f.reserved + f.active * f.fat =
      omega arith in
    let data_unwrapped : wrap (first + overhead f) ≡ first + overhead f = omega arith in
    let filled : cluster_count f * f.spc ≤ f.total - overhead f =
      omega (arith, mod-add-div' (f.total - overhead f) f.spc) in
    record {
      on_disk = s.end_low;
      fat_behind = omega arith;
      fat_ahead = omega arith;
      data_inside = omega arith;
      cluster_positive = s.spc_positive;
      cluster_small = s.spc_small;
      fat_covers = c.covered;
      root_low = c.root_low;
      root_high = c.root_high;
    }

-- Where the fields of the boot sector `b` put the parts of a volume that begins at `first`: its
-- length, its FATs behind the reserved sectors, the active one among them, the clusters behind the
-- last FAT, and as many clusters as the rest of the volume has room for.
pub record LaidOutBy (b : Sector) (first : ℕ) (v : Volume) : Type 0 where
  pub length_read : v.sectors ≡ le32 b 32
  pub some_reserved : 0 < le16 b 14
  pub fat_size : v.fat_sectors ≡ le32 b 36
  pub active_read :
      v.active_fat ≡ (if bit_and (le16 b 40) 0x80 == 0 then 0 else bit_and (le16 b 40) 15)
  pub active_low : v.active_fat < b 16
  pub fat_place : v.fat_first ≡ first + le16 b 14 + v.active_fat * le32 b 36
  pub data_place : v.data_first ≡ first + le16 b 14 + b 16 * le32 b 36
  pub cluster_size : v.sectors_per_cluster ≡ b 13
  pub clusters_full :
      first + le32 b 32 < v.data_first + v.clusters * v.sectors_per_cluster + v.sectors_per_cluster
  pub root_read : v.root_cluster ≡ le32 b 44

volume_of-LaidOutBy :
    (b : Sector) (first partition_sectors last_lba : ℕ)
    → last_lba < 2 ^ 32
    → IsSound (bpb_fields b) first partition_sectors last_lba
    → LaidOutBy b first (volume_of (bpb_fields b) first)
unfolding bpb_fields
volume_of-LaidOutBy b first partition_sectors last_lba small s =
    let f = bpb_fields b in
    let a = active_inside f.fats f.fat f.active s.one_or_two s.active_low in
    let end = s.end_low in
    let over = s.overhead_low in
    let pos = s.spc_positive in
    record {
      length_read = refl;
      some_reserved = s.reserved_positive;
      fat_size = refl;
      active_read = refl;
      active_low = s.active_low;
      fat_place = omega arith;
      data_place = omega arith;
      cluster_size = refl;
      clusters_full =
          omega
            (arith, mod-add-div' (f.total - overhead f) f.spc, mod-lt (f.total - overhead f) pos);
      root_read = refl;
    }

-- A volume that pi4_fat32_bpb accepts lies on the disk of `last_lba + 1` sectors, inside its
-- partition: the active FAT begins behind the reserved sectors and the FATs before it, the clusters
-- fill the volume behind the last FAT, each has an entry in the FAT, and the root is one of them.
-- All these places are those that the fields of the boot sector give; no 32-bit sum has wrapped
-- around.
pub bpb-IsVolume :
    (b : Sector) (first partition_sectors last_lba : ℕ) (v : Volume)
    → last_lba < 2 ^ 32
    → bpb b first partition_sectors last_lba ≡ some v
    → IsVolume last_lba v
      × (v.first ≡ first)
      × (v.sectors ≤ partition_sectors)
      × LaidOutBy b first v
unfolding bpb
bpb-IsVolume b first partition_sectors last_lba v small h =
    let f = bpb_fields b in
    elim (Bool-cases (is_foreign b || is_unsound f first partition_sectors last_lba)) [
      | inl bad ↦ let c : none ≡ some v = rw bad at h in cc
      | inr good ↦ elim (Bool-cases (is_miscounted f)) [
        | inl bad ↦ let c : none ≡ some v = rw (good, bad) at h in cc
        | inr counted ↦
            let s =
              is_unsound-false f first partition_sectors last_lba
                (or_false {b = is_unsound f first partition_sectors last_lba} good).1 in
            let e : some (volume_of f first) ≡ some v = rw (good, counted) at h in
            subst
              (λ w.
                IsVolume last_lba w
                × (w.first ≡ first)
                × (w.sectors ≤ partition_sectors)
                × LaidOutBy b first w)
              (some-injective (volume_of f first) v e)
              (
                volume_of-IsVolume f first partition_sectors last_lba small s
                    (is_miscounted-false f counted),
                refl,
                s.total_low,
                volume_of-LaidOutBy b first partition_sectors last_lba small s,
              )
      ]
    ]

module _ (last_lba : ℕ) (v : Volume) (small : last_lba < 2 ^ 32) (sound : IsVolume last_lba v) where
  product_le : (a b c : ℕ) → a ≤ b → a * c ≤ b * c
  product_le a b c h = grind arith

  -- On a volume laid out as pi4_fat32_bpb accepts it, pi4_fat32_cluster_lba gives every cluster
  -- from 2 to the last one its place, and its sectors lie inside the volume.
  pub cluster_lba-some :
      (c : ℕ)
      → 2 ≤ c
      → c ≤ v.clusters + 1
      → (cluster_lba v c ≡ some (v.data_first + (c - 2) * v.sectors_per_cluster))
        × (v.data_first + (c - 2) * v.sectors_per_cluster + v.sectors_per_cluster
            ≤ v.first + v.sectors)
  unfolding cluster_lba
  cluster_lba-some c lo hi =
      let inside = product_le (c - 2 + 1) v.clusters v.sectors_per_cluster (omega arith) in
      let step : (c - 2 + 1) * v.sectors_per_cluster
          ≡ (c - 2) * v.sectors_per_cluster + v.sectors_per_cluster =
        grind arith in
      let area = sound.data_inside in
      let disk = sound.on_disk in
      let fits : v.data_first + (c - 2) * v.sectors_per_cluster + v.sectors_per_cluster
          ≤ v.first + v.sectors =
        omega arith in
      let pos = sound.cluster_positive in (ground arith, fits)
