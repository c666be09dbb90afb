-- ===== src/Fat/File/Confined.antt =====
-- Which sectors pi4_fat32_read_file of src/pi4_fat32.h depends on.
use zealos_aarch64_bringup.Base.{
  ℕ, zero, suc, ◌+◌, ◌/◌, ◌^◌, ◌≤◌, ◌<◌, ◌≡◌, refl, inl, inr, some, List, [], ◌∷◌, arith,
  Bool-cases, Option-cases, leb, leb→gt,
}
use zealos_aarch64_bringup.Fat.Volume.{Volume, wrap, cluster_lba}
use zealos_aarch64_bringup.Fat.Volume.Layout.{IsVolume}
use zealos_aarch64_bringup.Fat.File.{
  file_cluster_limit, invalid, FileEntry, Reader, Progress, fresh, read_sectors, take_in, count_of,
  request, data_read_bad, is_seen, next_cluster, hops, read_file,
}
use zealos_aarch64_bringup.Fat.File.Steps.{entered, inside_cluster}

-- A cluster that is given a place lies inside the volume, behind the start of its data.
cluster_lba-inside :
    (v : Volume) (c first : ℕ)
    → cluster_lba v c ≡ some first
    → (v.data_first ≤ first) × (first + v.sectors_per_cluster ≤ v.first + v.sectors)
unfolding cluster_lba
cluster_lba-inside v c first h = ground arith

module _ (last_lba : ℕ) (v : Volume) (small : last_lba < 2 ^ 32) (sound : IsVolume last_lba v)
    (file : FileEntry) (read read' : Reader)
    (agree : (n lba : ℕ)
      → v.first ≤ lba
      → lba < v.first + v.sectors
      → read n lba ≡ read' n lba) where
  read_sectors_congr :
      (n sector first : ℕ) (p : Progress)
      → v.first ≤ first
      → first + sector + n ≤ v.first + v.sectors
      → read_sectors n sector first file read p ≡ read_sectors n sector first file read' p
  unfolding read_sectors
  read_sectors_congr zero sector first p lo hi = refl
  read_sectors_congr (suc n) sector first p lo hi =
      let disk = sound.on_disk in
      let unwrapped : wrap (first + sector) ≡ first + sector = omega arith in
      let same : read p.0.reads (wrap (first + sector)) ≡ read' p.0.reads (wrap (first + sector)) =
        rw unwrapped (agree p.0.reads (first + sector) (omega arith) (omega arith)) in
      elim (Option-cases (read p.0.reads (wrap (first + sector)))) [
        | inl e ↦ ground (arith, same)
        | inr (buffer, e) ↦ ground (
          arith,
          same,
          read_sectors_congr n (sector + 1) first
              (take_in (count_of file.bytes p.0.bytes) buffer
                (request data_read_bad (wrap (first + sector)) p))
              lo (omega arith),
        )
      ]

  inside_cluster_congr :
      (fuel : ℕ) (seen : List ℕ) (cluster first : ℕ) (p : Progress)
      → cluster_lba v cluster ≡ some first
      → inside_cluster fuel seen cluster v file read p first
        ≡ inside_cluster fuel seen cluster v file read' p first
  inside_cluster_congr fuel seen cluster first p at =
      let (lo, hi) = cluster_lba-inside v cluster first at in
      read_sectors_congr v.sectors_per_cluster 0 first (entered fuel seen cluster v file read p)
        (omega (arith, sound.fat_ahead, sound.fat_behind)) (omega arith)

  hops_congr :
      (fuel : ℕ) (seen : List ℕ) (cluster : ℕ) (p : Progress)
      → hops fuel seen cluster v file read p ≡ hops fuel seen cluster v file read' p
  unfolding hops
  hops_congr zero seen cluster p = refl
  hops_congr (suc fuel) seen cluster p = elim (Bool-cases (is_seen cluster seen)) [
    | inl again ↦ ground arith
    | inr new ↦ elim (Option-cases (cluster_lba v cluster)) [
      | inl e ↦ ground arith
      | inr (first, at) ↦
          let inner = inside_cluster_congr fuel seen cluster first p at in
          elim (Bool-cases (leb v.fat_sectors (cluster / 128))) [
            | inl past ↦ ground arith
            | inr inside ↦
                let lt = leb→gt _ _ inside in
                let disk = sound.on_disk in
                let fat = sound.fat_ahead in
                let area = sound.data_inside in
                let start = sound.fat_behind in
                let unwrapped : wrap (v.fat_first + cluster / 128) ≡ v.fat_first + cluster / 128 =
                  omega arith in
                let same : read p.0.reads (wrap (v.fat_first + cluster / 128))
                    ≡ read' p.0.reads (wrap (v.fat_first + cluster / 128)) =
                  rw unwrapped
                    (agree p.0.reads (v.fat_first + cluster / 128) (omega arith) (omega arith)) in
                elim (Option-cases (read p.0.reads (wrap (v.fat_first + cluster / 128)))) [
                  | inl e ↦ ground (arith, same)
                  | inr (buffer, e) ↦ ground (
                    arith,
                    same,
                    inner,
                    hops_congr fuel (cluster ∷ seen) (next_cluster buffer cluster)
                        (inside_cluster fuel seen cluster v file read p first).0,
                  )
                ]
          ]
    ]
  ]

  -- On a volume laid out as pi4_fat32_bpb accepts it, the report and the bytes of
  -- pi4_fat32_read_file depend on the sectors of the volume alone: with a disk that differs
  -- anywhere else, or fails to read anywhere else, they are the same.
  pub read_file-confined :
      (capacity : ℕ) → read_file v file read capacity ≡ read_file v file read' capacity
  unfolding read_file
  read_file-confined capacity =
      let same = hops_congr file_cluster_limit [] file.cluster (fresh invalid) in rw same refl
