-- ===== src/Fat/File/Steps.antt =====
-- One round of the loop over the clusters of pi4_fat32_read_file, src/pi4_fat32.h.
use zealos_aarch64_bringup.Base.{
  ℕ, suc, ◌+◌, ◌/◌, ◌<◌, ◌≡◌, ◌⊎◌, inl, inr, true, false, Bool, some, List, ◌∷◌, Bool-cases,
  Option-cases, leb, leb→gt, arith,
}
use zealos_aarch64_bringup.Device.{Sector}
use zealos_aarch64_bringup.Fat.Volume.{Volume, wrap, cluster_lba}
use zealos_aarch64_bringup.Fat.File.{
  fat_read_bad, chain_bad, FileEntry, Reader, Progress, stop, request, read_sectors, is_seen,
  next_cluster, is_bad_link, hops,
}

module _ (fuel : ℕ) (seen : List ℕ) (cluster : ℕ) (v : Volume) (file : FileEntry) (read : Reader)
    (p : Progress) where
  -- The sector of the FAT with the link of the cluster.
  abbrev pub fat_lba : ℕ
  fat_lba = wrap (v.fat_first + cluster / 128)

  abbrev pub asked : Progress
  asked = request fat_read_bad fat_lba p

  -- The report once the link is accepted.
  abbrev pub entered : Progress
  entered = (record asked.0 { clusters = suc p.0.clusters }, p.1)

  abbrev pub inside_cluster : ℕ → Progress × Bool
  inside_cluster first = read_sectors v.sectors_per_cluster 0 first file read entered

  -- How the round ends: before or at the read of the link; or in the cluster; or behind it, at the
  -- end of the chain or in the next round.
  abbrev pub RoundEnds : Progress → Type 0
  RoundEnds r =
      (r ≡ stop chain_bad p)
      ⊎ ((cluster / 128 < v.fat_sectors)
          × ((r ≡ asked)
              ⊎ ((r ≡ stop chain_bad asked)
                  ⊎ ((first : ℕ) × (buffer : Sector) × (cluster_lba v cluster ≡ some first)
                      × (read p.0.reads fat_lba ≡ some buffer)
                      × ((((inside_cluster first).1 ≡ true) × (r ≡ (inside_cluster first).0))
                          ⊎ ((((inside_cluster first).1 ≡ false)
                                × (r ≡ stop chain_bad (inside_cluster first).0))
                              ⊎ (((inside_cluster first).1 ≡ false)
                                  × (r
                                      ≡ hops fuel (cluster ∷ seen) (next_cluster buffer cluster) v
                                          file read (inside_cluster first).0))))))))

  pub hops-RoundEnds : RoundEnds (hops (suc fuel) seen cluster v file read p)
  unfolding hops
  hops-RoundEnds = elim (Bool-cases (is_seen cluster seen)) [
    | inl again ↦ inl (ground arith)
    | inr new ↦ elim (Option-cases (cluster_lba v cluster)) [
      | inl e ↦ inl (ground arith)
      | inr (first, at) ↦ elim (Bool-cases (leb v.fat_sectors (cluster / 128))) [
        | inl past ↦ inl (ground arith)
        | inr inside ↦ inr (
          leb→gt _ _ inside,
          elim (Option-cases (read p.0.reads fat_lba)) [
            | inl e ↦ inl (ground arith)
            | inr (buffer, e) ↦ elim (Bool-cases (is_bad_link v (next_cluster buffer cluster))) [
              | inl bad ↦ inr (inl (ground arith))
              | inr good ↦ inr (
                  inr (
                    first,
                    buffer,
                    at,
                    e,
                    elim (Bool-cases (inside_cluster first).1) [
                      | inl done ↦ inl (done, ground arith)
                      | inr more ↦
                          elim (Bool-cases (leb 0x0ffffff8 (next_cluster buffer cluster))) [
                            | inl end ↦ inr (inl (more, ground arith))
                            | inr link ↦ inr (inr (more, ground arith))
                          ]
                    ],
                  ))
            ]
          ],
        )
      ]
    ]
  ]
