-- ===== src/Fat/File/Bounds.antt =====
-- What pi4_fat32_read_file of src/pi4_fat32.h leaves in its report and in the buffer, whatever the
-- disk holds and whichever reads fail.
use zealos_aarch64_bringup.Base.{
  Bool, ◌⊎◌, ◌∙◌, ℕ, zero, suc, ◌+◌, ◌*◌, ◌^◌, ◌≤◌, ◌<◌, ◌≡◌, refl, inl, inr, true, false, not,
  ◌||◌, List, [], ◌∷◌, arith, length, Bool-cases, ltb, ltb→ge, ◌==◌, or_false, bit_and, sym, subst,
}
use zealos_aarch64_bringup.Fat.Volume.{Volume}
use zealos_aarch64_bringup.Fat.File.{
  file_max_bytes, file_cluster_limit, invalid, fat_read_bad, chain_bad, read_pass, FileEntry,
  Reader, Progress, fresh, hops, read_file, next_cluster,
}
use zealos_aarch64_bringup.Fat.File.Sectors.{
  IsOpen, IsClosed, stop-IsClosed, Within, read_sectors-Within,
}
use zealos_aarch64_bringup.Fat.File.Steps.{hops-RoundEnds, asked, entered, inside_cluster}

-- The end of the loop after at most `rounds` more clusters.
record Spent (file : FileEntry) (spc rounds : ℕ) (p r : Progress) : Type 0 where
  closed : IsClosed file r
  few_reads : r.0.reads ≤ p.0.reads + rounds * (1 + spc)
  few_clusters : r.0.clusters ≤ p.0.clusters + rounds

-- Which of the two ends of the sector loop it is.
finished :
    {file : FileEntry} {r : Progress × Bool}
    → ((r.1 ≡ true) × IsClosed file r.0) ⊎ ((r.1 ≡ false) × IsOpen file r.0)
    → r.1 ≡ true
    → IsClosed file r.0
finished (inl (e, c)) h = c
finished (inr (e, o)) h = let c : true ≡ false = sym h ∙ e in cc

unfinished :
    {file : FileEntry} {r : Progress × Bool}
    → ((r.1 ≡ true) × IsClosed file r.0) ⊎ ((r.1 ≡ false) × IsOpen file r.0)
    → r.1 ≡ false
    → IsOpen file r.0
unfinished (inl (e, c)) h = let c : false ≡ true = sym h ∙ e in cc
unfinished (inr (e, o)) h = o

one_more : (n k : ℕ) → suc n * k ≡ k + n * k
one_more n k = grind arith

module _ (v : Volume) (file : FileEntry) (read : Reader) (small : file.bytes < 2 ^ 32) where
  abbrev spc : ℕ
  spc = v.sectors_per_cluster

  round-Within :
      (fuel : ℕ) (seen : List ℕ) (cluster first : ℕ) (p : Progress)
      → IsOpen file p
      → Within file read first small spc
          (entered fuel seen cluster v file read p)
          (inside_cluster fuel seen cluster v file read p first)
  round-Within fuel seen cluster first p o =
      read_sectors-Within file read first small spc 0 (entered fuel seen cluster v file read p)
        (record { counted = o.counted; unfinished = o.unfinished })

  hops-Spent :
      (fuel : ℕ) (seen : List ℕ) (cluster : ℕ) (p : Progress)
      → IsOpen file p
      → Spent file spc fuel p (hops fuel seen cluster v file read p)
  unfolding hops Within
  hops-Spent zero seen cluster p o = record {
    closed = stop-IsClosed file chain_bad p o (λ h. cc);
    few_reads = omega arith;
    few_clusters = omega arith;
  }
  hops-Spent (suc fuel) seen cluster p o =
      let step = one_more fuel (1 + spc) in
      let q = asked fuel seen cluster v file read p in
      let asked_open : IsOpen file q = record { counted = o.counted; unfinished = o.unfinished } in
      elim (hops-RoundEnds fuel seen cluster v file read p) [
        | inl e ↦ subst (Spent file spc (suc fuel) p) (sym e) (record {
          closed = stop-IsClosed file chain_bad p o (λ h. cc);
          few_reads = omega arith;
          few_clusters = omega arith;
        })
        | inr (inside, inl e) ↦ subst (Spent file spc (suc fuel) p) (sym e) (record {
          closed = stop-IsClosed file fat_read_bad q asked_open (λ h. cc);
          few_reads = omega arith;
          few_clusters = omega arith;
        })
        | inr (inside, inr (inl e)) ↦ subst (Spent file spc (suc fuel) p) (sym e) (record {
          closed = stop-IsClosed file chain_bad q asked_open (λ h. cc);
          few_reads = omega arith;
          few_clusters = omega arith;
        })
        | inr (inside, inr (inr (first, buffer, at, got, rest))) ↦
            let (ends, reads, clusters) = round-Within fuel seen cluster first p o in
            elim rest [
              | inl (done, e) ↦ subst (Spent file spc (suc fuel) p) (sym e) (record {
                closed = finished ends done;
                few_reads = omega (arith, reads);
                few_clusters = omega (arith, clusters);
              })
              | inr (inl (more, e)) ↦ subst (Spent file spc (suc fuel) p) (sym e) (record {
                closed =
                    stop-IsClosed file chain_bad
                      (inside_cluster fuel seen cluster v file read p first).0
                      (unfinished ends more) (λ h. cc);
                few_reads = omega (arith, reads);
                few_clusters = omega (arith, clusters);
              })
              | inr (inr (more, e)) ↦
                  let later =
                    hops-Spent fuel (cluster ∷ seen) (next_cluster buffer cluster)
                      (inside_cluster fuel seen cluster v file read p first).0
                      (unfinished ends more) in
                  subst (Spent file spc (suc fuel) p) (sym e) (record {
                    closed = later.closed;
                    few_reads = omega (arith, reads, later.few_reads);
                    few_clusters = omega (arith, clusters, later.few_clusters);
                  })
            ]
      ]

  -- Whatever the disk holds and whichever reads fail, for a file of fewer than 2^32 bytes: the
  -- report of pi4_fat32_read_file counts the bytes in the buffer, which are no more than the file
  -- has and the buffer takes; a pass means that they are as many as the file has; at most 4
  -- clusters are entered and at most 516 sectors read.
  pub read_file-bounds :
      (capacity : ℕ)
      → (length (read_file v file read capacity).1 ≡ (read_file v file read capacity).0.bytes)
        × (length (read_file v file read capacity).1 ≤ file.bytes)
        × (length (read_file v file read capacity).1 ≤ capacity)
        × ((read_file v file read capacity).0.result ≡ read_pass
            → length (read_file v file read capacity).1 ≡ file.bytes)
        × ((read_file v file read capacity).0.clusters ≤ 4)
        × ((read_file v file read capacity).0.reads ≤ 516)
  unfolding read_file
  read_file-bounds capacity =
      let broken = not (bit_and file.attributes 0xd8 == 0) || spc == 0 || ltb 128 spc in
      let large = ltb capacity file.bytes || ltb file_max_bytes file.bytes in
      elim (Bool-cases broken) [
        | inl b ↦ rw b (refl, omega arith, omega arith, λ h. cc, omega arith, omega arith)
        | inr sound ↦ elim (Bool-cases large) [
          | inl l ↦
              rw (sound, l) (refl, omega arith, omega arith, λ h. cc, omega arith, omega arith)
          | inr fits ↦ elim (Bool-cases (file.bytes == 0)) [
            | inl nothing ↦
                rw (sound, fits, nothing)
                  (refl, omega arith, omega arith, λ h. ground arith, omega arith, omega arith)
            | inr some_bytes ↦
                let s =
                  hops-Spent file_cluster_limit [] file.cluster (fresh invalid)
                    (record { counted = refl; unfinished = ground arith }) in
                let narrow : spc ≤ 128 = ltb→ge _ _ (or_false {b = ltb 128 spc} sound).1 in
                let room : file.bytes ≤ capacity =
                  ltb→ge _ _ (or_false {b = ltb file_max_bytes file.bytes} fits).0 in
                rw (sound, fits, some_bytes)
                  (
                    s.closed.counted,
                    omega (arith, s.closed.counted, s.closed.bounded),
                    omega (arith, s.closed.counted, s.closed.bounded),
                    λ h. s.closed.counted ∙ s.closed.complete h,
                    s.few_clusters,
                    omega (arith, s.few_reads),
                  )
          ]
        ]
      ]
