-- ===== src/Fat/File/Sectors.antt =====
-- The loop over the sectors of a cluster of pi4_fat32_read_file, src/pi4_fat32.h, whatever the disk
-- holds and whichever reads fail.
use zealos_aarch64_bringup.Base.{
  ℕ, zero, suc, ◌+◌, ◌^◌, ◌≤◌, ◌<◌, ◌≡◌, refl, ◌⊎◌, inl, inr, ◌≢◌, true, false, Bool, none, some,
  arith, length, length-append, Bool-cases, Option-cases, ◌==◌, ==_iff, subst, sym,
}
use zealos_aarch64_bringup.Device.{Sector}
use zealos_aarch64_bringup.Store.Bytes.{read_bytes}
use zealos_aarch64_bringup.Fat.Volume.{wrap}
use zealos_aarch64_bringup.Fat.File.{
  FileResult, data_read_bad, read_pass, FileEntry, Reader, Progress, stop, request, count_of,
  take_in, read_sectors,
}

length-read_bytes : (s : Sector) (k n : ℕ) → length (read_bytes s k n) ≡ n
unfolding read_bytes
length-read_bytes s k zero = refl
length-read_bytes s k (suc n) = omega (arith, length-read_bytes s (k + 1) n)

-- A sector is read whole but for the last, and never past the length of the file.
count_of_lem :
    (bytes done : ℕ)
    → done < bytes
    → bytes < 2 ^ 32
    → (0 < count_of bytes done) × (done + count_of bytes done ≤ bytes) × (count_of bytes done ≤ 512)
count_of_lem bytes done lt small = ground arith

below : (a b : ℕ) → a ≤ b → (a == b) ≡ false → a < b
below a b le ne = ground arith

-- What holds between the steps: the bytes that are counted are in `out`, and the file is not read
-- to its end.
pub record IsOpen (file : FileEntry) (p : Progress) : Type 0 where
  pub counted : length p.1 ≡ p.0.bytes
  pub unfinished : p.0.bytes < file.bytes

-- What holds at the end.
pub record IsClosed (file : FileEntry) (p : Progress) : Type 0 where
  pub counted : length p.1 ≡ p.0.bytes
  pub bounded : p.0.bytes ≤ file.bytes
  pub complete : (p.0.result ≡ read_pass) → p.0.bytes ≡ file.bytes

pub stop-IsClosed :
    (file : FileEntry) (e : FileResult) (p : Progress)
    → IsOpen file p
    → e ≢ read_pass
    → IsClosed file (stop e p)
stop-IsClosed file e p o ne = record {
  counted = o.counted;
  bounded = omega (arith, o.unfinished);
  complete = λ h. absurd (ne h);
}

module _ (file : FileEntry) (read : Reader) (first : ℕ) (small : file.bytes < 2 ^ 32) where
  taken : (p : Progress) → ℕ → Sector → Progress
  taken p lba buffer = take_in (count_of file.bytes p.0.bytes) buffer (request data_read_bad lba p)

  taken-counted :
      (p : Progress) (lba : ℕ) (buffer : Sector)
      → IsOpen file p
      → (length (taken p lba buffer).1 ≡ (taken p lba buffer).0.bytes)
        × ((taken p lba buffer).0.bytes ≤ file.bytes)
  unfolding taken
  taken-counted p lba buffer o =
      let n = count_of file.bytes p.0.bytes in
      let c = count_of_lem file.bytes p.0.bytes o.unfinished small in
      (
        omega (
          arith,
          o.counted,
          length-append p.1 (read_bytes buffer 0 n),
          length-read_bytes buffer 0 n,
        ),
        c.1,
      )

  -- The loop over the sectors of a cluster makes at most one read for each.
  unfoldable pub Within : ℕ → Progress → Progress × Bool → Type 0
  Within n p r =
      (((r.1 ≡ true) × IsClosed file r.0) ⊎ ((r.1 ≡ false) × IsOpen file r.0))
      × (r.0.0.reads ≤ p.0.reads + n)
      × (r.0.0.clusters ≡ p.0.clusters)

  sectors_fail :
      (n sector : ℕ) (p : Progress)
      → read p.0.reads (wrap (first + sector)) ≡ none
      → read_sectors (suc n) sector first file read p
        ≡ (request data_read_bad (wrap (first + sector)) p, true)
  unfolding read_sectors
  sectors_fail n sector p e = ground arith

  sectors_finish :
      (n sector : ℕ) (p : Progress) (buffer : Sector)
      → read p.0.reads (wrap (first + sector)) ≡ some buffer
      → ((taken p (wrap (first + sector)) buffer).0.bytes == file.bytes) ≡ true
      → read_sectors (suc n) sector first file read p
        ≡ (stop read_pass (taken p (wrap (first + sector)) buffer), true)
  unfolding read_sectors taken
  sectors_finish n sector p buffer e done = ground arith

  sectors_go_on :
      (n sector : ℕ) (p : Progress) (buffer : Sector)
      → read p.0.reads (wrap (first + sector)) ≡ some buffer
      → ((taken p (wrap (first + sector)) buffer).0.bytes == file.bytes) ≡ false
      → read_sectors (suc n) sector first file read p
        ≡ read_sectors n (sector + 1) first file read (taken p (wrap (first + sector)) buffer)
  unfolding read_sectors taken
  sectors_go_on n sector p buffer e more = ground arith

  pub read_sectors-Within :
      (n sector : ℕ) (p : Progress)
      → IsOpen file p
      → Within n p (read_sectors n sector first file read p)
  unfolding read_sectors Within taken
  read_sectors-Within zero sector p o = (inr (refl, o), omega arith, refl)
  read_sectors-Within (suc n) sector p o =
      let lba = wrap (first + sector) in
      let p1 = request data_read_bad lba p in
      elim (Option-cases (read p.0.reads lba)) [
        | inl e ↦ subst (Within (suc n) p) (sym (sectors_fail n sector p e)) (
          inl (
            refl,
            stop-IsClosed file data_read_bad p1
                (record { counted = o.counted; unfinished = o.unfinished }) (λ h. cc),
          ),
          omega arith,
          refl,
        )
        | inr (buffer, e) ↦
            let c = taken-counted p lba buffer o in
            elim (Bool-cases ((taken p lba buffer).0.bytes == file.bytes)) [
              | inl done ↦
                  subst (Within (suc n) p) (sym (sectors_finish n sector p buffer e done)) (
                    inl (
                      refl,
                      record {
                        counted = c.0;
                        bounded = c.1;
                        complete = λ h. (==_iff (taken p lba buffer).0.bytes file.bytes).0 done;
                      },
                    ),
                    omega arith,
                    refl,
                  )
              | inr more ↦
                  let o' : IsOpen file (taken p lba buffer) = record {
                    counted = c.0;
                    unfinished = below (taken p lba buffer).0.bytes file.bytes c.1 more;
                  } in
                  let (ends, reads, clusters) =
                    read_sectors-Within n (sector + 1) (taken p lba buffer) o' in
                  subst (Within (suc n) p) (sym (sectors_go_on n sector p buffer e more))
                    (ends, omega (arith, reads), clusters)
            ]
      ]
