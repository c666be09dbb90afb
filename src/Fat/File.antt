-- ===== src/Fat/File.antt =====
-- pi4_fat32_read_file of src/pi4_fat32.h.
pub mod Sectors
pub mod Steps
pub mod Bounds
pub mod Confined
use zealos_aarch64_bringup.Base.{
  ℕ, zero, suc, ◌+◌, ◌-◌, ◌*◌, ◌/◌, ◌%◌, ◌^◌, Bool, true, false, not, ◌&&◌, ◌||◌, Option, none,
  some, List, [], ◌∷◌, ◌++◌, bit_and, ltb, leb, ◌==◌, if◌then◌else◌,
}
use zealos_aarch64_bringup.Device.{Sector}
use zealos_aarch64_bringup.Store.Bytes.{read_bytes}
use zealos_aarch64_bringup.Fat.Volume.{Volume, wrap, le32, cluster_lba}

abbrev pub file_max_bytes : ℕ
file_max_bytes = 2048

abbrev pub file_cluster_limit : ℕ
file_cluster_limit = 4

-- `enum pi4_fat32_file_result`
pub data FileResult : Type 0 where
  not_run not_found root_bounded invalid too_large fat_read_bad chain_bad data_read_bad read_pass :
      FileResult

-- `struct pi4_fat32_entry`; the name is the characters before the terminator
pub record FileEntry : Type 0 where
  pub name : List ℕ
  pub attributes : ℕ
  pub cluster : ℕ
  pub bytes : ℕ

-- `struct pi4_fat32_file_report`
pub record Report : Type 0 where
  pub result : FileResult
  pub bytes : ℕ
  pub reads : ℕ
  pub clusters : ℕ
  pub last_read : ℕ

-- `read`: what the request after so many others gives for a sector, `none` where it fails.
abbrev pub Reader : Type 0
Reader = ℕ → ℕ → Option Sector

-- The report and what stands in `out`.
abbrev pub Progress : Type 0
Progress = Report × List ℕ

-- `r->result = e; return;`
abbrev pub stop : FileResult → Progress → Progress
stop e p = (record p.0 { result = e }, p.1)

-- `r->reads++; r->last_read = lba;` before a read that may fail with `e`.
abbrev pub request : FileResult → ℕ → Progress → Progress
request e lba p = (record p.0 { result = e; reads = suc p.0.reads; last_read = lba }, p.1)

-- `remaining < 512u ? remaining : 512u`, where `remaining` is an unsigned difference.
abbrev pub count_of : ℕ → ℕ → ℕ
count_of bytes done =
    let remaining = wrap (bytes + 2 ^ 32 - done) in if ltb remaining 512 then remaining else 512

-- The bytes of a sector go to `out`.
abbrev pub take_in : ℕ → Sector → Progress → Progress
take_in count buffer p =
    (record p.0 { bytes = p.0.bytes + count }, p.1 ++ read_bytes buffer 0 count)

-- The loop over the sectors of a cluster; `true` where it returns.
unfoldable pub read_sectors : ℕ → ℕ → ℕ → FileEntry → Reader → Progress → Progress × Bool
read_sectors zero sector first file read p = (p, false)
read_sectors (suc n) sector first file read p =
    let lba = wrap (first + sector) in
    let p1 = request data_read_bad lba p in
    elim (read p.0.reads lba) [
      | none ↦ (p1, true)
      | some buffer ↦
          let p2 = take_in (count_of file.bytes p.0.bytes) buffer p1 in
          elim (p2.0.bytes == file.bytes) [
            | true ↦ (stop read_pass p2, true)
            | false ↦ read_sectors n (sector + 1) first file read p2
          ]
    ]

unfoldable pub is_seen : ℕ → List ℕ → Bool
is_seen cluster [] = false
is_seen cluster (c ∷ seen) = let rest = is_seen cluster seen in c == cluster || rest

-- `pi4_fat32_le32(buffer + (cluster % 128u) * 4u) & 0x0fffffffu`
unfoldable pub next_cluster : Sector → ℕ → ℕ
next_cluster buffer cluster = bit_and (le32 buffer (cluster % 128 * 4)) 0x0fffffff

-- A link that is neither the end of a chain nor a cluster of the volume.
unfoldable pub is_bad_link : Volume → ℕ → Bool
is_bad_link v next =
    ltb next 0x0ffffff8 && (ltb next 2 || leb 0x0ffffff0 next || ltb (v.clusters + 1) next)

-- The loop over the clusters of the file.
unfoldable pub hops : ℕ → List ℕ → ℕ → Volume → FileEntry → Reader → Progress → Progress
hops zero seen cluster v file read p = stop chain_bad p
hops (suc fuel) seen cluster v file read p = elim (is_seen cluster seen) [
  | true ↦ stop chain_bad p
  | false ↦ elim (cluster_lba v cluster) [
    | none ↦ stop chain_bad p
    | some first ↦ elim (leb v.fat_sectors (cluster / 128)) [
      | true ↦ stop chain_bad p
      | false ↦
          let lba = wrap (v.fat_first + cluster / 128) in
          let p1 = request fat_read_bad lba p in
          elim (read p.0.reads lba) [
            | none ↦ p1
            | some buffer ↦
                let next = next_cluster buffer cluster in
                elim (is_bad_link v next) [
                  | true ↦ stop chain_bad p1
                  | false ↦
                      let p2 : Progress = (record p1.0 { clusters = suc p1.0.clusters }, p1.1) in
                      let (p3, returned) =
                        read_sectors v.sectors_per_cluster 0 first file read p2 in
                      elim returned [
                        | true ↦ p3
                        | false ↦ elim (leb 0x0ffffff8 next) [
                          | true ↦ stop chain_bad p3
                          | false ↦ hops fuel (cluster ∷ seen) next v file read p3
                        ]
                      ]
                ]
          ]
    ]
  ]
]

abbrev pub fresh : FileResult → Progress
fresh e = (record { result = e; bytes = 0; reads = 0; clusters = 0; last_read = 0 }, [])

-- pi4_fat32_read_file
unfoldable pub read_file : Volume → FileEntry → Reader → ℕ → Progress
read_file v file read capacity =
    if not (bit_and file.attributes 0xd8 == 0)
      || v.sectors_per_cluster == 0
      || ltb 128 v.sectors_per_cluster
    then fresh invalid
    else if ltb capacity file.bytes || ltb file_max_bytes file.bytes
    then fresh too_large
    else if file.bytes == 0
    then fresh read_pass
    else hops file_cluster_limit [] file.cluster v file read (fresh invalid)
