-- ===== src/Store/Write/Healthy.antt =====
-- zss_put of src/zc_source_store.h on a device whose requests all succeed.
use zealos_aarch64_bringup.Base.{
  ℕ, zero, suc, ◌+◌, ◌^◌, ◌≤◌, ◌<◌, ◌≡◌, refl, true, false, Option, some, List, arith, length,
  lt→ltb, take, drop, leb, Bool-cases, ap, ◌∙◌, subst, sym, inl, inr, leb→gt,
}
use zealos_aarch64_bringup.Device.{
  IsHealthy-changed, Sector, Device, IsHealthy, write_abs-healthy, flush_abs-healthy,
}
use zealos_aarch64_bringup.Store.Bytes.{zero_sector}
use zealos_aarch64_bringup.Store.Crc.{crc_bytes, crc_init, crc_final}
use zealos_aarch64_bringup.Store.Record.{u32, blocks_of, file_header}
use zealos_aarch64_bringup.Store.Bank.{Store, bank_write, sector_write, terminate_log, flush}
use zealos_aarch64_bringup.Store.Bank.Laws.{written}
use zealos_aarch64_bringup.Store.Write.{
  ok, append_file, data_sector, barrier, prepare, publish, commit, write_blocks,
}
use zealos_aarch64_bringup.Base.{leb→le}
use zealos_aarch64_bringup.Store.Record.{Decoded, delete_header}
use zealos_aarch64_bringup.Store.Bank.{available}
use zealos_aarch64_bringup.Store.Bank.Select.{available-same, available-fits}
use zealos_aarch64_bringup.Store.Find.{is_bad_name, find}
use zealos_aarch64_bringup.Store.Log.Scan.{IsHealthy-at_request}
use zealos_aarch64_bringup.Store.Log.Lookup.{Holds, find-Ends, IsHealthy-later}
use zealos_aarch64_bringup.Store.Write.{append_tombstone}

-- A store whose bank lies on a healthy device.
pub record IsReady (st : Store) : Type 0 where
  pub healthy : IsHealthy st.dev
  pub fits : st.base + st.sectors ≤ st.dev.full_capacity

-- Only the medium, the count of requests and the catalog have changed.
abbrev pub Later : Store → Store → Type 0
Later st st' =
    (st'.base ≡ st.base)
    × (st'.sectors ≡ st.sectors)
    × (st'.dev ≡ record st.dev { medium = st'.dev.medium; requests = st'.dev.requests })

pub Later-IsReady : (st st' : Store) → IsReady st → Later st st' → IsReady st'
Later-IsReady st st' r l = record {
  healthy = subst IsHealthy (sym l.2) (IsHealthy-changed st'.dev.medium st'.dev.requests r.healthy);
  fits = omega (arith, r.fits, l.0, l.1, ap (λ (d : Device). d.full_capacity) l.2);
}

pub Later-trans : (st st' st'' : Store) → Later st st' → Later st' st'' → Later st st''
Later-trans st st' st'' p q = (
  q.0 ∙ p.0,
  q.1 ∙ p.1,
  q.2
      ∙ ap (λ (d : Device). record d { medium = st''.dev.medium; requests = st''.dev.requests })
          p.2,
)

module _ (st : Store) (r : IsReady st) where
  write-ready :
      (k : ℕ) (s : Sector)
      → k < st.sectors
      → sector_write st k s ≡ (written st k s (suc st.dev.requests), true)
  unfolding sector_write bank_write
  write-ready k s lt =
      rw (lt→ltb _ _ lt, write_abs-healthy st.dev (st.base + k) s r.healthy (omega (arith, r.fits)))
        refl

  barrier-ready : ((barrier st).1 ≡ true) × Later st (barrier st).0
  unfolding barrier flush
  barrier-ready = elim (Bool-cases st.dev.flush_supported) [
    | inl yes_flush ↦ ground (arith, flush_abs-healthy st.dev r.healthy yes_flush)
    | inr none_flush ↦ ground arith
  ]

  terminate-ready :
      (next : ℕ) → ((terminate_log st next).1 ≡ true) × Later st (terminate_log st next).0
  unfolding terminate_log
  terminate-ready next = elim (Bool-cases (leb st.sectors next)) [
    | inl past ↦ rw past (refl, (refl, refl, refl))
    | inr inside ↦
        rw (inside, write-ready next zero_sector (leb→gt _ _ inside)) (refl, (refl, refl, refl))
  ]

module _ (st : Store) (r : IsReady st) (next : ℕ) where
  prepare-ready : ((prepare st next).1 ≡ true) × Later st (prepare st next).0
  unfolding prepare
  prepare-ready =
      let (done, l) = terminate-ready st r next in
      let st1 = (terminate_log st next).0 in
      let b = barrier-ready st1 (Later-IsReady st st1 r l) in
      rw done (b.0, Later-trans st st1 (barrier st1).0 l b.1)

publish-ready :
    (st : Store) (tail : ℕ) (header : Sector)
    → IsReady st
    → tail < st.sectors
    → (publish st tail header).1 ≡ ok
unfolding publish
publish-ready st tail header r lt =
    let st2 : Store = record (written st tail header (suc st.dev.requests)) {
      catalog_valid = false;
      catalog_revision = suc st.catalog_revision;
    } in
    ground (
      arith,
      write-ready st r tail header lt,
      (barrier-ready st2 (Later-IsReady st st2 r (refl, refl, refl))).0,
    )

pub commit-ready :
    (st : Store) (tail next : ℕ) (header : Sector)
    → IsReady st
    → tail < st.sectors
    → (commit st tail next header).1 ≡ ok
unfolding commit
commit-ready st tail next header r lt =
    let (done, l) = prepare-ready st r next in
    rw done (
      publish-ready (prepare st next).0 tail header (Later-IsReady st (prepare st next).0 r l)
        (omega (arith, l.1)))

write_blocks_step :
    (n b : ℕ) (rest : List ℕ) (tail crc : ℕ) (st st' : Store)
    → tail + 1 + b < 2 ^ 32
    → sector_write st (tail + 1 + b) (data_sector (take 512 rest)) ≡ (st', true)
    → write_blocks (suc n) b rest tail crc st
      ≡ write_blocks n (b + 1) (drop 512 rest) tail (crc_bytes crc (take 512 rest)) st'
unfolding write_blocks
write_blocks_step n b rest tail crc st st' small w =
    let wrap : u32 (tail + 1 + b) ≡ tail + 1 + b = omega arith in ground arith

pub write_blocks-ready :
    (n b : ℕ) (rest : List ℕ) (tail crc : ℕ) (st : Store)
    → IsReady st
    → tail + 1 + b + n ≤ st.sectors
    → st.sectors ≤ 65536
    → ((c : ℕ) × ((write_blocks n b rest tail crc st).1 ≡ some c))
      × Later st (write_blocks n b rest tail crc st).0
unfolding write_blocks
write_blocks-ready zero b rest tail crc st r room le = ((crc, refl), (refl, refl, refl))
write_blocks-ready (suc n) b rest tail crc st r room le =
    let s : tail + 1 + b < 2 ^ 32 = omega arith in
    let w = write-ready st r (tail + 1 + b) (data_sector (take 512 rest)) (omega arith) in
    let st' = written st (tail + 1 + b) (data_sector (take 512 rest)) (suc st.dev.requests) in
    let l : Later st st' = (refl, refl, refl) in
    let (c, l') =
      write_blocks-ready n (b + 1) (drop 512 rest) tail (crc_bytes crc (take 512 rest)) st'
        (Later-IsReady st st' r l) (omega arith) le in
    subst (λ (r : Store × Option ℕ). ((c : ℕ) × (r.1 ≡ some c)) × Later st r.0)
      (sym (write_blocks_step n b rest tail crc st st' s w))
      (
        c,
        Later-trans st st'
            (write_blocks n (b + 1) (drop 512 rest) tail (crc_bytes crc (take 512 rest)) st').0 l
            l',
      )

append_file_step :
    (name src : List ℕ) (tail c : ℕ) (st st' : Store)
    → tail + 1 + blocks_of (length src) ≤ st.sectors
    → st.sectors ≤ 65536
    → write_blocks (blocks_of (length src)) 0 src tail crc_init st ≡ (st', some c)
    → append_file name src tail st
      ≡ commit st' tail
          (tail + 1 + blocks_of (length src))
          (file_header name (length src) (crc_final c) (blocks_of (length src)))
unfolding append_file
append_file_step name src tail c st st' room le w =
    let wrap : u32 (tail + 1 + blocks_of (length src)) ≡ tail + 1 + blocks_of (length src) =
      omega arith in
    ground arith

pub append_file-ready :
    (name src : List ℕ) (tail : ℕ) (st : Store)
    → IsReady st
    → tail + 1 + blocks_of (length src) ≤ st.sectors
    → st.sectors ≤ 65536
    → (append_file name src tail st).1 ≡ ok
append_file-ready name src tail st r room le =
    let blocks = blocks_of (length src) in
    let ((c, e), l) = write_blocks-ready blocks 0 src tail crc_init st r (omega arith) le in
    let st' = (write_blocks blocks 0 src tail crc_init st).0 in
    let w : write_blocks blocks 0 src tail crc_init st ≡ (st', some c) = ap (λ o. (st', o)) e in
    rw (append_file_step name src tail c st st' room le w)
      (commit-ready st' tail (tail + 1 + blocks) _ (Later-IsReady st st' r l) (omega (arith, l.1)))

-- The scan leaves a bank on a healthy device.
pub find-IsReady :
    (name : Option (List ℕ)) (st : Store) (tail : ℕ) (ds : List Decoded)
    → is_bad_name name ≡ false
    → Holds st tail ds
    → IsHealthy st.dev
    → IsReady (find name st).0
find-IsReady name st tail ds named holds h =
    let same = (find-Ends name st tail ds named holds).0 in
    let fits = available-fits st holds.selected in
    let chosen = available-same st in
    subst IsReady (sym same) (record {
      healthy =
          IsHealthy-at_request (find name st).0.dev.requests
            (IsHealthy-later (available st).0.dev st.dev _ chosen h);
      fits = omega (arith, ap (λ (d : Device). d.full_capacity) chosen);
    })

-- The commit of a tombstone.
pub append_tombstone-ready :
    (name : List ℕ) (tail : ℕ) (st : Store)
    → IsReady st
    → tail < st.sectors
    → (append_tombstone name tail st).1 ≡ ok
unfolding append_tombstone
append_tombstone-ready name tail st r lt = elim (Bool-cases (leb st.sectors tail)) [
  | inl over ↦ absurd (omega (arith, leb→le st.sectors tail over))
  | inr fits ↦ rw fits (commit-ready st tail (u32 (tail + 1)) (delete_header name) r lt)
]
