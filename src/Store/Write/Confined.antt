-- ===== src/Store/Write/Confined.antt =====
-- Where zss_put and zss_delete of src/zc_source_store.h write, whatever the device answers.
use zealos_aarch64_bringup.Base.{
  ℕ, suc, ◌+◌, ◌≤◌, inl, inr, false, not, List, arith, Bool-cases, Option-cases, length, ltb, leb,
  subst, sym,
}
use native.Mathlib.Nat.{le_refl}
use zealos_aarch64_bringup.Device.{Sector}
use zealos_aarch64_bringup.Store.Crc.{crc_init}
use zealos_aarch64_bringup.Store.Record.{max_file, u32, blocks_of, delete_header}
use zealos_aarch64_bringup.Store.Bank.{Store, sector_write}
use zealos_aarch64_bringup.Store.Bank.Laws.{sector_write-Beyond, at_time-Beyond}
use zealos_aarch64_bringup.Store.Log.Frame.{Beyond, Beyond-refl, Beyond-trans}
use zealos_aarch64_bringup.Store.Write.{
  barrier, prepare, publish, commit, write_blocks, append_file, append_tombstone,
}
use zealos_aarch64_bringup.Store.Write.Commit.{barrier-same, prepare-Beyond}
use zealos_aarch64_bringup.Store.Write.Blocks.{write_blocks-Beyond}

barrier-Beyond : (st : Store) (lo : ℕ) → Beyond lo st (barrier st).0
barrier-Beyond st lo =
    subst (Beyond lo st) (sym (barrier-same st)) (at_time-Beyond st lo (barrier st).0.dev.requests)

listed-Beyond :
    (lo : ℕ) (st st' : Store)
    → Beyond lo st st'
    → Beyond lo st
        (record st' { catalog_valid = false; catalog_revision = suc st'.catalog_revision })
listed-Beyond lo st st' b = record {
  same_base = b.same_base;
  same_sectors = b.same_sectors;
  same_generation = b.same_generation;
  same_device = b.same_device;
  outside = b.outside;
}

publish-Beyond :
    (st : Store) (tail : ℕ) (header : Sector) → Beyond tail st (publish st tail header).0
unfolding publish
publish-Beyond st tail header =
    let written = sector_write-Beyond st tail tail header (le_refl tail) in
    elim (Bool-cases (not (sector_write st tail header).1)) [
      | inl bad ↦ rw bad written
      | inr good ↦ rw good (
          Beyond-trans (listed-Beyond tail st (sector_write st tail header).0 written)
            (barrier-Beyond _ tail) (le_refl tail))
    ]

pub commit-Beyond :
    (st : Store) (tail next : ℕ) (header : Sector)
    → tail ≤ next
    → Beyond tail st (commit st tail next header).0
unfolding commit
commit-Beyond st tail next header le = elim (Bool-cases (not (prepare st next).1)) [
  | inl bad ↦ rw bad (prepare-Beyond st next tail le)
  | inr good ↦ rw good (
      Beyond-trans (prepare-Beyond st next tail le) (publish-Beyond (prepare st next).0 tail header)
        (le_refl tail))
]

pub append_file-Beyond :
    (name src : List ℕ) (tail : ℕ) (st : Store)
    → length src ≤ max_file
    → tail ≤ 65536
    → Beyond tail st (append_file name src tail st).0
unfolding append_file
append_file-Beyond name src tail st small le =
    let blocks = blocks_of (length src) in
    let filled = write_blocks blocks 0 src tail crc_init st in
    let b : Beyond (tail + 1 + 0) st filled.0 =
      write_blocks-Beyond blocks 0 src tail crc_init st (omega arith) in
    elim (Bool-cases (ltb st.sectors (u32 (tail + 1 + blocks)))) [
      | inl over ↦ rw over (Beyond-refl tail st)
      | inr fits ↦ elim (Option-cases filled.1) [
        | inl e ↦ rw (fits, e) (Beyond-trans (Beyond-refl tail st) b (omega arith))
        | inr (c, e) ↦
            rw (fits, e)
              (Beyond-trans (Beyond-trans (Beyond-refl tail st) b (omega arith))
                (commit-Beyond filled.0 tail (u32 (tail + 1 + blocks)) _ (omega arith))
                (omega arith))
      ]
    ]

pub append_tombstone-Beyond :
    (name : List ℕ) (tail : ℕ) (st : Store)
    → tail ≤ 65536
    → Beyond tail st (append_tombstone name tail st).0
unfolding append_tombstone
append_tombstone-Beyond name tail st le = elim (Bool-cases (leb st.sectors tail)) [
  | inl over ↦ rw over (Beyond-refl tail st)
  | inr fits ↦ rw fits (commit-Beyond st tail (u32 (tail + 1)) (delete_header name) (omega arith))
]
