-- ===== src/Store/Catalog/Build.antt =====
-- The catalog that one call of zss_entry_at builds, src/zc_source_store.h.
use zealos_aarch64_bringup.Base.{
  ℕ, zero, suc, ◌+◌, ◌≤◌, ◌<◌, ◌≡◌, inl, inr, refl, Bool-cases, Option-cases, true, false, Bool,
  not, ◌||◌, Option, none, some, List, [], ◌∷◌, ltb, ltb→lt, le→ltb, if◌then◌else◌, length, arith,
  ap, ◌∙◌,
}
use zealos_aarch64_bringup.Device.{Sector, IsHealthy}
use zealos_aarch64_bringup.Store.Bytes.{is_empty}
use zealos_aarch64_bringup.Store.Record.{Decoded, u32, decode_record}
use zealos_aarch64_bringup.Store.Record.Laws.{decode_record-bounds, decode_record-some}
use zealos_aarch64_bringup.Store.Bank.{
  Store, bank_read, sector_read, probe_bank, choose_bank, available, src_lba_base, src_sects,
  src_shadow_lba, src_shadow_sects,
}
use zealos_aarch64_bringup.Store.Log.{view, at_time, IsLog}
use zealos_aarch64_bringup.Store.Log.Scan.{sector_read-healthy, next_pos, IsHealthy-at_request}
use zealos_aarch64_bringup.Store.Catalog.{
  Item, item_of, place, enter, catalog_cap, Built, built, catalog_loop, build,
}
use zealos_aarch64_bringup.Store.Catalog.Items.{
  listing, length-place, enter-place, IsCatalog, place-IsCatalog,
}

module _ (fuel : ℕ) (st st' : Store) (pos : ℕ) (items : List Item) where
  stop_at_end : st.sectors ≤ pos → catalog_loop (suc fuel) st pos items ≡ (st, built items true)
  unfolding catalog_loop
  stop_at_end h = rw (le→ltb pos st.sectors h, catalog_loop)

  module _ (lt : pos < st.sectors) (s : Sector) (r : sector_read st pos ≡ (st', some s)) where
    stop_at_empty :
        is_empty s ≡ true → catalog_loop (suc fuel) st pos items ≡ (st', built items true)
    unfolding catalog_loop
    stop_at_empty e = ground arith

    step :
        (d : Decoded)
        → is_empty s ≡ false
        → decode_record s pos st'.sectors ≡ some d
        → enter (item_of d) items ≡ some (place (item_of d) items)
        → catalog_loop (suc fuel) st pos items
          ≡ catalog_loop fuel st' (u32 (pos + 1 + d.entry.blocks)) (place (item_of d) items)
    unfolding catalog_loop
    step d e q placed = ground arith

pub catalog_loop-healthy :
    (fuel : ℕ) (st : Store) (tail pos : ℕ) (items : List Item) (ds : List Decoded)
    → IsHealthy st.dev
    → st.base + st.sectors ≤ st.dev.full_capacity
    → st.sectors ≤ 65536
    → st.sectors < fuel + pos
    → pos ≤ st.sectors
    → length items + length ds ≤ catalog_cap
    → IsLog (view st) st.sectors tail pos ds
    → (catalog_loop fuel st pos items).1 ≡ built (listing ds items) true
catalog_loop-healthy zero st tail pos items ds h cap le enough inside few log = absurd (omega arith)
catalog_loop-healthy (suc fuel) st tail pos items [] h cap le enough inside few (here, end) =
    elim (Bool-cases (ltb pos st.sectors)) [
      | inr ge ↦ rw (stop_at_end fuel st st pos items (ground arith)) refl
      | inl lt ↦
          let lt' : pos < st.sectors = ltb→lt _ _ lt in
          let free : is_empty (view st pos) ≡ true = rw here (ground arith) in
          rw
            (stop_at_empty fuel st (at_time st (suc st.dev.requests)) pos items lt' (view st pos)
              (sector_read-healthy st pos h lt' (omega arith)) free)
            refl
    ]
catalog_loop-healthy (suc fuel) st tail pos items (d ∷ ds) h cap le enough inside few
      (lt, full, q, rest) =
    rw
      (
        step fuel st (at_time st (suc st.dev.requests)) pos items lt (view st pos)
            (sector_read-healthy st pos h lt (omega arith)) d full q
            (enter-place (item_of d) items (omega arith)),
        next_pos (view st pos) pos st.sectors d lt le q,
      )
      (catalog_loop-healthy fuel (at_time st (suc st.dev.requests)) tail (pos + 1 + d.entry.blocks)
        (place (item_of d) items) ds (IsHealthy-at_request (suc st.dev.requests) h) cap le
        (omega arith) (decode_record-bounds (view st pos) pos st.sectors d q lt le).0
        (omega (arith, length-place (item_of d) items)) rest)

pub listing-IsCatalog :
    (v : ℕ → Sector) (sectors tail pos : ℕ) (ds : List Decoded) (items : List Item)
    → IsLog v sectors tail pos ds
    → IsCatalog items
    → IsCatalog (listing ds items)
listing-IsCatalog v sectors tail pos [] items log h = h
listing-IsCatalog v sectors tail pos (d ∷ ds) items (lt, full, q, rest) h =
    listing-IsCatalog v sectors tail (pos + 1 + d.entry.blocks) ds (place (item_of d) items) rest
      (place-IsCatalog (item_of d) items (decode_record-some (v pos) pos sectors d q).1 h)

probe_bank-keeps :
    (st : Store) (base sectors : ℕ)
    → (probe_bank st base sectors).0.catalog_valid ≡ st.catalog_valid
unfolding probe_bank bank_read
probe_bank-keeps st base sectors = elim (Bool-cases (ltb st.dev.full_capacity (base + sectors))) [
  | inl gt ↦ rw gt refl
  | inr le ↦ elim (Option-cases (bank_read st base 0).1) [
    | inl e ↦ rw (le, e) refl
    | inr (s, e) ↦ rw (le, e) refl
  ]
]

choose_bank-keeps :
    (st : Store) (a b : Option ℕ) → (choose_bank st a b).0.catalog_valid ≡ st.catalog_valid
unfolding choose_bank
choose_bank-keeps st none none = refl
choose_bank-keeps st none (some b) = refl
choose_bank-keeps st (some a) none = refl
choose_bank-keeps st (some a) (some b) = elim (Bool-cases (ltb a b)) [
  | inl lt ↦ rw lt refl
  | inr ge ↦ rw ge refl
]

pub available-keeps : (st : Store) → (available st).0.catalog_valid ≡ st.catalog_valid
unfolding available
available-keeps st = elim (Bool-cases (not st.dev.ready || not st.dev.pci)) [
  | inl off ↦ rw off refl
  | inr on ↦
      let main = probe_bank st src_lba_base src_sects in
      let shadow = probe_bank main.0 src_shadow_lba src_shadow_sects in
      rw on (
        choose_bank-keeps shadow.0 main.1 shadow.1
        ∙ probe_bank-keeps main.0 src_shadow_lba src_shadow_sects
        ∙ probe_bank-keeps st src_lba_base src_sects)
]

pub build_stale :
    (st : Store) (items : List Item)
    → st.catalog_valid ≡ false
    → (build st items).1 ≡ (catalog_loop (suc st.sectors) st 1 []).1
unfolding build
build_stale st items e =
    let r = catalog_loop (suc st.sectors) st 1 [] in
    let after : Bool → Store × Built = λ c.
      if c then (st, built items true) else (record r.0 { catalog_valid = r.1.complete }, r.1) in
    ap (λ (c : Bool). (after c).1) e
