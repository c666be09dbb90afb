-- ===== src/Store/Catalog/Lookup.antt =====
-- The listing of zss_entry_at against the lookups of zss_find, src/zc_source_store.h.
use zealos_aarch64_bringup.Base.{
  ℕ, suc, ◌≤◌, ◌<◌, ◌≡◌, ◌⊎◌, inl, inr, refl, Option-cases, true, false, Option, none, some, List,
  [], ◌==◌, if◌then◌else◌, length, arith, ap, sym, ◌∙◌,
}
use zealos_aarch64_bringup.Device.{Device, IsHealthy}
use zealos_aarch64_bringup.Store.Name.{name_ok, max_name}
use zealos_aarch64_bringup.Store.Name.Laws.{name_ok-length}
use zealos_aarch64_bringup.Store.Record.{Decoded}
use zealos_aarch64_bringup.Store.Bank.{Store, available}
use zealos_aarch64_bringup.Store.Bank.Select.{available-same, available-fits}
use zealos_aarch64_bringup.Store.Find.{absent, is_bad_name, Scan, find}
use zealos_aarch64_bringup.Store.Log.{view}
use zealos_aarch64_bringup.Store.Log.Lookup.{Holds, find-healthy, IsHealthy-later}
use zealos_aarch64_bringup.Store.Catalog.{
  Item, item_at, catalog_cap, Built, built, build, copy_out, entry_at,
}
use zealos_aarch64_bringup.Store.Catalog.Items.{
  listing, first_of, known, first_of-listing, IsCatalog, item_at-first_of, first_of-item_at,
}
use zealos_aarch64_bringup.Store.Catalog.Build.{
  catalog_loop-healthy, listing-IsCatalog, available-keeps, build_stale,
}

copy_out_lem :
    (name_cap : ℕ) (item : Item)
    → max_name < name_cap
    → name_ok item.name ≡ true
    → copy_out name_cap (some item) ≡ some item
unfolding copy_out
copy_out_lem name_cap item room named = let bounds = name_ok-length item.name named in ground arith

-- What zss_entry_at gives out.
abbrev pub given : Store → List Item → ℕ → ℕ → Option Item
given st items name_cap wanted = (entry_at wanted name_cap st items).1.1

-- What zss_find says of a name.
abbrev pub said : Store → List ℕ → Option Item
said st name = let scan = (find (some name) st).1 in known name (scan.status, scan.entry)

module _ (st : Store) (tail : ℕ) (ds : List Decoded) (items : List Item) (name_cap : ℕ)
    (healthy : IsHealthy st.dev) (holds : Holds st tail ds) (stale : st.catalog_valid ≡ false)
    (few : length ds ≤ catalog_cap) (room : max_name < name_cap) where
  all : List Item
  all = listing ds []

  all-IsCatalog : IsCatalog all
  unfolding all
  all-IsCatalog =
      listing-IsCatalog (view (available st).0) (available st).0.sectors tail 1 ds [] holds.log tt

  build_lem : (build (available st).0 items).1 ≡ built all true
  unfolding all
  build_lem =
      let fits = available-fits st holds.selected in
      build_stale (available st).0 items (available-keeps st ∙ stale)
      ∙ catalog_loop-healthy (suc (available st).0.sectors) (available st).0 tail 1 [] ds
          (IsHealthy-later (available st).0.dev st.dev _ (available-same st) healthy)
          (omega (arith, ap (λ (d : Device). d.full_capacity) (available-same st))) (omega arith)
          (omega arith) (omega arith) (omega arith) holds.log

  entry_at_lem :
      (wanted : ℕ)
      → entry_at wanted name_cap st items ≡ (
        (build (available st).0 items).0,
        (
          (build (available st).0 items).1.items,
          if (build (available st).0 items).1.complete
              then copy_out name_cap (item_at wanted (build (available st).0 items).1.items)
              else none,
        ),
      )
  unfolding entry_at
  entry_at_lem wanted =
      let has_room : (name_cap == 0) ≡ false = ground arith in rw (has_room, holds.selected) refl

  given_lem : (wanted : ℕ) → given st items name_cap wanted ≡ copy_out name_cap (item_at wanted all)
  given_lem wanted =
      ap (λ (r : Store × (List Item × Option Item)). r.1.1) (entry_at_lem wanted)
      ∙ ap (λ (b : Built). if b.complete then copy_out name_cap (item_at wanted b.items) else none)
          build_lem

  said_lem : (name : List ℕ) → name_ok name ≡ true → said st name ≡ first_of name all
  unfolding all
  said_lem name named =
      let fine : is_bad_name (some name) ≡ false = ground arith in
      ap (λ (s : Scan). known name (s.status, s.entry))
        (find-healthy (some name) st tail ds fine holds healthy)
      ∙ sym (first_of-listing name ds [] (absent, none) refl)

  said_at :
      (wanted : ℕ) (item : Item) → item_at wanted all ≡ some item → said st item.name ≡ some item
  said_at wanted item e =
      let (first, named) = item_at-first_of wanted all item all-IsCatalog e in
      said_lem item.name named ∙ first

  given_at :
      (wanted : ℕ) (item : Item)
      → item_at wanted all ≡ some item
      → given st items name_cap wanted ≡ some item
  given_at wanted item e =
      let (first, named) = item_at-first_of wanted all item all-IsCatalog e in
      given_lem wanted ∙ ap (λ o. copy_out name_cap o) e ∙ copy_out_lem name_cap item room named

  given_missing : (wanted : ℕ) → item_at wanted all ≡ none → given st items name_cap wanted ≡ none
  unfolding copy_out
  given_missing wanted e = given_lem wanted ∙ ap (λ o. copy_out name_cap o) e

  -- On a device whose requests succeed, in a bank that holds a log of at most 4096 records, with a
  -- catalog to be built anew and a buffer for the longest name: what zss_find says of a valid name,
  -- its size and whether it is deleted, zss_entry_at gives out at some number, and nothing at some
  -- number where zss_find knows no such name; and at every number zss_entry_at gives out nothing or
  -- what zss_find says of the name that it gives out.
  pub entry_at-find :
      (name : List ℕ)
      → name_ok name ≡ true
      → (other : ℕ)
      → ((wanted : ℕ) × (given st items name_cap wanted ≡ said st name))
        × ((given st items name_cap other ≡ none)
            ⊎ ((item : Item) × (given st items name_cap other ≡ some item)
                × (said st item.name ≡ some item)))
  entry_at-find name named other =
      let (wanted, at) = first_of-item_at name all in
      (
        (
          wanted,
          elim (Option-cases (first_of name all)) [
            | inl e ↦ given_missing wanted (at ∙ e) ∙ sym (said_lem name named ∙ e)
            | inr (item, e) ↦ given_at wanted item (at ∙ e) ∙ sym (said_lem name named ∙ e)
          ],
        ),
        elim (Option-cases (item_at other all)) [
          | inl e ↦ inl (given_missing other e)
          | inr (item, e) ↦ inr (item, given_at other item e, said_at other item e)
        ],
      )
