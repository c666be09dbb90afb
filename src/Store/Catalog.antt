-- ===== src/Store/Catalog.antt =====
-- The listing of the store: zss_entry_at of src/zc_source_store.h with `g_zss_catalog`, whose count
-- is the length of a list.
pub mod Items
pub mod Build
pub mod Lookup
mod Tests
use zealos_aarch64_bringup.Base.{
  ℕ, zero, suc, ◌+◌, Bool, true, false, not, ◌&&◌, Option, none, some, List, [], ◌∷◌, ltb, leb,
  ◌==◌, if◌then◌else◌, length,
}
use zealos_aarch64_bringup.Store.Bytes.{is_empty}
use zealos_aarch64_bringup.Store.Name.{str_eq}
use zealos_aarch64_bringup.Store.Record.{Decoded, u32, decode_record}
use zealos_aarch64_bringup.Store.Bank.{Store, sector_read, available}

-- ZSS_CATALOG_CAP
abbrev pub catalog_cap : ℕ
catalog_cap = 4096

-- `struct zss_catalog_item`; `deleted` stands for the status -3 in place of 1.
pub record Item : Type 0 where
  pub name : List ℕ
  pub size : ℕ
  pub deleted : Bool

abbrev pub item_of : Decoded → Item
item_of d = record { name = d.name; size = d.entry.length; deleted = d.deleted }

-- The loop over the catalog comes to an item of this name.
unfoldable pub is_listed : List ℕ → List Item → Bool
is_listed name [] = false
is_listed name (x ∷ xs) = let rest = is_listed name xs in if str_eq x.name name then true else rest

-- The first item of this name is replaced, or else one is added.
unfoldable pub place : Item → List Item → List Item
place item [] = item ∷ []
place item (x ∷ xs) =
    let rest = place item xs in if str_eq x.name item.name then item ∷ xs else x ∷ rest

-- `none` is a full catalog.
unfoldable pub enter : Item → List Item → Option (List Item)
enter item items =
    if not (is_listed item.name items) && leb catalog_cap (length items)
    then none
    else some (place item items)

-- The catalog after the loop; one that is not complete ends the call in 0.
pub record Built : Type 0 where
  pub items : List Item
  pub complete : Bool

abbrev pub built : List Item → Bool → Built
built items complete = record { items = items; complete = complete }

-- `while (pos < g_zss_sectors)`
unfoldable pub catalog_loop : ℕ → Store → ℕ → List Item → Store × Built
catalog_loop zero st pos items = (st, built items false)
catalog_loop (suc fuel) st pos items = elim (ltb pos st.sectors) [
  | false ↦ (st, built items true)
  | true ↦
      let (st', r) = sector_read st pos in
      elim r [
        | none ↦ (st', built items false)
        | some sector ↦ elim (is_empty sector) [
          | true ↦ (st', built items true)
          | false ↦ elim (decode_record sector pos st'.sectors) [
            | none ↦ (st', built items false)
            | some d ↦ elim (enter (item_of d) items) [
              | none ↦ (st', built items false)
              | some items' ↦ catalog_loop fuel st' (u32 (pos + 1 + d.entry.blocks)) items'
            ]
          ]
        ]
      ]
]

-- `if (!g_zss_catalog_valid)`
unfoldable pub build : Store → List Item → Store × Built
build st items =
    if st.catalog_valid
    then (st, built items true)
    else let (st', b) = catalog_loop (suc st.sectors) st 1 [] in
      (record st' { catalog_valid = b.complete }, b)

-- `wanted >= g_zss_catalog_count` or `&g_zss_catalog[wanted]`
unfoldable pub item_at : ℕ → List Item → Option Item
item_at wanted [] = none
item_at zero (x ∷ xs) = some x
item_at (suc wanted) (x ∷ xs) = item_at wanted xs

-- The item goes out where the buffer has room for its name.
unfoldable pub copy_out : ℕ → Option Item → Option Item
copy_out name_cap none = none
copy_out name_cap (some item) = if ltb name_cap (length item.name + 1) then none else some item

-- zss_entry_at: the store, the catalog, and the item that it gives out, or `none` for its 0.
unfoldable pub entry_at : ℕ → ℕ → Store → List Item → Store × (List Item × Option Item)
entry_at wanted name_cap st items =
    if name_cap == 0
    then (st, (items, none))
    else let (st', ok) = available st in
      if not ok
      then (st', (items, none))
      else let (st2, b) = build st' items in
        (st2, (b.items, if b.complete then copy_out name_cap (item_at wanted b.items) else none))
