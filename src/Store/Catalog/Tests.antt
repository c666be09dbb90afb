-- ===== src/Store/Catalog/Tests.antt =====
-- Runs of the catalog of src/zc_source_store.h, and the theorem on it at a disk with one file.
use zealos_aarch64_bringup.Base.{ℕ, ◌≡◌, ◌⊎◌, refl, true, false, none, some, [], ◌∷◌, arith}
use zealos_aarch64_bringup.Store.Name.{str_eq}
use zealos_aarch64_bringup.Device.{read_abs, rejects, read_sector}
use zealos_aarch64_bringup.Store.Bytes.{put_bytes, eq_bytes, u32_at, w32}
use zealos_aarch64_bringup.Store.Bank.{
  Store, bank_read, superblock, probe_bank, choose_bank, available,
}
use zealos_aarch64_bringup.Store.Log.Lookup.{Holds}
use zealos_aarch64_bringup.Store.Catalog.{Item, is_listed, place, enter, item_at, copy_out}
use zealos_aarch64_bringup.Store.Catalog.Lookup.{given, said, entry_at-find}
use zealos_aarch64_bringup.Store.Tests.{
  name_a, name_b, one_file, record_a, single, one_file-Holds, disk-IsHealthy, name_a-ok,
}

abbrev item_a : Item
item_a = record { name = name_a; size = 1; deleted = false }

abbrev item_b : Item
item_b = record { name = name_b; size = 2; deleted = false }

abbrev gone_a : Item
gone_a = record { name = name_a; size = 0; deleted = true }

replaced : enter gone_a (item_a ∷ (item_b ∷ [])) ≡ some (gone_a ∷ (item_b ∷ []))
unfolding enter is_listed place str_eq
replaced = refl

added : enter item_b (item_a ∷ []) ≡ some (item_a ∷ (item_b ∷ []))
unfolding enter is_listed place str_eq
added = refl

behind_the_last : item_at 1 (item_a ∷ []) ≡ none
unfolding item_at
behind_the_last = refl

buffer_too_small : copy_out 1 (some item_a) ≡ none
unfolding copy_out
buffer_too_small = refl

abbrev stale : Store
stale = record single { catalog_valid = false }

stale-Holds : Holds stale 3 (record_a ∷ [])
unfolding available probe_bank choose_bank bank_read superblock u32_at w32 put_bytes eq_bytes
    read_abs rejects read_sector
stale-Holds = record { selected = refl; log = one_file-Holds.log }

entry_at-find_example :
    ((wanted : ℕ) × (given stale [] 96 wanted ≡ said stale name_a))
    × ((given stale [] 96 0 ≡ none)
        ⊎ ((item : Item) × (given stale [] 96 0 ≡ some item) × (said stale item.name ≡ some item)))
entry_at-find_example =
    entry_at-find stale 3 (record_a ∷ []) [] 96 (disk-IsHealthy one_file) stale-Holds refl
      (omega arith) (omega arith) name_a name_a-ok 0
