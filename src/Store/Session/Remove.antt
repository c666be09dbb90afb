-- ===== src/Store/Session/Remove.antt =====
-- zss_delete of src/zc_source_store.h and the lookups after it.
use zealos_aarch64_bringup.Base.{
  ℕ, suc, ◌+◌, ◌<◌, ◌≡◌, ◌≢◌, refl, true, none, some, List, [], ◌∷◌, ◌++◌, arith, length,
  length-append, ◌∙◌,
}
use zealos_aarch64_bringup.Device.{IsHealthy}
use zealos_aarch64_bringup.Store.Name.{name_ok}
use zealos_aarch64_bringup.Store.Record.{Decoded}
use zealos_aarch64_bringup.Store.Record.Tombstone.{tombstone}
use zealos_aarch64_bringup.Store.Bank.{Store, available}
use zealos_aarch64_bringup.Store.Bank.Again.{Holds-again, again-IsHealthy}
use zealos_aarch64_bringup.Store.Find.{absent, found, tombstoned, find}
use zealos_aarch64_bringup.Store.Log.{latest}
use zealos_aarch64_bringup.Store.Log.Lookup.{Holds, Holds-ahead, find-healthy}
use zealos_aarch64_bringup.Store.Write.{delete}
use zealos_aarch64_bringup.Store.Write.Remove.{delete-Appended, delete-Beyond, delete-ok}
use zealos_aarch64_bringup.Store.Session.Put.{Appended-ok}
use zealos_aarch64_bringup.Store.Session.Lookup.{latest-append, update_self, update_ne}

module _ (name : List ℕ) (st : Store) (tail : ℕ) (ds : List Decoded) (named : name_ok name ≡ true)
    (holds : Holds st tail ds) (h : IsHealthy st.dev)
    (present : (latest (some name) ds (absent, none)).0 ≡ found)
    (room : tail < (available st).0.sectors) where
  delete-IsHealthy : IsHealthy (delete name st).0.dev
  delete-IsHealthy =
      again-IsHealthy st (delete name st).0 tail h holds.selected (Holds-ahead st tail ds holds)
        (delete-Beyond name st tail ds named holds present)

  -- On a device whose requests succeed, in a bank that has a sector left and holds a log in which
  -- the name is found, zss_delete of a valid name leaves a store in which the next call selects
  -- the bank again and finds there the records it held and the tombstone of the name at the end.
  pub delete-Holds : Holds (delete name st).0 (tail + 1) (ds ++ tombstone tail name ∷ [])
  delete-Holds =
      Holds-again st (delete name st).0 tail h holds.selected (Holds-ahead st tail ds holds)
        (delete-Beyond name st tail ds named holds present) (tail + 1)
        (ds ++ tombstone tail name ∷ [])
        (Appended-ok (available st).0 tail (tail + 1) ds (tombstone tail name) (delete name st)
          (delete-ok name st tail ds named holds h present room)
          (delete-Appended name st tail ds named holds present))

  dead : Decoded
  dead = tombstone tail name

  gone :
      ((find (some name) (delete name st).0).1.status ≡ tombstoned)
      × ((find (some name) (delete name st).0).1.records ≡ suc (length ds))
  unfolding dead
  gone =
      let after =
        find-healthy (some name) (delete name st).0 (tail + 1) (ds ++ dead ∷ []) (rw named refl)
          delete-Holds delete-IsHealthy in
      let best =
        latest-append (some name) ds dead (absent, none)
        ∙ update_self name dead (latest (some name) ds (absent, none)) refl in
      rw (after, best) (refl, omega (arith, length-append ds (dead ∷ [])))

  same :
      (other : List ℕ)
      → name_ok other ≡ true
      → name ≢ other
      → ((find (some other) (delete name st).0).1.status ≡ (find (some other) st).1.status)
        × ((find (some other) (delete name st).0).1.entry ≡ (find (some other) st).1.entry)
  unfolding dead
  same other fine ne =
      let before = find-healthy (some other) st tail ds (rw fine refl) holds h in
      let after =
        find-healthy (some other) (delete name st).0 (tail + 1) (ds ++ dead ∷ []) (rw fine refl)
          delete-Holds delete-IsHealthy in
      let best =
        latest-append (some other) ds dead (absent, none)
        ∙ update_ne other dead (latest (some other) ds (absent, none)) ne in
      rw (before, after, best) (refl, refl)

  -- On a device whose requests succeed, in a bank that has a sector left and holds a log in which
  -- the name is found, zss_find after zss_delete of a valid name says of the name that it is
  -- tombstoned and counts one record more, and gives for every other valid name the status and the
  -- entry of before.
  pub find-delete :
      (((find (some name) (delete name st).0).1.status ≡ tombstoned)
        × ((find (some name) (delete name st).0).1.records ≡ suc (length ds)))
      × ((other : List ℕ)
          → name_ok other ≡ true
          → name ≢ other
          → ((find (some other) (delete name st).0).1.status ≡ (find (some other) st).1.status)
            × ((find (some other) (delete name st).0).1.entry ≡ (find (some other) st).1.entry))
  find-delete = (gone, same)
