-- ===== src/Store/Log/Lookup.antt =====
-- zss_find of src/zc_source_store.h as a whole: the choice of the bank, then the scan.
use zealos_aarch64_bringup.Base.{ℕ, suc, ◌<◌, ◌≡◌, refl, true, false, Option, none, List, arith, ap}
use zealos_aarch64_bringup.Device.{Device, at_request, IsHealthy}
use zealos_aarch64_bringup.Store.Record.{Decoded}
use zealos_aarch64_bringup.Store.Bank.{Store, available}
use zealos_aarch64_bringup.Store.Bank.Select.{available-same, available-fits}
use zealos_aarch64_bringup.Store.Find.{absent, is_bad_name, find_loop, find}
use zealos_aarch64_bringup.Store.Log.{view, IsLog}
use zealos_aarch64_bringup.Store.Log.Scan.{
  whole, Ends, find_loop-Ends, find_loop-healthy, IsHealthy-at_request,
}
use zealos_aarch64_bringup.Store.Log.Frame.{IsLog-le}

pub IsHealthy-later : (d' d : Device) (n : ℕ) → d' ≡ at_request d n → IsHealthy d → IsHealthy d'
IsHealthy-later d' d n e h = rw e (IsHealthy-at_request n h)

-- The bank that zss_available selects holds these records.
pub record Holds (st : Store) (tail : ℕ) (ds : List Decoded) : Type 0 where
  pub selected : (available st).1 ≡ true
  pub log : IsLog (view (available st).0) (available st).0.sectors tail 1 ds

-- The log starts behind the superblock.
pub Holds-ahead : (st : Store) (tail : ℕ) (ds : List Decoded) → Holds st tail ds → 0 < tail
Holds-ahead st tail ds holds =
    let fits = available-fits st holds.selected in
    omega (
      arith,
      IsLog-le (view (available st).0) (view (available st).0) (available st).0.sectors tail 1 ds
          (omega arith) holds.log,
    )

module _ (name : Option (List ℕ)) (st : Store) (tail : ℕ) (ds : List Decoded)
    (named : is_bad_name name ≡ false) (holds : Holds st tail ds) where
  find_step :
      find name st
      ≡ find_loop (suc (available st).0.sectors) name (available st).0 1 0 (absent, none)
  unfolding find
  find_step = rw (named, holds.selected) refl

  -- In a bank that holds a log, whatever the device answers, zss_find of a valid name or of none
  -- writes nothing, does not run out of rounds, and ends in -1 or in the scan of the whole log:
  -- the last record of the name decides, and the tail is the end of the log.
  pub find-Ends : Ends (available st).0 (whole name ds (absent, none) tail 0) (find name st)
  find-Ends =
      let fits = available-fits st holds.selected in
      rw find_step (
        find_loop-Ends (suc (available st).0.sectors) name (available st).0 tail 1 0 (absent, none)
          ds (omega arith) (omega arith) (omega arith) holds.log)

  -- On a device whose requests succeed and in a bank that holds a log, zss_find of a valid name or
  -- of none gives the scan of the whole log.
  pub find-healthy : IsHealthy st.dev → (find name st).1 ≡ whole name ds (absent, none) tail 0
  find-healthy h =
      let fits = available-fits st holds.selected in
      rw find_step (
        find_loop-healthy (suc (available st).0.sectors) name (available st).0 tail 1 0
          (absent, none) ds (IsHealthy-later (available st).0.dev st.dev _ (available-same st) h)
          (omega (arith, ap (λ (d : Device). d.full_capacity) (available-same st))) (omega arith)
          (omega arith) (omega arith) holds.log)
