-- ===== src/Store/Log.antt =====
-- The log as a list of records: what zss_find of src/zc_source_store.h walks over.
pub mod Frame
pub mod Lookup
pub mod Scan
use zealos_aarch64_bringup.Base.{
  ℕ, ◌+◌, ◌≤◌, ◌<◌, ◌≡◌, ◌⊎◌, true, false, Option, some, List, [], ◌∷◌,
}
use zealos_aarch64_bringup.Device.{Sector, at_request}
use zealos_aarch64_bringup.Store.Bytes.{is_empty}
use zealos_aarch64_bringup.Store.Record.{Decoded, decode_record}
use zealos_aarch64_bringup.Store.Bank.{Store}
use zealos_aarch64_bringup.Store.Find.{Best, update}

-- The sectors of the selected bank.
abbrev pub view : Store → ℕ → Sector
view st k = st.dev.medium (st.base + k)

-- The store after requests that left the medium alone.
abbrev pub at_time : Store → ℕ → Store
at_time st n = record st { dev = at_request st.dev n }

-- From sector `pos` on the headers hold these records, and the free space begins at `tail`.
abbrev pub IsLog : (ℕ → Sector) → ℕ → ℕ → ℕ → List Decoded → Type 0
IsLog v sectors tail pos [] = (pos ≡ tail) × ((sectors ≤ tail) ⊎ (is_empty (v tail) ≡ true))
IsLog v sectors tail pos (d ∷ ds) =
    (pos < sectors)
    × (is_empty (v pos) ≡ false)
    × (decode_record (v pos) pos sectors ≡ some d)
    × IsLog v sectors tail (pos + 1 + d.entry.blocks) ds

-- What a scan for a name comes to: each record that matches replaces what was known.
unfoldable pub latest : Option (List ℕ) → List Decoded → Best → Best
latest name [] best = best
latest name (d ∷ ds) best = latest name ds (update name d best)
