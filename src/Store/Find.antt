-- ===== src/Store/Find.antt =====
-- The scan of the log: zss_find of src/zc_source_store.h.
use zealos_aarch64_bringup.Base.{
  ℕ, zero, suc, ◌+◌, Bool, true, false, not, Option, none, some, List, ltb, if◌then◌else◌,
}
use zealos_aarch64_bringup.Store.Bytes.{is_empty}
use zealos_aarch64_bringup.Store.Name.{str_eq, name_ok}
use zealos_aarch64_bringup.Store.Record.{Entry, Decoded, u32, decode_record}
use zealos_aarch64_bringup.Store.Bank.{Store, sector_read, available}

-- 1, 0, -1, -2 and -3; `stuck` is a loop out of fuel.
pub data Status : Type 0 where
  found absent damaged unavailable tombstoned stuck : Status

-- The result with `*out`, `*out_tail` and `*out_records`.
pub record Scan : Type 0 where
  pub status : Status
  pub entry : Option Entry
  pub tail : ℕ
  pub records : ℕ

-- A scan that ends early sets neither of the last two.
abbrev pub aborted : Status → Option Entry → Scan
aborted s e = record { status = s; entry = e; tail = 0; records = 0 }

-- `name && zss_str_eq(record_name, name)`
unfoldable pub matches : Option (List ℕ) → List ℕ → Bool
matches none record_name = false
matches (some name) record_name = str_eq record_name name

-- What the loop knows of the name so far: `found` and `*out`.
abbrev pub Best : Type 0
Best = Status × Option Entry

unfoldable pub update : Option (List ℕ) → Decoded → Best → Best
update name d best =
    if matches name d.name then (if d.deleted then tombstoned else found, some d.entry) else best

-- `while (pos < g_zss_sectors)`
unfoldable pub find_loop : ℕ → Option (List ℕ) → Store → ℕ → ℕ → Best → Store × Scan
find_loop zero name st pos records best = (st, aborted stuck none)
find_loop (suc fuel) name st pos records best =
    let finished : Scan = record {
      status = best.0;
      entry = best.1;
      tail = pos;
      records = records;
    } in
    elim (ltb pos st.sectors) [
      | false ↦ (st, finished)
      | true ↦
          let (st', r) = sector_read st pos in
          elim r [
            | none ↦ (st', aborted damaged best.1)
            | some sector ↦ elim (is_empty sector) [
              | true ↦ (st', finished)
              | false ↦ elim (decode_record sector pos st'.sectors) [
                | none ↦ (st', aborted damaged best.1)
                | some d ↦
                    find_loop fuel name st' (u32 (pos + 1 + d.entry.blocks)) (records + 1)
                      (update name d best)
              ]
            ]
          ]
    ]

abbrev pub is_bad_name : Option (List ℕ) → Bool
is_bad_name none = false
is_bad_name (some name) = not (name_ok name)

unfoldable pub find : Option (List ℕ) → Store → Store × Scan
find name st =
    if is_bad_name name
    then (st, aborted damaged none)
    else let (st', ok) = available st in
      if not ok
      then (st', aborted unavailable none)
      else find_loop (suc st'.sectors) name st' 1 0 (absent, none)
