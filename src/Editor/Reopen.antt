-- ===== src/Editor/Reopen.antt =====
-- zedit_save and then zedit_start of src/zc_source_editor.h, over src/zc_source_store.h.
use zealos_aarch64_bringup.Base.{ℕ, ◌+◌, ◌≤◌, ◌<◌, ◌≡◌, true, some, List, length}
use zealos_aarch64_bringup.Device.{IsHealthy}
use zealos_aarch64_bringup.Store.Crc.{crc}
use zealos_aarch64_bringup.Store.Name.{name_ok}
use zealos_aarch64_bringup.Store.Record.{Decoded, blocks_of}
use zealos_aarch64_bringup.Store.Record.Laws.{file_record}
use zealos_aarch64_bringup.Store.Bank.{Store, available}
use zealos_aarch64_bringup.Store.Find.{find}
use zealos_aarch64_bringup.Store.Log.Lookup.{Holds}
use zealos_aarch64_bringup.Store.Write.{put}
use zealos_aarch64_bringup.Editor.Text.{Zedit, content}
use zealos_aarch64_bringup.Editor.File.{loaded, start_with}
use zealos_aarch64_bringup.Editor.Edits.{IsText}

module _ (z : Zedit) (st : Store) (tail : ℕ) (ds : List Decoded) (named : name_ok z.name ≡ true)
    (some_text : 0 < z.length) (text : IsText z) (unsaved : z.dirty ≡ true)
    (holds : Holds st tail ds) (h : IsHealthy st.dev)
    (room : tail + 1 + blocks_of (length (content z)) ≤ (available st).0.sectors) where
  after_put : Store
  after_put = (put z.name (content z) st).0

  new : Decoded
  new = file_record tail z.name (length (content z)) (crc (content z))

  looked_up : Store
  looked_up = (find (some z.name) after_put).0

  opened : Zedit → Zedit
  opened w = start_with z.name (loaded w.text (content z)) (length (content z)) true
