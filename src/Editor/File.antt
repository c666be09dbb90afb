-- ===== src/Editor/File.antt =====
-- Opening and saving: zedit_start and zedit_save of src/zc_source_editor.h over the source store.
use zealos_aarch64_bringup.Base.{
  ℕ, ◌+◌, Bool, true, false, not, ◌&&◌, Option, none, some, List, [], ◌∷◌, length, ◌==◌,
  if◌then◌else◌,
}
use zealos_aarch64_bringup.Store.Bytes.{set_byte, put_bytes}
use zealos_aarch64_bringup.Store.Name.{name_ok}
use zealos_aarch64_bringup.Store.Record.{Entry, max_file}
use zealos_aarch64_bringup.Store.Bank.{Store}
use zealos_aarch64_bringup.Store.Find.{Status, find}
use zealos_aarch64_bringup.Store.Read.{read}
use zealos_aarch64_bringup.Store.Write.{Code, put}
use zealos_aarch64_bringup.Editor.Text.{Buffer, Zedit, content, lines}
use zealos_aarch64_bringup.Editor.View.{Screen, render}

-- What zedit_save puts on the console.
pub data SaveReply : Type 0 where
  unchanged : SaveReply
  empty_source : SaveReply
  partition_full : SaveReply
  partition_unavailable : SaveReply
  save_failed : SaveReply
  saved : List ℕ → ℕ → SaveReply

-- `return 0`
unfoldable pub is_saved : SaveReply → Bool
is_saved SaveReply.unchanged = true
is_saved SaveReply.empty_source = false
is_saved SaveReply.partition_full = false
is_saved SaveReply.partition_unavailable = false
is_saved SaveReply.save_failed = false
is_saved (SaveReply.saved name length) = true

-- What zedit_save makes of the result of zss_put; `none` is 0.
unfoldable pub save_error : Code → Option SaveReply
save_error Code.ok = none
save_error Code.full = some SaveReply.partition_full
save_error Code.unavailable = some SaveReply.partition_unavailable
save_error Code.invalid = some SaveReply.save_failed
save_error Code.missing = some SaveReply.save_failed
save_error Code.unflushed = some SaveReply.save_failed

-- zedit_save
unfoldable pub save : Zedit → Store → (Zedit × Store) × SaveReply
save z st =
    if not z.dirty && z.existed
    then ((z, st), SaveReply.unchanged)
    else if z.length == 0
    then ((z, st), SaveReply.empty_source)
    else let (st', result) = put z.name (content z) st in
      elim (save_error result) [
        | some reply ↦ ((z, st'), reply)
        | none ↦
            ((record z { dirty = false; existed = true }, st'), SaveReply.saved z.name z.length)
      ]

-- What zedit_start puts on the console: the name with its lines and bytes where it opens.
pub data StartReply : Type 0 where
  bad_name : StartReply
  no_partition : StartReply
  damaged_catalog : StartReply
  read_failed : StartReply
  nul_byte : StartReply
  opened : List ℕ → ℕ → ℕ → StartReply
  fresh : List ℕ → ℕ → ℕ → StartReply

-- `if (!g_zedit.text[i])` for some `i`
unfoldable pub has_nul : List ℕ → Bool
has_nul [] = false
has_nul (c ∷ cs) = let rest = has_nul cs in if c == 0 then true else rest

-- The part of zedit_start behind the checks; `existed` is `found == 1`.
unfoldable pub start_with : List ℕ → Buffer → ℕ → Bool → Zedit
start_with name text length existed = record {
  name = name;
  length = length;
  view_first = 1;
  view_count = 0;
  cursor_line = 1;
  active = true;
  dirty = false;
  existed = existed;
  text = text;
}

-- What zss_read leaves in `g_zedit.text`: the file and its terminator.
abbrev pub loaded : Buffer → List ℕ → Buffer
loaded text src = set_byte (put_bytes text 0 src) (length src) 0

-- zedit_start for a file that is there.
unfoldable pub open_file :
    Screen → List ℕ → Option Entry → Zedit → Store → (Zedit × Store) × StartReply
open_file screen name none z st = ((z, st), StartReply.read_failed)
open_file screen name (some entry) z st =
    let (st', r) = read entry (max_file + 1) st in
    elim r [
      | none ↦ ((z, st'), StartReply.read_failed)
      | some src ↦
          let z' = start_with name (loaded z.text src) (length src) true in
          if has_nul src
          then ((record z { text = loaded z.text src }, st'), StartReply.nul_byte)
          else ((render screen z', st'), StartReply.opened name (lines z') (length src))
    ]

-- zedit_start for a new file.
unfoldable pub open_new : Screen → List ℕ → Zedit → Zedit × StartReply
open_new screen name z =
    let z' = start_with name (set_byte z.text 0 0) 0 false in
    (render screen z', StartReply.fresh name (lines z') 0)

-- zedit_start; the bytes that a failing read leaves in `text` are not kept.
unfoldable pub start : Screen → List ℕ → Zedit → Store → (Zedit × Store) × StartReply
start screen name z st =
    if not (name_ok name)
    then ((z, st), StartReply.bad_name)
    else let (st', scan) = find (some name) st in
      let (created, reply) = open_new screen name z in
      elim scan.status [
        | Status.unavailable ↦ ((z, st'), StartReply.no_partition)
        | Status.damaged ↦ ((z, st'), StartReply.damaged_catalog)
        | Status.stuck ↦ ((z, st'), StartReply.damaged_catalog)
        | Status.found ↦ open_file screen name scan.entry z st'
        | Status.absent ↦ ((created, st'), reply)
        | Status.tombstoned ↦ ((created, st'), reply)
      ]
