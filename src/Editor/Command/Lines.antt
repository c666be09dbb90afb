-- ===== src/Editor/Command/Lines.antt =====
-- The commands of zedit_handle_command, src/zc_source_editor.h, that change the text.
use zealos_aarch64_bringup.Base.{
  ℕ, ◌+◌, ◌-◌, true, false, Option, none, some, List, ltb, leb, ◌==◌, if◌then◌else◌,
}
use zealos_aarch64_bringup.Store.Record.{u32}
use zealos_aarch64_bringup.Editor.Text.{Zedit, lines, bounds, splice, delete_line}
use zealos_aarch64_bringup.Editor.Input.{number}
use zealos_aarch64_bringup.Editor.Command.Replies.{Reply, is_end, clamp_cursor}

-- `e <text>`
unfoldable pub edit : List ℕ → Zedit → Zedit × Reply
edit body z = elim (bounds z z.cursor_line) [
  | none ↦ (z, Reply.cursor_out_of_range)
  | some (start, end) ↦ elim (splice z start end body false) [
    | none ↦ (z, Reply.too_long)
    | some z' ↦ (z', Reply.edited_line z'.cursor_line)
  ]
]

-- Where a line is put in: at the end for the number behind the last line.
unfoldable pub insert_bounds : Zedit → ℕ → Option (ℕ × ℕ)
insert_bounds z number =
    if number == u32 (lines z + 1) then some (z.length, z.length) else bounds z number

-- `n <text>`
unfoldable pub insert : List ℕ → Zedit → Zedit × Reply
insert body z = elim (insert_bounds z z.cursor_line) [
  | none ↦ (z, Reply.cursor_out_of_range)
  | some (start, end) ↦ elim (splice z start start body (z.cursor_line == u32 (lines z + 1))) [
    | none ↦ (z, Reply.too_long)
    | some z' ↦ (z', Reply.inserted_line z'.cursor_line)
  ]
]

-- `x`
unfoldable pub delete_selected : Zedit → Zedit × Reply
delete_selected z = elim (delete_line z z.cursor_line) [
  | none ↦ (z, Reply.cursor_out_of_range)
  | some z' ↦
      (record z' { cursor_line = clamp_cursor (lines z') z'.cursor_line }, Reply.deleted_selected)
]

-- `a <text>`
unfoldable pub append : List ℕ → Zedit → Zedit × Reply
append body z = elim (splice z z.length z.length body true) [
  | none ↦ (z, Reply.too_long)
  | some z' ↦ (z', Reply.added_line (u32 (lines z + 1)))
]

-- `d <line>`, where `p` stands behind the number
unfoldable pub delete_number : ℕ → List ℕ → Zedit → Zedit × Reply
delete_number at p z = elim (if is_end p then delete_line z at else none) [
  | none ↦ (z, Reply.line_out_of_range)
  | some z' ↦
      let cursor = if ltb at z'.cursor_line then z'.cursor_line - 1 else z'.cursor_line in
      (record z' { cursor_line = clamp_cursor (lines z') cursor }, Reply.deleted_line at)
]

-- `i <line> <text>`
unfoldable pub insert_number : ℕ → List ℕ → Zedit → Zedit × Reply
insert_number at body z = elim (insert_bounds z at) [
  | none ↦ (z, Reply.line_out_of_range)
  | some (start, end) ↦ elim (splice z start start body (at == u32 (lines z + 1))) [
    | none ↦ (z, Reply.too_long)
    | some z' ↦ (
      record z' {
        cursor_line = if leb at z'.cursor_line then u32 (z'.cursor_line + 1) else z'.cursor_line;
      },
      Reply.inserted_line at,
    )
  ]
]

-- `c <line> <text>`
unfoldable pub change_number : ℕ → List ℕ → Zedit → Zedit × Reply
change_number at body z = elim (bounds z at) [
  | none ↦ (z, Reply.line_out_of_range)
  | some (start, end) ↦ elim (splice z start end body false) [
    | none ↦ (z, Reply.too_long)
    | some z' ↦ (z', Reply.changed_line at)
  ]
]
