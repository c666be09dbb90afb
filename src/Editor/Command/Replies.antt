-- ===== src/Editor/Command/Replies.antt =====
-- What the commands of src/zc_source_editor.h print, and how they read a line.
use zealos_aarch64_bringup.Base.{
  ℕ, Bool, true, false, List, [], ◌∷◌, ltb, ◌==◌, if◌then◌else◌, get_or,
}
use zealos_aarch64_bringup.Editor.View.{Printed}
use zealos_aarch64_bringup.Editor.File.{SaveReply}

-- What a command puts on the console.
pub data Reply : Type 0 where
  help : Reply
  unsaved_changes : Reply
  discarded_changes : Reply
  closed : Reply
  save_reply : SaveReply → Reply
  print_reply : Printed → Reply
  cursor_line : ℕ → Reply
  cursor_out_of_range : Reply
  line_out_of_range : Reply
  too_long : Reply
  edited_line : ℕ → Reply
  inserted_line : ℕ → Reply
  changed_line : ℕ → Reply
  added_line : ℕ → Reply
  deleted_line : ℕ → Reply
  deleted_selected : Reply

-- The character of a line at `i`: 0 behind the end.
abbrev pub char_at : List ℕ → ℕ → ℕ
char_at line i = get_or line i 0

abbrev pub is_end : List ℕ → Bool
is_end [] = true
is_end (c ∷ cs) = false

-- `if (cursor_line > lines && lines) cursor_line = lines; if (!lines) cursor_line = 1;`
unfoldable pub clamp_cursor : ℕ → ℕ → ℕ
clamp_cursor total cursor = if total == 0 then 1 else if ltb total cursor then total else cursor
