-- ===== src/Editor/Command.antt =====
-- The commands of the editor: zedit_handle_command and zedit_handle of src/zc_source_editor.h. A line
-- is the list of its characters before the terminator.
mod Replies
mod Lines
unfoldable pub use Replies.*
unfoldable pub use Lines.*
use zealos_aarch64_bringup.Base.{
  ℕ, ◌+◌, ◌-◌, ◌^◌, Bool, true, false, not, ◌&&◌, ◌||◌, Option, none, some, List, [], ◌∷◌, ltb, leb,
  ◌==◌, if◌then◌else◌, get_or, drop,
}
use zealos_aarch64_bringup.Store.Name.{str_eq}
use zealos_aarch64_bringup.Store.Record.{u32}
use zealos_aarch64_bringup.Store.Bank.{Store}
use zealos_aarch64_bringup.Editor.Text.{Zedit, lines, bounds, splice, delete_line}
use zealos_aarch64_bringup.Editor.Input.{number}
use zealos_aarch64_bringup.Editor.View.{Screen, Printed, page_rows, reveal_cursor, render, print}
use zealos_aarch64_bringup.Editor.File.{SaveReply, is_saved, save}

-- `q` and `q!`
unfoldable pub quit : List ℕ → Zedit → Zedit × Reply
quit line z =
    if z.dirty && not (char_at line 1 == b'!')
    then (z, Reply.unsaved_changes)
    else (record z { active = false }, if z.dirty then Reply.discarded_changes else Reply.closed)

-- `w` and `wq`
unfoldable pub write : List ℕ → Zedit → Store → (Zedit × Store) × Reply
write line z st =
    let ((z', st'), reply) = save z st in
    (
      (if is_saved reply && char_at line 1 == b'q' then record z' { active = false } else z', st'),
      Reply.save_reply reply,
    )

-- `while (*p == ' ') p++;`
unfoldable pub skip_spaces : List ℕ → List ℕ
skip_spaces [] = []
skip_spaces (c ∷ cs) = let rest = skip_spaces cs in if c == b' ' then rest else c ∷ cs

-- The second argument of `p`, with its default; `none` asks for the help.
unfoldable pub print_count : List ℕ → Option (ℕ × List ℕ)
print_count p = if char_at p 0 == b' ' then number (skip_spaces p) else some (20, p)

-- The arguments of `p`.
unfoldable pub print_arguments : List ℕ → Option (ℕ × ℕ)
print_arguments [] = some (1, 20)
print_arguments (c ∷ cs) = elim (number (skip_spaces (c ∷ cs))) [
  | none ↦ none
  | some (first, p) ↦ elim (print_count p) [
    | none ↦ none
    | some (count, p') ↦ if is_end p' then some (first, count) else none
  ]
]

-- `p [line [count]]`
unfoldable pub print_command : List ℕ → Zedit → Zedit × Reply
print_command line z = elim (print_arguments (drop 1 line)) [
  | none ↦ (z, Reply.help)
  | some (first, count) ↦ (
    record z {
      view_first = first;
      view_count = count;
      cursor_line = if leb first (lines z) then first else z.cursor_line;
    },
    Reply.print_reply (print z first count),
  )
]

-- Where `j`, `k`, `[`, `]`, `g` and `G` go from `cursor`, before the clamp.
unfoldable pub moved_cursor : Screen → List ℕ → ℕ → ℕ → ℕ
moved_cursor screen line total cursor =
    let step = page_rows screen in
    let remaining = u32 (total + 2 ^ 32 - cursor) in
    if str_eq line (b'j' ∷ [])
    then (if ltb cursor total then u32 (cursor + 1) else cursor)
    else if str_eq line (b'k' ∷ [])
    then (if ltb 1 cursor then cursor - 1 else cursor)
    else if str_eq line (b'[' ∷ [])
    then (if ltb step cursor then cursor - step else 1)
    else if str_eq line (b']' ∷ [])
    then (if total == 0
        then cursor
        else u32 (cursor + (if ltb step remaining then step else remaining)))
    else if str_eq line (b'g' ∷ [])
    then 1
    else if total == 0
    then cursor
    else total

unfoldable pub move_cursor : Screen → List ℕ → Zedit → Zedit × Reply
move_cursor screen line z =
    let to = clamp_cursor (lines z) (moved_cursor screen line (lines z) z.cursor_line) in
    (reveal_cursor screen (record z { cursor_line = to }), Reply.cursor_line to)

-- `i`, `c` and `d` once the number `at` is read from `line`, with `p` behind it
unfoldable pub at_number : ℕ → ℕ → List ℕ → Zedit → Zedit × Reply
at_number command at p z =
    if command == b'd'
    then delete_number at p z
    else if not (char_at p 0 == b' ')
    then (z, Reply.help)
    else if command == b'i'
    then insert_number at (drop 1 p) z
    else change_number at (drop 1 p) z

unfoldable pub numbered : List ℕ → Zedit → Zedit × Reply
numbered line z = elim (number (drop 2 line)) [
  | none ↦ (z, Reply.help)
  | some (at, p) ↦ at_number (char_at line 0) at p z
]

abbrev pub is_move : List ℕ → Bool
is_move line =
    str_eq line (b'j' ∷ [])
    || str_eq line (b'k' ∷ [])
    || str_eq line (b'[' ∷ [])
    || str_eq line (b']' ∷ [])
    || str_eq line (b'g' ∷ [])
    || str_eq line (b'G' ∷ [])

-- The commands that leave the store alone.
unfoldable pub text_command : Screen → List ℕ → Zedit → Zedit × Reply
text_command screen line z =
    let first = char_at line 0 in
    let second = char_at line 1 in
    if first == b'p' && (second == 0 || second == b' ')
    then print_command line z
    else if is_move line
    then move_cursor screen line z
    else if first == b'e' && second == b' '
    then edit (drop 2 line) z
    else if first == b'n' && second == b' '
    then insert (drop 2 line) z
    else if str_eq line (b'x' ∷ [])
    then delete_selected z
    else if first == b'a' && (second == 0 || second == b' ')
    then append (drop 2 line) z
    else if (first == b'i' || first == b'c' || first == b'd') && second == b' '
    then numbered line z
    else (z, Reply.help)

abbrev pub is_help : List ℕ → Bool
is_help line =
    char_at line 0 == 0 || str_eq line (b'h' ∷ []) || str_eq line (b'h' ∷ b'e' ∷ b'l' ∷ b'p' ∷ [])

-- zedit_handle_command
unfoldable pub handle_command : Screen → List ℕ → Zedit → Store → (Zedit × Store) × Reply
handle_command screen line z st =
    let (quitted, quit_reply) = quit line z in
    let (changed, reply) = text_command screen line z in
    if is_help line
    then ((z, st), Reply.help)
    else if str_eq line (b'q' ∷ []) || str_eq line (b'q' ∷ b'!' ∷ [])
    then ((quitted, st), quit_reply)
    else if str_eq line (b'w' ∷ []) || str_eq line (b'w' ∷ b'q' ∷ [])
    then write line z st
    else ((changed, st), reply)

-- zedit_handle, less the clearing of the screen
unfoldable pub handle : Screen → List ℕ → Zedit → Store → (Zedit × Store) × Reply
handle screen line z st =
    let ((z', st'), reply) = handle_command screen line z st in
    ((if z'.active then render screen z' else z', st'), reply)
