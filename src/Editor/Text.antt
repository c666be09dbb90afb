-- ===== src/Editor/Text.antt =====
-- The text of the editor: `g_zedit`, zedit_lines, zedit_bounds, zedit_splice and zedit_delete_line of
-- src/zc_source_editor.h.
pub mod Move
pub mod Splice
pub mod Lines
pub mod Bounds
pub mod Number
pub mod Positions
pub mod Refine
use zealos_aarch64_bringup.Base.{
  ℕ, zero, suc, ◌+◌, ◌-◌, ◌%◌, ◌^◌, Bool, true, false, not, ◌&&◌, ◌||◌, Option, none, some, List,
  [], ◌∷◌, length, ltb, leb, ◌==◌, if◌then◌else◌,
}
use zealos_aarch64_bringup.Store.Bytes.{set_byte, put_bytes, read_bytes}
use zealos_aarch64_bringup.Store.Record.{max_file, u32}

-- `char text[ZSS_MAX_FILE + 1u]`: the byte at each offset.
abbrev pub Buffer : Type 0
Buffer = ℕ → ℕ

abbrev pub newline : ℕ
newline = 10

-- `g_zedit`; `name` is the characters before the terminator.
pub record Zedit : Type 0 where
  pub name : List ℕ
  pub length : ℕ
  pub view_first : ℕ
  pub view_count : ℕ
  pub cursor_line : ℕ
  pub active : Bool
  pub dirty : Bool
  pub existed : Bool
  pub text : Buffer

-- What the editor holds: the bytes before `length`.
abbrev pub content : Zedit → List ℕ
content z = read_bytes z.text 0 z.length

-- `for (i = 0; i < length; i++) if (text[i] == '\n') lines++;`, `n` bytes from `i` on
unfoldable pub newlines : Buffer → ℕ → ℕ → ℕ
newlines text i zero = 0
newlines text i (suc n) =
    let rest = newlines text (i + 1) n in if text i == newline then suc rest else rest

-- `length && text[length - 1] != '\n'`
unfoldable pub is_unfinished : Zedit → Bool
is_unfinished z = not (z.length == 0) && not (z.text (z.length - 1) == newline)

unfoldable pub lines : Zedit → ℕ
lines z =
    let counted = newlines z.text 0 z.length in
    if is_unfinished z then u32 (counted + 1) else counted

-- `while (last < length && text[last] != '\n') last++;`, with `n` bytes left
unfoldable pub scan_line : Buffer → ℕ → ℕ → ℕ
scan_line text last zero = last
scan_line text last (suc n) =
    let further = scan_line text (last + 1) n in if text last == newline then last else further

-- The end of the line that starts at `at`.
unfoldable pub line_end : Buffer → ℕ → ℕ → ℕ
line_end text length at =
    let last = scan_line text at (length - at) in if ltb last length then last + 1 else last

-- `while (at < length)`; the fuel bounds the number of lines.
unfoldable pub bounds_loop : ℕ → Buffer → ℕ → ℕ → ℕ → ℕ → Option (ℕ × ℕ)
bounds_loop zero text length number current at = none
bounds_loop (suc fuel) text length number current at = elim (ltb at length) [
  | false ↦ none
  | true ↦ elim (current == number) [
    | true ↦ some (at, line_end text length at)
    | false ↦ bounds_loop fuel text length number (u32 (current + 1)) (line_end text length at)
  ]
]

-- zedit_bounds: `*start` and `*end`
unfoldable pub bounds : Zedit → ℕ → Option (ℕ × ℕ)
bounds z number =
    if number == 0 then none else bounds_loop (suc z.length) z.text z.length number 1 0

-- `for (i = length + 1; i > end; i--) text[destination + i - end - 1] = text[i - 1];`: `n` bytes, the
-- last one first
unfoldable pub move_up : Buffer → ℕ → ℕ → ℕ → Buffer
move_up text destination end zero = text
move_up text destination end (suc n) =
    move_up (set_byte text (destination + n) (text (end + n))) destination end n

-- `for (i = end; i <= length; i++) text[destination + i - end] = text[i];`: `n` bytes, the first one
-- first
unfoldable pub move_down : Buffer → ℕ → ℕ → ℕ → Buffer
move_down text destination end zero = text
move_down text destination end (suc n) =
    move_down (set_byte text destination (text end)) (destination + 1) (end + 1) n

-- The tail with its terminator goes from `end` to `destination`.
unfoldable pub move_tail : Buffer → ℕ → ℕ → ℕ → Buffer
move_tail text destination end n =
    if ltb end destination then move_up text destination end n else move_down text destination end n

abbrev pub prefix_of : Zedit → Bool → List ℕ
prefix_of z append_eof = if append_eof && is_unfinished z then newline ∷ [] else []

-- zedit_splice; `none` is its -1.
unfoldable pub splice : Zedit → ℕ → ℕ → List ℕ → Bool → Option Zedit
splice z start end body append_eof =
    let prefix = prefix_of z append_eof in
    let inserted = u32 (length prefix + length body + 1) in
    let removed = end - start in
    if ltb max_file inserted || ltb (max_file - inserted) (z.length - removed)
    then none
    else let moved = move_tail z.text (start + inserted) end (z.length + 1 - end) in
      let filled = put_bytes (put_bytes moved start prefix) (start + length prefix) body in
      some (record z {
        text = set_byte filled (start + length prefix + length body) newline;
        length = z.length - removed + inserted;
        dirty = true;
      })

-- zedit_delete_line; `none` is its -1.
unfoldable pub delete_line : Zedit → ℕ → Option Zedit
delete_line z number = elim (bounds z number) [
  | none ↦ none
  | some (start, end) ↦ some (record z {
    text = move_down z.text start end (z.length + 1 - end);
    length = z.length - (end - start);
    dirty = true;
  })
]
