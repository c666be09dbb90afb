-- ===== src/Editor/View.antt =====
-- What the editor shows: zedit_render's clamps, zedit_page_rows, zedit_reveal_cursor and zedit_print
-- of src/zc_source_editor.h. `Screen` is the text size of the framebuffer.
use zealos_aarch64_bringup.Base.{
  ℕ, zero, suc, ◌+◌, ◌-◌, ◌^◌, not, ◌&&◌, ◌||◌, none, some, List, [], ◌∷◌, ltb, leb, ◌==◌,
  if◌then◌else◌,
}
use zealos_aarch64_bringup.Store.Record.{u32}
use zealos_aarch64_bringup.Editor.Text.{Buffer, newline, Zedit, lines, bounds}

-- `g_fb_rows` and `g_fb_cols`
pub record Screen : Type 0 where
  pub fb_rows : ℕ
  pub fb_cols : ℕ

-- ZEAL_TEXT_MAX_ROWS and ZEAL_TEXT_MAX_COLS
abbrev pub text_max : ℕ
text_max = 512

abbrev pub at_most : ℕ → ℕ → ℕ
at_most limit n = if ltb n limit then n else limit

unfoldable pub page_rows : Screen → ℕ
page_rows screen = let rows = at_most text_max screen.fb_rows in if ltb 5 rows then rows - 5 else 1

-- zedit_reveal_cursor
unfoldable pub reveal_cursor : Screen → Zedit → Zedit
reveal_cursor screen z =
    let capacity = page_rows screen in
    let wanted = if z.view_count == 0 then capacity else z.view_count in
    let visible = if ltb capacity wanted then capacity else wanted in
    record z {
      view_first =
          if ltb z.cursor_line z.view_first
          then z.cursor_line
          else if not (visible == 0) && leb (u32 (z.view_first + visible)) z.cursor_line
          then u32 (z.cursor_line + 2 ^ 32 - visible + 1)
          else z.view_first;
    }

-- zedit_render
unfoldable pub render : Screen → Zedit → Zedit
render screen z =
    let rows = at_most text_max screen.fb_rows in
    let cols = at_most text_max screen.fb_cols in
    let capacity = rows - 7 in
    let total = lines z in
    let first = if z.view_first == 0 then 1 else z.view_first in
    let shown = if ltb total first && not (total == 0) then total else first in
    let count = if ltb capacity z.view_count then capacity else z.view_count in
    if not z.active || ltb rows 8 || cols == 0
    then z
    else record z { view_first = shown; view_count = if count == 0 then capacity else count }

-- The characters of one line of zedit_print, from `i` on, with `printed` of them before it.
unfoldable pub line_text : ℕ → Buffer → ℕ → ℕ → List ℕ
line_text zero text i printed = []
line_text (suc n) text i printed =
    let rest = line_text n text (i + 1) (printed + 1) in
    if text i == newline
    then []
    else if printed == 160
    then b'.' ∷ b'.' ∷ b'.' ∷ []
    else text i ∷ rest

-- `for (n = first; n <= lines && n - first < count; n++)`, with `left` numbers to go: each line with
-- its number.
unfoldable pub print_lines : ℕ → Zedit → ℕ → List (ℕ × List ℕ)
print_lines zero z n = []
print_lines (suc left) z n =
    let rest = print_lines left z (u32 (n + 1)) in
    if ltb (lines z) n then [] else elim (bounds z n) [
      | none ↦ []
      | some (start, end) ↦ (n, line_text (end - start) z.text start 0) ∷ rest
    ]

-- What zedit_print puts on the console.
pub data Printed : Type 0 where
  empty : Printed
  out_of_range : Printed
  printed : List (ℕ × List ℕ) → Printed

-- zedit_print
unfoldable pub print : Zedit → ℕ → ℕ → Printed
print z first count =
    if lines z == 0
    then empty
    else if first == 0 || ltb (lines z) first
    then out_of_range
    else printed (print_lines (if ltb 50 count then 50 else count) z first)
