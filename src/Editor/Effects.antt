-- ===== src/Editor/Effects.antt =====
-- What the editing commands of src/zc_source_editor.h do to the lines and the cursor.
pub mod Place
pub mod Take
use zealos_aarch64_bringup.Base.{
  ℕ, zero, suc, ◌+◌, ◌-◌, ◌≤◌, ◌<◌, ◌≡◌, ◌≢◌, refl, inl, inr, ◌⊎◌, Bool-cases, true, false, Option,
  none, some, List, [], ◌∷◌, ◌++◌, arith, length, ap, ◌∙◌, sym, subst, ltb, leb, ◌==◌, ==_iff,
  if◌then◌else◌,
}
use zealos_aarch64_bringup.Store.Record.{max_file, u32}
use zealos_aarch64_bringup.Editor.Text.{Zedit, lines, content, splice, bounds, delete_line}
use zealos_aarch64_bringup.Editor.Text.Bounds.{lines_lem, lines_few, lines_next}
use zealos_aarch64_bringup.Editor.Text.Number.{IsLineAt, bounds_lem}
use zealos_aarch64_bringup.Editor.Text.Positions.{
  insert_at, set_at, remove_at, insert_at_end, length-remove_at,
}
use zealos_aarch64_bringup.Editor.Text.Splice.{retexted}
use zealos_aarch64_bringup.Editor.Text.Refine.{line_there}
use zealos_aarch64_bringup.Editor.Edits.{
  IsText, IsBody, IsEdit, Outcome, Deletion, all_lines, set_cases, insert_cases, append_cases,
  delete_cases,
}
use zealos_aarch64_bringup.Editor.Command.{
  Reply, is_end, clamp_cursor, edit, insert_bounds, insert, delete_selected, append, delete_number,
  insert_number, change_number,
}

-- The text is well formed, and the cursor is on a line or behind the last one.
pub record IsValid (z : Zedit) : Type 0 where
  pub text : IsText z
  pub cursor_low : 1 ≤ z.cursor_line
  pub cursor_high : z.cursor_line ≤ length (all_lines z) + 1

-- `z'` is `z` with a text of the lines `ls` and with the cursor at `cursor`.
pub record IsResult (z z' : Zedit) (ls : List (List ℕ)) (cursor : ℕ) : Type 0 where
  pub same : z' ≡ record (retexted z z'.text z'.length) { cursor_line = cursor }
  pub text : IsText z'
  pub edited : all_lines z' ≡ ls

-- A command with the text `body` gives `r`: it is done, or it is refused for want of room.
pub data Effect (z : Zedit) (body : List ℕ) (r : Zedit × Reply) (reply : Reply) (ls : List (List ℕ))
    (cursor : ℕ) : Type 0 where
  done : (z' : Zedit) → r ≡ (z', reply) → IsResult z z' ls cursor → Effect z body r reply ls cursor
  refused :
      r ≡ (z, Reply.too_long)
      → max_file < z.length + length body + 2
      → Effect z body r reply ls cursor

-- The cursor of `i` stays on the line that it was on.
abbrev pub cursor_after_insert : Zedit → ℕ → ℕ
cursor_after_insert z n = if leb n z.cursor_line then z.cursor_line + 1 else z.cursor_line

-- That of `d` does too, within the lines that are left.
abbrev pub cursor_after_delete : Zedit → ℕ → ℕ
cursor_after_delete z n =
    clamp_cursor (length (all_lines z) - 1)
      (if ltb n z.cursor_line then z.cursor_line - 1 else z.cursor_line)

-- An edit that then sets the cursor.
pub edit-IsResult :
    (z z' : Zedit) (ls : List (List ℕ)) (cursor : ℕ)
    → IsEdit z z' ls
    → IsResult z (record z' { cursor_line = cursor }) ls cursor
edit-IsResult z z' ls cursor e = record {
  same = ap (λ (w : Zedit). record w { cursor_line = cursor }) e.same;
  text = record { small = e.text.small; chars = e.text.chars; terminated = e.text.terminated };
  edited = e.edited;
}

pub same_cursor :
    (z z' : Zedit) (ls : List (List ℕ)) → IsEdit z z' ls → z'.cursor_line ≡ z.cursor_line
same_cursor z z' ls e = ap (λ (w : Zedit). w.cursor_line) e.same

pub kept-IsResult :
    (z z' : Zedit) (ls : List (List ℕ)) → IsEdit z z' ls → IsResult z z' ls z.cursor_line
kept-IsResult z z' ls e = record { same = e.same; text = e.text; edited = e.edited }
