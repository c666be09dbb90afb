-- ===== src/Editor/Valid/Handle.antt =====
-- zedit_handle of src/zc_source_editor.h keeps the editor valid.
use zealos_aarch64_bringup.Base.{
  ℕ, ◌+◌, ◌≤◌, ◌<◌, ◌^◌, ◌≡◌, refl, inl, inr, not, ◌&&◌, Bool-cases, Option-cases, true, false,
  List, arith, length, sym, subst, leb, ◌==◌, if◌then◌else◌, drop,
}
use zealos_aarch64_bringup.Store.Bank.{Store}
use zealos_aarch64_bringup.Store.Write.{put}
use zealos_aarch64_bringup.Editor.Text.{Zedit, content, lines}
use zealos_aarch64_bringup.Editor.Text.Bounds.{lines_lem, lines_few}
use zealos_aarch64_bringup.Editor.Text.Positions.{}
use zealos_aarch64_bringup.Editor.Input.{number}
use zealos_aarch64_bringup.Editor.View.{Screen, page_rows, reveal_cursor, render}
use zealos_aarch64_bringup.Editor.File.{save_error, save}
use zealos_aarch64_bringup.Editor.Edits.{IsBody, all_lines}
use zealos_aarch64_bringup.Editor.Effects.{IsValid}
use zealos_aarch64_bringup.Editor.Command.{
  Reply, char_at, clamp_cursor, moved_cursor, move_cursor, at_number, numbered, quit, write,
  print_arguments, print_command, text_command, handle_command, handle,
}
use zealos_aarch64_bringup.Editor.Valid.{
  if-both, viewed-IsValid, moved-IsValid, same-IsValid, clamped,
}
use zealos_aarch64_bringup.Editor.Valid.Edit.{
  edit-IsValid, insert-IsValid, append-IsValid, change-IsValid, insert_number-IsValid,
  delete_selected-IsValid, delete_number-IsValid,
}
use zealos_aarch64_bringup.Editor.Valid.Line.{
  Rest, IsBody-drop, rest-IsBody, positive_low, number-Rest, print_arguments-IsPositive, IsPositive,
}

at_number-IsValid :
    (z : Zedit) (command n : ℕ) (p : List ℕ)
    → IsValid z
    → IsBody p
    → IsValid (at_number command n p z).0
unfolding at_number
at_number-IsValid z command n p v b =
    let P : Zedit × Reply → Type 0 = λ r. IsValid r.0 in
    if-both P _ _ _ (delete_number-IsValid z v n p) (
      if-both P _ _ _ v (
        if-both P _ _ _ (insert_number-IsValid z v (drop 1 p) n (IsBody-drop 1 p b))
          (change-IsValid z v (drop 1 p) n (IsBody-drop 1 p b))))

numbered-IsValid :
    (z : Zedit) (line : List ℕ) → IsValid z → IsBody line → IsValid (numbered line z).0
unfolding numbered
numbered-IsValid z line v b =
    let got = number-Rest (drop 2 line) (IsBody-drop 2 line b) in
    elim (Option-cases (number (drop 2 line))) [
      | inl e ↦
          let step : numbered line z ≡ (z, Reply.help) = rw (numbered, e) refl in
          same-IsValid z (numbered line z) Reply.help v step
      | inr ((n, p), e) ↦
          let step : numbered line z ≡ at_number (char_at line 0) n p z = rw (numbered, e) refl in
          subst (λ (r : Zedit × Reply). IsValid r.0) (sym step)
            (at_number-IsValid z (char_at line 0) n p v (rest-IsBody n p (subst Rest e got)))
    ]

print_command-IsValid : (z : Zedit) (line : List ℕ) → IsValid z → IsValid (print_command line z).0
unfolding print_command
print_command-IsValid z line v = elim (Option-cases (print_arguments (drop 1 line))) [
  | inl e ↦
      let step : print_command line z ≡ (z, Reply.help) = rw (print_command, e) refl in
      same-IsValid z (print_command line z) Reply.help v step
  | inr ((first, count), e) ↦
      let low =
        positive_low first count (subst IsPositive e (print_arguments-IsPositive (drop 1 line))) in
      let to = if leb first (lines z) then first else z.cursor_line in
      let w = record z { cursor_line = to } in
      let there = lines_lem z v.text.small in
      let from : 1 ≤ to = ground (arith, v.cursor_low) in
      let most : to ≤ length (all_lines z) + 1 = ground (arith, v.cursor_high) in
      let step : (print_command line z).0 ≡ record w { view_first = first; view_count = count } =
        rw (print_command, e) refl in
      subst IsValid (sym step)
        (viewed-IsValid w first count z.active z.dirty z.existed (moved-IsValid z to v from most))
]

page_rows_few : (screen : Screen) → (1 ≤ page_rows screen) × (page_rows screen < 512)
unfolding page_rows
page_rows_few screen = ground arith

moved_low :
    (screen : Screen) (line : List ℕ) (total cursor : ℕ)
    → 1 ≤ cursor
    → cursor ≤ 2 ^ 31
    → 1 ≤ moved_cursor screen line total cursor
unfolding moved_cursor
moved_low screen line total cursor low high = let few = page_rows_few screen in ground (arith, few)

reveal_cursor-IsValid : (screen : Screen) (z : Zedit) → IsValid z → IsValid (reveal_cursor screen z)
unfolding reveal_cursor
reveal_cursor-IsValid screen z v =
    viewed-IsValid z (reveal_cursor screen z).view_first z.view_count z.active z.dirty z.existed v

move_cursor-IsValid :
    (screen : Screen) (line : List ℕ) (z : Zedit)
    → IsValid z
    → IsValid (move_cursor screen line z).0
unfolding move_cursor
move_cursor-IsValid screen line z v =
    let to = moved_cursor screen line (lines z) z.cursor_line in
    let counted = lines_lem z v.text.small in
    let few = lines_few z v.text.small in
    let (from, most) = clamped (lines z) to (
      moved_low screen line (lines z) z.cursor_line v.cursor_low
        (omega (arith, v.text.small, v.cursor_high))) in
    reveal_cursor-IsValid screen (record z { cursor_line = clamp_cursor (lines z) to })
      (moved-IsValid z (clamp_cursor (lines z) to) v from (omega arith))

text_command-IsValid :
    (screen : Screen) (line : List ℕ) (z : Zedit)
    → IsValid z
    → IsBody line
    → IsValid (text_command screen line z).0
unfolding text_command
text_command-IsValid screen line z v b =
    let P : Zedit × Reply → Type 0 = λ r. IsValid r.0 in
    let body = IsBody-drop 2 line b in
    if-both P _ _ _ (print_command-IsValid z line v) (
      if-both P _ _ _ (move_cursor-IsValid screen line z v) (
        if-both P _ _ _ (edit-IsValid z v (drop 2 line) body) (
          if-both P _ _ _ (insert-IsValid z v (drop 2 line) body) (
            if-both P _ _ _ (delete_selected-IsValid z v) (
              if-both P _ _ _ (append-IsValid z v (drop 2 line) body)
                (if-both P _ _ _ (numbered-IsValid z line v b) v))))))

quit-IsValid : (line : List ℕ) (z : Zedit) → IsValid z → IsValid (quit line z).0
unfolding quit
quit-IsValid line z v =
    if-both (λ (r : Zedit × Reply). IsValid r.0) _ _ _ v
      (viewed-IsValid z z.view_first z.view_count false z.dirty z.existed v)

save-IsValid : (z : Zedit) (st : Store) → IsValid z → IsValid (save z st).0.0
unfolding save
save-IsValid z st v =
    let result = save_error (put z.name (content z) st).1 in
    elim (Bool-cases (not z.dirty && z.existed)) [
      | inl same ↦ rw (save, same) v
      | inr changed ↦ elim (Bool-cases (z.length == 0)) [
        | inl empty ↦ rw (save, changed, empty) v
        | inr some_text ↦ elim (Option-cases result) [
          | inr (reply, e) ↦ rw (save, changed, some_text, e) v
          | inl e ↦
              rw (save, changed, some_text, e)
                (viewed-IsValid z z.view_first z.view_count z.active false true v)
        ]
      ]
    ]

write-IsValid : (line : List ℕ) (z : Zedit) (st : Store) → IsValid z → IsValid (write line z st).0.0
unfolding write
write-IsValid line z st v =
    let after = save-IsValid z st v in
    let w = (save z st).0.0 in
    if-both IsValid _ _ _ (viewed-IsValid w w.view_first w.view_count false w.dirty w.existed after)
      after

pub render-IsValid : (screen : Screen) (z : Zedit) → IsValid z → IsValid (render screen z)
unfolding render
render-IsValid screen z v =
    if-both IsValid _ _ _ v (viewed-IsValid z _ _ z.active z.dirty z.existed v)

handle_command-IsValid :
    (screen : Screen) (line : List ℕ) (z : Zedit) (st : Store)
    → IsValid z
    → IsBody line
    → IsValid (handle_command screen line z st).0.0
unfolding handle_command
handle_command-IsValid screen line z st v b =
    let P : (Zedit × Store) × Reply → Type 0 = λ r. IsValid r.0.0 in
    if-both P _ _ _ v (
      if-both P _ _ _ (quit-IsValid line z v)
        (if-both P _ _ _ (write-IsValid line z st v) (text_command-IsValid screen line z v b)))

-- From an editor whose text is a C string of at most 4 MiB and whose cursor is on a line or behind
-- the last one, every command line without NUL and newline leaves zedit_handle with such an
-- editor, whatever the command does and whatever the store answers.
pub handle-IsValid :
    (screen : Screen) (line : List ℕ) (z : Zedit) (st : Store)
    → IsValid z
    → IsBody line
    → IsValid (handle screen line z st).0.0
unfolding handle
handle-IsValid screen line z st v b =
    let after = handle_command-IsValid screen line z st v b in
    if-both IsValid _ _ _ (render-IsValid screen (handle_command screen line z st).0.0 after) after
