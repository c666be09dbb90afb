-- ===== src/Editor/Tests/Witnesses.antt =====
-- The theorems on src/zc_source_editor.h at a text of two lines.
use zealos_aarch64_bringup.Base.{
  ◌+◌, ◌-◌, ◌^◌, ◌≤◌, ◌<◌, ◌≡◌, refl, ◌⊎◌, not, ◌&&◌, ltb, ◌==◌, if◌then◌else◌, false, some, none,
  [], ◌∷◌, ◌++◌, length,
}
use zealos_aarch64_bringup.Store.Write.{Code, put}
use zealos_aarch64_bringup.Store.Tests.{empty}
use zealos_aarch64_bringup.Editor.Text.{content}
use zealos_aarch64_bringup.Editor.Text.Positions.{insert_at, set_at, remove_at}
use zealos_aarch64_bringup.Editor.Input.{number}
use zealos_aarch64_bringup.Editor.Numbers.{decimal, number_lem}
use zealos_aarch64_bringup.Editor.Command.{Reply, clamp_cursor, is_end, handle}
use zealos_aarch64_bringup.Editor.Edits.{all_lines}
use zealos_aarch64_bringup.Editor.Effects.{IsValid, cursor_after_insert, cursor_after_delete}
use zealos_aarch64_bringup.Editor.Valid.Handle.{handle-IsValid}
use zealos_aarch64_bringup.Editor.Meaning.{
  Runs, Does, Removes, selected_commands, numbered_commands, delete_command,
}
use zealos_aarch64_bringup.Editor.Closing.{closing}
use zealos_aarch64_bringup.Editor.Tests.{
  cd_line, force, nothing, one, two, two_lines, screen, two_lines-IsValid, cd-IsBody, two_digits,
  one_digit, forced_quit,
}

number_lem_example : number (b'1' ∷ b'2' ∷ b' ' ∷ []) ≡ (
    if ltb (decimal (b'1' ∷ b'2' ∷ []) 0) (2 ^ 32) && not (decimal (b'1' ∷ b'2' ∷ []) 0 == 0)
    then some (decimal (b'1' ∷ b'2' ∷ []) 0, b' ' ∷ [])
    else none)
number_lem_example = number_lem b'1' (b'2' ∷ []) (b' ' ∷ []) (refl, (refl, tt)) refl

selected_commands_example :
    (((2 ≤ length (all_lines two_lines))
        × Does screen
            (b'e' ∷ b' ' ∷ cd_line)
            two_lines
            empty
            cd_line
            (Reply.edited_line 2)
            (set_at (2 - 1) cd_line (all_lines two_lines))
            2
        × Removes screen
            (b'x' ∷ [])
            two_lines
            empty
            Reply.deleted_selected
            (remove_at (2 - 1) (all_lines two_lines))
            (clamp_cursor (length (all_lines two_lines) - 1) 2))
      ⊎ ((length (all_lines two_lines) < 2)
          × Runs screen
              (b'e' ∷ b' ' ∷ cd_line)
              two_lines
              empty
              (two_lines, Reply.cursor_out_of_range)
          × Runs screen (b'x' ∷ []) two_lines empty (two_lines, Reply.cursor_out_of_range)))
    × Does screen
        (b'n' ∷ b' ' ∷ cd_line)
        two_lines
        empty
        cd_line
        (Reply.inserted_line 2)
        (insert_at (2 - 1) cd_line (all_lines two_lines))
        2
    × Does screen
        (b'a' ∷ b' ' ∷ cd_line)
        two_lines
        empty
        cd_line
        (Reply.added_line (length (all_lines two_lines) + 1))
        (all_lines two_lines ++ cd_line ∷ [])
        2
selected_commands_example =
    selected_commands screen two_lines empty two_lines-IsValid cd_line cd-IsBody

numbered_commands_example :
    (((1 ≤ 2)
        × (2 ≤ length (all_lines two_lines))
        × Does screen
            (b'c' ∷ b' ' ∷ b'2' ∷ b' ' ∷ cd_line)
            two_lines
            empty
            cd_line
            (Reply.changed_line 2)
            (set_at (2 - 1) cd_line (all_lines two_lines))
            2)
      ⊎ (((two ≡ 0) ⊎ (length (all_lines two_lines) < 2))
          × Runs screen
              (b'c' ∷ b' ' ∷ b'2' ∷ b' ' ∷ cd_line)
              two_lines
              empty
              (two_lines, Reply.line_out_of_range)))
    × (((1 ≤ 2)
          × (2 ≤ length (all_lines two_lines) + 1)
          × Does screen
              (b'i' ∷ b' ' ∷ b'2' ∷ b' ' ∷ cd_line)
              two_lines
              empty
              cd_line
              (Reply.inserted_line 2)
              (insert_at (2 - 1) cd_line (all_lines two_lines))
              (cursor_after_insert two_lines 2))
        ⊎ (((two ≡ 0) ⊎ (length (all_lines two_lines) + 1 < 2))
            × Runs screen
                (b'i' ∷ b' ' ∷ b'2' ∷ b' ' ∷ cd_line)
                two_lines
                empty
                (two_lines, Reply.line_out_of_range)))
numbered_commands_example =
    numbered_commands screen two_lines empty two_lines-IsValid (b'2' ∷ b' ' ∷ cd_line) 2 cd_line
      two_digits cd-IsBody

delete_command_example :
    ((1 ≤ 1)
      × (1 ≤ length (all_lines two_lines))
      × (nothing ≡ [])
      × Removes screen
          (b'd' ∷ b' ' ∷ b'1' ∷ [])
          two_lines
          empty
          (Reply.deleted_line 1)
          (remove_at (1 - 1) (all_lines two_lines))
          (cursor_after_delete two_lines 1))
    ⊎ ((((one ≡ 0) ⊎ (length (all_lines two_lines) < 1)) ⊎ (is_end nothing ≡ false))
        × Runs screen
            (b'd' ∷ b' ' ∷ b'1' ∷ [])
            two_lines
            empty
            (two_lines, Reply.line_out_of_range))
delete_command_example =
    delete_command screen two_lines empty two_lines-IsValid (b'1' ∷ []) 1 [] one_digit

handle-IsValid_example : IsValid (handle screen cd_line two_lines empty).0.0
handle-IsValid_example = handle-IsValid screen cd_line two_lines empty two_lines-IsValid cd-IsBody

closing_example :
    (force ≡ b'q' ∷ b'!' ∷ [])
    ⊎ ((force ≡ b'w' ∷ b'q' ∷ []) × ((put two_lines.name (content two_lines) empty).1 ≡ Code.ok))
closing_example = closing screen force two_lines empty refl refl forced_quit
