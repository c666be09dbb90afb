-- ===== src/Editor/Meaning.antt =====
-- zedit_handle_command of src/zc_source_editor.h against the list of lines.
use zealos_aarch64_bringup.Base.{
  ℕ, ◌+◌, ◌-◌, ◌≤◌, ◌<◌, ◌≡◌, refl, inl, inr, ◌⊎◌, false, some, List, [], ◌∷◌, ◌++◌, arith, length,
  ◌∙◌, ap,
}
use zealos_aarch64_bringup.Store.Bank.{Store}
use zealos_aarch64_bringup.Store.Name.{str_eq}
use zealos_aarch64_bringup.Editor.Text.{Zedit}
use zealos_aarch64_bringup.Editor.Text.Positions.{insert_at, set_at, remove_at}
use zealos_aarch64_bringup.Editor.Input.{number}
use zealos_aarch64_bringup.Editor.View.{Screen}
use zealos_aarch64_bringup.Editor.Edits.{IsBody, all_lines}
use zealos_aarch64_bringup.Editor.Effects.{
  IsValid, IsResult, Effect, cursor_after_insert, cursor_after_delete,
}
use zealos_aarch64_bringup.Editor.Valid.{within_or_past}
use zealos_aarch64_bringup.Editor.Command.{
  Reply, is_end, clamp_cursor, edit, insert, delete_selected, append, insert_number, change_number,
  at_number, numbered, text_command, handle_command,
}
use zealos_aarch64_bringup.Editor.Effects.Place.{
  edit-Effect, edit_past, change-Effect, change_past, insert-Effect, append-Effect,
  insert_number-Effect, insert_number_past,
}
use zealos_aarch64_bringup.Editor.Effects.Take.{
  delete_selected_effect, delete_selected_past, delete_number_effect, delete_number_past,
}

-- The command `line` gives `r` and leaves the store alone.
abbrev pub Runs : Screen → List ℕ → Zedit → Store → Zedit × Reply → Type 0
Runs screen line z st r = handle_command screen line z st ≡ ((r.0, st), r.1)

abbrev answer : Store → Zedit × Reply → (Zedit × Store) × Reply
answer st r = ((r.0, st), r.1)

-- The command `line` is done with these lines and this cursor, or refused for want of room.
abbrev pub Does : Screen → List ℕ → Zedit → Store → List ℕ → Reply → List (List ℕ) → ℕ → Type 0
Does screen line z st body reply ls cursor =
    (r : Zedit × Reply) × Runs screen line z st r × Effect z body r reply ls cursor

-- The command `line` takes a line out.
abbrev pub Removes : Screen → List ℕ → Zedit → Store → Reply → List (List ℕ) → ℕ → Type 0
Removes screen line z st reply ls cursor =
    (z' : Zedit) × Runs screen line z st (z', reply) × IsResult z z' ls cursor

module _ (screen : Screen) (z : Zedit) (st : Store) (v : IsValid z) where
  e-Runs : (body : List ℕ) → Runs screen (b'e' ∷ b' ' ∷ body) z st (edit body z)
  unfolding handle_command text_command str_eq
  e-Runs body = refl

  n-Runs : (body : List ℕ) → Runs screen (b'n' ∷ b' ' ∷ body) z st (insert body z)
  unfolding handle_command text_command str_eq
  n-Runs body = refl

  x-Runs : Runs screen (b'x' ∷ []) z st (delete_selected z)
  unfolding handle_command text_command str_eq
  x-Runs = refl

  a-Runs : (body : List ℕ) → Runs screen (b'a' ∷ b' ' ∷ body) z st (append body z)
  unfolding handle_command text_command str_eq
  a-Runs body = refl

  -- In a valid editor and for a text without newline: `e` replaces the line of the cursor, `x`
  -- takes it out, and both say that the cursor is out of range where it is behind the last line;
  -- `n` puts the text in front of the line of the cursor or behind the last line, and `a` puts it
  -- behind the last line. All other lines stay, a text that would not fit is refused, and the store
  -- is not touched.
  pub selected_commands :
      (body : List ℕ)
      → IsBody body
      → (((z.cursor_line ≤ length (all_lines z))
            × Does screen
                (b'e' ∷ b' ' ∷ body)
                z
                st
                body
                (Reply.edited_line z.cursor_line)
                (set_at (z.cursor_line - 1) body (all_lines z))
                z.cursor_line
            × Removes screen
                (b'x' ∷ [])
                z
                st
                Reply.deleted_selected
                (remove_at (z.cursor_line - 1) (all_lines z))
                (clamp_cursor (length (all_lines z) - 1) z.cursor_line))
          ⊎ ((length (all_lines z) < z.cursor_line)
              × Runs screen (b'e' ∷ b' ' ∷ body) z st (z, Reply.cursor_out_of_range)
              × Runs screen (b'x' ∷ []) z st (z, Reply.cursor_out_of_range)))
        × Does screen
            (b'n' ∷ b' ' ∷ body)
            z
            st
            body
            (Reply.inserted_line z.cursor_line)
            (insert_at (z.cursor_line - 1) body (all_lines z))
            z.cursor_line
        × Does screen
            (b'a' ∷ b' ' ∷ body)
            z
            st
            body
            (Reply.added_line (length (all_lines z) + 1))
            (all_lines z ++ body ∷ [])
            z.cursor_line
  selected_commands body b = (
    elim (within_or_past z.cursor_line (length (all_lines z))) [
      | inl (low, high) ↦
          let (z', e, result) = delete_selected_effect z v high in
          inl (
            high,
            (edit body z, e-Runs body, edit-Effect z v body b high),
            (z', x-Runs ∙ ap (answer st) e, result),
          )
      | inr (inl nothing) ↦ absurd (omega (arith, v.cursor_low))
      | inr (inr past) ↦ inr (
        past,
        e-Runs body ∙ ap (answer st) (edit_past z v body past),
        x-Runs ∙ ap (answer st) (delete_selected_past z v past),
      )
    ],
    (insert body z, n-Runs body, insert-Effect z v body b),
    (append body z, a-Runs body, append-Effect z v body b),
  )

  module _ (text : List ℕ) (n : ℕ) (p : List ℕ) (parsed : number text ≡ some (n, p)) where
    numbered_step : (command : ℕ) → numbered (command ∷ b' ' ∷ text) z ≡ at_number command n p z
    unfolding numbered
    numbered_step command = rw (numbered, parsed) refl

    i-Runs : Runs screen (b'i' ∷ b' ' ∷ text) z st (at_number b'i' n p z)
    unfolding handle_command text_command str_eq
    i-Runs = ap (answer st) (numbered_step b'i')

    c-Runs : Runs screen (b'c' ∷ b' ' ∷ text) z st (at_number b'c' n p z)
    unfolding handle_command text_command str_eq
    c-Runs = ap (answer st) (numbered_step b'c')

    d-Runs : Runs screen (b'd' ∷ b' ' ∷ text) z st (at_number b'd' n p z)
    unfolding handle_command text_command str_eq
    d-Runs = ap (answer st) (numbered_step b'd')

  -- In a valid editor, with a number `n` that zedit_number reads from the line and a text without
  -- newline behind it: `c` replaces line `n` where there is one, `i` puts the text in front of line
  -- `n` or, for the number behind the last line, at the end, and both say that the line is out of
  -- range otherwise. All other lines stay, the cursor of `i` stays on its line, a text that would
  -- not fit is refused, and the store is not touched.
  pub numbered_commands :
      (text : List ℕ) (n : ℕ) (body : List ℕ)
      → number text ≡ some (n, b' ' ∷ body)
      → IsBody body
      → (((1 ≤ n)
            × (n ≤ length (all_lines z))
            × Does screen
                (b'c' ∷ b' ' ∷ text)
                z
                st
                body
                (Reply.changed_line n)
                (set_at (n - 1) body (all_lines z))
                z.cursor_line)
          ⊎ (((n ≡ 0) ⊎ (length (all_lines z) < n))
              × Runs screen (b'c' ∷ b' ' ∷ text) z st (z, Reply.line_out_of_range)))
        × (((1 ≤ n)
              × (n ≤ length (all_lines z) + 1)
              × Does screen
                  (b'i' ∷ b' ' ∷ text)
                  z
                  st
                  body
                  (Reply.inserted_line n)
                  (insert_at (n - 1) body (all_lines z))
                  (cursor_after_insert z n))
            ⊎ (((n ≡ 0) ⊎ (length (all_lines z) + 1 < n))
                × Runs screen (b'i' ∷ b' ' ∷ text) z st (z, Reply.line_out_of_range)))
  unfolding at_number
  numbered_commands text n body parsed b = (
    elim (within_or_past n (length (all_lines z))) [
      | inl (low, high) ↦ inl (
        low,
        high,
        (
          change_number n body z,
          c-Runs text n (b' ' ∷ body) parsed,
          change-Effect z v body n b low high,
        ),
      )
      | inr past ↦
          inr (
            past,
            c-Runs text n (b' ' ∷ body) parsed ∙ ap (answer st) (change_past z v body n past),
          )
    ],
    elim (within_or_past n (length (all_lines z) + 1)) [
      | inl (low, high) ↦ inl (
        low,
        high,
        (
          insert_number n body z,
          i-Runs text n (b' ' ∷ body) parsed,
          insert_number-Effect z v body n b low high,
        ),
      )
      | inr past ↦ inr (
        past,
        i-Runs text n (b' ' ∷ body) parsed ∙ ap (answer st) (insert_number_past z v body n past),
      )
    ],
  )

  -- In a valid editor, with a number `n` that zedit_number reads from the line: `d` takes line `n`
  -- out where there is one and nothing stands behind the number, keeps all other lines, and leaves
  -- the cursor on the line that it was on, or on the last one; otherwise it says that the line is
  -- out of range and changes nothing.
  pub delete_command :
      (text : List ℕ) (n : ℕ) (p : List ℕ)
      → number text ≡ some (n, p)
      → ((1 ≤ n)
          × (n ≤ length (all_lines z))
          × (p ≡ [])
          × Removes screen
              (b'd' ∷ b' ' ∷ text)
              z
              st
              (Reply.deleted_line n)
              (remove_at (n - 1) (all_lines z))
              (cursor_after_delete z n))
        ⊎ ((((n ≡ 0) ⊎ (length (all_lines z) < n)) ⊎ (is_end p ≡ false))
            × Runs screen (b'd' ∷ b' ' ∷ text) z st (z, Reply.line_out_of_range))
  unfolding at_number
  delete_command text n (c ∷ p) parsed = inr (
    inr refl,
    d-Runs text n (c ∷ p) parsed ∙ ap (answer st) (delete_number_past z v n (c ∷ p) (inr refl)),
  )
  delete_command text n [] parsed = elim (within_or_past n (length (all_lines z))) [
    | inl (low, high) ↦
        let (z', e, result) = delete_number_effect z v n low high in
        inl (low, high, refl, (z', d-Runs text n [] parsed ∙ ap (answer st) e, result))
    | inr past ↦ inr (
      inl past,
      d-Runs text n [] parsed ∙ ap (answer st) (delete_number_past z v n [] (inl past)),
    )
  ]
