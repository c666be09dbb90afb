-- ===== src/Editor/Effects/Take.antt =====
-- The commands of src/zc_source_editor.h that take a line out.
use zealos_aarch64_bringup.Base.{
  ℕ, ◌-◌, ◌≤◌, ◌<◌, ◌≡◌, refl, inl, inr, ◌⊎◌, Bool-cases, false, List, [], arith, length, ap, ◌∙◌,
}
use zealos_aarch64_bringup.Store.Record.{max_file}
use zealos_aarch64_bringup.Editor.Text.{Zedit, lines}
use zealos_aarch64_bringup.Editor.Text.Bounds.{lines_lem}
use zealos_aarch64_bringup.Editor.Text.Positions.{remove_at, length-remove_at}
use zealos_aarch64_bringup.Editor.Edits.{IsEdit, all_lines, delete_cases}
use zealos_aarch64_bringup.Editor.Command.{
  Reply, is_end, clamp_cursor, delete_selected, delete_number,
}
use zealos_aarch64_bringup.Editor.Effects.{
  IsValid, IsResult, cursor_after_delete, edit-IsResult, same_cursor,
}

module _ (z : Zedit) (v : IsValid z) where
  small : z.length ≤ max_file
  small = v.text.small

  fewer :
      (z' : Zedit) (n : ℕ)
      → 1 ≤ n
      → n ≤ length (all_lines z)
      → IsEdit z z' (remove_at (n - 1) (all_lines z))
      → lines z' ≡ length (all_lines z) - 1
  fewer z' n low high e =
      let shorter = length-remove_at (n - 1) (all_lines z) (omega arith) in
      lines_lem z' e.text.small ∙ ap (λ (ls : List (List ℕ)). length ls) e.edited ∙ omega arith

  pub delete_selected_effect :
      z.cursor_line ≤ length (all_lines z)
      → (z' : Zedit) × (delete_selected z ≡ (z', Reply.deleted_selected))
        × IsResult z z'
            (remove_at (z.cursor_line - 1) (all_lines z))
            (clamp_cursor (length (all_lines z) - 1) z.cursor_line)
  unfolding delete_selected
  delete_selected_effect high = elim (delete_cases z z.cursor_line v.text) [
    | inr (r, why) ↦
        absurd (elim why [ inl nothing ↦ omega (arith, v.cursor_low) | inr past ↦ omega arith ])
    | inl (low, high, (z', r, e)) ↦ (
      record z' { cursor_line = clamp_cursor (length (all_lines z) - 1) z.cursor_line },
      rw (delete_selected, r, fewer z' z.cursor_line low high e, same_cursor z z' _ e) refl,
      edit-IsResult z z' _ _ e,
    )
  ]

  pub delete_selected_past :
      length (all_lines z) < z.cursor_line → delete_selected z ≡ (z, Reply.cursor_out_of_range)
  unfolding delete_selected
  delete_selected_past past = elim (delete_cases z z.cursor_line v.text) [
    | inr (r, why) ↦ rw (delete_selected, r) refl
    | inl (low, high, (z', r, e)) ↦ absurd (omega arith)
  ]

  pub delete_number_effect :
      (n : ℕ)
      → 1 ≤ n
      → n ≤ length (all_lines z)
      → (z' : Zedit) × (delete_number n [] z ≡ (z', Reply.deleted_line n))
        × IsResult z z' (remove_at (n - 1) (all_lines z)) (cursor_after_delete z n)
  unfolding delete_number
  delete_number_effect n low high = elim (delete_cases z n v.text) [
    | inr (r, why) ↦ absurd (elim why [ inl nothing ↦ omega arith | inr past ↦ omega arith ])
    | inl (low, high, (z', r, e)) ↦ (
      record z' { cursor_line = cursor_after_delete z n },
      rw (delete_number, r, fewer z' n low high e, same_cursor z z' _ e) refl,
      edit-IsResult z z' _ _ e,
    )
  ]

  pub delete_number_past :
      (n : ℕ) (p : List ℕ)
      → ((n ≡ 0) ⊎ (length (all_lines z) < n)) ⊎ (is_end p ≡ false)
      → delete_number n p z ≡ (z, Reply.line_out_of_range)
  unfolding delete_number
  delete_number_past n p past = elim (Bool-cases (is_end p)) [
    | inr more ↦ rw (delete_number, more) refl
    | inl ended ↦ elim (delete_cases z n v.text) [
      | inr (r, why) ↦ rw (delete_number, ended, r) refl
      | inl (low, high, (z', r, e)) ↦ absurd (elim past [
        | inl (inl e) ↦ omega (arith, e)
        | inl (inr e) ↦ omega (arith, e)
        | inr more ↦ ground (arith, ended, more)
      ])
    ]
  ]
