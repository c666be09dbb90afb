-- ===== src/Editor/Valid/Edit.antt =====
-- The editing commands of src/zc_source_editor.h keep the editor valid.
use zealos_aarch64_bringup.Base.{
  ℕ, ◌+◌, ◌-◌, ◌≤◌, ◌≡◌, refl, inl, inr, Bool-cases, List, [], ◌∷◌, arith, length, ap, sym, subst,
  ltb, leb, leb→le, if◌then◌else◌, length-append,
}
use zealos_aarch64_bringup.Editor.Text.{Zedit}
use zealos_aarch64_bringup.Editor.Text.Positions.{
  remove_at, length-insert_at, length-set_at, length-remove_at,
}
use zealos_aarch64_bringup.Editor.Edits.{IsBody, all_lines}
use zealos_aarch64_bringup.Editor.Effects.{IsValid, cursor_after_insert, IsResult}
use zealos_aarch64_bringup.Editor.Command.{
  Reply, clamp_cursor, edit, insert, delete_selected, append, delete_number, insert_number,
  change_number,
}
use zealos_aarch64_bringup.Editor.Effects.Place.{
  edit-Effect, edit_past, change-Effect, change_past, insert-Effect, append-Effect,
  insert_number-Effect, insert_number_past,
}
use zealos_aarch64_bringup.Editor.Effects.Take.{
  delete_selected_effect, delete_selected_past, delete_number_effect, delete_number_past,
}
use zealos_aarch64_bringup.Editor.Valid.{
  within_or_past, result-IsValid, Effect-IsValid, same-IsValid, clamped,
}

module _ (z : Zedit) (v : IsValid z) where
  pub edit-IsValid : (body : List ℕ) → IsBody body → IsValid (edit body z).0
  edit-IsValid body b = elim (Bool-cases (leb z.cursor_line (length (all_lines z)))) [
    | inl on ↦
        Effect-IsValid z body _ _ _ z.cursor_line v v.cursor_low
          (omega (arith, length-set_at (z.cursor_line - 1) body (all_lines z), v.cursor_high))
          (edit-Effect z v body b (leb→le _ _ on))
    | inr past ↦ same-IsValid z _ _ v (edit_past z v body (ground arith))
  ]

  pub insert-IsValid : (body : List ℕ) → IsBody body → IsValid (insert body z).0
  insert-IsValid body b =
      Effect-IsValid z body _ _ _ z.cursor_line v v.cursor_low
        (omega (arith, length-insert_at (z.cursor_line - 1) body (all_lines z), v.cursor_high))
        (insert-Effect z v body b)

  pub append-IsValid : (body : List ℕ) → IsBody body → IsValid (append body z).0
  append-IsValid body b =
      Effect-IsValid z body _ _ _ z.cursor_line v v.cursor_low
        (omega (arith, length-append (all_lines z) (body ∷ []), v.cursor_high))
        (append-Effect z v body b)

  pub change-IsValid : (body : List ℕ) (n : ℕ) → IsBody body → IsValid (change_number n body z).0
  change-IsValid body n b = elim (within_or_past n (length (all_lines z))) [
    | inr past ↦ same-IsValid z _ _ v (change_past z v body n past)
    | inl (low, high) ↦
        Effect-IsValid z body _ _ _ z.cursor_line v v.cursor_low
          (omega (arith, length-set_at (n - 1) body (all_lines z), v.cursor_high))
          (change-Effect z v body n b low high)
  ]

  cursor_inserted :
      (n : ℕ) → (1 ≤ cursor_after_insert z n) × (cursor_after_insert z n ≤ length (all_lines z) + 2)
  cursor_inserted n = ground (arith, v.cursor_low, v.cursor_high)

  pub insert_number-IsValid :
      (body : List ℕ) (n : ℕ) → IsBody body → IsValid (insert_number n body z).0
  insert_number-IsValid body n b = elim (within_or_past n (length (all_lines z) + 1)) [
    | inr past ↦ same-IsValid z _ _ v (insert_number_past z v body n past)
    | inl (low, high) ↦
        let (from, to) = cursor_inserted n in
        Effect-IsValid z body _ _ _ (cursor_after_insert z n) v from
          (omega (arith, length-insert_at (n - 1) body (all_lines z)))
          (insert_number-Effect z v body n b low high)
  ]

  removed-IsValid :
      (z' : Zedit) (r : Zedit × Reply) (reply : Reply) (n cursor : ℕ)
      → 1 ≤ n
      → n ≤ length (all_lines z)
      → 1 ≤ cursor
      → r ≡ (z', reply)
      → IsResult z z'
          (remove_at (n - 1) (all_lines z))
          (clamp_cursor (length (all_lines z) - 1) cursor)
      → IsValid r.0
  removed-IsValid z' r reply n cursor low high from e result =
      let (one, most) = clamped (length (all_lines z) - 1) cursor from in
      let fewer = length-remove_at (n - 1) (all_lines z) (omega arith) in
      subst IsValid (sym (ap (λ (p : Zedit × Reply). p.0) e))
        (result-IsValid z z' _ _ result one (omega arith))

  pub delete_selected-IsValid : IsValid (delete_selected z).0
  delete_selected-IsValid = elim (within_or_past z.cursor_line (length (all_lines z))) [
    | inl (low, high) ↦
        let (z', e, result) = delete_selected_effect z v high in
        removed-IsValid z' _ _ z.cursor_line z.cursor_line low high low e result
    | inr (inl nothing) ↦ absurd (omega (arith, v.cursor_low))
    | inr (inr past) ↦ same-IsValid z _ _ v (delete_selected_past z v past)
  ]

  cursor_deleted :
      (n : ℕ) → 1 ≤ n → 1 ≤ (if ltb n z.cursor_line then z.cursor_line - 1 else z.cursor_line)
  cursor_deleted n low = ground (arith, v.cursor_low)

  pub delete_number-IsValid : (n : ℕ) (p : List ℕ) → IsValid (delete_number n p z).0
  delete_number-IsValid n (c ∷ p) =
      same-IsValid z _ _ v (delete_number_past z v n (c ∷ p) (inr refl))
  delete_number-IsValid n [] = elim (within_or_past n (length (all_lines z))) [
    | inl (low, high) ↦
        let (z', e, result) = delete_number_effect z v n low high in
        removed-IsValid z' _ _ n _ low high (cursor_deleted n low) e result
    | inr past ↦ same-IsValid z _ _ v (delete_number_past z v n [] (inl past))
  ]
