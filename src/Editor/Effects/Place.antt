-- ===== src/Editor/Effects/Place.antt =====
-- The commands of src/zc_source_editor.h that put a line in or change one.
use zealos_aarch64_bringup.Base.{
  ℕ, ◌+◌, ◌-◌, ◌≤◌, ◌<◌, ◌≡◌, refl, inl, inr, ◌⊎◌, Bool-cases, false, some, List, [], ◌∷◌, ◌++◌,
  arith, length, ap, ◌∙◌, ◌==◌, ==_iff,
}
use zealos_aarch64_bringup.Store.Record.{max_file, u32}
use zealos_aarch64_bringup.Editor.Text.{Zedit, lines, splice}
use zealos_aarch64_bringup.Editor.Text.Bounds.{lines_few, lines_next}
use zealos_aarch64_bringup.Editor.Text.Number.{bounds_lem}
use zealos_aarch64_bringup.Editor.Text.Positions.{insert_at, set_at, insert_at_end}
use zealos_aarch64_bringup.Editor.Text.Refine.{line_there}
use zealos_aarch64_bringup.Editor.Edits.{
  IsBody, Outcome, all_lines, set_cases, insert_cases, append_cases,
}
use zealos_aarch64_bringup.Editor.Command.{
  Reply, edit, insert_bounds, insert, append, insert_number, change_number,
}
use zealos_aarch64_bringup.Editor.Effects.{
  IsValid, Effect, done, refused, cursor_after_insert, edit-IsResult, same_cursor, kept-IsResult,
}

module _ (z : Zedit) (v : IsValid z) where
  small : z.length ≤ max_file
  small = v.text.small

  -- Where a line can be put in.
  insert_cases_at :
      (body : List ℕ) (n : ℕ)
      → IsBody body
      → 1 ≤ n
      → n ≤ length (all_lines z) + 1
      → (start : ℕ) × (end : ℕ) × (insert_bounds z n ≡ some (start, end))
        × Outcome z body
            (splice z start start body (n == u32 (lines z + 1)))
            (insert_at (n - 1) body (all_lines z))
  unfolding insert_bounds
  insert_cases_at body n b low high =
      let next = lines_next z small in
      elim (Bool-cases (n == u32 (lines z + 1))) [
        | inl last ↦
            let e : n ≡ length (all_lines z) + 1 = (==_iff n _).0 last ∙ next in
            (
              z.length,
              z.length,
              rw last refl,
              rw (last, insert_at_end (all_lines z) (n - 1) body (omega arith))
                  (append_cases z body v.text b),
            )
        | inr inner ↦ elim (bounds_lem z n small) [
          | inl (start, end, found, at) ↦
              (start, end, rw inner found, rw inner (insert_cases z body v.text b n start end at))
          | inr (missing, why) ↦
              absurd (elim why [ inl nothing ↦ omega arith | inr past ↦ ground arith ])
        ]
      ]

  pub edit-Effect :
      (body : List ℕ)
      → IsBody body
      → z.cursor_line ≤ length (all_lines z)
      → Effect z body
          (edit body z)
          (Reply.edited_line z.cursor_line)
          (set_at (z.cursor_line - 1) body (all_lines z))
          z.cursor_line
  unfolding edit
  edit-Effect body b high = elim (bounds_lem z z.cursor_line small) [
    | inr (missing, why) ↦
        absurd (elim why [ inl nothing ↦ omega (arith, v.cursor_low) | inr past ↦ omega arith ])
    | inl (start, end, found, at) ↦ elim (set_cases z body v.text b z.cursor_line start end at) [
      | inl (z', r, e) ↦
          done z' (rw (edit, found, r) (ap (λ c. (z', Reply.edited_line c)) (same_cursor z z' _ e)))
            (kept-IsResult z z' _ e)
      | inr (r, much) ↦ refused (rw (edit, found, r) refl) much
    ]
  ]

  pub edit_past :
      (body : List ℕ)
      → length (all_lines z) < z.cursor_line
      → edit body z ≡ (z, Reply.cursor_out_of_range)
  unfolding edit
  edit_past body past = elim (bounds_lem z z.cursor_line small) [
    | inr (missing, why) ↦ rw (edit, missing) refl
    | inl (start, end, found, at) ↦ absurd (omega (arith, line_there z z.cursor_line start end at))
  ]

  pub change-Effect :
      (body : List ℕ) (n : ℕ)
      → IsBody body
      → 1 ≤ n
      → n ≤ length (all_lines z)
      → Effect z body
          (change_number n body z)
          (Reply.changed_line n)
          (set_at (n - 1) body (all_lines z))
          z.cursor_line
  unfolding change_number
  change-Effect body n b low high = elim (bounds_lem z n small) [
    | inr (missing, why) ↦ absurd (elim why [ inl nothing ↦ omega arith | inr past ↦ omega arith ])
    | inl (start, end, found, at) ↦ elim (set_cases z body v.text b n start end at) [
      | inl (z', r, e) ↦ done z' (rw (change_number, found, r) refl) (kept-IsResult z z' _ e)
      | inr (r, much) ↦ refused (rw (change_number, found, r) refl) much
    ]
  ]

  pub insert-Effect :
      (body : List ℕ)
      → IsBody body
      → Effect z body
          (insert body z)
          (Reply.inserted_line z.cursor_line)
          (insert_at (z.cursor_line - 1) body (all_lines z))
          z.cursor_line
  unfolding insert
  insert-Effect body b =
      let (start, end, found, outcome) =
        insert_cases_at body z.cursor_line b v.cursor_low v.cursor_high in
      elim outcome [
        | inl (z', r, e) ↦
            done z'
              (rw (insert, found, r) (ap (λ c. (z', Reply.inserted_line c)) (same_cursor z z' _ e)))
              (kept-IsResult z z' _ e)
        | inr (r, much) ↦ refused (rw (insert, found, r) refl) much
      ]

  pub append-Effect :
      (body : List ℕ)
      → IsBody body
      → Effect z body
          (append body z)
          (Reply.added_line (length (all_lines z) + 1))
          (all_lines z ++ body ∷ [])
          z.cursor_line
  unfolding append
  append-Effect body b = elim (append_cases z body v.text b) [
    | inl (z', r, e) ↦ done z' (rw (append, r, lines_next z small) refl) (kept-IsResult z z' _ e)
    | inr (r, much) ↦ refused (rw (append, r) refl) much
  ]

  unwrapped : u32 (z.cursor_line + 1) ≡ z.cursor_line + 1
  unwrapped = omega (arith, lines_few z small, v.cursor_high)

  pub insert_number-Effect :
      (body : List ℕ) (n : ℕ)
      → IsBody body
      → 1 ≤ n
      → n ≤ length (all_lines z) + 1
      → Effect z body
          (insert_number n body z)
          (Reply.inserted_line n)
          (insert_at (n - 1) body (all_lines z))
          (cursor_after_insert z n)
  unfolding insert_number
  insert_number-Effect body n b low high =
      let (start, end, found, outcome) = insert_cases_at body n b low high in
      elim outcome [
        | inl (z', r, e) ↦
            done (record z' { cursor_line = cursor_after_insert z n })
              (rw (insert_number, found, r, same_cursor z z' _ e, unwrapped) refl)
              (edit-IsResult z z' _ _ e)
        | inr (r, much) ↦ refused (rw (insert_number, found, r) refl) much
      ]

  pub insert_number_past :
      (body : List ℕ) (n : ℕ)
      → (n ≡ 0) ⊎ (length (all_lines z) + 1 < n)
      → insert_number n body z ≡ (z, Reply.line_out_of_range)
  unfolding insert_number insert_bounds
  insert_number_past body n past =
      let next = lines_next z small in
      let other : (n == u32 (lines z + 1)) ≡ false = ground arith in
      elim (bounds_lem z n small) [
        | inr (missing, why) ↦ rw (insert_number, insert_bounds, other, missing) refl
        | inl (start, end, found, at) ↦
            let (low, high) = line_there z n start end at in
            absurd (elim past [ inl e ↦ omega (arith, e) | inr e ↦ omega (arith, e) ])
      ]

  pub change_past :
      (body : List ℕ) (n : ℕ)
      → (n ≡ 0) ⊎ (length (all_lines z) < n)
      → change_number n body z ≡ (z, Reply.line_out_of_range)
  unfolding change_number
  change_past body n past = elim (bounds_lem z n small) [
    | inr (missing, why) ↦ rw (change_number, missing) refl
    | inl (start, end, found, at) ↦
        let (low, high) = line_there z n start end at in
        absurd (elim past [ inl e ↦ omega (arith, e) | inr e ↦ omega (arith, e) ])
  ]
