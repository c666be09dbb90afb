-- ===== src/Editor/Text/Refine.antt =====
-- zedit_splice and zedit_delete_line of src/zc_source_editor.h, at a line that zedit_bounds finds, as
-- operations on the list of lines.
use zealos_aarch64_bringup.Base.{
  ℕ, ◌+◌, ◌-◌, ◌≤◌, ◌≡◌, refl, inl, inr, Bool-cases, true, false, List, [], ◌∷◌, ◌++◌, arith,
  length, length-append, append-nil, append_assoc, ap, ap₂, ◌∙◌, sym,
}
use zealos_aarch64_bringup.Store.Bytes.{read_bytes}
use zealos_aarch64_bringup.Store.Bytes.Ranges.{read_bytes-append}
use zealos_aarch64_bringup.Editor.Text.{newline, Zedit, content, is_unfinished}
use zealos_aarch64_bringup.Editor.Text.Lines.{
  lines_of, is_open, NoNewline, lines_of-append, lines_of_line, lines_of_finish, lines_of_nil,
  is_open_finish,
}
use zealos_aarch64_bringup.Editor.Text.Bounds.{is_unfinished_lem}
use zealos_aarch64_bringup.Editor.Text.Number.{IsLineAt, joined}
use zealos_aarch64_bringup.Editor.Text.Positions.{
  insert_at, set_at, remove_at, insert_at-append, set_at-append, remove_at-append,
}
use zealos_aarch64_bringup.Editor.Text.Splice.{spliced, inserted_bytes}

-- One new line between closed bytes and the rest.
lines_of_inserted :
    (pre body rest : List ℕ)
    → is_open pre ≡ false
    → NoNewline body
    → lines_of (pre ++ ((body ++ newline ∷ []) ++ rest)) ≡ lines_of pre ++ body ∷ lines_of rest
lines_of_inserted pre body rest closed plain =
    lines_of-append pre ((body ++ newline ∷ []) ++ rest) closed
    ∙ ap (λ r. lines_of pre ++ r)
        (lines_of-append (body ++ newline ∷ []) rest (is_open_finish body)
          ∙ ap (λ r. r ++ lines_of rest) (lines_of_line body plain))

module _ (z : Zedit) (number start end : ℕ) (at : IsLineAt z.text z.length number start end) where
  before : List ℕ
  before = read_bytes z.text 0 start

  here : List ℕ
  here = read_bytes z.text start (end - start)

  behind : List ℕ
  behind = read_bytes z.text end (z.length - end)

  count_before : length (lines_of before) ≡ number - 1
  unfolding before
  count_before = omega (arith, at.numbered)

  rest_joined : read_bytes z.text start (z.length - start) ≡ here ++ behind
  unfolding here behind
  rest_joined =
      let some_bytes = at.line.some_bytes in
      let inside = at.line.inside in
      let sum : z.length - start ≡ end - start + (z.length - end) = omega arith in
      let there : start + (end - start) ≡ end = omega arith in
      ap (read_bytes z.text start) sum
      ∙ read_bytes-append z.text start (end - start) (z.length - end)
      ∙ ap (λ k. here ++ read_bytes z.text k (z.length - end)) there

  content_joined : content z ≡ before ++ (here ++ behind)
  unfolding before
  content_joined =
      joined z.text start z.length (omega (arith, at.line.some_bytes, at.line.inside))
      ∙ ap (λ r. before ++ r) rest_joined

  nothing_behind : end ≡ z.length → behind ≡ []
  unfolding behind read_bytes
  nothing_behind e = let none_left : z.length - end ≡ 0 = omega arith in rw none_left refl

  rest_lines : lines_of (here ++ behind) ≡ at.line.body ∷ lines_of behind
  unfolding here
  rest_lines = elim at.line.ended [
    | inl closed ↦
        lines_of-append here behind closed ∙ ap (λ r. r ++ lines_of behind) at.line.one_line
    | inr e ↦ rw (nothing_behind e) (
        ap lines_of (append-nil here)
        ∙ at.line.one_line
        ∙ ap (λ r. at.line.body ∷ r) (sym lines_of_nil))
  ]

  content_lines : lines_of (content z) ≡ lines_of before ++ at.line.body ∷ lines_of behind
  unfolding before
  content_lines =
      ap lines_of content_joined
      ∙ lines_of-append before (here ++ behind) at.closed_before
      ∙ ap (λ r. lines_of before ++ r) rest_lines

  pub line_there : (1 ≤ number) × (number ≤ length (lines_of (content z)))
  line_there =
      let counted = ap (λ (ls : List (List ℕ)). length ls) content_lines in
      let sum = length-append (lines_of before) (at.line.body ∷ lines_of behind) in
      let before_it = at.numbered in (omega arith, omega (arith, count_before))

  -- A new line in place of the one found.
  pub set_line_lem :
      (body : List ℕ)
      → NoNewline body
      → lines_of (spliced z start end (body ++ newline ∷ []))
        ≡ set_at (number - 1) body (lines_of (content z))
  unfolding before behind
  set_line_lem body plain =
      lines_of_inserted before body behind at.closed_before plain
      ∙ sym (
          ap (set_at (number - 1) body) content_lines
          ∙ ap (λ n. set_at n body (lines_of before ++ at.line.body ∷ lines_of behind))
              (sym count_before)
          ∙ set_at-append (lines_of before) (lines_of behind) body at.line.body)

  -- A new line in front of the one found.
  pub insert_line_lem :
      (body : List ℕ)
      → NoNewline body
      → lines_of (spliced z start start (body ++ newline ∷ []))
        ≡ insert_at (number - 1) body (lines_of (content z))
  unfolding before
  insert_line_lem body plain =
      let rest = read_bytes z.text start (z.length - start) in
      lines_of_inserted before body rest at.closed_before plain
      ∙ sym (
          ap (insert_at (number - 1) body) (
            content_lines
            ∙ ap (λ r. lines_of before ++ r) (sym rest_lines ∙ ap lines_of (sym rest_joined)))
          ∙ ap (λ n. insert_at n body (lines_of before ++ lines_of rest)) (sym count_before)
          ∙ insert_at-append (lines_of before) (lines_of rest) body)

  -- The line found is gone.
  pub remove_line_lem :
      lines_of (spliced z start end []) ≡ remove_at (number - 1) (lines_of (content z))
  unfolding before behind
  remove_line_lem =
      lines_of-append before behind at.closed_before
      ∙ sym (
          ap (remove_at (number - 1)) content_lines
          ∙ ap (λ n. remove_at n (lines_of before ++ at.line.body ∷ lines_of behind))
              (sym count_before)
          ∙ remove_at-append (lines_of before) (lines_of behind) at.line.body)

-- A line behind the last one.
pub append_line_lem :
    (z : Zedit) (body : List ℕ)
    → NoNewline body
    → lines_of (spliced z z.length z.length (inserted_bytes z body true))
      ≡ lines_of (content z) ++ body ∷ []
unfolding read_bytes
append_line_lem z body plain =
    let cs = content z in
    let none_left : z.length - z.length ≡ 0 = omega arith in
    let unfinished = is_unfinished_lem z in
    elim (Bool-cases (is_unfinished z)) [
      | inl opened ↦
          rw (none_left, opened, append-nil)
            (ap lines_of (sym (append_assoc cs (newline ∷ []) (body ++ newline ∷ [])))
              ∙ lines_of-append (cs ++ newline ∷ []) (body ++ newline ∷ []) (is_open_finish cs)
              ∙ ap₂ (λ (a b : List (List ℕ)). a ++ b) (lines_of_finish cs (sym unfinished ∙ opened))
                  (lines_of_line body plain))
      | inr closed ↦
          rw (none_left, closed, append-nil)
            (lines_of-append cs (body ++ newline ∷ []) (sym unfinished ∙ closed)
              ∙ ap (λ r. lines_of cs ++ r) (lines_of_line body plain))
    ]
