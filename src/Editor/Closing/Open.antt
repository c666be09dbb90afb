-- ===== src/Editor/Closing/Open.antt =====
-- The commands of src/zc_source_editor.h that leave the editor open.
use zealos_aarch64_bringup.Base.{
  ℕ, ◌+◌, ◌≡◌, refl, inl, inr, Bool, Option-cases, true, false, Option, none, some, List, [], ◌∷◌,
  sym, subst, ◌==◌, drop,
}
use zealos_aarch64_bringup.Store.Record.{u32}
use zealos_aarch64_bringup.Editor.Text.{Zedit, lines, splice, delete_line, bounds}
use zealos_aarch64_bringup.Editor.Input.{number}
use zealos_aarch64_bringup.Editor.View.{Screen, reveal_cursor}
use zealos_aarch64_bringup.Editor.Valid.{if-both}
use zealos_aarch64_bringup.Editor.Command.{
  Reply, char_at, move_cursor, edit, insert_bounds, insert, delete_selected, append, delete_number,
  insert_number, change_number, at_number, numbered, print_arguments, print_command, text_command,
}

-- An edit that is made leaves the editor as open as it was.
data IsAsOpen (open_before : Bool) : Option Zedit → Type 0 where
  refusal : IsAsOpen open_before none
  result : (z : Zedit) → z.active ≡ open_before → IsAsOpen open_before (some z)

as_open :
    (open_before : Bool) (z : Zedit) (r : Option Zedit)
    → r ≡ some z
    → IsAsOpen open_before r
    → z.active ≡ open_before
as_open open_before z r e k = elim (subst (IsAsOpen open_before) e k) [ result _ h ↦ h ]

splice-IsAsOpen :
    (z : Zedit) (start end : ℕ) (body : List ℕ) (eof : Bool)
    → IsAsOpen z.active (splice z start end body eof)
unfolding splice
splice-IsAsOpen z start end body eof = if-both (IsAsOpen z.active) _ _ _ refusal (result _ refl)

delete_line-IsAsOpen : (z : Zedit) (n : ℕ) → IsAsOpen z.active (delete_line z n)
unfolding delete_line
delete_line-IsAsOpen z n = elim (Option-cases (bounds z n)) [
  | inl e ↦ rw (delete_line, e) refusal
  | inr ((start, end), e) ↦ rw (delete_line, e) (result _ refl)
]

-- A command that leaves the editor as open as it was.
pub data StaysOpen (open_before : Bool) : Zedit × Reply → Type 0 where
  stays : (r : Zedit × Reply) → r.0.active ≡ open_before → StaysOpen open_before r

module _ (z : Zedit) where
  edit-active : (body : List ℕ) → (edit body z).0.active ≡ z.active
  unfolding edit
  edit-active body = elim (Option-cases (bounds z z.cursor_line)) [
    | inl e ↦ rw (edit, e) refl
    | inr ((start, end), e) ↦ elim (Option-cases (splice z start end body false)) [
      | inl e' ↦ rw (edit, e, e') refl
      | inr (z', e') ↦
          rw (edit, e, e') (as_open z.active z' _ e' (splice-IsAsOpen z start end body false))
    ]
  ]

  change-active : (n : ℕ) (body : List ℕ) → (change_number n body z).0.active ≡ z.active
  unfolding change_number
  change-active n body = elim (Option-cases (bounds z n)) [
    | inl e ↦ rw (change_number, e) refl
    | inr ((start, end), e) ↦ elim (Option-cases (splice z start end body false)) [
      | inl e' ↦ rw (change_number, e, e') refl
      | inr (z', e') ↦
          rw (change_number, e, e')
            (as_open z.active z' _ e' (splice-IsAsOpen z start end body false))
    ]
  ]

  insert-active : (body : List ℕ) → (insert body z).0.active ≡ z.active
  unfolding insert
  insert-active body =
      let eof = z.cursor_line == u32 (lines z + 1) in
      elim (Option-cases (insert_bounds z z.cursor_line)) [
        | inl e ↦ rw (insert, e) refl
        | inr ((start, end), e) ↦ elim (Option-cases (splice z start start body eof)) [
          | inl e' ↦ rw (insert, e, e') refl
          | inr (z', e') ↦
              rw (insert, e, e') (as_open z.active z' _ e' (splice-IsAsOpen z start start body eof))
        ]
      ]

  insert_number-active : (n : ℕ) (body : List ℕ) → (insert_number n body z).0.active ≡ z.active
  unfolding insert_number
  insert_number-active n body =
      let eof = n == u32 (lines z + 1) in
      elim (Option-cases (insert_bounds z n)) [
        | inl e ↦ rw (insert_number, e) refl
        | inr ((start, end), e) ↦ elim (Option-cases (splice z start start body eof)) [
          | inl e' ↦ rw (insert_number, e, e') refl
          | inr (z', e') ↦
              rw (insert_number, e, e')
                (as_open z.active z' _ e' (splice-IsAsOpen z start start body eof))
        ]
      ]

  append-active : (body : List ℕ) → (append body z).0.active ≡ z.active
  unfolding append
  append-active body = elim (Option-cases (splice z z.length z.length body true)) [
    | inl e ↦ rw (append, e) refl
    | inr (z', e) ↦
        rw (append, e) (as_open z.active z' _ e (splice-IsAsOpen z z.length z.length body true))
  ]

  delete_selected-active : (delete_selected z).0.active ≡ z.active
  unfolding delete_selected
  delete_selected-active = elim (Option-cases (delete_line z z.cursor_line)) [
    | inl e ↦ rw (delete_selected, e) refl
    | inr (z', e) ↦
        rw (delete_selected, e) (as_open z.active z' _ e (delete_line-IsAsOpen z z.cursor_line))
  ]

  delete_number-active : (n : ℕ) (p : List ℕ) → (delete_number n p z).0.active ≡ z.active
  unfolding delete_number
  delete_number-active n (c ∷ p) = refl
  delete_number-active n [] = elim (Option-cases (delete_line z n)) [
    | inl e ↦ rw (delete_number, e) refl
    | inr (z', e) ↦ rw (delete_number, e) (as_open z.active z' _ e (delete_line-IsAsOpen z n))
  ]

  at_number-StaysOpen : (command n : ℕ) (p : List ℕ) → StaysOpen z.active (at_number command n p z)
  unfolding at_number
  at_number-StaysOpen command n p =
      if-both (StaysOpen z.active) _ _ _ (stays (delete_number n p z) (delete_number-active n p)) (
        if-both (StaysOpen z.active) _ _ _ (stays (z, Reply.help) refl) (
          if-both (StaysOpen z.active) _ _ _
            (stays (insert_number n (drop 1 p) z) (insert_number-active n (drop 1 p)))
            (stays (change_number n (drop 1 p) z) (change-active n (drop 1 p)))))

  numbered-StaysOpen : (line : List ℕ) → StaysOpen z.active (numbered line z)
  unfolding numbered
  numbered-StaysOpen line = elim (Option-cases (number (drop 2 line))) [
    | inl e ↦ rw (numbered, e) (stays (z, Reply.help) refl)
    | inr ((n, p), e) ↦
        let step : numbered line z ≡ at_number (char_at line 0) n p z = rw (numbered, e) refl in
        subst (StaysOpen z.active) (sym step) (at_number-StaysOpen (char_at line 0) n p)
  ]

  print_command-active : (line : List ℕ) → (print_command line z).0.active ≡ z.active
  unfolding print_command
  print_command-active line = elim (Option-cases (print_arguments (drop 1 line))) [
    | inl e ↦ rw (print_command, e) refl
    | inr (asked, e) ↦ rw (print_command, e) refl
  ]

  move_cursor-active :
      (screen : Screen) (line : List ℕ) → (move_cursor screen line z).0.active ≡ z.active
  unfolding move_cursor reveal_cursor
  move_cursor-active screen line = refl

  pub text_command-StaysOpen :
      (screen : Screen) (line : List ℕ) → StaysOpen z.active (text_command screen line z)
  unfolding text_command
  text_command-StaysOpen screen line =
      let P : Zedit × Reply → Type 0 = StaysOpen z.active in
      if-both P _ _ _ (stays (print_command line z) (print_command-active line)) (
        if-both P _ _ _ (stays (move_cursor screen line z) (move_cursor-active screen line)) (
          if-both P _ _ _ (stays (edit (drop 2 line) z) (edit-active (drop 2 line))) (
            if-both P _ _ _ (stays (insert (drop 2 line) z) (insert-active (drop 2 line))) (
              if-both P _ _ _ (stays (delete_selected z) delete_selected-active) (
                if-both P _ _ _ (stays (append (drop 2 line) z) (append-active (drop 2 line)))
                  (if-both P _ _ _ (numbered-StaysOpen line) (stays (z, Reply.help) refl)))))))
