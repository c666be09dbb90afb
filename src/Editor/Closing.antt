-- ===== src/Editor/Closing.antt =====
-- Which commands of src/zc_source_editor.h close the editor.
pub mod Open
use zealos_aarch64_bringup.Base.{
  ℕ, ◌+◌, ◌≡◌, refl, inl, inr, ◌⊎◌, Bool, Bool-cases, Option-cases, true, false, not, ◌&&◌, ◌||◌,
  Option, none, some, List, [], ◌∷◌, arith, ap, ◌∙◌, sym, subst, ◌==◌, if◌then◌else◌, drop,
}
use zealos_aarch64_bringup.Store.Bank.{Store}
use zealos_aarch64_bringup.Store.Record.{u32}
use zealos_aarch64_bringup.Store.Name.{str_eq}
use zealos_aarch64_bringup.Store.Name.Laws.{str_eq_sound}
use zealos_aarch64_bringup.Store.Write.{Code, put}
use zealos_aarch64_bringup.Editor.Text.{Zedit, content, lines, splice, delete_line, bounds}
use zealos_aarch64_bringup.Editor.Input.{number}
use zealos_aarch64_bringup.Editor.View.{Screen, reveal_cursor}
use zealos_aarch64_bringup.Editor.File.{SaveReply, save_error, save, is_saved}
use zealos_aarch64_bringup.Editor.Valid.{if-both}
use zealos_aarch64_bringup.Editor.Command.{
  Reply, is_help, char_at, is_end, move_cursor, edit, insert_bounds, insert, delete_selected,
  append, delete_number, insert_number, change_number, at_number, numbered, quit, write,
  print_arguments, print_command, text_command, handle_command,
}
use zealos_aarch64_bringup.Editor.Closing.Open.{StaysOpen, stays, text_command-StaysOpen}

save_error_lem :
    (code : Code)
    → (code ≡ Code.ok)
      ⊎ ((reply : SaveReply) × (save_error code ≡ some reply) × (is_saved reply ≡ false))
unfolding save_error is_saved
save_error_lem Code.ok = inl refl
save_error_lem Code.invalid = inr (SaveReply.save_failed, refl, refl)
save_error_lem Code.unavailable = inr (SaveReply.partition_unavailable, refl, refl)
save_error_lem Code.full = inr (SaveReply.partition_full, refl, refl)
save_error_lem Code.missing = inr (SaveReply.save_failed, refl, refl)
save_error_lem Code.unflushed = inr (SaveReply.save_failed, refl, refl)

-- What zedit_save returns for unsaved changes, and that it does not close the editor.
saved_or_not :
    (z : Zedit) (st : Store)
    → z.dirty ≡ true
    → ((save z st).0.0.active ≡ z.active)
      × ((is_saved (save z st).1 ≡ false) ⊎ ((put z.name (content z) st).1 ≡ Code.ok))
unfolding save is_saved save_error
saved_or_not z st unsaved =
    let result = (put z.name (content z) st).1 in
    elim (Bool-cases (z.length == 0)) [
      | inl empty ↦ (rw (save, unsaved, empty) refl, inl (rw (save, unsaved, empty) refl))
      | inr some_text ↦ elim (save_error_lem result) [
        | inl fine ↦ (rw (save, unsaved, some_text, fine) refl, inr fine)
        | inr (reply, e, bad) ↦
            (rw (save, unsaved, some_text, e) refl, inl (rw (save, unsaved, some_text, e) bad))
      ]
    ]

write_w : (z : Zedit) (st : Store) → (write (b'w' ∷ []) z st).0.0.active ≡ (save z st).0.0.active
unfolding write
write_w z st = elim (Bool-cases (is_saved (save z st).1)) [
  | inl e ↦ rw (write, e) refl
  | inr e ↦ rw (write, e) refl
]

write_wq :
    (z : Zedit) (st : Store)
    → is_saved (save z st).1 ≡ false
    → (write (b'w' ∷ b'q' ∷ []) z st).0.0.active ≡ (save z st).0.0.active
unfolding write
write_wq z st e = rw (write, e) refl

quit_on : (z : Zedit) → z.dirty ≡ true → (quit (b'q' ∷ []) z).0.active ≡ z.active
unfolding quit
quit_on z unsaved = rw (quit, unsaved) refl

abbrev after : Screen → List ℕ → Zedit → Store → Bool
after screen line z st = (handle_command screen line z st).0.0.active

q_after :
    (screen : Screen) (z : Zedit) (st : Store)
    → after screen (b'q' ∷ []) z st ≡ (quit (b'q' ∷ []) z).0.active
unfolding handle_command str_eq
q_after screen z st = refl

w_after :
    (screen : Screen) (z : Zedit) (st : Store)
    → after screen (b'w' ∷ []) z st ≡ (write (b'w' ∷ []) z st).0.0.active
unfolding handle_command str_eq
w_after screen z st = refl

wq_after :
    (screen : Screen) (z : Zedit) (st : Store)
    → after screen (b'w' ∷ b'q' ∷ []) z st ≡ (write (b'w' ∷ b'q' ∷ []) z st).0.0.active
unfolding handle_command str_eq
wq_after screen z st = refl

text_active :
    (screen : Screen) (line : List ℕ) (z : Zedit) → (text_command screen line z).0.active ≡ z.active
text_active screen line z = elim (text_command-StaysOpen z screen line) [ stays _ e ↦ e ]

still_open :
    {A : Type 0}
    → (now open_before : Bool) → now ≡ open_before
    → open_before ≡ true
    → now ≡ false
    → A
still_open now open_before same opened closes = absurd (ground (arith, same, opened, closes))

wq_cases :
    (screen : Screen) (z : Zedit) (st : Store)
    → z.dirty ≡ true
    → (after screen (b'w' ∷ b'q' ∷ []) z st ≡ z.active) ⊎ ((put z.name (content z) st).1 ≡ Code.ok)
wq_cases screen z st unsaved =
    let (same, kind) = saved_or_not z st unsaved in
    elim kind [ inl e ↦ inl (wq_after screen z st ∙ write_wq z st e ∙ same) | inr fine ↦ inr fine ]

-- A command line that closes an open editor with unsaved changes is `q!`, or it is `wq` and zss_put
-- has taken the text under the name of the file.
pub closing :
    (screen : Screen) (line : List ℕ) (z : Zedit) (st : Store)
    → z.active ≡ true
    → z.dirty ≡ true
    → (handle_command screen line z st).0.0.active ≡ false
    → (line ≡ b'q' ∷ b'!' ∷ [])
      ⊎ ((line ≡ b'w' ∷ b'q' ∷ []) × ((put z.name (content z) st).1 ≡ Code.ok))
unfolding handle_command
closing screen line z st opened unsaved closes = elim (Bool-cases (is_help line)) [
  | inl asked ↦
      let same : after screen line z st ≡ z.active = rw (after, handle_command, asked) refl in
      still_open _ _ same opened closes
  | inr other ↦ elim (Bool-cases (str_eq line (b'q' ∷ []))) [
    | inl q ↦
        let e = str_eq_sound line _ q in
        still_open _ _ (ap (λ l. after screen l z st) e ∙ q_after screen z st ∙ quit_on z unsaved)
          opened closes
    | inr not_q ↦ elim (Bool-cases (str_eq line (b'q' ∷ b'!' ∷ []))) [
      | inl forced ↦ inl (str_eq_sound line _ forced)
      | inr not_forced ↦ elim (Bool-cases (str_eq line (b'w' ∷ []))) [
        | inl w ↦
            let e = str_eq_sound line _ w in
            still_open _ _
              (ap (λ l. after screen l z st) e
                ∙ w_after screen z st
                ∙ write_w z st
                ∙ (saved_or_not z st unsaved).0)
              opened closes
        | inr not_w ↦ elim (Bool-cases (str_eq line (b'w' ∷ b'q' ∷ []))) [
          | inl wq ↦
              let e = str_eq_sound line _ wq in
              elim (wq_cases screen z st unsaved) [
                | inl same ↦ still_open _ _ (ap (λ l. after screen l z st) e ∙ same) opened closes
                | inr fine ↦ inr (e, fine)
              ]
          | inr not_wq ↦
              let same : after screen line z st ≡ (text_command screen line z).0.active =
                rw (after, handle_command, other, not_q, not_forced, not_w, not_wq) refl in
              still_open _ _ (same ∙ text_active screen line z) opened closes
        ]
      ]
    ]
  ]
]
