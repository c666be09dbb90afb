-- ===== src/Editor/Valid.antt =====
-- Every command of src/zc_source_editor.h keeps the text well formed and the cursor on it.
pub mod Edit
pub mod Line
pub mod Handle
use zealos_aarch64_bringup.Base.{
  ℕ, zero, suc, ◌+◌, ◌-◌, ◌≤◌, ◌<◌, ◌^◌, ◌≡◌, refl, inl, inr, ◌⊎◌, Bool, not, ◌&&◌, Bool-cases,
  Option-cases, true, false, Option, none, some, List, [], ◌∷◌, ◌++◌, arith, length, ap, ◌∙◌, sym,
  subst, ltb, leb, leb→le, ◌==◌, ltb→lt, ltb→ge, if◌then◌else◌, drop, length-append,
}
use zealos_aarch64_bringup.Store.Record.{max_file, u32}
use zealos_aarch64_bringup.Store.Bank.{Store}
use zealos_aarch64_bringup.Store.Write.{put}
use zealos_aarch64_bringup.Editor.Text.{Zedit, content, lines}
use zealos_aarch64_bringup.Editor.Text.Lines.{NoNewline}
use zealos_aarch64_bringup.Editor.Text.Bounds.{lines_lem, lines_few}
use zealos_aarch64_bringup.Editor.Text.Positions.{
  remove_at, length-insert_at, length-set_at, length-remove_at,
}
use zealos_aarch64_bringup.Editor.Input.{is_digit, number_loop, number}
use zealos_aarch64_bringup.Editor.View.{Screen, page_rows, reveal_cursor, render}
use zealos_aarch64_bringup.Editor.File.{SaveReply, save_error, save}
use zealos_aarch64_bringup.Editor.Edits.{AreChars, IsText, IsBody, all_lines}
use zealos_aarch64_bringup.Editor.Effects.{
  IsValid, cursor_after_insert, cursor_after_delete, IsResult, Effect, done, refused,
}
use zealos_aarch64_bringup.Editor.Command.{
  Reply, skip_spaces, print_count, char_at, is_end, clamp_cursor, moved_cursor, move_cursor, edit,
  insert, delete_selected, append, delete_number, insert_number, change_number, at_number, numbered,
  quit, write, print_arguments, print_command, text_command, handle_command, handle,
}

-- Both branches.
pub if-both {ℓ ℓ'} :
    {A : Type ℓ} → (P : A → Type ℓ') (b : Bool) (x y : A) → P x → P y → P (if b then x else y)
if-both P true x y p q = p
if-both P false x y p q = q

-- The view and the flags do not matter.
pub viewed-IsValid :
    (z : Zedit) (first count : ℕ) (active dirty existed : Bool)
    → IsValid z
    → IsValid (record z {
      view_first = first;
      view_count = count;
      active = active;
      dirty = dirty;
      existed = existed;
    })
viewed-IsValid z first count active dirty existed v = record {
  text = record { small = v.text.small; chars = v.text.chars; terminated = v.text.terminated };
  cursor_low = v.cursor_low;
  cursor_high = v.cursor_high;
}

pub moved-IsValid :
    (z : Zedit) (cursor : ℕ)
    → IsValid z
    → 1 ≤ cursor
    → cursor ≤ length (all_lines z) + 1
    → IsValid (record z { cursor_line = cursor })
moved-IsValid z cursor v low high = record {
  text = record { small = v.text.small; chars = v.text.chars; terminated = v.text.terminated };
  cursor_low = low;
  cursor_high = high;
}

pub result-IsValid :
    (z z' : Zedit) (ls : List (List ℕ)) (cursor : ℕ)
    → IsResult z z' ls cursor
    → 1 ≤ cursor
    → cursor ≤ length ls + 1
    → IsValid z'
result-IsValid z z' ls cursor r low high =
    let at : z'.cursor_line ≡ cursor = ap (λ (w : Zedit). w.cursor_line) r.same in
    let count = ap (λ (l : List (List ℕ)). length l) r.edited in
    record { text = r.text; cursor_low = omega arith; cursor_high = omega arith }

pub Effect-IsValid :
    (z : Zedit) (body : List ℕ) (r : Zedit × Reply) (reply : Reply) (ls : List (List ℕ))
    (cursor : ℕ)
    → IsValid z
    → 1 ≤ cursor
    → cursor ≤ length ls + 1
    → Effect z body r reply ls cursor
    → IsValid r.0
Effect-IsValid z body r reply ls cursor v low high (done z' e result) =
    subst IsValid (sym (ap (λ (p : Zedit × Reply). p.0) e))
      (result-IsValid z z' ls cursor result low high)
Effect-IsValid z body r reply ls cursor v low high (refused e much) =
    subst IsValid (sym (ap (λ (p : Zedit × Reply). p.0) e)) v

pub same-IsValid :
    (z : Zedit) (r : Zedit × Reply) (reply : Reply) → IsValid z → r ≡ (z, reply) → IsValid r.0
same-IsValid z r reply v e = subst IsValid (sym (ap (λ (p : Zedit × Reply). p.0) e)) v

pub clamped :
    (total cursor : ℕ)
    → 1 ≤ cursor
    → (1 ≤ clamp_cursor total cursor) × (clamp_cursor total cursor ≤ total + 1)
unfolding clamp_cursor
clamped total cursor low = ground arith

pub within_or_past : (n most : ℕ) → ((1 ≤ n) × (n ≤ most)) ⊎ ((n ≡ 0) ⊎ (most < n))
within_or_past n most = elim (Bool-cases (ltb n 1)) [
  | inl nothing ↦ inr (inl (ground arith))
  | inr something ↦ elim (Bool-cases (ltb most n)) [
    | inl past ↦ inr (inr (ltb→lt most n past))
    | inr there ↦ inl (ltb→ge n 1 something, ltb→ge most n there)
  ]
]
