-- ===== src/Editor/Tests.antt =====
-- Runs of src/zc_source_editor.h on a text of two lines and on an empty one.
mod Witnesses
use zealos_aarch64_bringup.Base.{
  ℕ, ◌+◌, ◌≤◌, ◌≡◌, ap, refl, Bool, true, false, some, none, List, [], ◌∷◌, arith, length,
}
use zealos_aarch64_bringup.Store.Bytes.{set_byte, put_bytes, read_bytes}
use zealos_aarch64_bringup.Store.Bank.{Store, available}
use zealos_aarch64_bringup.Store.Record.{blocks_of}
use zealos_aarch64_bringup.Store.Name.{str_eq}
use zealos_aarch64_bringup.Store.Tests.{name_a, empty, empty-room}
use zealos_aarch64_bringup.Editor.Text.{
  newline, Zedit, content, newlines, is_unfinished, lines, scan_line, line_end, bounds_loop, bounds,
  move_up, move_down, move_tail, splice, delete_line,
}
use zealos_aarch64_bringup.Editor.Text.Lines.{lines_of}
use zealos_aarch64_bringup.Editor.Input.{number_loop, number}
use zealos_aarch64_bringup.Editor.View.{
  Screen, Printed, line_text, print_lines, print, page_rows, reveal_cursor,
}
use zealos_aarch64_bringup.Editor.Command.{
  Reply, quit, skip_spaces, print_count, print_arguments, clamp_cursor, moved_cursor, move_cursor,
  insert_bounds, insert, edit, delete_selected, delete_number, insert_number, at_number, numbered,
  text_command, handle_command, print_command,
}
use zealos_aarch64_bringup.Editor.Edits.{AreChars, IsText, IsBody, all_lines}
use zealos_aarch64_bringup.Editor.Effects.{IsValid}

abbrev pub ab_line : List ℕ
ab_line = b'a' ∷ b'b' ∷ []

abbrev pub cd_line : List ℕ
cd_line = b'c' ∷ b'd' ∷ []

abbrev pub force : List ℕ
force = b'q' ∷ b'!' ∷ []

abbrev pub nothing : List ℕ
nothing = []

abbrev pub one : ℕ
one = 1

abbrev pub two : ℕ
two = 2

abbrev pub blank : ℕ → ℕ
blank = λ i. 0

-- `ab`, and `cd` without a newline.
abbrev pub two_lines : Zedit
two_lines = record {
  name = name_a;
  length = 5;
  view_first = 1;
  view_count = 0;
  cursor_line = 2;
  active = true;
  dirty = true;
  existed = false;
  text = put_bytes blank 0 (b'a' ∷ b'b' ∷ newline ∷ b'c' ∷ b'd' ∷ []);
}

abbrev pub no_lines : Zedit
no_lines = record two_lines { length = 0; cursor_line = 1; text = blank }

abbrev pub screen : Screen
screen = record { fb_rows = 30; fb_cols = 80 }

pub two_lines-lines : all_lines two_lines ≡ ab_line ∷ cd_line ∷ []
unfolding lines_of read_bytes put_bytes
two_lines-lines = refl

cd-AreChars : AreChars cd_line
cd-AreChars = (omega arith, omega arith, (omega arith, omega arith, tt))

two_lines-AreChars : AreChars (content two_lines)
unfolding read_bytes put_bytes
two_lines-AreChars =
    (omega arith, omega arith, (omega arith, omega arith, (omega arith, omega arith, cd-AreChars)))

two_lines-terminated : two_lines.text 5 ≡ 0
unfolding put_bytes
two_lines-terminated = refl

pub two_lines-IsText : IsText two_lines
two_lines-IsText = record {
  small = omega arith;
  chars = two_lines-AreChars;
  terminated = two_lines-terminated;
}

pub two_lines-IsValid : IsValid two_lines
two_lines-IsValid =
    let count = ap (λ (ls : List (List ℕ)). length ls) two_lines-lines in
    record { text = two_lines-IsText; cursor_low = omega arith; cursor_high = omega arith }

pub cd-IsBody : IsBody cd_line
cd-IsBody = record {
  one_line = (ground arith, (ground arith, tt));
  chars = cd-AreChars;
  short = omega arith;
}

pub two_digits : number (b'2' ∷ b' ' ∷ cd_line) ≡ some (2, b' ' ∷ cd_line)
unfolding number number_loop
two_digits = refl

pub one_digit : number (b'1' ∷ []) ≡ some (1, [])
unfolding number number_loop
one_digit = refl

pub two_lines-room : 1 + 1 + blocks_of (length (content two_lines)) ≤ (available empty).0.sectors
unfolding read_bytes
two_lines-room = empty-room

pub forced_quit : (handle_command screen (b'q' ∷ b'!' ∷ []) two_lines empty).0.0.active ≡ false
unfolding handle_command quit str_eq
forced_quit = refl

-- The characters of a run that says what it does.
abbrev shown : (Zedit × Store) × Reply → List ℕ × ℕ × Reply
shown r = (content r.0.0, r.0.0.cursor_line, r.1)

-- `d 1`
deletes :
    shown (handle_command screen (b'd' ∷ b' ' ∷ b'1' ∷ []) two_lines empty)
    ≡ (cd_line, 1, Reply.deleted_line 1)
unfolding handle_command text_command str_eq numbered number number_loop at_number delete_number
    delete_line bounds bounds_loop line_end scan_line move_down clamp_cursor lines newlines
    is_unfinished read_bytes put_bytes
deletes = refl

-- `i 3 e`: the unfinished line gets its newline.
inserts : shown (handle_command screen (b'i' ∷ b' ' ∷ b'3' ∷ b' ' ∷ b'e' ∷ []) two_lines empty) ≡ (
  b'a' ∷ b'b' ∷ newline ∷ b'c' ∷ b'd' ∷ newline ∷ b'e' ∷ newline ∷ [],
  2,
  Reply.inserted_line 3,
)
unfolding handle_command text_command str_eq numbered number number_loop at_number insert_number
    insert_bounds splice move_tail move_up lines newlines is_unfinished read_bytes put_bytes
inserts = refl

-- `i 1 x` on an empty text leaves the cursor behind the only line, where `e` finds none.
behind_the_end :
    shown (handle_command screen (b'i' ∷ b' ' ∷ b'1' ∷ b' ' ∷ b'x' ∷ []) no_lines empty)
    ≡ (b'x' ∷ newline ∷ [], 2, Reply.inserted_line 1)
unfolding handle_command text_command str_eq numbered number number_loop at_number insert_number
    insert_bounds splice move_tail move_up lines newlines is_unfinished read_bytes put_bytes
behind_the_end = refl

-- `p 2`
prints :
    (handle_command screen (b'p' ∷ b' ' ∷ b'2' ∷ []) two_lines empty).1
    ≡ Reply.print_reply (Printed.printed ((2, cd_line) ∷ []))
unfolding handle_command text_command str_eq print_command print_arguments skip_spaces print_count
    number number_loop print print_lines line_text bounds bounds_loop line_end scan_line lines
    newlines is_unfinished put_bytes
prints = refl
