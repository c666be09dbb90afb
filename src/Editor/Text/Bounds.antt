-- ===== src/Editor/Text/Bounds.antt =====
-- zedit_lines and zedit_bounds of src/zc_source_editor.h against the list of lines.
use zealos_aarch64_bringup.Base.{
  ℕ, zero, suc, ◌+◌, ◌-◌, ◌≤◌, ◌<◌, ◌≡◌, ◌≢◌, refl, inl, inr, ◌⊎◌, true, false, not, ◌&&◌, List, [],
  ◌∷◌, ◌++◌, arith, length, ltb, ltb→lt, ltb→ge, ◌==◌, ==_iff, Bool-cases, ap, ◌∙◌, sym, subst,
}
use zealos_aarch64_bringup.Store.Bytes.{read_bytes}
use zealos_aarch64_bringup.Store.Bytes.Ranges.{read_bytes-append}
use zealos_aarch64_bringup.Store.Record.{max_file, u32}
use zealos_aarch64_bringup.Editor.Text.{
  Buffer, newline, Zedit, content, newlines, is_unfinished, lines, scan_line, line_end,
}
use zealos_aarch64_bringup.Editor.Text.Lines.{
  lines_of, is_open, count_newlines, NoNewline, lines_of_line, lines_of_last, is_open_finish,
  length-lines_of,
}

newlines_lem : (t : Buffer) (i n : ℕ) → newlines t i n ≡ count_newlines (read_bytes t i n)
unfolding newlines count_newlines read_bytes
newlines_lem t i zero = refl
newlines_lem t i (suc n) = ground (arith, newlines_lem t (i + 1) n)

newlines-le : (t : Buffer) (i n : ℕ) → newlines t i n ≤ n
unfolding newlines
newlines-le t i zero = omega arith
newlines-le t i (suc n) = ground (arith, newlines-le t (i + 1) n)

is_open-read_bytes :
    (t : Buffer) (k n : ℕ) → is_open (read_bytes t k (suc n)) ≡ not (t (k + n) == newline)
unfolding is_open read_bytes
is_open-read_bytes t k zero = let e : k + 0 ≡ k = omega arith in rw e refl
is_open-read_bytes t k (suc n) =
    let e : k + suc n ≡ k + 1 + n = omega arith in rw e (is_open-read_bytes t (k + 1) n)

is_open-empty : (t : Buffer) (k : ℕ) → is_open (read_bytes t k 0) ≡ false
unfolding is_open read_bytes
is_open-empty t k = refl

open_text :
    (t : Buffer) (n : ℕ) → is_open (read_bytes t 0 n) ≡ (not (n == 0) && not (t (n - 1) == newline))
open_text t zero = is_open-empty t 0
open_text t (suc n) =
    let e : 0 + n ≡ suc n - 1 = omega arith in
    let last = rw e at (is_open-read_bytes t 0 n) in
    let some_bytes : (suc n == 0) ≡ false = ground arith in rw some_bytes last

-- The text ends without a newline.
pub is_unfinished_lem : (z : Zedit) → is_unfinished z ≡ is_open (content z)
unfolding is_unfinished
is_unfinished_lem z = sym (open_text z.text z.length)

-- zedit_lines is the number of lines.
pub lines_lem : (z : Zedit) → z.length ≤ max_file → lines z ≡ length (lines_of (content z))
unfolding lines
lines_lem z small =
    let few = newlines-le z.text 0 z.length in
    let unwrapped : u32 (newlines z.text 0 z.length + 1) ≡ newlines z.text 0 z.length + 1 =
      omega arith in
    rw (unwrapped, is_unfinished_lem z, newlines_lem z.text 0 z.length, length-lines_of (content z))
      (ground arith)

pub lines_few : (z : Zedit) → z.length ≤ max_file → length (lines_of (content z)) ≤ z.length + 1
unfolding lines
lines_few z small =
    let few = newlines-le z.text 0 z.length in
    let counted = lines_lem z small in
    let low : lines z ≤ z.length + 1 = ground arith in omega arith

-- The number behind the last line does not wrap.
pub lines_next :
    (z : Zedit) → z.length ≤ max_file → u32 (lines z + 1) ≡ length (lines_of (content z)) + 1
lines_next z small = omega (arith, lines_few z small, lines_lem z small)

-- The scan stops behind bytes that are no newlines, at a newline or at the end.
record IsScan (t : Buffer) (k n last : ℕ) : Type 0 where
  forward : k ≤ last
  within : last ≤ k + n
  plain : NoNewline (read_bytes t k (last - k))
  stopped : (last ≡ k + n) ⊎ (t last ≡ newline)

scan_line-here : (t : Buffer) (k n : ℕ) → (t k == newline) ≡ true → scan_line t k (suc n) ≡ k
unfolding scan_line
scan_line-here t k n e = rw e refl

scan_line-on :
    (t : Buffer) (k n : ℕ)
    → (t k == newline) ≡ false
    → scan_line t k (suc n) ≡ scan_line t (k + 1) n
unfolding scan_line
scan_line-on t k n e = rw e refl

nothing_plain : (t : Buffer) (k last : ℕ) → last ≡ k → NoNewline (read_bytes t k (last - k))
unfolding read_bytes
nothing_plain t k last e = let z : last - k ≡ 0 = omega arith in rw z tt

more_plain :
    (t : Buffer) (k last : ℕ)
    → k + 1 ≤ last
    → t k ≢ newline
    → NoNewline (read_bytes t (k + 1) (last - (k + 1)))
    → NoNewline (read_bytes t k (last - k))
unfolding read_bytes
more_plain t k last le ne rest =
    let z : last - k ≡ suc (last - (k + 1)) = omega arith in rw z (ne, rest)

scan_line-IsScan : (t : Buffer) (k n : ℕ) → IsScan t k n (scan_line t k n)
unfolding scan_line
scan_line-IsScan t k zero = record {
  forward = omega arith;
  within = omega arith;
  plain = nothing_plain t k k refl;
  stopped = inl (omega arith);
}
scan_line-IsScan t k (suc n) = elim (Bool-cases (t k == newline)) [
  | inl here ↦ subst (IsScan t k (suc n)) (sym (scan_line-here t k n here)) (record {
    forward = omega arith;
    within = omega arith;
    plain = nothing_plain t k k refl;
    stopped = inr ((==_iff (t k) newline).0 here);
  })
  | inr on ↦
      let s = scan_line-IsScan t (k + 1) n in
      let ahead = s.forward in
      let behind = s.within in
      subst (IsScan t k (suc n)) (sym (scan_line-on t k n on)) (record {
        forward = omega arith;
        within = omega arith;
        plain = more_plain t k (scan_line t (k + 1) n) s.forward (ground arith) s.plain;
        stopped = elim s.stopped [ inl e ↦ inl (omega (arith, e)) | inr e ↦ inr e ];
      })
]

line_and_newline :
    (t : Buffer) (at last : ℕ)
    → at ≤ last
    → t last ≡ newline
    → read_bytes t at (last + 1 - at) ≡ read_bytes t at (last - at) ++ newline ∷ []
unfolding read_bytes
line_and_newline t at last le e =
    let split : last + 1 - at ≡ last - at + 1 = omega arith in
    let there : at + (last - at) ≡ last = omega arith in
    ap (read_bytes t at) split
    ∙ read_bytes-append t at (last - at) 1
    ∙ ap (λ (c : ℕ). read_bytes t at (last - at) ++ c ∷ []) (ap t there ∙ e)

last_line :
    (t : Buffer) (at length : ℕ)
    → at < length
    → NoNewline (read_bytes t at (length - at))
    → lines_of (read_bytes t at (length - at)) ≡ read_bytes t at (length - at) ∷ []
unfolding read_bytes
last_line t at length lt plain =
    let z : length - at ≡ suc (length - at - 1) = omega arith in
    rw z (lines_of_last (t at) (read_bytes t (at + 1) (length - at - 1)) (rw z at plain))

-- From `start` to `end` stands one line, the last of the text or one with its newline.
pub record IsLine (t : Buffer) (length start end : ℕ) : Type 0 where
  pub some_bytes : start < end
  pub inside : end ≤ length
  pub body : List ℕ
  pub one_line : lines_of (read_bytes t start (end - start)) ≡ body ∷ []
  pub ended : (is_open (read_bytes t start (end - start)) ≡ false) ⊎ (end ≡ length)

pub line_end-IsLine :
    (t : Buffer) (length at : ℕ) → at < length → IsLine t length at (line_end t length at)
unfolding line_end
line_end-IsLine t length at lt =
    let s = scan_line-IsScan t at (length - at) in
    let last = scan_line t at (length - at) in
    let ahead = s.forward in
    let behind = s.within in
    elim (Bool-cases (ltb last length)) [
      | inl inside ↦
          let less : last < length = ltb→lt _ _ inside in
          let stop : t last ≡ newline = elim s.stopped [
            | inl e ↦ absurd (omega (arith, e))
            | inr e ↦ e
          ] in
          let whole : read_bytes t at (last + 1 - at)
              ≡ read_bytes t at (last - at) ++ newline ∷ [] =
            line_and_newline t at last ahead stop in
          rw inside (record {
            some_bytes = omega arith;
            inside = omega arith;
            body = read_bytes t at (last - at);
            one_line = rw whole (lines_of_line (read_bytes t at (last - at)) s.plain);
            ended = inl (rw whole (is_open_finish (read_bytes t at (last - at))));
          })
      | inr outside ↦
          let over = ltb→ge _ _ outside in
          let e : last ≡ length = omega arith in
          rw (outside, e)
            (record {
              some_bytes = omega arith;
              inside = omega arith;
              body = read_bytes t at (length - at);
              one_line = last_line t at length lt (rw e at s.plain);
              ended = inr refl;
            })
    ]
