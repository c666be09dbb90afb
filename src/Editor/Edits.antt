-- ===== src/Editor/Edits.antt =====
-- zedit_splice and zedit_delete_line of src/zc_source_editor.h as the commands call them: what they
-- make of the lines, and when they refuse.
use zealos_aarch64_bringup.Base.{
  ℕ, ◌+◌, ◌-◌, ◌^◌, ◌≤◌, ◌<◌, ◌≡◌, inl, inr, ◌⊎◌, Bool-cases, true, false, Option, none, some, List,
  [], ◌∷◌, ◌++◌, arith, length, length-append, ap, ◌∙◌, subst, ltb, ltb→lt, ltb→ge, Bool, ◌&&◌,
  if◌then◌else◌,
}
use zealos_aarch64_bringup.Store.Bytes.{read_bytes}
use zealos_aarch64_bringup.Store.Record.{max_file}
use zealos_aarch64_bringup.Editor.Text.{
  newline, Zedit, content, prefix_of, is_unfinished, splice, delete_line,
}
use zealos_aarch64_bringup.Editor.Text.Lines.{lines_of, NoNewline}
use zealos_aarch64_bringup.Editor.Text.Number.{IsLineAt, joined, bounds_lem}
use zealos_aarch64_bringup.Editor.Text.Positions.{insert_at, set_at, remove_at}
use zealos_aarch64_bringup.Editor.Text.Splice.{
  retexted, spliced, inserted_bytes, IsSplice, splice-some, splice-none, delete_line-some,
  delete_line-none,
}
use zealos_aarch64_bringup.Editor.Text.Refine.{
  set_line_lem, insert_line_lem, remove_line_lem, append_line_lem, line_there,
}

-- Characters of a C string: neither NUL nor beyond a byte.
abbrev pub AreChars : List ℕ → Type 0
AreChars [] = Unit
AreChars (c ∷ cs) = (1 ≤ c) × (c < 256) × AreChars cs

pub AreChars-append : (xs ys : List ℕ) → AreChars xs → AreChars ys → AreChars (xs ++ ys)
AreChars-append [] ys h k = k
AreChars-append (x ∷ xs) ys (low, high, h) k = (low, high, AreChars-append xs ys h k)

AreChars-left : (xs ys : List ℕ) → AreChars (xs ++ ys) → AreChars xs
AreChars-left [] ys h = tt
AreChars-left (x ∷ xs) ys (low, high, h) = (low, high, AreChars-left xs ys h)

AreChars-right : (xs ys : List ℕ) → AreChars (xs ++ ys) → AreChars ys
AreChars-right [] ys h = h
AreChars-right (x ∷ xs) ys (low, high, h) = AreChars-right xs ys h

-- A C string that fits.
pub record IsText (z : Zedit) : Type 0 where
  pub small : z.length ≤ max_file
  pub chars : AreChars (content z)
  pub terminated : z.text z.length ≡ 0

-- A command line: one line of characters.
pub record IsBody (body : List ℕ) : Type 0 where
  pub one_line : NoNewline body
  pub chars : AreChars body
  pub short : length body < 2 ^ 31

-- `z'` is `z` with a text of these lines.
pub record IsEdit (z z' : Zedit) (ls : List (List ℕ)) : Type 0 where
  pub same : z' ≡ retexted z z'.text z'.length
  pub text : IsText z'
  pub edited : lines_of (content z') ≡ ls

abbrev pub all_lines : Zedit → List (List ℕ)
all_lines z = lines_of (content z)

spliced-AreChars :
    (z : Zedit) (start end : ℕ) (ins : List ℕ)
    → start ≤ end
    → end ≤ z.length
    → AreChars (content z)
    → AreChars ins
    → AreChars (spliced z start end ins)
spliced-AreChars z start end ins se el chars new =
    let first = subst AreChars (joined z.text start z.length (omega arith)) chars in
    let second = subst AreChars (joined z.text end z.length el) chars in
    AreChars-append (read_bytes z.text 0 start) (ins ++ read_bytes z.text end (z.length - end))
      (AreChars-left (read_bytes z.text 0 start) (read_bytes z.text start (z.length - start)) first)
      (AreChars-append ins (read_bytes z.text end (z.length - end)) new
        (AreChars-right (read_bytes z.text 0 end) (read_bytes z.text end (z.length - end)) second))

splice-IsEdit :
    (z z' : Zedit) (start end : ℕ) (ins : List ℕ) (ls : List (List ℕ))
    → IsText z
    → start ≤ end
    → end ≤ z.length
    → AreChars ins
    → z.length - (end - start) + length ins ≤ max_file
    → IsSplice z start end ins z'
    → lines_of (spliced z start end ins) ≡ ls
    → IsEdit z z' ls
splice-IsEdit z z' start end ins ls text se el new fits s e = record {
  same = s.same;
  text = record {
    small = rw s.counted fits;
    chars = rw s.contents (spliced-AreChars z start end ins se el text.chars new);
    terminated = s.terminated ∙ text.terminated;
  };
  edited = ap lines_of s.contents ∙ e;
}

-- What becomes of an edit: it is made, or the text would not fit.
abbrev pub Outcome : Zedit → List ℕ → Option Zedit → List (List ℕ) → Type 0
Outcome z body r ls =
    ((z' : Zedit) × (r ≡ some z') × IsEdit z z' ls)
    ⊎ ((r ≡ none) × (max_file < z.length + length body + 2))

separator : (b : Bool) → AreChars (if b then newline ∷ [] else [])
separator true = (omega arith, omega arith, tt)
separator false = tt

separator_short : (b : Bool) → length {A = ℕ} (if b then newline ∷ [] else []) ≤ 1
separator_short true = omega arith
separator_short false = omega arith

inserted_short :
    (z : Zedit) (body : List ℕ) (eof : Bool) → length (inserted_bytes z body eof) ≤ length body + 2
inserted_short z body eof = omega (
  arith,
  length-append (prefix_of z eof) (body ++ newline ∷ []),
  length-append body (newline ∷ []),
  separator_short (eof && is_unfinished z),
)

inserted-AreChars :
    (z : Zedit) (body : List ℕ) (eof : Bool) → IsBody body → AreChars (inserted_bytes z body eof)
inserted-AreChars z body eof b =
    let line = AreChars-append body (newline ∷ []) b.chars (omega arith, omega arith, tt) in
    AreChars-append (prefix_of z eof) (body ++ newline ∷ []) (separator (eof && is_unfinished z))
      line

module _ (z : Zedit) (body : List ℕ) (text : IsText z) (b : IsBody body) where
  splice_cases :
      (start end : ℕ) (eof : Bool) (ls : List (List ℕ))
      → start ≤ end
      → end ≤ z.length
      → lines_of (spliced z start end (inserted_bytes z body eof)) ≡ ls
      → Outcome z body (splice z start end body eof) ls
  splice_cases start end eof ls se el e =
      let total = z.length - (end - start) + length (inserted_bytes z body eof) in
      elim (Bool-cases (ltb max_file total)) [
        | inr fitting ↦
            let fits = ltb→ge max_file total fitting in
            let (z', r, s) = splice-some z start end body eof se el b.short fits in
            inl (
              z',
              r,
              splice-IsEdit z z' start end _ ls text se el (inserted-AreChars z body eof b) fits s
                  e,
            )
        | inl over ↦
            let much : max_file < total = ltb→lt max_file total over in
            inr (
              splice-none z start end body eof se el b.short much,
              omega (arith, inserted_short z body eof),
            )
      ]

  -- The line of that number becomes `body`.
  pub set_cases :
      (number start end : ℕ)
      → IsLineAt z.text z.length number start end
      → Outcome z body (splice z start end body false) (set_at (number - 1) body (all_lines z))
  set_cases number start end at =
      splice_cases start end false _ (omega (arith, at.line.some_bytes)) at.line.inside
        (set_line_lem z number start end at body b.one_line)

  -- `body` comes in front of the line of that number.
  pub insert_cases :
      (number start end : ℕ)
      → IsLineAt z.text z.length number start end
      → Outcome z body (splice z start start body false) (insert_at (number - 1) body (all_lines z))
  insert_cases number start end at =
      let inside = at.line.inside in
      splice_cases start start false _ (omega arith) (omega (arith, at.line.some_bytes))
        (insert_line_lem z number start end at body b.one_line)

  -- `body` comes behind the last line.
  pub append_cases :
      Outcome z body (splice z z.length z.length body true) (all_lines z ++ body ∷ [])
  append_cases =
      splice_cases z.length z.length true _ (omega arith) (omega arith)
        (append_line_lem z body b.one_line)

-- What becomes of a deletion: there is the line, or there is not.
abbrev pub Deletion : Zedit → ℕ → Option Zedit → Type 0
Deletion z number r =
    ((1 ≤ number)
      × (number ≤ length (all_lines z))
      × ((z' : Zedit) × (r ≡ some z') × IsEdit z z' (remove_at (number - 1) (all_lines z))))
    ⊎ ((r ≡ none) × ((number ≡ 0) ⊎ (length (all_lines z) < number)))

pub delete_cases : (z : Zedit) (number : ℕ) → IsText z → Deletion z number (delete_line z number)
delete_cases z number text = elim (bounds_lem z number text.small) [
  | inr (missing, why) ↦ inr (delete_line-none z number missing, why)
  | inl (start, end, found, at) ↦
      let inside = at.line.inside in
      let some_bytes = at.line.some_bytes in
      let se : start ≤ end = omega arith in
      let (low, high) = line_there z number start end at in
      let (z', r, s) = delete_line-some z number start end found se inside in
      let fits : z.length - (end - start) + 0 ≤ max_file = omega (arith, text.small) in
      inl (
        low,
        high,
        (
          z',
          r,
          splice-IsEdit z z' start end [] _ text se inside tt fits s
              (remove_line_lem z number start end at),
        ),
      )
]
