-- ===== src/Editor/Text/Lines.antt =====
-- A text as the list of its lines, which is what the commands of src/zc_source_editor.h are about. A
-- last line without a newline counts as a line.
use zealos_aarch64_bringup.Base.{
  ℕ, suc, ◌+◌, ◌≡◌, ◌≢◌, refl, inl, inr, ==_self, Bool, true, false, not, List, [], ◌∷◌, ◌++◌,
  arith, length, ◌==◌, if◌then◌else◌, Bool-cases, ap, ◌∙◌, sym,
}
use zealos_aarch64_bringup.Editor.Text.{newline}

abbrev pub add_first : ℕ → List (List ℕ) → List (List ℕ)
add_first c [] = (c ∷ []) ∷ []
add_first c (l ∷ ls) = (c ∷ l) ∷ ls

unfoldable pub lines_of : List ℕ → List (List ℕ)
lines_of [] = []
lines_of (c ∷ cs) = let rest = lines_of cs in if c == newline then [] ∷ rest else add_first c rest

-- The last byte is there and is no newline.
unfoldable pub is_open : List ℕ → Bool
is_open [] = false
is_open (c ∷ []) = not (c == newline)
is_open (c ∷ d ∷ cs) = is_open (d ∷ cs)

unfoldable pub count_newlines : List ℕ → ℕ
count_newlines [] = 0
count_newlines (c ∷ cs) = let rest = count_newlines cs in if c == newline then suc rest else rest

abbrev pub NoNewline : List ℕ → Type 0
NoNewline [] = Unit
NoNewline (c ∷ cs) = (c ≢ newline) × NoNewline cs

pub lines_of_nil : lines_of [] ≡ []
unfolding lines_of
lines_of_nil = refl

other : (c : ℕ) → c ≢ newline → (c == newline) ≡ false
other c h = ground arith

lines_of-newline :
    (c : ℕ) (cs : List ℕ) → (c == newline) ≡ true → lines_of (c ∷ cs) ≡ [] ∷ lines_of cs
unfolding lines_of
lines_of-newline c cs e = rw e refl

lines_of_other :
    (c : ℕ) (cs : List ℕ) → (c == newline) ≡ false → lines_of (c ∷ cs) ≡ add_first c (lines_of cs)
unfolding lines_of
lines_of_other c cs e = rw e refl

add_first-cons :
    (c : ℕ) (r : List (List ℕ)) → (l : List ℕ) × (ls : List (List ℕ)) × (add_first c r ≡ l ∷ ls)
add_first-cons c [] = (c ∷ [], [], refl)
add_first-cons c (l ∷ ls) = (c ∷ l, ls, refl)

-- A text that is not empty has a first line.
lines_of-cons :
    (c : ℕ) (cs : List ℕ) → (l : List ℕ) × (ls : List (List ℕ)) × (lines_of (c ∷ cs) ≡ l ∷ ls)
lines_of-cons c cs = elim (Bool-cases (c == newline)) [
  | inl e ↦ ([], lines_of cs, lines_of-newline c cs e)
  | inr e ↦ let (l, ls, f) = add_first-cons c (lines_of cs) in (l, ls, lines_of_other c cs e ∙ f)
]

-- Where there is a first line, a byte in front of it goes to that line.
add_first-append :
    (c : ℕ) (r more : List (List ℕ)) (l : List ℕ) (ls : List (List ℕ))
    → r ≡ l ∷ ls
    → add_first c (r ++ more) ≡ add_first c r ++ more
add_first-append c r more l ls e = rw e refl

-- Lines behind a newline are lines of their own.
pub lines_of-append :
    (pre rest : List ℕ)
    → is_open pre ≡ false
    → lines_of (pre ++ rest) ≡ lines_of pre ++ lines_of rest
unfolding is_open
lines_of-append [] rest h = rw lines_of_nil refl
lines_of-append (c ∷ []) rest h =
    let n : (c == newline) ≡ true = ground arith in
    lines_of-newline c rest n
    ∙ ap (λ l. l ++ lines_of rest) (sym (lines_of-newline c [] n ∙ ap (λ l. [] ∷ l) lines_of_nil))
lines_of-append (c ∷ d ∷ pre) rest h =
    let ih = lines_of-append (d ∷ pre) rest h in
    let (l, ls, e) = lines_of-cons d pre in
    elim (Bool-cases (c == newline)) [
      | inl n ↦
          lines_of-newline c (d ∷ pre ++ rest) n
          ∙ ap (λ r. [] ∷ r) ih
          ∙ ap (λ r. r ++ lines_of rest) (sym (lines_of-newline c (d ∷ pre) n))
      | inr n ↦
          lines_of_other c (d ∷ pre ++ rest) n
          ∙ ap (add_first c) ih
          ∙ add_first-append c (lines_of (d ∷ pre)) (lines_of rest) l ls e
          ∙ ap (λ r. r ++ lines_of rest) (sym (lines_of_other c (d ∷ pre) n))
    ]

-- One line, with its newline.
pub lines_of_line : (body : List ℕ) → NoNewline body → lines_of (body ++ newline ∷ []) ≡ body ∷ []
lines_of_line [] h = lines_of-newline newline [] (==_self newline) ∙ ap (λ r. [] ∷ r) lines_of_nil
lines_of_line (c ∷ cs) h =
    lines_of_other c (cs ++ newline ∷ []) (other c h.0) ∙ ap (add_first c) (lines_of_line cs h.1)

-- One line without it.
pub lines_of_last : (c : ℕ) (cs : List ℕ) → NoNewline (c ∷ cs) → lines_of (c ∷ cs) ≡ (c ∷ cs) ∷ []
lines_of_last c [] h = lines_of_other c [] (other c h.0) ∙ ap (add_first c) lines_of_nil
lines_of_last c (d ∷ cs) h =
    lines_of_other c (d ∷ cs) (other c h.0) ∙ ap (add_first c) (lines_of_last d cs h.1)

-- A newline behind an open text ends its last line.
pub lines_of_finish :
    (cs : List ℕ) → is_open cs ≡ true → lines_of (cs ++ newline ∷ []) ≡ lines_of cs
unfolding is_open
lines_of_finish [] h = absurd (ground arith)
lines_of_finish (c ∷ []) h =
    let n : (c == newline) ≡ false = ground arith in
    lines_of_other c (newline ∷ []) n
    ∙ ap (add_first c) (lines_of_line [] tt)
    ∙ sym (lines_of_other c [] n ∙ ap (add_first c) lines_of_nil)
lines_of_finish (c ∷ d ∷ cs) h = elim (Bool-cases (c == newline)) [
  | inl n ↦
      lines_of-newline c (d ∷ cs ++ newline ∷ []) n
      ∙ ap (λ r. [] ∷ r) (lines_of_finish (d ∷ cs) h)
      ∙ sym (lines_of-newline c (d ∷ cs) n)
  | inr n ↦
      lines_of_other c (d ∷ cs ++ newline ∷ []) n
      ∙ ap (add_first c) (lines_of_finish (d ∷ cs) h)
      ∙ sym (lines_of_other c (d ∷ cs) n)
]

pub is_open_finish : (cs : List ℕ) → is_open (cs ++ newline ∷ []) ≡ false
unfolding is_open
is_open_finish [] = refl
is_open_finish (c ∷ []) = refl
is_open_finish (c ∷ d ∷ cs) = is_open_finish (d ∷ cs)

length-add_first :
    (c : ℕ) (r : List (List ℕ)) (l : List ℕ) (ls : List (List ℕ))
    → r ≡ l ∷ ls
    → length (add_first c r) ≡ length r
length-add_first c r l ls e = rw e refl

-- As many lines as newlines, and one more where the last line has none.
pub length-lines_of :
    (cs : List ℕ) → length (lines_of cs) ≡ count_newlines cs + (if is_open cs then 1 else 0)
unfolding is_open count_newlines
length-lines_of [] = rw lines_of_nil (omega arith)
length-lines_of (c ∷ []) = elim (Bool-cases (c == newline)) [
  | inl n ↦ rw (lines_of-newline c [] n, lines_of_nil, n) (omega arith)
  | inr n ↦ rw (lines_of_other c [] n, lines_of_nil, n) (omega arith)
]
length-lines_of (c ∷ d ∷ cs) =
    let ih = length-lines_of (d ∷ cs) in
    let (l, ls, e) = lines_of-cons d cs in
    elim (Bool-cases (c == newline)) [
      | inl n ↦ rw (lines_of-newline c (d ∷ cs) n, n) (omega (arith, ih))
      | inr n ↦
          rw (lines_of_other c (d ∷ cs) n, n) (length-add_first c (lines_of (d ∷ cs)) l ls e ∙ ih)
    ]
