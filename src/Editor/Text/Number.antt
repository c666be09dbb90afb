-- ===== src/Editor/Text/Number.antt =====
-- zedit_bounds of src/zc_source_editor.h finds the line of a number, or there is none.
use zealos_aarch64_bringup.Base.{
  ℕ, zero, suc, ◌+◌, ◌-◌, ◌≤◌, ◌<◌, ◌≡◌, refl, inl, inr, ◌⊎◌, true, false, Option, none, some, List,
  [], ◌∷◌, ◌++◌, arith, length, length-append, ltb, ltb→lt, ltb→ge, ◌==◌, ==_iff, Bool-cases, ap,
  ◌∙◌, subst,
}
use native.Mathlib.Nat.{zero-add}
use zealos_aarch64_bringup.Store.Bytes.{read_bytes}
use zealos_aarch64_bringup.Store.Bytes.Ranges.{read_bytes-append}
use zealos_aarch64_bringup.Store.Record.{max_file, u32}
use zealos_aarch64_bringup.Editor.Text.{Buffer, Zedit, content, line_end, bounds_loop, bounds}
use zealos_aarch64_bringup.Editor.Text.Lines.{lines_of, is_open, lines_of-append}
use zealos_aarch64_bringup.Editor.Text.Bounds.{IsLine, line_end-IsLine}

-- The line of that number stands from `start` to `end`.
pub record IsLineAt (t : Buffer) (len number start end : ℕ) : Type 0 where
  pub line : IsLine t len start end
  pub closed_before : is_open (read_bytes t 0 start) ≡ false
  pub numbered : length (lines_of (read_bytes t 0 start)) + 1 ≡ number

-- Two ranges one behind the other.
pub joined :
    (t : Buffer) (a b : ℕ) → a ≤ b → read_bytes t 0 b ≡ read_bytes t 0 a ++ read_bytes t a (b - a)
joined t a b le =
    let sum : b ≡ a + (b - a) = omega arith in
    ap (read_bytes t 0) sum
    ∙ read_bytes-append t 0 a (b - a)
    ∙ ap (λ k. read_bytes t 0 a ++ read_bytes t k (b - a)) (zero-add a)

closed_append :
    (xs ys : List ℕ) → is_open xs ≡ false → is_open ys ≡ false → is_open (xs ++ ys) ≡ false
unfolding is_open
closed_append [] ys h k = k
closed_append (x ∷ []) [] h k = h
closed_append (x ∷ []) (y ∷ ys) h k = k
closed_append (x ∷ x' ∷ xs) ys h k = closed_append (x' ∷ xs) ys h k

module _ (t : Buffer) (len number : ℕ) (small : len ≤ max_file) where
  -- `at` is the start of line `current`, or the end of the text.
  record IsStart (current at : ℕ) : Type 0 where
    inside : at ≤ len
    closed : (is_open (read_bytes t 0 at) ≡ false) ⊎ (at ≡ len)
    counted : length (lines_of (read_bytes t 0 at)) + 1 ≡ current
    low : current ≤ at + 1
    wanted : current ≤ number

  abbrev Outcome : Option (ℕ × ℕ) → Type 0
  Outcome r =
      ((start : ℕ) × (end : ℕ) × (r ≡ some (start, end)) × IsLineAt t len number start end)
      ⊎ ((r ≡ none) × (length (lines_of (read_bytes t 0 len)) < number))

  loop_ends :
      (fuel current at : ℕ)
      → ltb at len ≡ false
      → bounds_loop (suc fuel) t len number current at ≡ none
  unfolding bounds_loop
  loop_ends fuel current at h = ground arith

  loop_finds :
      (fuel current at : ℕ)
      → ltb at len ≡ true
      → (current == number) ≡ true
      → bounds_loop (suc fuel) t len number current at ≡ some (at, line_end t len at)
  unfolding bounds_loop
  loop_finds fuel current at h e = ground arith

  loop_goes_on :
      (fuel current at : ℕ)
      → ltb at len ≡ true
      → (current == number) ≡ false
      → bounds_loop (suc fuel) t len number current at
        ≡ bounds_loop fuel t len number (u32 (current + 1)) (line_end t len at)
  unfolding bounds_loop
  loop_goes_on fuel current at h e = ground arith

  closed_start :
      (current at : ℕ) → IsStart current at → at < len → is_open (read_bytes t 0 at) ≡ false
  closed_start current at s lt = elim s.closed [ inl c ↦ c | inr e ↦ absurd (omega (arith, e)) ]

  next-IsStart :
      (current at : ℕ)
      → IsStart current at
      → at < len
      → current < number
      → IsStart (u32 (current + 1)) (line_end t len at)
  next-IsStart current at s lt more =
      let l = line_end-IsLine t len at lt in
      let end = line_end t len at in
      let ahead = l.some_bytes in
      let le = l.inside in
      let low = s.low in
      let unwrapped : u32 (current + 1) ≡ current + 1 = omega arith in
      let closed = closed_start current at s lt in
      let both = joined t at end (omega arith) in
      let split : lines_of (read_bytes t 0 end) ≡ lines_of (read_bytes t 0 at) ++ l.body ∷ [] =
        ap lines_of both
        ∙ lines_of-append (read_bytes t 0 at) (read_bytes t at (end - at)) closed
        ∙ ap (λ r. lines_of (read_bytes t 0 at) ++ r) l.one_line in
      rw unwrapped (record {
        inside = l.inside;
        closed = elim l.ended [
          | inl c ↦
              inl
                (rw both (closed_append (read_bytes t 0 at) (read_bytes t at (end - at)) closed c))
          | inr e ↦ inr e
        ];
        counted =
            rw split (
              omega (arith, length-append (lines_of (read_bytes t 0 at)) (l.body ∷ []), s.counted));
        low = omega arith;
        wanted = omega arith;
      })

  bounds_loop_lem :
      (fuel current at : ℕ)
      → IsStart current at
      → len < fuel + at
      → Outcome (bounds_loop fuel t len number current at)
  bounds_loop_lem zero current at s enough = absurd (omega (arith, s.inside))
  bounds_loop_lem (suc fuel) current at s enough = elim (Bool-cases (ltb at len)) [
    | inr past ↦
        let e : at ≡ len = omega (arith, s.inside, ltb→ge at len past) in
        let few : length (lines_of (read_bytes t 0 at)) < number =
          omega (arith, s.counted, s.wanted) in
        inr (
          loop_ends fuel current at past,
          subst (λ k. length (lines_of (read_bytes t 0 k)) < number) e few,
        )
    | inl inside ↦
        let lt = ltb→lt at len inside in
        elim (Bool-cases (current == number)) [
          | inl here ↦ inl (
            at,
            line_end t len at,
            loop_finds fuel current at inside here,
            record {
              line = line_end-IsLine t len at lt;
              closed_before = closed_start current at s lt;
              numbered = s.counted ∙ (==_iff current number).0 here;
            },
          )
          | inr on ↦
              let more : current < number = ground (arith, s.wanted) in
              let ahead = (line_end-IsLine t len at lt).some_bytes in
              rw (loop_goes_on fuel current at inside on) (
                bounds_loop_lem fuel (u32 (current + 1)) (line_end t len at)
                  (next-IsStart current at s lt more) (omega arith))
        ]
  ]

first-IsStart :
    (t : Buffer) (len number : ℕ) (small : len ≤ max_file)
    → 1 ≤ number
    → IsStart t len number small 1 0
unfolding read_bytes lines_of is_open
first-IsStart t len number small asked = record {
  inside = omega arith;
  closed = inl refl;
  counted = refl;
  low = omega arith;
  wanted = asked;
}

abbrev pub Found : Zedit → ℕ → Option (ℕ × ℕ) → Type 0
Found z number r =
    ((start : ℕ) × (end : ℕ) × (r ≡ some (start, end)) × IsLineAt z.text z.length number start end)
    ⊎ ((r ≡ none) × ((number ≡ 0) ⊎ (length (lines_of (content z)) < number)))

-- zedit_bounds gives the place of the line of that number, and fails only where there is none.
pub bounds_lem : (z : Zedit) (number : ℕ) → z.length ≤ max_file → Found z number (bounds z number)
unfolding bounds
bounds_lem z number small = elim (Bool-cases (number == 0)) [
  | inl none_asked ↦ let e : number ≡ 0 = (==_iff number 0).0 none_asked in inr (rw e refl, inl e)
  | inr asked ↦
      let some_number : 1 ≤ number = ground arith in
      let first = first-IsStart z.text z.length number small some_number in
      let fuel : z.length < suc z.length + 0 = omega arith in
      let found = bounds_loop_lem z.text z.length number small (suc z.length) 1 0 first fuel in
      rw asked (elim found [ inl f ↦ inl f | inr (missing, past) ↦ inr (missing, inr past) ])
]
