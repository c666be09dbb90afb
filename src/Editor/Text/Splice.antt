-- ===== src/Editor/Text/Splice.antt =====
-- What zedit_splice and zedit_delete_line of src/zc_source_editor.h make of the text.
use zealos_aarch64_bringup.Base.{
  ℕ, ◌+◌, ◌-◌, ◌^◌, ◌≤◌, ◌<◌, ◌≡◌, refl, inl, inr, true, false, Bool, ◌||◌, none, some, List, [],
  ◌∷◌, ◌++◌, arith, length, length-append, ltb, le→ltb, if◌then◌else◌, ap, ap₂, ◌∙◌, sym,
}
use native.Mathlib.Nat.{zero-add}
use zealos_aarch64_bringup.Store.Bytes.{
  set_byte, put_bytes, read_bytes, put_bytes_outside, read_bytes-put_bytes,
}
use zealos_aarch64_bringup.Store.Bytes.Ranges.{
  read_bytes_shift, read_bytes-append, put_bytes-append,
}
use zealos_aarch64_bringup.Store.Record.{max_file, u32}
use zealos_aarch64_bringup.Editor.Text.{
  Buffer, newline, Zedit, content, move_down, move_tail, prefix_of, splice, delete_line, bounds,
}
use zealos_aarch64_bringup.Editor.Text.Move.{move_tail_lem}

-- The bytes in front of `start`, then `ins`, then the tail from `end` on.
abbrev pub spliced : Zedit → ℕ → ℕ → List ℕ → List ℕ
spliced z start end ins =
    read_bytes z.text 0 start ++ (ins ++ read_bytes z.text end (z.length - end))

module _ (t : Buffer) (start end len : ℕ) (ins : List ℕ) (se : start ≤ end) (el : end ≤ len) where
  -- The tail is moved first, then the new bytes are put in front of it.
  buffer : Buffer
  buffer = put_bytes (move_tail t (start + length ins) end (len + 1 - end)) start ins

  buffer_before : (j : ℕ) → j < start → buffer j ≡ t j
  unfolding buffer
  buffer_before j lt =
      put_bytes_outside _ start ins j (inl (omega arith))
      ∙ move_tail_lem t (start + length ins) end (len + 1 - end) j
      ∙ ground arith

  buffer_behind : (i : ℕ) → i < len + 1 - end → buffer (start + length ins + i) ≡ t (end + i)
  unfolding buffer
  buffer_behind i lt =
      let e : start + length ins + i - (start + length ins) ≡ i = omega arith in
      put_bytes_outside _ start ins (start + length ins + i) (inr (omega arith))
      ∙ move_tail_lem t (start + length ins) end (len + 1 - end) (start + length ins + i)
      ∙ ground arith

  buffer-content :
      read_bytes buffer 0 (len - (end - start) + length ins)
      ≡ read_bytes t 0 start ++ (ins ++ read_bytes t end (len - end))
  unfolding buffer
  buffer-content =
      let sum : len - (end - start) + length ins ≡ start + (length ins + (len - end)) =
        omega arith in
      let z : 0 + start ≡ start = omega arith in
      ap (read_bytes buffer 0) sum
      ∙ read_bytes-append buffer 0 start (length ins + (len - end))
      ∙ ap₂ (λ (a b : List ℕ). a ++ b)
          (read_bytes_shift buffer t 0 0 start (λ i lt. rw zero-add (buffer_before i lt)))
          (ap (λ k. read_bytes buffer k (length ins + (len - end))) z
            ∙ read_bytes-append buffer start (length ins) (len - end)
            ∙ ap₂ (λ (a b : List ℕ). a ++ b) (read_bytes-put_bytes _ start ins)
                (read_bytes_shift buffer t (start + length ins) end (len - end)
                  (λ i lt. buffer_behind i (omega arith))))

  buffer_terminator : buffer (len - (end - start) + length ins) ≡ t len
  buffer_terminator =
      let here : start + length ins + (len - end) ≡ len - (end - start) + length ins =
        omega arith in
      let there : end + (len - end) ≡ len = omega arith in
      rw (here, there) at (buffer_behind (len - end) (omega arith))

-- The bytes that zedit_splice puts in.
abbrev pub inserted_bytes : Zedit → List ℕ → Bool → List ℕ
inserted_bytes z body append_eof = prefix_of z append_eof ++ (body ++ newline ∷ [])

-- `z` with another text, which is to be saved.
abbrev pub retexted : Zedit → Buffer → ℕ → Zedit
retexted z text length = record z { text = text; length = length; dirty = true }

-- `z'` is `z` with `ins` in place of the bytes from `start` to `end`, and with its terminator.
pub record IsSplice (z : Zedit) (start end : ℕ) (ins : List ℕ) (z' : Zedit) : Type 0 where
  pub same : z' ≡ retexted z z'.text z'.length
  pub contents : content z' ≡ spliced z start end ins
  pub counted : z'.length ≡ z.length - (end - start) + length ins
  pub terminated : z'.text z'.length ≡ z.text z.length

buffer-IsSplice :
    (z : Zedit) (start end : ℕ) (ins : List ℕ) (se : start ≤ end) (el : end ≤ z.length)
    → IsSplice z start end ins (
        retexted z
          (buffer z.text start end z.length ins se el)
          (z.length - (end - start) + length ins))
buffer-IsSplice z start end ins se el = record {
  same = refl;
  contents = buffer-content z.text start end z.length ins se el;
  counted = refl;
  terminated = buffer_terminator z.text start end z.length ins se el;
}

module _ (z : Zedit) (start end : ℕ) (body : List ℕ) (append_eof : Bool) (se : start ≤ end)
    (el : end ≤ z.length) (small : length body < 2 ^ 31) where
  prefix : List ℕ
  prefix = prefix_of z append_eof

  ins : List ℕ
  unfolding prefix
  ins = inserted_bytes z body append_eof

  prefix_short : length prefix ≤ 1
  unfolding prefix
  prefix_short = ground arith

  length-ins : length ins ≡ length prefix + length body + 1
  unfolding ins
  length-ins =
      omega (arith, length-append prefix (body ++ newline ∷ []), length-append body (newline ∷ []))

  unwrapped : u32 (length prefix + length body + 1) ≡ length ins
  unwrapped = omega (arith, length-ins, prefix_short)

  filled :
      (t : Buffer)
      → set_byte
          (put_bytes (put_bytes t start prefix) (start + length prefix) body)
          (start + length prefix + length body)
          newline
        ≡ put_bytes t start ins
  unfolding ins put_bytes
  filled t = sym (
      put_bytes-append t start prefix (body ++ newline ∷ [])
      ∙ put_bytes-append (put_bytes t start prefix) (start + length prefix) body (newline ∷ []))

  full : Bool
  full = ltb max_file (length ins) || ltb (max_file - length ins) (z.length - (end - start))

  splice_step : splice z start end body append_eof ≡ (
      if full
      then none
      else some (
          retexted z
            (buffer z.text start end z.length ins se el)
            (z.length - (end - start) + length ins)))
  unfolding splice full prefix buffer
  splice_step =
      rw (unwrapped, filled (move_tail z.text (start + length ins) end (z.length + 1 - end)))

  fits_test :
      z.length - (end - start) + length (inserted_bytes z body append_eof) ≤ max_file → full ≡ false
  unfolding full ins
  fits_test h = ground arith

  full_test :
      max_file < z.length - (end - start) + length (inserted_bytes z body append_eof) → full ≡ true
  unfolding full ins
  full_test h = ground arith

  -- What does not fit is refused.
  pub splice-none :
      max_file < z.length - (end - start) + length (inserted_bytes z body append_eof)
      → splice z start end body append_eof ≡ none
  splice-none h = rw (splice_step, full_test h) refl

  -- What fits takes the place of the bytes from `start` to `end`.
  pub splice-some :
      z.length - (end - start) + length (inserted_bytes z body append_eof) ≤ max_file
      → (z' : Zedit) × (splice z start end body append_eof ≡ some z')
        × IsSplice z start end (inserted_bytes z body append_eof) z'
  unfolding ins
  splice-some h = (
    retexted z (buffer z.text start end z.length ins se el) (z.length - (end - start) + length ins),
    rw (splice_step, fits_test h) refl,
    buffer-IsSplice z start end ins se el,
  )

tail_down :
    (t : Buffer) (start end n : ℕ)
    → start ≤ end
    → move_tail t (start + 0) end n ≡ move_down t start end n
unfolding move_tail
tail_down t start end n se =
    let z : start + 0 ≡ start = omega arith in rw (z, le→ltb end start se) refl

-- A line that is found is taken out.
pub delete_line-some :
    (z : Zedit) (number start end : ℕ)
    → bounds z number ≡ some (start, end)
    → start ≤ end
    → end ≤ z.length
    → (z' : Zedit) × (delete_line z number ≡ some z') × IsSplice z start end [] z'
unfolding delete_line buffer put_bytes
delete_line-some z number start end found se el =
    let tail = tail_down z.text start end (z.length + 1 - end) se in
    (
      retexted z (buffer z.text start end z.length [] se el) (z.length - (end - start) + 0),
      ground (arith, tail),
      buffer-IsSplice z start end [] se el,
    )

pub delete_line-none :
    (z : Zedit) (number : ℕ) → bounds z number ≡ none → delete_line z number ≡ none
unfolding delete_line
delete_line-none z number e = ground arith
