-- ===== src/Pi/Dma/Partition.antt =====
-- What pi4_usb_dma_reserve of src/pi4_dma.h does to the memory map.
use zealos_aarch64_bringup.Base.{
  ℕ, ◌+◌, ◌-◌, ◌%◌, ◌≤◌, ◌≡◌, refl, inl, inr, Bool-cases, true, false, ◌&&◌, ◌||◌, none, some, List,
  [], ◌∷◌, ◌++◌, ◌⊎◌, ltb, leb, ◌==◌, arith, if◌then◌else◌, or_false,
}
use zealos_aarch64_bringup.Pi.Dma.{
  arena_bytes, arena_align, min_phys, u64_max, usable, usb_dma, MemEntry, Window, is_unsuitable,
  is_misplaced, low_of, align_up, bus_of, candidate, is_before, is_after, arena_entry, tail_entry,
  carve,
}

-- 1 for an address from `start` to `end`, 0 for another.
abbrev pub within : ℕ → ℕ → ℕ → ℕ
within start end a = if leb start a && ltb a end then 1 else 0

abbrev pub covers : ℕ → MemEntry → ℕ → ℕ
covers kind e a = if e.kind == kind then within e.base (e.base + e.length) a else 0

-- How many entries of a kind an address lies in.
abbrev pub coverage : ℕ → List MemEntry → ℕ → ℕ
coverage kind [] a = 0
coverage kind (e ∷ es) a = covers kind e a + coverage kind es a

coverage-append :
    (kind : ℕ) (xs ys : List MemEntry) (a : ℕ)
    → coverage kind (xs ++ ys) a ≡ coverage kind xs a + coverage kind ys a
coverage-append kind [] ys a = omega arith
coverage-append kind (x ∷ xs) ys a = omega (arith, coverage-append kind xs ys a)

-- The place that is chosen.
pub record IsPlace (w : Window) (e : MemEntry) (base : ℕ) : Type 0 where
  pub was_usable : e.kind ≡ usable
  pub aligned : base % arena_align ≡ 0
  pub high_enough : min_phys ≤ base
  pub inside_entry : (e.base ≤ base) × (base + arena_bytes ≤ e.base + e.length)
  pub inside_window : (w.dma_cpu_base ≤ base) × (base + arena_bytes ≤ w.dma_cpu_base + w.dma_size)
  pub inside_bus : bus_of w base + arena_bytes ≤ w.dma_bus_base + w.dma_size

placed :
    (w : Window) (e : MemEntry) (base : ℕ)
    → base ≡ align_up (low_of w e)
    → is_unsuitable e ≡ false
    → is_misplaced w e base ≡ false
    → IsPlace w e base
placed w e base b suits fits = record {
  was_usable = ground arith;
  aligned = omega (arith, b);
  high_enough = ground arith;
  inside_entry = ground arith;
  inside_window = ground arith;
  inside_bus = ground arith;
}

pub candidate-IsPlace :
    (w : Window) (e : MemEntry)
    → (candidate w e ≡ none) ⊎ ((base : ℕ) × (candidate w e ≡ some base) × IsPlace w e base)
unfolding candidate
candidate-IsPlace w e =
    let base = align_up (low_of w e) in
    elim (Bool-cases (is_unsuitable e || ltb (u64_max - (arena_align - 1)) (low_of w e))) [
      | inl skipped ↦ inl (rw (candidate, skipped) refl)
      | inr suits ↦ elim (Bool-cases (is_misplaced w e base)) [
        | inl misplaced ↦ inl (rw (candidate, suits, misplaced) refl)
        | inr fits ↦
            inr
              (base, rw (candidate, suits, fits) refl, placed w e base refl (or_false suits).0 fits)
      ]
    ]

within_split :
    (start middle end a : ℕ)
    → start ≤ middle
    → middle ≤ end
    → within start end a ≡ within start middle a + within middle end a
within_split start middle end a sm me = ground arith

-- The arena takes its bytes from usable memory, and nothing else changes.
abbrev pub arena_share : ℕ → ℕ → ℕ → ℕ → ℕ
arena_share kind want base a = if want == kind then within base (base + arena_bytes) a else 0

module _ (w : Window) (e : MemEntry) (base : ℕ) (place : IsPlace w e base) (kind a : ℕ) where
  front : ℕ
  front = if usable == kind then within e.base base a else 0

  back : ℕ
  back = if usable == kind then within (base + arena_bytes) (e.base + e.length) a else 0

  tail-coverage : coverage kind (tail_entry e base) a ≡ back
  unfolding back
  tail-coverage =
      let (low, high) = place.inside_entry in
      elim (Bool-cases (is_after e base)) [
        | inl after ↦
            let end : base + arena_bytes + (e.base + e.length - (base + arena_bytes))
                ≡ e.base + e.length =
              omega arith in
            rw (after, end) (omega arith)
        | inr at_end ↦
            let nothing : within (base + arena_bytes) (e.base + e.length) a ≡ 0 = ground arith in
            rw (at_end, nothing) (ground arith)
      ]

  entry-covers : covers kind e a ≡ front + arena_share kind usable base a + back
  unfolding front back
  entry-covers =
      let (low, high) = place.inside_entry in
      let first = within_split e.base base (e.base + e.length) a low (omega arith) in
      let second =
        within_split base (base + arena_bytes) (e.base + e.length) a (omega arith) high in
      rw (place.was_usable) (elim (Bool-cases (usable == kind)) [
        | inl same ↦ rw same (omega (arith, first, second))
        | inr other ↦ rw other (omega arith)
      ])

  front-covers :
      is_before e base ≡ true → covers kind (record e { length = base - e.base }) a ≡ front
  unfolding front
  front-covers before =
      let end : e.base + (base - e.base) ≡ base = omega (arith, place.inside_entry) in
      rw (place.was_usable, end) refl

  no_front : is_before e base ≡ false → front ≡ 0
  unfolding front
  no_front at_start =
      let nothing : within e.base base a ≡ 0 = ground arith in rw nothing (ground arith)

  pub carve-coverage :
      (pre post : List MemEntry)
      → coverage kind (carve pre e post base) a + arena_share kind usable base a
        ≡ coverage kind (pre ++ e ∷ post) a + arena_share kind usb_dma base a
  unfolding carve
  carve-coverage pre post =
      let tail = tail-coverage in
      let whole = coverage-append kind pre (e ∷ post) a in
      let entry = entry-covers in
      elim (Bool-cases (is_before e base)) [
        | inl before ↦
            let head = record e { length = base - e.base } in
            let rest = arena_entry base ∷ tail_entry e base in
            let outer = coverage-append kind pre (head ∷ (post ++ rest)) a in
            let inner = coverage-append kind post rest a in
            let first = front-covers before in
            rw (carve, before) (omega (arith, whole, entry, outer, inner, first, tail))
        | inr at_start ↦
            let rest = tail_entry e base in
            let outer = coverage-append kind pre (arena_entry base ∷ (post ++ rest)) a in
            let inner = coverage-append kind post rest a in
            let none_before = no_front at_start in
            rw (carve, at_start) (omega (arith, whole, entry, outer, inner, none_before, tail))
      ]
