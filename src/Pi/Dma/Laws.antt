-- ===== src/Pi/Dma/Laws.antt =====
-- Every result of pi4_usb_dma_reserve, src/pi4_dma.h.
use zealos_aarch64_bringup.Base.{
  ℕ, ◌+◌, ◌-◌, ◌%◌, ◌≤◌, ◌<◌, ◌≡◌, refl, inl, inr, Bool-cases, true, none, List, [], ◌∷◌, ◌++◌, ltb,
  ltb→lt, ltb→ge, arith, if◌then◌else◌, length, length-append, append_assoc, append-nil, ap, ◌∙◌,
  sym, subst,
}
use zealos_aarch64_bringup.Pi.Dma.{
  arena_bytes, arena_align, min_phys, usable, usb_dma, mem_max, MemEntry, Window, DmaHandoff,
  is_unready, candidate, is_before, is_after, extra, arena_entry, tail_entry, carve, Reservation,
  reserve_at, reserve_loop, reserve,
}
use zealos_aarch64_bringup.Pi.Dma.Partition.{
  coverage, arena_share, IsPlace, candidate-IsPlace, carve-coverage,
}

-- `h'` is `h` with an arena.
pub record IsReservation (h h' : DmaHandoff) : Type 0 where
  pub partition :
      (kind a : ℕ)
      → coverage kind h'.mem a + arena_share kind usable h'.arena.phys_base a
        ≡ coverage kind h.mem a + arena_share kind usb_dma h'.arena.phys_base a
  pub bounded : length h'.mem ≤ mem_max
  pub sized : h'.arena.size ≡ arena_bytes
  pub aligned : h'.arena.phys_base % arena_align ≡ 0
  pub high_enough : min_phys ≤ h'.arena.phys_base
  pub inside_window :
      (h.pcie.dma_cpu_base ≤ h'.arena.phys_base)
      × (h'.arena.phys_base + arena_bytes ≤ h.pcie.dma_cpu_base + h.pcie.dma_size)
  pub same_offset :
      h'.arena.bus_base ≡ h.pcie.dma_bus_base + (h'.arena.phys_base - h.pcie.dma_cpu_base)
  pub inside_bus : h'.arena.bus_base + arena_bytes ≤ h.pcie.dma_bus_base + h.pcie.dma_size

-- No entry has room.
abbrev pub NoPlace : Window → List MemEntry → Type 0
NoPlace w [] = Unit
NoPlace w (e ∷ es) = (candidate w e ≡ none) × NoPlace w es

-- What each result says.
abbrev pub Says : DmaHandoff → Reservation → Type 0
Says h (Reservation.reserved h') = IsReservation h h'
Says h Reservation.unready = is_unready h ≡ true
Says h Reservation.no_slot = mem_max < length h.mem + 2
Says h Reservation.no_place = NoPlace h.pcie h.mem

NoPlace-append :
    (w : Window) (xs ys : List MemEntry) → NoPlace w xs → NoPlace w ys → NoPlace w (xs ++ ys)
NoPlace-append w [] ys h k = k
NoPlace-append w (x ∷ xs) ys h k = (h.0, NoPlace-append w xs ys h.1 k)

length-carve :
    (pre : List MemEntry) (e : MemEntry) (post : List MemEntry) (base : ℕ)
    → length (carve pre e post base) ≡ length (pre ++ e ∷ post) + extra e base
unfolding carve
length-carve pre e post base =
    let whole = length-append pre (e ∷ post) in
    let short = length-append post (tail_entry e base) in
    let long = length-append post (arena_entry base ∷ tail_entry e base) in
    let head = record e { length = base - e.base } in
    let outer = length-append pre (head ∷ (post ++ (arena_entry base ∷ tail_entry e base))) in
    let plain = length-append pre (arena_entry base ∷ (post ++ tail_entry e base)) in
    let last : length (tail_entry e base) ≡ (if is_after e base then 1 else 0) =
      elim (Bool-cases (is_after e base)) [ inl t ↦ rw t refl | inr f ↦ rw f refl ] in
    elim (Bool-cases (is_before e base)) [
      | inl before ↦ rw (carve, before) (omega (arith, whole, long, outer, last))
      | inr at_start ↦ rw (carve, at_start) (omega (arith, whole, short, plain, last))
    ]

extra_few : (e : MemEntry) (base : ℕ) → extra e base ≤ 2
extra_few e base = ground arith

reserve_at-Says :
    (pre : List MemEntry) (e : MemEntry) (post : List MemEntry) (base : ℕ) (h : DmaHandoff)
    → h.mem ≡ pre ++ e ∷ post
    → length h.mem ≤ mem_max
    → IsPlace h.pcie e base
    → Says h (reserve_at pre e post base h)
unfolding reserve_at
reserve_at-Says pre e post base h map few place =
    elim (Bool-cases (ltb (mem_max - length h.mem) (extra e base))) [
      | inl over ↦
          let much = ltb→lt (mem_max - length h.mem) (extra e base) over in
          rw (reserve_at, over) (omega (arith, extra_few e base))
      | inr room ↦
          let fits = ltb→ge (mem_max - length h.mem) (extra e base) room in
          let counted = ap (λ (m : List MemEntry). length m) map in
          rw (reserve_at, room)
            (record {
              partition = λ kind a.
                  carve-coverage h.pcie e base place kind a pre post
                  ∙ ap (λ m. coverage kind m a + arena_share kind usb_dma base a) (sym map);
              bounded = omega (arith, length-carve pre e post base, counted);
              sized = refl;
              aligned = place.aligned;
              high_enough = place.high_enough;
              inside_window = place.inside_window;
              same_offset = refl;
              inside_bus = place.inside_bus;
            })
    ]

reserve_loop-Says :
    (pre rest : List MemEntry) (h : DmaHandoff)
    → h.mem ≡ pre ++ rest
    → length h.mem ≤ mem_max
    → NoPlace h.pcie pre
    → Says h (reserve_loop pre rest h)
unfolding reserve_loop
reserve_loop-Says pre [] h map few none_yet =
    subst (NoPlace h.pcie) (sym (map ∙ append-nil pre)) none_yet
reserve_loop-Says pre (e ∷ es) h map few none_yet = elim (candidate-IsPlace h.pcie e) [
  | inl misfit ↦
      let step : reserve_loop pre (e ∷ es) h ≡ reserve_loop (pre ++ e ∷ []) es h =
        rw (reserve_loop, misfit) refl in
      subst (Says h) (sym step) (
        reserve_loop-Says (pre ++ e ∷ []) es h (map ∙ sym (append_assoc pre (e ∷ []) es)) few
          (NoPlace-append h.pcie pre (e ∷ []) none_yet (misfit, tt)))
  | inr (base, found, place) ↦
      let step : reserve_loop pre (e ∷ es) h ≡ reserve_at pre e es base h =
        rw (reserve_loop, found) refl in
      subst (Says h) (sym step) (reserve_at-Says pre e es base h map few place)
]

-- Where pi4_usb_dma_reserve succeeds, the arena is 64 KiB aligned, not below 4 MiB, inside the
-- window of the controller on both sides with the same offset, and the new map, of at most 256
-- entries, counts its bytes once more as USB memory and once less as usable memory and every other
-- byte as before. Where it fails, the handoff does not meet the conditions, no entry has room, or
-- the map has no two entries left.
pub reserve-Says : (h : DmaHandoff) → Says h (reserve h)
unfolding reserve is_unready
reserve-Says h = elim (Bool-cases (is_unready h)) [
  | inl bad ↦ rw (reserve, bad) bad
  | inr good ↦
      let few : length h.mem ≤ mem_max = ground (arith, good) in
      let step : reserve h ≡ reserve_loop [] h.mem h = rw (reserve, good) refl in
      subst (Says h) (sym step) (reserve_loop-Says [] h.mem h refl few tt)
]
