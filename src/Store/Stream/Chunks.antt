-- ===== src/Store/Stream/Chunks.antt =====
-- The chunks of zrecv_serial, src/kernel_stub.c, as one run of zss_stream_write over their bytes.
use zealos_aarch64_bringup.Base.{
  ℕ, suc, ◌+◌, ◌-◌, ◌/◌, ◌%◌, ◌^◌, ◌⊎◌, subst, ◌≤◌, ◌<◌, ◌≡◌, refl, Bool, Bool-cases, inl, inr,
  true, false, List, [], ◌∷◌, ◌++◌, ltb, ltb→ge, ◌==◌, arith, length, length-append, ap, ◌∙◌, sym,
}
use zealos_aarch64_bringup.Store.Bytes.{set_byte}
use zealos_aarch64_bringup.Store.Record.{max_file, u32}
use zealos_aarch64_bringup.Store.Bank.{Store, sector_write}
use zealos_aarch64_bringup.Store.Stream.{
  Stream, write_byte, taken, write_bytes, stream_write, receive,
}

-- The bytes of the chunks, one behind the other.
abbrev pub concat : List (List ℕ) → List ℕ
concat [] = []
concat (c ∷ cs) = c ++ concat cs

abbrev pub Writing : Type 0
Writing = (Stream × Store) × Bool

abbrev then_bytes : List ℕ → Writing → Writing
then_bytes cs r = elim r.1 [ false ↦ ((r.0.0, r.0.1), false) | true ↦ write_bytes cs r.0.0 r.0.1 ]

-- What zss_stream_write counts, where it does not fail.
abbrev Counted : Stream → ℕ → Writing → Type 0
Counted s n r =
    (r.1 ≡ false) ⊎ ((r.1 ≡ true) × (r.0.0.length ≡ s.length) × (r.0.0.written ≡ s.written + n))

write_byte-Counted :
    (c : ℕ) (s : Stream) (st : Store) → s.written + 1 < 2 ^ 32 → Counted s 1 (write_byte c s st)
unfolding write_byte taken
write_byte-Counted c s st small =
    let next : u32 (s.written + 1) ≡ s.written + 1 = omega arith in
    let w =
      sector_write st (u32 (s.tail + u32 (s.written + 1) / 512))
        (set_byte s.sector (s.written % 512) c) in
    elim (Bool-cases (u32 (s.written + 1) % 512 == 0)) [
      | inr partial ↦ inr (rw (write_byte, partial) (refl, refl, next))
      | inl full ↦ elim (Bool-cases w.1) [
        | inl fine ↦ inr (rw (write_byte, full, fine) (refl, refl, next))
        | inr failed ↦ inl (rw (write_byte, full, failed) refl)
      ]
    ]

write_bytes-Counted :
    (xs : List ℕ) (s : Stream) (st : Store)
    → s.written + length xs < 2 ^ 32
    → Counted s (length xs) (write_bytes xs s st)
unfolding write_bytes
write_bytes-Counted [] s st small = inr (refl, refl, omega arith)
write_bytes-Counted (c ∷ cs) s st small =
    let r = write_byte c s st in
    elim (write_byte-Counted c s st (omega arith)) [
      | inl failed ↦
          let step : write_bytes (c ∷ cs) s st ≡ ((r.0.0, r.0.1), false) =
            rw (write_bytes, failed) refl in
          inl (ap (λ (x : Writing). x.1) step)
      | inr (fine, len, n) ↦
          let step : write_bytes (c ∷ cs) s st ≡ write_bytes cs r.0.0 r.0.1 =
            rw (write_bytes, fine) refl in
          subst (Counted s (suc (length cs))) (sym step)
            (elim (write_bytes-Counted cs r.0.0 r.0.1 (omega arith)) [
              | inl failed ↦ inl failed
              | inr (fine', len', n') ↦ inr (fine', len' ∙ len, omega arith)
            ])
    ]

write_bytes-append :
    (xs ys : List ℕ) (s : Stream) (st : Store)
    → write_bytes (xs ++ ys) s st ≡ then_bytes ys (write_bytes xs s st)
unfolding write_bytes
write_bytes-append [] ys s st = refl
write_bytes-append (c ∷ cs) ys s st =
    let r = write_byte c s st in
    elim (Bool-cases r.1) [
      | inr failed ↦
          let all : write_bytes (c ∷ cs ++ ys) s st ≡ ((r.0.0, r.0.1), false) =
            rw (write_bytes, failed) refl in
          let first : write_bytes (c ∷ cs) s st ≡ ((r.0.0, r.0.1), false) =
            rw (write_bytes, failed) refl in
          all ∙ sym (ap (then_bytes ys) first)
      | inl fine ↦
          let all : write_bytes (c ∷ cs ++ ys) s st ≡ write_bytes (cs ++ ys) r.0.0 r.0.1 =
            rw (write_bytes, fine) refl in
          let first : write_bytes (c ∷ cs) s st ≡ write_bytes cs r.0.0 r.0.1 =
            rw (write_bytes, fine) refl in
          all ∙ write_bytes-append cs ys r.0.0 r.0.1 ∙ sym (ap (then_bytes ys) first)
    ]

nothing_left : (xs : List ℕ) → length xs ≡ 0 → xs ≡ []
nothing_left [] e = refl
nothing_left (x ∷ xs) e = absurd (omega (arith, e))

abbrev pub then_receive : List (List ℕ) → Writing → Writing
then_receive chunks r = elim r.1 [
  | false ↦ ((r.0.0, r.0.1), false)
  | true ↦ receive chunks r.0.0 r.0.1
]

receive_more :
    (bytes : List ℕ) (chunks : List (List ℕ)) (s : Stream) (st : Store)
    → ltb s.written s.length ≡ true
    → s.written + length bytes ≤ s.length
    → s.length ≤ max_file
    → receive (bytes ∷ chunks) s st ≡ then_receive chunks (write_bytes bytes s st)
unfolding receive stream_write
receive_more bytes chunks s st more fits small =
    let room : ltb (u32 (s.length + 2 ^ 32 - s.written)) (length bytes) ≡ false = ground arith in
    let whole : stream_write s bytes st ≡ write_bytes bytes s st = rw (stream_write, room) refl in
    let step : receive (bytes ∷ chunks) s st ≡ then_receive chunks (stream_write s bytes st) =
      rw (receive, more) refl in
    step ∙ ap (then_receive chunks) whole

-- The chunks make the bytes.
pub receive_lem :
    (chunks : List (List ℕ)) (s : Stream) (st : Store)
    → s.written + length (concat chunks) ≡ s.length
    → s.length ≤ max_file
    → receive chunks s st ≡ write_bytes (concat chunks) s st
unfolding receive write_bytes
receive_lem [] s st all small =
    let complete : ltb s.written s.length ≡ false = ground (arith, all) in
    rw (receive, complete) refl
receive_lem (bytes ∷ chunks) s st all small =
    let sizes = length-append bytes (concat chunks) in
    let r = write_bytes bytes s st in
    elim (Bool-cases (ltb s.written s.length)) [
      | inr complete ↦
          let over = ltb→ge s.written s.length complete in
          let none_left = nothing_left (bytes ++ concat chunks) (omega (arith, all)) in
          let step : receive (bytes ∷ chunks) s st ≡ ((s, st), true) =
            rw (receive, complete) refl in
          step ∙ sym (ap (λ l. write_bytes l s st) none_left)
      | inl more ↦
          receive_more bytes chunks s st more (omega (arith, all)) small
          ∙ elim (write_bytes-Counted bytes s st (omega (arith, all))) [
            | inl failed ↦ rw (then_receive, then_bytes, failed) refl
            | inr (fine, len, n) ↦
                rw (then_receive, then_bytes, fine)
                  (receive_lem chunks r.0.0 r.0.1 (omega (arith, all)) (omega arith))
          ]
          ∙ sym (write_bytes-append bytes (concat chunks) s st)
    ]
