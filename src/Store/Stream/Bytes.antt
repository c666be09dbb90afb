-- ===== src/Store/Stream/Bytes.antt =====
-- zss_stream_write byte by byte, and zss_stream_finish, against the blocks of zss_put in
-- src/zc_source_store.h.
use zealos_aarch64_bringup.Base.{
  ℕ, suc, ◌+◌, ◌*◌, ◌/◌, ◌%◌, ◌≤◌, ◌<◌, ◌≡◌, refl, Bool, Bool-cases, inl, inr, true, false, List,
  [], ◌∷◌, ◌++◌, ltb, ltb→lt, ltb→ge, ◌==◌, arith, length, length-append, append_assoc, append-nil,
  take, drop, take_all, ap, ap₂, ◌∙◌, sym,
}
use zealos_aarch64_bringup.Store.Bytes.{zero_sector, put_bytes}
use zealos_aarch64_bringup.Store.Crc.{crc_bytes, crc_final}
use zealos_aarch64_bringup.Store.Crc.Laws.{crc_bytes-append}
use zealos_aarch64_bringup.Store.Record.{max_file, u32, blocks_of}
use zealos_aarch64_bringup.Store.Bank.{Store, sector_write}
use zealos_aarch64_bringup.Store.Write.{Code}
use zealos_aarch64_bringup.Store.Stream.{Stream, write_byte, write_bytes}
use zealos_aarch64_bringup.Store.Stream.Blocks.{
  take_block, drop_block, at_block, rest_of_put, rest_of_stream, after_bytes, taken_lem,
  block_written, put_fails, put_goes_on, last_block,
}

module _ (tail : ℕ) (name : List ℕ) (len sum : ℕ) (small : len ≤ max_file) where
  abbrev here : ℕ → List ℕ → ℕ → Stream
  here b pre crc = at_block tail name len sum small b pre crc

  -- A byte that does not fill the sector.
  byte_inside :
      (b c : ℕ) (pre : List ℕ) (crc : ℕ) (st : Store)
      → length pre + 1 < 512
      → 512 * b + length pre < len
      → write_byte c (here b pre crc) st ≡ ((here b (pre ++ c ∷ []) crc, st), true)
  unfolding write_byte
  byte_inside b c pre crc st short more =
      let step = taken_lem tail name len sum small b c pre crc (omega arith) more in
      let partial : ((512 * b + length (pre ++ c ∷ [])) % 512 == 0) ≡ false =
        ground (arith, length-append pre (c ∷ [])) in
      rw (write_byte, step, partial) refl

  -- The byte that fills the sector.
  block : ℕ → ℕ → List ℕ → Store → Store × Bool
  block b c pre st = block_written tail name len sum small b (pre ++ c ∷ []) st

  module _ (b c : ℕ) (pre : List ℕ) (crc : ℕ) (st : Store) (full : length pre + 1 ≡ 512)
      (more : 512 * b + length pre < len) where
    counted : length (pre ++ c ∷ []) ≡ 512
    counted = omega (arith, length-append pre (c ∷ []))

    filled : ((512 * b + length (pre ++ c ∷ [])) % 512 == 0) ≡ true
    filled = ground (arith, counted)

    written_step :
        sector_write st
          (u32 (tail + (512 * b + length (pre ++ c ∷ [])) / 512))
          (put_bytes zero_sector 0 (pre ++ c ∷ []))
        ≡ block b c pre st
    unfolding block block_written
    written_step =
        let place : tail + (512 * b + length (pre ++ c ∷ [])) / 512 ≡ tail + 1 + b =
          omega (arith, counted) in
        let whole = take_all 512 (pre ++ c ∷ []) (omega (arith, counted)) in rw (place, whole) refl

    byte_fails :
        (block b c pre st).1 ≡ false
        → write_byte c (here b pre crc) st
          ≡ ((here b (pre ++ c ∷ []) crc, (block b c pre st).0), false)
    unfolding write_byte
    byte_fails h =
        let step = taken_lem tail name len sum small b c pre crc (omega arith) more in
        rw (write_byte, step, filled, written_step, h) refl

    byte_written :
        (block b c pre st).1 ≡ true
        → write_byte c (here b pre crc) st
          ≡ ((here (b + 1) [] (crc_bytes crc (pre ++ c ∷ [])), (block b c pre st).0), true)
    unfolding write_byte crc_bytes put_bytes
    byte_written h =
        let step = taken_lem tail name len sum small b c pre crc (omega arith) more in
        let next : 512 * b + length (pre ++ c ∷ []) ≡ 512 * (b + 1) + 0 = omega (arith, counted) in
        rw (write_byte, step, filled, written_step, h)
          (ap
            (λ n. (
              (
                record (here b (pre ++ c ∷ []) crc) { sector = zero_sector; written = n },
                (block b c pre st).0,
              ),
              true,
            ))
            next)

  abbrev whole_put : ℕ → List ℕ → ℕ → Store → Store × Code
  whole_put b rest crc st =
      rest_of_put tail name len sum small (blocks_of (length rest)) b rest crc st

  -- One byte, then the rest.
  byte_then :
      (c : ℕ) (cs : List ℕ) (s s1 : Stream) (st st1 : Store) (fine : Bool)
      → write_byte c s st ≡ ((s1, st1), fine)
      → write_bytes (c ∷ cs) s st
        ≡ (elim fine [ false ↦ ((s1, st1), false) | true ↦ write_bytes cs s1 st1 ])
  unfolding write_bytes
  byte_then c cs s s1 st st1 fine e =
      ap
        (λ (r : (Stream × Store) × Bool). elim r.1 as (λ x. (Stream × Store) × Bool) [
          | false ↦ ((r.0.0, r.0.1), false)
          | true ↦ write_bytes cs r.0.0 r.0.1
        ])
        e

  joined : (pre : List ℕ) (c : ℕ) (cs : List ℕ) → (pre ++ c ∷ []) ++ cs ≡ pre ++ c ∷ cs
  joined pre c cs = append_assoc pre (c ∷ []) cs

  module _ (b c : ℕ) (cs pre : List ℕ) (crc : ℕ) (st : Store) (full : length pre + 1 ≡ 512)
      (count : 512 * b + length pre + suc (length cs) ≡ len) where
    whole : length (pre ++ c ∷ []) ≡ 512
    whole = omega (arith, length-append pre (c ∷ []))

    first_block : take 512 (pre ++ c ∷ cs) ≡ pre ++ c ∷ []
    first_block = ap (take 512) (sym (joined pre c cs)) ∙ take_block 512 (pre ++ c ∷ []) cs whole

    other_blocks : drop 512 (pre ++ c ∷ cs) ≡ cs
    other_blocks = ap (drop 512) (sym (joined pre c cs)) ∙ drop_block 512 (pre ++ c ∷ []) cs whole

    same_block : block_written tail name len sum small b (pre ++ c ∷ cs) st ≡ block b c pre st
    unfolding block block_written
    same_block =
        let short = take_all 512 (pre ++ c ∷ []) (omega (arith, whole)) in
        rw (first_block, short) refl

    one_more : blocks_of (length (pre ++ c ∷ cs)) ≡ suc (blocks_of (length cs))
    one_more = omega (arith, length-append pre (c ∷ cs))

    put_stops :
        (block b c pre st).1 ≡ false
        → whole_put b (pre ++ c ∷ cs) crc st ≡ ((block b c pre st).0, Code.invalid)
    put_stops h =
        ap (λ n. rest_of_put tail name len sum small n b (pre ++ c ∷ cs) crc st) one_more
        ∙ put_fails tail name len sum small (blocks_of (length cs)) b (pre ++ c ∷ cs) crc st
            (ap (λ (r : Store × Bool). r.1) same_block ∙ h)
        ∙ ap (λ (r : Store × Bool). (r.0, Code.invalid)) same_block

    put_moves :
        (block b c pre st).1 ≡ true
        → whole_put b (pre ++ c ∷ cs) crc st
          ≡ whole_put (b + 1) cs (crc_bytes crc (pre ++ c ∷ [])) (block b c pre st).0
    put_moves h =
        ap (λ n. rest_of_put tail name len sum small n b (pre ++ c ∷ cs) crc st) one_more
        ∙ put_goes_on tail name len sum small (blocks_of (length cs)) b (pre ++ c ∷ cs) crc st
            (ap (λ (r : Store × Bool). r.1) same_block ∙ h)
        ∙ ap₂
            (λ (l m : List ℕ).
              rest_of_put tail name len sum small (blocks_of (length cs)) (b + 1) l
                (crc_bytes crc m) (block_written tail name len sum small b (pre ++ c ∷ cs) st).0)
            other_blocks first_block
        ∙ ap
            (λ (r : Store × Bool).
              rest_of_put tail name len sum small (blocks_of (length cs)) (b + 1) cs
                (crc_bytes crc (pre ++ c ∷ [])) r.0)
            same_block

  -- What the stream does with the bytes that are left is what zss_put does with them.
  pub stream_lem :
      (xs : List ℕ) (b : ℕ) (pre : List ℕ) (crc : ℕ) (st : Store)
      → length pre < 512
      → 512 * b + length pre + length xs ≡ len
      → crc_final (crc_bytes crc (pre ++ xs)) ≡ sum
      → rest_of_stream tail name len sum small xs (here b pre crc) st
        ≡ whole_put b (pre ++ xs) crc st
  unfolding write_bytes crc_bytes
  stream_lem [] b pre crc st short count same =
      let e = append-nil pre in
      let agrees : crc_final (crc_bytes crc pre) ≡ sum =
        ap (λ l. crc_final (crc_bytes crc l)) (sym e) ∙ same in
      last_block tail name len sum small b pre crc st short (omega arith) agrees
      ∙ ap (λ l. whole_put b l crc st) (sym e)
  stream_lem (c ∷ cs) b pre crc st short count same =
      let more : 512 * b + length pre < len = omega arith in
      elim (Bool-cases (ltb (length pre + 1) 512)) [
        | inl inside ↦
            let small_yet = ltb→lt (length pre + 1) 512 inside in
            let sums : crc_final (crc_bytes crc ((pre ++ c ∷ []) ++ cs)) ≡ sum =
              ap (λ l. crc_final (crc_bytes crc l)) (joined pre c cs) ∙ same in
            let grown = length-append pre (c ∷ []) in
            let fits : length (pre ++ c ∷ []) < 512 = omega arith in
            let counts : 512 * b + length (pre ++ c ∷ []) + length cs ≡ len = omega arith in
            ap (after_bytes tail name len sum small)
              (byte_then c cs (here b pre crc) _ st _ _ (byte_inside b c pre crc st small_yet more))
            ∙ stream_lem cs b (pre ++ c ∷ []) crc st fits counts sums
            ∙ ap (λ l. whole_put b l crc st) (joined pre c cs)
        | inr not_inside ↦
            let at_end : length pre + 1 ≡ 512 =
              omega (arith, ltb→ge (length pre + 1) 512 not_inside) in
            elim (Bool-cases (block b c pre st).1) [
              | inl fine ↦
                  let start = crc_bytes crc (pre ++ c ∷ []) in
                  let sums : crc_final (crc_bytes start cs) ≡ sum =
                    ap crc_final (sym (crc_bytes-append crc (pre ++ c ∷ []) cs))
                    ∙ ap (λ l. crc_final (crc_bytes crc l)) (joined pre c cs)
                    ∙ same in
                  ap (after_bytes tail name len sum small) (
                    byte_then c cs (here b pre crc) _ st _ _
                      (byte_written b c pre crc st at_end more fine))
                  ∙ stream_lem cs (b + 1) [] start (block b c pre st).0 (omega arith) (omega arith)
                      sums
                  ∙ sym (put_moves b c cs pre crc st at_end count fine)
              | inr failed ↦
                  ap (after_bytes tail name len sum small) (
                    byte_then c cs (here b pre crc) _ st _ _
                      (byte_fails b c pre crc st at_end more failed))
                  ∙ sym (put_stops b c cs pre crc st at_end count failed)
            ]
      ]
