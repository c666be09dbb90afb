-- ===== src/Store/Stream/Blocks.antt =====
-- The bytes of zss_stream_write and the last sector of zss_stream_finish, src/zc_source_store.h,
-- make the blocks of zss_put.
use zealos_aarch64_bringup.Base.{
  ℕ, zero, suc, ◌+◌, ◌*◌, ◌/◌, ◌%◌, ◌≤◌, ◌<◌, ◌≡◌, refl, Bool, Bool-cases, inl, inr, true, false,
  not, Option, none, some, List, [], ◌∷◌, ◌++◌, ◌==◌, arith, if◌then◌else◌, length, length-append,
  take, drop, take_all, ap, ◌∙◌, sym,
}
use zealos_aarch64_bringup.Store.Bytes.{zero_sector, put_bytes}
use zealos_aarch64_bringup.Store.Bytes.Ranges.{put_bytes-append}
use zealos_aarch64_bringup.Store.Crc.{crc_bytes, crc_final}
use zealos_aarch64_bringup.Store.Crc.Laws.{crc_bytes-append}
use zealos_aarch64_bringup.Store.Record.{max_file, u32, blocks_of, file_header}
use zealos_aarch64_bringup.Store.Bank.{Store, sector_write}
use zealos_aarch64_bringup.Store.Write.{Code, commit, data_sector, write_blocks}
use zealos_aarch64_bringup.Store.Stream.{Stream, taken, write_bytes, write_last, stream_finish}

-- Bytes up to the end of a block come off the front.
pub take_block : (n : ℕ) (xs ys : List ℕ) → length xs ≡ n → take n (xs ++ ys) ≡ xs
take_block zero [] ys e = refl
take_block zero (x ∷ xs) ys e = absurd (omega (arith, e))
take_block (suc n) [] ys e = absurd (omega (arith, e))
take_block (suc n) (x ∷ xs) ys e = ap (λ r. x ∷ r) (take_block n xs ys (omega (arith, e)))

pub drop_block : (n : ℕ) (xs ys : List ℕ) → length xs ≡ n → drop n (xs ++ ys) ≡ ys
drop_block zero [] ys e = refl
drop_block zero (x ∷ xs) ys e = absurd (omega (arith, e))
drop_block (suc n) [] ys e = absurd (omega (arith, e))
drop_block (suc n) (x ∷ xs) ys e = drop_block n xs ys (omega (arith, e))

module _ (tail : ℕ) (name : List ℕ) (len sum : ℕ) (small : len ≤ max_file) where
  -- The stream with `b` blocks written, and the bytes `pre` behind them.
  abbrev pub at_block : ℕ → List ℕ → ℕ → Stream
  at_block b pre crc = record {
    tail = tail;
    length = len;
    written = 512 * b + length pre;
    expected_crc = sum;
    crc = crc_bytes crc pre;
    name = name;
    sector = put_bytes zero_sector 0 pre;
  }

  -- The record becomes visible.
  abbrev pub committed : ℕ → Store → Store × Code
  committed c st =
      commit st tail (u32 (tail + 1 + blocks_of len)) (file_header name len c (blocks_of len))

  abbrev pub after_blocks : Store × Option ℕ → Store × Code
  after_blocks r = elim r.1 [ none ↦ (r.0, Code.invalid) | some c ↦ committed (crc_final c) r.0 ]

  -- What zss_put does from block `b` on.
  abbrev pub rest_of_put : ℕ → ℕ → List ℕ → ℕ → Store → Store × Code
  rest_of_put n b rest crc st = after_blocks (write_blocks n b rest tail crc st)

  -- What the stream does from there on.
  abbrev pub after_bytes : (Stream × Store) × Bool → Store × Code
  after_bytes r = elim r.1 [ false ↦ (r.0.1, Code.invalid) | true ↦ stream_finish r.0.0 r.0.1 ]

  abbrev pub rest_of_stream : List ℕ → Stream → Store → Store × Code
  rest_of_stream xs s st = after_bytes (write_bytes xs s st)

  -- A byte inside a block.
  pub taken_lem :
      (b c : ℕ) (pre : List ℕ) (crc : ℕ)
      → length pre < 512
      → 512 * b + length pre < len
      → taken c (at_block b pre crc) ≡ at_block b (pre ++ c ∷ []) crc
  unfolding taken put_bytes crc_bytes
  taken_lem b c pre crc short more =
      let at : (512 * b + length pre) % 512 ≡ length pre = omega arith in
      let next : u32 (512 * b + length pre + 1) ≡ 512 * b + length (pre ++ c ∷ []) =
        omega (arith, length-append pre (c ∷ [])) in
      let sector = put_bytes-append zero_sector 0 pre (c ∷ []) in
      let from : 0 + length pre ≡ length pre = omega arith in
      rw (at, next, sector, from, crc_bytes-append crc pre (c ∷ [])) refl

  -- One block of zss_put.
  unfoldable pub block_written : ℕ → List ℕ → Store → Store × Bool
  block_written b rest st = sector_write st (u32 (tail + 1 + b)) (data_sector (take 512 rest))

  pub put_fails :
      (n b : ℕ) (rest : List ℕ) (crc : ℕ) (st : Store)
      → (block_written b rest st).1 ≡ false
      → rest_of_put (suc n) b rest crc st ≡ ((block_written b rest st).0, Code.invalid)
  unfolding write_blocks block_written
  put_fails n b rest crc st h =
      let step : write_blocks (suc n) b rest tail crc st ≡ ((block_written b rest st).0, none) =
        rw (write_blocks, h) refl in
      ap after_blocks step

  pub put_goes_on :
      (n b : ℕ) (rest : List ℕ) (crc : ℕ) (st : Store)
      → (block_written b rest st).1 ≡ true
      → rest_of_put (suc n) b rest crc st
        ≡ rest_of_put n
            (b + 1)
            (drop 512 rest)
            (crc_bytes crc (take 512 rest))
            (block_written b rest st).0
  unfolding write_blocks block_written
  put_goes_on n b rest crc st h =
      let step : write_blocks (suc n) b rest tail crc st
          ≡ write_blocks n (b + 1) (drop 512 rest) tail (crc_bytes crc (take 512 rest))
              (block_written b rest st).0 =
        rw (write_blocks, h) refl in
      ap after_blocks step

  put_ends :
      (b : ℕ) (rest : List ℕ) (crc : ℕ) (st : Store)
      → rest_of_put 0 b rest crc st ≡ committed (crc_final crc) st
  unfolding write_blocks
  put_ends b rest crc st = refl

  -- The stream is complete and its CRC agrees.
  finish_step :
      (b : ℕ) (pre : List ℕ) (crc : ℕ) (st : Store)
      → 512 * b + length pre ≡ len
      → crc_final (crc_bytes crc pre) ≡ sum
      → stream_finish (at_block b pre crc) st ≡ (
          if not (write_last (at_block b pre crc) st).1
          then ((write_last (at_block b pre crc) st).0, Code.invalid)
          else committed sum (write_last (at_block b pre crc) st).0)
  unfolding stream_finish
  finish_step b pre crc st whole same =
      let all : (512 * b + length pre == len) ≡ true = ground (arith, whole) in
      let agrees : (crc_final (crc_bytes crc pre) == sum) ≡ true = ground (arith, same) in
      rw (stream_finish, all, agrees) refl

  last_is_empty : (b crc : ℕ) (st : Store) → write_last (at_block b [] crc) st ≡ (st, true)
  unfolding write_last
  last_is_empty b crc st =
      let full : ((512 * b + 0) % 512 == 0) ≡ true = ground arith in rw (write_last, full) refl

  last_is_partial :
      (b c : ℕ) (cs : List ℕ) (crc : ℕ) (st : Store)
      → length (c ∷ cs) < 512
      → write_last (at_block b (c ∷ cs) crc) st ≡ block_written b (c ∷ cs) st
  unfolding write_last block_written
  last_is_partial b c cs crc st short =
      let partial : ((512 * b + suc (length cs)) % 512 == 0) ≡ false = ground arith in
      let place : u32 (tail + 1 + (512 * b + suc (length cs)) / 512) ≡ u32 (tail + 1 + b) =
        ap u32 (omega arith) in
      let whole = take_all 512 (c ∷ cs) (omega arith) in rw (write_last, partial, place, whole) refl

  pub last_block :
      (b : ℕ) (pre : List ℕ) (crc : ℕ) (st : Store)
      → length pre < 512
      → 512 * b + length pre ≡ len
      → crc_final (crc_bytes crc pre) ≡ sum
      → stream_finish (at_block b pre crc) st ≡ rest_of_put (blocks_of (length pre)) b pre crc st
  unfolding crc_bytes
  last_block b [] crc st short whole same =
      let none_left : blocks_of 0 ≡ 0 = omega arith in
      finish_step b [] crc st whole same
      ∙ rw (last_is_empty b crc st) (ap (λ c. committed c st) (sym same))
      ∙ sym (put_ends b [] crc st)
      ∙ ap (λ n. rest_of_put n b [] crc st) (sym none_left)
  last_block b (c ∷ cs) crc st short whole same =
      let one : blocks_of (suc (length cs)) ≡ 1 = omega arith in
      let all = take_all 512 (c ∷ cs) (omega arith) in
      let step = last_is_partial b c cs crc st short in
      let start = finish_step b (c ∷ cs) crc st whole same in
      let next = (block_written b (c ∷ cs) st).0 in
      let sums : sum ≡ crc_final (crc_bytes crc (take 512 (c ∷ cs))) =
        sym same ∙ ap (λ l. crc_final (crc_bytes crc l)) (sym all) in
      let counted = ap (λ n. rest_of_put n b (c ∷ cs) crc st) (sym one) in
      elim (Bool-cases (block_written b (c ∷ cs) st).1) [
        | inl fine ↦
            start
            ∙ rw (step, fine) (ap (λ s. committed s next) sums)
            ∙ sym (put_ends (b + 1) (drop 512 (c ∷ cs)) (crc_bytes crc (take 512 (c ∷ cs))) next)
            ∙ sym (put_goes_on 0 b (c ∷ cs) crc st fine)
            ∙ counted
        | inr failed ↦
            start ∙ rw (step, failed) refl ∙ sym (put_fails 0 b (c ∷ cs) crc st failed) ∙ counted
      ]
