-- ===== src/Store/Stream/Upload.antt =====
-- zrecv_serial of src/kernel_stub.c over the streams of src/zc_source_store.h against zss_put.
use zealos_aarch64_bringup.Base.{
  ℕ, ◌+◌, ◌≤◌, ◌≡◌, refl, Bool-cases, Option-cases, inl, inr, true, false, not, ◌||◌, none, List,
  [], ltb, ◌==◌, arith, length, ap, ◌∙◌, sym,
}
use zealos_aarch64_bringup.Store.Bytes.{zero_sector, put_bytes}
use zealos_aarch64_bringup.Store.Crc.{crc_bytes, crc_init, crc}
use zealos_aarch64_bringup.Store.Name.{name_ok}
use zealos_aarch64_bringup.Store.Record.{max_file, u32, blocks_of}
use zealos_aarch64_bringup.Store.Bank.{Store}
use zealos_aarch64_bringup.Store.Find.{find}
use zealos_aarch64_bringup.Store.Write.{Code, scan_error, append_file, put}
use zealos_aarch64_bringup.Store.Stream.{
  Stream, Begun, write_bytes, stream_finish, stream_begin, receive, upload,
}
use zealos_aarch64_bringup.Store.Stream.Blocks.{rest_of_put}
use zealos_aarch64_bringup.Store.Stream.Bytes.{stream_lem}
use zealos_aarch64_bringup.Store.Stream.Chunks.{concat, Writing, receive_lem}

-- The stream that zss_stream_begin sets up.
abbrev fresh : List ℕ → List ℕ → ℕ → Stream
fresh name src tail = record {
  tail = tail;
  length = length src;
  written = 0;
  expected_crc = crc src;
  crc = crc_init;
  name = name;
  sector = zero_sector;
}

abbrev uploaded : Writing → Store × Code
uploaded r = elim r.1 [ false ↦ (r.0.1, Code.invalid) | true ↦ stream_finish r.0.0 r.0.1 ]

abbrev after_begin : List (List ℕ) → Store × Begun → Store × Code
after_begin chunks r = elim r.1 [
  | Begun.refused code ↦ (r.0, code)
  | Begun.begun s ↦ uploaded (receive chunks s r.0)
]

append_step :
    (name src : List ℕ) (tail : ℕ) (st : Store) (small : length src ≤ max_file)
    → ltb st.sectors (u32 (tail + 1 + blocks_of (length src))) ≡ false
    → append_file name src tail st
      ≡ rest_of_put tail name
          (length src)
          (crc src)
          small
          (blocks_of (length src))
          0
          src
          crc_init
          st
unfolding append_file
append_step name src tail st small fits = rw (append_file, fits) refl

streamed :
    (name src : List ℕ) (tail : ℕ) (chunks : List (List ℕ)) (st : Store)
    → length src ≤ max_file
    → concat chunks ≡ src
    → ltb st.sectors (u32 (tail + 1 + blocks_of (length src))) ≡ false
    → uploaded (receive chunks (fresh name src tail) st) ≡ append_file name src tail st
unfolding put_bytes crc_bytes crc
streamed name src tail chunks st small all fits =
    let counted : 0 + length (concat chunks) ≡ length src =
      omega (arith, ap (λ (l : List ℕ). length l) all) in
    ap uploaded (
      receive_lem chunks (fresh name src tail) st counted small
      ∙ ap (λ l. write_bytes l (fresh name src tail) st) all)
    ∙ stream_lem tail name (length src) (crc src) small src 0 [] crc_init st (omega arith)
        (omega arith) refl
    ∙ sym (append_step name src tail st small fits)

-- An upload in chunks of any lengths, whatever the device answers: where the chunks make the bytes
-- `src` and the line announced their number and their CRC, the calls of zrecv_serial leave the
-- store as zss_put of `src` does, with the same result.
pub upload-put :
    (name src : List ℕ) (chunks : List (List ℕ)) (st : Store)
    → concat chunks ≡ src
    → upload name (length src) (crc src) chunks st ≡ put name src st
unfolding upload stream_begin put append_file
upload-put name src chunks st all =
    let found = find none st in
    let limit = u32 (found.1.tail + 1 + blocks_of (length src)) in
    elim (Bool-cases (length src == 0 || ltb max_file (length src) || not (name_ok name))) [
      | inl bad ↦
          let refusal : stream_begin name (length src) (crc src) st
              ≡ (st, Begun.refused Code.invalid) =
            rw (stream_begin, bad) refl in
          ap (after_begin chunks) refusal ∙ rw (put, bad) refl
      | inr good ↦ elim (Option-cases (scan_error found.1.status)) [
        | inr (code, e) ↦
            let refusal : stream_begin name (length src) (crc src) st
                ≡ (found.0, Begun.refused code) =
              rw (stream_begin, good, e) refl in
            ap (after_begin chunks) refusal ∙ rw (put, good, e) refl
        | inl e ↦
            let same : append_file name src found.1.tail found.0 ≡ put name src st =
              rw (put, good, e) refl in
            elim (Bool-cases (ltb found.0.sectors limit)) [
              | inl over ↦
                  let refusal : stream_begin name (length src) (crc src) st
                      ≡ (found.0, Begun.refused Code.full) =
                    rw (stream_begin, good, e, over) refl in
                  let no_room : append_file name src found.1.tail found.0 ≡ (found.0, Code.full) =
                    rw (append_file, over) refl in
                  ap (after_begin chunks) refusal ∙ sym no_room ∙ same
              | inr fits ↦
                  let sized : length src ≤ max_file = ground (arith, good) in
                  let start : stream_begin name (length src) (crc src) st
                      ≡ (found.0, Begun.begun (fresh name src found.1.tail)) =
                    rw (stream_begin, good, e, fits) refl in
                  ap (after_begin chunks) start
                  ∙ streamed name src found.1.tail chunks found.0 sized all fits
                  ∙ same
            ]
      ]
    ]
