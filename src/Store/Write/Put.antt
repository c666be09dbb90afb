-- ===== src/Store/Write/Put.antt =====
-- zss_put of src/zc_source_store.h over a log, whatever the device answers.
use zealos_aarch64_bringup.Base.{
  ℕ, ◌+◌, ◌≤◌, ◌<◌, ◌≡◌, refl, inl, inr, true, false, Option, none, some, List, [], ◌∷◌, arith,
  length, Bool-cases, ltb, ltb→ge, Option-cases, subst, sym,
}
use native.Mathlib.Nat.{add-zero}
use zealos_aarch64_bringup.Store.Crc.{crc, crc_bytes, crc_init, crc_final}
use zealos_aarch64_bringup.Store.Crc.Laws.{AreBytes, crc-lt}
use zealos_aarch64_bringup.Store.Name.{name_ok}
use zealos_aarch64_bringup.Store.Record.{Decoded, max_file, u32, blocks_of, file_header}
use zealos_aarch64_bringup.Store.Record.Laws.{
  file_record, file_header-not_empty, decode_record-file_header,
}
use zealos_aarch64_bringup.Store.Bank.{Store}
use zealos_aarch64_bringup.Store.Find
use zealos_aarch64_bringup.Store.Find.{absent, damaged, Status, find, Best, update}
use zealos_aarch64_bringup.Store.Log.{view, IsLog, latest}
use zealos_aarch64_bringup.Store.Log.Frame.{Beyond, Beyond-trans, IsLog-kept}
use zealos_aarch64_bringup.Store.Write.{Code, invalid, full, write_blocks, append_file, commit}
use zealos_aarch64_bringup.Store.Write.Commit.{IsVisible}
use zealos_aarch64_bringup.Store.Write.Atomic.{
  Appended, kept, not_visible, commit-log, commit-between, view-Beyond,
}
use zealos_aarch64_bringup.Store.Write.Blocks.{
  Stored, Stored-kept, write_blocks-Beyond, write_blocks-some,
}

pub latest-none : (ds : List Decoded) (best : Best) → latest none ds best ≡ best
unfolding latest update Find.matches
latest-none [] best = refl
latest-none (d ∷ ds) best = latest-none ds best

pub full_not_visible : {c : Code} → c ≡ full → IsVisible c → ⊥
full_not_visible e (inl v) = cc
full_not_visible e (inr v) = cc

module _ (name src : List ℕ) (st0 st : Store) (tail : ℕ) (ds : List Decoded)
    (named : name_ok name ≡ true) (positive : 0 < length src) (small : length src ≤ max_file)
    (bytes : AreBytes src) (bounded : st0.sectors ≤ 65536) (inside : tail ≤ st0.sectors)
    (log : IsLog (view st0) st0.sectors tail 1 ds) (beyond : Beyond (tail + 1) st0 st) where
  unwrapped : u32 (tail + 1 + blocks_of (length src)) ≡ tail + 1 + blocks_of (length src)
  unwrapped = omega arith

  append_file-full :
      ltb st.sectors (tail + 1 + blocks_of (length src)) ≡ true
      → append_file name src tail st ≡ (st, full)
  unfolding append_file
  append_file-full h = rw (unwrapped, h) refl

  -- The state after the data blocks.
  filled : Store × Option ℕ
  filled = write_blocks (blocks_of (length src)) 0 src tail crc_init st

  append_file-fails :
      ltb st.sectors (tail + 1 + blocks_of (length src)) ≡ false
      → filled.1 ≡ none
      → append_file name src tail st ≡ (filled.0, invalid)
  unfolding append_file filled
  append_file-fails h e = ground (arith, unwrapped)

  append_file-commits :
      (c : ℕ)
      → ltb st.sectors (tail + 1 + blocks_of (length src)) ≡ false
      → filled.1 ≡ some c
      → append_file name src tail st
        ≡ commit filled.0 tail
            (tail + 1 + blocks_of (length src))
            (file_header name (length src) (crc_final c) (blocks_of (length src)))
  unfolding append_file filled
  append_file-commits c h e = ground (arith, unwrapped)

  pub kept-IsLog :
      (st' : Store) → Beyond (tail + 1) st0 st' → IsLog (view st') st0.sectors tail 1 ds
  kept-IsLog st' b =
      IsLog-kept (view st0) (view st') st0.sectors tail 1 ds bounded
        (λ k le. view-Beyond k b (omega arith)) log

  filled-Beyond : Beyond (tail + 1) st0 filled.0
  unfolding filled
  filled-Beyond =
      Beyond-trans beyond
        (write_blocks-Beyond (blocks_of (length src)) 0 src tail crc_init st (omega arith))
        (omega arith)

  filled-some :
      (c : ℕ)
      → filled.1 ≡ some c
      → (c ≡ crc_bytes crc_init src)
        × Stored (view filled.0) (tail + 1 + 0) (blocks_of (length src)) src
  unfolding filled
  filled-some c e =
      write_blocks-some (blocks_of (length src)) 0 src tail crc_init c st (omega arith)
        (omega arith) e

  -- The record that the call is to add.
  abbrev new : Decoded
  new = file_record tail name (length src) (crc src)

  committed :
      (c : ℕ)
      → filled.1 ≡ some c
      → tail + 1 + blocks_of (length src) ≤ st0.sectors
      → Appended st0 tail (tail + 1 + blocks_of (length src)) ds new (
          commit filled.0 tail
            (tail + 1 + blocks_of (length src))
            (file_header name (length src) (crc_final c) (blocks_of (length src))))
  unfolding crc
  committed c e fits = rw (filled-some c e).0 (
      commit-log st0 filled.0 tail (tail + 1 + blocks_of (length src)) ds new
        (file_header name (length src) (crc src) (blocks_of (length src))) filled-Beyond bounded
        (omega arith) (omega arith) log
        (file_header-not_empty name (length src) (crc src) (blocks_of (length src)))
        (decode_record-file_header name (length src) (crc src) tail st0.sectors named positive small
          (crc-lt src bytes) fits bounded)
        refl)

  pub append_file-Appended :
      Appended st0 tail (tail + 1 + blocks_of (length src)) ds new (append_file name src tail st)
  append_file-Appended = elim (Bool-cases (ltb st.sectors (tail + 1 + blocks_of (length src)))) [
    | inl over ↦ rw (append_file-full over) (kept (full_not_visible refl) (kept-IsLog st beyond))
    | inr fits ↦ elim (Option-cases filled.1) [
      | inl e ↦
          rw (append_file-fails fits e)
            (kept (not_visible refl) (kept-IsLog filled.0 filled-Beyond))
      | inr (c, e) ↦
          rw (append_file-commits c fits e)
            (committed c e (omega (arith, beyond.same_sectors, ltb→ge _ _ fits)))
    ]
  ]

  -- A call that says 0 or -5 has the bytes in the bank, behind the header.
  pub append_file-Stored :
      IsVisible (append_file name src tail st).1
      → Stored (view (append_file name src tail st).0) (tail + 1) (blocks_of (length src)) src
  append_file-Stored v = elim (Bool-cases (ltb st.sectors (tail + 1 + blocks_of (length src)))) [
    | inl over ↦ absurd (full_not_visible refl (rw (append_file-full over) at v))
    | inr fits ↦ elim (Option-cases filled.1) [
      | inl e ↦ absurd (not_visible refl (rw (append_file-fails fits e) at v))
      | inr (c, e) ↦
          subst (λ (r : Store × Code). Stored (view r.0) (tail + 1) (blocks_of (length src)) src)
            (sym (append_file-commits c fits e))
            (Stored-kept (view filled.0) _ (tail + 1) (blocks_of (length src)) src
              (λ j le lt.
                commit-between filled.0 tail (tail + 1 + blocks_of (length src)) j _ (omega arith)
                  lt)
              (subst (λ k. Stored (view filled.0) k (blocks_of (length src)) src)
                (add-zero (tail + 1)) (filled-some c e).1))
    ]
  ]
