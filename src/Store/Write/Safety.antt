-- ===== src/Store/Write/Safety.antt =====
-- zss_put and zss_delete of src/zc_source_store.h as whole calls: what they leave on the disk,
-- whatever the device answers, failures and torn sectors at any request included.
use zealos_aarch64_bringup.Base.{
  ℕ, ◌+◌, ◌≤◌, ◌<◌, ◌≡◌, refl, inl, inr, true, none, some, List, arith, length, subst, sym, ◌∙◌, ap,
}
use zealos_aarch64_bringup.Store.Crc.{crc}
use zealos_aarch64_bringup.Store.Crc.Laws.{AreBytes}
use zealos_aarch64_bringup.Store.Name.{name_ok}
use zealos_aarch64_bringup.Store.Record.{Decoded, max_file, blocks_of}
use zealos_aarch64_bringup.Store.Record.Laws.{file_record}
use zealos_aarch64_bringup.Store.Bank.{Store, available}
use zealos_aarch64_bringup.Store.Bank.Select.{available-fits}
use zealos_aarch64_bringup.Device.{IsHealthy}
use zealos_aarch64_bringup.Store.Write.Confined.{append_file-Beyond}
use zealos_aarch64_bringup.Store.Write.Healthy.{append_file-ready, find-IsReady}
use zealos_aarch64_bringup.Store.Bank.Laws.{at_time-Beyond}
use zealos_aarch64_bringup.Store.Find.{absent, damaged, Scan, find}
use zealos_aarch64_bringup.Store.Log.{view}
use zealos_aarch64_bringup.Store.Log.Scan.{Ends, whole}
use zealos_aarch64_bringup.Store.Log.Frame.{Beyond, Beyond-refl, Beyond-trans, IsLog-tail_le}
use zealos_aarch64_bringup.Store.Log.Lookup.{Holds, find-Ends, find-healthy}
use zealos_aarch64_bringup.Store.Write.{Code, ok, invalid, scan_error, append_file, put}
use zealos_aarch64_bringup.Store.Write.Commit.{IsVisible}
use zealos_aarch64_bringup.Store.Write.Atomic.{Appended, kept, not_visible}
use zealos_aarch64_bringup.Store.Write.Blocks.{Stored}
use zealos_aarch64_bringup.Store.Write.Put.{
  latest-none, kept-IsLog, append_file-Appended, append_file-Stored,
}

put_step :
    (name src : List ℕ) (st : Store)
    → name_ok name ≡ true
    → 0 < length src
    → length src ≤ max_file
    → (scan_error (find none st).1.status ≡ none)
    → put name src st ≡ append_file name src (find none st).1.tail (find none st).0
unfolding put
put_step name src st named positive small fine = ground arith

put_stops :
    (name src : List ℕ) (st : Store) (c : Code)
    → name_ok name ≡ true
    → 0 < length src
    → length src ≤ max_file
    → (scan_error (find none st).1.status ≡ some c)
    → put name src st ≡ ((find none st).0, c)
unfolding put
put_stops name src st c named positive small e = ground arith

module _ (name src : List ℕ) (st : Store) (tail : ℕ) (ds : List Decoded)
    (named : name_ok name ≡ true) (positive : 0 < length src) (small : length src ≤ max_file)
    (bytes : AreBytes src) (holds : Holds st tail ds) where
  bounded : (available st).0.sectors ≤ 65536
  bounded = omega (arith, available-fits st holds.selected)

  inside : tail ≤ (available st).0.sectors
  inside =
      let fits = available-fits st holds.selected in
      IsLog-tail_le (view (available st).0) (view (available st).0) (available st).0.sectors tail 1
        ds bounded (omega arith) holds.log

  -- The scan that comes first.
  scanned : Store × Scan
  scanned = find none st

  scanned-Ends : Ends (available st).0 (whole none ds (absent, none) tail 0) scanned
  unfolding scanned
  scanned-Ends = find-Ends none st tail ds refl holds

  scanned-Beyond : Beyond (tail + 1) (available st).0 scanned.0
  scanned-Beyond =
      subst (Beyond (tail + 1) (available st).0) (sym scanned-Ends.0)
        (at_time-Beyond (available st).0 (tail + 1) scanned.0.dev.requests)

  stopped : scanned.1.status ≡ damaged → put name src st ≡ (scanned.0, invalid)
  unfolding scanned scan_error
  stopped bad = put_stops name src st invalid named positive small (rw bad refl)

  went_on :
      scanned.1 ≡ whole none ds (absent, none) tail 0
      → put name src st ≡ append_file name src tail scanned.0
  unfolding scanned scan_error
  went_on good =
      put_step name src st named positive small
        (rw (ap (λ (s : Scan). s.status) good, latest-none) refl)
      ∙ ap (λ t. append_file name src t (find none st).0) (ap (λ (s : Scan). s.tail) good)

  weaker : Beyond tail (available st).0 scanned.0
  weaker = Beyond-trans (Beyond-refl tail (available st).0) scanned-Beyond (omega arith)

  -- In a bank that holds a log, whatever the device answers, zss_put of a valid name and content
  -- changes no sector of the disk but those of the selected bank from the end of its log on:
  -- neither the superblocks, nor the records of the log, nor the other bank, nor anything else on
  -- the disk.
  pub put-Beyond : Beyond tail (available st).0 (put name src st).0
  put-Beyond = elim scanned-Ends.1 [
    | inl bad ↦ rw (stopped bad) weaker
    | inr good ↦ rw (went_on good) (
        Beyond-trans weaker
          (append_file-Beyond name src tail scanned.0 small (omega (arith, bounded, inside)))
          (omega arith))
  ]

  -- Where every request of the device succeeds, the bank holds a log and the record fits the bank,
  -- zss_put of a valid name and content says 0.
  pub put-ok :
      IsHealthy st.dev
      → tail + 1 + blocks_of (length src) ≤ (available st).0.sectors
      → (put name src st).1 ≡ ok
  unfolding scanned
  put-ok h room = rw (went_on (find-healthy none st tail ds refl holds h)) (
      append_file-ready name src tail scanned.0 (find-IsReady none st tail ds refl holds h)
        (omega (arith, scanned-Beyond.same_sectors))
        (omega (arith, bounded, scanned-Beyond.same_sectors)))

  -- In a bank that holds a log, whatever the device answers, zss_put of a valid name and content
  -- either adds its record to the log, which it says by 0 or -5, or fails and leaves the log as it
  -- was; only where the device tore a sector and that is the sector of the new header, the call
  -- fails and every sector of the bank before it is as it was.
  pub put-Appended :
      Appended
        (available st).0
        tail
        (tail + 1 + blocks_of (length src))
        ds
        (file_record tail name (length src) (crc src))
        (put name src st)
  put-Appended = elim scanned-Ends.1 [
    | inl bad ↦ rw (stopped bad) (
        kept (not_visible refl) (
          kept-IsLog name src (available st).0 scanned.0 tail ds named positive small bytes bounded
            inside holds.log scanned-Beyond scanned.0 scanned-Beyond))
    | inr good ↦ rw (went_on good) (
        append_file-Appended name src (available st).0 scanned.0 tail ds named positive small bytes
          bounded inside holds.log scanned-Beyond)
  ]

  -- In a bank that holds a log, where zss_put of a valid name and content says 0 or -5, the
  -- sectors behind the new header hold the bytes of the file, whatever the device answered.
  pub put-Stored :
      IsVisible (put name src st).1
      → Stored (view (put name src st).0) (tail + 1) (blocks_of (length src)) src
  put-Stored v = elim scanned-Ends.1 [
    | inl bad ↦ absurd (not_visible refl (rw (stopped bad) at v))
    | inr good ↦
        subst (λ (r : Store × Code). Stored (view r.0) (tail + 1) (blocks_of (length src)) src)
          (sym (went_on good))
          (append_file-Stored name src (available st).0 scanned.0 tail ds named positive small bytes
            bounded inside holds.log scanned-Beyond (rw (went_on good) at v))
  ]
