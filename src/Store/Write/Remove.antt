-- ===== src/Store/Write/Remove.antt =====
-- zss_delete of src/zc_source_store.h over a log, whatever the device answers.
use zealos_aarch64_bringup.Base.{
  ℕ, ◌+◌, ◌≤◌, ◌<◌, ◌≡◌, refl, inl, inr, true, false, some, none, List, arith, Bool-cases, leb,
  leb→gt, subst, sym, ◌∙◌, ap,
}
use zealos_aarch64_bringup.Store.Name.{name_ok}
use zealos_aarch64_bringup.Store.Record.{Decoded, u32, delete_header}
use zealos_aarch64_bringup.Store.Record.Tombstone.{
  tombstone, delete_header-not_empty, decode_record-delete_header,
}
use zealos_aarch64_bringup.Store.Bank.{Store, available}
use zealos_aarch64_bringup.Store.Bank.Select.{available-fits}
use zealos_aarch64_bringup.Device.{IsHealthy}
use zealos_aarch64_bringup.Store.Write.Confined.{append_tombstone-Beyond}
use zealos_aarch64_bringup.Store.Write.Healthy.{append_tombstone-ready, find-IsReady}
use zealos_aarch64_bringup.Store.Bank.Laws.{at_time-Beyond}
use zealos_aarch64_bringup.Store.Find.{found, absent, damaged, Scan, find}
use zealos_aarch64_bringup.Store.Log.{view, IsLog, latest}
use zealos_aarch64_bringup.Store.Log.Scan.{Ends, whole}
use zealos_aarch64_bringup.Store.Log.Frame.{
  Beyond, Beyond-refl, Beyond-trans, IsLog-tail_le, IsLog-kept,
}
use zealos_aarch64_bringup.Store.Log.Lookup.{Holds, find-Ends, find-healthy}
use zealos_aarch64_bringup.Store.Write.{
  Code, ok, invalid, full, delete_error, append_tombstone, commit, delete,
}
use zealos_aarch64_bringup.Store.Write.Atomic.{Appended, kept, not_visible, commit-log, view-Beyond}
use zealos_aarch64_bringup.Store.Write.Put.{full_not_visible}

delete_step :
    (name : List ℕ) (st : Store)
    → name_ok name ≡ true
    → delete_error (find (some name) st).1.status ≡ none
    → delete name st ≡ append_tombstone name (find (some name) st).1.tail (find (some name) st).0
unfolding delete
delete_step name st named fine = ground arith

delete_stops :
    (name : List ℕ) (st : Store) (c : Code)
    → name_ok name ≡ true
    → delete_error (find (some name) st).1.status ≡ some c
    → delete name st ≡ ((find (some name) st).0, c)
unfolding delete
delete_stops name st c named e = ground arith

module _ (name : List ℕ) (st : Store) (tail : ℕ) (ds : List Decoded) (named : name_ok name ≡ true)
    (holds : Holds st tail ds) where
  scanned : Store × Scan
  scanned = find (some name) st

  scanned-Ends : Ends (available st).0 (whole (some name) ds (absent, none) tail 0) scanned
  unfolding scanned
  scanned-Ends = find-Ends (some name) st tail ds (rw named refl) holds

  scanned-Beyond : Beyond (tail + 1) (available st).0 scanned.0
  scanned-Beyond =
      subst (Beyond (tail + 1) (available st).0) (sym scanned-Ends.0)
        (at_time-Beyond (available st).0 (tail + 1) scanned.0.dev.requests)

  bounded : (available st).0.sectors ≤ 65536
  bounded = omega (arith, available-fits st holds.selected)

  kept-IsLog :
      (st' : Store)
      → Beyond (tail + 1) (available st).0 st'
      → IsLog (view st') (available st).0.sectors tail 1 ds
  kept-IsLog st' b =
      IsLog-kept (view (available st).0) (view st') (available st).0.sectors tail 1 ds bounded
        (λ k le. view-Beyond k b (omega arith)) holds.log

  stopped : scanned.1.status ≡ damaged → delete name st ≡ (scanned.0, invalid)
  unfolding scanned delete_error
  stopped bad = delete_stops name st invalid named (rw bad refl)

  tombstone_full :
      leb scanned.0.sectors tail ≡ true → append_tombstone name tail scanned.0 ≡ (scanned.0, full)
  unfolding append_tombstone
  tombstone_full h = rw h refl

  tombstone_commits :
      leb scanned.0.sectors tail ≡ false
      → append_tombstone name tail scanned.0 ≡ commit scanned.0 tail (tail + 1) (delete_header name)
  unfolding append_tombstone
  tombstone_commits h =
      let inside = available-fits st holds.selected in
      let lt = leb→gt scanned.0.sectors tail h in
      let wrap : u32 (tail + 1) ≡ tail + 1 = omega (arith, scanned-Beyond.same_sectors) in
      rw (h, wrap) refl

  append_tombstone-Appended :
      Appended
        (available st).0
        tail
        (tail + 1)
        ds
        (tombstone tail name)
        (append_tombstone name tail scanned.0)
  append_tombstone-Appended = elim (Bool-cases (leb scanned.0.sectors tail)) [
    | inl over ↦
        rw (tombstone_full over)
          (kept (full_not_visible refl) (kept-IsLog scanned.0 scanned-Beyond))
    | inr fits ↦
        let lt : tail < (available st).0.sectors =
          omega (arith, leb→gt scanned.0.sectors tail fits, scanned-Beyond.same_sectors) in
        rw (tombstone_commits fits) (
          commit-log (available st).0 scanned.0 tail (tail + 1) ds (tombstone tail name)
            (delete_header name) scanned-Beyond bounded lt (omega arith) holds.log
            (delete_header-not_empty name)
            (decode_record-delete_header name tail (available st).0.sectors named lt bounded)
            (omega arith))
  ]

  went_on :
      (latest (some name) ds (absent, none)).0 ≡ found
      → scanned.1 ≡ whole (some name) ds (absent, none) tail 0
      → delete name st ≡ append_tombstone name tail scanned.0
  unfolding delete_error scanned
  went_on present good =
      delete_step name st named (rw (ap (λ (s : Scan). s.status) good, present) refl)
      ∙ ap (λ t. append_tombstone name t scanned.0) (ap (λ (s : Scan). s.tail) good)

  -- In a bank that holds a log in which the valid name is found, whatever the device answers,
  -- zss_delete either adds its tombstone, which it says by 0 or -5, or fails and leaves the log as
  -- it was; only where the device tore a sector and that is the sector of the tombstone, the call
  -- fails and every sector of the bank before it is as it was.
  pub delete-Appended :
      (latest (some name) ds (absent, none)).0 ≡ found
      → Appended (available st).0 tail (tail + 1) ds (tombstone tail name) (delete name st)
  delete-Appended present = elim scanned-Ends.1 [
    | inl bad ↦ rw (stopped bad) (kept (not_visible refl) (kept-IsLog scanned.0 scanned-Beyond))
    | inr good ↦ rw (went_on present good) append_tombstone-Appended
  ]

  inside : tail ≤ (available st).0.sectors
  inside =
      let fits = available-fits st holds.selected in
      IsLog-tail_le (view (available st).0) (view (available st).0) (available st).0.sectors tail 1
        ds bounded (omega arith) holds.log

  -- In a bank that holds a log in which the valid name is found, zss_delete changes no sector of
  -- the disk but those of the selected bank from the end of its log on, whatever the device
  -- answers.
  pub delete-Beyond :
      (latest (some name) ds (absent, none)).0 ≡ found
      → Beyond tail (available st).0 (delete name st).0
  delete-Beyond present =
      let weaker = Beyond-trans (Beyond-refl tail (available st).0) scanned-Beyond (omega arith) in
      elim scanned-Ends.1 [
        | inl bad ↦ rw (stopped bad) weaker
        | inr good ↦ rw (went_on present good) (
            Beyond-trans weaker
              (append_tombstone-Beyond name tail scanned.0 (omega (arith, bounded, inside)))
              (omega arith))
      ]

  -- Where every request of the device succeeds, the bank holds a log in which the valid name is
  -- found and has a sector left, zss_delete says 0.
  pub delete-ok :
      IsHealthy st.dev
      → (latest (some name) ds (absent, none)).0 ≡ found
      → tail < (available st).0.sectors
      → (delete name st).1 ≡ ok
  unfolding scanned
  delete-ok h present room =
      rw (went_on present (find-healthy (some name) st tail ds (rw named refl) holds h)) (
        append_tombstone-ready name tail scanned.0
          (find-IsReady (some name) st tail ds (rw named refl) holds h)
          (omega (arith, scanned-Beyond.same_sectors)))
