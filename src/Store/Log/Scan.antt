-- ===== src/Store/Log/Scan.antt =====
-- The loop of zss_find over a log, whatever the device answers: it changes nothing, and it ends in
-- an error or with the last record of the name.
use zealos_aarch64_bringup.Base.{
  ℕ, zero, suc, ◌+◌, ◌≤◌, ◌<◌, ◌≡◌, refl, ◌⊎◌, inl, inr, true, false, Option, none, some, List, [],
  ◌∷◌, arith, subst, length, Bool-cases, ltb, lt→ltb, ltb→lt, le→ltb,
}
use zealos_aarch64_bringup.Device.{
  Sector, Device, at_request, IsHealthy, read_abs, read_abs-same, read_abs-healthy,
}
use zealos_aarch64_bringup.Store.Bytes.{is_empty}
use zealos_aarch64_bringup.Store.Record.{Decoded, decode_record, u32}
use zealos_aarch64_bringup.Store.Record.Laws.{decode_record-bounds}
use zealos_aarch64_bringup.Store.Bank.{Store, sector_read, bank_read}
use zealos_aarch64_bringup.Store.Find.{damaged, Scan, aborted, Best, update, find_loop}
use zealos_aarch64_bringup.Store.Log.{view, at_time, IsLog, latest}

-- The read that the next request makes does not depend on how many came before.
pub IsHealthy-at_request : {d : Device} (n : ℕ) → IsHealthy d → IsHealthy (at_request d n)
IsHealthy-at_request n h = record {
  is_ready = h.is_ready;
  is_pci = h.is_pci;
  has_capacity = h.has_capacity;
  has_buffer = h.has_buffer;
  all_done = h.all_done;
}

-- A read of the bank only counts a request; what it returns stands in the bank.
pub sector_read-cases :
    (st : Store) (k : ℕ)
    → (n : ℕ) × ((sector_read st k ≡ (at_time st n, none))
        ⊎ (sector_read st k ≡ (at_time st n, some (view st k))))
unfolding sector_read bank_read
sector_read-cases st k = elim (Bool-cases (ltb k st.sectors)) [
  | inl lt ↦ (
    (read_abs st.dev (st.base + k)).0.requests,
    rw lt (ground (arith, read_abs-same st.dev (st.base + k))),
  )
  | inr ge ↦ (st.dev.requests, rw ge (inl refl))
]

pub sector_read-healthy :
    (st : Store) (k : ℕ)
    → IsHealthy st.dev
    → k < st.sectors
    → st.base + k < st.dev.full_capacity
    → sector_read st k ≡ (at_time st (suc st.dev.requests), some (view st k))
unfolding sector_read bank_read
sector_read-healthy st k h lt cap = rw (lt→ltb _ _ lt, read_abs-healthy st.dev (st.base + k) h cap)

module _ (fuel : ℕ) (name : Option (List ℕ)) (st st' : Store) (pos records : ℕ) (best : Best) where
  abbrev done_at : Scan
  done_at = record { status = best.0; entry = best.1; tail = pos; records = records }

  stop_at_end : st.sectors ≤ pos → find_loop (suc fuel) name st pos records best ≡ (st, done_at)
  unfolding find_loop
  stop_at_end h = rw (le→ltb pos st.sectors h, find_loop)

  module _ (lt : pos < st.sectors) where
    stop_at_error :
        sector_read st pos ≡ (st', none)
        → find_loop (suc fuel) name st pos records best ≡ (st', aborted damaged best.1)
    unfolding find_loop
    stop_at_error r = ground arith

    stop_at_empty :
        (s : Sector)
        → sector_read st pos ≡ (st', some s)
        → is_empty s ≡ true
        → find_loop (suc fuel) name st pos records best ≡ (st', done_at)
    unfolding find_loop
    stop_at_empty s r e = ground arith

    step :
        (s : Sector) (d : Decoded)
        → sector_read st pos ≡ (st', some s)
        → is_empty s ≡ false
        → decode_record s pos st'.sectors ≡ some d
        → find_loop (suc fuel) name st pos records best
          ≡ find_loop fuel name st'
              (u32 (pos + 1 + d.entry.blocks))
              (records + 1)
              (update name d best)
    unfolding find_loop
    step s d r e q = ground arith

-- The scan of a log with nothing wrong.
abbrev pub whole : Option (List ℕ) → List Decoded → Best → ℕ → ℕ → Scan
whole name ds best tail records = record {
  status = (latest name ds best).0;
  entry = (latest name ds best).1;
  tail = tail;
  records = records + length ds;
}

-- What the loop may end in: nothing was written, and the result is an error or the whole scan.
abbrev pub Ends : Store → Scan → Store × Scan → Type 0
Ends st good r = (r.0 ≡ at_time st r.0.dev.requests) × ((r.1.status ≡ damaged) ⊎ (r.1 ≡ good))

pub next_pos :
    (s : Sector) (pos sectors : ℕ) (d : Decoded)
    → pos < sectors
    → sectors ≤ 65536
    → decode_record s pos sectors ≡ some d
    → u32 (pos + 1 + d.entry.blocks) ≡ pos + 1 + d.entry.blocks
next_pos s pos sectors d lt le q = omega (arith, (decode_record-bounds s pos sectors d q lt le).0)

Ends-empty :
    (fuel : ℕ) (name : Option (List ℕ)) (st : Store) (pos records : ℕ) (best : Best)
    → (st.sectors ≤ pos) ⊎ (is_empty (view st pos) ≡ true)
    → Ends st (whole name [] best pos records) (find_loop (suc fuel) name st pos records best)
unfolding latest
Ends-empty fuel name st pos records best end =
    let (n, r) = sector_read-cases st pos in
    let zero_more : records + 0 ≡ records = omega arith in
    elim (Bool-cases (ltb pos st.sectors)) [
      | inr ge ↦
          rw (stop_at_end fuel name st st pos records best (ground arith), zero_more)
            (refl, inr refl)
      | inl lt ↦
          let lt' : pos < st.sectors = ltb→lt _ _ lt in
          let free : is_empty (view st pos) ≡ true = ground arith in
          elim r [
            | inl r ↦
                rw (stop_at_error fuel name st (at_time st n) pos records best lt' r)
                  (refl, inl refl)
            | inr r ↦
                rw
                  (
                    stop_at_empty fuel name st (at_time st n) pos records best lt' (view st pos) r
                        free,
                    zero_more,
                  )
                  (refl, inr refl)
          ]
    ]

-- Whatever the device answers, the loop does not write, does not run out of rounds, and ends in an
-- error or in the scan of the whole log.
pub find_loop-Ends :
    (fuel : ℕ) (name : Option (List ℕ)) (st : Store) (tail pos records : ℕ) (best : Best)
    (ds : List Decoded)
    → st.sectors ≤ 65536
    → st.sectors < fuel + pos
    → pos ≤ st.sectors
    → IsLog (view st) st.sectors tail pos ds
    → Ends st (whole name ds best tail records) (find_loop fuel name st pos records best)
unfolding latest
find_loop-Ends zero name st tail pos records best ds le enough inside log = absurd (omega arith)
find_loop-Ends (suc fuel) name st tail pos records best [] le enough inside (here, end) =
    subst
      (λ p. Ends st (whole name [] best p records) (find_loop (suc fuel) name st pos records best))
      here (Ends-empty fuel name st pos records best (rw here end))
find_loop-Ends (suc fuel) name st tail pos records best (d ∷ ds) le enough inside
      (lt, full, q, rest) =
    let (n, r) = sector_read-cases st pos in
    let one_more : records + 1 + length ds ≡ records + suc (length ds) = omega arith in
    elim r [
      | inl r ↦
          rw (stop_at_error fuel name st (at_time st n) pos records best lt r) (refl, inl refl)
      | inr r ↦
          rw
            (
              step fuel name st (at_time st n) pos records best lt (view st pos) d r full q,
              next_pos (view st pos) pos st.sectors d lt le q,
            )
            (rw one_more at (
              find_loop-Ends fuel name (at_time st n) tail (pos + 1 + d.entry.blocks) (records + 1)
                (update name d best) ds le (omega arith)
                (decode_record-bounds (view st pos) pos st.sectors d q lt le).0 rest))
    ]

-- On a healthy device the loop ends in the scan of the whole log.
pub find_loop-healthy :
    (fuel : ℕ) (name : Option (List ℕ)) (st : Store) (tail pos records : ℕ) (best : Best)
    (ds : List Decoded)
    → IsHealthy st.dev
    → st.base + st.sectors ≤ st.dev.full_capacity
    → st.sectors ≤ 65536
    → st.sectors < fuel + pos
    → pos ≤ st.sectors
    → IsLog (view st) st.sectors tail pos ds
    → (find_loop fuel name st pos records best).1 ≡ whole name ds best tail records
unfolding latest
find_loop-healthy zero name st tail pos records best ds h cap le enough inside log =
    absurd (omega arith)
find_loop-healthy (suc fuel) name st tail pos records best [] h cap le enough inside (here, end) =
    let zero_more : records + 0 ≡ records = omega arith in
    elim (Bool-cases (ltb pos st.sectors)) [
      | inr ge ↦
          rw (stop_at_end fuel name st st pos records best (ground arith), zero_more, here) refl
      | inl lt ↦
          let lt' : pos < st.sectors = ltb→lt _ _ lt in
          let free : is_empty (view st pos) ≡ true = rw here (ground arith) in
          rw
            (
              stop_at_empty fuel name st (at_time st (suc st.dev.requests)) pos records best lt'
                  (view st pos) (sector_read-healthy st pos h lt' (omega arith)) free,
              zero_more,
              here,
            )
            refl
    ]
find_loop-healthy (suc fuel) name st tail pos records best (d ∷ ds) h cap le enough inside
      (lt, full, q, rest) =
    let one_more : records + 1 + length ds ≡ records + suc (length ds) = omega arith in
    rw
      (
        step fuel name st (at_time st (suc st.dev.requests)) pos records best lt (view st pos) d
            (sector_read-healthy st pos h lt (omega arith)) full q,
        next_pos (view st pos) pos st.sectors d lt le q,
      )
      (rw one_more at (
        find_loop-healthy fuel name (at_time st (suc st.dev.requests)) tail
          (pos + 1 + d.entry.blocks) (records + 1) (update name d best) ds
          (IsHealthy-at_request (suc st.dev.requests) h) cap le (omega arith)
          (decode_record-bounds (view st pos) pos st.sectors d q lt le).0 rest))
