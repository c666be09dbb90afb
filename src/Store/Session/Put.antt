-- ===== src/Store/Session/Put.antt =====
-- zss_put of src/zc_source_store.h and the lookups after it.
use zealos_aarch64_bringup.Base.{
  ℕ, suc, ◌+◌, ◌≤◌, ◌<◌, ◌≡◌, ◌≢◌, refl, inl, true, none, some, List, [], ◌∷◌, ◌++◌, arith, length,
  length-append, ◌∙◌, sym,
}
use zealos_aarch64_bringup.Device.{IsHealthy}
use zealos_aarch64_bringup.Store.Crc.{crc}
use zealos_aarch64_bringup.Store.Crc.Laws.{AreBytes}
use zealos_aarch64_bringup.Store.Name.{name_ok}
use zealos_aarch64_bringup.Store.Record.{Decoded, max_file, blocks_of}
use zealos_aarch64_bringup.Store.Record.Laws.{file_record}
use zealos_aarch64_bringup.Store.Bank.{Store, available}
use zealos_aarch64_bringup.Store.Bank.Again.{Holds-again, again-IsHealthy}
use zealos_aarch64_bringup.Store.Find.{absent, found, find}
use zealos_aarch64_bringup.Store.Log.{view, IsLog, latest}
use zealos_aarch64_bringup.Store.Log.Lookup.{Holds, Holds-ahead, find-healthy}
use zealos_aarch64_bringup.Store.Write.{Code, ok, invalid, put}
use zealos_aarch64_bringup.Store.Write.Atomic.{Appended, appended, kept, tore}
use zealos_aarch64_bringup.Store.Write.Safety.{put-Appended, put-Beyond, put-ok}
use zealos_aarch64_bringup.Store.Session.Lookup.{latest-append, update_self, update_ne}

-- A visible record is one of the log.
pub Appended-ok :
    (st : Store) (tail next : ℕ) (ds : List Decoded) (d : Decoded) (r : Store × Code)
    → r.1 ≡ ok
    → Appended st tail next ds d r
    → IsLog (view r.0) st.sectors next 1 (ds ++ d ∷ [])
Appended-ok st tail next ds d r e (appended v log) = log
Appended-ok st tail next ds d r e (kept gone log) = absurd (gone (inl e))
Appended-ok st tail next ds d r e (tore n g bad t at_tail before) =
    let c : ok ≡ invalid = sym e ∙ bad in cc

module _ (name src : List ℕ) (st : Store) (tail : ℕ) (ds : List Decoded)
    (named : name_ok name ≡ true) (positive : 0 < length src) (small : length src ≤ max_file)
    (bytes : AreBytes src) (holds : Holds st tail ds) (h : IsHealthy st.dev)
    (room : tail + 1 + blocks_of (length src) ≤ (available st).0.sectors) where
  pub put-IsHealthy : IsHealthy (put name src st).0.dev
  put-IsHealthy =
      again-IsHealthy st (put name src st).0 tail h holds.selected (Holds-ahead st tail ds holds)
        (put-Beyond name src st tail ds named positive small bytes holds)

  -- On a device whose requests succeed, in a bank that holds a log and has room for the record,
  -- zss_put of a valid name and content leaves a store in which the next call selects the bank
  -- again and finds there the records it held, the new one at the end, and the free space behind
  -- it.
  pub put-Holds :
      Holds
        (put name src st).0
        (tail + 1 + blocks_of (length src))
        (ds ++ file_record tail name (length src) (crc src) ∷ [])
  put-Holds =
      Holds-again st (put name src st).0 tail h holds.selected (Holds-ahead st tail ds holds)
        (put-Beyond name src st tail ds named positive small bytes holds)
        (tail + 1 + blocks_of (length src))
        (ds ++ file_record tail name (length src) (crc src) ∷ [])
        (Appended-ok (available st).0 tail (tail + 1 + blocks_of (length src)) ds
          (file_record tail name (length src) (crc src)) (put name src st)
          (put-ok name src st tail ds named positive small bytes holds h room)
          (put-Appended name src st tail ds named positive small bytes holds))

  new : Decoded
  new = file_record tail name (length src) (crc src)

  -- On a device whose requests succeed, in a bank that holds a log and has room for the record,
  -- zss_find of the name after zss_put of a valid name and content gives the entry of the new
  -- content, wherever an earlier version or a tombstone of the name stands, and counts one record
  -- more.
  pub find-put_self : (find (some name) (put name src st).0).1 ≡ record {
    status = found;
    entry = some (file_record tail name (length src) (crc src)).entry;
    tail = tail + 1 + blocks_of (length src);
    records = suc (length ds);
  }
  unfolding new
  find-put_self =
      let after =
        find-healthy (some name) (put name src st).0 (tail + 1 + blocks_of (length src))
          (ds ++ new ∷ []) (rw named refl) put-Holds put-IsHealthy in
      let best =
        latest-append (some name) ds new (absent, none)
        ∙ update_self name new (latest (some name) ds (absent, none)) refl in
      let counted : 0 + length (ds ++ new ∷ []) ≡ suc (length ds) =
        omega (arith, length-append ds (new ∷ [])) in
      rw (best, counted) at after

  -- On a device whose requests succeed, in a bank that holds a log and has room for the record,
  -- zss_find of any other valid name gives the same status and entry after zss_put of a valid name
  -- and content as before.
  pub find-put_other :
      (other : List ℕ)
      → name_ok other ≡ true
      → name ≢ other
      → ((find (some other) (put name src st).0).1.status ≡ (find (some other) st).1.status)
        × ((find (some other) (put name src st).0).1.entry ≡ (find (some other) st).1.entry)
  unfolding new
  find-put_other other fine ne =
      let before = find-healthy (some other) st tail ds (rw fine refl) holds h in
      let after =
        find-healthy (some other) (put name src st).0 (tail + 1 + blocks_of (length src))
          (ds ++ new ∷ []) (rw fine refl) put-Holds put-IsHealthy in
      let best =
        latest-append (some other) ds new (absent, none)
        ∙ update_ne other new (latest (some other) ds (absent, none)) ne in
      rw (before, after, best) (refl, refl)
