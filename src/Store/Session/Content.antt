-- ===== src/Store/Session/Content.antt =====
-- zss_read of src/zc_source_store.h after zss_put: the bytes come back.
use zealos_aarch64_bringup.Base.{
  append_assoc, ℕ, zero, suc, ◌+◌, ◌*◌, ◌-◌, ◌^◌, ◌≤◌, ◌<◌, ◌≡◌, refl, inl, true, false, Option,
  some, List, [], ◌∷◌, ◌++◌, arith, length, take, drop, length-take, length-drop, take-append-drop,
  ◌∙◌, ap, sym, subst, leb, ◌==◌, ==_self,
}
use Prim.Native.Nat.{min}
use zealos_aarch64_bringup.Device.{Sector, IsHealthy}
use zealos_aarch64_bringup.Store.Bytes.{zero_sector, read_bytes, read_bytes-put_bytes}
use zealos_aarch64_bringup.Store.Crc.{crc, crc_bytes, crc_init, crc_final}
use zealos_aarch64_bringup.Store.Crc.Laws.{AreBytes, crc_bytes-append}
use zealos_aarch64_bringup.Store.Record.{Entry, u32, blocks_of, max_file}
use zealos_aarch64_bringup.Store.Bank.{Store, sector_read, available}
use zealos_aarch64_bringup.Store.Bank.Select.{available-fits}
use zealos_aarch64_bringup.Store.Bank.Again.{view-again}
use native.Mathlib.Nat.{add-zero}
use zealos_aarch64_bringup.Store.Name.{name_ok}
use zealos_aarch64_bringup.Store.Record.{Decoded}
use zealos_aarch64_bringup.Store.Record.Laws.{file_record}
use zealos_aarch64_bringup.Store.Find.{Scan, find}
use zealos_aarch64_bringup.Store.Log.Lookup.{Holds, Holds-ahead, find-Ends}
use zealos_aarch64_bringup.Store.Write.{put}
use zealos_aarch64_bringup.Store.Write.Healthy.{find-IsReady}
use zealos_aarch64_bringup.Store.Write.Safety.{put-Stored, put-Beyond, put-ok}
use zealos_aarch64_bringup.Store.Session.Put.{put-Holds, put-IsHealthy, find-put_self}
use zealos_aarch64_bringup.Store.Log.{view, at_time}
use zealos_aarch64_bringup.Store.Log.Scan.{sector_read-healthy, IsHealthy-at_request}
use zealos_aarch64_bringup.Store.Read.{chunk_of, read_blocks, read, verify}
use zealos_aarch64_bringup.Store.Write.{data_sector}
use zealos_aarch64_bringup.Store.Write.Blocks.{Stored}
use zealos_aarch64_bringup.Store.Write.Healthy.{IsReady}

chunk_of_lem : (l : ℕ) → chunk_of l ≡ min 512 l
chunk_of_lem l = ground arith

left_lem : (l : ℕ) → l - chunk_of l ≡ l - 512
left_lem l = ground arith

-- A block gives back its part of the bytes.
chunk_lem :
    (rest : List ℕ)
    → read_bytes (data_sector (take 512 rest)) 0 (chunk_of (length rest)) ≡ take 512 rest
chunk_lem rest =
    let counted : chunk_of (length rest) ≡ length (take 512 rest) =
      chunk_of_lem (length rest) ∙ sym (length-take 512 rest) in
    rw counted (read_bytes-put_bytes zero_sector 0 (take 512 rest))

read_blocks_step :
    (n b header left sum : ℕ) (dst : List ℕ) (st st' : Store) (s : Sector)
    → header + 1 + b < 2 ^ 32
    → sector_read st (header + 1 + b) ≡ (st', some s)
    → read_blocks (suc n) b header left sum dst st
      ≡ read_blocks n
          (b + 1)
          header
          (left - chunk_of left)
          (crc_bytes sum (read_bytes s 0 (chunk_of left)))
          (dst ++ read_bytes s 0 (chunk_of left))
          st'
unfolding read_blocks
read_blocks_step n b header left sum dst st st' s small r =
    let wrap : u32 (header + 1 + b) ≡ header + 1 + b = omega arith in ground arith

append_nil : (xs : List ℕ) → xs ++ [] ≡ xs
append_nil [] = refl
append_nil (x ∷ xs) = ap (λ l. x ∷ l) (append_nil xs)

-- The loop over blocks that hold `rest`.
pub read_blocks-Stored :
    (n b header sum : ℕ) (rest dst : List ℕ) (st : Store)
    → IsReady st
    → st.sectors ≤ 65536
    → header + 1 + b + n ≤ st.sectors
    → length rest ≤ 512 * n
    → Stored (view st) (header + 1 + b) n rest
    → (read_blocks n b header (length rest) sum dst st).1 ≡ some (dst ++ rest, crc_bytes sum rest)
unfolding read_blocks crc_bytes
read_blocks-Stored zero b header sum [] dst st r le room short stored =
    ap (λ l. some (l, sum)) (sym (append_nil dst))
read_blocks-Stored zero b header sum (x ∷ rest) dst st r le room short stored = absurd (omega arith)
read_blocks-Stored (suc n) b header sum rest dst st r le room short (here, stored) =
    let k = header + 1 + b in
    let chunk = take 512 rest in
    let st' = at_time st (suc st.dev.requests) in
    let got : sector_read st k ≡ (st', some (data_sector chunk)) =
      sector_read-healthy st k r.healthy (omega arith) (omega (arith, r.fits))
      ∙ ap (λ s. (st', some s)) here in
    let left : length rest - chunk_of (length rest) ≡ length (drop 512 rest) =
      left_lem (length rest) ∙ sym (length-drop 512 rest) in
    let r' : IsReady st' = record {
      healthy = IsHealthy-at_request (suc st.dev.requests) r.healthy;
      fits = r.fits;
    } in
    let advance : k + 1 ≡ header + 1 + (b + 1) = omega arith in
    let later =
      read_blocks-Stored n (b + 1) header (crc_bytes sum chunk) (drop 512 rest) (dst ++ chunk) st'
        r' le (omega arith) (omega (arith, length-drop 512 rest))
        (subst (λ j. Stored (view st) j n (drop 512 rest)) advance stored) in
    ap (λ (q : Store × Option (List ℕ × ℕ)). q.1)
      (read_blocks_step n b header (length rest) sum dst st st' (data_sector chunk) (omega arith)
        got)
    ∙ rw (chunk_lem rest, left) later
    ∙ ap (λ l. some (l, crc_bytes (crc_bytes sum chunk) (drop 512 rest)))
        (append_assoc dst chunk (drop 512 rest) ∙ ap (λ l. dst ++ l) (take-append-drop 512 rest))
    ∙ ap (λ c. some (dst ++ rest, c))
        (sym (crc_bytes-append sum chunk (drop 512 rest))
          ∙ ap (crc_bytes sum) (take-append-drop 512 rest))

-- zss_read and zss_verify where the bank holds the bytes of the entry.
module _ (entry : Entry) (src : List ℕ) (st : Store) (r : IsReady st) (le : st.sectors ≤ 65536)
    (sized : entry.length ≡ length src) (summed : entry.checksum ≡ crc src)
    (small : length src ≤ max_file) (counted : entry.blocks ≡ blocks_of (length src))
    (room : entry.header_sector + 1 + blocks_of (length src) ≤ st.sectors)
    (stored : Stored (view st) (entry.header_sector + 1) (blocks_of (length src)) src) where
  blocks-Stored :
      (read_blocks entry.blocks 0 entry.header_sector entry.length crc_init [] st).1
      ≡ some (src, crc_bytes crc_init src)
  blocks-Stored =
      rw (sized, counted)
        (read_blocks-Stored (blocks_of (length src)) 0 entry.header_sector crc_init src [] st r le
          (omega arith) (omega arith)
          (subst (λ k. Stored (view st) k (blocks_of (length src)) src)
            (sym (add-zero (entry.header_sector + 1))) stored))

  checked : (crc_final (crc_bytes crc_init src) == entry.checksum) ≡ true
  unfolding crc
  checked = rw summed (==_self (crc_final (crc_bytes crc_init src)))

  pub read-Stored : (cap : ℕ) → length src < cap → (read entry cap st).1 ≡ some src
  unfolding read
  read-Stored cap fits =
      let open_cap : leb cap entry.length ≡ false = ground arith in
      rw (open_cap, blocks-Stored, checked) refl

  pub verify-Stored : (verify entry st).1 ≡ true
  unfolding verify
  verify-Stored = ground (arith, blocks-Stored, checked)

module _ (name src : List ℕ) (st : Store) (tail : ℕ) (ds : List Decoded)
    (named : name_ok name ≡ true) (positive : 0 < length src) (small : length src ≤ max_file)
    (bytes : AreBytes src) (holds : Holds st tail ds) (h : IsHealthy st.dev)
    (room : tail + 1 + blocks_of (length src) ≤ (available st).0.sectors) where
  written_to : Store
  written_to = (put name src st).0

  looked_up : Store
  unfolding written_to
  looked_up = (find (some name) written_to).0

  abbrev next_tail : ℕ
  next_tail = tail + 1 + blocks_of (length src)

  abbrev new : Decoded
  new = file_record tail name (length src) (crc src)

  after-Holds : Holds written_to next_tail (ds ++ new ∷ [])
  unfolding written_to
  after-Holds = put-Holds name src st tail ds named positive small bytes holds h room

  after-IsHealthy : IsHealthy written_to.dev
  unfolding written_to
  after-IsHealthy = put-IsHealthy name src st tail ds named positive small bytes holds h room

  after-IsReady : IsReady looked_up
  unfolding looked_up
  after-IsReady =
      find-IsReady (some name) written_to next_tail (ds ++ new ∷ []) (rw named refl) after-Holds
        after-IsHealthy

  same_after : looked_up ≡ at_time (available written_to).0 looked_up.dev.requests
  unfolding looked_up
  same_after =
      (find-Ends (some name) written_to next_tail (ds ++ new ∷ []) (rw named refl) after-Holds).0

  after-view : view looked_up ≡ view written_to
  unfolding written_to
  after-view =
      ap (λ (s : Store). view s) same_after
      ∙ view-again st written_to tail h holds.selected (Holds-ahead st tail ds holds)
          (put-Beyond name src st tail ds named positive small bytes holds)

  after-sectors : looked_up.sectors ≡ 65536
  after-sectors =
      ap (λ (s : Store). s.sectors) same_after ∙ (available-fits written_to after-Holds.selected).0

  after-Stored : Stored (view looked_up) (tail + 1) (blocks_of (length src)) src
  unfolding written_to
  after-Stored =
      subst (λ v. Stored v (tail + 1) (blocks_of (length src)) src) (sym after-view)
        (put-Stored name src st tail ds named positive small bytes holds
          (inl (put-ok name src st tail ds named positive small bytes holds h room)))

  -- On a device whose requests succeed, in a bank that holds a log and has room for the record:
  -- what zss_put of a valid name and of bytes wrote, zss_find looks up, zss_read of the found
  -- entry gives back byte for byte into a buffer with room for the terminator, and zss_verify
  -- accepts.
  pub read-find-put :
      (cap : ℕ)
      → length src < cap
      → ((find (some name) (put name src st).0).1.entry ≡ some new.entry)
        × ((read new.entry cap (find (some name) (put name src st).0).0).1 ≡ some src)
        × ((verify new.entry (find (some name) (put name src st).0).0).1 ≡ true)
  unfolding looked_up written_to
  read-find-put cap fits =
      let inside : tail + 1 + blocks_of (length src) ≤ looked_up.sectors =
        omega (arith, after-sectors, (available-fits st holds.selected).0) in
      (
        ap (λ (s : Scan). s.entry)
            (find-put_self name src st tail ds named positive small bytes holds h room),
        read-Stored new.entry src looked_up after-IsReady (omega (arith, after-sectors)) refl refl
            small refl inside after-Stored cap fits,
        verify-Stored new.entry src looked_up after-IsReady (omega (arith, after-sectors)) refl refl
            small refl inside after-Stored,
      )
