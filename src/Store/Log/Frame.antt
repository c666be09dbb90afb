-- ===== src/Store/Log/Frame.antt =====
-- What an operation leaves alone, and logs under such changes.
use zealos_aarch64_bringup.Base.{
  ℕ, ◌+◌, ◌≤◌, ◌<◌, ◌≡◌, refl, ◌⊎◌, List, [], ◌∷◌, ◌++◌, arith, ◌∙◌, ap, subst, sym,
}
use zealos_aarch64_bringup.Device.{Sector, Device}
use zealos_aarch64_bringup.Store.Record.{Decoded}
use zealos_aarch64_bringup.Store.Record.Laws.{decode_record-bounds}
use zealos_aarch64_bringup.Store.Bank.{Store}
use zealos_aarch64_bringup.Store.Log.{IsLog}

-- `st'` has the bank of `st`, on a device that differs at most in sectors of that bank from
-- sector `lo` on.
pub record Beyond (lo : ℕ) (st st' : Store) : Type 0 where
  pub same_base : st'.base ≡ st.base
  pub same_sectors : st'.sectors ≡ st.sectors
  pub same_generation : st'.generation ≡ st.generation
  pub same_device : st'.dev ≡ record st.dev { medium = st'.dev.medium; requests = st'.dev.requests }
  pub outside :
      (a : ℕ) → (a < st.base + lo) ⊎ (st.base + st.sectors ≤ a) → st'.dev.medium a ≡ st.dev.medium a

pub Beyond-refl : (lo : ℕ) (st : Store) → Beyond lo st st
Beyond-refl lo st = record {
  same_base = refl;
  same_sectors = refl;
  same_generation = refl;
  same_device = refl;
  outside = λ a h. refl;
}

pub Beyond-trans :
    {lo lo' : ℕ} {st st' st'' : Store}
    → Beyond lo st st'
    → Beyond lo' st' st''
    → lo ≤ lo'
    → Beyond lo st st''
Beyond-trans {lo} {lo'} {st} {st'} {st''} p q le = record {
  same_base = q.same_base ∙ p.same_base;
  same_sectors = q.same_sectors ∙ p.same_sectors;
  same_generation = q.same_generation ∙ p.same_generation;
  same_device =
      q.same_device
      ∙ ap (λ (d : Device). record d { medium = st''.dev.medium; requests = st''.dev.requests })
          p.same_device;
  outside = λ a h. q.outside a (omega (arith, p.same_base, p.same_sectors)) ∙ p.outside a h;
}

module _ (v v' : ℕ → Sector) (sectors : ℕ) where
  pub IsLog-le :
      (tail pos : ℕ) (ds : List Decoded)
      → sectors ≤ 65536
      → IsLog v sectors tail pos ds
      → pos ≤ tail
  IsLog-le tail pos [] le (here, end) = omega arith
  IsLog-le tail pos (d ∷ ds) le (lt, full, q, rest) =
      omega (arith, IsLog-le tail (pos + 1 + d.entry.blocks) ds le rest)

  pub IsLog-tail_le :
      (tail pos : ℕ) (ds : List Decoded)
      → sectors ≤ 65536
      → pos ≤ sectors
      → IsLog v sectors tail pos ds
      → tail ≤ sectors
  IsLog-tail_le tail pos [] le inside (here, end) = omega arith
  IsLog-tail_le tail pos (d ∷ ds) le inside (lt, full, q, rest) =
      IsLog-tail_le tail (pos + 1 + d.entry.blocks) ds le
        (decode_record-bounds (v pos) pos sectors d q lt le).0 rest

  -- Records that stay where they are, and what comes to stand behind them.
  pub IsLog-append :
      (tail tail' pos : ℕ) (ds more : List Decoded)
      → sectors ≤ 65536
      → ((k : ℕ) → k < tail → v' k ≡ v k)
      → IsLog v sectors tail pos ds
      → IsLog v' sectors tail' tail more
      → IsLog v' sectors tail' pos (ds ++ more)
  IsLog-append tail tail' pos [] more le same (here, end) log =
      subst (λ p. IsLog v' sectors tail' p more) (sym here) log
  IsLog-append tail tail' pos (d ∷ ds) more le same (lt, full, q, rest) log =
      let before : pos < tail =
        omega (arith, IsLog-le tail (pos + 1 + d.entry.blocks) ds le rest) in
      (
        lt,
        rw (same pos before) full,
        rw (same pos before) q,
        IsLog-append tail tail' (pos + 1 + d.entry.blocks) ds more le same rest log,
      )

  -- A change behind the end of the log leaves the log alone.
  pub IsLog-kept :
      (tail pos : ℕ) (ds : List Decoded)
      → sectors ≤ 65536
      → ((k : ℕ) → k ≤ tail → v' k ≡ v k)
      → IsLog v sectors tail pos ds
      → IsLog v' sectors tail pos ds
  IsLog-kept tail pos [] le same (here, end) = (here, rw (same tail (omega arith)) end)
  IsLog-kept tail pos (d ∷ ds) le same (lt, full, q, rest) =
      let before : pos < tail =
        omega (arith, IsLog-le tail (pos + 1 + d.entry.blocks) ds le rest) in
      (
        lt,
        rw (same pos (omega arith)) full,
        rw (same pos (omega arith)) q,
        IsLog-kept tail (pos + 1 + d.entry.blocks) ds le same rest,
      )
