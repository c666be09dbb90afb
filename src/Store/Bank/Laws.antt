-- ===== src/Store/Bank/Laws.antt =====
-- Writes to the selected bank, and the choice of the bank.
use zealos_aarch64_bringup.Base.{
  ℕ, suc, ◌+◌, ◌≤◌, ◌<◌, ◌≡◌, refl, ◌⊎◌, inl, inr, true, false, arith, Bool-cases, ltb, ltb→lt,
}
use zealos_aarch64_bringup.Device.{Sector, torn, write_at, write_abs-cases, flush_abs-same}
use zealos_aarch64_bringup.Store.Bank.{Store, bank_write, sector_write, flush}
use zealos_aarch64_bringup.Store.Log.{at_time}
use zealos_aarch64_bringup.Store.Log.Frame.{Beyond}

-- The store after a write of `s` to sector `k`.
abbrev pub written : Store → ℕ → Sector → ℕ → Store
written st k s n = record st {
  dev = record st.dev { medium = write_at st.dev.medium (st.base + k) s; requests = n };
}

-- A write succeeds and has written its sector, or fails and has left the bank alone, or fails
-- because the device tore the sector.
pub sector_write-cases :
    (st : Store) (k : ℕ) (s : Sector)
    → ((k < st.sectors) × (sector_write st k s ≡ (written st k s (suc st.dev.requests), true)))
      ⊎ (((n : ℕ) × (sector_write st k s ≡ (at_time st n, false)))
          ⊎ ((g : Sector) × (k < st.sectors)
              × (st.dev.completion st.dev.requests ≡ torn g)
              × (sector_write st k s ≡ (written st k g (suc st.dev.requests), false))))
unfolding sector_write bank_write
sector_write-cases st k s = elim (Bool-cases (ltb k st.sectors)) [
  | inr ge ↦ inr (inl (st.dev.requests, rw ge refl))
  | inl lt ↦
      let lt' : k < st.sectors = ltb→lt _ _ lt in
      elim (write_abs-cases st.dev (st.base + k) s) [
        | inl e ↦ inl (lt', rw (lt, e) refl)
        | inr (inl (n, e)) ↦ inr (inl (n, rw (lt, e) refl))
        | inr (inr (g, t, e)) ↦ inr (inr (g, lt', t, rw (lt, e) refl))
      ]
]

-- A write to sector `k` stays beyond every earlier one.
pub written-Beyond :
    (st : Store) (k lo n : ℕ) (s : Sector)
    → lo ≤ k
    → k < st.sectors
    → Beyond lo st (written st k s n)
written-Beyond st k lo n s le lt = record {
  same_base = refl;
  same_sectors = refl;
  same_generation = refl;
  same_device = refl;
  outside = λ a h. ground arith;
}

pub at_time-Beyond : (st : Store) (lo n : ℕ) → Beyond lo st (at_time st n)
at_time-Beyond st lo n = record {
  same_base = refl;
  same_sectors = refl;
  same_generation = refl;
  same_device = refl;
  outside = λ a h. refl;
}

pub sector_write-Beyond :
    (st : Store) (k lo : ℕ) (s : Sector) → lo ≤ k → Beyond lo st (sector_write st k s).0
sector_write-Beyond st k lo s le = elim (sector_write-cases st k s) [
  | inl (lt, e) ↦ rw e (written-Beyond st k lo (suc st.dev.requests) s le lt)
  | inr (inl (n, e)) ↦ rw e (at_time-Beyond st lo n)
  | inr (inr (g, lt, t, e)) ↦ rw e (written-Beyond st k lo (suc st.dev.requests) g le lt)
]

pub flush-same : (st : Store) → (flush st).0 ≡ at_time st (flush st).0.dev.requests
unfolding flush
flush-same st = ground (arith, flush_abs-same st.dev)
