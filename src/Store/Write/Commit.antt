-- ===== src/Store/Write/Commit.antt =====
-- The commit sequence of zss_put, zss_delete and zss_stream_finish of src/zc_source_store.h: the
-- record appears as a whole or the log stays as it was.
use zealos_aarch64_bringup.Base.{
  ℕ, suc, ◌+◌, ◌≤◌, ◌<◌, ◌≡◌, refl, ◌⊎◌, inl, inr, Bool, true, false, arith, Bool-cases, ==_self,
  leb, leb→le, not, subst, sym, ap, if◌then◌else◌,
}
use zealos_aarch64_bringup.Device.{Sector, torn, write_at}
use zealos_aarch64_bringup.Store.Bytes.{zero_sector, is_empty, is_empty-zero_sector}
use zealos_aarch64_bringup.Store.Bank.{Store, terminate_log}
use zealos_aarch64_bringup.Store.Bank.Laws.{
  written, sector_write-cases, sector_write-Beyond, at_time-Beyond, flush-same,
}
use zealos_aarch64_bringup.Store.Log.{view, at_time}
use zealos_aarch64_bringup.Store.Log.Frame.{Beyond, Beyond-refl, Beyond-trans}
use zealos_aarch64_bringup.Store.Write.{Code, ok, invalid, unflushed, barrier, prepare, publish}

pub barrier-same : (st : Store) → (barrier st).0 ≡ at_time st (barrier st).0.dev.requests
unfolding barrier
barrier-same st = ground (arith, flush-same st)

terminate_log-Beyond :
    (st : Store) (next lo : ℕ) → lo ≤ next → Beyond lo st (terminate_log st next).0
unfolding terminate_log
terminate_log-Beyond st next lo le = elim (Bool-cases (leb st.sectors next)) [
  | inl past ↦ rw past (Beyond-refl lo st)
  | inr inside ↦ rw inside (sector_write-Beyond st next lo zero_sector le)
]

-- The sector behind the new record is past the end or empty.
terminate_log-true :
    (st : Store) (next : ℕ)
    → (terminate_log st next).1 ≡ true
    → (st.sectors ≤ next) ⊎ (is_empty (view (terminate_log st next).0 next) ≡ true)
unfolding terminate_log
terminate_log-true st next h = elim (Bool-cases (leb st.sectors next)) [
  | inl past ↦ inl (leb→le _ _ past)
  | inr inside ↦ elim (sector_write-cases st next zero_sector) [
    | inl (lt, e) ↦ inr (rw (inside, e, ==_self) is_empty-zero_sector)
    | inr (inl (n, e)) ↦ let c : false ≡ true = rw (inside, e) at h in cc
    | inr (inr (g, lt, t, e)) ↦ let c : false ≡ true = rw (inside, e) at h in cc
  ]
]

-- `st'` is `st` with sector `k` of the bank rewritten.
pub record Placed (st : Store) (k : ℕ) (s : Sector) (st' : Store) : Type 0 where
  pub inside : k < st.sectors
  pub same_base : st'.base ≡ st.base
  pub same_sectors : st'.sectors ≡ st.sectors
  pub at_medium : st'.dev.medium ≡ write_at st.dev.medium (st.base + k) s

-- `zss_put` says 0 or -5 only once the header is on the medium.
abbrev pub IsVisible : Code → Type 0
IsVisible code = (code ≡ ok) ⊎ (code ≡ unflushed)

-- The three ways in which the header write ends.
abbrev pub Published : Store → ℕ → Sector → Store × Code → Type 0
Published st k header r =
    (IsVisible r.1 × Placed st k header r.0)
    ⊎ (((r.1 ≡ invalid) × (r.0 ≡ at_time st r.0.dev.requests))
        ⊎ ((g : Sector) × (r.1 ≡ invalid)
            × (st.dev.completion st.dev.requests ≡ torn g)
            × Placed st k g r.0))

visible : (b : Bool) → IsVisible (if b then ok else unflushed)
visible true = inl refl
visible false = inr refl

-- The catalog is stale once the header is written.
abbrev listed : Store → Store
listed st = record st { catalog_valid = false; catalog_revision = suc st.catalog_revision }

pub publish-ends :
    (st : Store) (tail : ℕ) (header : Sector) → Published st tail header (publish st tail header)
unfolding publish
publish-ends st tail header = elim (sector_write-cases st tail header) [
  | inl (lt, e) ↦
      let st2 = listed (written st tail header (suc st.dev.requests)) in
      rw e (
        inl (
          visible (barrier st2).1,
          record {
            inside = lt;
            same_base = ap (λ (s : Store). s.base) (barrier-same st2);
            same_sectors = ap (λ (s : Store). s.sectors) (barrier-same st2);
            at_medium = ap (λ (s : Store). s.dev.medium) (barrier-same st2);
          },
        ))
  | inr (inl (n, e)) ↦ rw e (inr (inl (refl, refl)))
  | inr (inr (g, lt, t, e)) ↦ rw e (
      inr (
        inr (
          g,
          refl,
          t,
          record { inside = lt; same_base = refl; same_sectors = refl; at_medium = refl },
        )))
]

-- What stands in the bank once the record is to be published.
pub prepare-Beyond : (st : Store) (next lo : ℕ) → lo ≤ next → Beyond lo st (prepare st next).0
unfolding prepare
prepare-Beyond st next lo le = elim (Bool-cases (not (terminate_log st next).1)) [
  | inl bad ↦ rw bad (terminate_log-Beyond st next lo le)
  | inr good ↦ rw good (
      Beyond-trans (terminate_log-Beyond st next lo le)
        (subst (λ s. Beyond lo (terminate_log st next).0 s)
          (sym (barrier-same (terminate_log st next).0)) (at_time-Beyond _ lo _))
        (omega arith))
]

pub prepare-true :
    (st : Store) (next : ℕ)
    → (prepare st next).1 ≡ true
    → (st.sectors ≤ next) ⊎ (is_empty (view (prepare st next).0 next) ≡ true)
unfolding prepare
prepare-true st next h = elim (Bool-cases (not (terminate_log st next).1)) [
  | inl bad ↦ let c : false ≡ true = rw bad at h in cc
  | inr good ↦
      rw good
        (rw (barrier-same (terminate_log st next).0) (terminate_log-true st next (ground arith)))
]
