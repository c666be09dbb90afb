-- ===== src/Store/Write/Atomic.antt =====
-- The commit sequence of src/zc_source_store.h over a log.
use native.Mathlib.Nat.{le_refl}
use zealos_aarch64_bringup.Base.{
  ℕ, ◌+◌, ◌≤◌, ◌<◌, ◌≡◌, ◌≢◌, refl, ◌⊎◌, inl, inr, true, false, List, [], ◌∷◌, ◌++◌, arith,
  Bool-cases, ==_self, not, some, subst, sym, ◌∙◌, ap,
}
use zealos_aarch64_bringup.Device.{Sector, Device, torn}
use zealos_aarch64_bringup.Store.Bytes.{is_empty}
use zealos_aarch64_bringup.Store.Record.{Decoded, decode_record}
use zealos_aarch64_bringup.Store.Bank.{Store}
use zealos_aarch64_bringup.Store.Log.{view, IsLog}
use zealos_aarch64_bringup.Store.Bank.Laws.{at_time-Beyond}
use zealos_aarch64_bringup.Store.Log.Frame.{Beyond, Beyond-trans, IsLog-append, IsLog-kept}
use zealos_aarch64_bringup.Store.Write.{Code, invalid, prepare, publish, commit}
use zealos_aarch64_bringup.Store.Write.Commit.{
  Placed, IsVisible, Published, publish-ends, prepare-Beyond, prepare-true,
}

pub view-Beyond :
    {lo : ℕ} {st st' : Store} (k : ℕ) → Beyond lo st st' → k < lo → view st' k ≡ view st k
view-Beyond {st} k b lt = rw b.same_base (b.outside (st.base + k) (inl (omega arith)))

pub view-Placed_self : {st st' : Store} (k : ℕ) {s : Sector} → Placed st k s st' → view st' k ≡ s
view-Placed_self {st} k p = rw (p.same_base, p.at_medium, ==_self) refl

pub view-Placed_ne :
    {st st' : Store} (k j : ℕ) {s : Sector} → Placed st k s st' → j ≢ k → view st' j ≡ view st j
view-Placed_ne {st} k j p ne = rw (p.same_base, p.at_medium) (ground arith)

pub Placed-Beyond :
    {st st' : Store} (k : ℕ) {s : Sector}
    → Placed st k s st'
    → (a : ℕ) → (a < st.base + k) ⊎ (st.base + st.sectors ≤ a)
    → st'.dev.medium a ≡ st.dev.medium a
Placed-Beyond {st} k p a h =
    let far : a ≢ st.base + k = omega (arith, p.inside) in rw p.at_medium (ground arith)

-- What an append comes to: the new record is in the log; or the call failed and the log is as it
-- was; or the call failed because the device tore the sector of the new header, and every earlier
-- sector of the bank is as it was.
pub data Appended (st : Store) (tail next : ℕ) (ds : List Decoded) (d : Decoded) (r : Store × Code)
    : Type 0 where
  appended :
      IsVisible r.1
      → IsLog (view r.0) st.sectors next 1 (ds ++ d ∷ [])
      → Appended st tail next ds d r
  kept : (IsVisible r.1 → ⊥) → IsLog (view r.0) st.sectors tail 1 ds → Appended st tail next ds d r
  tore :
      (n : ℕ) (g : Sector)
      → r.1 ≡ invalid
      → st.dev.completion n ≡ torn g
      → view r.0 tail ≡ g
      → ((k : ℕ) → k < tail → view r.0 k ≡ view st k)
      → Appended st tail next ds d r

pub not_visible : {c : Code} → c ≡ invalid → IsVisible c → ⊥
not_visible e (inl v) = cc
not_visible e (inr v) = cc

module _ (st0 st : Store) (tail next : ℕ) (ds : List Decoded) (d : Decoded) (header : Sector)
    (beyond : Beyond (tail + 1) st0 st) (bounded : st0.sectors ≤ 65536) (room : tail < st0.sectors)
    (ahead : tail < next) (log : IsLog (view st0) st0.sectors tail 1 ds)
    (full : is_empty header ≡ false) (q : decode_record header tail st0.sectors ≡ some d)
    (adv : tail + 1 + d.entry.blocks ≡ next) where
  ready-Beyond : Beyond (tail + 1) st0 (prepare st next).0
  ready-Beyond = Beyond-trans beyond (prepare-Beyond st next (tail + 1) (omega arith)) (omega arith)

  unchanged-IsLog :
      (st' : Store) → Beyond (tail + 1) st0 st' → IsLog (view st') st0.sectors tail 1 ds
  unchanged-IsLog st' b =
      IsLog-kept (view st0) (view st') st0.sectors tail 1 ds bounded
        (λ k le. view-Beyond k b (omega arith)) log

  free_behind :
      (r : Store × Code)
      → Placed (prepare st next).0 tail header r.0
      → (st.sectors ≤ next) ⊎ (is_empty (view (prepare st next).0 next) ≡ true)
      → (st0.sectors ≤ next) ⊎ (is_empty (view r.0 next) ≡ true)
  free_behind r p (inl past) = inl (omega (arith, beyond.same_sectors))
  free_behind r p (inr e) = inr (rw (view-Placed_ne tail next p (omega arith)) e)

  Published-log :
      (r : Store × Code)
      → (prepare st next).1 ≡ true
      → Published (prepare st next).0 tail header r
      → Appended st0 tail next ds d r
  Published-log r ready (inl (v, p)) = appended v (
      IsLog-append (view st0) (view r.0) st0.sectors tail next 1 ds (d ∷ []) bounded
        (λ k lt. view-Placed_ne tail k p (omega arith) ∙ view-Beyond k ready-Beyond (omega arith))
        log
        (
          room,
          rw (view-Placed_self tail p) full,
          rw (view-Placed_self tail p) q,
          (adv, free_behind r p (prepare-true st next ready)),
        ))
  Published-log r ready (inr (inl (e, same))) = kept (not_visible e) (
      unchanged-IsLog r.0 (
        subst (Beyond (tail + 1) st0) (sym same) (
          Beyond-trans ready-Beyond (at_time-Beyond (prepare st next).0 (tail + 1) r.0.dev.requests)
            (omega arith))))
  Published-log r ready (inr (inr (g, e, t, p))) =
      tore (prepare st next).0.dev.requests g e
        (ap (λ (d : Device). d.completion (prepare st next).0.dev.requests)
            (sym ready-Beyond.same_device)
          ∙ t)
        (view-Placed_self tail p)
        (λ k lt. view-Placed_ne tail k p (omega arith) ∙ view-Beyond k ready-Beyond (omega arith))

  pub commit-log : Appended st0 tail next ds d (commit st tail next header)
  unfolding commit
  commit-log = elim (Bool-cases (not (prepare st next).1)) [
    | inl bad ↦ rw bad (kept (not_visible refl) (unchanged-IsLog (prepare st next).0 ready-Beyond))
    | inr good ↦ rw good (
        Published-log (publish (prepare st next).0 tail header) (ground arith)
          (publish-ends (prepare st next).0 tail header))
  ]

-- The commit sequence leaves the sectors between the header and the end of the record alone.
pub commit-between :
    (st : Store) (tail next k : ℕ) (header : Sector)
    → tail < k
    → k < next
    → view (commit st tail next header).0 k ≡ view st k
unfolding commit
commit-between st tail next k header lo hi = elim (Bool-cases (not (prepare st next).1)) [
  | inl bad ↦ rw bad here
  | inr good ↦ rw good (published (publish-ends (prepare st next).0 tail header))
]
  where
    here : view (prepare st next).0 k ≡ view st k
    here = view-Beyond k (prepare-Beyond st next next (le_refl next)) hi

    published :
        {r : Store × Code} → Published (prepare st next).0 tail header r → view r.0 k ≡ view st k
    published (inl (v, p)) = view-Placed_ne tail k p (omega arith) ∙ here
    published {r} (inr (inl (e, same))) = rw same here
    published (inr (inr (g, e, t, p))) = view-Placed_ne tail k p (omega arith) ∙ here
