-- ===== src/Store/Bank/Again.antt =====
-- zss_available of src/zc_source_store.h chooses the same bank again once records were appended.
use zealos_aarch64_bringup.Base.{
  Bool, List, ℕ, ◌+◌, ◌≤◌, ◌<◌, ◌≡◌, refl, ◌⊎◌, inl, inr, true, Option, none, some, arith,
  Bool-cases, ltb, ap, ap₂, ◌∙◌, sym, subst,
}
use zealos_aarch64_bringup.Device.{Device, IsHealthy, IsHealthy-changed}
use zealos_aarch64_bringup.Store.Bank.{
  Store, choose_bank, available, src_lba_base, src_sects, src_shadow_lba, src_shadow_sects,
}
use zealos_aarch64_bringup.Store.Bank.Select.{
  generation_of, after_shadow, available-same, available-healthy,
}
use zealos_aarch64_bringup.Store.Record.{Decoded}
use zealos_aarch64_bringup.Store.Log.{view, at_time, IsLog}
use zealos_aarch64_bringup.Store.Log.Frame.{Beyond}
use zealos_aarch64_bringup.Store.Log.Lookup.{Holds}

-- One of the two banks, over the device of `s`.
record IsBank (s r : Store) : Type 0 where
  is_one :
      ((r.base ≡ src_lba_base) × (r.sectors ≡ src_sects))
      ⊎ ((r.base ≡ src_shadow_lba) × (r.sectors ≡ src_shadow_sects))
  over : r.dev ≡ s.dev

-- The choice looks at the generations alone.
choose_bank-again :
    (s s' : Store) (a b : Option ℕ)
    → (choose_bank s a b).1 ≡ true
    → IsBank s (choose_bank s a b).0
      × ((choose_bank s' a b).1 ≡ true)
      × ((choose_bank s' a b).0 ≡ record (choose_bank s a b).0 {
        dev = s'.dev;
        catalog_valid = s'.catalog_valid;
        catalog_revision = s'.catalog_revision;
      })
unfolding choose_bank
choose_bank-again s s' none none h = absurd (ground arith)
choose_bank-again s s' none (some b) h =
    (record { is_one = inr (refl, refl); over = refl }, refl, refl)
choose_bank-again s s' (some a) none h =
    (record { is_one = inl (refl, refl); over = refl }, refl, refl)
choose_bank-again s s' (some a) (some b) h = elim (Bool-cases (ltb a b)) [
  | inl lt ↦ rw lt (record { is_one = inr (refl, refl); over = refl }, refl, refl)
  | inr ge ↦ rw ge (record { is_one = inl (refl, refl); over = refl }, refl, refl)
]

-- Neither superblock is among the sectors that an append may write.
generation_of-Beyond :
    (d d' : Device) (base sectors : ℕ)
    → d'.full_capacity ≡ d.full_capacity
    → d'.medium (base + 0) ≡ d.medium (base + 0)
    → generation_of d' base sectors ≡ generation_of d base sectors
unfolding generation_of
generation_of-Beyond d d' base sectors cap same = rw (cap, same)

module _ (st st' : Store) (lo : ℕ) (h : IsHealthy st.dev) (selected : (available st).1 ≡ true)
    (ahead : 0 < lo) (beyond : Beyond lo (available st).0 st') where
  same_device : st'.dev ≡ record st.dev { medium = st'.dev.medium; requests = st'.dev.requests }
  same_device =
      beyond.same_device
      ∙ ap (λ (d : Device). record d { medium = st'.dev.medium; requests = st'.dev.requests })
          (available-same st)

  pub again-IsHealthy : IsHealthy st'.dev
  again-IsHealthy =
      subst IsHealthy (sym same_device) (IsHealthy-changed st'.dev.medium st'.dev.requests h)

  -- The generations of the two banks.
  main_generation : Option ℕ
  main_generation = generation_of st.dev src_lba_base src_sects

  shadow_generation : Option ℕ
  shadow_generation = generation_of st.dev src_shadow_lba src_shadow_sects

  -- The choices before and after.
  before : Store
  before = at_time st (after_shadow st).dev.requests

  after : Store
  after = at_time st' (after_shadow st').dev.requests

  chosen : available st ≡ choose_bank before main_generation shadow_generation
  unfolding before main_generation shadow_generation
  chosen = available-healthy st h

  choice :
      IsBank before (available st).0
      × ((choose_bank after main_generation shadow_generation).1 ≡ true)
      × ((choose_bank after main_generation shadow_generation).0 ≡ record (available st).0 {
        dev = after.dev;
        catalog_valid = after.catalog_valid;
        catalog_revision = after.catalog_revision;
      })
  choice =
      rw chosen
        (choose_bank-again before after main_generation shadow_generation (rw chosen at selected))

  kept_outside :
      (a : ℕ)
      → (a < (available st).0.base + lo) ⊎ ((available st).0.base + (available st).0.sectors ≤ a)
      → st'.dev.medium a ≡ st.dev.medium a
  kept_outside a o = beyond.outside a o ∙ ap (λ (d : Device). d.medium a) (available-same st)

  superblocks :
      (st'.dev.medium (src_lba_base + 0) ≡ st.dev.medium (src_lba_base + 0))
      × (st'.dev.medium (src_shadow_lba + 0) ≡ st.dev.medium (src_shadow_lba + 0))
  superblocks = elim choice.0.is_one [
    | inl (b, s) ↦ (
      kept_outside (src_lba_base + 0) (inl (omega (arith, b))),
      kept_outside (src_shadow_lba + 0) (inr (omega (arith, b, s))),
    )
    | inr (b, s) ↦ (
      kept_outside (src_lba_base + 0) (inl (omega (arith, b))),
      kept_outside (src_shadow_lba + 0) (inl (omega (arith, b))),
    )
  ]

  rechosen : available st' ≡ choose_bank after main_generation shadow_generation
  unfolding after main_generation shadow_generation
  rechosen =
      let cap : st'.dev.full_capacity ≡ st.dev.full_capacity =
        ap (λ (d : Device). d.full_capacity) same_device in
      available-healthy st' again-IsHealthy
      ∙ ap₂ (λ a b. choose_bank (at_time st' (after_shadow st').dev.requests) a b)
          (generation_of-Beyond st.dev st'.dev src_lba_base src_sects cap superblocks.0)
          (generation_of-Beyond st.dev st'.dev src_shadow_lba src_shadow_sects cap superblocks.1)

  -- The same bank is selected again.
  pub available-again : (available st').1 ≡ true
  available-again = rw rechosen choice.1

  pub view-again : view (available st').0 ≡ view st'
  unfolding after
  view-again =
      ap (λ (s : Store). view s) (ap (λ (r : Store × Bool). r.0) rechosen ∙ choice.2)
      ∙ ap (λ (b : ℕ). λ k. st'.dev.medium (b + k)) (sym beyond.same_base)

  sectors-again : (available st').0.sectors ≡ (available st).0.sectors
  sectors-again = ap (λ (s : Store). s.sectors) (ap (λ (r : Store × Bool). r.0) rechosen ∙ choice.2)

  -- A log found in the sectors of the bank is the log that the next scan walks over.
  pub Holds-again :
      (tail : ℕ) (ds : List Decoded)
      → IsLog (view st') (available st).0.sectors tail 1 ds
      → Holds st' tail ds
  Holds-again tail ds log = record {
    selected = available-again;
    log =
        subst (λ v. IsLog v (available st').0.sectors tail 1 ds) (sym view-again)
          (subst (λ n. IsLog (view st') n tail 1 ds) (sym sectors-again) log);
  }
