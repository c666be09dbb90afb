-- ===== src/Store/Bank/Select.antt =====
-- The choice of the bank by zss_available of src/zc_source_store.h.
use zealos_aarch64_bringup.Base.{
  ℕ, ◌+◌, ◌≤◌, ◌<◌, ◌≡◌, refl, inl, inr, true, false, not, ◌||◌, Option, none, some, arith,
  Bool-cases, ltb, if◌then◌else◌, ◌∙◌, ap, sym,
}
use zealos_aarch64_bringup.Device.{Device, at_request, IsHealthy, read_abs-same, read_abs-healthy}
use zealos_aarch64_bringup.Store.Bank.{
  Store, bank_read, superblock, probe_bank, choose_bank, available, src_lba_base, src_sects,
  src_shadow_lba, src_shadow_sects,
}
use zealos_aarch64_bringup.Store.Log.{at_time}
use zealos_aarch64_bringup.Store.Log.Scan.{IsHealthy-at_request}

-- What the superblock of a bank says, if the disk is large enough to hold the bank.
unfoldable pub generation_of : Device → ℕ → ℕ → Option ℕ
generation_of d base sectors =
    if ltb d.full_capacity (base + sectors) then none else superblock (d.medium (base + 0)) sectors

bank_read-same :
    (st : Store) (base k : ℕ)
    → (bank_read st base k).0 ≡ at_time st (bank_read st base k).0.dev.requests
unfolding bank_read
bank_read-same st base k = ground (arith, (read_abs-same st.dev (base + k)).0)

module _ (st : Store) (base sectors : ℕ) where
  probe_bank-same :
      ((probe_bank st base sectors).0 ≡ at_time st (probe_bank st base sectors).0.dev.requests)
  unfolding probe_bank
  probe_bank-same = ground (arith, bank_read-same st base 0)

  probe_bank-fits :
      (g : ℕ) → (probe_bank st base sectors).1 ≡ some g → base + sectors ≤ st.dev.full_capacity
  unfolding probe_bank
  probe_bank-fits g h = ground arith

  probe_bank-healthy :
      IsHealthy st.dev
      → 0 < sectors
      → (probe_bank st base sectors).1 ≡ generation_of st.dev base sectors
  unfolding probe_bank generation_of bank_read
  probe_bank-healthy h pos = elim (Bool-cases (ltb st.dev.full_capacity (base + sectors))) [
    | inl small ↦ rw small refl
    | inr fits ↦
        let cap : base + 0 < st.dev.full_capacity = ground arith in
        rw (fits, read_abs-healthy st.dev (base + 0) h cap) refl
  ]

probe_later :
    (st s : Store) (n : ℕ)
    → s ≡ at_time st n
    → (base sectors : ℕ) → IsHealthy st.dev
    → 0 < sectors
    → (probe_bank s base sectors).1 ≡ generation_of st.dev base sectors
unfolding generation_of
probe_later st s n e base sectors h pos =
    rw e (probe_bank-healthy (at_time st n) base sectors (IsHealthy-at_request n h) pos)

choose_bank-same : (st : Store) (a b : Option ℕ) → (choose_bank st a b).0.dev ≡ st.dev
unfolding choose_bank
choose_bank-same st none none = refl
choose_bank-same st none (some b) = refl
choose_bank-same st (some a) none = refl
choose_bank-same st (some a) (some b) = ground arith

choose_bank-fits :
    (st : Store) (a b : Option ℕ) (cap : ℕ)
    → ((g : ℕ) → a ≡ some g → src_lba_base + src_sects ≤ cap)
    → ((g : ℕ) → b ≡ some g → src_shadow_lba + src_shadow_sects ≤ cap)
    → (choose_bank st a b).1 ≡ true
    → ((choose_bank st a b).0.sectors ≡ 65536) × ((choose_bank st a b).0.base + 65536 ≤ cap)
unfolding choose_bank
choose_bank-fits st none none cap p q h = absurd (ground arith)
choose_bank-fits st none (some b) cap p q h = (refl, q b refl)
choose_bank-fits st (some a) none cap p q h = (refl, p a refl)
choose_bank-fits st (some a) (some b) cap p q h = elim (Bool-cases (ltb a b)) [
  | inl lt ↦ rw lt (refl, q b refl)
  | inr ge ↦ rw ge (refl, p a refl)
]

counted : (d d' : Device) (n : ℕ) → d' ≡ at_request d n → d' ≡ at_request d d'.requests
counted d d' n e = e ∙ ap (at_request d) (sym (ap (λ (x : Device). x.requests) e))

module _ (st : Store) where
  -- The two probes, in order.
  after_main : Store
  after_main = (probe_bank st src_lba_base src_sects).0

  pub after_shadow : Store
  unfolding after_main
  after_shadow = (probe_bank after_main src_shadow_lba src_shadow_sects).0

  after_shadow-same : after_shadow ≡ at_time st after_shadow.dev.requests
  unfolding after_shadow
  after_shadow-same =
      probe_bank-same after_main src_shadow_lba src_shadow_sects
      ∙ ap (λ (s : Store). at_time s after_shadow.dev.requests)
          (probe_bank-same st src_lba_base src_sects)

  main_found : Option ℕ
  main_found = (probe_bank st src_lba_base src_sects).1

  shadow_found : Option ℕ
  unfolding after_main
  shadow_found = (probe_bank after_main src_shadow_lba src_shadow_sects).1

  available-choose :
      (not st.dev.ready || not st.dev.pci) ≡ false
      → available st ≡ choose_bank after_shadow main_found shadow_found
  unfolding available after_shadow main_found shadow_found
  available-choose on = rw on refl

  -- Choosing a bank writes nothing.
  pub available-same : (available st).0.dev ≡ at_request st.dev (available st).0.dev.requests
  unfolding available
  available-same = elim (Bool-cases (not st.dev.ready || not st.dev.pci)) [
    | inl off ↦ rw off refl
    | inr on ↦ counted st.dev (available st).0.dev after_shadow.dev.requests (
        rw (available-choose on) (
          choose_bank-same after_shadow main_found shadow_found
          ∙ ap (λ (s : Store). s.dev) after_shadow-same))
  ]

  off-unavailable : (not st.dev.ready || not st.dev.pci) ≡ true → (available st).1 ≡ true → ⊥
  unfolding available
  off-unavailable off h = ground arith

  shadow-fits :
      (g : ℕ) → shadow_found ≡ some g → src_shadow_lba + src_shadow_sects ≤ st.dev.full_capacity
  unfolding shadow_found after_main
  shadow-fits g e = omega (
    arith,
    ap (λ (s : Store). s.dev.full_capacity) (probe_bank-same st src_lba_base src_sects),
    probe_bank-fits after_main src_shadow_lba src_shadow_sects g e,
  )

  -- Where zss_available succeeds, whatever the device answers, the selected bank has its full size
  -- and lies on the disk.
  pub available-fits :
      (available st).1 ≡ true
      → ((available st).0.sectors ≡ 65536) × ((available st).0.base + 65536 ≤ st.dev.full_capacity)
  unfolding main_found
  available-fits h = elim (Bool-cases (not st.dev.ready || not st.dev.pci)) [
    | inl off ↦ absurd (off-unavailable off h)
    | inr on ↦ rw (available-choose on) (
        choose_bank-fits after_shadow main_found shadow_found st.dev.full_capacity
          (λ g e. probe_bank-fits st src_lba_base src_sects g e) shadow-fits
          (rw (available-choose on) at h))
  ]

  -- On a device whose requests succeed, zss_available chooses by what the two superblocks on the
  -- medium say, and changes nothing but its choice and the count of requests.
  pub available-healthy :
      IsHealthy st.dev
      → available st
        ≡ choose_bank
            (at_time st after_shadow.dev.requests)
            (generation_of st.dev src_lba_base src_sects)
            (generation_of st.dev src_shadow_lba src_shadow_sects)
  unfolding main_found shadow_found after_main
  available-healthy h =
      let same = probe_bank-same st src_lba_base src_sects in
      available-choose (ground arith)
      ∙ ap (λ (s : Store). choose_bank s main_found shadow_found) after_shadow-same
      ∙ ap (λ (a : Option ℕ). choose_bank (at_time st after_shadow.dev.requests) a shadow_found)
          (probe_bank-healthy st src_lba_base src_sects h (omega arith))
      ∙ ap
          (λ (b : Option ℕ).
            choose_bank (at_time st after_shadow.dev.requests)
              (generation_of st.dev src_lba_base src_sects) b)
          (probe_later st (probe_bank st src_lba_base src_sects).0 _ same src_shadow_lba
            src_shadow_sects h (omega arith))
