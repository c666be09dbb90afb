-- ===== src/Store/Bank/Choice.antt =====
-- Which bank zss_available of src/zc_source_store.h takes, by the bytes of the two superblocks.
use zealos_aarch64_bringup.Base.{
  ℕ, ◌≤◌, ◌<◌, ◌≡◌, refl, inl, inr, ◌⊎◌, true, false, Option, none, some, arith, Bool, Bool-cases,
  ltb, ◌∙◌, sym, subst,
}
use mathlib.Core.Option.{some-injective}
use zealos_aarch64_bringup.Device.{Device, IsHealthy}
use zealos_aarch64_bringup.Store.Log.{at_time}
use zealos_aarch64_bringup.Store.Bank.{Store, choose_bank, available, src_lba_base, src_shadow_lba}
use zealos_aarch64_bringup.Store.Bank.Select.{generation_of, after_shadow, available-healthy}
use zealos_aarch64_bringup.Store.Bank.Superblock.{
  HasBank, HasBank-generation_of, generation_of-HasBank,
}

-- The bank that `st` has selected is one of the two, with the generation of its superblock; neither
-- bank is newer, and the shadow is only taken where it is newer than the main bank.
abbrev pub IsNewest : Device → Store → Type 0
IsNewest d st =
    ((st.base ≡ src_lba_base)
      ⊎ ((st.base ≡ src_shadow_lba) × ((g : ℕ) → HasBank d src_lba_base g → g < st.generation)))
    × (st.sectors ≡ 65536)
    × HasBank d st.base st.generation
    × ((g : ℕ) → HasBank d src_lba_base g → g ≤ st.generation)
    × ((g : ℕ) → HasBank d src_shadow_lba g → g ≤ st.generation)

-- Nothing but the choice of the bank and the number of requests has changed.
abbrev pub IsReselected : Store → Store → Type 0
IsReselected st st' = st' ≡ record (at_time st st'.dev.requests) {
  base = st'.base;
  sectors = st'.sectors;
  generation = st'.generation;
}

abbrev Chosen : Store → Store × Bool → Type 0
Chosen st r =
    IsReselected st r.0
    × (((r.1 ≡ true) × IsNewest st.dev r.0)
        ⊎ ((r.1 ≡ false)
            × ((g : ℕ) → ¬ HasBank st.dev src_lba_base g)
            × ((g : ℕ) → ¬ HasBank st.dev src_shadow_lba g)))

module _ (st : Store) (n : ℕ) where
  abbrev Says : ℕ → Option ℕ → Type 0
  Says base a = (a ≡ generation_of st.dev base 65536)

  unread : (base g : ℕ) (a : Option ℕ) → Says base a → HasBank st.dev base g → a ≡ some g
  unread base g a e has = e ∙ HasBank-generation_of st.dev base g has

  choose_bank-Chosen :
      (a b : Option ℕ)
      → Says src_lba_base a
      → Says src_shadow_lba b
      → Chosen st (choose_bank (at_time st n) a b)
  unfolding choose_bank
  choose_bank-Chosen none none ea eb = (
    refl,
    inr (
      refl,
      (λ g has. let c = unread src_lba_base g none ea has in absurd (ground arith)),
      (λ g has. let c = unread src_shadow_lba g none eb has in absurd (ground arith)),
    ),
  )
  choose_bank-Chosen none (some b) ea eb = (
    refl,
    inl (
      refl,
      (
        inr (refl, (λ g has. let c = unread src_lba_base g none ea has in absurd (ground arith))),
        refl,
        generation_of-HasBank st.dev src_shadow_lba b (sym eb),
        (λ g has. let c = unread src_lba_base g none ea has in absurd (ground arith)),
        (λ g has.
            let c = some-injective b g (unread src_shadow_lba g (some b) eb has) in omega arith),
      ),
    ),
  )
  choose_bank-Chosen (some a) none ea eb = (
    refl,
    inl (
      refl,
      (
        inl refl,
        refl,
        generation_of-HasBank st.dev src_lba_base a (sym ea),
        (λ g has.
            let c = some-injective a g (unread src_lba_base g (some a) ea has) in omega arith),
        (λ g has. let c = unread src_shadow_lba g none eb has in absurd (ground arith)),
      ),
    ),
  )
  choose_bank-Chosen (some a) (some b) ea eb =
      let main : (g : ℕ) → HasBank st.dev src_lba_base g → a ≡ g =
        λ g has. some-injective a g (unread src_lba_base g (some a) ea has) in
      let shadow : (g : ℕ) → HasBank st.dev src_shadow_lba g → b ≡ g =
        λ g has. some-injective b g (unread src_shadow_lba g (some b) eb has) in
      elim (Bool-cases (ltb a b)) [
        | inl newer ↦ rw newer (
          refl,
          inl (
            refl,
            (
              inr (refl, (λ g has. ground (arith, main g has))),
              refl,
              generation_of-HasBank st.dev src_shadow_lba b (sym eb),
              (λ g has. ground (arith, main g has)),
              (λ g has. omega (arith, shadow g has)),
            ),
          ),
        )
        | inr older ↦ rw older (
          refl,
          inl (
            refl,
            (
              inl refl,
              refl,
              generation_of-HasBank st.dev src_lba_base a (sym ea),
              (λ g has. omega (arith, main g has)),
              (λ g has. ground (arith, shadow g has)),
            ),
          ),
        )
      ]

-- On a device whose requests succeed, zss_available selects, by the bytes of the two superblocks, a
-- bank of the highest generation that lies on the disk, the main bank where both are of the same
-- generation, and says so; where neither bank has a superblock it says that there is none. It
-- changes nothing but the choice and the count of requests.
pub available-IsNewest :
    (st : Store)
    → IsHealthy st.dev
    → IsReselected st (available st).0
      × ((((available st).1 ≡ true) × IsNewest st.dev (available st).0)
          ⊎ (((available st).1 ≡ false)
              × ((g : ℕ) → ¬ HasBank st.dev src_lba_base g)
              × ((g : ℕ) → ¬ HasBank st.dev src_shadow_lba g)))
available-IsNewest st h = subst (Chosen st) (sym (available-healthy st h)) (
    choose_bank-Chosen st (after_shadow st).dev.requests (generation_of st.dev src_lba_base 65536)
      (generation_of st.dev src_shadow_lba 65536) refl refl)
