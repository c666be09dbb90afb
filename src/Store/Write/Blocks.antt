-- ===== src/Store/Write/Blocks.antt =====
-- The data blocks of zss_put, src/zc_source_store.h.
use zealos_aarch64_bringup.Base.{
  ℕ, zero, suc, ◌+◌, ◌*◌, ◌^◌, ◌≤◌, ◌<◌, ◌≡◌, refl, inl, inr, true, false, Option, none, some, List,
  [], ◌∷◌, arith, take, drop, length, length-drop, take-append-drop, Bool-cases, ◌∙◌, sym, ap,
  subst, Bool, ==_self,
}
use mathlib.Core.Option.{some-injective}
use native.Mathlib.Nat.{le_refl}
use zealos_aarch64_bringup.Device.{Sector}
use zealos_aarch64_bringup.Store.Crc.{crc_bytes}
use zealos_aarch64_bringup.Store.Crc.Laws.{crc_bytes-append}
use zealos_aarch64_bringup.Store.Record.{u32}
use zealos_aarch64_bringup.Store.Bank.{Store, sector_write}
use zealos_aarch64_bringup.Store.Bank.Laws.{sector_write-Beyond, sector_write-cases}
use zealos_aarch64_bringup.Store.Log.{view}
use zealos_aarch64_bringup.Store.Log.Frame.{Beyond, Beyond-refl, Beyond-trans}
use zealos_aarch64_bringup.Store.Write.{data_sector, write_blocks}
use zealos_aarch64_bringup.Store.Write.Atomic.{view-Beyond}

-- From sector `k` on the bank holds these bytes in `n` blocks.
abbrev pub Stored : (ℕ → Sector) → ℕ → ℕ → List ℕ → Type 0
Stored v k zero rest = Unit
Stored v k (suc n) rest = (v k ≡ data_sector (take 512 rest)) × Stored v (k + 1) n (drop 512 rest)

pub Stored-kept :
    (v v' : ℕ → Sector) (k n : ℕ) (rest : List ℕ)
    → ((j : ℕ) → k ≤ j → j < k + n → v' j ≡ v j)
    → Stored v k n rest
    → Stored v' k n rest
Stored-kept v v' k zero rest same s = tt
Stored-kept v v' k (suc n) rest same s = (
  same k (omega arith) (omega arith) ∙ s.0,
  Stored-kept v v' (k + 1) n (drop 512 rest) (λ j le lt. same j (omega arith) (omega arith)) s.1,
)

sector_write-true :
    (st : Store) (k : ℕ) (s : Sector)
    → (sector_write st k s).1 ≡ true
    → view (sector_write st k s).0 k ≡ s
sector_write-true st k s h = elim (sector_write-cases st k s) [
  | inl (lt, e) ↦ rw (e, ==_self) refl
  | inr (inl (n, e)) ↦ let c : false ≡ true = rw e at h in cc
  | inr (inr (g, lt, t, e)) ↦ let c : false ≡ true = rw e at h in cc
]

module _ (n b : ℕ) (rest : List ℕ) (tail crc : ℕ) (st : Store) (small : tail + 1 + b < 2 ^ 32) where
  -- One round of the loop.
  round : Store × Bool
  round = sector_write st (tail + 1 + b) (data_sector (take 512 rest))

  wrap : u32 (tail + 1 + b) ≡ tail + 1 + b
  wrap = omega arith

  round_fails : round.1 ≡ false → write_blocks (suc n) b rest tail crc st ≡ (round.0, none)
  unfolding write_blocks round
  round_fails h = ground (arith, wrap)

  round_done :
      round.1 ≡ true
      → write_blocks (suc n) b rest tail crc st
        ≡ write_blocks n (b + 1) (drop 512 rest) tail (crc_bytes crc (take 512 rest)) round.0
  unfolding write_blocks round
  round_done h = ground (arith, wrap)

  round-Beyond : Beyond (tail + 1 + b) st round.0
  unfolding round
  round-Beyond =
      sector_write-Beyond st (tail + 1 + b) (tail + 1 + b) (data_sector (take 512 rest)) (le_refl _)

  round-true : round.1 ≡ true → view round.0 (tail + 1 + b) ≡ data_sector (take 512 rest)
  unfolding round
  round-true h = sector_write-true st (tail + 1 + b) (data_sector (take 512 rest)) h

-- The rounds from block `b` on write only their own sectors.
pub write_blocks-Beyond :
    (n b : ℕ) (rest : List ℕ) (tail crc : ℕ) (st : Store)
    → tail + 1 + b + n < 2 ^ 32
    → Beyond (tail + 1 + b) st (write_blocks n b rest tail crc st).0
unfolding write_blocks
write_blocks-Beyond zero b rest tail crc st small = Beyond-refl (tail + 1 + b) st
write_blocks-Beyond (suc n) b rest tail crc st small =
    let s : tail + 1 + b < 2 ^ 32 = omega arith in
    let here = round-Beyond n b rest tail crc st s in
    elim (Bool-cases (round n b rest tail crc st s).1) [
      | inr bad ↦ rw (round_fails n b rest tail crc st s bad) here
      | inl good ↦ rw (round_done n b rest tail crc st s good) (
          Beyond-trans here
            (write_blocks-Beyond n (b + 1) (drop 512 rest) tail (crc_bytes crc (take 512 rest))
              (round n b rest tail crc st s).0 (omega arith))
            (omega arith))
    ]

next : (tail b : ℕ) → tail + 1 + (b + 1) ≡ tail + 1 + b + 1
next tail b = omega arith

-- Where all rounds succeed, the blocks hold the bytes, and the CRC is that of the bytes.
pub write_blocks-some :
    (n b : ℕ) (rest : List ℕ) (tail crc c : ℕ) (st : Store)
    → tail + 1 + b + n < 2 ^ 32
    → length rest ≤ 512 * n
    → (write_blocks n b rest tail crc st).1 ≡ some c
    → (c ≡ crc_bytes crc rest)
      × Stored (view (write_blocks n b rest tail crc st).0) (tail + 1 + b) n rest
unfolding write_blocks crc_bytes
write_blocks-some zero b [] tail crc c st small fits h = (sym (some-injective crc c h), tt)
write_blocks-some zero b (x ∷ rest) tail crc c st small fits h = absurd (omega arith)
write_blocks-some (suc n) b rest tail crc c st small fits h =
    let s : tail + 1 + b < 2 ^ 32 = omega arith in
    elim (Bool-cases (round n b rest tail crc st s).1) [
      | inr bad ↦ let z : none ≡ some c = rw (round_fails n b rest tail crc st s bad) at h in cc
      | inl good ↦
          let st' = (round n b rest tail crc st s).0 in
          let crc' = crc_bytes crc (take 512 rest) in
          let later = write_blocks-Beyond n (b + 1) (drop 512 rest) tail crc' st' (omega arith) in
          let (summed, stored) =
            write_blocks-some n (b + 1) (drop 512 rest) tail crc' c st' (omega arith)
              (omega (arith, length-drop 512 rest))
              (rw (round_done n b rest tail crc st s good) at h) in
          subst
            (λ (r : Store × Option ℕ).
              (c ≡ crc_bytes crc rest) × Stored (view r.0) (tail + 1 + b) (suc n) rest)
            (sym (round_done n b rest tail crc st s good))
            (
              summed
                  ∙ sym (crc_bytes-append crc (take 512 rest) (drop 512 rest))
                  ∙ ap (crc_bytes crc) (take-append-drop 512 rest),
              (
                view-Beyond (tail + 1 + b) later (omega arith)
                    ∙ round-true n b rest tail crc st s good,
                subst
                    (λ k.
                      Stored (view (write_blocks n (b + 1) (drop 512 rest) tail crc' st').0) k n
                        (drop 512 rest))
                    (next tail b) stored,
              ),
            )
    ]
