-- ===== src/Store/Catalog/Items.antt =====
-- The items of the catalog of src/zc_source_store.h against the records of the log.
use zealos_aarch64_bringup.Base.{
  ℕ, zero, suc, ◌≤◌, ◌<◌, ◌≡◌, inl, inr, refl, Bool-cases, true, false, Option, none, some, List,
  [], ◌∷◌, if◌then◌else◌, length, arith, ap, sym, ◌∙◌,
}
use zealos_aarch64_bringup.Store.Name.{str_eq, name_ok}
use zealos_aarch64_bringup.Store.Name.Laws.{str_eq_self, str_eq_sound}
use zealos_aarch64_bringup.Store.Record.{Decoded}
use zealos_aarch64_bringup.Store.Find.{Best, found, tombstoned, matches, update}
use zealos_aarch64_bringup.Store.Log.{latest}
use zealos_aarch64_bringup.Store.Catalog.{Item, item_of, place, enter, item_at, catalog_cap}

-- The catalog of these records.
abbrev pub listing : List Decoded → List Item → List Item
listing [] items = items
listing (d ∷ ds) items = listing ds (place (item_of d) items)

-- The first item of a name.
abbrev pub first_of : List ℕ → List Item → Option Item
first_of name [] = none
first_of name (x ∷ xs) = let rest = first_of name xs in if str_eq x.name name then some x else rest

-- What zss_find says of a name, as an item.
abbrev pub known : List ℕ → Best → Option Item
known name (found, some e) = some (record { name = name; size = e.length; deleted = false })
known name (tombstoned, some e) = some (record { name = name; size = e.length; deleted = true })
known name best = none

pub length-place : (item : Item) (xs : List Item) → length (place item xs) ≤ suc (length xs)
unfolding place
length-place item [] = omega arith
length-place item (x ∷ xs) = elim (Bool-cases (str_eq x.name item.name)) [
  | inl e ↦ rw e (omega arith)
  | inr e ↦ rw e (omega (arith, length-place item xs))
]

pub enter-place :
    (item : Item) (xs : List Item) → length xs < catalog_cap → enter item xs ≡ some (place item xs)
unfolding enter
enter-place item xs h = ground arith

str_eq_sym : (a b : List ℕ) → str_eq a b ≡ true → str_eq b a ≡ true
str_eq_sym a b e = rw (str_eq_sound a b e) (str_eq_self b)

first_of-place_self :
    (item : Item) (xs : List Item) → first_of item.name (place item xs) ≡ some item
unfolding place
first_of-place_self item [] = rw (str_eq_self item.name) refl
first_of-place_self item (x ∷ xs) = elim (Bool-cases (str_eq x.name item.name)) [
  | inl e ↦ rw (e, str_eq_self item.name) refl
  | inr e ↦ rw (e, e) (first_of-place_self item xs)
]

first_of-place_ne :
    (name : List ℕ) (item : Item) (xs : List Item)
    → str_eq item.name name ≡ false
    → first_of name (place item xs) ≡ first_of name xs
unfolding place
first_of-place_ne name item [] ne = rw ne refl
first_of-place_ne name item (x ∷ xs) ne = elim (Bool-cases (str_eq x.name item.name)) [
  | inl e ↦
      let same : str_eq x.name name ≡ false = rw (str_eq_sound x.name item.name e) ne in
      rw (e, ne, same) refl
  | inr e ↦ rw (e, first_of-place_ne name item xs ne) refl
]

known-update :
    (name : List ℕ) (d : Decoded) (best : Best)
    → d.name ≡ name
    → known name (update (some name) d best) ≡ some (item_of d)
unfolding update matches
known-update name d best e = elim (Bool-cases d.deleted) [
  | inl gone ↦ rw (e, str_eq_self name, gone) refl
  | inr kept ↦ rw (e, str_eq_self name, kept) refl
]

first_of-step :
    (name : List ℕ) (d : Decoded) (items : List Item) (best : Best)
    → first_of name items ≡ known name best
    → first_of name (place (item_of d) items) ≡ known name (update (some name) d best)
unfolding update matches
first_of-step name d items best h = elim (Bool-cases (str_eq d.name name)) [
  | inl e ↦
      let same : d.name ≡ name = str_eq_sound d.name name e in
      ap (λ n. first_of n (place (item_of d) items)) (sym same)
      ∙ first_of-place_self (item_of d) items
      ∙ sym (known-update name d best same)
  | inr e ↦ rw e (first_of-place_ne name (item_of d) items e ∙ h)
]

-- The first item of a name is its last record.
pub first_of-listing :
    (name : List ℕ) (ds : List Decoded) (items : List Item) (best : Best)
    → first_of name items ≡ known name best
    → first_of name (listing ds items) ≡ known name (latest (some name) ds best)
unfolding latest
first_of-listing name [] items best h = h
first_of-listing name (d ∷ ds) items best h =
    first_of-listing name ds (place (item_of d) items) (update (some name) d best)
      (first_of-step name d items best h)

-- No name twice, and every name valid.
abbrev pub IsCatalog : List Item → Type 0
IsCatalog [] = Unit
IsCatalog (x ∷ xs) = (first_of x.name xs ≡ none) × (name_ok x.name ≡ true) × IsCatalog xs

pub place-IsCatalog :
    (item : Item) (xs : List Item)
    → name_ok item.name ≡ true
    → IsCatalog xs
    → IsCatalog (place item xs)
unfolding place
place-IsCatalog item [] named h = (refl, named, tt)
place-IsCatalog item (x ∷ xs) named (once, ok, rest) = elim (Bool-cases (str_eq x.name item.name)) [
  | inl e ↦
      let same : first_of item.name xs ≡ none =
        ap (λ n. first_of n xs) (sym (str_eq_sound x.name item.name e)) ∙ once in
      rw e (same, named, rest)
  | inr e ↦
      let other : str_eq item.name x.name ≡ false = elim (Bool-cases (str_eq item.name x.name)) [
        | inl c ↦ absurd (ground (arith, e, str_eq_sym item.name x.name c))
        | inr c ↦ c
      ] in
      rw e (first_of-place_ne x.name item xs other ∙ once, ok, place-IsCatalog item xs named rest)
]

pub item_at-first_of :
    (wanted : ℕ) (items : List Item) (item : Item)
    → IsCatalog items
    → item_at wanted items ≡ some item
    → (first_of item.name items ≡ some item) × (name_ok item.name ≡ true)
unfolding item_at
item_at-first_of wanted [] item h e = absurd (ground arith)
item_at-first_of zero (x ∷ xs) item (once, ok, rest) e =
    let same : x ≡ item = ground arith in
    (rw (sym same, str_eq_self x.name) refl, ap (λ (y : Item). name_ok y.name) (sym same) ∙ ok)
item_at-first_of (suc wanted) (x ∷ xs) item (once, ok, rest) e =
    let (first, named) = item_at-first_of wanted xs item rest e in
    elim (Bool-cases (str_eq x.name item.name)) [
      | inl c ↦
          let none_of : first_of item.name xs ≡ none =
            ap (λ n. first_of n xs) (sym (str_eq_sound x.name item.name c)) ∙ once in
          absurd (ground (arith, none_of, first))
      | inr c ↦ (rw c first, named)
    ]

pub first_of-item_at :
    (name : List ℕ) (items : List Item)
    → (wanted : ℕ) × (item_at wanted items ≡ first_of name items)
unfolding item_at
first_of-item_at name [] = (0, refl)
first_of-item_at name (x ∷ xs) = elim (Bool-cases (str_eq x.name name)) [
  | inl e ↦ (0, rw e refl)
  | inr e ↦ let (wanted, at) = first_of-item_at name xs in (suc wanted, rw e at)
]
