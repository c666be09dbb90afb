-- ===== src/Fat/Directory/Laws.antt =====
-- What a directory entry that src/pi4_fat32.h accepts says, and when two names are the same file.
use zealos_aarch64_bringup.Base.{
  ℕ, zero, suc, ◌+◌, ◌≤◌, ◌<◌, ◌≡◌, ◌≢◌, refl, ◌⊎◌, inl, inr, ◌↔◌, Bool, true, false, not, List, [],
  ◌∷◌, ◌++◌, map, ◌∙◌, ap₂, ==_iff, arith, length, length-append, ◌==◌, Bool-cases, bit_and, sym,
}
use zealos_aarch64_bringup.Device.{Sector}
use zealos_aarch64_bringup.Fat.Volume.{Volume, le32}
use zealos_aarch64_bringup.Fat.File.{FileEntry}
use zealos_aarch64_bringup.Fat.Directory.{
  live, trimmed, shown, part_chars, short_name, is_malformed_entry, entry_cluster, directory_entry,
  upper, name_equal_loop, name_equal,
}

-- Every character can be printed, so that none is a terminator.
pub IsPrintable : List ℕ → Type 0
IsPrintable [] = Unit
IsPrintable (c ∷ cs) = ((0x20 ≤ c) × (c ≤ 0x7e)) × IsPrintable cs

IsPrintable-append : (a b : List ℕ) → IsPrintable a → IsPrintable b → IsPrintable (a ++ b)
unfolding IsPrintable
IsPrintable-append [] b p q = q
IsPrintable-append (c ∷ a) b (p, ps) q = (p, IsPrintable-append a b ps q)

shown_lem : (lower : Bool) (c : ℕ) → (0x20 ≤ shown lower c) × (shown lower c ≤ 0x7e)
shown_lem lower c = ground arith

part_chars-IsPrintable :
    (d : Sector) (start n : ℕ) (lower : Bool) → IsPrintable (part_chars d start n lower)
unfolding IsPrintable part_chars
part_chars-IsPrintable d start zero lower = tt
part_chars-IsPrintable d start (suc n) lower =
    (shown_lem lower (d start), part_chars-IsPrintable d (start + 1) n lower)

length-part_chars :
    (d : Sector) (start n : ℕ) (lower : Bool) → length (part_chars d start n lower) ≡ n
unfolding part_chars
length-part_chars d start zero lower = refl
length-part_chars d start (suc n) lower = omega (arith, length-part_chars d (start + 1) n lower)

trimmed-le : (d : Sector) (start n : ℕ) → trimmed d start n ≤ n
unfolding trimmed
trimmed-le d start zero = omega arith
trimmed-le d start (suc n) = ground (arith, trimmed-le d start n)

short_name_lem : (d : Sector) → IsPrintable (short_name d) × (length (short_name d) ≤ 12)
unfolding short_name IsPrintable
short_name_lem d =
    let low = not (bit_and (d 12) 8 == 0) in
    let low' = not (bit_and (d 12) 16 == 0) in
    let stem = part_chars d 0 (trimmed d 0 8) low in
    let ext = part_chars d 8 (trimmed d 8 3) low' in
    let l = length-part_chars d 0 (trimmed d 0 8) low in
    let l' = length-part_chars d 8 (trimmed d 8 3) low' in
    let p = part_chars-IsPrintable d 0 (trimmed d 0 8) low in
    let p' = part_chars-IsPrintable d 8 (trimmed d 8 3) low' in
    elim (Bool-cases (trimmed d 8 3 == 0)) [
      | inl none_there ↦ rw none_there (
        IsPrintable-append stem [] p tt,
        omega (arith, l, length-append stem [], trimmed-le d 0 8),
      )
      | inr there ↦ rw there (
        IsPrintable-append stem (b'.' ∷ ext) p ((omega arith, omega arith), p'),
        omega (arith, l, l', length-append stem (b'.' ∷ ext), trimmed-le d 0 8, trimmed-le d 8 3),
      )
    ]

malformed_lem :
    (d : Sector) (v : Volume)
    → is_malformed_entry d v ≡ false
    → (bit_and (d 11) 0xc0 ≡ 0)
      × (((le32 d 28 ≡ 0) × (entry_cluster d ≡ 0))
          ⊎ ((2 ≤ entry_cluster d) × (entry_cluster d ≤ v.clusters + 1)))
unfolding is_malformed_entry
malformed_lem d v h = ground arith

directory_entry_lem :
    (d : Sector) (v : Volume) (e : FileEntry)
    → directory_entry d v ≡ live e
    → (is_malformed_entry d v ≡ false)
      × (d 0 ≢ 0xe5)
      × (e.name ≡ short_name d)
      × (e.attributes ≡ d 11)
      × (e.cluster ≡ entry_cluster d)
      × (e.bytes ≡ le32 d 28)
unfolding directory_entry
directory_entry_lem d v e h = ground arith

-- An entry that is listed has a name of printable characters that fits its 13 bytes with the
-- terminator, is no deleted one, and its cluster is one of the volume unless the file is empty and
-- has none.
pub directory_entry-live :
    (d : Sector) (v : Volume) (e : FileEntry)
    → directory_entry d v ≡ live e
    → IsPrintable e.name
      × (length e.name ≤ 12)
      × (d 0 ≢ 0xe5)
      × (((e.bytes ≡ 0) × (e.cluster ≡ 0)) ⊎ ((2 ≤ e.cluster) × (e.cluster ≤ v.clusters + 1)))
directory_entry-live d v e h =
    let (sound, alive, name, attributes, cluster, bytes) = directory_entry_lem d v e h in
    rw (name, cluster, bytes)
      ((short_name_lem d).0, (short_name_lem d).1, alive, (malformed_lem d v sound).1)

cons_injective : {x y : ℕ} {xs ys : List ℕ} → (x ∷ xs) ≡ (y ∷ ys) → (x ≡ y) × (xs ≡ ys)
cons_injective h = ground arith

name_equal_loop_lem :
    (n : ℕ) (a b : List ℕ)
    → length a < n
    → (name_equal_loop n a b ≡ true) ↔ (map upper a ≡ map upper b)
unfolding name_equal_loop
name_equal_loop_lem zero a b lt = absurd (omega arith)
name_equal_loop_lem (suc n) [] [] lt = (λ h. refl, λ h. refl)
name_equal_loop_lem (suc n) [] (y ∷ b) lt = (λ h. absurd (ground arith), λ h. absurd (ground arith))
name_equal_loop_lem (suc n) (x ∷ a) [] lt = (λ h. absurd (ground arith), λ h. absurd (ground arith))
name_equal_loop_lem (suc n) (x ∷ a) (y ∷ b) lt =
    let rest = name_equal_loop_lem n a b (omega arith) in
    elim (Bool-cases (upper x == upper y)) [
      | inl same ↦
          let e : upper x ≡ upper y = (==_iff (upper x) (upper y)).0 same in
          (
            λ h. ap₂ (λ (c : ℕ) (cs : List ℕ). c ∷ cs) e (rest.0 (rw same at h)),
            λ h. rw same (rest.1 (cons_injective h).1),
          )
      | inr differ ↦ (
        λ h. let c : false ≡ true = rw differ at h in cc,
        λ h.
            let c = (==_iff (upper x) (upper y)).1 (cons_injective h).0 in
            let z : false ≡ true = sym differ ∙ c in cc,
      )
    ]

-- Two names compare equal exactly where they are the same but for the case of their letters, the
-- first one having at most 12 characters.
pub name_equal_lem :
    (a b : List ℕ) → length a ≤ 12 → (name_equal a b ≡ true) ↔ (map upper a ≡ map upper b)
unfolding name_equal
name_equal_lem a b le = name_equal_loop_lem 13 a b (omega arith)
