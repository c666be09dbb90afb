-- ===== src/Fat/Directory.antt =====
-- Directory entries and names of src/pi4_fat32.h: pi4_fat32_directory_entry, pi4_fat32_name_equal and
-- pi4_fat32_find_file.
pub mod Laws
use zealos_aarch64_bringup.Base.{
  ℕ, zero, suc, ◌+◌, ◌-◌, ◌*◌, ◌^◌, Bool, true, false, not, ◌&&◌, ◌||◌, Option, none, some, List,
  [], ◌∷◌, ◌++◌, bit_and, bit_or, ltb, leb, ◌==◌, if◌then◌else◌, length,
}
use zealos_aarch64_bringup.Device.{Sector}
use zealos_aarch64_bringup.Fat.Volume.{Volume, wrap, le16, le32}
use zealos_aarch64_bringup.Fat.File.{FileEntry}

-- 0, 1 with `*entry`, 2 and -1
pub data Slot : Type 0 where
  end skip malformed : Slot
  live : FileEntry → Slot

-- `while (end > start && d[end - 1u] == ' ') end--;`: `end - start`
unfoldable pub trimmed : Sector → ℕ → ℕ → ℕ
trimmed d start zero = 0
trimmed d start (suc n) =
    let shorter = trimmed d start n in if d (start + n) == 32 then shorter else suc n

-- The character that is put for `c`.
abbrev pub shown : Bool → ℕ → ℕ
shown lower c =
    let printable = if ltb c 0x20 || ltb 0x7e c then b'?' else c in
    if lower && leb b'A' printable && leb printable b'Z' then printable + 32 else printable

-- The loop over `i`, n characters from `start` on.
unfoldable pub part_chars : Sector → ℕ → ℕ → Bool → List ℕ
part_chars d start zero lower = []
part_chars d start (suc n) lower = shown lower (d start) ∷ part_chars d (start + 1) n lower

unfoldable pub short_name : Sector → List ℕ
short_name d =
    let extension = trimmed d 8 3 in
    part_chars d 0 (trimmed d 0 8) (not (bit_and (d 12) 8 == 0))
    ++ (if extension == 0
        then []
        else b'.' ∷ part_chars d 8 extension (not (bit_and (d 12) 16 == 0)))

abbrev pub is_skipped : Sector → Bool
is_skipped d =
    d 0 == 0xe5
    || d 11 == 0x0f
    || not (bit_and (d 11) 8 == 0)
    || (d 0 == b'.' && (d 1 == 32 || (d 1 == b'.' && d 2 == 32)))

abbrev pub entry_cluster : Sector → ℕ
entry_cluster d = bit_and (bit_or (wrap (le16 d 20 * 2 ^ 16)) (le16 d 26)) 0x0fffffff

unfoldable pub is_malformed_entry : Sector → Volume → Bool
is_malformed_entry d v =
    not (bit_and (d 11) 0xc0 == 0)
    || d 0 == 32
    || ((not (le32 d 28 == 0) || not (bit_and (d 11) 16 == 0) || not (entry_cluster d == 0))
        && (ltb (entry_cluster d) 2 || ltb (v.clusters + 1) (entry_cluster d)))

-- pi4_fat32_directory_entry
unfoldable pub directory_entry : Sector → Volume → Slot
directory_entry d v =
    if d 0 == 0
    then end
    else if is_skipped d
    then skip
    else if is_malformed_entry d v
    then malformed
    else live (record {
      name = short_name d;
      attributes = d 11;
      cluster = entry_cluster d;
      bytes = le32 d 28;
    })

abbrev pub upper : ℕ → ℕ
upper c = if leb b'a' c && leb c b'z' then c - 32 else c

-- pi4_fat32_name_equal on the characters before the terminators; `n` more may be compared.
unfoldable pub name_equal_loop : ℕ → List ℕ → List ℕ → Bool
name_equal_loop zero a b = false
name_equal_loop (suc n) [] [] = true
name_equal_loop (suc n) [] (y ∷ b) = false
name_equal_loop (suc n) (x ∷ a) [] = false
name_equal_loop (suc n) (x ∷ a) (y ∷ b) =
    let rest = name_equal_loop n a b in if upper x == upper y then rest else false

unfoldable pub name_equal : List ℕ → List ℕ → Bool
name_equal a b = name_equal_loop 13 a b

-- pi4_fat32_find_file over the entries that are listed
unfoldable pub find_file : List FileEntry → List ℕ → Option FileEntry
find_file [] name = none
find_file (e ∷ entries) name =
    let rest = find_file entries name in
    if bit_and e.attributes 0xd8 == 0 && name_equal e.name name then some e else rest
