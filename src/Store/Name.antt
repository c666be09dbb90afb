-- ===== src/Store/Name.antt =====
-- Names of source files: zss_str_eq and zss_name_ok of src/zc_source_store.h. A C string is the
-- list of its characters before the terminator.
pub mod Laws
use zealos_aarch64_bringup.Base.{
  ℕ, zero, suc, ◌+◌, Bool, true, false, not, ◌&&◌, ◌||◌, List, [], ◌∷◌, ltb, ◌==◌, if◌then◌else◌,
  length, get_or, drop, list_eq,
}

abbrev pub max_name : ℕ
max_name = 95

-- What C reads of a character array: the characters before the first NUL.
unfoldable pub c_string : List ℕ → List ℕ
c_string [] = []
c_string (c ∷ cs) = let rest = c_string cs in if c == 0 then [] else c ∷ rest

unfoldable pub str_eq : List ℕ → List ℕ → Bool
str_eq a b = list_eq a b

abbrev pub is_bad_char : ℕ → Bool
is_bad_char c = ltb c 33 || ltb 126 c || c == b':' || c == b'\\'

-- The first loop: `i` characters are behind it, `segment` of them in the current component.
unfoldable pub check_chars : List ℕ → ℕ → ℕ → Bool
check_chars [] i segment = not (segment == 0)
check_chars (c ∷ cs) i segment =
    let fresh = check_chars cs (i + 1) 0 in
    let longer = check_chars cs (i + 1) (segment + 1) in
    if ltb max_name (i + 1) || is_bad_char c
    then false
    else if c == b'/'
    then (if segment == 0 then false else fresh)
    else longer

-- `while (end < i && s[end] != '/') end++;` from the start of a component: `end - start`.
unfoldable pub component_length : List ℕ → ℕ
component_length [] = 0
component_length (c ∷ cs) = let rest = component_length cs in if c == b'/' then 0 else suc rest

-- The component at the head of `s` is `.` or `..`.
unfoldable pub is_traversal : List ℕ → Bool
is_traversal s =
    (component_length s == 1 && get_or s 0 0 == b'.')
    || (component_length s == 2 && get_or s 0 0 == b'.' && get_or s 1 0 == b'.')

-- The second loop, over the components; `fuel` bounds their number.
unfoldable pub check_components : ℕ → List ℕ → Bool
check_components zero s = true
check_components (suc fuel) [] = true
check_components (suc fuel) (c ∷ cs) =
    let rest = check_components fuel (drop (component_length (c ∷ cs) + 1) (c ∷ cs)) in
    if is_traversal (c ∷ cs) then false else rest

unfoldable pub name_ok : List ℕ → Bool
name_ok [] = false
name_ok (c ∷ cs) = check_chars (c ∷ cs) 0 0 && check_components (length (c ∷ cs)) (c ∷ cs)
