-- ===== src/Store/Name/Laws.antt =====
-- What zss_name_ok guarantees of the characters of a name.
use zealos_aarch64_bringup.Base.{
  ℕ, ◌+◌, ◌≤◌, ◌<◌, ◌≡◌, ◌≢◌, refl, true, List, [], ◌∷◌, arith, length, list_eq_sound, list_eq_self,
}
use zealos_aarch64_bringup.Store.Name.{max_name, c_string, str_eq, check_chars, name_ok}

-- No NUL inside.
abbrev pub NoNul : List ℕ → Type 0
NoNul [] = Unit
NoNul (c ∷ cs) = (c ≢ 0) × NoNul cs

check_chars-NoNul : (cs : List ℕ) (i segment : ℕ) → check_chars cs i segment ≡ true → NoNul cs
unfolding check_chars
check_chars-NoNul [] i segment h = tt
check_chars-NoNul (c ∷ cs) i segment h =
    ground (arith, check_chars-NoNul cs (i + 1) 0, check_chars-NoNul cs (i + 1) (segment + 1))

check_chars-length :
    (cs : List ℕ) (i segment : ℕ)
    → i ≤ max_name
    → check_chars cs i segment ≡ true
    → i + length cs ≤ max_name
unfolding check_chars
check_chars-length [] i segment le h = omega arith
check_chars-length (c ∷ cs) i segment le h =
    ground (arith, check_chars-length cs (i + 1) 0, check_chars-length cs (i + 1) (segment + 1))

pub name_ok-NoNul : (name : List ℕ) → name_ok name ≡ true → NoNul name
unfolding name_ok
name_ok-NoNul [] h = tt
name_ok-NoNul (c ∷ cs) h = check_chars-NoNul (c ∷ cs) 0 0 (ground arith)

pub name_ok-length :
    (name : List ℕ) → name_ok name ≡ true → (0 < length name) × (length name ≤ max_name)
unfolding name_ok
name_ok-length [] h = absurd (ground arith)
name_ok-length (c ∷ cs) h =
    (omega arith, omega (arith, check_chars-length (c ∷ cs) 0 0 (omega arith) (ground arith)))

pub c_string-NoNul : (cs : List ℕ) → NoNul cs → c_string cs ≡ cs
unfolding c_string
c_string-NoNul [] h = refl
c_string-NoNul (c ∷ cs) h = ground (arith, c_string-NoNul cs h.1)

pub str_eq_self : (a : List ℕ) → str_eq a a ≡ true
unfolding str_eq
str_eq_self a = list_eq_self a

pub str_eq_sound : (a b : List ℕ) → str_eq a b ≡ true → a ≡ b
unfolding str_eq
str_eq_sound a b h = list_eq_sound a b h
