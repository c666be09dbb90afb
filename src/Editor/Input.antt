-- ===== src/Editor/Input.antt =====
-- Numbers on the command line of the editor: zedit_number of src/zc_source_editor.h.
use zealos_aarch64_bringup.Base.{
  ℕ, ◌+◌, ◌*◌, ◌-◌, ◌/◌, ◌^◌, Bool, ◌&&◌, Option, none, some, List, [], ◌∷◌, ltb, leb, ◌==◌,
  if◌then◌else◌,
}
use zealos_aarch64_bringup.Store.Record.{u32}

-- `*p >= '0' && *p <= '9'`
abbrev pub is_digit : ℕ → Bool
is_digit c = leb b'0' c && leb c b'9'

-- `while (*p >= '0' && *p <= '9')`: the value and what stands behind the digits; `none` where the
-- value does not fit.
unfoldable pub number_loop : ℕ → List ℕ → Option (ℕ × List ℕ)
number_loop value [] = some (value, [])
number_loop value (c ∷ cs) =
    let digit = c - b'0' in
    let rest = number_loop (u32 (value * 10 + digit)) cs in
    if is_digit c
    then (if ltb ((2 ^ 32 - 1 - digit) / 10) value then none else rest)
    else some (value, c ∷ cs)

-- zedit_number: `*out` and `*input`; `none` is its 0.
unfoldable pub number : List ℕ → Option (ℕ × List ℕ)
number [] = none
number (c ∷ cs) =
    if is_digit c
    then elim (number_loop 0 (c ∷ cs)) [
      | none ↦ none
      | some (value, rest) ↦ if value == 0 then none else some (value, rest)
    ]
    else none
