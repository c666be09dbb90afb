-- ===== src/Editor/Numbers.antt =====
-- zedit_number of src/zc_source_editor.h against the value of a decimal numeral.
use zealos_aarch64_bringup.Base.{
  ℕ, ◌+◌, ◌*◌, ◌-◌, ◌/◌, ◌^◌, ◌≤◌, ◌<◌, ◌≡◌, refl, inl, inr, Bool-cases, true, false, not, ◌&&◌,
  Option, none, some, List, [], ◌∷◌, ◌++◌, arith, ltb, ltb→lt, ◌==◌, if◌then◌else◌, get_or,
}
use zealos_aarch64_bringup.Store.Record.{u32}
use zealos_aarch64_bringup.Editor.Input.{is_digit, number_loop, number}

-- The value of the digits behind `value`.
abbrev pub decimal : List ℕ → ℕ → ℕ
decimal [] value = value
decimal (d ∷ ds) value = decimal ds (value * 10 + (d - b'0'))

abbrev pub AreDigits : List ℕ → Type 0
AreDigits [] = Unit
AreDigits (d ∷ ds) = (is_digit d ≡ true) × AreDigits ds

decimal-le : (ds : List ℕ) (value : ℕ) → value ≤ decimal ds value
decimal-le [] value = omega arith
decimal-le (d ∷ ds) value = omega (arith, decimal-le ds (value * 10 + (d - b'0')))

abbrev in_range : ℕ → List ℕ → Option (ℕ × List ℕ)
in_range value rest = if ltb value (2 ^ 32) then some (value, rest) else none

loop_stops :
    (value : ℕ) (rest : List ℕ)
    → value < 2 ^ 32
    → is_digit (get_or rest 0 0) ≡ false
    → number_loop value rest ≡ in_range value rest
unfolding number_loop
loop_stops value [] low h = ground arith
loop_stops value (c ∷ cs) low h = rw (number_loop, h) (ground arith)

too_large :
    (value digit : ℕ)
    → digit < 10
    → ltb ((2 ^ 32 - 1 - digit) / 10) value ≡ not (ltb (value * 10 + digit) (2 ^ 32))
too_large value digit low = ground arith

number_loop_lem :
    (ds rest : List ℕ) (value : ℕ)
    → AreDigits ds
    → is_digit (get_or rest 0 0) ≡ false
    → value < 2 ^ 32
    → number_loop value (ds ++ rest) ≡ in_range (decimal ds value) rest
unfolding number_loop
number_loop_lem [] rest value h stop low = loop_stops value rest low stop
number_loop_lem (d ∷ ds) rest value (digit, h) stop low =
    let small : d - b'0' < 10 = ground arith in
    let next = value * 10 + (d - b'0') in
    let test = too_large value (d - b'0') small in
    elim (Bool-cases (ltb next (2 ^ 32))) [
      | inl fits ↦
          let unwrapped : u32 next ≡ next = omega (arith, ltb→lt _ _ fits) in
          rw (number_loop, digit, test, fits, unwrapped)
            (number_loop_lem ds rest next h stop (ltb→lt _ _ fits))
      | inr over ↦
          let past : ltb (decimal ds next) (2 ^ 32) ≡ false = ground (arith, decimal-le ds next) in
          rw (number_loop, digit, test, over, past) refl
    ]

-- zedit_number of digits up to a character that is none gives their decimal value and the rest of
-- the line where the value is between 1 and 2^32 - 1, and fails for every other value.
pub number_lem :
    (d : ℕ) (ds rest : List ℕ)
    → AreDigits (d ∷ ds)
    → is_digit (get_or rest 0 0) ≡ false
    → number (d ∷ ds ++ rest) ≡ (
        if ltb (decimal (d ∷ ds) 0) (2 ^ 32) && not (decimal (d ∷ ds) 0 == 0)
        then some (decimal (d ∷ ds) 0, rest)
        else none)
unfolding number
number_lem d ds rest (digit, h) stop =
    let value = decimal (d ∷ ds) 0 in
    let looped = number_loop_lem (d ∷ ds) rest 0 (digit, h) stop (omega arith) in
    elim (Bool-cases (ltb value (2 ^ 32))) [
      | inr over ↦ rw (number, digit, looped, over) refl
      | inl fits ↦ elim (Bool-cases (value == 0)) [
        | inl nothing ↦ rw (number, digit, looped, fits, nothing) refl
        | inr something ↦ rw (number, digit, looped, fits, something) refl
      ]
    ]
