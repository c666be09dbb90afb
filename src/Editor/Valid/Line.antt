-- ===== src/Editor/Valid/Line.antt =====
-- What zedit_number of src/zc_source_editor.h leaves of a command line.
use zealos_aarch64_bringup.Base.{
  ℕ, zero, suc, ◌≤◌, inl, inr, Bool-cases, Option-cases, Option, none, some, List, [], ◌∷◌, arith,
  subst, ◌==◌, if◌then◌else◌, drop,
}
use zealos_aarch64_bringup.Editor.Text.Positions.{}
use zealos_aarch64_bringup.Editor.Input.{is_digit, number_loop, number}
use zealos_aarch64_bringup.Editor.Edits.{IsBody}
use zealos_aarch64_bringup.Editor.Effects.{}
use zealos_aarch64_bringup.Editor.Command.{skip_spaces, print_count, print_arguments}
use zealos_aarch64_bringup.Editor.Valid.{if-both}

-- The rest of a command line.
pub IsBody-drop : (n : ℕ) (line : List ℕ) → IsBody line → IsBody (drop n line)
IsBody-drop zero line b = b
IsBody-drop (suc n) [] b = b
IsBody-drop (suc n) (c ∷ cs) b =
    IsBody-drop n cs
      (record { one_line = b.one_line.1; chars = b.chars.2; short = omega (arith, b.short) })

-- What a number leaves of the line.
pub data Rest : Option (ℕ × List ℕ) → Type 0 where
  nothing : Rest none
  rest : (n : ℕ) (p : List ℕ) → IsBody p → Rest (some (n, p))

pub rest-IsBody : (n : ℕ) (p : List ℕ) → Rest (some (n, p)) → IsBody p
rest-IsBody n p (rest _ _ b) = b

-- A number that is given is not 0.
pub data IsPositive {A : Type 0} : Option (ℕ × A) → Type 0 where
  missing : IsPositive none
  positive : (n : ℕ) (a : A) → 1 ≤ n → IsPositive (some (n, a))

pub positive_low : {A : Type 0} → (n : ℕ) (a : A) → IsPositive (some (n, a)) → 1 ≤ n
positive_low n a (positive _ _ low) = low

number_loop-Rest : (cs : List ℕ) (value : ℕ) → IsBody cs → Rest (number_loop value cs)
unfolding number_loop
number_loop-Rest [] value b = rest value [] b
number_loop-Rest (c ∷ cs) value b =
    if-both Rest _ _ _
      (if-both Rest _ _ _ nothing (number_loop-Rest cs _ (IsBody-drop 1 (c ∷ cs) b)))
      (rest value (c ∷ cs) b)

pub number-Rest : (cs : List ℕ) → IsBody cs → Rest (number cs)
unfolding number
number-Rest [] b = nothing
number-Rest (c ∷ cs) b =
    let got = number_loop-Rest (c ∷ cs) 0 b in
    elim (Bool-cases (is_digit c)) [
      | inr other ↦ rw (number, other) nothing
      | inl digit ↦ elim (Option-cases (number_loop 0 (c ∷ cs))) [
        | inl e ↦ rw (number, digit, e) nothing
        | inr ((n, p), e) ↦
            rw (number, digit, e)
              (if-both Rest _ _ _ nothing (rest n p (rest-IsBody n p (subst Rest e got))))
      ]
    ]

if-IsPositive : (n : ℕ) (p : List ℕ) → IsPositive (if n == 0 then none else some (n, p))
if-IsPositive n p = elim (Bool-cases (n == 0)) [
  | inl e ↦ rw e missing
  | inr e ↦ rw e (positive n p (ground arith))
]

pub number-IsPositive : (cs : List ℕ) → IsPositive (number cs)
unfolding number
number-IsPositive [] = missing
number-IsPositive (c ∷ cs) = elim (Bool-cases (is_digit c)) [
  | inr other ↦ rw (number, other) missing
  | inl digit ↦ elim (Option-cases (number_loop 0 (c ∷ cs))) [
    | inl e ↦ rw (number, digit, e) missing
    | inr ((n, p), e) ↦ rw (number, digit, e) (if-IsPositive n p)
  ]
]

pub print_arguments-IsPositive : (cs : List ℕ) → IsPositive (print_arguments cs)
unfolding print_arguments
print_arguments-IsPositive [] = positive 1 20 (omega arith)
print_arguments-IsPositive (c ∷ cs) = elim (Option-cases (number (skip_spaces (c ∷ cs)))) [
  | inl e ↦ rw (print_arguments, e) missing
  | inr ((n, p), e) ↦ elim (Option-cases (print_count p)) [
    | inl e' ↦ rw (print_arguments, e, e') missing
    | inr ((count, p'), e') ↦
        let low =
          positive_low n p (subst IsPositive e (number-IsPositive (skip_spaces (c ∷ cs)))) in
        rw (print_arguments, e, e') (if-both IsPositive _ _ _ (positive n count low) missing)
  ]
]
