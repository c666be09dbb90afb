-- ===== src/Jit/Bounds/Labels.antt =====
-- The byte of HC_LABEL in the enumeration of src/hc_ir.h.
use zealos_aarch64_bringup.Base.{
  ℕ, zero, suc, ◌≡◌, refl, ap, subst, arith, Bool, some, List, [], ◌∷◌, ◌++◌, true, false, take,
  drop, length, if◌then◌else◌,
}
use mathlib.Core.Option.{some-injective}
use zealos_aarch64_bringup.Jit.Ops.{Op, op_of, ops, nth}

abbrev is_label : Op → Bool
is_label Op.label = true
is_label o = false

abbrev has_label : List Op → Bool
has_label [] = false
has_label (o ∷ os) = if is_label o then true else has_label os

nth-no_label : (os : List Op) (i : ℕ) → has_label os ≡ false → nth os i ≡ some Op.label → ⊥
nth-no_label [] i none_there e = ground arith
nth-no_label (o ∷ os) zero none_there e =
    let same : o ≡ Op.label = some-injective o Op.label e in
    let c : has_label (Op.label ∷ os) ≡ false =
      subst (λ x. has_label (x ∷ os) ≡ false) same none_there in
    ground arith
nth-no_label (o ∷ os) (suc i) none_there e = nth-no_label os i (ground arith) e

nth-label :
    (front back : List Op) (i : ℕ)
    → has_label front ≡ false
    → has_label back ≡ false
    → nth (front ++ Op.label ∷ back) i ≡ some Op.label
    → i ≡ length front
nth-label [] back zero no_front no_back e = refl
nth-label [] back (suc i) no_front no_back e = absurd (nth-no_label back i no_back e)
nth-label (o ∷ front) back zero no_front no_back e =
    absurd (nth-no_label (o ∷ []) zero (ground arith) e)
nth-label (o ∷ front) back (suc i) no_front no_back e =
    ap suc (nth-label front back i (ground arith) no_back e)

-- HC_LABEL is 12 and no other byte.
pub label_byte : (b : ℕ) → op_of b ≡ some Op.label → b ≡ 12
unfolding op_of
label_byte b e = nth-label (take 12 ops) (drop 13 ops) b refl refl e
