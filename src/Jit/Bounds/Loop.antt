-- ===== src/Jit/Bounds/Loop.antt =====
-- hc_ir_compile, src/hc_ir.h, as a whole: it ends, inside its buffer.
use zealos_aarch64_bringup.Base.{
  ℕ, zero, suc, ◌≤◌, ◌<◌, arith, inl, inr, Bool-cases, Option-cases, Option, List, [], ◌∷◌, ltb, ap,
  length-drop, length,
}
use zealos_aarch64_bringup.Jit.Result.{Error}
use zealos_aarch64_bringup.Jit.Encode.{a64_movz_x}
use zealos_aarch64_bringup.Jit.Ops.{op_of}
use zealos_aarch64_bringup.Jit.Compile.{Patch, Places, Gen, emits, leave_frame}
use zealos_aarch64_bringup.Jit.Calls.{epilogue}
use zealos_aarch64_bringup.Jit.Step.{
  branch_word, compile, finish, is_end, loop, offset_of, patch_all, empty_gen, step,
}
use zealos_aarch64_bringup.Jit.Bounds.{
  Ensures, Ensures-bind, Ensures-guard, IsSound, Grows, emits-Grows, leave_frame-Grows,
}
use zealos_aarch64_bringup.Jit.Bounds.Jumps.{length-set_word}
use zealos_aarch64_bringup.Jit.Bounds.Switch.{Stepped, operand_bytes, step-Stepped}

pub loop-IsSound :
    (fuel : ℕ) (at : Places) (cap : ℕ) (bs : List ℕ) (g : Gen)
    → length bs < fuel
    → IsSound cap g
    → Ensures (IsSound cap) (loop fuel at cap bs g)
unfolding loop
loop-IsSound zero at cap bs g enough s = absurd (omega arith)
loop-IsSound (suc fuel) at cap [] g enough s = s
loop-IsSound (suc fuel) at cap (b ∷ bs) g enough s = elim (Option-cases (op_of b)) [
  | inl e ↦ rw (loop, e) tt
  | inr (o, e) ↦ elim (Bool-cases (is_end o)) [
    | inl stops ↦ rw (loop, e, stops) s
    | inr on ↦
        rw (loop, e, on)
          (Ensures-bind (Stepped cap o bs g) (IsSound cap) (step at cap o bs g) _
            (step-Stepped at cap o bs g s)
            λ r h.
              loop-IsSound fuel at cap r.0 r.1
                (omega (arith, ap (λ (l : List ℕ). length l) h.0, length-drop (operand_bytes o) bs))
                h.1)
  ]
]

pub empty_gen-IsSound : (cap : ℕ) → 3 ≤ cap → IsSound cap empty_gen
empty_gen-IsSound cap h = record {
  fits = omega arith;
  depth = omega arith;
  labels = λ k at e. absurd (ground arith);
  sites = tt;
  rising = tt;
}

patch_all-fits :
    (n : ℕ) (ps : List Patch) (label_at : ℕ → Option ℕ) (code : List ℕ)
    → length code ≤ n
    → Ensures (λ c. length c ≤ n) (patch_all ps label_at code)
unfolding patch_all
patch_all-fits n [] label_at code h = h
patch_all-fits n (p ∷ ps) label_at code h = elim (Option-cases (label_at p.label)) [
  | inl e ↦ rw (patch_all, e) tt
  | inr (target, e) ↦
      rw (patch_all, e)
        (patch_all-fits n ps label_at _ (
          omega
            (arith, length-set_word p.site (branch_word p.kind (offset_of target p.site)) code)))
]

-- For every bytecode and buffer, hc_ir_compile ends with an error of the source or with code that
-- has no more words than the buffer.
pub compile-fits :
    (at : Places) (bc : List ℕ) (cap : ℕ) → Ensures (λ code. length code ≤ cap) (compile at bc cap)
unfolding compile finish
compile-fits at bc cap =
    Ensures-guard (λ (code : List ℕ). length code ≤ cap) (ltb cap 3) Error.space _ tt
      λ room.
        Ensures-bind (IsSound cap) (λ (code : List ℕ). length code ≤ cap)
          (loop (suc (length bc)) at cap bc empty_gen) (finish at cap)
          (loop-IsSound (suc (length bc)) at cap bc empty_gen (omega arith)
            (empty_gen-IsSound cap (ground arith)))
          λ g s.
            Ensures-bind (Grows cap g) (λ (code : List ℕ). length code ≤ cap) (leave_frame at cap g)
              _ (leave_frame-Grows at cap g s.fits)
              λ g₁ h₁.
                Ensures-bind (Grows cap g₁) (λ (code : List ℕ). length code ≤ cap)
                  (emits cap (a64_movz_x 0 0 0 ∷ epilogue) g₁) _ (emits-Grows cap _ g₁ h₁.fits)
                  λ g₂ h₂. patch_all-fits cap g₂.patches g₂.label_at g₂.code h₂.fits
