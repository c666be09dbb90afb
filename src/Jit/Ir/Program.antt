-- ===== src/Jit/Ir/Program.antt =====
-- The code that hc_ir_compile, src/hc_ir.h, puts out for a whole program of Jit/Ir.
use zealos_aarch64_bringup.Base.{
  ℕ, zero, suc, ◌+◌, ◌*◌, ◌≤◌, ◌≡◌, refl, sym, ap, subst, ◌∙◌, arith, inl, inr, Option-cases, false,
  some, List, [], ◌∷◌, ◌++◌, append_assoc, ltb, length, length-append,
}
use zealos_aarch64_bringup.Jit.Result.{ok}
use zealos_aarch64_bringup.Jit.Ops.{Op, op_of}
use zealos_aarch64_bringup.Jit.Encode.{a64_movz_x}
use zealos_aarch64_bringup.Jit.Compile.{Places, Gen, leave_frame}
use zealos_aarch64_bringup.Jit.Calls.{epilogue, gen_ret}
use zealos_aarch64_bringup.Jit.Step.{
  step, loop, is_end, finish, patch_all, prologue, empty_gen, compile,
}
use zealos_aarch64_bringup.Jit.Pack.{le_bytes, pack_imm64, pack_u8op}
use zealos_aarch64_bringup.Jit.Ir.{
  Instr, bytes_of, bytecode, Values, arith_code, compare_code, eval, eval_all, values,
}
use zealos_aarch64_bringup.Jit.Ir.Emission.{
  words_of, depth_after, after, Ready, emits-ok, op_of-arith, op_of-compare, step-imm, step-arith,
  step-compare, step-neg, step-dup, step-swap, step-drop, step-st_local, step-ld_local,
}
use zealos_aarch64_bringup.Jit.Ir.Lengths.{
  return_words, program_words, words_of-short, program_words-short, bytecode-long,
}

Ready-at :
    (i : Instr) (vs : List ℕ) (ls : ℕ → ℕ) (s' : Values)
    → eval i (values vs ls) ≡ some s'
    → Ready i (length vs) × (length s'.stack ≡ depth_after i (length vs))
unfolding eval
Ready-at (Instr.imm v) vs ls s' e = ground arith
Ready-at (Instr.arith o) [] ls s' e = ground arith
Ready-at (Instr.arith o) (b ∷ []) ls s' e = ground arith
Ready-at (Instr.arith o) (b ∷ (a ∷ vs)) ls s' e = ground arith
Ready-at (Instr.compare o) [] ls s' e = ground arith
Ready-at (Instr.compare o) (b ∷ []) ls s' e = ground arith
Ready-at (Instr.compare o) (b ∷ (a ∷ vs)) ls s' e = ground arith
Ready-at Instr.neg [] ls s' e = ground arith
Ready-at Instr.neg (a ∷ vs) ls s' e = ground arith
Ready-at Instr.dup [] ls s' e = ground arith
Ready-at Instr.dup (a ∷ vs) ls s' e = ground arith
Ready-at Instr.swap [] ls s' e = ground arith
Ready-at Instr.swap (b ∷ []) ls s' e = ground arith
Ready-at Instr.swap (b ∷ (a ∷ vs)) ls s' e = ground arith
Ready-at Instr.drop [] ls s' e = ground arith
Ready-at Instr.drop (a ∷ vs) ls s' e = ground arith
Ready-at (Instr.st_local slot) [] ls s' e = ground arith
Ready-at (Instr.st_local slot) (a ∷ vs) ls s' e = ground arith
Ready-at (Instr.ld_local slot) vs ls s' e = ground arith

-- An instruction that has a value is one that the stack is ready for.
pub eval-Ready :
    (i : Instr) (s s' : Values)
    → eval i s ≡ some s'
    → Ready i (length s.stack) × (length s'.stack ≡ depth_after i (length s.stack))
eval-Ready i s s' e = Ready-at i s.stack s.locals s' e

loop-op :
    (fuel : ℕ) (at : Places) (cap b : ℕ) (o : Op) (bs rest : List ℕ) (g g' : Gen)
    → op_of b ≡ some o
    → is_end o ≡ false
    → step at cap o bs g ≡ ok (rest, g')
    → loop (suc fuel) at cap (b ∷ bs) g ≡ loop fuel at cap rest g'
unfolding loop
loop-op fuel at cap b o bs rest g g' known on e = ground arith

loop-instr :
    (fuel : ℕ) (at : Places) (cap : ℕ) (i : Instr) (rest : List ℕ) (g : Gen)
    → length g.code + 4 ≤ cap
    → Ready i g.sp
    → loop (suc fuel) at cap (bytes_of i ++ rest) g ≡ loop fuel at cap rest (after i g)
unfolding pack_imm64 pack_u8op op_of
loop-instr fuel at cap (Instr.imm v) rest g room h =
    loop-op fuel at cap 1 Op.imm64 (le_bytes v ++ rest) rest g _ refl refl
      (step-imm at cap rest g room v h)
loop-instr fuel at cap (Instr.arith o) rest g room h =
    loop-op fuel at cap (arith_code o) (Op.arith o) rest rest g _ (op_of-arith o) refl
      (step-arith at cap rest g room o h)
loop-instr fuel at cap (Instr.compare o) rest g room h =
    loop-op fuel at cap (compare_code o) (Op.compare o) rest rest g _ (op_of-compare o) refl
      (step-compare at cap rest g room o h)
loop-instr fuel at cap Instr.neg rest g room h =
    loop-op fuel at cap 9 Op.neg rest rest g _ refl refl (step-neg at cap rest g room h)
loop-instr fuel at cap Instr.dup rest g room h =
    loop-op fuel at cap 10 Op.dup rest rest g _ refl refl (step-dup at cap rest g room h)
loop-instr fuel at cap Instr.swap rest g room h =
    loop-op fuel at cap 65 Op.swap rest rest g _ refl refl (step-swap at cap rest g room h)
loop-instr fuel at cap Instr.drop rest g room h =
    loop-op fuel at cap 11 Op.drop rest rest g _ refl refl (step-drop at cap rest g room h)
loop-instr fuel at cap (Instr.st_local slot) rest g room h =
    loop-op fuel at cap 16 Op.st_local (slot ∷ rest) rest g _ refl refl
      (step-st_local at cap rest g room slot h)
loop-instr fuel at cap (Instr.ld_local slot) rest g room h =
    loop-op fuel at cap 17 Op.ld_local (slot ∷ rest) rest g _ refl refl
      (step-ld_local at cap rest g room slot h)

loop-ret :
    (fuel : ℕ) (at : Places) (cap : ℕ) (g : Gen)
    → length g.code + 5 ≤ cap
    → g.framed ≡ false
    → 1 ≤ g.sp
    → loop (suc (suc fuel)) at cap (6 ∷ []) g
      ≡ ok (record g { code = g.code ++ return_words g.sp; sp = 0 })
unfolding loop op_of step gen_ret leave_frame
loop-ret fuel at cap g room unframed one =
    let some_value : ltb g.sp 1 ≡ false = ground arith in
    let ret : step at cap Op.ret [] g
        ≡ ok ([], record g { code = g.code ++ return_words g.sp; sp = 0 }) =
      simp (unframed, some_value, emits-ok cap (return_words g.sp) g (omega arith)) refl in
    loop-op (suc fuel) at cap 6 Op.ret [] [] g _ refl refl ret

loop-bytecode :
    (fuel : ℕ) (at : Places) (cap : ℕ) (is : List Instr) (s s' : Values) (g : Gen)
    → length is + 2 ≤ fuel
    → length g.code + 4 * length is + 5 ≤ cap
    → g.framed ≡ false
    → g.sp ≡ length s.stack
    → eval_all is s ≡ some s'
    → 1 ≤ length s'.stack
    → loop fuel at cap (bytecode is) g
      ≡ ok (record g { code = g.code ++ program_words is g.sp; sp = 0 })
unfolding eval_all
loop-bytecode zero at cap is s s' g enough room unframed same e top = absurd (omega arith)
loop-bytecode (suc zero) at cap [] s s' g enough room unframed same e top = absurd (omega arith)
loop-bytecode (suc (suc fuel)) at cap [] s s' g enough room unframed same e top =
    let here : s ≡ s' = ground arith in
    loop-ret fuel at cap g (omega arith) unframed
      (omega (arith, ap (λ (v : Values). length v.stack) here))
loop-bytecode (suc fuel) at cap (i ∷ is) s s' g enough room unframed same e top =
    elim (Option-cases (eval i s)) [
      | inl stops ↦ absurd (ground (arith, stops))
      | inr (s₁, e₁) ↦
          let (ready, depth) = eval-Ready i s s₁ e₁ in
          let ready' : Ready i g.sp = subst (Ready i) (sym same) ready in
          let later : eval_all is s₁ ≡ some s' = rw (e₁, eval_all) at e in
          loop-instr fuel at cap i (bytecode is) g (omega arith) ready'
          ∙ loop-bytecode fuel at cap is s₁ s' (after i g) (omega arith)
              (omega (arith, length-append g.code (words_of i g.sp), words_of-short i g.sp))
              unframed (ap (depth_after i) same ∙ sym depth) later top
          ∙ ap (λ (c : List ℕ). ok (record g { code = c; sp = 0 }))
              (append_assoc g.code (words_of i g.sp) (program_words is (depth_after i g.sp)))
    ]

-- The second return, which hc_ir_compile always puts at the end.
abbrev pub end_words : List ℕ
end_words = a64_movz_x 0 0 0 ∷ epilogue

finish-unframed :
    (at : Places) (cap : ℕ) (g : Gen)
    → g.framed ≡ false
    → g.patches ≡ []
    → length g.code + 5 ≤ cap
    → finish at cap g ≡ ok (g.code ++ end_words)
unfolding finish leave_frame patch_all
finish-unframed at cap g unframed no_branch room =
    simp (unframed, emits-ok cap end_words g (omega arith), no_branch) refl

-- The code of a program whose evaluation ends with a value on the stack.
pub compile-bytecode :
    (at : Places) (cap : ℕ) (is : List Instr) (s s' : Values)
    → 4 * length is + 13 ≤ cap
    → s.stack ≡ []
    → eval_all is s ≡ some s'
    → 1 ≤ length s'.stack
    → compile at (bytecode is) cap ≡ ok ((prologue ++ program_words is 0) ++ end_words)
unfolding compile
compile-bytecode at cap is s s' room empty e top =
    let enough : ltb cap 3 ≡ false = ground arith in
    let looped : loop (suc (length (bytecode is))) at cap (bytecode is) empty_gen
        ≡ ok (record empty_gen { code = prologue ++ program_words is 0; sp = 0 }) =
      loop-bytecode (suc (length (bytecode is))) at cap is s s' empty_gen
        (omega (arith, bytecode-long is)) (omega arith) refl
        (sym (ap (λ (v : List ℕ). length v) empty)) e top in
    rw (enough, looped)
      (finish-unframed at cap (record empty_gen { code = prologue ++ program_words is 0; sp = 0 })
        refl refl
        (omega (arith, length-append prologue (program_words is 0), program_words-short is 0)))
