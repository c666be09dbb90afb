-- ===== src/Jit/Ir/Correct.antt =====
-- The code of hc_ir_compile, src/hc_ir.h, gives back what the bytecode means.
use zealos_aarch64_bringup.Base.{
  ℕ, ◌+◌, ◌-◌, ◌*◌, ◌≤◌, ◌≡◌, refl, sym, ap, subst, ◌∙◌, arith, inl, inr, Option-cases, some, List,
  [], ◌∷◌, ◌++◌, append_assoc, ◌==◌, if◌then◌else◌, length,
}
use zealos_aarch64_bringup.Jit.Result.{ok}
use zealos_aarch64_bringup.Jit.Compile.{Places, reg_at}
use zealos_aarch64_bringup.Jit.Calls.{epilogue}
use zealos_aarch64_bringup.Jit.Step.{compile, prologue}
use zealos_aarch64_bringup.Jit.Words.{word_sub}
use zealos_aarch64_bringup.Jit.Machine.{Machine, run}
use zealos_aarch64_bringup.Jit.Ir.{
  Instr, Values, arith_value, bytecode, compares, eval, eval_all, values,
}
use zealos_aarch64_bringup.Jit.Ir.Emission.{words_of, depth_after}
use zealos_aarch64_bringup.Jit.Ir.Program.{compile-bytecode, end_words, eval-Ready}
use zealos_aarch64_bringup.Jit.Ir.Lengths.{program_words, return_words}
use zealos_aarch64_bringup.Jit.Ir.Steps.{mov-Puts}
use zealos_aarch64_bringup.Jit.Ir.Mirrors.{Mirrors, Follows}
use zealos_aarch64_bringup.Jit.Ir.Simulation.{
  follow-imm, follow-arith, follow-compare, follow-neg, follow-dup, follow-swap, follow-drop,
  follow-st_local, follow-mov,
}
use zealos_aarch64_bringup.Jit.Ir.Frame.{Kept, saved, run-prologue, run-epilogue}

module _ (m : Machine) (ls : ℕ → ℕ) (ws : List ℕ) (s' : Values) where
  -- The words of an instruction follow it.
  follow :
      (i : Instr) (vs : List ℕ)
      → eval i (values vs ls) ≡ some s'
      → Mirrors m vs ls
      → Follows (words_of i (length vs)) m s'.stack s'.locals ws
  unfolding eval
  follow (Instr.imm v) vs e h =
      let (fits, shallow) = (eval-Ready (Instr.imm v) (values vs ls) s' e).0 in
      let same : values (v ∷ vs) ls ≡ s' = ground arith in
      subst (λ t. Follows (words_of (Instr.imm v) (length vs)) m t.stack t.locals ws) same
        (follow-imm m ls ws v vs fits shallow h)
  follow (Instr.arith o) (b ∷ (a ∷ vs)) e h =
      let same : values (arith_value o a b ∷ vs) ls ≡ s' = ground arith in
      subst (λ t. Follows (words_of (Instr.arith o) (length (b ∷ (a ∷ vs)))) m t.stack t.locals ws)
        same (follow-arith m ls ws o a b vs h)
  follow (Instr.arith o) (b ∷ []) e h = absurd (ground arith)
  follow (Instr.arith o) [] e h = absurd (ground arith)
  follow (Instr.compare o) (b ∷ (a ∷ vs)) e h =
      let same : values ((if compares o a b then 1 else 0) ∷ vs) ls ≡ s' = ground arith in
      subst
        (λ t. Follows (words_of (Instr.compare o) (length (b ∷ (a ∷ vs)))) m t.stack t.locals ws)
        same (follow-compare m ls ws o a b vs h)
  follow (Instr.compare o) (b ∷ []) e h = absurd (ground arith)
  follow (Instr.compare o) [] e h = absurd (ground arith)
  follow Instr.neg (a ∷ vs) e h =
      let same : values (word_sub 0 a ∷ vs) ls ≡ s' = ground arith in
      subst (λ t. Follows (words_of Instr.neg (length (a ∷ vs))) m t.stack t.locals ws) same
        (follow-neg m ls ws a vs h)
  follow Instr.neg [] e h = absurd (ground arith)
  follow Instr.dup (a ∷ vs) e h =
      let (one, shallow) = (eval-Ready Instr.dup (values (a ∷ vs) ls) s' e).0 in
      let same : values (a ∷ (a ∷ vs)) ls ≡ s' = ground arith in
      subst (λ t. Follows (words_of Instr.dup (length (a ∷ vs))) m t.stack t.locals ws) same
        (follow-dup m ls ws a vs shallow h)
  follow Instr.dup [] e h = absurd (ground arith)
  follow Instr.swap (b ∷ (a ∷ vs)) e h =
      let same : values (a ∷ (b ∷ vs)) ls ≡ s' = ground arith in
      subst (λ t. Follows (words_of Instr.swap (length (b ∷ (a ∷ vs)))) m t.stack t.locals ws) same
        (follow-swap m ls ws a b vs h)
  follow Instr.swap (b ∷ []) e h = absurd (ground arith)
  follow Instr.swap [] e h = absurd (ground arith)
  follow Instr.drop (a ∷ vs) e h =
      let same : values vs ls ≡ s' = ground arith in
      subst (λ t. Follows [] m t.stack t.locals ws) same (follow-drop m ls ws a vs h)
  follow Instr.drop [] e h = absurd (ground arith)
  follow (Instr.st_local slot) (a ∷ vs) e h =
      let inside = (eval-Ready (Instr.st_local slot) (values (a ∷ vs) ls) s' e).0.0 in
      let same : values vs (λ k. if k == slot then a else ls k) ≡ s' = ground arith in
      subst (λ t. Follows (words_of (Instr.st_local slot) (length (a ∷ vs))) m t.stack t.locals ws)
        same (follow-st_local m ls ws slot a vs inside h)
  follow (Instr.st_local slot) [] e h = absurd (ground arith)
  follow (Instr.ld_local slot) vs e h =
      let (inside, shallow) = (eval-Ready (Instr.ld_local slot) (values vs ls) s' e).0 in
      let same : values (ls slot ∷ vs) ls ≡ s' = ground arith in
      subst (λ t. Follows (words_of (Instr.ld_local slot) (length vs)) m t.stack t.locals ws) same
        (follow-mov m ls ws (20 + slot) (ls slot) vs (omega arith) (h.2 slot inside) shallow h)

-- The words of a program, up to its return.
follow_all :
    (is : List Instr) (s s' : Values) (m : Machine) (ws : List ℕ)
    → eval_all is s ≡ some s'
    → Mirrors m s.stack s.locals
    → (m' : Machine) × (run (program_words is (length s.stack) ++ ws) m
        ≡ run (return_words (length s'.stack) ++ ws) m')
      × Mirrors m' s'.stack s'.locals
      × (m'.frames ≡ m.frames)
unfolding eval_all
follow_all [] s s' m ws e h =
    let same : s ≡ s' = ground arith in
    (
      m,
      ap (λ (t : Values). run (return_words (length t.stack) ++ ws) m) same,
      subst (λ t. Mirrors m t.stack t.locals) same h,
      refl,
    )
follow_all (i ∷ is) s s' m ws e h = elim (Option-cases (eval i s)) [
  | inl stops ↦ absurd (ground (arith, stops))
  | inr (s₁, e₁) ↦
      let later : eval_all is s₁ ≡ some s' = rw (e₁, eval_all) at e in
      let n = length s.stack in
      let rest = program_words is (depth_after i n) ++ ws in
      let (m₁, ran₁, mirrors₁, frames₁) = follow m s.locals rest s₁ i s.stack e₁ h in
      let (m₂, ran₂, mirrors₂, frames₂) = follow_all is s₁ s' m₁ ws later mirrors₁ in
      let depth = (eval-Ready i s s₁ e₁).1 in
      (
        m₂,
        (ap (λ (t : List ℕ). run t m)
              (append_assoc (words_of i n) (program_words is (depth_after i n)) ws)
            ∙ ran₁
            ∙ ap (λ (d : ℕ). run (program_words is d ++ ws) m₁) (sym depth)
            ∙ ran₂),
        mirrors₂,
        frames₂ ∙ frames₁,
      )
]

-- A program of constants, arithmetic, comparisons, stack operations and locals, whose evaluation
-- keeps at most seven values on the stack and ends with one on top: hc_ir_compile makes code of it
-- where the buffer has room for four words an instruction and thirteen more, and the processor runs
-- that code, leaves the value in x0, and has x20 to x23, x30 and what the caller pushed as before.
pub run-compile :
    (at : Places) (cap : ℕ) (is : List Instr) (m : Machine) (v : ℕ) (vs : List ℕ) (ls : ℕ → ℕ)
    → 4 * length is + 13 ≤ cap
    → eval_all is (values [] (λ k. m.regs (20 + k))) ≡ some (values (v ∷ vs) ls)
    → (code : List ℕ) × (compile at (bytecode is) cap ≡ ok code)
      × (m' : Machine) × (run code m ≡ some m')
      × (m'.regs 0 ≡ v)
      × Kept m m'
run-compile at cap is m v vs ls room e =
    let n = length (v ∷ vs) in
    let m₀ : Machine = record m { frames = saved m } in
    let (m₁, ran₁, ((top, held), few, locals), frames₁) =
      follow_all is (values [] (λ k. m.regs (20 + k))) (values (v ∷ vs) ls) m₀ end_words e
        (tt, omega arith, (λ k lt. refl)) in
    let last : n - 1 ≡ length vs = omega arith in
    let (m₂, ran₂, (written, same, frames₂)) =
      mov-Puts 0 (reg_at (n - 1)) m₁ (epilogue ++ end_words) (omega arith) (omega arith) in
    let (m₃, ran₃, result, kept) = run-epilogue m m₂ end_words (frames₂ ∙ frames₁) in
    (
      (prologue ++ program_words is 0) ++ end_words,
      compile-bytecode at cap is (values [] (λ k. m.regs (20 + k))) (values (v ∷ vs) ls) room refl e
          (omega arith),
      m₃,
      (ap (λ (t : List ℕ). run t m) (append_assoc prologue (program_words is 0) end_words)
          ∙ run-prologue m (program_words is 0 ++ end_words)
          ∙ ran₁
          ∙ ran₂
          ∙ ran₃),
      result ∙ written ∙ ap (λ (x : ℕ). m₁.regs (9 + x)) last ∙ top,
      kept,
    )
