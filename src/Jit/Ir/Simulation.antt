-- ===== src/Jit/Ir/Simulation.antt =====
-- The registers follow the stack: the code of src/hc_ir.h for the bytecode of Jit/Ir, on the
-- processor of Jit/Machine.
use zealos_aarch64_bringup.Base.{
  ℕ, suc, ◌+◌, ◌-◌, ◌^◌, ◌<◌, ◌≡◌, refl, sym, ap, ap₂, subst, ◌∙◌, arith, inl, inr, Bool-cases,
  List, [], ◌∷◌, ◌==◌, ==_iff, if◌then◌else◌, length,
}
use zealos_aarch64_bringup.Jit.Ops.{Arith, Compare}
use zealos_aarch64_bringup.Jit.Compile.{reg_at}
use zealos_aarch64_bringup.Jit.Stack.{arith_words, cset}
use zealos_aarch64_bringup.Jit.Encode.{a64_cmp_x, a64_mov_x, a64_neg_x, a64_emit_imm64}
use zealos_aarch64_bringup.Jit.Encode.Constants.{run-a64_emit_imm64}
use zealos_aarch64_bringup.Jit.Words.{word_sub}
use zealos_aarch64_bringup.Jit.Machine.{Machine, put_reg}
use zealos_aarch64_bringup.Jit.Machine.Run.{set_reg_self, set_reg_ne}
use zealos_aarch64_bringup.Jit.Ir.{Instr, arith_value, compares, deepest}
use zealos_aarch64_bringup.Jit.Ir.Emission.{words_of}
use zealos_aarch64_bringup.Jit.Ir.Steps.{
  swap_words, run-swap_words, Puts, arith-Puts, compare-Puts, mov-Puts, neg-Puts,
}
use zealos_aarch64_bringup.Jit.Ir.Mirrors.{Holds-agree, Mirrors, Follows, follow-push}

module _ (m : Machine) (ls : ℕ → ℕ) (ws : List ℕ) where
  -- The two upper values, and where they are.
  pub follow-two :
      (words : ℕ → ℕ → List ℕ) (v a b : ℕ) (vs : List ℕ)
      → Mirrors m (b ∷ (a ∷ vs)) ls
      → ((ra rb : ℕ)
          → ra < 16
          → rb < 16
          → 8 < ra
          → 8 < rb
          → m.regs ra ≡ a
          → m.regs rb ≡ b
          → Puts (words ra rb) ra v m ws)
      → Follows
          (words (reg_at (length (b ∷ (a ∷ vs)) - 2)) (reg_at (length (b ∷ (a ∷ vs)) - 1)))
          m
          (v ∷ vs)
          ls
          ws
  follow-two words v a b vs ((at_b, (at_a, held)), shallow, locals) puts =
      let second : length (b ∷ (a ∷ vs)) - 2 ≡ length vs = omega arith in
      let first : length (b ∷ (a ∷ vs)) - 1 ≡ suc (length vs) = omega arith in
      subst (λ t. Follows t m (v ∷ vs) ls ws)
        (ap₂ (λ (x y : ℕ). words (reg_at x) (reg_at y)) (sym second) (sym first))
        (follow-push (words (9 + length vs) (9 + suc (length vs))) m v vs ls ws
          (puts (9 + length vs) (9 + suc (length vs)) (omega arith) (omega arith) (omega arith)
            (omega arith) at_a at_b)
          (omega arith) held locals)

  -- The top value, and where it is.
  pub follow-one :
      (words : ℕ → List ℕ) (v a : ℕ) (vs : List ℕ)
      → Mirrors m (a ∷ vs) ls
      → ((ra : ℕ) → ra < 16 → 8 < ra → m.regs ra ≡ a → Puts (words ra) ra v m ws)
      → Follows (words (reg_at (length (a ∷ vs) - 1))) m (v ∷ vs) ls ws
  follow-one words v a vs ((at_a, held), shallow, locals) puts =
      let first : length (a ∷ vs) - 1 ≡ length vs = omega arith in
      subst (λ t. Follows t m (v ∷ vs) ls ws) (ap (λ (x : ℕ). words (reg_at x)) (sym first))
        (follow-push (words (9 + length vs)) m v vs ls ws
          (puts (9 + length vs) (omega arith) (omega arith) at_a) (omega arith) held locals)

  pub follow-imm :
      (v : ℕ) (vs : List ℕ)
      → v < 2 ^ 64
      → length vs < deepest
      → Mirrors m vs ls
      → Follows (words_of (Instr.imm v) (length vs)) m (v ∷ vs) ls ws
  follow-imm v vs fits shallow (held, few, locals) =
      follow-push (a64_emit_imm64 (9 + length vs) v) m v vs ls ws
        (
          put_reg (9 + length vs) v m,
          run-a64_emit_imm64 (9 + length vs) v m ws (omega arith) fits,
          (
            set_reg_self (9 + length vs) v m.regs (omega arith),
            (λ k ne no₈. set_reg_ne (9 + length vs) v k m.regs ne),
            refl,
          ),
        )
        shallow held locals

  pub follow-arith :
      (o : Arith) (a b : ℕ) (vs : List ℕ)
      → Mirrors m (b ∷ (a ∷ vs)) ls
      → Follows (words_of (Instr.arith o) (length (b ∷ (a ∷ vs)))) m (arith_value o a b ∷ vs) ls ws
  follow-arith o a b vs h =
      follow-two (arith_words o) (arith_value o a b) a b vs h λ ra rb la lb ga gb ea eb.
        subst (λ t. Puts (arith_words o ra rb) ra t m ws) (ap₂ (arith_value o) ea eb)
          (arith-Puts ra rb m ws (omega arith) (omega arith) o (ground arith) (ground arith))

  pub follow-compare :
      (o : Compare) (a b : ℕ) (vs : List ℕ)
      → Mirrors m (b ∷ (a ∷ vs)) ls
      → Follows
          (words_of (Instr.compare o) (length (b ∷ (a ∷ vs))))
          m
          ((if compares o a b then 1 else 0) ∷ vs)
          ls
          ws
  follow-compare o a b vs h =
      follow-two (λ ra rb. a64_cmp_x ra rb ∷ (cset o ra ∷ [])) (if compares o a b then 1 else 0) a b
        vs h
        λ ra rb la lb ga gb ea eb.
          subst (λ t. Puts (a64_cmp_x ra rb ∷ (cset o ra ∷ [])) ra t m ws)
            (ap₂ (λ (x y : ℕ). if compares o x y then 1 else 0) ea eb)
            (compare-Puts ra rb m ws (omega arith) (omega arith) o)

  pub follow-neg :
      (a : ℕ) (vs : List ℕ)
      → Mirrors m (a ∷ vs) ls
      → Follows (words_of Instr.neg (length (a ∷ vs))) m (word_sub 0 a ∷ vs) ls ws
  follow-neg a vs h =
      follow-one (λ r. a64_neg_x r r ∷ []) (word_sub 0 a) a vs h
        λ ra la ga ea.
          subst (λ t. Puts (a64_neg_x ra ra ∷ []) ra t m ws) (ap (word_sub 0) ea)
            (neg-Puts ra ra m ws (omega arith) (omega arith))

  -- A register is copied to the place above the stack.
  pub follow-mov :
      (r v : ℕ) (vs : List ℕ)
      → r < 31
      → m.regs r ≡ v
      → length vs < deepest
      → Mirrors m vs ls
      → Follows (a64_mov_x (reg_at (length vs)) r ∷ []) m (v ∷ vs) ls ws
  follow-mov r v vs inside e shallow (held, few, locals) =
      follow-push (a64_mov_x (9 + length vs) r ∷ []) m v vs ls ws
        (subst (λ t. Puts (a64_mov_x (9 + length vs) r ∷ []) (9 + length vs) t m ws) e
          (mov-Puts (9 + length vs) r m ws (omega arith) inside))
        shallow held locals

  pub follow-dup :
      (a : ℕ) (vs : List ℕ)
      → length (a ∷ vs) < deepest
      → Mirrors m (a ∷ vs) ls
      → Follows (words_of Instr.dup (length (a ∷ vs))) m (a ∷ (a ∷ vs)) ls ws
  follow-dup a vs shallow h =
      let first : length (a ∷ vs) - 1 ≡ length vs = omega arith in
      follow-mov (reg_at (length (a ∷ vs) - 1)) a (a ∷ vs) (omega arith)
        (ap (λ (x : ℕ). m.regs (9 + x)) first ∙ h.0.0) shallow h

  pub follow-drop : (a : ℕ) (vs : List ℕ) → Mirrors m (a ∷ vs) ls → Follows [] m vs ls ws
  follow-drop a vs ((top, held), few, locals) = (m, refl, (held, omega arith, locals), refl)

  pub follow-st_local :
      (slot a : ℕ) (vs : List ℕ)
      → slot < 4
      → Mirrors m (a ∷ vs) ls
      → Follows
          (words_of (Instr.st_local slot) (length (a ∷ vs)))
          m
          vs
          (λ k. if k == slot then a else ls k)
          ws
  follow-st_local slot a vs inside ((top, held), few, locals) =
      let first : length (a ∷ vs) - 1 ≡ length vs = omega arith in
      let (m', ran, (written, same, frames)) =
        mov-Puts (20 + slot) (reg_at (length (a ∷ vs) - 1)) m ws (omega arith) (omega arith) in
      let value : m'.regs (20 + slot) ≡ a = written ∙ ap (λ (x : ℕ). m.regs (9 + x)) first ∙ top in
      (
        m',
        ran,
        (
          Holds-agree m.regs m'.regs vs (λ k lt. same (9 + k) (omega arith) (omega arith)) held,
          omega arith,
          (λ k lt. elim (Bool-cases (k == slot)) [
            | inl e ↦ rw (e, (==_iff k slot).0 e) value
            | inr e ↦ rw e (same (20 + k) (ground arith) (omega arith) ∙ locals k lt)
          ]),
        ),
        frames,
      )

  pub follow-swap :
      (a b : ℕ) (vs : List ℕ)
      → Mirrors m (b ∷ (a ∷ vs)) ls
      → Follows (words_of Instr.swap (length (b ∷ (a ∷ vs)))) m (a ∷ (b ∷ vs)) ls ws
  follow-swap a b vs ((at_b, (at_a, held)), few, locals) =
      let second : length (b ∷ (a ∷ vs)) - 2 ≡ length vs = omega arith in
      let first : length (b ∷ (a ∷ vs)) - 1 ≡ suc (length vs) = omega arith in
      let (m', ran, (lower, upper, same), frames) =
        run-swap_words (9 + length vs) (9 + suc (length vs)) m ws (omega arith) (omega arith)
          (omega arith) (omega arith) (omega arith) in
      subst (λ t. Follows t m (a ∷ (b ∷ vs)) ls ws)
        (ap₂ (λ (x y : ℕ). swap_words (reg_at x) (reg_at y)) (sym second) (sym first))
        (
          m',
          ran,
          (
            (
              upper ∙ at_a,
              (
                lower ∙ at_b,
                Holds-agree m.regs m'.regs vs
                    (λ k lt. same (9 + k) (omega arith) (omega arith) (omega arith) (omega arith))
                    held,
              ),
            ),
            few,
            (λ k lt.
                (same (20 + k) (omega arith) (omega arith) (omega arith) (omega arith)
                  ∙ locals k lt)),
          ),
          frames,
        )
