-- ===== src/Jit/Ir/Steps.antt =====
-- What the words of single instructions, src/hc_ir.h, do to the registers.
use zealos_aarch64_bringup.Base.{
  ℕ, ◌<◌, ◌≡◌, ◌≢◌, refl, ap, ap₂, ◌∙◌, arith, inl, inr, Bool-cases, not, some, List, [], ◌∷◌, ◌++◌,
  bit_or, bit_or-shifted, if◌then◌else◌,
}
use zealos_aarch64_bringup.Jit.Ops.{Arith, Compare}
use zealos_aarch64_bringup.Jit.Encode.{a64_cmp_x, a64_mov_x, a64_msub_x, a64_neg_x, a64_sdiv_x}
use zealos_aarch64_bringup.Jit.Encode.Decoding.{
  decode-a64_add_x_reg, decode-a64_sub_x_reg, decode-a64_mul_x, decode-a64_sdiv_x, decode-a64_and_x,
  decode-a64_orr_x, decode-a64_eor_x, decode-a64_lslv_x, decode-a64_lsrv_x, decode-a64_asrv_x,
  decode-a64_msub_x, decode-a64_mov_x, decode-a64_cmp_x,
}
use zealos_aarch64_bringup.Jit.Encode.Constants.{opposite, decode-cset}
use zealos_aarch64_bringup.Jit.Stack.{arith_words, cset}
use zealos_aarch64_bringup.Jit.Words.{word_add, word_sub, word_mul, signed_div}
use zealos_aarch64_bringup.Jit.Machine.{
  Alu, Insn, Machine, decode, exec, alu_value, new_flags, passes, put_reg, reg, run,
}
use zealos_aarch64_bringup.Jit.Machine.Run.{
  run-alu, run-step, reg_lem, set_reg_self, set_reg_ne, set_reg_zero,
}
use zealos_aarch64_bringup.Jit.Ir.{arith_value, compares}

-- Register `r` holds `v`; no other but x8 is changed.
abbrev pub Writes : ℕ → ℕ → Machine → Machine → Type 0
Writes r v m m' =
    (m'.regs r ≡ v) × ((k : ℕ) → k ≢ r → k ≢ 8 → m'.regs k ≡ m.regs k) × (m'.frames ≡ m.frames)

-- The words lead to such a machine.
abbrev pub Puts : List ℕ → ℕ → ℕ → Machine → List ℕ → Type 0
Puts words r v m ws = (m' : Machine) × (run (words ++ ws) m ≡ run ws m') × Writes r v m m'

pub one-alu :
    (w : ℕ) (o : Alu) (rd rn rm v : ℕ) (m : Machine) (ws : List ℕ)
    → decode w ≡ some (Insn.alu o rd rn rm)
    → rd < 31
    → alu_value o m.flags (reg m rn) (reg m rm) ≡ v
    → Puts (w ∷ []) rd v m ws
one-alu w o rd rn rm v m ws d h e = (
  put_reg rd (alu_value o m.flags (reg m rn) (reg m rm))
      (record m { flags = new_flags o m.flags (reg m rn) (reg m rm) }),
  run-alu w o rd rn rm m ws d,
  (set_reg_self rd _ m.regs h ∙ e, (λ k ne no₈. set_reg_ne rd _ k m.regs ne), refl),
)

module _ (ra rb : ℕ) (m : Machine) (ws : List ℕ) (ha : ra < 31) (hb : rb < 31) where
  abbrev a : ℕ
  a = m.regs ra

  abbrev b : ℕ
  b = m.regs rb

  at_a : reg m ra ≡ m.regs ra
  at_a = reg_lem m ra ha

  at_b : reg m rb ≡ m.regs rb
  at_b = reg_lem m rb hb

  wa : ra < 32
  wa = omega arith

  wb : rb < 32
  wb = omega arith

  rem-Puts :
      ra ≢ 8 → rb ≢ 8 → Puts (arith_words Arith.rem ra rb) ra (arith_value Arith.rem a b) m ws
  unfolding arith_words exec alu_value
  rem-Puts na nb =
      let q = signed_div (reg m ra) (reg m rb) in
      let m₁ : Machine = put_reg 8 q m in
      let v = word_sub (reg m₁ ra) (word_mul (reg m₁ 8) (reg m₁ rb)) in
      let still_a : reg m₁ ra ≡ a = ground arith in
      let still_b : reg m₁ rb ≡ b = ground arith in
      let quotient : reg m₁ 8 ≡ signed_div a b = ap₂ signed_div at_a at_b in
      (
        put_reg ra v m₁,
        (run-alu (a64_sdiv_x 8 ra rb) Alu.sdiv 8 ra rb m (a64_msub_x ra 8 rb ra ∷ ws)
              (decode-a64_sdiv_x 8 ra rb (omega arith) wa wb)
            ∙ run-step (a64_msub_x ra 8 rb ra) (Insn.msub ra 8 rb ra) m₁ (put_reg ra v m₁) ws
                (decode-a64_msub_x ra 8 rb wa (omega arith) wb ra wa) refl refl),
        (
          set_reg_self ra v m₁.regs ha ∙ ap₂ word_sub still_a (ap₂ word_mul quotient still_b),
          (λ k ne no₈. set_reg_ne ra v k m₁.regs ne ∙ set_reg_ne 8 q k m.regs no₈),
          refl,
        ),
      )

  pub arith-Puts :
      (o : Arith) → ra ≢ 8 → rb ≢ 8 → Puts (arith_words o ra rb) ra (arith_value o a b) m ws
  unfolding arith_words alu_value
  arith-Puts Arith.add na nb =
      one-alu _ Alu.add ra ra rb _ m ws (decode-a64_add_x_reg ra ra rb wa wa wb) ha
        (rw (at_a, at_b) refl)
  arith-Puts Arith.sub na nb =
      one-alu _ Alu.sub ra ra rb _ m ws (decode-a64_sub_x_reg ra ra rb wa wa wb) ha
        (rw (at_a, at_b) refl)
  arith-Puts Arith.mul na nb =
      one-alu _ Alu.mul ra ra rb _ m ws (decode-a64_mul_x ra ra rb wa wa wb) ha
        (rw (at_a, at_b) refl)
  arith-Puts Arith.div na nb =
      one-alu _ Alu.sdiv ra ra rb _ m ws (decode-a64_sdiv_x ra ra rb wa wa wb) ha
        (rw (at_a, at_b) refl)
  arith-Puts Arith.rem na nb = rem-Puts na nb
  arith-Puts Arith.and na nb =
      one-alu _ Alu.and ra ra rb _ m ws (decode-a64_and_x ra ra rb wa wa wb) ha
        (rw (at_a, at_b) refl)
  arith-Puts Arith.or na nb =
      one-alu _ Alu.orr ra ra rb _ m ws (decode-a64_orr_x ra ra rb wa wa wb) ha
        (rw (at_a, at_b) refl)
  arith-Puts Arith.xor na nb =
      one-alu _ Alu.eor ra ra rb _ m ws (decode-a64_eor_x ra ra rb wa wa wb) ha
        (rw (at_a, at_b) refl)
  arith-Puts Arith.shl na nb =
      one-alu _ Alu.lslv ra ra rb _ m ws (decode-a64_lslv_x ra ra rb wa wa wb) ha
        (rw (at_a, at_b) refl)
  arith-Puts Arith.shr na nb =
      one-alu _ Alu.lsrv ra ra rb _ m ws (decode-a64_lsrv_x ra ra rb wa wa wb) ha
        (rw (at_a, at_b) refl)
  arith-Puts Arith.asr na nb =
      one-alu _ Alu.asrv ra ra rb _ m ws (decode-a64_asrv_x ra ra rb wa wa wb) ha
        (rw (at_a, at_b) refl)

  -- A CSET puts in 1 where the opposite condition fails.
  passes-opposite : (o : Compare) → passes (opposite o) (a, b) ≡ not (compares o a b)
  passes-opposite Compare.eq = refl
  passes-opposite Compare.ne = ground arith
  passes-opposite Compare.lt = refl
  passes-opposite Compare.le = ground arith
  passes-opposite Compare.gt = refl
  passes-opposite Compare.ge = ground arith

  pub mov-Puts : Puts (a64_mov_x ra rb ∷ []) ra b m ws
  unfolding alu_value
  mov-Puts = one-alu _ Alu.orr ra 31 rb b m ws (decode-a64_mov_x ra rb wa wb) ha (
      ap (λ (t : ℕ). bit_or 0 t) (at_b ∙ omega arith)
      ∙ bit_or-shifted 0 0 b (omega arith)
      ∙ omega arith)

  pub neg-Puts : Puts (a64_neg_x ra ra ∷ []) ra (word_sub 0 a) m ws
  unfolding alu_value a64_neg_x
  neg-Puts =
      one-alu _ Alu.sub ra 31 ra _ m ws (decode-a64_sub_x_reg ra 31 ra wa (omega arith) wa) ha
        (ap (λ (t : ℕ). word_sub 0 t) at_a)

  pub compare-Puts :
      (o : Compare)
      → Puts (a64_cmp_x ra rb ∷ (cset o ra ∷ [])) ra (if compares o a b then 1 else 0) m ws
  unfolding alu_value
  compare-Puts o =
      let m₁ : Machine =
        put_reg 31 (word_sub (reg m ra) (reg m rb)) (record m { flags = (reg m ra, reg m rb) }) in
      let flags : m₁.flags ≡ (a, b) = ap₂ (λ (x y : ℕ). (x, y)) at_a at_b in
      let v : ℕ = if passes (opposite o) m₁.flags then 0 else word_add 0 1 in
      let value : v ≡ (if compares o a b then 1 else 0) =
        (ap (λ (f : ℕ × ℕ). if passes (opposite o) f then 0 else word_add 0 1) flags
          ∙ elim (Bool-cases (compares o a b)) [
            | inl e ↦ rw (passes-opposite o, e) refl
            | inr e ↦ rw (passes-opposite o, e) refl
          ]) in
      (
        put_reg ra v m₁,
        (run-alu (a64_cmp_x ra rb) Alu.subs 31 ra rb m (cset o ra ∷ ws)
              (decode-a64_cmp_x ra rb wa wb)
            ∙ run-alu (cset o ra) (Alu.csinc (opposite o)) ra 31 31 m₁ ws (decode-cset o ra wa)),
        (
          set_reg_self ra v m₁.regs ha ∙ value,
          (λ k ne no₈.
              set_reg_ne ra v k m₁.regs ne
              ∙ set_reg_zero (word_sub (reg m ra) (reg m rb)) k m.regs),
          refl,
        ),
      )

-- The words of HC_SWAP.
abbrev pub swap_words : ℕ → ℕ → List ℕ
swap_words ra rb = a64_mov_x 16 ra ∷ (a64_mov_x ra rb ∷ (a64_mov_x rb 16 ∷ []))

pub run-swap_words :
    (ra rb : ℕ) (m : Machine) (ws : List ℕ)
    → ra < 16
    → rb < 16
    → 8 < ra
    → 8 < rb
    → ra ≢ rb
    → (m' : Machine) × (run (swap_words ra rb ++ ws) m ≡ run ws m')
      × ((m'.regs ra ≡ m.regs rb)
          × (m'.regs rb ≡ m.regs ra)
          × ((k : ℕ) → k ≢ ra → k ≢ rb → k ≢ 16 → k ≢ 8 → m'.regs k ≡ m.regs k))
      × (m'.frames ≡ m.frames)
run-swap_words ra rb m ws la lb ga gb ne =
    let (m₁, ran₁, (to₁, same₁, frames₁)) =
      mov-Puts 16 ra m (a64_mov_x ra rb ∷ (a64_mov_x rb 16 ∷ ws)) (omega arith) (omega arith) in
    let (m₂, ran₂, (to₂, same₂, frames₂)) =
      mov-Puts ra rb m₁ (a64_mov_x rb 16 ∷ ws) (omega arith) (omega arith) in
    let (m₃, ran₃, (to₃, same₃, frames₃)) = mov-Puts rb 16 m₂ ws (omega arith) (omega arith) in
    (
      m₃,
      ran₁ ∙ ran₂ ∙ ran₃,
      (
        same₃ ra ne (omega arith) ∙ to₂ ∙ same₁ rb (omega arith) (omega arith),
        to₃ ∙ same₂ 16 (omega arith) (omega arith) ∙ to₁,
        (λ k na nb n₁₆ n₈. same₃ k nb n₈ ∙ same₂ k na n₈ ∙ same₁ k n₁₆ n₈),
      ),
      frames₃ ∙ frames₂ ∙ frames₁,
    )
