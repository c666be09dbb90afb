-- ===== src/Jit/Ir/Emission.antt =====
-- The words that hc_ir_compile, src/hc_ir.h, puts out for the bytecode of Jit/Ir.
use zealos_aarch64_bringup.Base.{
  ℕ, ◌+◌, ◌-◌, ◌^◌, ◌≤◌, ◌<◌, ◌≡◌, refl, sym, ap, ◌∙◌, arith, false, ◌||◌, some, List, [], ◌∷◌,
  ◌++◌, append-nil, append_assoc, ltb, leb, length, length-append,
}
use zealos_aarch64_bringup.Jit.Result.{ok}
use zealos_aarch64_bringup.Jit.Ops.{Arith, Compare, Op, op_of}
use zealos_aarch64_bringup.Jit.Encode.{a64_cmp_x, a64_emit_imm64, a64_mov_x, a64_neg_x}
use zealos_aarch64_bringup.Jit.Compile.{
  Places, Gen, more_code, emit, emits, emit_block, local_reg, reg_at,
}
use zealos_aarch64_bringup.Jit.Stack.{
  arith_words, cset, gen_arith, gen_compare, gen_drop, gen_dup, gen_imm64, gen_ld_local,
  gen_st_local, gen_swap, take_byte,
}
use zealos_aarch64_bringup.Jit.Step.{step}
use zealos_aarch64_bringup.Jit.Pack.{le_bytes, read_u64-le_bytes}
use zealos_aarch64_bringup.Jit.Ir.{Instr, deepest, arith_code, compare_code}

-- The words for an instruction on a stack of `n` values, and the size of the stack behind it.
abbrev pub words_of : Instr → ℕ → List ℕ
words_of (Instr.imm v) n = a64_emit_imm64 (reg_at n) v
words_of (Instr.arith o) n = arith_words o (reg_at (n - 2)) (reg_at (n - 1))
words_of (Instr.compare o) n =
    a64_cmp_x (reg_at (n - 2)) (reg_at (n - 1)) ∷ (cset o (reg_at (n - 2)) ∷ [])
words_of Instr.neg n = a64_neg_x (reg_at (n - 1)) (reg_at (n - 1)) ∷ []
words_of Instr.dup n = a64_mov_x (reg_at n) (reg_at (n - 1)) ∷ []
words_of Instr.swap n =
    a64_mov_x 16 (reg_at (n - 2))
    ∷ (a64_mov_x (reg_at (n - 2)) (reg_at (n - 1)) ∷ (a64_mov_x (reg_at (n - 1)) 16 ∷ []))
words_of Instr.drop n = []
words_of (Instr.st_local slot) n = a64_mov_x (local_reg slot) (reg_at (n - 1)) ∷ []
words_of (Instr.ld_local slot) n = a64_mov_x (reg_at n) (local_reg slot) ∷ []

pub emits-ok :
    (cap : ℕ) (ws : List ℕ) (g : Gen)
    → length g.code + length ws ≤ cap
    → emits cap ws g ≡ ok (more_code ws g)
unfolding emits emit
emits-ok cap [] g room = ap (λ (c : List ℕ). ok (record g { code = c })) (sym (append-nil g.code))
emits-ok cap (w ∷ ws) g room =
    let space : leb cap (length g.code) ≡ false = ground arith in
    let step : emits cap (w ∷ ws) g ≡ emits cap ws (more_code (w ∷ []) g) = rw space refl in
    step
    ∙ emits-ok cap ws (more_code (w ∷ []) g) (omega (arith, length-append g.code (w ∷ [])))
    ∙ ap (λ (c : List ℕ). ok (record g { code = c })) (append_assoc g.code (w ∷ []) ws)

pub emit_block-ok :
    (cap need : ℕ) (ws : List ℕ) (g : Gen)
    → length g.code + need ≤ cap
    → emit_block cap need ws g ≡ ok (more_code ws g)
unfolding emit_block
emit_block-ok cap need ws g room = ground arith

pub emit-ok : (cap w : ℕ) (g : Gen) → length g.code < cap → emit cap w g ≡ ok (more_code (w ∷ []) g)
unfolding emit
emit-ok cap w g room = ground arith

-- What an instruction asks of a stack of `n` values, and how many are on it afterwards.
abbrev pub Ready : Instr → ℕ → Type 0
Ready (Instr.imm v) n = (v < 2 ^ 64) × (n < deepest)
Ready (Instr.arith o) n = 2 ≤ n
Ready (Instr.compare o) n = 2 ≤ n
Ready Instr.neg n = 1 ≤ n
Ready Instr.dup n = (1 ≤ n) × (n < deepest)
Ready Instr.swap n = 2 ≤ n
Ready Instr.drop n = 1 ≤ n
Ready (Instr.st_local slot) n = (slot < 4) × (1 ≤ n)
Ready (Instr.ld_local slot) n = (slot < 4) × (n < deepest)

abbrev pub depth_after : Instr → ℕ → ℕ
depth_after (Instr.imm v) n = n + 1
depth_after (Instr.arith o) n = n - 1
depth_after (Instr.compare o) n = n - 1
depth_after Instr.neg n = n
depth_after Instr.dup n = n + 1
depth_after Instr.swap n = n
depth_after Instr.drop n = n - 1
depth_after (Instr.st_local slot) n = n - 1
depth_after (Instr.ld_local slot) n = n + 1

abbrev pub after : Instr → Gen → Gen
after i g = record g { code = g.code ++ words_of i g.sp; sp = depth_after i g.sp }

pub op_of-arith : (o : Arith) → op_of (arith_code o) ≡ some (Op.arith o)
unfolding op_of
op_of-arith Arith.add = refl
op_of-arith Arith.sub = refl
op_of-arith Arith.mul = refl
op_of-arith Arith.div = refl
op_of-arith Arith.rem = refl
op_of-arith Arith.and = refl
op_of-arith Arith.or = refl
op_of-arith Arith.xor = refl
op_of-arith Arith.shl = refl
op_of-arith Arith.shr = refl
op_of-arith Arith.asr = refl

pub op_of-compare : (o : Compare) → op_of (compare_code o) ≡ some (Op.compare o)
unfolding op_of
op_of-compare Compare.eq = refl
op_of-compare Compare.ne = refl
op_of-compare Compare.lt = refl
op_of-compare Compare.le = refl
op_of-compare Compare.gt = refl
op_of-compare Compare.ge = refl

pub arith_words-short : (o : Arith) (ra rb : ℕ) → length (arith_words o ra rb) ≤ 2
unfolding arith_words
arith_words-short Arith.add ra rb = omega arith
arith_words-short Arith.sub ra rb = omega arith
arith_words-short Arith.mul ra rb = omega arith
arith_words-short Arith.div ra rb = omega arith
arith_words-short Arith.rem ra rb = omega arith
arith_words-short Arith.and ra rb = omega arith
arith_words-short Arith.or ra rb = omega arith
arith_words-short Arith.xor ra rb = omega arith
arith_words-short Arith.shl ra rb = omega arith
arith_words-short Arith.shr ra rb = omega arith
arith_words-short Arith.asr ra rb = omega arith

-- One round of the switch.
module _ (at : Places) (cap : ℕ) (rest : List ℕ) (g : Gen) (room : length g.code + 4 ≤ cap) where
  pub step-imm :
      (v : ℕ)
      → Ready (Instr.imm v) g.sp
      → step at cap Op.imm64 (le_bytes v ++ rest) g ≡ ok (rest, after (Instr.imm v) g)
  unfolding step gen_imm64
  step-imm v (fits, shallow) =
      let not_deep : leb 16 g.sp ≡ false = ground arith in
      rw
        (
          gen_imm64,
          read_u64-le_bytes v rest fits,
          not_deep,
          emit_block-ok cap 4 (a64_emit_imm64 (reg_at g.sp) v) g room,
        )
        refl

  pub step-arith :
      (o : Arith) → 2 ≤ g.sp → step at cap (Op.arith o) rest g ≡ ok (rest, after (Instr.arith o) g)
  unfolding step gen_arith
  step-arith o two =
      let enough : ltb g.sp 2 ≡ false = ground arith in
      rw
        (
          enough,
          emits-ok cap (arith_words o (reg_at (g.sp - 2)) (reg_at (g.sp - 1))) g
              (omega (arith, arith_words-short o (reg_at (g.sp - 2)) (reg_at (g.sp - 1)))),
        )
        refl

  pub step-compare :
      (o : Compare)
      → 2 ≤ g.sp
      → step at cap (Op.compare o) rest g ≡ ok (rest, after (Instr.compare o) g)
  unfolding step gen_compare
  step-compare o two =
      let enough : ltb g.sp 2 ≡ false = ground arith in
      rw (enough, emits-ok cap (words_of (Instr.compare o) g.sp) g (omega arith)) refl

  pub step-neg : 1 ≤ g.sp → step at cap Op.neg rest g ≡ ok (rest, after Instr.neg g)
  unfolding step
  step-neg one =
      let enough : ltb g.sp 1 ≡ false = ground arith in
      rw (enough, emits-ok cap (words_of Instr.neg g.sp) g (omega arith)) refl

  pub step-dup : Ready Instr.dup g.sp → step at cap Op.dup rest g ≡ ok (rest, after Instr.dup g)
  unfolding step gen_dup
  step-dup (one, shallow) =
      let open_end : (ltb g.sp 1 || leb 16 g.sp) ≡ false = ground arith in
      rw (open_end, emit-ok cap (a64_mov_x (reg_at g.sp) (reg_at (g.sp - 1))) g (omega arith)) refl

  pub step-swap : 2 ≤ g.sp → step at cap Op.swap rest g ≡ ok (rest, after Instr.swap g)
  unfolding step gen_swap
  step-swap two =
      let enough : ltb g.sp 2 ≡ false = ground arith in
      rw (enough, emits-ok cap (words_of Instr.swap g.sp) g (omega arith)) refl

  pub step-drop : 1 ≤ g.sp → step at cap Op.drop rest g ≡ ok (rest, after Instr.drop g)
  unfolding step gen_drop
  step-drop one =
      let enough : ltb g.sp 1 ≡ false = ground arith in
      rw enough (
        ap (λ (c : List ℕ). ok (rest, record g { code = c; sp = g.sp - 1 }))
          (sym (append-nil g.code)))

  pub step-st_local :
      (slot : ℕ)
      → Ready (Instr.st_local slot) g.sp
      → step at cap Op.st_local (slot ∷ rest) g ≡ ok (rest, after (Instr.st_local slot) g)
  unfolding step gen_st_local take_byte
  step-st_local slot (inside, one) =
      let fine : (leb 4 slot || ltb g.sp 1) ≡ false = ground arith in
      rw (fine, emit-ok cap (a64_mov_x (local_reg slot) (reg_at (g.sp - 1))) g (omega arith)) refl

  pub step-ld_local :
      (slot : ℕ)
      → Ready (Instr.ld_local slot) g.sp
      → step at cap Op.ld_local (slot ∷ rest) g ≡ ok (rest, after (Instr.ld_local slot) g)
  unfolding step gen_ld_local take_byte
  step-ld_local slot (inside, shallow) =
      let fine : (leb 4 slot || leb 16 g.sp) ≡ false = ground arith in
      rw (fine, emit-ok cap (a64_mov_x (reg_at g.sp) (local_reg slot)) g (omega arith)) refl
