-- ===== src/Jit/Ir/Frame.antt =====
-- What the words at both ends of the code of hc_ir_compile, src/hc_ir.h, save and give back.
use zealos_aarch64_bringup.Base.{ℕ, ◌<◌, ◌≡◌, refl, ◌∙◌, arith, some, List, ◌∷◌, ◌++◌}
use zealos_aarch64_bringup.Jit.Compile.{minus16}
use zealos_aarch64_bringup.Jit.Calls.{epilogue}
use zealos_aarch64_bringup.Jit.Step.{prologue}
use zealos_aarch64_bringup.Jit.Encode.{a64_ldp_post, a64_ret, a64_stp_pre}
use zealos_aarch64_bringup.Jit.Encode.Constants.{decode-a64_ret}
use zealos_aarch64_bringup.Jit.Encode.Decoding.{decode-push, decode-pop}
use zealos_aarch64_bringup.Jit.Machine.{Insn, Machine, exec, put_reg, reg, run}
use zealos_aarch64_bringup.Jit.Machine.Run.{run-step}

run-push :
    (rt rt2 : ℕ) (m : Machine) (ws : List ℕ)
    → rt < 32
    → rt2 < 32
    → run (a64_stp_pre rt rt2 31 minus16 ∷ ws) m
      ≡ run ws (record m { frames = (reg m rt, reg m rt2) ∷ m.frames })
unfolding exec
run-push rt rt2 m ws h h2 =
    run-step (a64_stp_pre rt rt2 31 minus16) (Insn.push rt rt2) m _ ws (decode-push rt rt2 h h2)
      refl refl

run-pop :
    (rt rt2 x y : ℕ) (fs : List (ℕ × ℕ)) (m : Machine) (ws : List ℕ)
    → rt < 32
    → rt2 < 32
    → m.frames ≡ (x, y) ∷ fs
    → run (a64_ldp_post rt rt2 31 16 ∷ ws) m
      ≡ run ws (put_reg rt2 y (put_reg rt x (record m { frames = fs })))
unfolding exec
run-pop rt rt2 x y fs m ws h h2 e =
    run-step (a64_ldp_post rt rt2 31 16) (Insn.pop rt rt2) m
      (put_reg rt2 y (put_reg rt x (record m { frames = fs }))) ws (decode-pop rt rt2 h h2) refl
      (ground arith)

run-ret : (ws : List ℕ) (m : Machine) → run (a64_ret ∷ ws) m ≡ some m
unfolding run
run-ret ws m = rw (run, decode-a64_ret) refl

-- The machine behind the prologue.
abbrev pub saved : Machine → List (ℕ × ℕ)
saved m = (m.regs 30, 0) ∷ ((m.regs 22, m.regs 23) ∷ ((m.regs 20, m.regs 21) ∷ m.frames))

pub run-prologue :
    (m : Machine) (ws : List ℕ) → run (prologue ++ ws) m ≡ run ws (record m { frames = saved m })
run-prologue m ws =
    run-push 20 21 m _ (omega arith) (omega arith)
    ∙ run-push 22 23 _ _ (omega arith) (omega arith)
    ∙ run-push 30 31 _ ws (omega arith) (omega arith)

-- The registers that a caller counts on, and the memory below.
abbrev pub Kept : Machine → Machine → Type 0
Kept m m' =
    (m'.regs 20 ≡ m.regs 20)
    × (m'.regs 21 ≡ m.regs 21)
    × (m'.regs 22 ≡ m.regs 22)
    × (m'.regs 23 ≡ m.regs 23)
    × (m'.regs 30 ≡ m.regs 30)
    × (m'.frames ≡ m.frames)

pub run-epilogue :
    (m m' : Machine) (ws : List ℕ)
    → m'.frames ≡ saved m
    → (m'' : Machine) × (run (epilogue ++ ws) m' ≡ some m'') × (m''.regs 0 ≡ m'.regs 0) × Kept m m''
run-epilogue m m' ws e =
    let m₁ = put_reg 31 0 (
      put_reg 30 (m.regs 30)
        (record m' { frames = (m.regs 22, m.regs 23) ∷ ((m.regs 20, m.regs 21) ∷ m.frames) })) in
    let m₂ =
      put_reg 23 (m.regs 23)
        (put_reg 22 (m.regs 22) (record m₁ { frames = (m.regs 20, m.regs 21) ∷ m.frames })) in
    let m₃ = put_reg 21 (m.regs 21) (put_reg 20 (m.regs 20) (record m₂ { frames = m.frames })) in
    (
      m₃,
      (run-pop 30 31 (m.regs 30) 0 _ m' _ (omega arith) (omega arith) e
          ∙ run-pop 22 23 (m.regs 22) (m.regs 23) _ m₁ _ (omega arith) (omega arith) refl
          ∙ run-pop 20 21 (m.regs 20) (m.regs 21) m.frames m₂ (a64_ret ∷ ws) (omega arith)
              (omega arith) refl
          ∙ run-ret ws m₃),
      refl,
      (refl, refl, refl, refl, refl, refl),
    )
