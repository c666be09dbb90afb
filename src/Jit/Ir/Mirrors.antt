-- ===== src/Jit/Ir/Mirrors.antt =====
-- The registers that keep the stack and the locals of Jit/Ir, src/hc_ir.h.
use zealos_aarch64_bringup.Base.{ℕ, ◌+◌, ◌≤◌, ◌<◌, ◌≡◌, ◌∙◌, arith, List, [], ◌∷◌, ◌++◌, length}
use zealos_aarch64_bringup.Jit.Machine.{Machine, run}
use zealos_aarch64_bringup.Jit.Ir.{deepest}
use zealos_aarch64_bringup.Jit.Ir.Steps.{Writes, Puts}

-- x9 and up hold the values from the bottom of the stack on.
abbrev pub Holds : (ℕ → ℕ) → List ℕ → Type 0
Holds regs [] = Unit {0}
Holds regs (v ∷ vs) = (regs (9 + length vs) ≡ v) × Holds regs vs

-- The registers hold the stack, and x20 to x23 the locals.
abbrev pub Mirrors : Machine → List ℕ → (ℕ → ℕ) → Type 0
Mirrors m vs ls =
    Holds m.regs vs × (length vs ≤ deepest) × ((k : ℕ) → k < 4 → m.regs (20 + k) ≡ ls k)

pub Holds-agree :
    (regs regs' : ℕ → ℕ) (vs : List ℕ)
    → ((k : ℕ) → k < length vs → regs' (9 + k) ≡ regs (9 + k))
    → Holds regs vs
    → Holds regs' vs
Holds-agree regs regs' [] same h = tt
Holds-agree regs regs' (v ∷ vs) same (top, rest) = (
  same (length vs) (omega arith) ∙ top,
  Holds-agree regs regs' vs (λ k lt. same k (omega arith)) rest,
)

-- The register above the values of `vs` is written.
push-Mirrors :
    (m m' : Machine) (v : ℕ) (vs : List ℕ) (ls : ℕ → ℕ)
    → Writes (9 + length vs) v m m'
    → length vs < deepest
    → Holds m.regs vs
    → ((k : ℕ) → k < 4 → m.regs (20 + k) ≡ ls k)
    → Mirrors m' (v ∷ vs) ls
push-Mirrors m m' v vs ls (top, same, frames) shallow held locals = (
  (top, Holds-agree m.regs m'.regs vs (λ k lt. same (9 + k) (omega arith) (omega arith)) held),
  omega arith,
  (λ k lt. same (20 + k) (omega arith) (omega arith) ∙ locals k lt),
)

-- The machine behind the words of an instruction.
abbrev pub Follows : List ℕ → Machine → List ℕ → (ℕ → ℕ) → List ℕ → Type 0
Follows words m vs ls ws =
    (m' : Machine) × (run (words ++ ws) m ≡ run ws m') × Mirrors m' vs ls × (m'.frames ≡ m.frames)

pub follow-push :
    (words : List ℕ) (m : Machine) (v : ℕ) (vs : List ℕ) (ls : ℕ → ℕ) (ws : List ℕ)
    → Puts words (9 + length vs) v m ws
    → length vs < deepest
    → Holds m.regs vs
    → ((k : ℕ) → k < 4 → m.regs (20 + k) ≡ ls k)
    → Follows words m (v ∷ vs) ls ws
follow-push words m v vs ls ws (m', ran, writes) shallow held locals =
    (m', ran, push-Mirrors m m' v vs ls writes shallow held locals, writes.2)
