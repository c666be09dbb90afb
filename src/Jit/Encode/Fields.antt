-- ===== src/Jit/Encode/Fields.antt =====
-- The operands in an instruction word of src/a64_emit.h: `|` of a free field is a sum.
use zealos_aarch64_bringup.Base.{
  ℕ, zero, suc, ◌+◌, ◌*◌, ◌/◌, ◌%◌, ◌^◌, ◌<◌, ◌≡◌, bit_or, bit_or_high, bit_or-halves, ap, ap₂, sym,
  ◌∙◌, arith,
}
use native.Mathlib.Nat.{pow-suc}
use zealos_aarch64_bringup.Jit.Encode.{with_rd, with_rn, with_rm, regs3}

double : (q k : ℕ) → q * 2 ^ suc k ≡ 2 * (q * 2 ^ k)
double q k = omega (arith, ap (λ (t : ℕ). q * t) (pow-suc 2 k))

-- A field of `w` bits that is free between the bits above and `lo` below.
bit_or_field :
    (k w hi lo v : ℕ)
    → lo < 2 ^ k
    → v < 2 ^ w
    → bit_or (hi * 2 ^ w * 2 ^ k + lo) (v * 2 ^ k) ≡ (hi * 2 ^ w + v) * 2 ^ k + lo
bit_or_field zero w hi zero v low fits =
    let left : hi * 2 ^ w * 2 ^ 0 + 0 ≡ hi * 2 ^ w = omega arith in
    let right : v * 2 ^ 0 ≡ v = omega arith in
    ap₂ bit_or left right ∙ bit_or_high w hi v fits ∙ omega arith
bit_or_field zero w hi (suc lo) v low fits = absurd (omega arith)
bit_or_field (suc k) w hi lo v low fits = ground (
  arith,
  bit_or-halves (hi * 2 ^ w * 2 ^ suc k + lo) (v * 2 ^ suc k),
  double (hi * 2 ^ w) k,
  double v k,
  double (hi * 2 ^ w + v) k,
  pow-suc 2 k,
  bit_or_field k w hi (lo / 2) v (omega (arith, pow-suc 2 k)) fits,
)

-- The same at a word and a place that are known.
abbrev pub IsFree : ℕ → ℕ → ℕ → Type 0
IsFree k w c = c ≡ c / 2 ^ (k + w) * 2 ^ w * 2 ^ k + c % 2 ^ k

pub bit_or_free :
    (k w c v : ℕ)
    → IsFree k w c
    → c % 2 ^ k < 2 ^ k
    → v < 2 ^ w
    → bit_or c (v * 2 ^ k) ≡ c + v * 2 ^ k
bit_or_free k w c v free low fits =
    ap (λ (t : ℕ). bit_or t (v * 2 ^ k)) free
    ∙ bit_or_field k w (c / 2 ^ (k + w)) (c % 2 ^ k) v low fits
    ∙ grind arith

pub with_rm-free : (c r : ℕ) → c / 2 ^ 16 % 32 ≡ 0 → with_rm c r ≡ c + r % 32 * 2 ^ 16
with_rm-free c r free = bit_or_free 16 5 c (r % 32) (omega arith) (omega arith) (omega arith)

pub with_rn-free : (c r : ℕ) → c / 2 ^ 5 % 32 ≡ 0 → with_rn c r ≡ c + r % 32 * 2 ^ 5
with_rn-free c r free = bit_or_free 5 5 c (r % 32) (omega arith) (omega arith) (omega arith)

pub with_rd-free : (c r : ℕ) → c % 32 ≡ 0 → with_rd c r ≡ c + r % 32
with_rd-free c r free =
    let at_top : c / 32 * 32 ≡ c = omega arith in
    ap (λ (t : ℕ). with_rd t r) (sym at_top)
    ∙ bit_or_high 5 (c / 32) (r % 32) (omega arith)
    ∙ omega arith

-- A word of three operands, and its parts.
pub regs3-sum :
    (c rd rn rm : ℕ)
    → c % 2 ^ 10 ≡ 0
    → c / 2 ^ 16 % 32 ≡ 0
    → regs3 c rd rn rm ≡ c + rm % 32 * 2 ^ 16 + rn % 32 * 2 ^ 5 + rd % 32
regs3-sum c rd rn rm low high =
    ap (λ (t : ℕ). with_rd (with_rn t rn) rd) (with_rm-free c rm high)
    ∙ ap (λ (t : ℕ). with_rd t rd) (with_rn-free (c + rm % 32 * 2 ^ 16) rn (omega arith))
    ∙ with_rd-free (c + rm % 32 * 2 ^ 16 + rn % 32 * 2 ^ 5) rd (omega arith)
