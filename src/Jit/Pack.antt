-- ===== src/Jit/Pack.antt =====
-- The hc_pack_ functions of src/hc_ir.h, and what the compiler reads of what they write.
use zealos_aarch64_bringup.Base.{
  ℕ, zero, suc, ◌+◌, ◌*◌, ◌/◌, ◌%◌, ◌^◌, ◌<◌, ◌≡◌, refl, bit_or, bit_or-shifted, ap, sym, ◌∙◌,
  arith, some, get_or, List, [], ◌∷◌, ◌++◌, drop,
}
use native.Mathlib.Nat.{div-div-eq-div-mul, mod-add-div', mod-lt, pow-suc}
use native.Mathlib.Numerals.{towards_suc}
use zealos_aarch64_bringup.Jit.Result.{ok}
use zealos_aarch64_bringup.Jit.Ops.{Op, op_of}
use zealos_aarch64_bringup.Jit.Stack.{read_le, read_u64}

-- `(uint8_t)(v >> (8 * b))`, for `n` bytes from `b` on
abbrev pub bytes_from : ℕ → ℕ → ℕ → List ℕ
bytes_from zero b v = []
bytes_from (suc n) b v = v / 2 ^ (8 * b) % 256 ∷ bytes_from n (b + 1) v

abbrev pub le_bytes : ℕ → List ℕ
le_bytes v = bytes_from 8 0 v

-- hc_pack_imm64
unfoldable pub pack_imm64 : ℕ → List ℕ
pack_imm64 v = 1 ∷ le_bytes v

-- HC_CALL0 to HC_CALL7
abbrev pub call_code : ℕ → ℕ
call_code argc = get_or (5 ∷ (30 ∷ (31 ∷ (40 ∷ (41 ∷ (42 ∷ (47 ∷ []))))))) argc 64

-- hc_pack_call0 to hc_pack_call7
unfoldable pub pack_call : ℕ → ℕ → List ℕ
pack_call argc fn = call_code argc ∷ le_bytes fn

-- hc_pack_u8op
unfoldable pub pack_u8op : ℕ → ℕ → List ℕ
pack_u8op op a = op ∷ (a ∷ [])

mod_step : (v m : ℕ) → v % (m * 256) ≡ v % m + v / m % 256 * m
mod_step v m = grind (
  arith,
  mod-add-div' v m,
  mod-add-div' v (m * 256),
  div-div-eq-div-mul v m 256,
  ap (λ (t : ℕ). t * m) (mod-add-div' (v / m) 256),
)

pow_byte : (b : ℕ) → 2 ^ (8 * (b + 1)) ≡ 2 ^ (8 * b) * 256
pow_byte b = let e : 8 * (b + 1) ≡ 8 * b + 8 = omega arith in rw e (simp towards_suc (omega arith))

pow_pos : (k : ℕ) → 0 < 2 ^ k
pow_pos zero = omega arith
pow_pos (suc k) = omega (arith, pow-suc 2 k, pow_pos k)

-- Reading what was written, from byte `b` on.
read_le-bytes_from :
    (n b v : ℕ) (rest : List ℕ)
    → read_le n b (v % 2 ^ (8 * b)) (bytes_from n b v ++ rest) ≡ ok (v % 2 ^ (8 * (b + n)), rest)
unfolding read_le
read_le-bytes_from zero b v rest = ap (λ (t : ℕ). ok (v % 2 ^ (8 * t), rest)) (omega arith)
read_le-bytes_from (suc n) b v rest =
    let m = 2 ^ (8 * b) in
    let byte : bit_or (v % m) (v / m % 256 * m) ≡ v % 2 ^ (8 * (b + 1)) =
      bit_or-shifted (8 * b) (v % m) (v / m % 256) (mod-lt v (pow_pos (8 * b)))
      ∙ sym (mod_step v m)
      ∙ ap (λ (t : ℕ). v % t) (sym (pow_byte b)) in
    ap (λ (t : ℕ). read_le n (b + 1) t (bytes_from n (b + 1) v ++ rest)) byte
    ∙ read_le-bytes_from n (b + 1) v rest
    ∙ ap (λ (t : ℕ). ok (v % 2 ^ (8 * t), rest)) (omega arith)

-- A 64-bit number is read back.
pub read_u64-le_bytes :
    (v : ℕ) (rest : List ℕ) → v < 2 ^ 64 → read_u64 (le_bytes v ++ rest) ≡ ok (v, rest)
read_u64-le_bytes v rest fits =
    ap (λ (t : ℕ). read_le 8 0 t (le_bytes v ++ rest)) (omega arith)
    ∙ read_le-bytes_from 8 0 v rest
    ∙ ap (λ (t : ℕ). ok (t, rest)) (omega arith)

-- What the hc_pack_ functions of a number write begins with the byte of the operation that they
-- name, and the compiler reads the number back from the bytes behind it: HC_IMM64, and the calls
-- with at most seven arguments.
pub pack-read :
    (argc v : ℕ) (rest : List ℕ)
    → argc < 8
    → v < 2 ^ 64
    → (op_of (get_or (pack_call argc v) 0 0) ≡ some (Op.call argc))
      × (read_u64 (drop 1 (pack_call argc v) ++ rest) ≡ ok (v, rest))
      × (op_of (get_or (pack_imm64 v) 0 0) ≡ some Op.imm64)
      × (read_u64 (drop 1 (pack_imm64 v) ++ rest) ≡ ok (v, rest))
unfolding op_of pack_call pack_imm64
pack-read argc v rest h fits =
    (ground arith, read_u64-le_bytes v rest fits, refl, read_u64-le_bytes v rest fits)
