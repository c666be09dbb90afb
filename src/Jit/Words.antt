-- ===== src/Jit/Words.antt =====
-- 64-bit arithmetic, as C and the processor have it: a value is its bits.
use zealos_aarch64_bringup.Base.{
  ℕ, ◌+◌, ◌-◌, ◌*◌, ◌/◌, ◌%◌, ◌^◌, Bool, not, ltb, ◌==◌, if◌then◌else◌,
}

abbrev pub word_add : ℕ → ℕ → ℕ
word_add a b = (a + b) % 2 ^ 64

abbrev pub word_sub : ℕ → ℕ → ℕ
word_sub a b = (a + 2 ^ 64 - b % 2 ^ 64) % 2 ^ 64

abbrev pub word_mul : ℕ → ℕ → ℕ
word_mul a b = a * b % 2 ^ 64

abbrev pub is_negative : ℕ → Bool
is_negative a = not (ltb a (2 ^ 63))

abbrev pub magnitude : ℕ → ℕ
magnitude a = if is_negative a then word_sub 0 a else a

abbrev same_sign : ℕ → ℕ → Bool
same_sign a b = if is_negative a then is_negative b else not (is_negative b)

-- The signed quotient, towards zero; 0 where the divisor is 0.
abbrev pub signed_div : ℕ → ℕ → ℕ
signed_div a b =
    if b == 0
    then 0
    else if same_sign a b
    then magnitude a / magnitude b % 2 ^ 64
    else word_sub 0 (magnitude a / magnitude b)

abbrev pub signed_lt : ℕ → ℕ → Bool
signed_lt a b = ltb ((a + 2 ^ 63) % 2 ^ 64) ((b + 2 ^ 63) % 2 ^ 64)

-- Shifts by the low six bits of the count.
abbrev pub shift_left : ℕ → ℕ → ℕ
shift_left a b = a * 2 ^ (b % 64) % 2 ^ 64

abbrev pub shift_right : ℕ → ℕ → ℕ
shift_right a b = a / 2 ^ (b % 64)

abbrev pub shift_right_signed : ℕ → ℕ → ℕ
shift_right_signed a b =
    if is_negative a then 2 ^ 64 - 1 - (2 ^ 64 - 1 - a) / 2 ^ (b % 64) else a / 2 ^ (b % 64)
