-- ===== src/Editor/Text/Move.antt =====
-- The two copy loops of src/zc_source_editor.h move the tail whole, whichever way the parts overlap.
use zealos_aarch64_bringup.Base.{
  ℕ, zero, suc, ◌+◌, ◌-◌, ◌≤◌, ◌≡◌, inl, inr, arith, ltb, ◌&&◌, leb, if◌then◌else◌, Bool-cases,
}
use zealos_aarch64_bringup.Store.Bytes.{set_byte}
use zealos_aarch64_bringup.Editor.Text.{Buffer, move_up, move_down, move_tail}

-- The byte at `j` once `n` bytes went from `s` to `d`.
abbrev pub moved_byte : Buffer → ℕ → ℕ → ℕ → ℕ → ℕ
moved_byte t d s n j = if leb d j && ltb j (d + n) then t (s + (j - d)) else t j

move_up_lem : (t : Buffer) (d s n j : ℕ) → s ≤ d → move_up t d s n j ≡ moved_byte t d s n j
unfolding move_up
move_up_lem t d s zero j le = ground arith
move_up_lem t d s (suc n) j le =
    ground (arith, move_up_lem (set_byte t (d + n) (t (s + n))) d s n j)

pub move_down_lem : (t : Buffer) (d s n j : ℕ) → d ≤ s → move_down t d s n j ≡ moved_byte t d s n j
unfolding move_down
move_down_lem t d s zero j le = ground arith
move_down_lem t d s (suc n) j le =
    ground (arith, move_down_lem (set_byte t d (t s)) (d + 1) (s + 1) n j)

pub move_tail_lem : (t : Buffer) (d s n j : ℕ) → move_tail t d s n j ≡ moved_byte t d s n j
unfolding move_tail
move_tail_lem t d s n j = elim (Bool-cases (ltb s d)) [
  | inl up ↦ rw up (move_up_lem t d s n j (ground arith))
  | inr down ↦ rw down (move_down_lem t d s n j (ground arith))
]
