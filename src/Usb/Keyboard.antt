-- ===== src/Usb/Keyboard.antt =====
-- The decoding of boot reports in src/pi4_usb_keyboard.h: pi4_usb_keyboard_has and
-- pi4_usb_keyboard_decode. The calls of `emit` are a list of events.
pub mod Held
use zealos_aarch64_bringup.Base.{
  ℕ, zero, suc, ◌+◌, ◌^◌, Bool, true, false, not, ◌&&◌, ◌||◌, List, [], ◌∷◌, ◌++◌, bit_and, bit_xor,
  ltb, ◌==◌, if◌then◌else◌,
}
use zealos_aarch64_bringup.Store.Bytes.{read_bytes}

-- A report, or `previous`: the byte at each offset.
abbrev pub Report : Type 0
Report = ℕ → ℕ

-- `emit(usage, down)`
abbrev pub Event : Type 0
Event = ℕ × Bool

unfoldable pub has_usage : List ℕ → ℕ → Bool
has_usage [] usage = false
has_usage (r ∷ rs) usage = let rest = has_usage rs usage in if r == usage then true else rest

-- The bytes 2 to 7.
abbrev pub keys : Report → List ℕ
keys report = read_bytes report 2 6

-- pi4_usb_keyboard_has
unfoldable pub has : Report → ℕ → Bool
has report usage = has_usage (keys report) usage

-- `if (report[i] && report[i] < 4u) return 0;`
unfoldable pub is_rollover : List ℕ → Bool
is_rollover [] = false
is_rollover (r ∷ rs) = let rest = is_rollover rs in if not (r == 0) && ltb r 4 then true else rest

-- The loop over one report, with the bytes before `i` in `earlier`: what the other report does not
-- have is emitted once.
unfoldable pub changes : List ℕ → List ℕ → Report → Bool → List Event
changes earlier [] other down = []
changes earlier (u ∷ us) other down =
    let rest = changes (u ∷ earlier) us other down in
    if not (u == 0) && not (has_usage earlier u) && not (has other u)
    then (u, down) ∷ rest
    else rest

-- `(report[0] ^ previous[0]) & (1u << i)` for `n` bits from `i` on
unfoldable pub modifiers : ℕ → ℕ → ℕ → ℕ → List Event
modifiers zero i now before = []
modifiers (suc n) i now before =
    let rest = modifiers n (i + 1) now before in
    if bit_and (bit_xor now before) (2 ^ i) == 0
    then rest
    else (224 + i, not (bit_and now (2 ^ i) == 0)) ∷ rest

-- 1, 0 and -1, with `previous` and the events.
pub data KeyReport : Type 0 where
  decoded : Report → List Event → KeyReport
  rollover : KeyReport
  refused : KeyReport

-- pi4_usb_keyboard_decode: releases, modifiers, presses; of the new `previous` bytes 0 to 7 count.
unfoldable pub keyboard_decode : Report → Report → ℕ → KeyReport
keyboard_decode previous report bytes =
    if not (bytes == 8)
    then KeyReport.refused
    else if is_rollover (keys report)
    then KeyReport.rollover
    else KeyReport.decoded report (
        changes [] (keys previous) report false
        ++ (modifiers 8 0 (report 0) (previous 0) ++ changes [] (keys report) previous true))
