-- ===== src/Usb/Tests.antt =====
-- Reports of src/pi4_usb_keyboard.h, with the theorem on them at one.
use zealos_aarch64_bringup.Base.{ℕ, ◌≡◌, ◌≢◌, refl, arith, true, false, some, List, [], ◌∷◌}
use zealos_aarch64_bringup.Store.Bytes.{put_bytes, read_bytes}
use zealos_aarch64_bringup.Usb.Keyboard.{
  Report, Event, KeyReport, has_usage, keys, has, is_rollover, changes, modifiers, keyboard_decode,
}
use zealos_aarch64_bringup.Usb.Keyboard.Held.{follow, keyboard_decode-follow}

abbrev idle : Report
idle = λ i. 0

-- Shift with the keys 4 and 5, and then the keys 5 and 6.
abbrev two_keys : Report
two_keys = put_bytes idle 0 (2 ∷ 0 ∷ 4 ∷ 5 ∷ [])

abbrev next_keys : Report
next_keys = put_bytes idle 0 (0 ∷ 0 ∷ 5 ∷ 6 ∷ [])

abbrev events : List Event
events = (4, false) ∷ (225, false) ∷ (6, true) ∷ []

decodes : keyboard_decode two_keys next_keys 8 ≡ KeyReport.decoded next_keys events
unfolding keyboard_decode changes modifiers has has_usage is_rollover put_bytes read_bytes
decodes = refl

rolls_over : keyboard_decode two_keys (put_bytes idle 0 (0 ∷ 0 ∷ 1 ∷ 1 ∷ [])) 8 ≡ KeyReport.rollover
unfolding keyboard_decode is_rollover put_bytes read_bytes
rolls_over = refl

next_keys-fine : is_rollover (keys next_keys) ≡ false
unfolding is_rollover put_bytes read_bytes
next_keys-fine = refl

abbrev six : ℕ
six = 6

six_is_key : six ≢ 0
six_is_key = ground arith

keyboard_decode-follow_example :
    (es : List Event) × (keyboard_decode two_keys next_keys 8 ≡ KeyReport.decoded next_keys es)
    × (follow es six (has two_keys six) ≡ some (has next_keys six))
keyboard_decode-follow_example =
    keyboard_decode-follow two_keys next_keys six six_is_key (omega arith) next_keys-fine
