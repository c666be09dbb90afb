-- ===== src/Usb/Keyboard/Held.antt =====
-- The events of pi4_usb_keyboard_decode, src/pi4_usb_keyboard.h, against the keys that are held.
use zealos_aarch64_bringup.Base.{
  ℕ, zero, suc, ◌+◌, ◌^◌, ◌<◌, ◌≡◌, ◌≢◌, refl, inl, inr, Bool, Bool-cases, true, false, not, ◌&&◌,
  ◌||◌, Option, none, some, List, [], ◌∷◌, ◌++◌, bit_and, bit_xor, arith, ◌==◌, ==_iff,
  if◌then◌else◌, ap, ◌∙◌,
}
use zealos_aarch64_bringup.Usb.Keyboard.{
  Report, Event, has_usage, keys, has, is_rollover, changes, modifiers, KeyReport, keyboard_decode,
}

-- Whether `usage` is held after the events, where it was before: `none` for a press of a key that is
-- held or a release of one that is not.
unfoldable pub follow : List Event → ℕ → Bool → Option Bool
follow [] usage held = some held
follow ((k, down) ∷ es) usage held =
    let on = follow es usage down in
    let past = follow es usage held in
    if k == usage then (if (if down then held else not held) then none else on) else past

then_follow : List Event → ℕ → Option Bool → Option Bool
then_follow es usage none = none
then_follow es usage (some held) = follow es usage held

follow-append :
    (xs ys : List Event) (usage : ℕ) (held : Bool)
    → follow (xs ++ ys) usage held ≡ then_follow ys usage (follow xs usage held)
unfolding follow then_follow
follow-append [] ys usage held = refl
follow-append ((k, down) ∷ es) ys usage held = elim (Bool-cases (k == usage)) [
  | inr other ↦ rw other (follow-append es ys usage held)
  | inl same ↦ elim (Bool-cases (if down then held else not held)) [
    | inl wrong ↦ rw (same, wrong) refl
    | inr right ↦ rw (same, right) (follow-append es ys usage down)
  ]
]

both_ways : (down : Bool) → (if down then not down else not (not down)) ≡ false
both_ways true = refl
both_ways false = refl

silence :
    (u usage : ℕ) (earlier us : List ℕ) (other : Report)
    → u ≡ usage
    → (u == usage) ≡ true
    → (has_usage earlier usage || not (has_usage (u ∷ us) usage) || has other usage) ≡ true
    → (not (u == 0) && not (has_usage earlier u) && not (has other u)) ≡ false
unfolding has_usage
silence u usage earlier us other e same quiet = let quiet' = rw same at quiet in rw e (ground arith)

announced :
    (u usage : ℕ) (earlier : List ℕ) (other : Report)
    → u ≡ usage
    → usage ≢ 0
    → has_usage earlier usage ≡ false
    → has other usage ≡ false
    → (not (u == 0) && not (has_usage earlier u) && not (has other u)) ≡ true
announced u usage earlier other e some_key new gone = rw (e, new, gone) (ground arith)

-- A key that does not change has no event.
changes_quiet :
    (earlier us : List ℕ) (other : Report) (down held : Bool) (usage : ℕ)
    → (has_usage earlier usage || not (has_usage us usage) || has other usage) ≡ true
    → follow (changes earlier us other down) usage held ≡ some held
unfolding changes follow has_usage
changes_quiet earlier [] other down held usage quiet = refl
changes_quiet earlier (u ∷ us) other down held usage quiet =
    let emits = not (u == 0) && not (has_usage earlier u) && not (has other u) in
    elim (Bool-cases (u == usage)) [
      | inl same ↦
          let e : u ≡ usage = (==_iff u usage).0 same in
          let known : has_usage (u ∷ earlier) usage ≡ true = rw same refl in
          let silent : emits ≡ false = silence u usage earlier us other e same quiet in
          rw silent (changes_quiet (u ∷ earlier) us other down held usage (rw known refl))
      | inr different ↦
          let later =
            changes_quiet (u ∷ earlier) us other down held usage
              (rw different (rw different at quiet)) in
          elim (Bool-cases emits) [
            | inl event ↦ rw (event, different) later
            | inr silent ↦ rw silent later
          ]
    ]

-- A key that is only in this report has one.
changes_once :
    (earlier us : List ℕ) (other : Report) (down : Bool) (usage : ℕ)
    → usage ≢ 0
    → has_usage earlier usage ≡ false
    → has_usage us usage ≡ true
    → has other usage ≡ false
    → follow (changes earlier us other down) usage (not down) ≡ some down
unfolding changes follow has_usage
changes_once earlier [] other down usage some_key new here gone = absurd (ground arith)
changes_once earlier (u ∷ us) other down usage some_key new here gone =
    let emits = not (u == 0) && not (has_usage earlier u) && not (has other u) in
    elim (Bool-cases (u == usage)) [
      | inl same ↦
          let e : u ≡ usage = (==_iff u usage).0 same in
          let event : emits ≡ true = announced u usage earlier other e some_key new gone in
          let known : has_usage (u ∷ earlier) usage ≡ true = rw same refl in
          let later = changes_quiet (u ∷ earlier) us other down down usage (rw known refl) in
          let apart : (if down then not down else not (not down)) ≡ false = both_ways down in
          rw (event, same, apart) later
      | inr different ↦
          let later =
            changes_once (u ∷ earlier) us other down usage some_key (rw different new)
              (rw different at here) gone in
          elim (Bool-cases emits) [
            | inl event ↦ rw (event, different) later
            | inr silent ↦ rw silent later
          ]
    ]

modifiers_quiet :
    (n i now before usage : ℕ) (held : Bool)
    → usage < 224
    → follow (modifiers n i now before) usage held ≡ some held
unfolding modifiers follow
modifiers_quiet zero i now before usage held low = refl
modifiers_quiet (suc n) i now before usage held low =
    let other : (224 + i == usage) ≡ false = ground arith in
    elim (Bool-cases (bit_and (bit_xor now before) (2 ^ i) == 0)) [
      | inl same ↦ rw same (modifiers_quiet n (i + 1) now before usage held low)
      | inr changed ↦ rw (changed, other) (modifiers_quiet n (i + 1) now before usage held low)
    ]

module _ (previous report : Report) (usage : ℕ) (some_key : usage ≢ 0) (low : usage < 224) where
  releases : List Event
  releases = changes [] (keys previous) report false

  presses : List Event
  presses = changes [] (keys report) previous true

  after_releases :
      follow releases usage (has previous usage) ≡ some (has previous usage && has report usage)
  unfolding releases has has_usage
  after_releases = elim (Bool-cases (has_usage (keys previous) usage)) [
    | inr idle ↦ rw idle (changes_quiet [] (keys previous) report false false usage (rw idle refl))
    | inl held ↦ elim (Bool-cases (has_usage (keys report) usage)) [
      | inl kept ↦
          let quiet : (has report usage) ≡ true = kept in
          rw (held, kept)
            (changes_quiet [] (keys previous) report false true usage (rw (held, quiet) refl))
      | inr gone ↦
          rw (held, gone)
            (changes_once [] (keys previous) report false usage some_key refl held gone)
    ]
  ]

  after_presses :
      follow presses usage (has previous usage && has report usage) ≡ some (has report usage)
  unfolding presses has has_usage
  after_presses = elim (Bool-cases (has_usage (keys report) usage)) [
    | inr idle ↦
        let none_held : (has_usage (keys previous) usage && false) ≡ false = ground arith in
        rw (idle, none_held)
          (changes_quiet [] (keys report) previous true false usage (rw idle refl))
    | inl held ↦ elim (Bool-cases (has_usage (keys previous) usage)) [
      | inl kept ↦
          rw (held, kept)
            (changes_quiet [] (keys report) previous true true usage (rw (held, kept) refl))
      | inr new ↦
          rw (held, new) (changes_once [] (keys report) previous true usage some_key refl held new)
    ]
  ]

  -- For an ordinary key and a report of eight bytes that is no rollover: the events are the changes
  -- from the keys that were held to the keys of the report, a press only of a key that is not held
  -- and a release only of one that is, and whoever follows them holds the key after them exactly
  -- where the report has it. The report becomes `previous`.
  pub keyboard_decode-follow :
      is_rollover (keys report) ≡ false
      → (events : List Event) × (keyboard_decode previous report 8
          ≡ KeyReport.decoded report events)
        × (follow events usage (has previous usage) ≡ some (has report usage))
  unfolding keyboard_decode releases presses then_follow
  keyboard_decode-follow fine =
      let mods = modifiers 8 0 (report 0) (previous 0) in
      let mid = has previous usage && has report usage in
      (
        releases ++ (mods ++ presses),
        rw (keyboard_decode, fine) refl,
        follow-append releases (mods ++ presses) usage (has previous usage)
            ∙ ap (then_follow (mods ++ presses) usage) after_releases
            ∙ follow-append mods presses usage mid
            ∙ ap (then_follow presses usage)
                (modifiers_quiet 8 0 (report 0) (previous 0) usage mid low)
            ∙ after_presses,
      )
