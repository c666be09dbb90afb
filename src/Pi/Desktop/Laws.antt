-- ===== src/Pi/Desktop/Laws.antt =====
-- The scaled desktop of src/pi4_desktop_fb.h lies inside the frame buffer.
use zealos_aarch64_bringup.Base.{
  ℕ, ◌+◌, ◌-◌, ◌*◌, ◌/◌, ◌≤◌, ◌<◌, ◌≡◌, false, some, arith, or_false, ltb, ltb→ge, ◌==◌, not,
  bit_and,
}
use zealos_aarch64_bringup.Pi.Desktop.{
  DesktopFb, is_unfit, scale_of, desktop_fb_plan, column_of, row_of, word_of,
}

-- What the test leaves of the arguments.
record IsFit (width height pitch : ℕ) : Type 0 where
  wide : 800 ≤ width
  high : 600 ≤ height
  rows : width * 4 ≤ pitch

is_unfit-false :
    (width height pitch bpp : ℕ)
    → is_unfit width height pitch bpp ≡ false
    → IsFit width height pitch
unfolding is_unfit
is_unfit-false width height pitch bpp e =
    let (e, a) = or_false {b = ltb (16384 * 4) pitch} e in
    let (e, rows) = or_false {b = ltb pitch (width * 4)} e in
    let (e, b) = or_false {b = not (bit_and pitch 3 == 0)} e in
    let (e, c) = or_false {b = ltb 16384 height} e in
    let (e, d) = or_false {b = ltb 16384 width} e in
    let (e, high) = or_false {b = ltb height 600} e in
    let (e, wide) = or_false {b = ltb width 800} e in
    record { wide = ltb→ge _ _ wide; high = ltb→ge _ _ high; rows = ltb→ge _ _ rows }

scale_of_lem :
    (width height : ℕ)
    → 800 ≤ width
    → 600 ≤ height
    → (0 < scale_of width height)
      × (800 * scale_of width height ≤ width)
      × (600 * scale_of width height ≤ height)
unfolding scale_of
scale_of_lem width height w h = ground arith

-- The copies of pixel `x` lie in the scaled line.
within_line : (n x d scale : ℕ) → x < n → d < scale → x * scale + d < n * scale
within_line n x d scale lt ld = grind arith

plan_lem :
    (width height pitch bpp : ℕ) (p : DesktopFb)
    → desktop_fb_plan width height pitch bpp ≡ some p
    → (is_unfit width height pitch bpp ≡ false)
      × (p.pitch ≡ pitch)
      × (p.scale ≡ scale_of width height)
      × (p.left ≡ (width - 800 * scale_of width height) / 2)
      × (p.top ≡ (height - 600 * scale_of width height) / 2)
unfolding desktop_fb_plan
plan_lem width height pitch bpp p e = ground arith

word_inside :
    (row col height stride : ℕ) → row < height → col < stride → row * stride + col < height * stride
word_inside row col height stride r c = grind arith

times_le : (h a b : ℕ) → a ≤ b → h * a ≤ h * b
times_le h a b le = grind arith

regroup : (h q : ℕ) → h * q * 4 ≡ h * (q * 4)
regroup h q = grind arith

whole_words : (height pitch : ℕ) → height * (pitch / 4) * 4 ≤ height * pitch
whole_words height pitch =
    rw (regroup height (pitch / 4)) (times_le height (pitch / 4 * 4) pitch (omega arith))

-- With a plan that is accepted, every copy of every pixel of the 800 by 600 surface is written to a
-- column and a row of the frame buffer, and its word lies inside the `height * pitch` bytes.
pub desktop_fb_plan-inside :
    (width height pitch bpp : ℕ) (p : DesktopFb)
    → desktop_fb_plan width height pitch bpp ≡ some p
    → (x dx y dy : ℕ) → x < 800
    → dx < p.scale
    → y < 600
    → dy < p.scale
    → (column_of p x dx < width)
      × (row_of p y dy < height)
      × (word_of p x dx y dy * 4 + 4 ≤ height * pitch)
unfolding word_of
desktop_fb_plan-inside width height pitch bpp p e x dx y dy xl dxl yl dyl =
    let (fit, same_pitch, scale, left, top) = plan_lem width height pitch bpp p e in
    let f = is_unfit-false width height pitch bpp fit in
    let (positive, wide, high) = scale_of_lem width height f.wide f.high in
    let across = within_line 800 x dx p.scale xl dxl in
    let down = within_line 600 y dy p.scale yl dyl in
    let col : column_of p x dx < width = omega (arith, across, scale, left, wide) in
    let row : row_of p y dy < height = omega (arith, down, scale, top, high) in
    let stride : column_of p x dx < p.pitch / 4 = omega (arith, same_pitch, f.rows) in
    (
      col,
      row,
      rw same_pitch (
          omega (
            arith,
            word_inside (row_of p y dy) (column_of p x dx) height (pitch / 4) row
                (omega (arith, same_pitch, stride)),
            whole_words height pitch,
          )),
    )
