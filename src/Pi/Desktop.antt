-- ===== src/Pi/Desktop.antt =====
-- The plan of the frame buffer, src/pi4_desktop_fb.h: pi4_desktop_fb_plan, and where
-- pi4_desktop_fb_present writes.
pub mod Laws
use zealos_aarch64_bringup.Base.{
  ℕ, ◌+◌, ◌-◌, ◌*◌, ◌/◌, Bool, not, ◌||◌, Option, none, some, bit_and, ltb, ◌==◌, if◌then◌else◌,
}

abbrev pub desktop_width : ℕ
desktop_width = 800

abbrev pub desktop_height : ℕ
desktop_height = 600

-- `struct pi4_desktop_fb`
pub record DesktopFb : Type 0 where
  pub width : ℕ
  pub height : ℕ
  pub pitch : ℕ
  pub scale : ℕ
  pub left : ℕ
  pub top : ℕ

unfoldable pub is_unfit : ℕ → ℕ → ℕ → ℕ → Bool
is_unfit width height pitch bpp =
    not (bpp == 32)
    || ltb width desktop_width
    || ltb height desktop_height
    || ltb 16384 width
    || ltb 16384 height
    || not (bit_and pitch 3 == 0)
    || ltb pitch (width * 4)
    || ltb (16384 * 4) pitch

-- The smaller of the two scales.
unfoldable pub scale_of : ℕ → ℕ → ℕ
scale_of width height =
    if ltb (height / desktop_height) (width / desktop_width)
    then height / desktop_height
    else width / desktop_width

-- pi4_desktop_fb_plan
unfoldable pub desktop_fb_plan : ℕ → ℕ → ℕ → ℕ → Option DesktopFb
desktop_fb_plan width height pitch bpp =
    if is_unfit width height pitch bpp
    then none
    else some (record {
      width = width;
      height = height;
      pitch = pitch;
      scale = scale_of width height;
      left = (width - desktop_width * scale_of width height) / 2;
      top = (height - desktop_height * scale_of width height) / 2;
    })

-- The column and the row of the frame buffer that pi4_desktop_fb_present writes for the copy
-- `dx`, `dy` of the pixel `x`, `y`, and the index of that word.
abbrev pub column_of : DesktopFb → ℕ → ℕ → ℕ
column_of p x dx = p.left + x * p.scale + dx

abbrev pub row_of : DesktopFb → ℕ → ℕ → ℕ
row_of p y dy = p.top + y * p.scale + dy

unfoldable pub word_of : DesktopFb → ℕ → ℕ → ℕ → ℕ → ℕ
word_of p x dx y dy = row_of p y dy * (p.pitch / 4) + column_of p x dx
