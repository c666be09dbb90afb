-- ===== src/Pi/Tests.antt =====
-- Runs of src/pi4_pcie_cfg.h and src/pi4_desktop_fb.h, and the theorems at them.
use zealos_aarch64_bringup.Base.{ℕ, ◌+◌, ◌*◌, ◌≤◌, ◌<◌, ◌≡◌, refl, true, none, some, arith}
use zealos_aarch64_bringup.Pi.Pcie.{
  Handoff, CfgRead, outside, is_refused, is_outside, cfg_index, read_plan,
}
use zealos_aarch64_bringup.Pi.Desktop.{
  DesktopFb, is_unfit, scale_of, desktop_fb_plan, column_of, row_of, word_of,
}
use zealos_aarch64_bringup.Pi.Desktop.Laws.{desktop_fb_plan-inside}

abbrev host : ℕ → Handoff
host size = record {
  revision = 7;
  reaches_pcie = true;
  pcie_flags = 0x1f;
  reg_base = 0xfd500000;
  reg_size = size;
}

abbrev usb_read : CfgRead
usb_read = record { index = 0x00100000; data_offset = 0x8010 }

window_too_small : read_plan (host 0x9000) 0x30 1 0 0 16 ≡ outside
unfolding read_plan is_refused is_outside cfg_index
window_too_small = refl

-- Full HD: the desktop once, in the middle.
abbrev full_hd : DesktopFb
full_hd = record { width = 1920; height = 1080; pitch = 7680; scale = 1; left = 560; top = 240 }

full_hd-planned : desktop_fb_plan 1920 1080 7680 32 ≡ some full_hd
unfolding desktop_fb_plan is_unfit scale_of
full_hd-planned = refl

too_narrow : desktop_fb_plan 799 1080 7680 32 ≡ none
unfolding desktop_fb_plan is_unfit scale_of
too_narrow = refl

desktop_fb_plan-inside_example :
    (column_of full_hd 799 0 < 1920)
    × (row_of full_hd 599 0 < 1080)
    × (word_of full_hd 799 0 599 0 * 4 + 4 ≤ 1080 * 7680)
desktop_fb_plan-inside_example =
    desktop_fb_plan-inside 1920 1080 7680 32 full_hd full_hd-planned 799 0 599 0 (omega arith)
      (omega arith) (omega arith) (omega arith)
