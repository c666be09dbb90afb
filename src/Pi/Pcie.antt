-- ===== src/Pi/Pcie.antt =====
-- pi4_pcie_cfg_read_plan of src/pi4_pcie_cfg.h.
pub mod Laws
use zealos_aarch64_bringup.Base.{
  ℕ, ◌+◌, ◌-◌, ◌*◌, ◌^◌, Bool, not, ◌||◌, bit_and, bit_or, ltb, ◌==◌, if◌then◌else◌,
}

abbrev pub index_offset : ℕ
index_offset = 0x9000

abbrev pub data_offset_base : ℕ
data_offset_base = 0x8000

abbrev pub max_offset : ℕ
max_offset = 0x0ffc

-- What the plan reads of `struct zeal_handoff`; `reaches_pcie` is the test of its size.
pub record Handoff : Type 0 where
  pub revision : ℕ
  pub reaches_pcie : Bool
  pub pcie_flags : ℕ
  pub reg_base : ℕ
  pub reg_size : ℕ

-- `struct pi4_pcie_cfg_read`
pub record CfgRead : Type 0 where
  pub index : ℕ
  pub data_offset : ℕ

-- 0 with `*out`, -1, -2 and -3
pub data Plan : Type 0 where
  planned : CfgRead → Plan
  refused outside overflow : Plan

-- The first `if`: PRESENT, ENABLED and REG are bits 0 to 2, PHY_LINKUP and DL_ACTIVE bits 4 and 5.
unfoldable pub is_refused : Handoff → ℕ → ℕ → ℕ → ℕ → ℕ → Bool
is_refused h link_status bus device function offset =
    ltb h.revision 5
    || not h.reaches_pcie
    || not (bit_and h.pcie_flags 7 == 7)
    || h.reg_size == 0
    || not (bit_and h.reg_base 3 == 0)
    || not (bit_and link_status 48 == 48)
    || bus == 0
    || ltb 255 bus
    || ltb 31 device
    || ltb 7 function
    || ltb max_offset offset
    || not (bit_and offset 3 == 0)

-- The second `if`, with the end of the window.
unfoldable pub is_outside : Handoff → ℕ → Bool
is_outside h offset =
    ltb h.reg_size (index_offset + 4)
    || ltb h.reg_size data_offset_base
    || ltb (h.reg_size - data_offset_base) offset
    || ltb (h.reg_size - data_offset_base - offset) 4

-- `devfn = (device << 3) | function`, then `(bus << 20) | (devfn << 12)`
unfoldable pub cfg_index : ℕ → ℕ → ℕ → ℕ
cfg_index bus device function = bit_or (bus * 2 ^ 20) (bit_or (device * 2 ^ 3) function * 2 ^ 12)

-- pi4_pcie_cfg_read_plan
unfoldable pub read_plan : Handoff → ℕ → ℕ → ℕ → ℕ → ℕ → Plan
read_plan h link_status bus device function offset =
    if is_refused h link_status bus device function offset
    then refused
    else if is_outside h offset
    then outside
    else if ltb (2 ^ 64 - 1 - (index_offset + 4)) h.reg_base
    then overflow
    else planned
        (record { index = cfg_index bus device function; data_offset = data_offset_base + offset })
