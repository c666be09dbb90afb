-- ===== src/Device/Defs.antt =====
-- src/virtio_blk.h: the request path behind virtio_blk_read_abs, virtio_blk_write_abs and
-- virtio_blk_flush_abs.
use zealos_aarch64_bringup.Base.{
  ℕ, suc, ◌+◌, ◌-◌, Bool, true, false, not, ◌&&◌, ◌||◌, Option, none, some, ltb, leb, ◌==◌,
  if◌then◌else◌,
}

-- `uint8_t buf[512]`: the byte at each offset.
abbrev pub Sector : Type 0
Sector = ℕ → ℕ

abbrev pub Medium : Type 0
Medium = ℕ → Sector

-- How the device ends a request: status byte 0; an error or a timeout that left the medium alone;
-- an error or a timeout after which the addressed sector holds something else.
pub data Completion : Type 0 where
  done : Completion
  failed : Completion
  torn : Sector → Completion

-- `struct vb_dev`, with what it drives. `mapped` is `mmio || pci_common`, `pci` is
-- `xport == VB_XPORT_PCI`, `data_sectors` the sectors that fit the DMA buffer.
pub record Device : Type 0 where
  pub ready : Bool
  pub mapped : Bool
  pub pci : Bool
  pub capacity : ℕ
  pub full_capacity : ℕ
  pub lba_base : ℕ
  pub data_sectors : ℕ
  pub flush_supported : Bool
  pub medium : Medium
  pub completion : ℕ → Completion
  pub requests : ℕ

-- One more request has been made.
abbrev pub tick : Device → Device
tick d = record d { requests = suc d.requests }

abbrev pub write_at : Medium → ℕ → Sector → Medium
write_at m lba s = λ a. if a == lba then s else m a

-- The early returns of virtio_blk_rw_sectors, for one sector.
unfoldable pub rejects : Device → ℕ → Bool → Bool
rejects d sector absolute =
    let limit = if absolute then d.full_capacity else d.capacity in
    (not d.ready && not d.mapped)
    || leb limit sector
    || ltb (limit - sector) 1
    || d.capacity == 0
    || ltb d.data_sectors 1

abbrev pub host_lba : Device → ℕ → Bool → ℕ
host_lba d sector absolute = if absolute then sector else d.lba_base + sector

unfoldable pub read_sector : Device → ℕ → Bool → Device × Option Sector
unfolding rejects
read_sector d sector absolute =
    if rejects d sector absolute then (d, none) else elim (d.completion d.requests) [
      | done ↦ (tick d, some (d.medium (host_lba d sector absolute)))
      | failed ↦ (tick d, none)
      | torn s ↦ (tick d, none)
    ]

unfoldable pub write_sector : Device → ℕ → Sector → Bool → Device × Bool
unfolding rejects
write_sector d sector buf absolute =
    if rejects d sector absolute then (d, false) else elim (d.completion d.requests) [
      | done ↦
          (record (tick d) { medium = write_at d.medium (host_lba d sector absolute) buf }, true)
      | failed ↦ (tick d, false)
      | torn s ↦
          (record (tick d) { medium = write_at d.medium (host_lba d sector absolute) s }, false)
    ]

unfoldable pub read_abs : Device → ℕ → Device × Option Sector
unfolding read_sector
read_abs d sector = if not d.ready || not d.pci then (d, none) else read_sector d sector true

unfoldable pub write_abs : Device → ℕ → Sector → Device × Bool
unfolding write_sector
write_abs d sector buf =
    if not d.ready || not d.pci then (d, false) else write_sector d sector buf true

-- A flush moves no data of its own. `torn` is an error like `failed` here.
unfoldable pub flush_abs : Device → Device × Bool
flush_abs d =
    if not d.ready || not d.pci || not d.flush_supported
    then (d, false)
    else elim (d.completion d.requests) [
      | done ↦ (tick d, true)
      | failed ↦ (tick d, false)
      | torn s ↦ (tick d, false)
    ]
