-- ===== src/Pi/Dma.antt =====
-- The reservation of memory for USB transfers: pi4_usb_dma_reserve of src/pi4_dma.h. Of
-- `struct zeal_handoff` it reads and writes the memory map, the window of the controller and the
-- arena.
pub mod Partition
pub mod Laws
mod Tests
use zealos_aarch64_bringup.Base.{
  ℕ, ◌+◌, ◌-◌, ◌*◌, ◌/◌, ◌^◌, Bool, true, false, not, ◌&&◌, ◌||◌, Option, none, some, List, [], ◌∷◌,
  ◌++◌, bit_and, ltb, ◌==◌, if◌then◌else◌, length,
}

-- PI4_USB_DMA_ARENA_BYTES, PI4_USB_DMA_ARENA_ALIGN and PI4_USB_DMA_MIN_PHYS
abbrev pub arena_bytes : ℕ
arena_bytes = 1048576

abbrev pub arena_align : ℕ
arena_align = 65536

abbrev pub min_phys : ℕ
min_phys = 4194304

abbrev pub u64_max : ℕ
u64_max = 18446744073709551615

-- ZEAL_MEM_USABLE, ZEAL_MEM_USB_DMA and ZEAL_MEM_MAX
abbrev pub usable : ℕ
usable = 1

abbrev pub usb_dma : ℕ
usb_dma = 11

abbrev pub mem_max : ℕ
mem_max = 256

-- `struct zeal_mem_entry`; `kind` is its `type`.
pub record MemEntry : Type 0 where
  pub base : ℕ
  pub length : ℕ
  pub kind : ℕ

-- `struct zeal_pi4_pcie`, the part about the window of the controller
pub record Window : Type 0 where
  pub flags : ℕ
  pub dma_bus_base : ℕ
  pub dma_cpu_base : ℕ
  pub dma_size : ℕ

-- `struct zeal_pi4_dma`
pub record Arena : Type 0 where
  pub flags : ℕ
  pub phys_base : ℕ
  pub bus_base : ℕ
  pub size : ℕ

-- `mem_count` is the length of `mem`.
pub record DmaHandoff : Type 0 where
  pub mem : List MemEntry
  pub pcie : Window
  pub arena : Arena

-- PI4_PCIE_FDT_PRESENT, PI4_PCIE_FDT_ENABLED and PI4_PCIE_FDT_DMA
abbrev pub required_flags : ℕ
required_flags = 19

-- The condition of the first return.
unfoldable pub is_unready : DmaHandoff → Bool
is_unready h =
    ltb mem_max (length h.mem)
    || not (bit_and h.pcie.flags required_flags == required_flags)
    || h.pcie.dma_size == 0
    || not (h.arena.flags == 0)
    || ltb (u64_max - h.pcie.dma_size) h.pcie.dma_cpu_base
    || ltb (u64_max - h.pcie.dma_size) h.pcie.dma_bus_base

abbrev pub at_least : ℕ → ℕ → ℕ
at_least limit n = if ltb n limit then limit else n

-- `low` and `high`
abbrev pub low_of : Window → MemEntry → ℕ
low_of w e = at_least min_phys (at_least w.dma_cpu_base e.base)

abbrev pub high_of : Window → MemEntry → ℕ
high_of w e =
    if ltb (e.base + e.length) (w.dma_cpu_base + w.dma_size)
    then e.base + e.length
    else w.dma_cpu_base + w.dma_size

-- `(low + align - 1) & ~(align - 1)`
abbrev pub align_up : ℕ → ℕ
align_up low = (low + arena_align - 1) / arena_align * arena_align

abbrev pub bus_of : Window → ℕ → ℕ
bus_of w base = w.dma_bus_base + (base - w.dma_cpu_base)

abbrev pub is_unsuitable : MemEntry → Bool
is_unsuitable e = not (e.kind == usable) || e.length == 0 || ltb (u64_max - e.length) e.base

-- The conditions on `base` that end in `continue`.
abbrev pub is_misplaced : Window → MemEntry → ℕ → Bool
is_misplaced w e base =
    ltb (u64_max - arena_bytes) base
    || ltb (high_of w e) (base + arena_bytes)
    || ltb base e.base
    || ltb (u64_max - (base - w.dma_cpu_base)) w.dma_bus_base
    || ltb (u64_max - arena_bytes) (bus_of w base)
    || ltb (w.dma_bus_base + w.dma_size) (bus_of w base + arena_bytes)

-- The base of the arena in this entry; `none` is `continue`.
unfoldable pub candidate : Window → MemEntry → Option ℕ
candidate w e =
    if is_unsuitable e || ltb (u64_max - (arena_align - 1)) (low_of w e)
    then none
    else if is_misplaced w e (align_up (low_of w e))
    then none
    else some (align_up (low_of w e))

-- `before`, `after` and `extra`
abbrev pub is_before : MemEntry → ℕ → Bool
is_before e base = ltb e.base base

abbrev pub is_after : MemEntry → ℕ → Bool
is_after e base = ltb (base + arena_bytes) (e.base + e.length)

abbrev pub extra : MemEntry → ℕ → ℕ
extra e base = (if is_before e base then 1 else 0) + (if is_after e base then 1 else 0)

abbrev pub arena_entry : ℕ → MemEntry
arena_entry base = record { base = base; length = arena_bytes; kind = usb_dma }

-- The entry behind the arena, at the end of the map.
abbrev pub tail_entry : MemEntry → ℕ → List MemEntry
tail_entry e base =
    if is_after e base
    then record {
      base = base + arena_bytes;
      length = e.base + e.length - (base + arena_bytes);
      kind = usable;
    }
      ∷ []
    else []

-- The map with the arena taken out of `e`, which stands between `pre` and `post`.
unfoldable pub carve : List MemEntry → MemEntry → List MemEntry → ℕ → List MemEntry
carve pre e post base =
    if is_before e base
    then pre
      ++ (record e { length = base - e.base } ∷ (post ++ (arena_entry base ∷ tail_entry e base)))
    else pre ++ (arena_entry base ∷ (post ++ tail_entry e base))

-- 0, -1, -2 and -3
pub data Reservation : Type 0 where
  reserved : DmaHandoff → Reservation
  unready : Reservation
  no_slot : Reservation
  no_place : Reservation

unfoldable pub reserve_at : List MemEntry → MemEntry → List MemEntry → ℕ → DmaHandoff → Reservation
reserve_at pre e post base h =
    if ltb (mem_max - length h.mem) (extra e base)
    then Reservation.no_slot
    else Reservation.reserved (record h {
      mem = carve pre e post base;
      arena = record {
        flags = 1;
        phys_base = base;
        bus_base = bus_of h.pcie base;
        size = arena_bytes;
      };
    })

-- `for (i = 0; i < h->mem_count; i++)`, with the entries behind it in `pre`
unfoldable pub reserve_loop : List MemEntry → List MemEntry → DmaHandoff → Reservation
reserve_loop pre [] h = Reservation.no_place
reserve_loop pre (e ∷ es) h = elim (candidate h.pcie e) [
  | none ↦ reserve_loop (pre ++ e ∷ []) es h
  | some base ↦ reserve_at pre e es base h
]

-- pi4_usb_dma_reserve
unfoldable pub reserve : DmaHandoff → Reservation
reserve h = if is_unready h then Reservation.unready else reserve_loop [] h.mem h
