-- ===== src/Pi/Dma/Tests.antt =====
-- Runs of src/pi4_dma.h, and the theorem at one of them.
use zealos_aarch64_bringup.Base.{ℕ, ◌≡◌, refl, [], ◌∷◌}
use zealos_aarch64_bringup.Pi.Dma.{
  MemEntry, Window, Arena, DmaHandoff, is_unready, candidate, carve, Reservation, reserve_at,
  reserve_loop, reserve,
}
use zealos_aarch64_bringup.Pi.Dma.Laws.{Says, reserve-Says}

abbrev window : Window
window = record { flags = 31; dma_bus_base = 0; dma_cpu_base = 0; dma_size = 0xc0000000 }

abbrev no_arena : Arena
no_arena = record { flags = 0; phys_base = 0; bus_base = 0; size = 0 }

abbrev entry : ℕ → ℕ → ℕ → MemEntry
entry base length kind = record { base = base; length = length; kind = kind }

-- A small entry, a reserved one, and one with room.
abbrev some_map : DmaHandoff
some_map = record {
  mem = entry 0 0x80000 1 ∷ (entry 0x80000 0x380000 2 ∷ (entry 0x408000 0x3000000 1 ∷ []));
  pcie = window;
  arena = no_arena;
}

abbrev split_map : DmaHandoff
split_map = record {
  mem =
      entry 0 0x80000 1
      ∷ (entry 0x80000 0x380000 2
          ∷ (entry 0x408000 0x8000 1
              ∷ (entry 0x410000 0x100000 11 ∷ (entry 0x510000 0x2ef8000 1 ∷ []))));
  pcie = window;
  arena = record { flags = 1; phys_base = 0x410000; bus_base = 0x410000; size = 0x100000 };
}

some_map-reserved : reserve some_map ≡ Reservation.reserved split_map
unfolding reserve reserve_loop reserve_at is_unready candidate carve
some_map-reserved = refl

reserved_twice : reserve split_map ≡ Reservation.unready
unfolding reserve is_unready
reserved_twice = refl

no_room : reserve (record some_map { mem = entry 0 0x80000 1 ∷ [] }) ≡ Reservation.no_place
unfolding reserve reserve_loop is_unready candidate
no_room = refl

reserve-Says_example : Says some_map (reserve some_map)
reserve-Says_example = reserve-Says some_map
