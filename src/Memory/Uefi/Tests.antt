-- ===== src/Memory/Uefi/Tests.antt =====
-- The kernel's start over a concrete memory map.
use hon_os.Prelude.{◌≡◌, refl, List, [], ◌∷◌, arith, add64, mul64}
use hon_os.Memory.{set_memory_range}
use hon_os.Memory.Uefi.{MemoryDescriptor, is_available, mark_map, map_memory, initialize}
use hon_os.Memory.Uefi.Safety.{All, IsSane, SafeStart, initialize-SafeStart}

-- A reserved page, a gap, and memory enough for the heap.
abbrev firmware : List MemoryDescriptor
firmware =
    record { memory_type = 0; physical_start = 0; number_of_pages = 1 }
    ∷ record { memory_type = 7; physical_start = 8192; number_of_pages = 40000 }
    ∷ []

firmware-range_end : (map_memory firmware).range_end ≡ 40002
unfolding map_memory set_memory_range mark_map is_available add64 mul64
firmware-range_end = refl

firmware-IsSane : All IsSane firmware
firmware-IsSane = omega arith

initialize-SafeStart_example : SafeStart firmware (initialize firmware)
initialize-SafeStart_example =
    initialize-SafeStart firmware firmware-IsSane (omega (arith, firmware-range_end))
