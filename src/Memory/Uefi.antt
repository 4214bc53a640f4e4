-- ===== src/Memory/Uefi.antt =====
-- kernel/memory_map.hpp and `InitializeMemoryManager`: the frames that the UEFI memory map leaves free.
-- The map's buffer is the list of its descriptors; a descriptor's fields that nothing reads are left
-- out. `available_end` and the other addresses are `uintptr_t`.
pub mod Safety
mod Tests
use hon_os.Prelude.{
  ℕ, ◌/◌, ◌*◌, ◌-◌, List, [], ◌∷◌, Option, none, some, Bool, ◌||◌, ◌==◌, ltb, if◌then◌else◌, add64,
  mul64,
}
use hon_os.Errors.{is_error, WithError}
use hon_os.Memory.{
  BitmapMemoryManager, make, mark_allocated, set_memory_range, allocate, bytes_per_frame,
}

-- The members of `MemoryType` that the code names, by their values.
abbrev pub efi_boot_services_code : ℕ
efi_boot_services_code = 3

abbrev pub efi_boot_services_data : ℕ
efi_boot_services_data = 4

abbrev pub efi_conventional_memory : ℕ
efi_conventional_memory = 7

pub is_available : ℕ → Bool
is_available memory_type =
    memory_type == efi_boot_services_code
    || memory_type == efi_boot_services_data
    || memory_type == efi_conventional_memory

abbrev pub uefi_page_size : ℕ
uefi_page_size = 4096

pub record MemoryDescriptor : Type 0 where
  pub memory_type : ℕ
  pub physical_start : ℕ
  pub number_of_pages : ℕ

abbrev pub bytes_of : MemoryDescriptor → ℕ
bytes_of desc = mul64 desc.number_of_pages uefi_page_size

-- The gap before a descriptor counts as in use.
pub mark_gap : BitmapMemoryManager → ℕ → MemoryDescriptor → BitmapMemoryManager
mark_gap m available_end desc =
    if ltb available_end desc.physical_start
    then mark_allocated m (available_end / bytes_per_frame)
        ((desc.physical_start - available_end) / bytes_per_frame)
    else m

-- The loop over the memory map: the manager and `available_end` behind it.
pub mark_map : BitmapMemoryManager → ℕ → List MemoryDescriptor → BitmapMemoryManager × ℕ
mark_map m available_end [] = (m, available_end)
mark_map m available_end (desc ∷ descs) =
    let m' = mark_gap m available_end desc in
    let free_up_to = mark_map m' (add64 desc.physical_start (bytes_of desc)) descs in
    let in_use =
      mark_map
        (mark_allocated m' (desc.physical_start / bytes_per_frame)
          (bytes_of desc / bytes_per_frame))
        available_end descs in
    if is_available desc.memory_type then free_up_to else in_use

abbrev pub heap_frames : ℕ
heap_frames = 64 * 512

-- The manager and the heap's ends, as the kernel starts with them, or `exit(1)`.
pub data Start : Type 0 where
  started : BitmapMemoryManager → ℕ → ℕ → Start
  exited : ℕ → Start

-- The heap from what `Allocate` returned. `none` would be a loop of `Allocate` that does not end.
pub place_heap : Option (WithError ℕ × BitmapMemoryManager) → Option Start
place_heap none = none
place_heap (some (heap_start, m)) =
    let program_break = mul64 heap_start.value bytes_per_frame in
    if is_error heap_start.error
    then some (exited 1)
    else some (started m program_break (add64 program_break (mul64 heap_frames bytes_per_frame)))

pub initialize_heap : BitmapMemoryManager → Option Start
initialize_heap m = place_heap (allocate m heap_frames)

-- The manager before the heap is taken.
pub map_memory : List MemoryDescriptor → BitmapMemoryManager
map_memory descs =
    let (m, available_end) = mark_map make 0 descs in
    set_memory_range m 1 (available_end / bytes_per_frame)

pub initialize : List MemoryDescriptor → Option Start
unfolding initialize_heap
initialize descs = initialize_heap (map_memory descs)
