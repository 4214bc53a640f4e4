-- ===== src/UsbMemory.antt =====
-- kernel/usb/memory.hpp and kernel/usb/memory.cpp: the memory pool of the USB driver. `pool` is the
-- address of the pool; the state is `alloc_ptr`. Memory is not given back: `FreeMem` does nothing.
mod Rounding
pub mod Allotting
mod Tests
use hon_os.Prelude.{
  ℕ, ◌+◌, ◌-◌, ◌*◌, ◌^◌, bit_and, Option, none, some, Bool, true, false, ltb, if◌then◌else◌, add64,
  sub64, mul64,
}

-- 2 ^ 17 bytes.
abbrev pub memory_pool_size : ℕ
memory_pool_size = 4096 * 32

-- `Ceil`, for an alignment that is not 0.
pub ceil : ℕ → ℕ → ℕ
ceil value alignment = bit_and (sub64 (add64 value alignment) 1) (2 ^ 64 - 1 - (alignment - 1))

-- `alloc_ptr` behind the alignment, and behind the move to the next boundary.
pub aligned : ℕ → ℕ → ℕ
aligned alloc_ptr alignment = if ltb 0 alignment then ceil alloc_ptr alignment else alloc_ptr

pub within_boundary : ℕ → ℕ → ℕ → ℕ
within_boundary alloc_ptr size boundary =
    let next_boundary = ceil alloc_ptr boundary in
    if ltb 0 boundary
    then (if ltb next_boundary (add64 alloc_ptr size) then next_boundary else alloc_ptr)
    else alloc_ptr

-- `AllocMem`: the address, or none for the null pointer, and `alloc_ptr`.
pub alloc_mem : ℕ → ℕ → ℕ → ℕ → ℕ → Option ℕ × ℕ
alloc_mem pool alloc_ptr size alignment boundary =
    let p = within_boundary (aligned alloc_ptr alignment) size boundary in
    if ltb (add64 pool memory_pool_size) (add64 p size) then (none, p) else (some p, add64 p size)

-- `AllocArray`, for objects of `object_size` bytes.
pub alloc_array : ℕ → ℕ → ℕ → ℕ → ℕ → ℕ → Option ℕ × ℕ
alloc_array pool alloc_ptr object_size num_obj alignment boundary =
    alloc_mem pool alloc_ptr (mul64 object_size num_obj) alignment boundary
