-- ===== src/Memory.antt =====
-- kernel/memory_manager.hpp and kernel/memory_manager.cpp: the bitmap allocator of physical frames.
-- A frame is the number that `FrameID` wraps. Loops over a count of frames recur on the rounds left;
-- their counter stays below the count, so only sums with a frame number can wrap.
pub mod Frames
pub mod FirstFit
pub mod Lifetime
pub mod Statistics
pub mod Uefi
mod Tests
use hon_os.Prelude.{
  ℕ, zero, suc, ◌+◌, ◌-◌, ◌*◌, ◌/◌, ◌%◌, ◌^◌, List, Option, none, some, Bool, true, false, not,
  bit_and, bit_or, ◌==◌, ltb, leb, if◌then◌else◌, add64, sub64, get_or, set, length, replicate,
}
use hon_os.Prelude.Bits.{bit}
use hon_os.Errors.{Code, success, no_enough_memory, WithError}

abbrev pub bytes_per_frame : ℕ
bytes_per_frame = 4 * 1024

-- 128 GiB in frames.
abbrev pub frame_count : ℕ
frame_count = 128 * 1024 * 1024 * 1024 / bytes_per_frame

abbrev pub bits_per_map_line : ℕ
bits_per_map_line = 64

-- `kNullFrame`, the greatest `size_t`.
abbrev pub null_frame : ℕ
null_frame = 2 ^ 64 - 1

pub record BitmapMemoryManager : Type 0 where
  pub alloc_map : List ℕ
  pub range_begin : ℕ
  pub range_end : ℕ

-- The lines of the bitmap. Not an `abbrev`, so that no proof computes a list of this length.
pub map_lines : ℕ
map_lines = frame_count / bits_per_map_line

-- The constructor.
pub make : BitmapMemoryManager
make = record { alloc_map = replicate map_lines 0; range_begin = 0; range_end = frame_count }

-- A line past the end of the array reads as 0 here, and a write there changes nothing.
unfoldable pub get_bit : BitmapMemoryManager → ℕ → Bool
get_bit m frame =
    let line_index = frame / bits_per_map_line in
    let bit_index = frame % bits_per_map_line in
    not (bit_and (get_or m.alloc_map line_index 0) (2 ^ bit_index) == 0)

-- `~x` on a line is `2 ^ 64 - 1 - x`.
unfoldable pub set_bit : BitmapMemoryManager → ℕ → Bool → BitmapMemoryManager
set_bit m frame allocated =
    let line_index = frame / bits_per_map_line in
    let mask = 2 ^ (frame % bits_per_map_line) in
    let line = get_or m.alloc_map line_index 0 in
    record m {
      alloc_map =
          set m.alloc_map line_index
            (if allocated then bit_or line mask else bit_and line (2 ^ 64 - 1 - mask));
    }

-- The loop of `Free` and `MarkAllocated`, from round `i` on.
unfoldable pub set_bits : BitmapMemoryManager → ℕ → ℕ → ℕ → Bool → BitmapMemoryManager
set_bits m start i zero allocated = m
set_bits m start i (suc rounds) allocated =
    set_bits (set_bit m (add64 start i) allocated) start (i + 1) rounds allocated

unfoldable pub free : BitmapMemoryManager → ℕ → ℕ → Code × BitmapMemoryManager
free m start_frame num_frames = (success, set_bits m start_frame 0 num_frames false)

pub mark_allocated : BitmapMemoryManager → ℕ → ℕ → BitmapMemoryManager
mark_allocated m start_frame num_frames = set_bits m start_frame 0 num_frames true

pub set_memory_range : BitmapMemoryManager → ℕ → ℕ → BitmapMemoryManager
set_memory_range m range_begin range_end = record m {
  range_begin = range_begin;
  range_end = range_end;
}

-- How the inner loop of `Allocate` ends: past the range, at a frame in use after `i` free ones, or
-- with all frames free.
pub data Probe : Type 0 where
  past_end : Probe
  in_use : ℕ → Probe
  all_free : Probe

pub probe : BitmapMemoryManager → ℕ → ℕ → ℕ → Probe
probe m start i zero = all_free
probe m start i (suc rounds) =
    let rest = probe m start (i + 1) rounds in
    if leb m.range_end (add64 start i)
    then past_end
    else if get_bit m (add64 start i)
    then in_use i
    else rest

-- The outer loop, with fuel; `none` means that the fuel ran out.
pub allocate_from : ℕ → BitmapMemoryManager → ℕ → ℕ → Option (WithError ℕ × BitmapMemoryManager)
allocate_from zero m start num_frames = none
allocate_from (suc fuel) m start num_frames = elim (probe m start 0 num_frames) [
  | past_end ↦ some (record { value = null_frame; error = no_enough_memory }, m)
  | in_use i ↦ allocate_from fuel m (add64 start (i + 1)) num_frames
  | all_free ↦ some (record { value = start; error = success }, mark_allocated m start num_frames)
]

-- Each further round starts at a later frame of the range.
pub allocate : BitmapMemoryManager → ℕ → Option (WithError ℕ × BitmapMemoryManager)
allocate m num_frames = allocate_from (suc (m.range_end - m.range_begin)) m m.range_begin num_frames

pub record MemoryStat : Type 0 where
  pub allocated_frames : ℕ
  pub total_frames : ℕ

-- `std::bitset<64>(line).count()`, over the bits below `k`.
pub bits_set : ℕ → ℕ → ℕ
bits_set zero line = 0
bits_set (suc k) line = bits_set k line + bit line k

-- The loop of `Stat` over the lines from `i` on.
pub count_lines : BitmapMemoryManager → ℕ → ℕ → ℕ
count_lines m i zero = 0
count_lines m i (suc rounds) =
    bits_set bits_per_map_line (get_or m.alloc_map i 0) + count_lines m (i + 1) rounds

pub stat : BitmapMemoryManager → MemoryStat
stat m =
    let first = m.range_begin / bits_per_map_line in
    let last = m.range_end / bits_per_map_line in
    record {
      allocated_frames = count_lines m first (last - first);
      total_frames = sub64 m.range_end m.range_begin;
    }
