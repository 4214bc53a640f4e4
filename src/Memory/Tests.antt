-- ===== src/Memory/Tests.antt =====
-- Runs of the frame allocator, and its theorems at concrete bitmaps.
use hon_os.Prelude.{ℕ, ◌≡◌, refl, [], ◌∷◌, some, true, arith, add64, sub64}
use hon_os.Prelude.Bits.{bit}
use hon_os.Errors.{success, no_enough_memory, WithError}
use hon_os.Memory.{
  BitmapMemoryManager, get_bit, set_bit, set_bits, mark_allocated, free, probe, allocate_from,
  allocate, bits_set, count_lines, stat, null_frame,
}
use hon_os.Memory.Frames.{IsValid}
use hon_os.Memory.FirstFit.{FirstFit, allocate-FirstFit}
use hon_os.Memory.Lifetime.{free-allocate}
use hon_os.Memory.Statistics.{used_among, stat_lem, stat_misses_tail}

-- Frames 0, 2 and 64 are in use.
abbrev small : BitmapMemoryManager
small = record { alloc_map = 5 ∷ 1 ∷ []; range_begin = 1; range_end = 100 }

abbrev small' : BitmapMemoryManager
small' = record small { alloc_map = 29 ∷ 1 ∷ [] }

abbrev small'' : BitmapMemoryManager
small'' = record small { alloc_map = 31 ∷ 1 ∷ [] }

abbrev found : ℕ → WithError ℕ
found s = record { value = s; error = success }

allocate_two : allocate small 2 ≡ some (found 3, small')
unfolding allocate allocate_from probe get_bit mark_allocated set_bits set_bit add64
allocate_two = refl

allocate_one_more : allocate small' 1 ≡ some (found 1, small'')
unfolding allocate allocate_from probe get_bit mark_allocated set_bits set_bit add64
allocate_one_more = refl

allocate_too_much :
    allocate small 90 ≡ some (record { value = null_frame; error = no_enough_memory }, small)
unfolding allocate allocate_from probe get_bit add64
allocate_too_much = refl

small-IsValid : IsValid small
small-IsValid = omega arith

allocate-FirstFit_example : FirstFit small 2 (allocate small 2)
allocate-FirstFit_example = allocate-FirstFit small 2 small-IsValid

free-allocate_example :
    ((g : ℕ) → get_bit (free small' 3 2).1 g ≡ get_bit small g) × IsValid (free small' 3 2).1
free-allocate_example =
    free-allocate small small' 2 (found 3) small-IsValid (omega arith) allocate_two refl

-- Frame 64 is in use and in the range, and `Stat` does not see it.
stat_small : stat small ≡ record { allocated_frames = 2; total_frames = 99 }
unfolding stat count_lines bits_set bit sub64
stat_small = refl

stat_lem_example :
    ((stat small).allocated_frames ≡ used_among small 0 64) × ((stat small).total_frames ≡ 99)
stat_lem_example = stat_lem small (omega arith) (omega arith)

stat_misses_tail_example :
    (stat (set_bit small 70 true)).allocated_frames ≡ (stat small).allocated_frames
stat_misses_tail_example = stat_misses_tail small 70 true (omega arith) (omega arith) (omega arith)
