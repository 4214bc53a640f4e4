-- ===== src/Memory/Uefi/Safety.antt =====
-- The kernel never takes a frame for free that the firmware did not report as available.
use hon_os.Prelude.{
  ℕ, ◌+◌, ◌-◌, ◌*◌, ◌/◌, ◌%◌, ◌≤◌, ◌<◌, ◌≡◌, refl, ap, ◌∙◌, ◌⊎◌, inl, inr, List, [], ◌∷◌, true,
  false, ◌&&◌, ltb, leb, if◌then◌else◌, arith, add64, add64-eq, mul64, mul64-eq, length, Option,
  none, some, length-replicate, Bool-cases,
}
use hon_os.Errors.{is_error, WithError}
use hon_os.Memory.{
  BitmapMemoryManager, make, map_lines, get_bit, mark_allocated, set_memory_range, allocate,
  frame_count,
}
use hon_os.Memory.Frames.{IsValid, set_bits-SameShape, get_bit-set_bits}
use hon_os.Memory.FirstFit.{FirstFit, allocate-FirstFit}
use hon_os.Memory.Uefi.{
  MemoryDescriptor, is_available, bytes_of, mark_gap, mark_map, map_memory, place_heap,
  initialize_heap, initialize, Start, started, exited, heap_frames,
}

-- A descriptor as the firmware writes it: on a page, and below the 128 GiB of the bitmap.
pub record IsSane (d : MemoryDescriptor) : Type 0 where
  pub aligned : d.physical_start % 4096 ≡ 0
  pub below : d.physical_start + d.number_of_pages * 4096 ≤ frame_count * 4096

abbrev pub All : (MemoryDescriptor → Type 0) → List MemoryDescriptor → Type 0
All P [] = Unit {0}
All P (d ∷ ds) = P d × All P ds

-- Frame `f` lies in an available descriptor of the list.
abbrev pub Covered : ℕ → List MemoryDescriptor → Type 0
Covered f [] = ⊥
Covered f (d ∷ ds) =
    ((is_available d.memory_type ≡ true)
      × (d.physical_start ≤ f * 4096)
      × (f * 4096 + 4096 ≤ d.physical_start + d.number_of_pages * 4096))
    ⊎ Covered f ds

abbrev Sized : BitmapMemoryManager → Type 0
Sized m = length m.alloc_map * 64 ≡ frame_count

map_lines_lem : map_lines * 64 ≡ frame_count
unfolding map_lines
map_lines_lem = refl

Sized-make : Sized make
unfolding make
Sized-make = omega (arith, map_lines_lem, length-replicate {0} {A = ℕ} map_lines 0)

Sized-mark_allocated : (m : BitmapMemoryManager) (s n : ℕ) → Sized m → Sized (mark_allocated m s n)
unfolding mark_allocated
Sized-mark_allocated m s n h = omega (arith, (set_bits-SameShape m s 0 n true).lines)

get_bit-mark_allocated :
    (m : BitmapMemoryManager) (s n f : ℕ)
    → Sized m
    → s + n ≤ frame_count
    → get_bit (mark_allocated m s n) f ≡ (if leb s f && ltb f (s + n) then true else get_bit m f)
unfolding mark_allocated
get_bit-mark_allocated m s n f h b =
    ground (arith, get_bit-set_bits m s 0 n f true (omega arith) (omega arith))

bytes_of-eq : (d : MemoryDescriptor) → IsSane d → bytes_of d ≡ d.number_of_pages * 4096
bytes_of-eq d s = mul64-eq d.number_of_pages 4096 (omega arith)

Sized-mark_gap :
    (m : BitmapMemoryManager) (available_end : ℕ) (d : MemoryDescriptor)
    → Sized m
    → Sized (mark_gap m available_end d)
unfolding mark_gap
Sized-mark_gap m ae d h =
    ground (arith, Sized-mark_allocated m (ae / 4096) ((d.physical_start - ae) / 4096) h)

-- A frame that is free behind the gap was free before, and does not lie in the gap.
free_mark_gap :
    (m : BitmapMemoryManager) (available_end f : ℕ) (d : MemoryDescriptor)
    → Sized m
    → IsSane d
    → available_end % 4096 ≡ 0
    → get_bit (mark_gap m available_end d) f ≡ false
    → (get_bit m f ≡ false) × ((f * 4096 < available_end) ⊎ (d.physical_start ≤ f * 4096))
unfolding mark_gap
free_mark_gap m ae f d h s a e =
    ground (arith, get_bit-mark_allocated m (ae / 4096) ((d.physical_start - ae) / 4096) f h)

-- The loop over the map only ever leaves a frame below `available_end` free if it was free below the
-- old one, or lies in an available descriptor.
mark_map-Covered :
    (ds : List MemoryDescriptor) (m : BitmapMemoryManager) (available_end f : ℕ)
    → All IsSane ds
    → Sized m
    → available_end % 4096 ≡ 0
    → f < (mark_map m available_end ds).1 / 4096
    → get_bit (mark_map m available_end ds).0 f ≡ false
    → ((f * 4096 < available_end) × (get_bit m f ≡ false)) ⊎ Covered f ds
unfolding mark_map
mark_map-Covered [] m ae f s z a l e = inl (omega arith, e)
mark_map-Covered (d ∷ ds) m ae f s z a l e = elim (Bool-cases (is_available d.memory_type)) [
  | inl av ↦
      let size = bytes_of-eq d s.0 in
      let end : add64 d.physical_start (bytes_of d) ≡ d.physical_start + d.number_of_pages * 4096 =
        add64-eq d.physical_start (bytes_of d) (omega arith)
        ∙ ap (λ t. d.physical_start + t) size in
      ground (
        arith,
        mark_map-Covered ds (mark_gap m ae d) (add64 d.physical_start (bytes_of d)) f s.1
            (Sized-mark_gap m ae d z) (rw end (omega (arith, s.0.aligned))),
        free_mark_gap m ae f d z s.0 a,
      )
  | inr un ↦
      let m' = mark_gap m ae d in
      let rounds = bytes_of d / 4096 in
      ground (
        arith,
        mark_map-Covered ds (mark_allocated m' (d.physical_start / 4096) rounds) ae f s.1
            (Sized-mark_allocated m' (d.physical_start / 4096) rounds (Sized-mark_gap m ae d z)) a,
        get_bit-mark_allocated m' (d.physical_start / 4096) rounds f (Sized-mark_gap m ae d z)
            (omega (arith, bytes_of-eq d s.0)),
        free_mark_gap m ae f d z s.0 a,
      )
]

-- The loop keeps the bitmap's size, and `available_end` within it.
mark_map-Sized :
    (ds : List MemoryDescriptor) (m : BitmapMemoryManager) (available_end : ℕ)
    → All IsSane ds
    → Sized m
    → available_end ≤ frame_count * 4096
    → Sized (mark_map m available_end ds).0 × ((mark_map m available_end ds).1 ≤ frame_count * 4096)
unfolding mark_map
mark_map-Sized [] m ae s z b = (z, b)
mark_map-Sized (d ∷ ds) m ae s z b =
    let m' = mark_gap m ae d in
    let z' = Sized-mark_gap m ae d z in
    let rounds = bytes_of d / 4096 in
    ground (
      arith,
      bytes_of-eq d s.0,
      add64-eq d.physical_start (bytes_of d),
      mark_map-Sized ds m' (add64 d.physical_start (bytes_of d)) s.1 z',
      mark_map-Sized ds (mark_allocated m' (d.physical_start / 4096) rounds) ae s.1
          (Sized-mark_allocated m' (d.physical_start / 4096) rounds z') b,
    )

-- With sane descriptors and some memory, the manager that the map leaves is valid.
pub map_memory-IsValid :
    (ds : List MemoryDescriptor)
    → All IsSane ds
    → 1 ≤ (map_memory ds).range_end
    → IsValid (map_memory ds)
unfolding map_memory set_memory_range
map_memory-IsValid ds s h =
    let z = mark_map-Sized ds make 0 s Sized-make (omega arith) in
    record { ordered = h; mapped = omega (arith, z); small = omega (arith, z) }

-- A frame of the range that is free after the map was read lies in an available descriptor.
pub map_memory-Covered :
    (ds : List MemoryDescriptor) (f : ℕ)
    → All IsSane ds
    → f < (map_memory ds).range_end
    → get_bit (map_memory ds) f ≡ false
    → Covered f ds
unfolding map_memory set_memory_range get_bit
map_memory-Covered ds f s l e = elim (mark_map-Covered ds make 0 f s Sized-make refl l e) [
  | inl (h, _) ↦ absurd (omega arith)
  | inr c ↦ c
]

map_memory-bound :
    (ds : List MemoryDescriptor) → All IsSane ds → (map_memory ds).range_end ≤ frame_count
unfolding map_memory set_memory_range
map_memory-bound ds s = omega (arith, mark_map-Sized ds make 0 s Sized-make (omega arith))

-- What the kernel starts with: an error exit, or a heap of 64 * 512 frames in one piece, each in an
-- available descriptor. The loop of `Allocate` ends either way.
abbrev pub SafeStart : List MemoryDescriptor → Option Start → Type 0
SafeStart ds none = ⊥
SafeStart ds (some (exited code)) = code ≡ 1
SafeStart ds (some (started m program_break program_break_end)) =
    (program_break_end ≡ program_break + heap_frames * 4096)
    × ((i : ℕ) → i < heap_frames → Covered (program_break / 4096 + i) ds)

place_heap-SafeStart :
    (ds : List MemoryDescriptor) (m : BitmapMemoryManager)
    (r : Option (WithError ℕ × BitmapMemoryManager))
    → m.range_end ≤ frame_count
    → ((f : ℕ) → f < m.range_end → get_bit m f ≡ false → Covered f ds)
    → FirstFit m heap_frames r
    → SafeStart ds (place_heap r)
unfolding place_heap is_error
place_heap-SafeStart ds m none b c h = h
place_heap-SafeStart ds m (some (r, m')) b c (inl h) =
    let inside : r.value + 32767 < m.range_end = h.1.below 32767 (omega arith) in
    let at : mul64 r.value 4096 ≡ r.value * 4096 = mul64-eq r.value 4096 (omega arith) in
    let covered : (i : ℕ) → i < heap_frames → Covered (r.value + i) ds =
      λ i l. c (r.value + i) (h.1.below i l) (h.1.unused i l) in
    let up : add64 (r.value * 4096) (32768 * 4096) ≡ r.value * 4096 + 32768 * 4096 =
      add64-eq (r.value * 4096) (32768 * 4096) (omega arith) in
    let page : r.value * 4096 / 4096 ≡ r.value = omega arith in
    rw (h.0, at)
      (
        ap (add64 (r.value * 4096)) (mul64-eq 32768 4096 (omega arith)) ∙ up,
        λ i l. rw page (covered i l),
      )
place_heap-SafeStart ds m (some (r, m')) b c (inr h) = rw h.0 refl

-- Over a map with some available memory, whose descriptors all start on a page and end at or below the
-- 128 GiB of the bitmap, `InitializeMemoryManager` returns: either the kernel exits with 1, or the heap is
-- one piece of 64 * 512 frames, each in a descriptor that is available.
pub initialize-SafeStart :
    (ds : List MemoryDescriptor)
    → All IsSane ds
    → 1 ≤ (map_memory ds).range_end
    → SafeStart ds (initialize ds)
unfolding initialize initialize_heap
initialize-SafeStart ds s h =
    let v = map_memory-IsValid ds s h in
    place_heap-SafeStart ds (map_memory ds) (allocate (map_memory ds) heap_frames)
      (map_memory-bound ds s) (λ f l e. map_memory-Covered ds f s l e)
      (allocate-FirstFit (map_memory ds) heap_frames v)
