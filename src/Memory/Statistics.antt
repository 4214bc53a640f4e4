-- ===== src/Memory/Statistics.antt =====
-- `Stat`, which counts whole lines of the bitmap.
use hon_os.Prelude.{
  ℕ, zero, suc, ◌+◌, ◌-◌, ◌*◌, ◌/◌, ◌%◌, ◌≤◌, ◌<◌, ◌≡◌, ap, sym, ◌∙◌, Bool, not, ◌==◌,
  if◌then◌else◌, arith, sub64-eq, get_or, get_or-set_ne, refl, ◌^◌,
}
use hon_os.Prelude.Bits.{bit, bit-le}
use hon_os.Memory.{BitmapMemoryManager, get_bit, set_bit, bits_set, count_lines, stat}
use hon_os.Memory.Frames.{get_bit-bit}

-- How many of the `n` frames from `g` on are in use.
pub used_among : BitmapMemoryManager → ℕ → ℕ → ℕ
used_among m g zero = 0
used_among m g (suc n) = used_among m g n + (if get_bit m (g + n) then 1 else 0)

used_among-none : (m : BitmapMemoryManager) (g : ℕ) → used_among m g 0 ≡ 0
unfolding used_among
used_among-none m g = refl

used_among-add :
    (m : BitmapMemoryManager) (g a b : ℕ)
    → used_among m g (a + b) ≡ used_among m g a + used_among m (g + a) b
unfolding used_among
used_among-add m g a zero = let e : a + 0 ≡ a = omega arith in rw e (omega arith)
used_among-add m g a (suc b) =
    let e : a + suc b ≡ suc (a + b) = omega arith in
    let f : g + (a + b) ≡ g + a + b = omega arith in
    rw e (omega (arith, ap {B = ℕ} (λ t. if get_bit m t then 1 else 0) f, used_among-add m g a b))

line_bit :
    (m : BitmapMemoryManager) (i k : ℕ)
    → k < 64
    → bit (get_or m.alloc_map i 0) k ≡ (if get_bit m (i * 64 + k) then 1 else 0)
line_bit m i k h =
    let at : (i * 64 + k) / 64 ≡ i = omega arith in
    let off : (i * 64 + k) % 64 ≡ k = omega arith in
    let read : get_bit m (i * 64 + k) ≡ not (bit (get_or m.alloc_map i 0) k == 0) =
      get_bit-bit m (i * 64 + k) ∙ rw (at, off) in
    ground (arith, read, bit-le (get_or m.alloc_map i 0) k)

bits_set-used_among :
    (m : BitmapMemoryManager) (i k : ℕ)
    → k ≤ 64
    → bits_set k (get_or m.alloc_map i 0) ≡ used_among m (i * 64) k
unfolding bits_set used_among
bits_set-used_among m i zero h = omega arith
bits_set-used_among m i (suc k) h =
    omega (arith, bits_set-used_among m i k (omega arith), line_bit m i k h)

count_lines-used_among :
    (m : BitmapMemoryManager) (i n : ℕ) → count_lines m i n ≡ used_among m (i * 64) (n * 64)
unfolding count_lines
count_lines-used_among m i zero = sym (used_among-none m (i * 64))
count_lines-used_among m i (suc n) =
    let e : suc n * 64 ≡ 64 + n * 64 = omega arith in
    let f : (i + 1) * 64 ≡ i * 64 + 64 = omega arith in
    let rest : count_lines m (i + 1) n ≡ used_among m (i * 64 + 64) (n * 64) =
      count_lines-used_among m (i + 1) n ∙ rw f in
    rw (e, used_among-add m (i * 64) 64 (n * 64))
      (omega (arith, bits_set-used_among m i 64 (omega arith), rest))

-- `Stat` reports as allocated the frames in use from the first frame of the line where the range
-- begins up to the last whole line before its end, and as the total the length of the range.
pub stat_lem :
    (m : BitmapMemoryManager)
    → m.range_begin ≤ m.range_end
    → m.range_end < 2 ^ 64
    → let first = m.range_begin / 64 * 64 in
      ((stat m).allocated_frames ≡ used_among m first (m.range_end / 64 * 64 - first))
      × ((stat m).total_frames ≡ m.range_end - m.range_begin)
unfolding stat
stat_lem m h s =
    let e : m.range_end / 64 * 64 - m.range_begin / 64 * 64
        ≡ (m.range_end / 64 - m.range_begin / 64) * 64 =
      omega arith in
    (rw e (count_lines-used_among m _ _), sub64-eq m.range_end m.range_begin s h)

count_lines-set_bit :
    (m : BitmapMemoryManager) (f i n : ℕ) (b : Bool)
    → i + n ≤ f / 64
    → count_lines (set_bit m f b) i n ≡ count_lines m i n
unfolding count_lines set_bit
count_lines-set_bit m f i zero b h = refl
count_lines-set_bit m f i (suc n) b h =
    rw (get_or-set_ne m.alloc_map (f / 64) i _ 0 (λ e. omega arith)) (
      ap (λ t. bits_set 64 (get_or m.alloc_map i 0) + t)
        (count_lines-set_bit m f (i + 1) n b (omega arith)))

-- So a frame behind the last whole line is not counted: whatever is done to it, if it lies in the
-- range at all, `Stat` reports the same number of allocated frames.
pub stat_misses_tail :
    (m : BitmapMemoryManager) (f : ℕ) (b : Bool)
    → m.range_begin ≤ m.range_end
    → m.range_end / 64 * 64 ≤ f
    → f < m.range_end
    → (stat (set_bit m f b)).allocated_frames ≡ (stat m).allocated_frames
unfolding stat set_bit
stat_misses_tail m f b o h l = count_lines-set_bit m f _ _ b (omega arith)
