-- ===== src/Memory/Frames.antt =====
-- What a change of the bitmap does to each frame's bit.
use native.Mathlib.Nat.{pow-le-pow_right, pow-suc, one-le-pow}
use hon_os.Prelude.{
  ℕ, zero, suc, ◌+◌, ◌-◌, ◌*◌, ◌/◌, ◌%◌, ◌^◌, ◌≤◌, ◌<◌, ◌≡◌, refl, ap, Bool, true, false, not, ◌&&◌,
  bit_and, bit_or, ◌==◌, ltb, leb, if◌then◌else◌, arith, add64, add64-eq, length, get_or,
  get_or-set_self, get_or-set_ne, length-set, ℕ_discrete,
}
use hon_os.Prelude.Bits.{
  bit, bit-le, bit-bit_and, bit-bit_or, bit-pow, bit-complement, test_bit_lem,
}
use hon_os.Memory.{BitmapMemoryManager, get_bit, set_bit, set_bits}

-- The range is one, the bitmap has a bit for each frame of it, and frame numbers do not wrap.
pub record IsValid (m : BitmapMemoryManager) : Type 0 where
  pub ordered : m.range_begin ≤ m.range_end
  pub mapped : m.range_end ≤ length m.alloc_map * 64
  pub small : length m.alloc_map * 64 < 2 ^ 64

pub get_bit-bit :
    (m : BitmapMemoryManager) (f : ℕ)
    → get_bit m f ≡ not (bit (get_or m.alloc_map (f / 64) 0) (f % 64) == 0)
unfolding get_bit
get_bit-bit m f = ap not (test_bit_lem (f % 64) (get_or m.alloc_map (f / 64) 0))

mask-lt : (k : ℕ) → k < 64 → 2 ^ k < 2 ^ 64
mask-lt k h = omega (
  arith,
  pow-suc 2 k,
  one-le-pow k 2,
  pow-le-pow_right {n = 2} (omega arith) {i = suc k} {j = 64} h,
)

-- One line after `|=` or `&= ~`: the chosen bit is written, the others stay.
written_line :
    (line k i : ℕ) (b : Bool)
    → k < 64
    → i < 64
    → not (bit (if b then bit_or line (2 ^ k) else bit_and line (2 ^ 64 - 1 - 2 ^ k)) i == 0)
      ≡ (if k == i then b else not (bit line i == 0))
written_line line k i true hk hi =
    ground (arith, bit-bit_or i line (2 ^ k), bit-pow k i, bit-le line i)
written_line line k i false hk hi = ground (
  arith,
  bit-bit_and i line (2 ^ 64 - 1 - 2 ^ k),
  bit-complement 64 i (2 ^ k) hi (mask-lt k hk),
  bit-pow k i,
  bit-le line i,
)

-- Writing a frame's bit changes that bit and no other.
pub get_bit-set_bit :
    (m : BitmapMemoryManager) (f g : ℕ) (b : Bool)
    → f < length m.alloc_map * 64
    → get_bit (set_bit m f b) g ≡ (if f == g then b else get_bit m g)
unfolding set_bit
get_bit-set_bit m f g b h = elim (ℕ_discrete (f / 64) (g / 64)) [
  | yes e ↦
      let line = get_or m.alloc_map (f / 64) 0 in
      let mask = 2 ^ (f % 64) in
      let new = if b then bit_or line mask else bit_and line (2 ^ 64 - 1 - mask) in
      ground (
        arith,
        get_bit-bit (set_bit m f b) g,
        get_bit-bit m g,
        get_or-set_self m.alloc_map (f / 64) new 0 (omega arith),
        written_line line (f % 64) (g % 64) b (omega arith) (omega arith),
      )
  | no e ↦
      let line = get_or m.alloc_map (f / 64) 0 in
      let mask = 2 ^ (f % 64) in
      let new = if b then bit_or line mask else bit_and line (2 ^ 64 - 1 - mask) in
      ground (
        arith,
        get_bit-bit (set_bit m f b) g,
        get_bit-bit m g,
        get_or-set_ne m.alloc_map (f / 64) (g / 64) new 0 e,
      )
]

-- The range and the size of the bitmap stay.
pub record SameShape (m n : BitmapMemoryManager) : Type 0 where
  pub begins : n.range_begin ≡ m.range_begin
  pub ends : n.range_end ≡ m.range_end
  pub lines : length n.alloc_map ≡ length m.alloc_map

pub set_bit-SameShape : (m : BitmapMemoryManager) (f : ℕ) (b : Bool) → SameShape m (set_bit m f b)
unfolding set_bit
set_bit-SameShape m f b = record {
  begins = refl;
  ends = refl;
  lines = length-set m.alloc_map (f / 64) _;
}

pub set_bits-SameShape :
    (m : BitmapMemoryManager) (start i rounds : ℕ) (b : Bool)
    → SameShape m (set_bits m start i rounds b)
unfolding set_bits
set_bits-SameShape m start i zero b = record { begins = refl; ends = refl; lines = refl }
set_bits-SameShape m start i (suc rounds) b =
    let next = set_bit m (add64 start i) b in
    ground
      (arith, set_bit-SameShape m (add64 start i) b, set_bits-SameShape next start (i + 1) rounds b)

-- The loop of `Free` and `MarkAllocated` writes the frames of its interval and no other.
pub get_bit-set_bits :
    (m : BitmapMemoryManager) (start i rounds g : ℕ) (b : Bool)
    → start + i + rounds ≤ length m.alloc_map * 64
    → length m.alloc_map * 64 < 2 ^ 64
    → get_bit (set_bits m start i rounds b) g
      ≡ (if leb (start + i) g && ltb g (start + i + rounds) then b else get_bit m g)
unfolding set_bits
get_bit-set_bits m start i zero g b h l = ground arith
get_bit-set_bits m start i (suc rounds) g b h l =
    let next = set_bit m (start + i) b in
    let shape = set_bit-SameShape m (start + i) b in
    rw (add64-eq start i (omega arith)) (
      ground (
        arith,
        get_bit-set_bits next start (i + 1) rounds g b (omega (arith, shape.lines))
            (omega (arith, shape.lines)),
        get_bit-set_bit m (start + i) g b (omega arith),
      ))

pub SameShape-IsValid : (m n : BitmapMemoryManager) → SameShape m n → IsValid m → IsValid n
SameShape-IsValid m n s v = omega (arith, s.begins, s.ends, ap (λ (t : ℕ). t * 64) s.lines)
