-- ===== src/Memory/Lifetime.antt =====
-- Frames from `Allocate` to `Free`.
use hon_os.Prelude.{
  ℕ, zero, suc, ◌+◌, ◌-◌, ◌*◌, ◌≤◌, ◌<◌, ◌≡◌, inl, inr, true, false, ◌&&◌, ltb, leb, if◌then◌else◌,
  arith, length, some, dec_lt,
}
use hon_os.Errors.{success, WithError}
use hon_os.Memory.{BitmapMemoryManager, get_bit, free, allocate}
use hon_os.Memory.Frames.{
  IsValid, SameShape, SameShape-IsValid, set_bits-SameShape, get_bit-set_bits,
}
use hon_os.Memory.FirstFit.{FreeRun, allocate-FirstFit}

-- What a successful `Allocate` of `n` frames at `s` has done.
pub record Taken (m : BitmapMemoryManager) (n s : ℕ) (m' : BitmapMemoryManager) : Type 0 where
  pub run : FreeRun m s n
  pub bits : (g : ℕ) → get_bit m' g ≡ (if leb s g && ltb g (s + n) then true else get_bit m g)
  pub shape : SameShape m m'

pub allocate-Taken :
    (m m' : BitmapMemoryManager) (n : ℕ) (r : WithError ℕ)
    → IsValid m
    → allocate m n ≡ some (r, m')
    → r.error ≡ success
    → Taken m n r.value m'
allocate-Taken m m' n r v e ok = elim (rw e at (allocate-FirstFit m n v)) [
  | inl h ↦ record { run = h.1; bits = h.3; shape = h.4 }
  | inr h ↦ cc
]

-- The last frame of a run that is not empty lies under the end of the bitmap.
run_end :
    (m : BitmapMemoryManager) (s n : ℕ)
    → IsValid m
    → s ≤ m.range_end
    → FreeRun m s n
    → s + 0 + n ≤ length m.alloc_map * 64
run_end m s zero v b r = omega arith
run_end m s (suc n) v b r = omega (arith, r.below n (omega arith))

-- Freeing what a successful `Allocate` of at least one frame returned gives back the bitmap as it
-- was, and the manager stays valid.
pub free-allocate :
    (m m' : BitmapMemoryManager) (n : ℕ) (r : WithError ℕ)
    → IsValid m
    → 0 < n
    → allocate m n ≡ some (r, m')
    → r.error ≡ success
    → ((g : ℕ) → get_bit (free m' r.value n).1 g ≡ get_bit m g) × IsValid (free m' r.value n).1
unfolding free
free-allocate m m' n r v pos e ok = (same, SameShape-IsValid m' _ shape' valid')
  where
    t : Taken m n r.value m'
    t = allocate-Taken m m' n r v e ok

    valid' : IsValid m'
    valid' = SameShape-IsValid m m' t.shape v

    shape' : SameShape m' (free m' r.value n).1
    shape' = set_bits-SameShape m' r.value 0 n false

    fits : r.value + 0 + n ≤ length m'.alloc_map * 64
    fits = rw t.shape.lines (run_end m r.value n v (omega (arith, t.run.below 0 pos)) t.run)

    same : (g : ℕ) → get_bit (free m' r.value n).1 g ≡ get_bit m g
    same g = elim (dec_lt g r.value) [
      | yes l ↦ ground (arith, get_bit-set_bits m' r.value 0 n g false fits valid'.small, t.bits g)
      | no l ↦ elim (dec_lt g (r.value + n)) [
        | yes k ↦
            let at : r.value + (g - r.value) ≡ g = omega arith in
            let unused : get_bit m g ≡ false =
              rw at at (t.run.unused (g - r.value) (omega arith)) in
            ground (arith, get_bit-set_bits m' r.value 0 n g false fits valid'.small)
        | no k ↦ ground (arith, get_bit-set_bits m' r.value 0 n g false fits valid'.small, t.bits g)
      ]
    ]

-- Two successful allocations, the second with the first still held, share no frame.
pub allocate_disjoint :
    (m m' m'' : BitmapMemoryManager) (n k : ℕ) (r r' : WithError ℕ)
    → IsValid m
    → allocate m n ≡ some (r, m')
    → r.error ≡ success
    → allocate m' k ≡ some (r', m'')
    → r'.error ≡ success
    → (f : ℕ) → r.value ≤ f
    → f < r.value + n
    → ¬ ((r'.value ≤ f) × (f < r'.value + k))
allocate_disjoint m m' m'' n k r r' v e ok e' ok' f a b (c, d) = clash
  where
    t : Taken m n r.value m'
    t = allocate-Taken m m' n r v e ok

    t' : Taken m' k r'.value m''
    t' = allocate-Taken m' m'' k r' (SameShape-IsValid m m' t.shape v) e' ok'

    used : get_bit m' f ≡ true
    used = ground (arith, t.bits f)

    unused : get_bit m' f ≡ false
    unused =
        let at : r'.value + (f - r'.value) ≡ f = omega arith in
        rw at at (t'.run.unused (f - r'.value) (omega arith))

    clash : ⊥
    clash = cc (used, unused)
