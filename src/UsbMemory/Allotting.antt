-- ===== src/UsbMemory/Allotting.antt =====
-- What `AllocMem` promises: aligned memory of the pool that does not cross a boundary.
use native.Mathlib.Nat.{one-le-pow, lt_of_mul-lt-mul_right, mul-le-mul_right, pow-le-pow_right}
use hon_os.Prelude.{
  ℕ, suc, ◌+◌, ◌-◌, ◌*◌, ◌^◌, ◌≤◌, ◌<◌, ◌≡◌, ap, ◌∙◌, inl, inr, Option, some, none, true, ltb,
  arith, Bool-cases, add64, add64-eq,
}
use hon_os.UsbMemory.{memory_pool_size, ceil, aligned, within_boundary, alloc_mem}
use hon_os.UsbMemory.Rounding.{ceil-Ceiling, pow-add}

-- A place for `size` bytes at or behind `alloc_ptr`, which is a multiple of `alignment`, and no multiple
-- of `boundary` is inside.
pub record Placed (alloc_ptr size alignment boundary p : ℕ) : Type 0 where
  pub quotient : ℕ
  pub multiple : p ≡ quotient * alignment
  pub behind : alloc_ptr ≤ p
  pub near : p < alloc_ptr + alignment + boundary
  pub uncrossed : (j : ℕ) → p < j * boundary → p + size ≤ j * boundary

-- What `AllocMem` returns: an address in the pool, behind which the next one is, or none for want of
-- room.
pub data Allotted (pool alloc_ptr size alignment boundary : ℕ) : Option ℕ × ℕ → Type 0 where
  room :
      (p : ℕ)
      → Placed alloc_ptr size alignment boundary p
      → p + size ≤ pool + memory_pool_size
      → Allotted pool alloc_ptr size alignment boundary (some p, p + size)
  no_room :
      (p : ℕ)
      → Placed alloc_ptr size alignment boundary p
      → pool + memory_pool_size < p + size
      → Allotted pool alloc_ptr size alignment boundary (none, p)

module _ (m size : ℕ) (s : size ≤ m) where
  -- From a boundary on.
  from_multiple : (q j : ℕ) → q * m < j * m → q * m + size ≤ j * m
  from_multiple q j h =
      let next : suc q ≤ j = omega (arith, lt_of_mul-lt-mul_right m h) in
      omega (arith, mul-le-mul_right m next)

  -- Up to the next boundary.
  up_to_multiple : (p q j : ℕ) → q * m < p + m → p < j * m → p + size ≤ q * m → p + size ≤ j * m
  up_to_multiple p q j n h l =
      let more : q * m < suc j * m = omega arith in
      let before : q ≤ j = omega (arith, lt_of_mul-lt-mul_right m more) in
      omega (arith, mul-le-mul_right m before)

small_pow : (k : ℕ) → k ≤ 31 → 2 ^ k ≤ 2 ^ 31
small_pow k h = pow-le-pow_right (omega arith) {i = k} {j = 31} h

-- A multiple of the boundary is one of the alignment.
multiple-pow : (a b q : ℕ) → a ≤ b → q * 2 ^ b ≡ q * 2 ^ (b - a) * 2 ^ a
multiple-pow a b q h =
    let whole : 2 ^ b ≡ 2 ^ (b - a) * 2 ^ a =
      ap (λ (t : ℕ). 2 ^ t) (let e : b ≡ b - a + a = omega arith in e) ∙ pow-add (b - a) a in
    omega (arith, ap (λ (t : ℕ). q * t) whole)

within_boundary-Placed :
    (alloc_ptr size a b : ℕ)
    → a ≤ b
    → b ≤ 31
    → size ≤ 2 ^ b
    → alloc_ptr + 2 ^ 34 < 2 ^ 64
    → Placed alloc_ptr size
        (2 ^ a)
        (2 ^ b)
        (within_boundary (aligned alloc_ptr (2 ^ a)) size (2 ^ b))
unfolding within_boundary aligned
within_boundary-Placed ptr size a b h l s r =
    let align : ltb 0 (2 ^ a) ≡ true = ground (arith, one-le-pow a 2) in
    let bound : ltb 0 (2 ^ b) ≡ true = ground (arith, one-le-pow b 2) in
    let small_b : 2 ^ b ≤ 2 ^ 31 = small_pow b l in
    let small_a : 2 ^ a ≤ 2 ^ 31 = small_pow a (omega arith) in
    let c = ceil-Ceiling ptr a (omega arith) (omega arith) in
    let c' = ceil-Ceiling (ceil ptr (2 ^ a)) b l (omega (arith, c.near)) in
    let add = add64-eq (ceil ptr (2 ^ a)) size (omega (arith, c.near)) in
    elim (Bool-cases (ltb (ceil (ceil ptr (2 ^ a)) (2 ^ b)) (ceil ptr (2 ^ a) + size))) [
      | inl crosses ↦
          rw (align, bound, add, crosses)
            (record {
              quotient = c'.quotient * 2 ^ (b - a);
              multiple = c'.multiple ∙ multiple-pow a b c'.quotient h;
              behind = omega (arith, c.above, c'.above);
              near = omega (arith, c.near, c'.near);
              uncrossed = λ j. rw (c'.multiple) (from_multiple (2 ^ b) size s c'.quotient j);
            })
      | inr inside ↦
          rw (align, bound, add, inside)
            (record {
              quotient = c.quotient;
              multiple = c.multiple;
              behind = c.above;
              near = omega (arith, c.near);
              uncrossed = λ j below.
                  up_to_multiple (2 ^ b) size s (ceil ptr (2 ^ a)) c'.quotient j
                    (omega (arith, c'.near, c'.multiple)) below (ground (arith, c'.multiple));
            })
    ]

-- `AllocMem` below the end of the address space, with powers of two up to 2 ^ 31 as the alignment and
-- the boundary, the alignment not above the boundary, and a size up to the
-- boundary: the memory is aligned, crosses no boundary, is inside the pool and behind all that was
-- allotted before; without room for such memory the result is the null pointer.
pub alloc_mem-Allotted :
    (pool alloc_ptr size a b : ℕ)
    → a ≤ b
    → b ≤ 31
    → size ≤ 2 ^ b
    → pool + memory_pool_size < 2 ^ 64
    → alloc_ptr + 2 ^ 34 < 2 ^ 64
    → Allotted pool alloc_ptr size (2 ^ a) (2 ^ b) (alloc_mem pool alloc_ptr size (2 ^ a) (2 ^ b))
unfolding alloc_mem
alloc_mem-Allotted pool ptr size a b h l s t r =
    let p : ℕ = within_boundary (aligned ptr (2 ^ a)) size (2 ^ b) in
    let placed = within_boundary-Placed ptr size a b h l s r in
    let small_b : 2 ^ b ≤ 2 ^ 31 = small_pow b l in
    let small_a : 2 ^ a ≤ 2 ^ 31 = small_pow a (omega arith) in
    let end = add64-eq pool memory_pool_size t in
    let next : add64 p size ≡ p + size = add64-eq p size (omega (arith, placed.near)) in
    elim (Bool-cases (ltb (pool + memory_pool_size) (p + size))) [
      | inl full ↦ rw (end, next, full) (no_room p placed (ground arith))
      | inr fits ↦ rw (end, next, fits) (room p placed (ground arith))
    ]
