-- ===== src/Memory/FirstFit.antt =====
-- `Allocate` against its specification: the first run of free frames in the range.
use hon_os.Prelude.{
  ℕ, zero, suc, ◌+◌, ◌-◌, ◌*◌, ◌^◌, ◌≤◌, ◌<◌, ◌≡◌, refl, ◌⊎◌, inl, inr, true, false, ◌&&◌, ltb, leb,
  if◌then◌else◌, arith, add64, add64-eq, length, Option, none, some, Bool-cases, dec_lt, ℕ_discrete,
}
use hon_os.Errors.{success, no_enough_memory, WithError}
use hon_os.Memory.{
  BitmapMemoryManager, get_bit, mark_allocated, Probe, past_end, in_use, all_free, probe,
  allocate_from, allocate, null_frame,
}
use hon_os.Memory.Frames.{IsValid, SameShape, set_bits-SameShape, get_bit-set_bits}

-- The `n` frames from `s` on lie in the range and are not in use.
pub record FreeRun (m : BitmapMemoryManager) (s n : ℕ) : Type 0 where
  pub above : m.range_begin ≤ s
  pub below : (i : ℕ) → i < n → s + i < m.range_end
  pub unused : (i : ℕ) → i < n → get_bit m (s + i) ≡ false

-- What the inner loop has found out when it stops, started at round `i` of `n`.
abbrev pub Probed : BitmapMemoryManager → ℕ → ℕ → ℕ → Probe → Type 0
Probed m start i n past_end = (j : ℕ) × (i ≤ j) × (j < n) × (m.range_end ≤ start + j)
Probed m start i n (in_use j) =
    (i ≤ j) × (j < n) × (start + j < m.range_end) × (get_bit m (start + j) ≡ true)
Probed m start i n all_free =
    (j : ℕ) → i ≤ j → j < n → (start + j < m.range_end) × (get_bit m (start + j) ≡ false)

module _ (m : BitmapMemoryManager) (small : m.range_end < 2 ^ 64) where
  Probed-earlier :
      (start i n : ℕ) (p : Probe)
      → start + i < m.range_end
      → get_bit m (start + i) ≡ false
      → Probed m start (i + 1) n p
      → Probed m start i n p
  Probed-earlier start i n past_end l u (j, a, b, c) = (j, omega arith, b, c)
  Probed-earlier start i n (in_use j) l u h = (omega arith, h.1, h.2, h.3)
  Probed-earlier start i n all_free l u h = λ j a b. at j a b (ℕ_discrete i j)
    where
      at :
          (j : ℕ)
          → i ≤ j
          → j < n
          → Dec (i ≡ j)
          → (start + j < m.range_end) × (get_bit m (start + j) ≡ false)
      at j a b (yes e) = rw (← e) (l, u)
      at j a b (no e) = h j (omega arith) b

  probe-Probed :
      (start i rounds n : ℕ)
      → i + rounds ≡ n
      → start + i < 2 ^ 64
      → Probed m start i n (probe m start i rounds)
  unfolding probe
  probe-Probed start i zero n e s = λ j a b. absurd (omega arith)
  probe-Probed start i (suc rounds) n e s = elim (Bool-cases (leb m.range_end (start + i))) [
    | inl past ↦
        rw (add64-eq start i (omega arith), past) (i, omega arith, omega arith, ground arith)
    | inr inside ↦ elim (Bool-cases (get_bit m (start + i))) [
      | inl used ↦
          rw (add64-eq start i (omega arith), inside, used)
            (omega arith, omega arith, ground arith, used)
      | inr unused ↦
          rw (add64-eq start i (omega arith), inside, unused)
            (Probed-earlier start i n _ (ground arith) unused
              (probe-Probed start (i + 1) rounds n (omega arith) (ground arith)))
    ]
  ]

-- What `Allocate` promises of `n` frames: the first run of free frames, now in use, with all else as
-- it was; or, if no run is free, an error and no change.
abbrev pub FirstFit : BitmapMemoryManager → ℕ → Option (WithError ℕ × BitmapMemoryManager) → Type 0
FirstFit m n none = ⊥
FirstFit m n (some (r, m')) =
    ((r.error ≡ success)
      × FreeRun m r.value n
      × ((s : ℕ) → s < r.value → ¬ FreeRun m s n)
      × ((g : ℕ)
          → get_bit m' g ≡ (if leb r.value g && ltb g (r.value + n) then true else get_bit m g))
      × SameShape m m')
    ⊎ ((r.error ≡ no_enough_memory)
        × (r.value ≡ null_frame)
        × ((s : ℕ) → ¬ FreeRun m s n)
        × (m' ≡ m))

module _ (m : BitmapMemoryManager) (v : IsValid m) (n : ℕ) where
  -- No run begins below `start`.
  abbrev NoneBelow : ℕ → Type 0
  NoneBelow start = (s : ℕ) → s < start → ¬ FreeRun m s n

  none_past_end :
      (start j : ℕ) → NoneBelow start → j < n → m.range_end ≤ start + j → (s : ℕ) → ¬ FreeRun m s n
  none_past_end start j none_below h e s r = elim (dec_lt s start) [
    | yes l ↦ none_below s l r
    | no l ↦ absurd (omega (arith, r.below j h))
  ]

  none_past_used :
      (start j : ℕ)
      → NoneBelow start
      → j < n
      → get_bit m (start + j) ≡ true
      → NoneBelow (start + (j + 1))
  none_past_used start j none_below h u s b r = elim (dec_lt s start) [
    | yes l ↦ none_below s l r
    | no l ↦
        let at : s + (start + j - s) ≡ start + j = omega arith in
        let clash : get_bit m (start + j) ≡ false =
          rw at at (r.unused (start + j - s) (omega arith)) in
        cc
  ]

  marked :
      (start : ℕ)
      → m.range_begin ≤ start
      → start ≤ m.range_end
      → NoneBelow start
      → Probed m start 0 n all_free
      → FirstFit m n (some (record { value = start; error = success }, mark_allocated m start n))
  unfolding mark_allocated
  marked start a b none_below h = inl (
    refl,
    record {
      above = a;
      below = λ i l. (h i (omega arith) l).0;
      unused = λ i l. (h i (omega arith) l).1;
    },
    none_below,
    λ g. ground (arith, get_bit-set_bits m start 0 n g true (room n h) v.small),
    set_bits-SameShape m start 0 n true,
  )
    where
      room : (k : ℕ) → Probed m start 0 k all_free → start + 0 + k ≤ length m.alloc_map * 64
      room zero p = omega arith
      room (suc k) p = omega (arith, (p k (omega arith) (omega arith)).0)

  allocate_from-FirstFit :
      (fuel start : ℕ)
      → m.range_begin ≤ start
      → start ≤ m.range_end
      → m.range_end - start < fuel
      → NoneBelow start
      → FirstFit m n (allocate_from fuel m start n)
  unfolding allocate_from
  allocate_from-FirstFit zero start a b f nb = absurd (omega arith)
  allocate_from-FirstFit (suc fuel) start a b f nb =
      (elim (probe m start 0 n)
          as (λ p.
            Probed m start 0 n p
            → FirstFit m n (elim p [
              | past_end ↦ some (record { value = null_frame; error = no_enough_memory }, m)
              | in_use i ↦ allocate_from fuel m (add64 start (i + 1)) n
              | all_free ↦
                  some (record { value = start; error = success }, mark_allocated m start n)
            ])) [
              | past_end ↦ λ (j, _, h, e). inr (refl, refl, none_past_end start j nb h e, refl)
              | in_use j ↦ λ (_, h, e, u). rw (add64-eq start (j + 1) (omega arith)) (
                  allocate_from-FirstFit fuel (start + (j + 1)) (omega arith) (omega arith)
                    (omega arith) (none_past_used start j nb h u))
              | all_free ↦ λ h. marked start a b nb h
            ])
        (probe-Probed m (omega arith) start 0 n n (omega arith) (omega arith))

-- `Allocate` returns, with the first run of free frames marked as in use, or with an error and no
-- change when the range has no such run.
pub allocate-FirstFit : (m : BitmapMemoryManager) (n : ℕ) → IsValid m → FirstFit m n (allocate m n)
unfolding allocate
allocate-FirstFit m n v =
    allocate_from-FirstFit m v n _ m.range_begin (omega arith) v.ordered (omega arith)
      (λ s l r. omega (arith, r.above))
