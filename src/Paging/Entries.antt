-- ===== src/Paging/Entries.antt =====
-- What `NewPageMap` and `SetNewPageMapIfNotPresent` do to a tree of page maps.
use hon_os.Prelude.{
  ℕ, ◌+◌, ◌*◌, ◌/◌, ◌≢◌, ◌≤◌, ◌<◌, ◌≡◌, ◌⊎◌, inl, inr, refl, ap, ◌∙◌, Option, none, some, true,
  false, arith, mul64, mul64-eq,
}
use hon_os.Errors.{success, no_enough_memory, is_error, WithError}
use hon_os.Memory.{BitmapMemoryManager, bytes_per_frame, frame_count, get_bit, allocate}
use hon_os.Memory.Frames.{IsValid, SameShape-IsValid}
use hon_os.Memory.FirstFit.{FirstFit, allocate-FirstFit}
use hon_os.Paging.{clear, Machine, new_page_map}

-- A page map that `NewPageMap` has made: a frame that was free, cleared.
pub record NewMap (m : Machine) (p : ℕ) (m' : Machine) : Type 0 where
  pub frame : ℕ
  pub address : p ≡ frame * bytes_per_frame
  pub low : frame < frame_count
  pub unused : get_bit m.manager frame ≡ false
  pub memory : m'.memory ≡ clear m.memory p
  pub used : get_bit m'.manager frame ≡ true
  pub kept : (g : ℕ) → get_bit m.manager g ≡ true → get_bit m'.manager g ≡ true
  pub manager : IsValid m'.manager
  pub small : m'.manager.range_end ≤ frame_count

new_success :
    (m : Machine) (f : ℕ) (n : BitmapMemoryManager)
    → allocate m.manager 1 ≡ some (record { value = f; error = success }, n)
    → f < frame_count
    → new_page_map m
      ≡ some (
        record { value = f * bytes_per_frame; error = success },
        record { memory = clear m.memory (f * bytes_per_frame); manager = n },
      )
unfolding new_page_map is_error
new_success m f n e h =
    let whole : mul64 f bytes_per_frame ≡ f * bytes_per_frame =
      mul64-eq f bytes_per_frame (omega arith) in
    rw (e, whole) refl

new_failure :
    (m : Machine) (f : ℕ)
    → allocate m.manager 1 ≡ some (record { value = f; error = no_enough_memory }, m.manager)
    → new_page_map m ≡ some (record { value = 0; error = no_enough_memory }, m)
unfolding new_page_map is_error
new_failure m f e = rw e refl

pub new_page_map-NewMap :
    (m : Machine)
    → IsValid m.manager
    → m.manager.range_end ≤ frame_count
    → (new_page_map m ≡ some (record { value = 0; error = no_enough_memory }, m))
      ⊎ ((p : ℕ) × (m' : Machine) × (new_page_map m
            ≡ some (record { value = p; error = success }, m'))
          × NewMap m p m')
new_page_map-NewMap m v s = go (allocate m.manager 1) refl (allocate-FirstFit m.manager 1 v)
  where
    go :
        (r : Option (WithError ℕ × BitmapMemoryManager))
        → allocate m.manager 1 ≡ r
        → FirstFit m.manager 1 r
        → (new_page_map m ≡ some (record { value = 0; error = no_enough_memory }, m))
          ⊎ ((p : ℕ) × (m' : Machine) × (new_page_map m
                ≡ some (record { value = p; error = success }, m'))
              × NewMap m p m')
    go none e h = absurd h
    go (some (r, n)) e (inr (ok, value, full, same)) = inl (
        new_failure m r.value (
          e
          ∙ ap (λ k. some (record { value = r.value; error = k }, n)) ok
          ∙ ap (λ k. some (record { value = r.value; error = no_enough_memory }, k)) same))
    go (some (r, n)) e (inl (ok, run, first, bits, shape)) =
        let f : ℕ = r.value in
        let low : f < frame_count = omega (arith, run.below 0 (omega arith)) in
        let e' = e ∙ ap (λ k. some (record { value = f; error = k }, n)) ok in
        inr (
          f * bytes_per_frame,
          record { memory = clear m.memory (f * bytes_per_frame); manager = n },
          new_success m f n e' low,
          record {
            frame = f;
            address = refl;
            low = low;
            unused =
                ap (get_bit m.manager) (let q : f ≡ f + 0 = omega arith in q)
                ∙ run.unused 0 (omega arith);
            memory = refl;
            used = bits f ∙ ground arith;
            kept = λ g h. bits g ∙ ground arith;
            manager = SameShape-IsValid m.manager n shape v;
            small = omega (arith, shape.ends);
          },
        )

-- The new page map is no page in use.
pub used_ne :
    (m : Machine) (p : ℕ) (m' : Machine) (t : ℕ)
    → NewMap m p m'
    → get_bit m.manager (t / bytes_per_frame) ≡ true
    → t ≢ p
used_ne m p m' t fresh held e =
    let same : t / bytes_per_frame ≡ fresh.frame = omega (arith, fresh.address) in
    let free = fresh.unused in ground (arith, ap (get_bit m.manager) same)
