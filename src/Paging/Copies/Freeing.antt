-- ===== src/Paging/Copies/Freeing.antt =====
-- `Free` of one frame.
use hon_os.Prelude.{
  ℕ, zero, suc, ◌+◌, ◌*◌, ◌/◌, ◌%◌, ◌^◌, ◌≤◌, ◌<◌, ◌≡◌, refl, ap, sym, ◌∙◌, Bool, true, false,
  arith, List, [], ◌∷◌, set, length, dec_lt, add64,
}
use hon_os.Errors.{success}
use hon_os.Memory.{BitmapMemoryManager, get_bit, set_bit, free}
use hon_os.Memory.Frames.{IsValid, get_bit-set_bit}

set_past : (xs : List ℕ) (i x : ℕ) → length xs ≤ i → set xs i x ≡ xs
set_past [] i x h = refl
set_past (y ∷ xs) zero x h = absurd (omega arith)
set_past (y ∷ xs) (suc i) x h = ap (λ ys. y ∷ ys) (set_past xs i x (omega arith))

set_bit_past :
    (m : BitmapMemoryManager) (f : ℕ) (b : Bool) → length m.alloc_map * 64 ≤ f → set_bit m f b ≡ m
unfolding set_bit
set_bit_past m f b h =
    ap (λ lines. record m { alloc_map = lines }) (set_past m.alloc_map (f / 64) _ (omega arith))

pub free_one :
    (m : BitmapMemoryManager) (f : ℕ) → free m f 1 ≡ (success, set_bit m (add64 f 0) false)
unfolding free hon_os.Memory.set_bits
free_one m f = refl

-- No frame is in use that was not.
pub free_only :
    (m : BitmapMemoryManager) (f g : ℕ) → get_bit (set_bit m f false) g ≡ true → get_bit m g ≡ true
free_only m f g h = elim (dec_lt f (length m.alloc_map * 64)) [
  | yes inside ↦ ground (arith, get_bit-set_bit m f g false inside)
  | no outside ↦ ap (λ k. get_bit k g) (sym (set_bit_past m f false (omega arith))) ∙ h
]

pub freed_lem :
    (m : BitmapMemoryManager) (f : ℕ)
    → IsValid m
    → f < length m.alloc_map * 64
    → get_bit (set_bit m (add64 f 0) false) f ≡ false
unfolding add64
freed_lem m f v h =
    let small = v.small in
    let same : (f + 0) % 2 ^ 64 ≡ f = omega arith in
    rw same (get_bit-set_bit m f f false h ∙ ground arith)
