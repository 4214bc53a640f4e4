-- ===== src/UsbMemory/Rounding.antt =====
-- `Ceil` rounds up to a multiple of a power of two.
use native.Mathlib.Nat.{
  pow-suc, one-le-pow, div-div-eq-div-mul, div-add-mod', mod-lt, mod-eq_of_lt,
  lt_of_mul-lt-mul_right,
}
use hon_os.Prelude.{
  ℕ, zero, suc, ◌+◌, ◌-◌, ◌*◌, ◌/◌, ◌%◌, ◌^◌, ◌≤◌, ◌<◌, ◌≡◌, ap, sym, ◌∙◌, bit_and, arith, add64,
  sub64, add64-eq, sub64-eq,
}
use hon_os.Prelude.Bits.{bit_and_halves, bit_and_ones}
use hon_os.UsbMemory.{ceil}

-- A mask that ends in `k` zeros.
bit_and_shifted : (k a m : ℕ) → bit_and a (m * 2 ^ k) ≡ bit_and (a / 2 ^ k) m * 2 ^ k
bit_and_shifted zero a m =
    let same : a / 1 ≡ a = omega arith in
    let one : m * 1 ≡ m = omega arith in rw (same, one) (omega arith)
bit_and_shifted (suc k) a m =
    let twice : m * 2 ^ suc k ≡ m * 2 ^ k * 2 =
      omega (arith, ap (λ (t : ℕ). m * t) (pow-suc 2 k)) in
    let half : m * 2 ^ suc k / 2 ≡ m * 2 ^ k = omega arith in
    let even : m * 2 ^ suc k % 2 ≡ 0 = omega arith in
    let deeper : a / 2 / 2 ^ k ≡ a / 2 ^ suc k =
      div-div-eq-div-mul a 2 (2 ^ k)
      ∙ ap (λ (t : ℕ). a / t) (let q : 2 * 2 ^ k ≡ 2 ^ suc k = omega (arith, pow-suc 2 k) in q) in
    bit_and_halves a (m * 2 ^ suc k)
    ∙ rw (half, even, bit_and_shifted k (a / 2) m, deeper)
        (omega (arith, ap (λ (t : ℕ). bit_and (a / 2 ^ suc k) m * t) (pow-suc 2 k)))

pub pow-add : (j k : ℕ) → 2 ^ (j + k) ≡ 2 ^ j * 2 ^ k
pow-add j zero =
    let none_more : j + 0 ≡ j = omega arith in ap (λ (t : ℕ). 2 ^ t) none_more ∙ omega arith
pow-add j (suc k) =
    let next : j + suc k ≡ suc (j + k) = omega arith in
    ap (λ (t : ℕ). 2 ^ t) next
    ∙ omega (arith, pow-suc 2 (j + k), pow-add j k, ap (λ (t : ℕ). 2 ^ j * t) (pow-suc 2 k))

minus_one : (a b c : ℕ) → 0 < a → a * b ≡ c → (a - 1) * b ≡ c - b
minus_one zero b c h e = absurd (omega arith)
minus_one (suc a) b c h e = let less : suc a - 1 ≡ a = omega arith in rw less (omega arith)

-- The mask of `Ceil`.
high_mask : (j k : ℕ) → j + k ≡ 64 → 2 ^ 64 - 1 - (2 ^ k - 1) ≡ (2 ^ j - 1) * 2 ^ k
high_mask j k h =
    let whole : 2 ^ 64 ≡ 2 ^ j * 2 ^ k = ap (λ (t : ℕ). 2 ^ t) (sym h) ∙ pow-add j k in
    omega (
      arith,
      minus_one (2 ^ j) (2 ^ k) (2 ^ 64) (one-le-pow j 2 (omega arith)) (sym whole),
      one-le-pow k 2,
    )

ceil_lem :
    (v k : ℕ) → k ≤ 31 → v + 2 ^ k < 2 ^ 64 → ceil v (2 ^ k) ≡ (v + 2 ^ k - 1) / 2 ^ k * 2 ^ k
unfolding ceil
ceil_lem v k h s =
    let some_ : 0 < 2 ^ k = one-le-pow k 2 (omega arith) in
    let x : sub64 (add64 v (2 ^ k)) 1 ≡ v + 2 ^ k - 1 =
      ap (λ t. sub64 t 1) (add64-eq v (2 ^ k) s) ∙ sub64-eq (v + 2 ^ k) 1 s (omega arith) in
    let all : 2 ^ 64 ≡ 2 ^ (64 - k) * 2 ^ k =
      ap (λ (t : ℕ). 2 ^ t) (let q : 64 ≡ 64 - k + k = omega arith in q) ∙ pow-add (64 - k) k in
    let below : (v + 2 ^ k - 1) / 2 ^ k < 2 ^ (64 - k) =
      lt_of_mul-lt-mul_right (2 ^ k) (omega (arith, div-add-mod' (v + 2 ^ k - 1) (2 ^ k), all)) in
    rw (x, high_mask (64 - k) k (omega arith))
      (bit_and_shifted k (v + 2 ^ k - 1) (2 ^ (64 - k) - 1)
        ∙ ap (λ t. t * 2 ^ k)
            (bit_and_ones (64 - k) ((v + 2 ^ k - 1) / 2 ^ k) ∙ mod-eq_of_lt below))

-- The least multiple that is not below the value.
pub record Ceiling (v m c : ℕ) : Type 0 where
  pub quotient : ℕ
  pub multiple : c ≡ quotient * m
  pub above : v ≤ c
  pub near : c < v + m

pub ceil-Ceiling : (v k : ℕ) → k ≤ 31 → v + 2 ^ k < 2 ^ 64 → Ceiling v (2 ^ k) (ceil v (2 ^ k))
ceil-Ceiling v k h s =
    let some_bytes : 0 < 2 ^ k = one-le-pow k 2 (omega arith) in
    let rest = mod-lt (v + 2 ^ k - 1) some_bytes in
    let parts = div-add-mod' (v + 2 ^ k - 1) (2 ^ k) in
    let e = ceil_lem v k h s in
    record {
      quotient = (v + 2 ^ k - 1) / 2 ^ k;
      multiple = e;
      above = omega arith;
      near = omega arith;
    }
