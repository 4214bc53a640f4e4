-- ===== src/Prelude/Bits.antt =====
-- `&`, `|` and `~` bit by bit, at every width.
use native.Mathlib.Nat.{
  pow-suc, one-le-pow, div-add-mod, mul-add-mod_self_left, mod-eq_of_lt, mod-lt,
}
use Prim.Native.Nat.{
  ℕ, zero, suc, ◌+◌, ◌-◌, ◌*◌, ◌/◌, ◌%◌, ◌^◌, ◌≤◌, ◌<◌, min, max, bit_and, bit_or, digits,
  bit_and-bitwise, bit_or-bitwise,
}
use mathlib.Core.Path.{◌≡◌, refl, ap, sym, ◌∙◌}
use native.Mathlib.Omega.{arith}
use hon_os.Prelude.Tests.{◌==◌, if◌then◌else◌}

-- Both operations mean a fold over binary digits, which takes fuel. More fuel than the first number
-- changes nothing.
module _ (lone : ℕ → ℕ) (join : ℕ → ℕ → ℕ) where
  abbrev fold : ℕ → ℕ → ℕ → ℕ
  fold fuel a b = digits lone join fuel a b

  fold-suc : (fuel a b : ℕ) → a ≤ fuel → fold fuel a b ≡ fold (suc fuel) a b
  fold-suc fuel zero b enough = ground (arith, fold_done fuel b)
    where
      fold_done : (k c : ℕ) → fold k zero c ≡ fold (suc k) zero c
      fold_done zero c = refl
      fold_done (suc k) c = refl
  fold-suc zero (suc a) b enough = absurd (omega arith)
  fold-suc (suc fuel) (suc a) b enough =
      ap (λ t. t * 2 + join (suc a % 2) (b % 2)) (fold-suc fuel (suc a / 2) (b / 2) (omega arith))

  fold_more :
      (extra fuel total a b : ℕ) → fuel + extra ≡ total → a ≤ fuel → fold fuel a b ≡ fold total a b
  fold_more zero fuel total a b sum enough =
      ap (λ t. fold t a b) (let e : fuel ≡ total = omega arith in e)
  fold_more (suc extra) fuel total a b sum enough =
      fold-suc fuel a b enough ∙ fold_more extra (suc fuel) total a b (omega arith) (omega arith)

  -- One digit of the fold.
  fold_digit :
      (a b : ℕ)
      → fold (suc a) (suc a) b ≡ fold (suc a / 2) (suc a / 2) (b / 2) * 2 + join (suc a % 2) (b % 2)
  fold_digit a b =
      ap (λ t. t * 2 + join (suc a % 2) (b % 2))
        (sym
          (fold_more (a - suc a / 2) (suc a / 2) a (suc a / 2) (b / 2) (omega arith) (omega arith)))

-- The lowest digit of `&` and of `|`.
pub bit_and_halves : (a b : ℕ) → bit_and a b ≡ bit_and (a / 2) (b / 2) * 2 + min (a % 2) (b % 2)
bit_and_halves zero b =
    let none_set : (c : ℕ) → bit_and 0 c ≡ 0 = λ c. bit_and-bitwise 0 c in
    omega (arith, none_set b, none_set (b / 2))
bit_and_halves (suc a) b =
    let low = bit_and-bitwise (suc a / 2) (b / 2) in
    bit_and-bitwise (suc a) b ∙ fold_digit (λ c. zero) min a b ∙ omega (arith, low)

pub bit_or_halves : (a b : ℕ) → bit_or a b ≡ bit_or (a / 2) (b / 2) * 2 + max (a % 2) (b % 2)
bit_or_halves zero b =
    let other : (c : ℕ) → bit_or 0 c ≡ c = λ c. bit_or-bitwise 0 c in
    omega (arith, other b, other (b / 2))
bit_or_halves (suc a) b =
    let low = bit_or-bitwise (suc a / 2) (b / 2) in
    bit_or-bitwise (suc a) b ∙ fold_digit (λ c. c) max a b ∙ omega (arith, low)

-- Bit `i` of `a`, 0 or 1.
unfoldable pub bit : ℕ → ℕ → ℕ
bit a zero = a % 2
bit a (suc i) = bit (a / 2) i

pub bit-le : (a i : ℕ) → bit a i ≤ 1
unfolding bit
bit-le a zero = omega arith
bit-le a (suc i) = bit-le (a / 2) i

pub bit-zero : (i : ℕ) → bit 0 i ≡ 0
unfolding bit
bit-zero zero = refl
bit-zero (suc i) = bit-zero i

pub bit-bit_and : (i a b : ℕ) → bit (bit_and a b) i ≡ min (bit a i) (bit b i)
unfolding bit
bit-bit_and zero a b = omega (arith, bit_and_halves a b)
bit-bit_and (suc i) a b =
    let e : bit_and a b / 2 ≡ bit_and (a / 2) (b / 2) = omega (arith, bit_and_halves a b) in
    ap (λ t. bit t i) e ∙ bit-bit_and i (a / 2) (b / 2)

pub bit-bit_or : (i a b : ℕ) → bit (bit_or a b) i ≡ max (bit a i) (bit b i)
unfolding bit
bit-bit_or zero a b = omega (arith, bit_or_halves a b)
bit-bit_or (suc i) a b =
    let e : bit_or a b / 2 ≡ bit_or (a / 2) (b / 2) = omega (arith, bit_or_halves a b) in
    ap (λ t. bit t i) e ∙ bit-bit_or i (a / 2) (b / 2)

half-pow : (k : ℕ) → 2 ^ suc k / 2 ≡ 2 ^ k
half-pow k = omega (arith, pow-suc 2 k)

-- `1 << k` has bit `k` and no other.
pub bit-pow : (k i : ℕ) → bit (2 ^ k) i ≡ (if k == i then 1 else 0)
unfolding bit
bit-pow zero zero = refl
bit-pow zero (suc i) = bit-zero i ∙ ground arith
bit-pow (suc k) zero = ground (arith, pow-suc 2 k)
bit-pow (suc k) (suc i) = rw (half-pow k) (bit-pow k i ∙ ground arith)

-- The complement at width `w`.
pub bit-complement : (w i m : ℕ) → i < w → m < 2 ^ w → bit (2 ^ w - 1 - m) i ≡ 1 - bit m i
unfolding bit
bit-complement zero i m h l = absurd (omega arith)
bit-complement (suc w) zero m h l = omega (arith, pow-suc 2 w, one-le-pow w 2)
bit-complement (suc w) (suc i) m h l =
    let e : (2 ^ suc w - 1 - m) / 2 ≡ 2 ^ w - 1 - m / 2 = omega (arith, pow-suc 2 w) in
    ap (λ t. bit t i) e ∙ bit-complement w i (m / 2) (omega arith) (omega (arith, pow-suc 2 w))

nothing_and : (below a : ℕ) → a ≤ below → bit_and a 0 ≡ 0
nothing_and below zero h = bit_and-bitwise 0 0
nothing_and zero (suc a) h = absurd (omega arith)
nothing_and (suc below) (suc a) h =
    bit_and_halves (suc a) 0 ∙ omega (arith, nothing_and below (suc a / 2) (omega arith))

-- `a & (1 << k)`.
pub bit_and-pow : (k a : ℕ) → bit_and a (2 ^ k) ≡ bit a k * 2 ^ k
unfolding bit
bit_and-pow zero a = omega (arith, bit_and_halves a 1, nothing_and (a / 2) (a / 2) (omega arith))
bit_and-pow (suc k) a =
    bit_and_halves a (2 ^ suc k)
    ∙ rw (half-pow k, bit_and-pow k (a / 2))
        (omega (arith, pow-suc 2 k, ap (λ (t : ℕ). bit (a / 2) k * t) (pow-suc 2 k)))

-- So `(a & (1 << k)) != 0` reads bit `k`.
pub test_bit_lem : (k a : ℕ) → (bit_and a (2 ^ k) == 0) ≡ (bit a k == 0)
test_bit_lem k a = ground (arith, bit_and-pow k a, bit-le a k, one-le-pow k 2)

mod-twice : (a p : ℕ) → 0 < p → a % (p * 2) ≡ a / 2 % p * 2 + a % 2
mod-twice a p h =
    let whole : a ≡ p * 2 * (a / 2 / p) + (a / 2 % p * 2 + a % 2) =
      grind (arith, div-add-mod (a / 2) p) in
    ap (λ n. n % (p * 2)) whole
    ∙ mul-add-mod_self_left (p * 2) (a / 2 / p) (a / 2 % p * 2 + a % 2)
    ∙ mod-eq_of_lt
        (let below : a / 2 % p * 2 + a % 2 < p * 2 = omega (arith, mod-lt (a / 2) h) in below)

-- A mask of the lowest digits.
pub bit_and_ones : (k a : ℕ) → bit_and a (2 ^ k - 1) ≡ a % 2 ^ k
bit_and_ones zero a = nothing_and a a (omega arith) ∙ omega arith
bit_and_ones (suc k) a =
    let halved : (2 ^ suc k - 1) / 2 ≡ 2 ^ k - 1 = omega (arith, pow-suc 2 k, one-le-pow k 2) in
    let odd : (2 ^ suc k - 1) % 2 ≡ 1 = omega (arith, pow-suc 2 k, one-le-pow k 2) in
    let digits_left : min (a % 2) 1 ≡ a % 2 = omega arith in
    bit_and_halves a (2 ^ suc k - 1)
    ∙ rw (halved, odd, bit_and_ones k (a / 2), digits_left)
        (sym (ap (λ m. a % m) (pow-suc 2 k) ∙ mod-twice a (2 ^ k) (omega (arith, one-le-pow k 2))))

-- A mask of six digits behind two.
pub bit_and-0xfc : (a : ℕ) → bit_and a 252 ≡ a / 4 % 64 * 4
bit_and-0xfc a =
    let quarter : a / 2 / 2 ≡ a / 4 = omega arith in
    let next : bit_and (a / 2) 126 ≡ bit_and (a / 4) 63 * 2 + min (a / 2 % 2) 0 =
      bit_and_halves (a / 2) 126 ∙ rw quarter refl in
    let ones : bit_and (a / 4) 63 ≡ a / 4 % 64 = bit_and_ones 6 (a / 4) in
    let low : bit_and a 252 ≡ bit_and (a / 2) 126 * 2 + min (a % 2) 0 = bit_and_halves a 252 in
    omega (arith, low, next, ones)

nothing_or : (below a : ℕ) → a ≤ below → bit_or a 0 ≡ a
nothing_or below zero h = bit_or-bitwise 0 0
nothing_or zero (suc a) h = absurd (omega arith)
nothing_or (suc below) (suc a) h =
    bit_or_halves (suc a) 0 ∙ omega (arith, nothing_or below (suc a / 2) (omega arith))

pub bit_or-zero : (a : ℕ) → bit_or a 0 ≡ a
bit_or-zero a = nothing_or a a (omega arith)

-- Numbers without common digits: one ends where the other starts.
pub bit_or_shifted : (k a b : ℕ) → b < 2 ^ k → bit_or (a * 2 ^ k) b ≡ a * 2 ^ k + b
bit_or_shifted zero a b h =
    let none_left : b ≡ 0 = omega arith in
    rw none_left (nothing_or (a * 1) (a * 1) (omega arith) ∙ omega arith)
bit_or_shifted (suc k) a b h =
    let twice : a * 2 ^ suc k ≡ a * 2 ^ k * 2 =
      omega (arith, ap (λ (t : ℕ). a * t) (pow-suc 2 k)) in
    let half : a * 2 ^ suc k / 2 ≡ a * 2 ^ k = omega arith in
    let even : a * 2 ^ suc k % 2 ≡ 0 = omega arith in
    bit_or_halves (a * 2 ^ suc k) b
    ∙ rw (half, even, bit_or_shifted k a (b / 2) (omega (arith, pow-suc 2 k))) (omega arith)

pub bit_or_sum : (k q x b : ℕ) → x ≡ q * 2 ^ k → b < 2 ^ k → bit_or x b ≡ x + b
bit_or_sum k q x b e h = rw e (bit_or_shifted k q b h)
