-- ===== src/Paging/Reach.antt =====
-- Up to which page the entry of a level reaches.
use native.Mathlib.Nat.{
  pow-suc, one-le-pow, mul-le-mul_right, div-lt_iff_lt-mul, lt-div-mul-add, mul-div_cancel,
  le-div_iff_mul-le, div-mul-le_self,
}
use hon_os.Prelude.{ℕ, suc, ◌+◌, ◌*◌, ◌/◌, ◌%◌, ◌^◌, ◌≤◌, ◌<◌, ◌≡◌, ap, sym, ◌∙◌, arith}
use hon_os.Paging.Addresses.{prefix, prefix-suc}

-- The first page behind those of the entry of the level `l` that stands for the page `s`.
abbrev pub reach : ℕ → ℕ → ℕ
reach l s = (prefix l s + 1) * 512 ^ l

pub power_positive : (l : ℕ) → 0 < 512 ^ l
power_positive l = one-le-pow l 512 (omega arith)

pub lt-reach : (l s : ℕ) → s < reach l s
lt-reach l s =
    let h : s < prefix l s * 512 ^ l + 512 ^ l = lt-div-mul-add (power_positive l) in omega arith

pub prefix-reach : (l s : ℕ) → prefix l (reach l s) ≡ prefix l s + 1
prefix-reach l s = mul-div_cancel (prefix l s + 1) (power_positive l)

pub prefix_same : (l s x : ℕ) → s ≤ x → x < reach l s → prefix l x ≡ prefix l s
prefix_same l s x low high =
    let above : prefix l x < prefix l s + 1 = (div-lt_iff_lt-mul (power_positive l)).1 high in
    let below : prefix l s ≤ prefix l x = (le-div_iff_mul-le (power_positive l)).1 (
      let h : prefix l s * 512 ^ l ≤ s = div-mul-le_self s (512 ^ l) in
      let k : prefix l s * 512 ^ l ≤ x = omega arith in k) in
    omega arith

reach-suc : (l s : ℕ) → reach (suc l) s ≡ ((prefix l s / 512 + 1) * 512) * 512 ^ l
reach-suc l s =
    ap (λ n. (n + 1) * 512 ^ suc l) (prefix-suc l s)
    ∙ ap (λ n. (prefix l s / 512 + 1) * n) (pow-suc 512 l)
    ∙ (let h : (prefix l s / 512 + 1) * (512 ^ l * 512) ≡ ((prefix l s / 512 + 1) * 512) * 512 ^ l =
          omega arith in
        h)

pub reach_up : (l s : ℕ) → reach l s ≤ reach (suc l) s
reach_up l s =
    let h : (prefix l s + 1) * 512 ^ l ≤ ((prefix l s / 512 + 1) * 512) * 512 ^ l =
      mul-le-mul_right (512 ^ l) (omega arith) in
    omega (arith, reach-suc l s)

-- The last entry of a page map reaches as far as the entry above.
pub reach_last : (l s : ℕ) → prefix l s % 512 ≡ 511 → reach l s ≡ reach (suc l) s
reach_last l s h =
    ap (λ n. n * 512 ^ l) (let k : prefix l s + 1 ≡ (prefix l s / 512 + 1) * 512 = omega arith in k)
    ∙ sym (reach-suc l s)

-- The next entry of a page map stands below the same entry.
pub prefix_next : (l s : ℕ) → prefix l s % 512 < 511 → prefix (suc l) (reach l s) ≡ prefix (suc l) s
prefix_next l s h = omega (arith, prefix-suc l s, prefix-suc l (reach l s), prefix-reach l s)
