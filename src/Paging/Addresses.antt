-- ===== src/Paging/Addresses.antt =====
-- Linear addresses as numbers of pages.
use native.Mathlib.Nat.{pow-suc, div-div-eq-div-mul}
use hon_os.Prelude.{ℕ, zero, suc, ◌+◌, ◌*◌, ◌/◌, ◌%◌, ◌^◌, ◌<◌, ◌≡◌, ap, sym, ◌∙◌, arith}
use hon_os.Paging.{LinearAddress, of_value, part, set_part, clear_below, advance}

-- The parts are bit fields.
pub record IsAddress (a : LinearAddress) : Type 0 where
  pub page : a.page < 512
  pub dir : a.dir < 512
  pub pdp : a.pdp < 512
  pub pml4 : a.pml4 < 512

-- The number of the page, among the 2 ^ 36 that four levels reach.
abbrev pub number : LinearAddress → ℕ
number a = ((a.pml4 * 512 + a.pdp) * 512 + a.dir) * 512 + a.page

-- The number of the entry at a level that stands for the page.
abbrev pub prefix : ℕ → ℕ → ℕ
prefix l x = x / 512 ^ l

pub prefix-suc : (l x : ℕ) → prefix (suc l) x ≡ prefix l x / 512
prefix-suc l x = ap (λ (k : ℕ). x / k) (pow-suc 512 l) ∙ sym (div-div-eq-div-mul x (512 ^ l) 512)

pub part_lem :
    (l : ℕ) (a : LinearAddress) → l < 4 → IsAddress a → part a (suc l) ≡ prefix l (number a) % 512
unfolding part
part_lem zero a h k = omega arith
part_lem (suc zero) a h k = omega arith
part_lem (suc (suc zero)) a h k = omega arith
part_lem (suc (suc (suc zero))) a h k = omega arith
part_lem (suc (suc (suc (suc l)))) a h k = absurd (omega arith)

pub part-lt : (l : ℕ) (a : LinearAddress) → l < 4 → IsAddress a → part a (suc l) < 512
part-lt l a h k = omega (arith, part_lem l a h k)

-- The next entry of a level starts at the next multiple of what an entry there reaches.
pub advance_lem :
    (l : ℕ) (a : LinearAddress)
    → l < 4
    → IsAddress a
    → part a (suc l) < 511
    → (number (advance a (suc l) (part a (suc l))) ≡ (prefix l (number a) + 1) * 512 ^ l)
      × IsAddress (advance a (suc l) (part a (suc l)))
unfolding part advance set_part clear_below
advance_lem zero a h k b =
    (omega arith, record { page = omega arith; dir = k.dir; pdp = k.pdp; pml4 = k.pml4 })
advance_lem (suc zero) a h k b =
    (omega arith, record { page = omega arith; dir = omega arith; pdp = k.pdp; pml4 = k.pml4 })
advance_lem (suc (suc zero)) a h k b = (
  omega arith,
  record { page = omega arith; dir = omega arith; pdp = omega arith; pml4 = k.pml4 },
)
advance_lem (suc (suc (suc zero))) a h k b = (
  omega arith,
  record { page = omega arith; dir = omega arith; pdp = omega arith; pml4 = omega arith },
)
advance_lem (suc (suc (suc (suc l)))) a h k b = absurd (omega arith)

pub of_value-IsAddress : (v : ℕ) → IsAddress (of_value v)
unfolding of_value
of_value-IsAddress v = record {
  page = omega arith;
  dir = omega arith;
  pdp = omega arith;
  pml4 = omega arith;
}

pub number-of_value : (v : ℕ) → number (of_value v) ≡ v / 2 ^ 12 % 2 ^ 36
unfolding of_value
number-of_value v = omega arith
