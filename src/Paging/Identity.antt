-- ===== src/Paging/Identity.antt =====
-- kernel/paging.cpp: the page maps that stand for all of the kernel's memory, and the registers that
-- take them into use. The entries are words here; the addresses of the tables are given.
use hon_os.Prelude.{
  ℕ, zero, suc, ◌+◌, ◌*◌, ◌/◌, ◌%◌, ◌^◌, ◌<◌, ◌≡◌, refl, ap, sym, ◌∙◌, true, false, ◌==◌,
  if◌then◌else◌, arith, ltb, ℕ_discrete, bit_and, bit_or,
}
use hon_os.Prelude.Bits.{bit_or_shifted}

abbrev pub page_size_4k : ℕ
page_size_4k = 4096

abbrev pub page_size_2m : ℕ
page_size_2m = 512 * page_size_4k

abbrev pub page_size_1g : ℕ
page_size_1g = 512 * page_size_2m

abbrev pub page_directory_count : ℕ
page_directory_count = 64

pub record Places : Type 0 where
  pub pml4_table : ℕ
  pub pdp_table : ℕ
  pub page_directory : ℕ → ℕ

pub record IdentityTables : Type 0 where
  pub pml4_table : ℕ → ℕ
  pub pdp_table : ℕ → ℕ
  pub page_directory : ℕ → ℕ → ℕ

pub record Registers : Type 0 where
  pub cr0 : ℕ
  pub cr3 : ℕ

-- A write to one word.
abbrev pub put_word : (ℕ → ℕ) → ℕ → ℕ → ℕ → ℕ
put_word words i word j = if i == j then word else words j

-- The inner loop of `SetupIdentityPageTable`, for one page directory.
pub fill_directory : ℕ → (ℕ → ℕ) → ℕ → ℕ → ℕ → ℕ
fill_directory zero words i_pdpt i_pd = words
fill_directory (suc rounds) words i_pdpt i_pd =
    fill_directory rounds
      (put_word words i_pd (bit_or (i_pdpt * page_size_1g + i_pd * page_size_2m) 0x083)) i_pdpt
      (i_pd + 1)

-- The outer loop.
pub fill_tables : ℕ → Places → IdentityTables → ℕ → IdentityTables
fill_tables zero at t i_pdpt = t
fill_tables (suc rounds) at t i_pdpt =
    fill_tables rounds at
      (record t {
        pdp_table = put_word t.pdp_table i_pdpt (bit_or (at.page_directory i_pdpt) 0x003);
        page_directory = λ i.
            if i == i_pdpt
            then fill_directory 512 (t.page_directory i_pdpt) i_pdpt 0
            else t.page_directory i;
      })
      (i_pdpt + 1)

pub reset_cr3 : Places → Registers → Registers
reset_cr3 at r = record r { cr3 = at.pml4_table }

pub setup_identity_page_table : Places → IdentityTables → Registers → IdentityTables × Registers
setup_identity_page_table at t r =
    let r' = reset_cr3 at r in
    (
      fill_tables page_directory_count at
          (record t { pml4_table = put_word t.pml4_table 0 (bit_or at.pdp_table 0x003) }) 0,
      record r' { cr0 = bit_and r'.cr0 0xfffeffff },
    )

directory_lem :
    (rounds : ℕ) (words : ℕ → ℕ) (i k j : ℕ)
    → k + rounds ≡ 512
    → j < 512
    → fill_directory rounds words i k j
      ≡ (if ltb j k then words j else bit_or (i * page_size_1g + j * page_size_2m) 0x083)
unfolding fill_directory
directory_lem zero words i k j h b = let e : ltb j k ≡ true = ground arith in rw e refl
directory_lem (suc rounds) words i k j h b = elim (ℕ_discrete j k) [
  | yes here ↦
      directory_lem rounds _ i (k + 1) j (omega arith) b
      ∙ (let below : ltb j (k + 1) ≡ true = ground arith in
          let not_yet : ltb j k ≡ false = ground arith in
          let same : (k == j) ≡ true = ground arith in
          rw (below, not_yet, same)
            (ap (λ n. bit_or (i * page_size_1g + n * page_size_2m) 0x083) (sym here)))
  | no other ↦
      directory_lem rounds _ i (k + 1) j (omega arith) b
      ∙ (let same : (k == j) ≡ false = ground arith in
          let low : ltb j (k + 1) ≡ ltb j k = ground arith in rw (same, low) refl)
]

-- From 0 on nothing stands before.
from_zero : (j a b : ℕ) → (if ltb j 0 then a else b) ≡ b
from_zero j a b = let e : ltb j 0 ≡ false = ground arith in rw e refl

pml4_kept :
    (rounds : ℕ) (at : Places) (t : IdentityTables) (k : ℕ)
    → (fill_tables rounds at t k).pml4_table ≡ t.pml4_table
unfolding fill_tables
pml4_kept zero at t k = refl
pml4_kept (suc rounds) at t k = pml4_kept rounds at _ (k + 1)

pdp_lem :
    (rounds : ℕ) (at : Places) (t : IdentityTables) (k i : ℕ)
    → k + rounds ≡ page_directory_count
    → i < page_directory_count
    → (fill_tables rounds at t k).pdp_table i
      ≡ (if ltb i k then t.pdp_table i else bit_or (at.page_directory i) 0x003)
unfolding fill_tables
pdp_lem zero at t k i h b = let e : ltb i k ≡ true = ground arith in rw e refl
pdp_lem (suc rounds) at t k i h b = elim (ℕ_discrete i k) [
  | yes here ↦
      pdp_lem rounds at _ (k + 1) i (omega arith) b
      ∙ (let below : ltb i (k + 1) ≡ true = ground arith in
          let not_yet : ltb i k ≡ false = ground arith in
          let same : (k == i) ≡ true = ground arith in
          rw (below, not_yet, same) (ap (λ n. bit_or (at.page_directory n) 0x003) (sym here)))
  | no other ↦
      pdp_lem rounds at _ (k + 1) i (omega arith) b
      ∙ (let same : (k == i) ≡ false = ground arith in
          let low : ltb i (k + 1) ≡ ltb i k = ground arith in rw (same, low) refl)
]

directories_lem :
    (rounds : ℕ) (at : Places) (t : IdentityTables) (k i j : ℕ)
    → k + rounds ≡ page_directory_count
    → i < page_directory_count
    → j < 512
    → (fill_tables rounds at t k).page_directory i j ≡ (
        if ltb i k
        then t.page_directory i j
        else bit_or (i * page_size_1g + j * page_size_2m) 0x083)
unfolding fill_tables
directories_lem zero at t k i j h b c = let e : ltb i k ≡ true = ground arith in rw e refl
directories_lem (suc rounds) at t k i j h b c = elim (ℕ_discrete i k) [
  | yes here ↦
      directories_lem rounds at _ (k + 1) i j (omega arith) b c
      ∙ (let below : ltb i (k + 1) ≡ true = ground arith in
          let not_yet : ltb i k ≡ false = ground arith in
          let same : (i == k) ≡ true = ground arith in
          rw (below, not_yet, same)
            (directory_lem 512 (t.page_directory k) k 0 j refl c
              ∙ from_zero j _ _
              ∙ ap (λ n. bit_or (n * page_size_1g + j * page_size_2m) 0x083) (sym here)))
  | no other ↦
      directories_lem rounds at _ (k + 1) i j (omega arith) b c
      ∙ (let same : (i == k) ≡ false = ground arith in
          let low : ltb i (k + 1) ≡ ltb i k = ground arith in rw (same, low) refl)
]

-- The tables stand at the starts of pages.
pub record IsAligned (at : Places) : Type 0 where
  pub pml4 : at.pml4_table % page_size_4k ≡ 0
  pub pdp : at.pdp_table % page_size_4k ≡ 0
  pub directory : (i : ℕ) → i < page_directory_count → at.page_directory i % page_size_4k ≡ 0

-- An entry that leads to the page `p`, with the given bits.
abbrev pub LeadsTo : ℕ → ℕ → ℕ → Type 0
LeadsTo word p bits = (word / page_size_4k * page_size_4k ≡ p) × (word % page_size_4k ≡ bits)

aligned_entry :
    (p bits : ℕ) → p % page_size_4k ≡ 0 → bits < page_size_4k → LeadsTo (bit_or p bits) p bits
aligned_entry p bits h b =
    let e : p ≡ p / page_size_4k * 2 ^ 12 = omega arith in
    let whole : bit_or p bits ≡ p / page_size_4k * 2 ^ 12 + bits =
      ap (λ n. bit_or n bits) e ∙ bit_or_shifted 12 (p / page_size_4k) bits b in
    (omega (arith, whole), omega (arith, whole))

-- When the tables stand at the starts of pages, `SetupIdentityPageTable` makes the processor use them, and
-- each address below 64 GiB is mapped to itself: the entries on its way lead from the root over the
-- directory of its GiB to the huge page of 2 MiB that it lies in, present and writable, and not for the
-- user.
pub setup_identity_page_table_lem :
    (at : Places) (t : IdentityTables) (r : Registers) (a : ℕ)
    → IsAligned at
    → a < page_directory_count * page_size_1g
    → ((setup_identity_page_table at t r).1.cr3 ≡ at.pml4_table)
      × LeadsTo ((setup_identity_page_table at t r).0.pml4_table 0) at.pdp_table 3
      × LeadsTo
          ((setup_identity_page_table at t r).0.pdp_table (a / page_size_1g))
          (at.page_directory (a / page_size_1g))
          3
      × LeadsTo
          ((setup_identity_page_table at t r).0.page_directory
            (a / page_size_1g)
            (a / page_size_2m % 512))
          (a / page_size_2m * page_size_2m)
          0x083
unfolding setup_identity_page_table reset_cr3
setup_identity_page_table_lem at t r a k h =
    let i = a / page_size_1g in
    let j = a / page_size_2m % 512 in
    let small : i < page_directory_count = omega arith in
    let start = record t { pml4_table = put_word t.pml4_table 0 (bit_or at.pdp_table 0x003) } in
    let root = ap (λ (words : ℕ → ℕ). words 0) (pml4_kept page_directory_count at start 0) in
    let place : i * page_size_1g + j * page_size_2m ≡ a / page_size_2m * page_size_2m =
      omega arith in
    let second = pdp_lem page_directory_count at start 0 i refl small ∙ from_zero i _ _ in
    let third =
      directories_lem page_directory_count at start 0 i j refl small (omega arith)
      ∙ from_zero i _ _
      ∙ ap (λ n. bit_or n 0x083) place in
    (
      refl,
      rw root (aligned_entry at.pdp_table 3 k.pdp (omega arith)),
      rw second (aligned_entry (at.page_directory i) 3 (k.directory i small) (omega arith)),
      rw third (aligned_entry (a / page_size_2m * page_size_2m) 0x083 (omega arith) (omega arith)),
    )
