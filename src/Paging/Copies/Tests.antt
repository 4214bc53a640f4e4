-- ===== src/Paging/Copies/Tests.antt =====
-- Page maps that map one page, and the theorems there.
use hon_os.Prelude.{
  ℕ, suc, ◌+◌, ◌*◌, ◌/◌, ◌%◌, ◌^◌, ◌≡◌, ◌≢◌, ◌⊎◌, inl, inr, refl, ap, sym, ◌∙◌, [], ◌∷◌, Option,
  none, some, true, false, ◌==◌, if◌then◌else◌, arith, Bool-cases, ◌≤◌, ◌<◌,
}
use hon_os.Errors.{Code, success, no_enough_memory}
use hon_os.Memory.{bytes_per_frame, get_bit}
use hon_os.Paging.{PageMapEntry, zero_entry, pointer, Memory, Machine, LinearAddress, of_value}
use hon_os.Paging.Copies.{Reading, Loading, page_start, copy_one_page, Faulting}
use hon_os.Paging.Copies.OnePage.{Translates, Copied, copy_one_page-Copied}
use hon_os.Paging.Copies.{copy_page_maps}
use hon_os.Paging.Copies.Copying.{Used, Inside, Inside-entries, Inside-last, Ready, Copies}
use hon_os.Paging.Copies.Levels.{copy_page_maps-Copies}
use hon_os.Paging.Addresses.{number, prefix}
use hon_os.Paging.Tables.{
  cell, leaf, Labels, Leads, IsTree, pair_of_some, user_start, lead_at, own_number,
}

abbrev to_frame : ℕ → PageMapEntry
to_frame n = record { present = true; writable = true; user = true; addr = n; other = 0 }

abbrev root : ℕ
root = 8192

-- A page of the kernel, 2 MiB in size.
abbrev huge : ℕ → PageMapEntry
huge j = record { present = true; writable = true; user = false; addr = j * 512; other = 16 }

-- The page at 2 ^ 47 is mapped to frame 6, through the frames 2 to 5. In the lower half of the root is the
-- identity map of the kernel, through the pages 80 and 81.
abbrev chain : Memory
chain t i =
    if t == 8192
    then (if i == 256 then to_frame 3 else (if i == 0 then to_frame 80 else zero_entry))
    else if t == 12288
    then (if i == 0 then to_frame 4 else zero_entry)
    else if t == 16384
    then (if i == 0 then to_frame 5 else zero_entry)
    else if t == 20480
    then (if i == 0 then to_frame 6 else zero_entry)
    else if t == 327680
    then (if i == 0 then to_frame 81 else zero_entry)
    else if t == 331776
    then huge i
    else zero_entry

abbrev chain_label : Labels
chain_label t =
    if t == 8192
    then some (3, 0)
    else if t == 12288
    then some (2, 256)
    else if t == 16384
    then some (1, 131072)
    else if t == 20480
    then some (0, 67108864)
    else none

-- Frames 0 to 6 are in use.
abbrev stack : Machine
stack = record {
  memory = chain;
  manager = record { alloc_map = 127 ∷ 1 ∷ []; range_begin = 1; range_end = 100 };
}

only_entry :
    (k i : ℕ) (e : PageMapEntry) → (if i == k then e else zero_entry).present ≡ true → i ≡ k
only_entry k i e h = elim (Bool-cases (i == k)) [
  | inl same ↦ ground arith
  | inr other ↦
      let absent : (if i == k then e else zero_entry).present ≡ false = rw other refl in absurd (cc)
]

-- The frames that hold page maps.
four_maps :
    (t l q : ℕ)
    → chain_label t ≡ some (l, q)
    → (t ≡ 8192) ⊎ ((t ≡ 12288) ⊎ ((t ≡ 16384) ⊎ (t ≡ 20480)))
four_maps t l q h = ground arith

-- The one entry of a page map from `low` on leads to the page map with its label.
one_lead :
    (t0 l0 q0 i0 low : ℕ) (e : PageMapEntry)
    → chain_label t0 ≡ some (suc l0, q0)
    → ((j : ℕ) → low ≤ j → chain t0 j ≡ (if j == i0 then e else zero_entry))
    → chain_label (pointer e) ≡ some (l0, q0 * 512 + i0)
    → (chain t0 i0 ≡ e)
    → (t l q i : ℕ) → t ≡ t0
    → chain_label t ≡ some (suc l, q)
    → low ≤ i
    → (chain t i).present ≡ true
    → chain_label (pointer (chain t i)) ≡ some (l, q * 512 + i)
one_lead t0 l0 q0 i0 low e own whole leads at_index t l q i at h b here =
    let (levels, numbers) =
      pair_of_some (suc l0) q0 (suc l) q (sym own ∙ sym (ap chain_label at) ∙ h) in
    let index : i ≡ i0 = only_entry i0 i e (
      sym (ap (λ (d : PageMapEntry). d.present) (whole i b))
      ∙ sym (ap (λ s. (chain s i).present) at)
      ∙ here) in
    ap (λ s. chain_label (pointer (chain s i))) at
    ∙ ap (λ j. chain_label (pointer (chain t0 j))) index
    ∙ ap (λ d. chain_label (pointer d)) at_index
    ∙ leads
    ∙ ap (λ k. some (k, q0 * 512 + i0)) (let k : l0 ≡ l = omega arith in k)
    ∙ ap (λ k. some (l, k)) (let k : q0 * 512 + i0 ≡ q * 512 + i = omega arith in k)

upper_root : (j : ℕ) → 256 ≤ j → chain 8192 j ≡ (if j == 256 then to_frame 3 else zero_entry)
upper_root j h = let e : (j == 0) ≡ false = ground arith in rw e refl

-- In the root, the pages of the upper half stand from 256 on.
upper_index :
    (l x : ℕ) → l ≡ 2 → prefix (suc (suc l)) x ≡ 0 → user_start ≤ x → 256 ≤ prefix (suc l) x % 512
upper_index l x e top up =
    let top' : prefix 4 x ≡ 0 = ap (λ n. prefix (suc (suc n)) x) (sym e) ∙ top in
    let low : 256 ≤ prefix 3 x % 512 = omega arith in rw e low

chain-Leads : Leads chain chain_label
unfolding pointer
chain-Leads t l x h up here =
    let q = prefix (suc (suc l)) x in
    let i = prefix (suc l) x % 512 in
    let number : ◌≡◌ {A = Option (ℕ × ℕ)} (some (l, q * 512 + i)) (some (l, prefix (suc l) x)) =
      ap (λ n. some (l, n)) (own_number (suc l) x) in
    elim (four_maps t (suc l) q h) [
      | inl at ↦
          let (levels, numbers) = pair_of_some 3 0 (suc l) q (sym (ap chain_label at) ∙ h) in
          one_lead 8192 2 0 256 256 (to_frame 3) refl upper_root refl refl t l q i at h
            (upper_index l x (omega arith) (omega arith) up) here
          ∙ number
      | inr (inl at) ↦
          one_lead 12288 1 256 0 0 (to_frame 4) refl (λ j b. refl) refl refl t l q i at h
            (omega arith) here
          ∙ number
      | inr (inr (inl at)) ↦
          one_lead 16384 0 131072 0 0 (to_frame 5) refl (λ j b. refl) refl refl t l q i at h
            (omega arith) here
          ∙ number
      | inr (inr (inr at)) ↦
          let (levels, numbers) = pair_of_some 0 67108864 (suc l) q (sym (ap chain_label at) ∙ h) in
          absurd (omega arith)
    ]

held_lem :
    (t : ℕ)
    → (t ≡ 8192) ⊎ ((t ≡ 12288) ⊎ ((t ≡ 16384) ⊎ (t ≡ 20480)))
    → get_bit stack.manager (t / bytes_per_frame) ≡ true
unfolding get_bit
held_lem t h = elim h [
  | inl at ↦ ap (λ s. get_bit stack.manager (s / bytes_per_frame)) at
  | inr (inl at) ↦ ap (λ s. get_bit stack.manager (s / bytes_per_frame)) at
  | inr (inr (inl at)) ↦ ap (λ s. get_bit stack.manager (s / bytes_per_frame)) at
  | inr (inr (inr at)) ↦ ap (λ s. get_bit stack.manager (s / bytes_per_frame)) at
]

stack-IsTree : IsTree stack chain_label
stack-IsTree = record {
  manager = omega arith;
  small = omega arith;
  held = λ t l q h. held_lem t (four_maps t l q h);
  leads = chain-Leads;
}

-- The processor, that follows the page maps from the root.
abbrev follow : Memory → ℕ → Option PageMapEntry → PageMapEntry
follow mem j none = zero_entry
follow mem j (some e) = mem (pointer e) j

translate : Reading
translate mem start j = follow mem j (leaf mem 3 root (start / 2 ^ 12 % 2 ^ 36))

translate-Translates : Translates translate root
unfolding translate
translate-Translates mem a e j h =
    ap (λ n. follow mem j (leaf mem 3 root n))
      (let same : page_start a / 2 ^ 12 % 2 ^ 36 ≡ a / 2 ^ 12 % 2 ^ 36 = omega arith in same)
    ∙ ap (follow mem j) h

-- An address in the page at 2 ^ 47.
abbrev somewhere : ℕ
somewhere = 2 ^ 47 + 5

somewhere_up : user_start ≤ number (of_value somewhere)
unfolding of_value
somewhere_up = omega arith

stack_mapped : leaf stack.memory 3 root (number (of_value somewhere)) ≡ some (to_frame 6)
unfolding of_value hon_os.Paging.Tables.cell pointer
stack_mapped = refl

data_used : get_bit stack.manager (pointer (to_frame 6) / bytes_per_frame) ≡ true
unfolding get_bit pointer
data_used = refl

data_unlabelled : chain_label (pointer (to_frame 6)) ≡ none
unfolding pointer
data_unlabelled = refl

copy_one_page-Copied_example :
    (copy_one_page translate stack root somewhere ≡ some (no_enough_memory, stack))
    ⊎ ((p : ℕ) × (m' : Machine) × (copy_one_page translate stack root somewhere
          ≡ some (success, m'))
        × Copied stack chain_label root (number (of_value somewhere)) (to_frame 6) p m')
copy_one_page-Copied_example =
    copy_one_page-Copied translate stack chain_label root somewhere (to_frame 6)
      translate-Translates stack-IsTree refl somewhere_up stack_mapped data_used data_unlabelled

-- Nothing is loaded; the page of the fault is on demand.
abbrev nothing : Loading
nothing fd m a offset = m

abbrev program : Faulting
program = record { dpaging_begin = 2 ^ 47; dpaging_end = 2 ^ 47 + 65536; file_maps = [] }

-- The same with frame 7 in use, for an empty page map.
abbrev two : Machine
two = record stack {
  manager = record { alloc_map = 255 ∷ 1 ∷ []; range_begin = 1; range_end = 100 };
}

abbrev target : ℕ
target = 28672

one-Inside :
    (P : ℕ → Type 0) (l t0 i0 : ℕ) (e : PageMapEntry)
    → ((j : ℕ) → chain t0 j ≡ (if j == i0 then e else zero_entry))
    → P (pointer e)
    → Inside P chain l (pointer e)
    → Inside P chain (suc l) t0
one-Inside P l t0 i0 e whole one deeper = Inside-entries P chain l t0 λ i b here.
    let index : i ≡ i0 =
      only_entry i0 i e (sym (ap (λ (d : PageMapEntry). d.present) (whole i)) ∙ here) in
    let same : chain t0 i ≡ e = whole i ∙ (let h : (i == i0) ≡ true = ground arith in rw h refl) in
    rw same (one, deeper)

abbrev Source : ℕ → Type 0
Source u = Used two u × (u ≢ target)

Source-Inside : Inside Source chain 2 12288
unfolding pointer get_bit
Source-Inside =
    one-Inside Source 1 12288 0 (to_frame 4) (λ j. refl) (refl, λ e. omega arith)
      (one-Inside Source 0 16384 0 (to_frame 5) (λ j. refl) (refl, λ e. omega arith)
        (Inside-last Source chain 20480))

upper-Inside :
    (k j : ℕ)
    → 3 ≡ suc k
    → 256 ≤ j
    → j < 512
    → (chain 8192 j).present ≡ true
    → (Used two (pointer (chain 8192 j)) × (pointer (chain 8192 j) ≢ target))
      × Inside Source chain k (pointer (chain 8192 j))
unfolding pointer get_bit
upper-Inside k j levels low high here =
    let index : j ≡ 256 =
      only_entry 256 j (to_frame 3)
        (sym (ap (λ (d : PageMapEntry). d.present) (upper_root j low)) ∙ here) in
    let level : k ≡ 2 = omega arith in rw (index, level) ((refl, λ e. omega arith), Source-Inside)

two-Ready : Ready 3 two target root 256
unfolding get_bit
two-Ready = record {
  manager = omega arith;
  small = omega arith;
  source = refl;
  target = refl;
  differs = λ e. omega arith;
  inside = upper-Inside;
  empty = λ j h. refl;
}

copy_page_maps-Copies_example :
    (code : Code) × (m' : Machine) × (copy_page_maps 3 two target root 256 ≡ some (code, m'))
    × Copies 3 two target root 256 code m'
copy_page_maps-Copies_example = copy_page_maps-Copies 3 two target root 256 two-Ready (omega arith)

-- Three pages from 2 ^ 47 on.
abbrev stack_pages : LinearAddress
stack_pages = of_value (2 ^ 47)
