-- ===== src/Paging/Tables.antt =====
-- What page maps say of a page, and page maps as a tree.
use hon_os.Prelude.{
  ℕ, zero, suc, ◌+◌, ◌*◌, ◌/◌, ◌%◌, ◌≤◌, ◌<◌, ◌≡◌, ◌≢◌, ◌⊎◌, inl, inr, refl, ap, sym, ◌∙◌, Option,
  none, some, Bool, true, false, if◌then◌else◌, arith, Bool-cases, ℕ_discrete, ◌^◌,
}
use hon_os.Memory.{bytes_per_frame, frame_count, get_bit}
use hon_os.Memory.Frames.{IsValid}
use hon_os.Paging.{PageMapEntry, pointer, Memory, Machine}
use hon_os.Paging.Addresses.{prefix, prefix-suc}

-- The entry of the page with number `x`, from the entry `e` of a page map on that has `l` levels below.
unfoldable pub cell : Memory → ℕ → PageMapEntry → ℕ → Option PageMapEntry
cell mem zero e x = if e.present then some e else none
cell mem (suc l) e x =
    let below = cell mem l (mem (pointer e) (prefix l x % 512)) x in
    if e.present then below else none

-- The same from the page map `t` on.
abbrev pub leaf : Memory → ℕ → ℕ → ℕ → Option PageMapEntry
leaf mem l t x = cell mem l (mem t (prefix l x % 512)) x

-- For each page map, the number of levels below its entries, and the number of the entry above it.
abbrev pub Labels : Type 0
Labels = ℕ → Option (ℕ × ℕ)

-- The first page of the upper half of the addresses, which programs use. The lower half, where the
-- kernel's memory is mapped by huge pages, stands in no labelled page map but the root.
abbrev pub user_start : ℕ
user_start = 2 ^ 35

-- Present entries on the way to pages of the upper half lead to the page maps with their labels: no two
-- entries lead to the same.
abbrev pub Leads : Memory → Labels → Type 0
Leads mem label =
    (t l x : ℕ)
    → label t ≡ some (suc l, prefix (suc (suc l)) x)
    → user_start ≤ x
    → (mem t (prefix (suc l) x % 512)).present ≡ true
    → label (pointer (mem t (prefix (suc l) x % 512))) ≡ some (l, prefix (suc l) x)

-- The page maps stand in frames that are in use.
pub record IsTree (m : Machine) (label : Labels) : Type 0 where
  pub manager : IsValid m.manager
  pub small : m.manager.range_end ≤ frame_count
  pub held : (t l q : ℕ) → label t ≡ some (l, q) → get_bit m.manager (t / bytes_per_frame) ≡ true
  pub leads : Leads m.memory label

pub cell-zero :
    (mem : Memory) (e : PageMapEntry) (x : ℕ)
    → cell mem zero e x ≡ (if e.present then some e else none)
unfolding cell
cell-zero mem e x = refl

pub cell-suc :
    (mem : Memory) (l : ℕ) (e : PageMapEntry) (x : ℕ)
    → cell mem (suc l) e x ≡ (if e.present then leaf mem l (pointer e) x else none)
unfolding cell
cell-suc mem l e x = refl

pub cell_absent :
    (mem : Memory) (l : ℕ) (e : PageMapEntry) (x : ℕ) → e.present ≡ false → cell mem l e x ≡ none
cell_absent mem zero e x h = cell-zero mem e x ∙ rw h refl
cell_absent mem (suc l) e x h = cell-suc mem l e x ∙ rw h refl

pub cell_present :
    (mem : Memory) (l : ℕ) (e : PageMapEntry) (x : ℕ)
    → e.present ≡ true
    → cell mem (suc l) e x ≡ leaf mem l (pointer e) x
cell_present mem l e x h =
    cell-suc mem l e x ∙ ap (λ (b : Bool). if b then leaf mem l (pointer e) x else none) h

pub pair_of_some :
    (a b c d : ℕ) → ◌≡◌ {A = Option (ℕ × ℕ)} (some (a, b)) (some (c, d)) → (a ≡ c) × (b ≡ d)
pair_of_some a b c d h = (cc, cc)

-- Two places of entries are the same, or not.
pub same_entry : (t i t0 i0 : ℕ) → ((t ≡ t0) × (i ≡ i0)) ⊎ ((t ≢ t0) ⊎ (i ≢ i0))
same_entry t i t0 i0 = elim (ℕ_discrete t t0) [
  | no there ↦ inr (inl there)
  | yes here ↦ elim (ℕ_discrete i i0) [ yes index ↦ inl (here, index) | no index ↦ inr (inr index) ]
]

-- An entry is the same as its number.
pub own_number : (l x : ℕ) → prefix (suc l) x * 512 + prefix l x % 512 ≡ prefix l x
own_number l x = omega (arith, prefix-suc l x)

-- The same for an entry by its index.
pub lead_at :
    (mem : Memory) (label : Labels)
    → Leads mem label
    → (t l q i x : ℕ) → label t ≡ some (suc l, q)
    → q ≡ prefix (suc (suc l)) x
    → i ≡ prefix (suc l) x % 512
    → user_start ≤ x
    → (mem t i).present ≡ true
    → label (pointer (mem t i)) ≡ some (l, q * 512 + i)
lead_at mem label leads t l q i x own number index up here =
    let number_is : prefix (suc l) x ≡ q * 512 + i = omega (arith, own_number (suc l) x) in
    ap (λ j. label (pointer (mem t j))) index
    ∙ leads t l x (own ∙ ap (λ n. some (suc l, n)) number) up
        (ap (λ j. (mem t j).present) (sym index) ∙ here)
    ∙ ap (λ n. some (l, n)) number_is

module _ (mem mem' : Memory) (label : Labels) (leads : Leads mem label) where
  -- Entries that agree in what is below agree.
  below_agree :
      (l : ℕ) (t x : ℕ)
      → user_start ≤ x
      → label t ≡ some (suc l, prefix (suc (suc l)) x)
      → mem' t (prefix (suc l) x % 512) ≡ mem t (prefix (suc l) x % 512)
      → ((c : ℕ) → label c ≡ some (l, prefix (suc l) x) → leaf mem' l c x ≡ leaf mem l c x)
      → leaf mem' (suc l) t x ≡ leaf mem (suc l) t x
  below_agree l t x up h same deeper =
      let e = mem t (prefix (suc l) x % 512) in
      ap (λ (e' : PageMapEntry). cell mem' (suc l) e' x) same ∙ elim (Bool-cases e.present) [
        | inl here ↦
            cell_present mem' l e x here
            ∙ deeper (pointer e) (leads t l x h up here)
            ∙ sym (cell_present mem l e x here)
        | inr gone ↦ cell_absent mem' (suc l) e x gone ∙ sym (cell_absent mem (suc l) e x gone)
      ]

  -- Changes in page maps with more levels below do not matter.
  pub leaf_agree :
      (l bound t x : ℕ)
      → ((t' l' q' j : ℕ) → label t' ≡ some (l', q') → l' < bound → mem' t' j ≡ mem t' j)
      → l < bound
      → user_start ≤ x
      → label t ≡ some (l, prefix (suc l) x)
      → leaf mem' l t x ≡ leaf mem l t x
  leaf_agree zero bound t x agree b up h =
      let e = mem t (prefix zero x % 512) in
      ap (λ (e' : PageMapEntry). cell mem' zero e' x)
        (agree t zero (prefix 1 x) (prefix zero x % 512) h b)
      ∙ cell-zero mem' e x
      ∙ sym (cell-zero mem e x)
  leaf_agree (suc l) bound t x agree b up h =
      below_agree l t x up h (agree t (suc l) (prefix (suc (suc l)) x) (prefix (suc l) x % 512) h b)
        (λ c k. leaf_agree l bound c x agree (omega arith) up k)

  -- One entry has changed, in the page map `t₀` with `l₀` levels below.
  module _ (t0 l0 q0 i0 : ℕ) (own : label t0 ≡ some (l0, q0))
      (others : (t' l' q' j : ℕ)
        → label t' ≡ some (l', q')
        → (t' ≢ t0) ⊎ (j ≢ i0)
        → mem' t' j ≡ mem t' j) where
    hit_cell :
        (l t x : ℕ)
        → label t ≡ some (l, prefix (suc l) x)
        → (t ≡ t0) × (prefix l x % 512 ≡ i0)
        → (prefix l0 x ≡ q0 * 512 + i0 → cell mem' l0 (mem' t0 i0) x ≡ cell mem l0 (mem t0 i0) x)
        → leaf mem' l t x ≡ leaf mem l t x
    hit_cell l t x h (here, index) change =
        let (levels, numbers) =
          pair_of_some l (prefix (suc l) x) l0 q0 (sym h ∙ ap label here ∙ own) in
        let index' : prefix l0 x % 512 ≡ i0 = ap (λ k. prefix k x % 512) (sym levels) ∙ index in
        let hit : prefix l0 x ≡ q0 * 512 + i0 =
          ap (λ k. prefix k x) (sym levels)
          ∙ sym (own_number l x)
          ∙ ap (λ q. q * 512 + prefix l x % 512) numbers
          ∙ ap (λ i. q0 * 512 + i) index in
        rw (here, levels, index') (change hit)

    -- What is below an entry changes at most where the path goes through the entry that has changed.
    pub leaf_change :
        (l t x : ℕ)
        → user_start ≤ x
        → label t ≡ some (l, prefix (suc l) x)
        → (prefix l0 x ≡ q0 * 512 + i0 → cell mem' l0 (mem' t0 i0) x ≡ cell mem l0 (mem t0 i0) x)
        → leaf mem' l t x ≡ leaf mem l t x
    leaf_change zero t x up h change = elim (same_entry t (prefix zero x % 512) t0 i0) [
      | inl hit ↦ hit_cell zero t x h hit change
      | inr other ↦
          ap (λ (e : PageMapEntry). cell mem' zero e x)
            (others t zero (prefix 1 x) (prefix zero x % 512) h other)
          ∙ cell-zero mem' (mem t (prefix zero x % 512)) x
          ∙ sym (cell-zero mem (mem t (prefix zero x % 512)) x)
    ]
    leaf_change (suc l) t x up h change = elim (same_entry t (prefix (suc l) x % 512) t0 i0) [
      | inl hit ↦ hit_cell (suc l) t x h hit change
      | inr other ↦
          below_agree l t x up h
            (others t (suc l) (prefix (suc (suc l)) x) (prefix (suc l) x % 512) h other)
            (λ c k. leaf_change l c x up k change)
    ]
