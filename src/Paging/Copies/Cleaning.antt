-- ===== src/Paging/Copies/Cleaning.antt =====
-- `CleanPageMap` takes away what is mapped from an address on.
use hon_os.Prelude.{
  ℕ, suc, ◌+◌, ◌*◌, ◌/◌, ◌%◌, ◌≤◌, ◌<◌, ◌≡◌, ◌≢◌, ◌⊎◌, inl, inr, refl, ap, sym, ◌∙◌, some, true,
  false, length, zero, arith, Option, none, Bool, if◌then◌else◌, Bool-cases,
}
use hon_os.Memory.{BitmapMemoryManager, bytes_per_frame, get_bit}
use hon_os.Memory.Frames.{IsValid}
use hon_os.Paging.{PageMapEntry, zero_entry, pointer, Memory, write, Machine}
use hon_os.Paging.Addresses.{prefix}
use hon_os.Paging.Tables.{
  leaf, Labels, Leads, same_entry, user_start, own_number, pair_of_some, cell,
}
use hon_os.Paging.Entering.{write_self, write_other}

none-some : (e : PageMapEntry) → ¬ (◌≡◌ {A = Option PageMapEntry} none (some e))
none-some e h = cc

-- The entry for the page `x` that is found `n` levels below the page map `t`, which has `l` levels below
-- its own entries, where all entries on the way are present.
unfoldable pub visit : Memory → ℕ → ℕ → ℕ → ℕ → Option PageMapEntry
visit mem l zero t x =
    if (mem t (prefix l x % 512)).present then some (mem t (prefix l x % 512)) else none
visit mem zero (suc n) t x = none
visit mem (suc l) (suc n) t x =
    let below = visit mem l n (pointer (mem t (prefix (suc l) x % 512))) x in
    if (mem t (prefix (suc l) x % 512)).present then below else none

-- What is mapped is found behind all levels.
pub visit-leaf : (mem : Memory) (l t x : ℕ) → visit mem l l t x ≡ leaf mem l t x
unfolding visit cell
visit-leaf mem zero t x = refl
visit-leaf mem (suc l) t x =
    ap (λ o. if (mem t (prefix (suc l) x % 512)).present then o else none)
      (visit-leaf mem l (pointer (mem t (prefix (suc l) x % 512))) x)

-- The entries on the way to the page `x` are the same.
abbrev pub SameWay : Memory → Memory → Labels → ℕ → Type 0
SameWay mem mem' label x =
    (t l : ℕ)
    → label t ≡ some (l, prefix (suc l) x)
    → mem' t (prefix l x % 512) ≡ mem t (prefix l x % 512)

pub visit_kept :
    (mem mem' : Memory) (label : Labels) (x : ℕ)
    → Leads mem label
    → user_start ≤ x
    → SameWay mem mem' label x
    → (l n t : ℕ) → label t ≡ some (l, prefix (suc l) x)
    → visit mem' l n t x ≡ visit mem l n t x
unfolding visit
visit_kept mem mem' label x leads up same l zero t h =
    ap (λ (e : PageMapEntry). if e.present then some e else none) (same t l h)
visit_kept mem mem' label x leads up same zero (suc n) t h = refl
visit_kept mem mem' label x leads up same (suc l) (suc n) t h =
    let e = mem t (prefix (suc l) x % 512) in
    ap (λ (d : PageMapEntry). if d.present then visit mem' l n (pointer d) x else none)
      (same t (suc l) h)
    ∙ elim (Bool-cases e.present) [
      | inl here ↦
          ap (λ (b : Bool). if b then visit mem' l n (pointer e) x else none) here
          ∙ visit_kept mem mem' label x leads up same l n (pointer e) (leads t l x h up here)
          ∙ sym (ap (λ (b : Bool). if b then visit mem l n (pointer e) x else none) here)
      | inr gone ↦
          ap (λ (b : Bool). if b then visit mem' l n (pointer e) x else none) gone
          ∙ sym (ap (λ (b : Bool). if b then visit mem l n (pointer e) x else none) gone)
    ]

pub visit_absent :
    (mem : Memory) (l n t x : ℕ) (e : PageMapEntry)
    → (mem t (prefix l x % 512)).present ≡ false
    → ¬ (visit mem l n t x ≡ some e)
unfolding visit
visit_absent mem l zero t x e gone found =
    none-some e
      (sym (ap (λ (b : Bool). if b then some (mem t (prefix l x % 512)) else none) gone) ∙ found)
visit_absent mem zero (suc n) t x e gone found = none-some e found
visit_absent mem (suc l) (suc n) t x e gone found = none-some e (
    sym (
      ap
        (λ (b : Bool).
          if b then visit mem l n (pointer (mem t (prefix (suc l) x % 512))) x else none)
        gone)
    ∙ found)

-- What each step of a clean-up keeps: present entries lead to the page maps with their labels, and no
-- frame is in use that was not.
pub record Keeps (m : Machine) (label : Labels) (m' : Machine) : Type 0 where
  pub leads : Leads m'.memory label
  pub manager : IsValid m'.manager
  pub lines : length m'.manager.alloc_map ≡ length m.manager.alloc_map
  pub only : (g : ℕ) → get_bit m'.manager g ≡ true → get_bit m.manager g ≡ true

-- The frame of the entry was writable, and is free.
abbrev pub IsFreed : Machine → Machine → PageMapEntry → Type 0
IsFreed m m' e =
    e.writable ≡ true
    → pointer e / bytes_per_frame < length m.manager.alloc_map * 64
    → get_bit m'.manager (pointer e / bytes_per_frame) ≡ false

-- Below an entry of the level `l` with the number `number`, from its page map `c` on.
pub record CleansBelow (l : ℕ) (m : Machine) (label : Labels) (c number : ℕ) (m' : Machine)
    : Type 0 where
  pub keeps : Keeps m label m'
  pub upper : (t' l' q' j : ℕ) → label t' ≡ some (l', q') → l ≤ l' → m'.memory t' j ≡ m.memory t' j
  pub kept : (x : ℕ) → prefix l x ≢ number → SameWay m.memory m'.memory label x
  pub freed :
      (k n x : ℕ) (e : PageMapEntry)
      → l ≡ suc k
      → user_start ≤ x
      → prefix l x ≡ number
      → visit m.memory k n c x ≡ some e
      → IsFreed m m' e

-- The entry at `i` of the page map `t`, and what is below it.
pub record Wipes (l : ℕ) (m : Machine) (label : Labels) (t q i : ℕ) (m' : Machine) : Type 0 where
  pub keeps : Keeps m label m'
  pub others :
      (t' l' q' j : ℕ)
      → label t' ≡ some (l', q')
      → l ≤ l'
      → (t' ≢ t) ⊎ (j ≢ i)
      → m'.memory t' j ≡ m.memory t' j
  pub kept : (x : ℕ) → prefix l x ≢ q * 512 + i → SameWay m.memory m'.memory label x
  pub gone : (m'.memory t i).present ≡ false
  pub freed :
      (n x : ℕ) (e : PageMapEntry)
      → user_start ≤ x
      → prefix l x ≡ q * 512 + i
      → visit m.memory l n t x ≡ some e
      → IsFreed m m' e

-- The entries from `i` on.
pub record Cleans (l : ℕ) (m : Machine) (label : Labels) (t q i : ℕ) (m' : Machine) : Type 0 where
  pub keeps : Keeps m label m'
  pub others :
      (t' l' q' j : ℕ)
      → label t' ≡ some (l', q')
      → l ≤ l'
      → (t' ≢ t) ⊎ (j < i)
      → m'.memory t' j ≡ m.memory t' j
  pub kept :
      (x : ℕ) → (prefix (suc l) x ≢ q) ⊎ (prefix l x % 512 < i) → SameWay m.memory m'.memory label x
  pub gone : (j : ℕ) → i ≤ j → j < 512 → (m'.memory t j).present ≡ false
  pub freed :
      (n x : ℕ) (e : PageMapEntry)
      → user_start ≤ x
      → prefix (suc l) x ≡ q
      → i ≤ prefix l x % 512
      → visit m.memory l n t x ≡ some e
      → IsFreed m m' e

pub unchanged :
    (m : Machine) (label : Labels) → Leads m.memory label → IsValid m.manager → Keeps m label m
unchanged m label leads valid = record {
  leads = leads;
  manager = valid;
  lines = refl;
  only = λ g h. h;
}

pub Keeps-trans :
    (m : Machine) (label : Labels) (m' m'' : Machine)
    → Keeps m label m'
    → Keeps m' label m''
    → Keeps m label m''
Keeps-trans m label m' m'' a b = record {
  leads = b.leads;
  manager = b.manager;
  lines = b.lines ∙ a.lines;
  only = λ g h. a.only g (b.only g h);
}

-- The machine after the entry is freed, if it is to be, and set to 0.
abbrev pub wiped : Machine → ℕ → ℕ → BitmapMemoryManager → Machine
wiped m t i manager = record { memory = write m.memory t i zero_entry; manager = manager }

some_entry : (a b : PageMapEntry) → ◌≡◌ {A = Option PageMapEntry} (some a) (some b) → a ≡ b
some_entry a b h = cc

-- A frame that is free stays so where none comes into use.
pub not_used :
    (after before : BitmapMemoryManager) (f : ℕ)
    → ((g : ℕ) → get_bit after g ≡ true → get_bit before g ≡ true)
    → get_bit before f ≡ false
    → get_bit after f ≡ false
not_used after before f only h = elim (Bool-cases (get_bit after f)) [
  | inl used ↦ let held = only f used in absurd (cc)
  | inr free ↦ free
]

-- An entry set to 0.
module _ (l : ℕ) (m : Machine) (label : Labels) (t q i : ℕ) (m1 : Machine)
    (manager : BitmapMemoryManager) (own : label t ≡ some (l, q))
    (below : CleansBelow l m label (pointer (m.memory t i)) (q * 512 + i) m1)
    (valid : IsValid manager) (lines : length manager.alloc_map ≡ length m1.manager.alloc_map)
    (only : (g : ℕ) → get_bit manager g ≡ true → get_bit m1.manager g ≡ true) where
  abbrev after : Memory
  after = write m1.memory t i zero_entry

  after_self : after t i ≡ zero_entry
  after_self = write_self m1.memory t i zero_entry

  after_other : (t' j : ℕ) → (t' ≢ t) ⊎ (j ≢ i) → after t' j ≡ m1.memory t' j
  after_other t' j d = write_other m1.memory t i t' j zero_entry d

  after-Leads : Leads after label
  after-Leads t' l' x h up here =
      let j = prefix (suc l') x % 512 in
      elim (same_entry t' j t i) [
        | inl (same, index) ↦
            let absent : (after t' j).present ≡ false =
              ap (λ s. (after s j).present) same
              ∙ ap (λ k. (after t k).present) index
              ∙ ap (λ (e : PageMapEntry). e.present) after_self in
            absurd (cc)
        | inr other ↦
            let same = after_other t' j other in
            ap (λ (e : PageMapEntry). label (pointer e)) same
            ∙ below.keeps.leads t' l' x h up
                (sym (ap (λ (e : PageMapEntry). e.present) same) ∙ here)
      ]

  -- The way to another page does not go over the entry.
  after_way : (x : ℕ) → prefix l x ≢ q * 512 + i → SameWay m1.memory after label x
  after_way x d t' l' h =
      after_other t' (prefix l' x % 512) (elim (same_entry t' (prefix l' x % 512) t i) [
        | inr other ↦ other
        | inl (same, index) ↦
            let (levels, numbers) =
              pair_of_some l' (prefix (suc l') x) l q (sym h ∙ ap label same ∙ own) in
            absurd (d (ap (λ k. prefix k x) (sym levels) ∙ omega (arith, own_number l' x)))
      ])

  -- What is found on the way over the entry: the entry itself, or something below.
  visit_found :
      (present : (m.memory t i).present ≡ true) (n k x : ℕ) (e : PageMapEntry)
      → l ≡ k
      → prefix l x ≡ q * 512 + i
      → i < 512
      → visit m.memory k n t x ≡ some e
      → (e ≡ m.memory t i)
        ⊎ ((k' : ℕ) × (n' : ℕ) × (l ≡ suc k')
            × (visit m.memory k' n' (pointer (m.memory t i)) x ≡ some e))
  unfolding visit
  visit_found present zero k x e levels hit small found =
      let index : prefix k x % 512 ≡ i = ap (λ j. prefix j x % 512) (sym levels) ∙ omega arith in
      inl (
        some_entry e (m.memory t i) (
          sym found
          ∙ ap (λ j. if (m.memory t j).present then some (m.memory t j) else none) index
          ∙ ap (λ (b : Bool). if b then some (m.memory t i) else none) present))
  visit_found present (suc n) zero x e levels hit small found = absurd (none-some e found)
  visit_found present (suc n) (suc k) x e levels hit small found =
      let index : prefix (suc k) x % 512 ≡ i =
        ap (λ j. prefix j x % 512) (sym levels) ∙ omega arith in
      inr (
        k,
        n,
        levels,
        sym (
              ap (λ (b : Bool). if b then visit m.memory k n (pointer (m.memory t i)) x else none)
                present)
            ∙ sym (
                ap
                  (λ j.
                    if (m.memory t j).present
                    then visit m.memory k n (pointer (m.memory t j)) x
                    else none)
                  index)
            ∙ found,
      )

  pub wiped-Wipes :
      (m.memory t i).present ≡ true
      → i < 512
      → ((m.memory t i).writable ≡ true
          → pointer (m.memory t i) / bytes_per_frame < length m.manager.alloc_map * 64
          → get_bit manager (pointer (m.memory t i) / bytes_per_frame) ≡ false)
      → Wipes l m label t q i (wiped m1 t i manager)
  wiped-Wipes present small freed = record {
    keeps = record {
      leads = after-Leads;
      manager = valid;
      lines = lines ∙ below.keeps.lines;
      only = λ g h. below.keeps.only g (only g h);
    };
    others = λ t' l' q' j h b d. after_other t' j d ∙ below.upper t' l' q' j h b;
    kept = λ x d t' l' h. after_way x d t' l' h ∙ below.kept x d t' l' h;
    gone = ap (λ (e : PageMapEntry). e.present) after_self;
    freed = λ n x e up hit found writable inside.
        elim (visit_found present n l x e refl hit small found) [
          | inl same ↦ rw same (
              freed (ap (λ (d : PageMapEntry). d.writable) (sym same) ∙ writable)
                (omega (arith, ap pointer same)))
          | inr (k, n', levels, deeper) ↦
              not_used manager m1.manager (pointer e / bytes_per_frame) only
                (below.freed k n' x e levels up hit deeper writable inside)
        ];
  }
