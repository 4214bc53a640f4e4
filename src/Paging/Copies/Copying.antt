-- ===== src/Paging/Copies/Copying.antt =====
-- What `CopyPageMaps` promises for an entry and for the rest of a page map.
use hon_os.Prelude.{
  ℕ, zero, suc, ◌/◌, ◌%◌, ◌≤◌, ◌<◌, ◌≡◌, ◌≢◌, ◌⊎◌, inl, inr, refl, ap, sym, ◌∙◌, Option, none, some,
  true, false, arith, Bool-cases,
}
use hon_os.Errors.{Code, success, no_enough_memory}
use hon_os.Memory.{bytes_per_frame, frame_count, get_bit}
use hon_os.Memory.Frames.{IsValid}
use hon_os.Paging.{PageMapEntry, pointer, Memory, Machine}
use hon_os.Paging.Addresses.{prefix}
use hon_os.Paging.Tables.{cell, cell-zero, cell_absent, cell_present, leaf}

abbrev pub read_only : Option PageMapEntry → Option PageMapEntry
read_only none = none
read_only (some e) = some (record e { writable = false })

-- The page is in use.
abbrev pub Used : Machine → ℕ → Type 0
Used m u = get_bit m.manager (u / bytes_per_frame) ≡ true

-- The page has come into use.
abbrev pub Fresh : Machine → Machine → ℕ → Type 0
Fresh m m' u = (get_bit m.manager (u / bytes_per_frame) ≡ false) × Used m' u

-- All page maps below `t` are among `P`.
pub Inside : (ℕ → Type 0) → Memory → ℕ → ℕ → Type 0
Inside P mem zero t = t ≡ t
Inside P mem (suc l) t =
    (i : ℕ)
    → i < 512
    → (mem t i).present ≡ true
    → P (pointer (mem t i)) × Inside P mem l (pointer (mem t i))

pub Inside-entry :
    (P : ℕ → Type 0) (mem : Memory) (l t i : ℕ)
    → Inside P mem (suc l) t
    → i < 512
    → (mem t i).present ≡ true
    → P (pointer (mem t i)) × Inside P mem l (pointer (mem t i))
unfolding Inside
Inside-entry P mem l t i h = h i

pub Inside-entries :
    (P : ℕ → Type 0) (mem : Memory) (l t : ℕ)
    → ((i : ℕ)
        → i < 512
        → (mem t i).present ≡ true
        → P (pointer (mem t i)) × Inside P mem l (pointer (mem t i)))
    → Inside P mem (suc l) t
unfolding Inside
Inside-entries P mem l t h = h

pub Inside-last : (P : ℕ → Type 0) (mem : Memory) (t : ℕ) → Inside P mem zero t
unfolding Inside
Inside-last P mem t = refl

pub Inside-weaker :
    (P Q : ℕ → Type 0) (mem : Memory) (l t : ℕ)
    → ((u : ℕ) → P u → Q u)
    → Inside P mem l t
    → Inside Q mem l t
Inside-weaker P Q mem zero t f h = Inside-last Q mem t
Inside-weaker P Q mem (suc l) t f h = Inside-entries Q mem l t λ i b here.
    let (one, deeper) = Inside-entry P mem l t i h b here in
    (f (pointer (mem t i)) one, Inside-weaker P Q mem l (pointer (mem t i)) f deeper)

-- Memories that agree there agree on all pages.
module _ (P : ℕ → Type 0) (mem mem' : Memory) (same : (u j : ℕ) → P u → mem' u j ≡ mem u j) where
  pub Inside-kept :
      (l t : ℕ) → ((j : ℕ) → mem' t j ≡ mem t j) → Inside P mem l t → Inside P mem' l t
  Inside-kept zero t here h = Inside-last P mem' t
  Inside-kept (suc l) t here h = Inside-entries P mem' l t λ i b present.
      let (one, deeper) =
        Inside-entry P mem l t i h b
          (sym (ap (λ (e : PageMapEntry). e.present) (here i)) ∙ present) in
      let kept = Inside-kept l (pointer (mem t i)) (λ j. same (pointer (mem t i)) j one) deeper in
      rw (here i) (one, kept)

  pub Inside-leaf :
      (l t x : ℕ)
      → ((j : ℕ) → mem' t j ≡ mem t j)
      → Inside P mem l t
      → leaf mem' l t x ≡ leaf mem l t x
  Inside-leaf zero t x here h =
      ap (λ (e : PageMapEntry). cell mem' zero e x) (here (prefix zero x % 512))
      ∙ cell-zero mem' (mem t (prefix zero x % 512)) x
      ∙ sym (cell-zero mem (mem t (prefix zero x % 512)) x)
  Inside-leaf (suc l) t x here h =
      let i = prefix (suc l) x % 512 in
      let e = mem t i in
      ap (λ (e' : PageMapEntry). cell mem' (suc l) e' x) (here i) ∙ elim (Bool-cases e.present) [
        | inl present ↦
            let (one, deeper) = Inside-entry P mem l t i h (omega arith) present in
            cell_present mem' l e x present
            ∙ Inside-leaf l (pointer e) x (λ j. same (pointer e) j one) deeper
            ∙ sym (cell_present mem l e x present)
        | inr absent ↦
            cell_absent mem' (suc l) e x absent ∙ sym (cell_absent mem (suc l) e x absent)
      ]

-- What each step keeps.
pub record Grows (m : Machine) (dest : ℕ) (m' : Machine) : Type 0 where
  pub manager : IsValid m'.manager
  pub small : m'.manager.range_end ≤ frame_count
  pub used : (u : ℕ) → Used m u → Used m' u
  pub kept : (u j : ℕ) → Used m u → u ≢ dest → m'.memory u j ≡ m.memory u j

-- The entry at `i`, of a page map with `l` levels below.
pub record Shows (l : ℕ) (m : Machine) (dest src i : ℕ) (m' : Machine) : Type 0 where
  pub grows : Grows m dest m'
  pub others : (j : ℕ) → j ≢ i → m'.memory dest j ≡ m.memory dest j
  pub shown :
      (x : ℕ) → prefix l x % 512 ≡ i → leaf m'.memory l dest x ≡ read_only (leaf m.memory l src x)
  pub inside :
      (k : ℕ)
      → l ≡ suc k
      → (m'.memory dest i).present ≡ true
      → Fresh m m' (pointer (m'.memory dest i))
        × Inside (Fresh m m') m'.memory k (pointer (m'.memory dest i))

-- The entries from `i` on have been copied.
pub record Shown (l : ℕ) (m : Machine) (dest src i : ℕ) (m' : Machine) : Type 0 where
  pub shown :
      (x : ℕ) → i ≤ prefix l x % 512 → leaf m'.memory l dest x ≡ read_only (leaf m.memory l src x)
  pub inside :
      (j k : ℕ)
      → i ≤ j
      → j < 512
      → l ≡ suc k
      → (m'.memory dest j).present ≡ true
      → Fresh m m' (pointer (m'.memory dest j))
        × Inside (Fresh m m') m'.memory k (pointer (m'.memory dest j))

pub record Copies (l : ℕ) (m : Machine) (dest src i : ℕ) (code : Code) (m' : Machine) : Type 0 where
  pub grows : Grows m dest m'
  pub low : (j : ℕ) → j < i → m'.memory dest j ≡ m.memory dest j
  pub outcome : (code ≡ no_enough_memory) ⊎ ((code ≡ success) × Shown l m dest src i m')

-- What a copy starts from.
pub record Ready (l : ℕ) (m : Machine) (dest src i : ℕ) : Type 0 where
  pub manager : IsValid m.manager
  pub small : m.manager.range_end ≤ frame_count
  pub source : Used m src
  pub target : Used m dest
  pub differs : src ≢ dest
  pub inside :
      (k j : ℕ)
      → l ≡ suc k
      → i ≤ j
      → j < 512
      → (m.memory src j).present ≡ true
      → (Used m (pointer (m.memory src j)) × (pointer (m.memory src j) ≢ dest))
        × Inside (λ u. Used m u × (u ≢ dest)) m.memory k (pointer (m.memory src j))
  pub empty : (j : ℕ) → i ≤ j → (m.memory dest j).present ≡ false
