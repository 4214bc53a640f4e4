-- ===== src/Paging/Copies/Finding.antt =====
-- `SetPageContent` finds the entry of a page.
use hon_os.Prelude.{
  ℕ, zero, suc, ◌%◌, ◌<◌, ◌≡◌, inl, inr, refl, ap, sym, ◌∙◌, none, some, Bool, true, if◌then◌else◌,
  arith, Bool-cases, ◌≤◌,
}
use hon_os.Errors.{success}
use hon_os.Paging.{LinearAddress, part, PageMapEntry, pointer, set_pointer, Memory, write, Machine}
use hon_os.Paging.Copies.{set_page_content}
use hon_os.Paging.Addresses.{IsAddress, number, prefix, part_lem}
use hon_os.Paging.Tables.{
  cell, cell-zero, cell_absent, cell_present, leaf, Labels, Leads, user_start,
}

-- What `SetPageContent` leaves in the entry.
abbrev pub with_content : PageMapEntry → ℕ → PageMapEntry
with_content e content = record (set_pointer e content) { writable = true }

-- The entry of the page `x` stands in the last page map `t0`, and stays the one that is found while the
-- page maps above do not change.
pub record Found (mem : Memory) (label : Labels) (l t x : ℕ) (t0 : ℕ) : Type 0 where
  pub own : label t0 ≡ some (0, prefix 1 x)
  pub entry : leaf mem l t x ≡ some (mem t0 (prefix 0 x % 512))
  pub here : (mem t0 (prefix 0 x % 512)).present ≡ true
  pub after :
      (mem' : Memory)
      → ((t' l' q' j : ℕ) → label t' ≡ some (suc l', q') → mem' t' j ≡ mem t' j)
      → (mem' t0 (prefix 0 x % 512)).present ≡ true
      → leaf mem' l t x ≡ some (mem' t0 (prefix 0 x % 512))

present_cell :
    (mem : Memory) (l : ℕ) (e : PageMapEntry) (x : ℕ) (d : PageMapEntry)
    → cell mem l e x ≡ some d
    → e.present ≡ true
present_cell mem l e x d h = elim (Bool-cases e.present) [
  | inl here ↦ here
  | inr gone ↦ let absent = cell_absent mem l e x gone in cc
]

last_cell : (mem : Memory) (e : PageMapEntry) (x : ℕ) → e.present ≡ true → cell mem 0 e x ≡ some e
last_cell mem e x h = cell-zero mem e x ∙ ap (λ (b : Bool). if b then some e else none) h

set_last :
    (m : Machine) (t : ℕ) (addr : LinearAddress) (content i : ℕ)
    → part addr 1 ≡ i
    → set_page_content 0 m t addr content
      ≡ (success, record m { memory = write m.memory t i (with_content (m.memory t i) content) })
unfolding set_page_content
set_last m t addr content i h = rw h refl

set_next :
    (l : ℕ) (m : Machine) (t : ℕ) (addr : LinearAddress) (content i : ℕ)
    → part addr (suc (suc l)) ≡ i
    → set_page_content (suc l) m t addr content
      ≡ set_page_content l m (pointer (m.memory t i)) addr content
unfolding set_page_content
set_next l m t addr content i h = rw h refl

pub find_entry :
    (l : ℕ) (m : Machine) (label : Labels) (t : ℕ) (addr : LinearAddress) (content : ℕ)
    (d : PageMapEntry)
    → l < 4
    → IsAddress addr
    → user_start ≤ number addr
    → Leads m.memory label
    → label t ≡ some (l, prefix (suc l) (number addr))
    → leaf m.memory l t (number addr) ≡ some d
    → (t0 : ℕ) × Found m.memory label l t (number addr) t0
      × (set_page_content l m t addr content ≡ (
        success,
        record m {
          memory =
              write m.memory t0
                (prefix 0 (number addr) % 512)
                (with_content (m.memory t0 (prefix 0 (number addr) % 512)) content);
        },
      ))
find_entry zero m label t addr content d b k up leads own found =
    let x = number addr in
    let i = prefix 0 x % 512 in
    let here = present_cell m.memory 0 (m.memory t i) x d found in
    (
      t,
      record {
        own = own;
        entry = last_cell m.memory (m.memory t i) x here;
        here = here;
        after = λ mem' same present. last_cell mem' (mem' t i) x present;
      },
      set_last m t addr content i (part_lem 0 addr b k),
    )
find_entry (suc l) m label t addr content d b k up leads own found =
    let x = number addr in
    let i = prefix (suc l) x % 512 in
    let e = m.memory t i in
    let here : e.present ≡ true = present_cell m.memory (suc l) e x d found in
    let child : label (pointer e) ≡ some (l, prefix (suc l) x) = leads t l x own up here in
    let (t0, deeper, sets) =
      find_entry l m label (pointer e) addr content d (omega arith) k up leads child
        (sym (cell_present m.memory l e x here) ∙ found) in
    (
      t0,
      record {
        own = deeper.own;
        entry = cell_present m.memory l e x here ∙ deeper.entry;
        here = deeper.here;
        after = λ mem' same present.
            let same_here : mem' t i ≡ e = same t l (prefix (suc (suc l)) x) i own in
            ap (λ (e' : PageMapEntry). cell mem' (suc l) e' x) same_here
            ∙ cell_present mem' l e x here
            ∙ deeper.after mem' same present;
      },
      set_next l m t addr content i (part_lem (suc l) addr b k) ∙ sets,
    )
