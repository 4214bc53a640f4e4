-- ===== src/Paging/Copies/OnePage.antt =====
-- `CopyOnePage`: a page that is written to gets a frame of its own.
use hon_os.Prelude.{
  ℕ, suc, ◌*◌, ◌/◌, ◌%◌, ◌^◌, ◌<◌, ◌≡◌, ◌≢◌, ◌⊎◌, inl, inr, refl, ap, sym, ◌∙◌, Option, none, some,
  true, false, ◌==◌, ==_refl, arith, ◌≤◌,
}
use hon_os.Errors.{success, no_enough_memory, is_error}
use hon_os.Memory.{bytes_per_frame, frame_count, get_bit}
use hon_os.Paging.{
  of_value, PageMapEntry, pointer, set_pointer, Memory, write, Machine, new_page_map,
}
use hon_os.Paging.Copies.{set_page_content, copy_page, copy_one_page, Reading, page_start}
use hon_os.Paging.Copies.Finding.{with_content, Found, find_entry}
use hon_os.Paging.Addresses.{number, prefix, of_value-IsAddress, number-of_value}
use hon_os.Paging.Tables.{
  leaf, Labels, Leads, IsTree, leaf_agree, leaf_change, own_number, user_start,
}
use hon_os.Paging.Entries.{NewMap, new_page_map-NewMap, used_ne}
use hon_os.Paging.Entering.{write_self, write_other, deeper_ne}

-- The processor reads what the page maps say: the words of the page that they lead to.
abbrev pub Translates : Reading → ℕ → Type 0
Translates read cr3 =
    (mem : Memory) (a : ℕ) (e : PageMapEntry) (j : ℕ)
    → leaf mem 3 cr3 (a / 2 ^ 12 % 2 ^ 36) ≡ some e
    → read mem (page_start a) j ≡ mem (pointer e) j

-- The page `x` of the entry `e` has moved to the new page `p`.
pub record Copied (m : Machine) (label : Labels) (cr3 x : ℕ) (e : PageMapEntry) (p : ℕ)
    (m' : Machine) : Type 0 where
  pub tree : IsTree m' label
  pub entry : leaf m'.memory 3 cr3 x ≡ some (with_content e p)
  pub points : pointer (with_content e p) ≡ p
  pub fresh : get_bit m.manager (p / bytes_per_frame) ≡ false
  pub words : (j : ℕ) → m'.memory p j ≡ m.memory (pointer e) j
  pub shared : (j : ℕ) → m'.memory (pointer e) j ≡ m.memory (pointer e) j
  pub others :
      (y : ℕ) → user_start ≤ y → y < 2 ^ 36 → y ≢ x → leaf m'.memory 3 cr3 y ≡ leaf m.memory 3 cr3 y

copy_one_page_refused :
    (read : Reading) (m : Machine) (cr3 a : ℕ)
    → new_page_map m ≡ some (record { value = 0; error = no_enough_memory }, m)
    → copy_one_page read m cr3 a ≡ some (no_enough_memory, m)
unfolding copy_one_page is_error
copy_one_page_refused read m cr3 a e = rw e refl

copy_one_page_made :
    (read : Reading) (m : Machine) (cr3 a p : ℕ) (m1 : Machine)
    → new_page_map m ≡ some (record { value = p; error = success }, m1)
    → copy_one_page read m cr3 a
      ≡ some (
          set_page_content 3
            (record m1 { memory = copy_page m1.memory p (read m1.memory (page_start a)) })
            cr3
            (of_value a)
            p)
unfolding copy_one_page is_error
copy_one_page_made read m cr3 a p m1 e = rw e refl

pointer-with_content :
    (e : PageMapEntry) (p f : ℕ)
    → p ≡ f * bytes_per_frame
    → f < frame_count
    → pointer (with_content e p) ≡ p
unfolding pointer set_pointer
pointer-with_content e p f h l = omega arith

present-with_content : (e : PageMapEntry) (p : ℕ) → (with_content e p).present ≡ e.present
unfolding set_pointer
present-with_content e p = refl

some_entry : (a b : PageMapEntry) → ◌≡◌ {A = Option PageMapEntry} (some a) (some b) → a ≡ b
some_entry a b h = cc

root_number : (y : ℕ) → y < 2 ^ 36 → 0 ≡ prefix 4 y
root_number y h = omega arith

some-none : (b : ℕ × ℕ) → ¬ (◌≡◌ {A = Option (ℕ × ℕ)} (some b) none)
some-none b h = cc

module _ (read : Reading) (m : Machine) (label : Labels) (cr3 a : ℕ) (e : PageMapEntry)
    (reads : Translates read cr3) (tree : IsTree m label) (root : label cr3 ≡ some (3, 0))
    (upper_half : user_start ≤ number (of_value a))
    (mapped : leaf m.memory 3 cr3 (number (of_value a)) ≡ some e)
    (held : get_bit m.manager (pointer e / bytes_per_frame) ≡ true)
    (data_page : label (pointer e) ≡ none) (p : ℕ) (m1 : Machine) (new : NewMap m p m1) where
  abbrev x : ℕ
  x = number (of_value a)

  words : ℕ → PageMapEntry
  words = read m1.memory (page_start a)

  m2 : Machine
  m2 = record m1 { memory = copy_page m1.memory p words }

  label_ne : (t : ℕ) (b : ℕ × ℕ) → label t ≡ some b → t ≢ p
  label_ne t (l, q) h = used_ne m p m1 t new (tree.held t l q h)

  same1 : (t j : ℕ) → t ≢ p → m1.memory t j ≡ m.memory t j
  same1 t j d =
      let other : (p == t) ≡ false = ground arith in
      ap (λ (mem : Memory). mem t j) new.memory ∙ rw other refl

  same2 : (t j : ℕ) → t ≢ p → m2.memory t j ≡ m.memory t j
  unfolding m2
  same2 t j d =
      let other : (p == t) ≡ false = ground arith in
      (let h : m2.memory t j ≡ m1.memory t j = rw other refl in h) ∙ same1 t j d

  at_root : (y : ℕ) → y < 2 ^ 36 → label cr3 ≡ some (3, prefix 4 y)
  at_root y h = root ∙ ap (λ n. some (3, n)) (root_number y h)

  leaf2 : (y : ℕ) → user_start ≤ y → y < 2 ^ 36 → leaf m2.memory 3 cr3 y ≡ leaf m.memory 3 cr3 y
  leaf2 y up h =
      leaf_agree m.memory m2.memory label tree.leads 3 4 cr3 y
        (λ t l q j k b. same2 t j (label_ne t (l, q) k)) (omega arith) up (at_root y h)

  leaf1 : (y : ℕ) → user_start ≤ y → y < 2 ^ 36 → leaf m1.memory 3 cr3 y ≡ leaf m.memory 3 cr3 y
  leaf1 y up h =
      leaf_agree m.memory m1.memory label tree.leads 3 4 cr3 y
        (λ t l q j k b. same1 t j (label_ne t (l, q) k)) (omega arith) up (at_root y h)

  leads2 : Leads m2.memory label
  leads2 t l y h up here =
      let same = same2 t (prefix (suc l) y % 512) (label_ne t (suc l, prefix (suc (suc l)) y) h) in
      ap (λ (d : PageMapEntry). label (pointer d)) same
      ∙ tree.leads t l y h up (sym (ap (λ (d : PageMapEntry). d.present) same) ∙ here)

  x_small : x < 2 ^ 36
  x_small = omega (arith, number-of_value a)

  mapped1 : leaf m1.memory 3 cr3 (a / 2 ^ 12 % 2 ^ 36) ≡ some e
  mapped1 =
      ap (leaf m1.memory 3 cr3) (sym (number-of_value a)) ∙ leaf1 x upper_half x_small ∙ mapped

  word_lem : (j : ℕ) → m2.memory p j ≡ m.memory (pointer e) j
  unfolding m2 words
  word_lem j =
      (let h : m2.memory p j ≡ words j = rw (==_refl p) refl in h)
      ∙ reads m1.memory a e j mapped1
      ∙ same1 (pointer e) j (used_ne m p m1 (pointer e) new held)

  -- Where the entry stands.
  module _ (t0 : ℕ) (found : Found m2.memory label 3 cr3 x t0) where
    abbrev i0 : ℕ
    i0 = prefix 0 x % 512

    m3 : Machine
    m3 = record m2 { memory = write m2.memory t0 i0 (with_content (m2.memory t0 i0) p) }

    entry_is : m2.memory t0 i0 ≡ e
    entry_is =
        some_entry (m2.memory t0 i0) e (sym found.entry ∙ leaf2 x upper_half x_small ∙ mapped)

    changed : m3.memory t0 i0 ≡ with_content e p
    unfolding m3
    changed =
        write_self m2.memory t0 i0 (with_content (m2.memory t0 i0) p)
        ∙ ap (λ (d : PageMapEntry). with_content d p) entry_is

    kept : (t j : ℕ) → (t ≢ t0) ⊎ (j ≢ i0) → m3.memory t j ≡ m2.memory t j
    unfolding m3
    kept t j d = write_other m2.memory t0 i0 t j (with_content (m2.memory t0 i0) p) d

    upper : (t l q j : ℕ) → label t ≡ some (suc l, q) → m3.memory t j ≡ m2.memory t j
    upper t l q j h = kept t j (
        inl λ same.
          deeper_ne label t t0 (suc l) 0 q (prefix 1 x) h found.own (omega arith) (sym same))

    still_here : (m3.memory t0 i0).present ≡ true
    still_here =
        ap (λ (d : PageMapEntry). d.present) changed
        ∙ present-with_content e p
        ∙ sym (ap (λ (d : PageMapEntry). d.present) entry_is)
        ∙ found.here

    other_pages :
        (y : ℕ)
        → user_start ≤ y
        → y < 2 ^ 36
        → y ≢ x
        → leaf m3.memory 3 cr3 y ≡ leaf m.memory 3 cr3 y
    other_pages y up h d =
        leaf_change m2.memory m3.memory label leads2 t0 0 (prefix 1 x) i0 found.own
          (λ t l q j k differs. kept t j differs) 3 cr3 y up (at_root y h)
          (λ hit. absurd (d (omega (arith, own_number 0 x))))
        ∙ leaf2 y up h

    manager_is : m3.manager ≡ m1.manager
    unfolding m3 m2
    manager_is = refl

    tree3 : IsTree m3 label
    tree3 = record {
      manager = rw manager_is new.manager;
      small = rw manager_is new.small;
      held = λ t l q h. rw manager_is (new.kept (t / bytes_per_frame) (tree.held t l q h));
      leads = λ t l y h up here.
          let same = upper t l (prefix (suc (suc l)) y) (prefix (suc l) y % 512) h in
          ap (λ (d : PageMapEntry). label (pointer d)) same
          ∙ leads2 t l y h up (sym (ap (λ (d : PageMapEntry). d.present) same) ∙ here);
    }

    copied : Copied m label cr3 x e p m3
    copied = record {
      tree = tree3;
      entry = found.after m3.memory upper still_here ∙ ap (λ (d : PageMapEntry). some d) changed;
      points = pointer-with_content e p new.frame new.address new.low;
      fresh =
          ap (get_bit m.manager)
            (let h : p / bytes_per_frame ≡ new.frame = omega (arith, new.address) in h)
          ∙ new.unused;
      words =
          λ j. kept p j (inl λ same. label_ne t0 (0, prefix 1 x) found.own (sym same)) ∙ word_lem j;
      shared = λ j.
          kept (pointer e) j (
            inl λ same. some-none (0, prefix 1 x) (sym found.own ∙ sym (ap label same) ∙ data_page))
          ∙ same2 (pointer e) j (used_ne m p m1 (pointer e) new held);
      others = other_pages;
    }

  Copied-result :
      new_page_map m ≡ some (record { value = p; error = success }, m1)
      → (m' : Machine) × (copy_one_page read m cr3 a ≡ some (success, m'))
        × Copied m label cr3 x e p m'
  unfolding m3 m2 words
  Copied-result made =
      let (t0, found, sets) =
        find_entry 3 m2 label cr3 (of_value a) p e (omega arith) (of_value-IsAddress a) upper_half
          leads2 (at_root x x_small) (leaf2 x upper_half x_small ∙ mapped) in
      (
        m3 t0 found,
        copy_one_page_made read m cr3 a p m1 made ∙ ap (λ r. some r) sets,
        copied t0 found,
      )

-- In page maps with the root `cr3` that are a tree in the upper half of the addresses: the page is one of
-- that half and mapped to a frame that is in use and that is no page map, and the processor reads what
-- the page maps say. `CopyOnePage` returns: either there is not enough memory and nothing has changed, or
-- it reports success, and the page is mapped, now writable, to a frame that was free and has the words
-- of the old one. The old frame keeps its words, and every other page of the upper half its entry.
pub copy_one_page-Copied :
    (read : Reading) (m : Machine) (label : Labels) (cr3 a : ℕ) (e : PageMapEntry)
    → Translates read cr3
    → IsTree m label
    → label cr3 ≡ some (3, 0)
    → user_start ≤ number (of_value a)
    → leaf m.memory 3 cr3 (number (of_value a)) ≡ some e
    → get_bit m.manager (pointer e / bytes_per_frame) ≡ true
    → label (pointer e) ≡ none
    → (copy_one_page read m cr3 a ≡ some (no_enough_memory, m))
      ⊎ ((p : ℕ) × (m' : Machine) × (copy_one_page read m cr3 a ≡ some (success, m'))
          × Copied m label cr3 (number (of_value a)) e p m')
copy_one_page-Copied read m label cr3 a e reads tree root up mapped held data_page =
    elim (new_page_map-NewMap m tree.manager tree.small) [
      | inl full ↦ inl (copy_one_page_refused read m cr3 a full)
      | inr (p, m1, made, new) ↦
          let (m', done, copied_to) =
            Copied-result read m label cr3 a e reads tree root up mapped held data_page p m1 new
              made in
          inr (p, m', done, copied_to)
    ]
