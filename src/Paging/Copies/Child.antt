-- ===== src/Paging/Copies/Child.antt =====
-- An entry of `CopyPageMaps` that gets a page map of its own, with what is below it.
use hon_os.Prelude.{
  ℕ, zero, suc, ◌*◌, ◌/◌, ◌%◌, ◌<◌, ◌≡◌, ◌≢◌, ◌⊎◌, inl, inr, refl, ap, sym, ◌∙◌, true, false, ◌==◌,
  ==_refl, arith, Bool-cases,
}
use hon_os.Errors.{Code, no_enough_memory}
use hon_os.Memory.{bytes_per_frame, frame_count, get_bit}
use hon_os.Paging.{PageMapEntry, zero_entry, pointer, set_pointer, Memory, write, clear, Machine}
use hon_os.Paging.Addresses.{prefix}
use hon_os.Paging.Tables.{cell, cell_present, leaf}
use hon_os.Paging.Entries.{NewMap, used_ne}
use hon_os.Paging.Entering.{write_self, write_other}
use hon_os.Paging.Copies.Copying.{
  read_only, Used, Fresh, Inside, Inside-entry, Inside-entries, Inside-last, Inside-weaker,
  Inside-kept, Inside-leaf, Grows, Shows, Shown, Copies, Ready,
}

pointer-set_pointer :
    (e : PageMapEntry) (p f : ℕ)
    → p ≡ f * bytes_per_frame
    → f < frame_count
    → pointer (set_pointer e p) ≡ p
unfolding pointer set_pointer
pointer-set_pointer e p f h l = omega arith

present-set_pointer : (e : PageMapEntry) (p : ℕ) → (set_pointer e p).present ≡ e.present
unfolding set_pointer
present-set_pointer e p = refl

-- The machine behind `NewPageMap` and the write of the entry.
abbrev pub linked : Machine → ℕ → ℕ → ℕ → ℕ → Machine
linked m1 dest src i p = record m1 {
  memory = write m1.memory dest i (set_pointer (m1.memory src i) p);
}

module _ (k : ℕ) (m : Machine) (dest src i : ℕ) (small : i < 512)
    (ready : Ready (suc k) m dest src i) (here : (m.memory src i).present ≡ true) (p : ℕ)
    (m1 : Machine) (new : NewMap m p m1) where
  abbrev m2 : Machine
  m2 = linked m1 dest src i p

  abbrev child : ℕ
  child = pointer (m.memory src i)

  held_ne : (u : ℕ) → Used m u → u ≢ p
  held_ne u h = used_ne m p m1 u new h

  cleared : (u j : ℕ) → u ≢ p → m1.memory u j ≡ m.memory u j
  cleared u j d =
      let other : (p == u) ≡ false = ground arith in
      ap (λ (mem : Memory). mem u j) new.memory ∙ rw other refl

  entry_is : m2.memory dest i ≡ set_pointer (m.memory src i) p
  entry_is =
      write_self m1.memory dest i (set_pointer (m1.memory src i) p)
      ∙ ap (λ (e : PageMapEntry). set_pointer e p) (cleared src i (held_ne src ready.source))

  entry_other : (u j : ℕ) → u ≢ p → (u ≢ dest) ⊎ (j ≢ i) → m2.memory u j ≡ m.memory u j
  entry_other u j d e =
      write_other m1.memory dest i u j (set_pointer (m1.memory src i) p) e ∙ cleared u j d

  -- The page map is empty.
  page_empty : (j : ℕ) → (m2.memory p j).present ≡ false
  page_empty j =
      ap (λ (e : PageMapEntry). e.present)
        (write_other m1.memory dest i p j (set_pointer (m1.memory src i) p)
            (inl λ e. held_ne dest ready.target (sym e))
          ∙ ap (λ (mem : Memory). mem p j) new.memory
          ∙ (let h : clear m.memory p p j ≡ zero_entry = rw (==_refl p) refl in h))

  page_frame : p / bytes_per_frame ≡ new.frame
  page_frame = omega (arith, new.address)

  page_used : Used m1 p
  page_used = ap (get_bit m1.manager) page_frame ∙ new.used

  page_unused : get_bit m.manager (p / bytes_per_frame) ≡ false
  page_unused = ap (get_bit m.manager) page_frame ∙ new.unused

  -- The page map of the source below the entry.
  below_source :
      (Used m child × (child ≢ dest)) × Inside (λ u. Used m u × (u ≢ dest)) m.memory k child
  below_source = ready.inside k i refl (omega arith) small here

  same_below : (u j : ℕ) → Used m u × (u ≢ dest) → m2.memory u j ≡ m.memory u j
  same_below u j (used, other) = entry_other u j (held_ne u used) (inl other)

  pub child-Ready : Ready k m2 p child 0
  child-Ready =
      let ((used, other), deeper) = below_source in
      record {
        manager = new.manager;
        small = new.small;
        source = new.kept (child / bytes_per_frame) used;
        target = page_used;
        differs = held_ne child used;
        inside = λ k' j levels low high here'.
            let whole =
              Inside-weaker (λ u. Used m u × (u ≢ dest)) (λ u. Used m2 u × (u ≢ p)) m2.memory k
                child (λ u (used', other'). (new.kept (u / bytes_per_frame) used', held_ne u used'))
                (Inside-kept (λ u. Used m u × (u ≢ dest)) m.memory m2.memory same_below k child
                  (λ j'. same_below child j' (used, other)) deeper) in
            Inside-entry (λ u. Used m2 u × (u ≢ p)) m2.memory k' child j (rw (sym levels) whole)
              high here';
        empty = λ j h. page_empty j;
      }

  pub child_same : pointer (m2.memory src i) ≡ child
  child_same = ap pointer (entry_other src i (held_ne src ready.source) (inl ready.differs))

  module _ (code : Code) (m3 : Machine) (below : Copies k m2 p child 0 code m3) where
    dest_kept : (j : ℕ) → m3.memory dest j ≡ m2.memory dest j
    dest_kept j =
        below.grows.kept dest j (new.kept (dest / bytes_per_frame) ready.target)
          (held_ne dest ready.target)

    child-Grows : Grows m dest m3
    child-Grows = record {
      manager = below.grows.manager;
      small = below.grows.small;
      used = λ u h. below.grows.used u (new.kept (u / bytes_per_frame) h);
      kept = λ u j h d.
          below.grows.kept u j (new.kept (u / bytes_per_frame) h) (held_ne u h)
          ∙ entry_other u j (held_ne u h) (inl d);
    }

    others : (j : ℕ) → j ≢ i → m3.memory dest j ≡ m.memory dest j
    others j d = dest_kept j ∙ entry_other dest j (held_ne dest ready.target) (inr d)

    -- Memory has run out below.
    pub failed-Copies : code ≡ no_enough_memory → Copies (suc k) m dest src i no_enough_memory m3
    failed-Copies failed = record {
      grows = child-Grows;
      low = λ j h. others j (omega arith);
      outcome = inl refl;
    }

    final_entry : m3.memory dest i ≡ set_pointer (m.memory src i) p
    final_entry = dest_kept i ∙ entry_is

    final_present : (m3.memory dest i).present ≡ true
    final_present =
        ap (λ (e : PageMapEntry). e.present) final_entry
        ∙ present-set_pointer (m.memory src i) p
        ∙ here

    final_pointer : pointer (m3.memory dest i) ≡ p
    final_pointer =
        ap pointer final_entry
        ∙ pointer-set_pointer (m.memory src i) p new.frame new.address new.low

    Fresh-child : (u : ℕ) → Fresh m2 m3 u → Fresh m m3 u
    Fresh-child u (unused, used) = elim (Bool-cases (get_bit m.manager (u / bytes_per_frame))) [
      | inl held ↦ let h = new.kept (u / bytes_per_frame) held in absurd (cc)
      | inr free ↦ (free, used)
    ]

    page-Fresh : Fresh m m3 p
    page-Fresh = (page_unused, below.grows.used p page_used)

    page-Inside : (l : ℕ) → k ≡ l → Shown k m2 p child 0 m3 → Inside (Fresh m m3) m3.memory l p
    page-Inside zero levels shown = Inside-last (Fresh m m3) m3.memory p
    page-Inside (suc l) levels shown = Inside-entries (Fresh m m3) m3.memory l p λ j b present.
        let (fresh, deeper) = shown.inside j l (omega arith) b levels present in
        (
          Fresh-child (pointer (m3.memory p j)) fresh,
          Inside-weaker (Fresh m2 m3) (Fresh m m3) m3.memory l (pointer (m3.memory p j)) Fresh-child
              deeper,
        )

    shown_there :
        Shown k m2 p child 0 m3
        → (x : ℕ) → prefix (suc k) x % 512 ≡ i
        → leaf m3.memory (suc k) dest x ≡ read_only (leaf m.memory (suc k) src x)
    shown_there shown x index =
        let ((used, other), deeper) = below_source in
        ap (λ j. cell m3.memory (suc k) (m3.memory dest j) x) index
        ∙ cell_present m3.memory k (m3.memory dest i) x final_present
        ∙ ap (λ c. leaf m3.memory k c x) final_pointer
        ∙ shown.shown x (omega arith)
        ∙ ap read_only (
            Inside-leaf (λ u. Used m u × (u ≢ dest)) m.memory m2.memory same_below k child x
              (λ j. same_below child j (used, other)) deeper
            ∙ sym (cell_present m.memory k (m.memory src i) x here)
            ∙ sym (ap (λ j. cell m.memory (suc k) (m.memory src j) x) index))

    pub child-Shows : Shown k m2 p child 0 m3 → Shows (suc k) m dest src i m3
    child-Shows shown = record {
      grows = child-Grows;
      others = others;
      shown = shown_there shown;
      inside = λ l levels present. rw final_pointer (page-Fresh, page-Inside l (omega arith) shown);
    }
