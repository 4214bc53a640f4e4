-- ===== src/Paging/Making.antt =====
-- A round of `SetupPageMap` that makes a new page map, and the two kinds of rounds together.
use hon_os.Prelude.{
  ℕ, zero, suc, ◌+◌, ◌*◌, ◌/◌, ◌%◌, ◌<◌, ◌≡◌, ◌≢◌, ◌⊎◌, inl, inr, refl, ap, sym, ◌∙◌, some, Bool,
  true, false, ◌==◌, ==_refl, if◌then◌else◌, arith, Bool-cases, ℕ_discrete, ◌≤◌,
}
use hon_os.Errors.{success, no_enough_memory, is_error}
use hon_os.Memory.{bytes_per_frame, frame_count, get_bit}
use hon_os.Paging.{
  PageMapEntry, zero_entry, pointer, set_pointer, Memory, write, clear, Machine, new_page_map,
  set_new_page_map_if_not_present, set_flags,
}
use hon_os.Paging.Addresses.{prefix}
use hon_os.Paging.Tables.{
  cell, cell_absent, cell_present, leaf, Labels, Leads, IsTree, leaf_change, pair_of_some,
  same_entry, user_start, own_number,
}
use hon_os.Paging.Entries.{NewMap, new_page_map-NewMap}
use hon_os.Paging.Entering.{
  Entered, marked-Entered, write_self, write_other, flagged, pointer-flagged,
}

-- The labels with that of a new page map, if there are levels below.
extend : Labels → ℕ → ℕ → ℕ → Labels
extend label zero p n t = label t
extend label (suc l) p n t = if p == t then some (l, n) else label t

extend-grows :
    (label : Labels) (l p n t : ℕ) (a : ℕ × ℕ)
    → t ≢ p
    → label t ≡ some a
    → extend label l p n t ≡ some a
unfolding extend
extend-grows label zero p n t a d h = h
extend-grows label (suc l) p n t a d h = let other : (p == t) ≡ false = ground arith in rw other h

extend-child : (label : Labels) (l k p n : ℕ) → l ≡ suc k → extend label l p n p ≡ some (k, n)
unfolding extend
extend-child label zero k p n h = absurd (omega arith)
extend-child label (suc l) k p n h =
    let same : l ≡ k = omega arith in rw (==_refl p) (ap (λ j. some (j, n)) same)

extend-old :
    (label : Labels) (l p n t : ℕ) (a : ℕ × ℕ)
    → t ≢ p
    → extend label l p n t ≡ some a
    → label t ≡ some a
unfolding extend
extend-old label zero p n t a d h = h
extend-old label (suc l) p n t a d h =
    let other : (p == t) ≡ false = ground arith in
    ap (λ (b : Bool). if b then some (l, n) else label t) (sym other) ∙ h

-- What `SetNewPageMapIfNotPresent` writes.
abbrev linked : PageMapEntry → ℕ → PageMapEntry
linked e p = record (set_pointer e p) { present = true }

made_lem :
    (m m' : Machine) (t i p : ℕ)
    → (m.memory t i).present ≡ false
    → new_page_map m ≡ some (record { value = p; error = success }, m')
    → set_new_page_map_if_not_present m t i
      ≡ some (
        record { value = p; error = success },
        record m' { memory = write m'.memory t i (linked (m'.memory t i) p) },
      )
unfolding set_new_page_map_if_not_present is_error
made_lem m m' t i p gone e = rw (gone, e) refl

found_lem :
    (m : Machine) (t i : ℕ)
    → (m.memory t i).present ≡ true
    → set_new_page_map_if_not_present m t i
      ≡ some (record { value = pointer (m.memory t i); error = success }, m)
unfolding set_new_page_map_if_not_present
found_lem m t i here = rw here refl

refused_lem :
    (m : Machine) (t i : ℕ)
    → (m.memory t i).present ≡ false
    → new_page_map m ≡ some (record { value = 0; error = no_enough_memory }, m)
    → set_new_page_map_if_not_present m t i
      ≡ some (record { value = 0; error = no_enough_memory }, m)
unfolding set_new_page_map_if_not_present is_error
refused_lem m t i gone e = rw (gone, e) refl

pointer-linked :
    (e : PageMapEntry) (p f : ℕ)
    → p ≡ f * bytes_per_frame
    → f < frame_count
    → pointer (linked e p) ≡ p
unfolding pointer set_pointer
pointer-linked e p f h l = omega arith

module _ (m : Machine) (label : Labels) (tree : IsTree m label) (t l q i : ℕ) (flag : Bool)
    (own : label t ≡ some (l, q)) (gone : (m.memory t i).present ≡ false) (p : ℕ) (m1 : Machine)
    (fresh : NewMap m p m1) where
  made : Machine
  made = set_flags (record m1 { memory = write m1.memory t i (linked (m1.memory t i) p) }) t i flag

  label_ne : (t' : ℕ) (a : ℕ × ℕ) → label t' ≡ some a → t' ≢ p
  label_ne t' (l', q') h e =
      let held = tree.held t' l' q' h in
      let same : t' / bytes_per_frame ≡ fresh.frame = omega (arith, fresh.address) in
      let free = fresh.unused in ground (arith, ap (get_bit m.manager) same)

  made_self : made.memory t i ≡ flagged (linked (m1.memory t i) p) flag
  unfolding made set_flags
  made_self =
      write_self (write m1.memory t i (linked (m1.memory t i) p)) t i _
      ∙ ap (λ (e : PageMapEntry). flagged e flag)
          (write_self m1.memory t i (linked (m1.memory t i) p))

  made_other : (t' j : ℕ) → (t' ≢ t) ⊎ (j ≢ i) → made.memory t' j ≡ clear m.memory p t' j
  unfolding made set_flags
  made_other t' j h =
      write_other (write m1.memory t i (linked (m1.memory t i) p)) t i t' j _ h
      ∙ write_other m1.memory t i t' j (linked (m1.memory t i) p) h
      ∙ ap (λ (mem : Memory). mem t' j) fresh.memory

  made_kept :
      (t' j : ℕ) (a : ℕ × ℕ)
      → label t' ≡ some a
      → (t' ≢ t) ⊎ (j ≢ i)
      → made.memory t' j ≡ m.memory t' j
  made_kept t' j a h d =
      let other : (p == t') ≡ false = ground (arith, label_ne t' a h) in
      made_other t' j d ∙ rw other refl

  made_empty : (j : ℕ) → made.memory p j ≡ zero_entry
  made_empty j = made_other p j (inl (λ e. label_ne t (l, q) own (sym e))) ∙ rw (==_refl p) refl

  pointer-made : pointer (made.memory t i) ≡ p
  pointer-made =
      ap pointer made_self
      ∙ pointer-flagged (linked (m1.memory t i) p) true flag
      ∙ pointer-linked (m1.memory t i) p fresh.frame fresh.address fresh.low

  made_change :
      (k x : ℕ)
      → l ≡ suc k
      → cell made.memory l (made.memory t i) x ≡ cell m.memory l (m.memory t i) x
  made_change k x levels =
      ap (λ n. cell made.memory n (made.memory t i) x) levels
      ∙ cell_present made.memory k (made.memory t i) x
          (ap (λ (e : PageMapEntry). e.present) made_self)
      ∙ ap (λ c. leaf made.memory k c x) pointer-made
      ∙ cell_absent made.memory k (made.memory p (prefix k x % 512)) x
          (ap (λ (e : PageMapEntry). e.present) (made_empty (prefix k x % 512)))
      ∙ sym (cell_absent m.memory l (m.memory t i) x gone)

  made-Leads : Leads made.memory (extend label l p (q * 512 + i))
  made-Leads t' l' x h up here =
      let j = prefix (suc l') x % 512 in
      let q' = prefix (suc (suc l')) x in
      elim (ℕ_discrete t' p) [
        | yes new ↦
            let absent : (made.memory t' j).present ≡ false =
              ap (λ s. (made.memory s j).present) new
              ∙ ap (λ (e : PageMapEntry). e.present) (made_empty j) in
            cc
        | no old ↦
            let h' = extend-old label l p (q * 512 + i) t' (suc l', q') old h in
            elim (same_entry t' j t i) [
              | inl (same, index) ↦
                  let (levels, numbers) =
                    pair_of_some (suc l') q' l q (sym h' ∙ ap label same ∙ own) in
                  ap (extend label l p (q * 512 + i)) (
                    ap (λ s. pointer (made.memory s j)) same
                    ∙ ap (λ k. pointer (made.memory t k)) index
                    ∙ pointer-made)
                  ∙ extend-child label l l' p (q * 512 + i) (sym levels)
                  ∙ ap (λ n. some (l', n))
                      (let e : q * 512 + i ≡ prefix (suc l') x =
                          omega (arith, own_number (suc l') x) in
                        e)
              | inr other ↦
                  let kept = made_kept t' j (suc l', q') h' other in
                  let lead =
                    tree.leads t' l' x h' up
                      (ap (λ (e : PageMapEntry). e.present) (sym kept) ∙ here) in
                  ap (λ (e : PageMapEntry). extend label l p (q * 512 + i) (pointer e)) kept
                  ∙ extend-grows label l p (q * 512 + i) (pointer (m.memory t' j))
                      (l', prefix (suc l') x)
                      (label_ne (pointer (m.memory t' j)) (l', prefix (suc l') x) lead) lead
            ]
      ]

  made_held :
      (t' l' q' : ℕ)
      → extend label l p (q * 512 + i) t' ≡ some (l', q')
      → get_bit m1.manager (t' / bytes_per_frame) ≡ true
  made_held t' l' q' h = elim (ℕ_discrete t' p) [
    | yes new ↦
        ap (get_bit m1.manager)
          (let e : t' / bytes_per_frame ≡ fresh.frame = omega (arith, fresh.address) in e)
        ∙ fresh.used
    | no old ↦
        fresh.kept (t' / bytes_per_frame)
          (tree.held t' l' q' (extend-old label l p (q * 512 + i) t' (l', q') old h))
  ]

  made-Entered : Entered m label t l q i flag p made (extend label l p (q * 512 + i))
  made-Entered = record {
    tree = record {
      manager = rw made_manager fresh.manager;
      small = rw made_manager fresh.small;
      held = λ t' l' q' h. rw made_manager (made_held t' l' q' h);
      leads = made-Leads;
    };
    grows = λ t' a h. extend-grows label l p (q * 512 + i) t' a (label_ne t' a h) h;
    child = λ k levels. extend-child label l k p (q * 512 + i) levels;
    present = ap (λ (e : PageMapEntry). e.present) made_self;
    user = ap (λ (e : PageMapEntry). e.user) made_self;
    writable = ap (λ (e : PageMapEntry). e.writable) made_self;
    points = pointer-made;
    others = λ t' l' q' j h d. made_kept t' j (l', q') h d;
    kept = λ l' t' x h up d.
        leaf_change m.memory made.memory label tree.leads t l q i own
          (λ t'' l'' q'' j k differs. made_kept t'' j (l'', q'') k differs) l' t' x up h
          (λ hit. elim d [
            | inl (k, levels) ↦ made_change k x levels
            | inr away ↦ absurd (away hit)
          ]);
  }
    where
      made_manager : made.manager ≡ m1.manager
      made_manager = unfold made set_flags in refl

-- What the call of `SetNewPageMapIfNotPresent` and the flags behind it come to.
pub enter :
    (m : Machine) (label : Labels) (t l q i : ℕ) (flag : Bool)
    → IsTree m label
    → label t ≡ some (l, q)
    → (x : ℕ) → q ≡ prefix (suc l) x
    → i ≡ prefix l x % 512
    → user_start ≤ x
    → (set_new_page_map_if_not_present m t i
        ≡ some (record { value = 0; error = no_enough_memory }, m))
      ⊎ ((c : ℕ) × (m' : Machine) × (label' : Labels) × (set_new_page_map_if_not_present m t i
            ≡ some (record { value = c; error = success }, m'))
          × Entered m label t l q i flag c (set_flags m' t i flag) label')
unfolding made
enter m label t l q i flag tree own x number index up = elim (Bool-cases (m.memory t i).present) [
  | inl here ↦ inr (
    pointer (m.memory t i),
    m,
    label,
    found_lem m t i here,
    marked-Entered m label tree t l q i flag own x number index up here,
  )
  | inr gone ↦ elim (new_page_map-NewMap m tree.manager tree.small) [
    | inl full ↦ inl (refused_lem m t i gone full)
    | inr (p, m1, e, fresh) ↦ inr (
      p,
      record m1 { memory = write m1.memory t i (linked (m1.memory t i) p) },
      extend label l p (q * 512 + i),
      made_lem m m1 t i p gone e,
      made-Entered m label tree t l q i flag own gone p m1 fresh,
    )
  ]
]
