-- ===== src/Paging/Entering.antt =====
-- What a round of `SetupPageMap` has done when it goes down to the next level.
use hon_os.Prelude.{
  ℕ, suc, ◌+◌, ◌*◌, ◌<◌, ◌≡◌, ◌≢◌, ◌⊎◌, inl, inr, refl, ap, sym, ◌∙◌, some, Bool, true, false, ◌==◌,
  ==_refl, arith, Bool-cases, ◌%◌, ◌≤◌,
}
use hon_os.Paging.{PageMapEntry, pointer, Memory, write, Machine, set_flags}
use hon_os.Paging.Addresses.{prefix}
use hon_os.Paging.Tables.{
  cell, cell_present, leaf, Labels, IsTree, leaf_change, leaf_agree, pair_of_some, same_entry,
  user_start, lead_at,
}

-- The entry at index `i` of the page map `t`, which has `l` levels below, now leads to `c`, for the user,
-- and the page map `c` has its label if there are levels below. No page but one of the entry itself has
-- changed its own entry.
pub record Entered (m : Machine) (label : Labels) (t l q i : ℕ) (flag : Bool) (c : ℕ) (m' : Machine)
    (label' : Labels) : Type 0 where
  pub tree : IsTree m' label'
  pub grows : (t' : ℕ) (a : ℕ × ℕ) → label t' ≡ some a → label' t' ≡ some a
  pub child : (k : ℕ) → l ≡ suc k → label' c ≡ some (k, q * 512 + i)
  pub present : (m'.memory t i).present ≡ true
  pub user : (m'.memory t i).user ≡ true
  pub writable : (m'.memory t i).writable ≡ flag
  pub points : pointer (m'.memory t i) ≡ c
  pub others :
      (t' l' q' j : ℕ)
      → label t' ≡ some (l', q')
      → (t' ≢ t) ⊎ (j ≢ i)
      → m'.memory t' j ≡ m.memory t' j
  pub kept :
      (l' t' x : ℕ)
      → label t' ≡ some (l', prefix (suc l') x)
      → user_start ≤ x
      → ((k : ℕ) × (l ≡ suc k)) ⊎ (prefix l x ≢ q * 512 + i)
      → leaf m'.memory l' t' x ≡ leaf m.memory l' t' x

pub write_self : (mem : Memory) (t i : ℕ) (e : PageMapEntry) → write mem t i e t i ≡ e
write_self mem t i e = rw (==_refl t, ==_refl i) refl

pub write_other :
    (mem : Memory) (t i t' j : ℕ) (e : PageMapEntry)
    → (t' ≢ t) ⊎ (j ≢ i)
    → write mem t i e t' j ≡ mem t' j
write_other mem t i t' j e (inl h) =
    let differs : (t == t') ≡ false = ground arith in rw differs refl
write_other mem t i t' j e (inr h) =
    let differs : (i == j) ≡ false = ground arith in
    elim (Bool-cases (t == t')) [ inl same ↦ rw (same, differs) refl | inr other ↦ rw other refl ]

pub pointer-flagged :
    (e : PageMapEntry) (u w : Bool) → pointer (record e { user = u; writable = w }) ≡ pointer e
unfolding pointer
pointer-flagged e u w = refl

-- The entry that `set_flags` leaves.
abbrev pub flagged : PageMapEntry → Bool → PageMapEntry
flagged e flag = record e { user = true; writable = flag }

pub set_flags_memory :
    (m : Machine) (t i : ℕ) (flag : Bool)
    → (set_flags m t i flag).memory ≡ write m.memory t i (flagged (m.memory t i) flag)
unfolding set_flags
set_flags_memory m t i flag = refl

pub set_flags_manager :
    (m : Machine) (t i : ℕ) (flag : Bool) → (set_flags m t i flag).manager ≡ m.manager
unfolding set_flags
set_flags_manager m t i flag = refl

-- A page map with fewer levels below is another one.
pub deeper_ne :
    (label : Labels) (t t' l l' q q' : ℕ)
    → label t ≡ some (l, q)
    → label t' ≡ some (l', q')
    → l' < l
    → t' ≢ t
deeper_ne label t t' l l' q q' h h' b e =
    let (levels, numbers) = pair_of_some l' q' l q (sym h' ∙ ap label e ∙ h) in omega arith

-- An entry that has been present.
module _ (m : Machine) (label : Labels) (tree : IsTree m label) (t l q i : ℕ) (flag : Bool)
    (own : label t ≡ some (l, q)) (x0 : ℕ) (number : q ≡ prefix (suc l) x0)
    (index : i ≡ prefix l x0 % 512) (start : user_start ≤ x0)
    (here : (m.memory t i).present ≡ true) where
  marked : Memory
  marked = (set_flags m t i flag).memory

  marked_self : marked t i ≡ flagged (m.memory t i) flag
  unfolding marked set_flags
  marked_self = write_self m.memory t i (flagged (m.memory t i) flag)

  marked_other : (t' j : ℕ) → (t' ≢ t) ⊎ (j ≢ i) → marked t' j ≡ m.memory t' j
  unfolding marked set_flags
  marked_other t' j h = write_other m.memory t i t' j (flagged (m.memory t i) flag) h

  pointer-marked : (t' j : ℕ) → pointer (marked t' j) ≡ pointer (m.memory t' j)
  pointer-marked t' j = elim (same_entry t' j t i) [
    | inr other ↦ ap pointer (marked_other t' j other)
    | inl (same, index) ↦
        rw (same, index) (ap pointer marked_self ∙ pointer-flagged (m.memory t i) true flag)
  ]

  present-marked : (t' j : ℕ) → (marked t' j).present ≡ (m.memory t' j).present
  present-marked t' j = elim (same_entry t' j t i) [
    | inr other ↦ ap (λ (e : PageMapEntry). e.present) (marked_other t' j other)
    | inl (same, index) ↦ rw (same, index) (ap (λ (e : PageMapEntry). e.present) marked_self)
  ]

  child_label : (k : ℕ) → l ≡ suc k → label (pointer (m.memory t i)) ≡ some (k, q * 512 + i)
  child_label k levels =
      lead_at m.memory label tree.leads t k q i x0 (own ∙ ap (λ n. some (n, q)) levels)
        (number ∙ ap (λ n. prefix (suc n) x0) levels) (index ∙ ap (λ n. prefix n x0 % 512) levels)
        start here

  marked_change :
      (k x : ℕ)
      → user_start ≤ x
      → l ≡ suc k
      → prefix l x ≡ q * 512 + i
      → cell marked l (marked t i) x ≡ cell m.memory l (m.memory t i) x
  marked_change k x up levels hit =
      let e = m.memory t i in
      let child = child_label k levels in
      let number : q * 512 + i ≡ prefix (suc k) x = sym hit ∙ ap (λ n. prefix n x) levels in
      ap (λ n. cell marked n (marked t i) x) levels
      ∙ cell_present marked k (marked t i) x (present-marked t i ∙ here)
      ∙ ap (λ c. leaf marked k c x) (pointer-marked t i)
      ∙ leaf_agree m.memory marked label tree.leads k l (pointer e) x
          (λ t' l' q' j h b. marked_other t' j (inl (deeper_ne label t t' l l' q q' own h b)))
          (omega (arith, levels)) up (child ∙ ap (λ n. some (k, n)) number)
      ∙ sym (cell_present m.memory k e x here)
      ∙ sym (ap (λ n. cell m.memory n e x) levels)

  pub marked-Entered :
      Entered m label t l q i flag (pointer (m.memory t i)) (set_flags m t i flag) label
  unfolding marked set_flags
  marked-Entered = record {
    tree = record {
      manager = rw (set_flags_manager m t i flag) tree.manager;
      small = rw (set_flags_manager m t i flag) tree.small;
      held = λ t' l' q' h. rw (set_flags_manager m t i flag) (tree.held t' l' q' h);
      leads = λ t' l' x h up p.
          ap label (pointer-marked t' (prefix (suc l') x % 512))
          ∙ tree.leads t' l' x h up (sym (present-marked t' (prefix (suc l') x % 512)) ∙ p);
    };
    grows = λ t' a h. h;
    child = child_label;
    present = present-marked t i ∙ here;
    user = ap (λ (e : PageMapEntry). e.user) marked_self;
    writable = ap (λ (e : PageMapEntry). e.writable) marked_self;
    points = pointer-marked t i;
    others = λ t' l' q' j h d. marked_other t' j d;
    kept = λ l' t' x h up d.
        leaf_change m.memory marked label tree.leads t l q i own
          (λ t'' l'' q'' j k differs. marked_other t'' j differs) l' t' x up h
          (λ hit. elim d [
            | inl (k, levels) ↦ marked_change k x up levels hit
            | inr away ↦ absurd (away hit)
          ]);
  }
