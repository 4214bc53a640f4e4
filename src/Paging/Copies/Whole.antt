-- ===== src/Paging/Copies/Whole.antt =====
-- `CopyPageMaps`, entry by entry and level by level.
use hon_os.Prelude.{
  ℕ, zero, suc, ◌+◌, ◌≡◌, inl, inr, refl, ap, sym, ◌∙◌, none, some, Bool, true, false, not,
  if◌then◌else◌, arith, Bool-cases,
}
use hon_os.Errors.{success}
use hon_os.Paging.{PageMapEntry, write, Machine}
use hon_os.Paging.Tables.{cell, cell-zero, cell_absent}
use hon_os.Paging.Entering.{write_self, write_other}
use hon_os.Paging.Copies.{copy_last}
use hon_os.Paging.Copies.Copying.{read_only, Shows, Copies, Ready}
use hon_os.Paging.Copies.Rest.{Grows-self, Ready-rest, joined-Copies}

-- An entry that is not there.
pub absent-Shows :
    (l : ℕ) (m : Machine) (dest src i : ℕ)
    → Ready l m dest src i
    → (m.memory src i).present ≡ false
    → Shows l m dest src i m
absent-Shows l m dest src i ready gone = record {
  grows = Grows-self l m dest src i ready;
  others = λ j d. refl;
  shown = λ x index.
      ap (λ j. cell m.memory l (m.memory dest j) x) index
      ∙ cell_absent m.memory l (m.memory dest i) x (ready.empty i (omega arith))
      ∙ ap read_only (
          sym (cell_absent m.memory l (m.memory src i) x gone)
          ∙ sym (ap (λ j. cell m.memory l (m.memory src j) x) index));
  inside = λ k levels present. let empty = ready.empty i (omega arith) in absurd (cc);
}

abbrev shared : Machine → ℕ → ℕ → ℕ → Machine
shared m dest src i = record m {
  memory = write m.memory dest i (record (m.memory src i) { writable = false });
}

-- A page that both map now.
shared-Shows :
    (m : Machine) (dest src i : ℕ)
    → Ready 0 m dest src i
    → (m.memory src i).present ≡ true
    → Shows 0 m dest src i (shared m dest src i)
shared-Shows m dest src i ready here =
    let e = m.memory src i in
    let mem' = (shared m dest src i).memory in
    record {
      grows = record {
        manager = ready.manager;
        small = ready.small;
        used = λ u h. h;
        kept = λ u j h d. write_other m.memory dest i u j (record e { writable = false }) (inl d);
      };
      others = λ j d. write_other m.memory dest i dest j (record e { writable = false }) (inr d);
      shown = λ x index.
          ap (λ j. cell mem' 0 (mem' dest j) x) index
          ∙ ap (λ (d : PageMapEntry). cell mem' 0 d x)
              (write_self m.memory dest i (record e { writable = false }))
          ∙ cell-zero mem' (record e { writable = false }) x
          ∙ ap (λ (b : Bool). if b then some (record e { writable = false }) else none) here
          ∙ sym (ap (λ (b : Bool). read_only (if b then some e else none)) here)
          ∙ ap read_only (
              sym (cell-zero m.memory e x)
              ∙ sym (ap (λ j. cell m.memory 0 (m.memory src j) x) index));
      inside = λ k levels present. absurd (omega arith);
    }

-- No entry is left.
pub done-Copies :
    (l : ℕ) (m : Machine) (dest src i : ℕ)
    → Ready l m dest src i
    → i ≡ 512
    → Copies l m dest src i success m
done-Copies l m dest src i ready h = record {
  grows = Grows-self l m dest src i ready;
  low = λ j b. refl;
  outcome = inr (
    refl,
    record {
      shown = λ x b. absurd (omega arith);
      inside = λ j k low high levels present. absurd (omega arith);
    },
  );
}

last_absent :
    (rounds : ℕ) (m : Machine) (dest src i : ℕ)
    → (m.memory src i).present ≡ false
    → copy_last (suc rounds) m dest src i ≡ copy_last rounds m dest src (i + 1)
unfolding copy_last
last_absent rounds m dest src i h =
    ap (λ (b : Bool). copy_last rounds (if not b then m else shared m dest src i) dest src (i + 1))
      h

last_shared :
    (rounds : ℕ) (m : Machine) (dest src i : ℕ)
    → (m.memory src i).present ≡ true
    → copy_last (suc rounds) m dest src i ≡ copy_last rounds (shared m dest src i) dest src (i + 1)
unfolding copy_last
last_shared rounds m dest src i h =
    ap (λ (b : Bool). copy_last rounds (if not b then m else shared m dest src i) dest src (i + 1))
      h

last_none : (m : Machine) (dest src i : ℕ) → copy_last 0 m dest src i ≡ m
unfolding copy_last
last_none m dest src i = refl

pub copy_last-Copies :
    (rounds : ℕ) (m : Machine) (dest src i : ℕ)
    → Ready 0 m dest src i
    → i + rounds ≡ 512
    → (m' : Machine) × (copy_last rounds m dest src i ≡ m') × Copies 0 m dest src i success m'
copy_last-Copies zero m dest src i ready h =
    (m, last_none m dest src i, done-Copies 0 m dest src i ready (omega arith))
copy_last-Copies (suc rounds) m dest src i ready h = elim (Bool-cases (m.memory src i).present) [
  | inl here ↦
      let first = shared-Shows m dest src i ready here in
      let (m', e, rest) =
        copy_last-Copies rounds (shared m dest src i) dest src (i + 1)
          (Ready-rest 0 m dest src i (shared m dest src i) ready first) (omega arith) in
      (
        m',
        last_shared rounds m dest src i here ∙ e,
        joined-Copies 0 m dest src i (omega arith) (shared m dest src i) ready first success m'
            rest,
      )
  | inr gone ↦
      let first = absent-Shows 0 m dest src i ready gone in
      let (m', e, rest) =
        copy_last-Copies rounds m dest src (i + 1) (Ready-rest 0 m dest src i m ready first)
          (omega arith) in
      (
        m',
        last_absent rounds m dest src i gone ∙ e,
        joined-Copies 0 m dest src i (omega arith) m ready first success m' rest,
      )
]
