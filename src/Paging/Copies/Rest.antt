-- ===== src/Paging/Copies/Rest.antt =====
-- An entry that `CopyPageMaps` has copied, and the rest of its page map.
use hon_os.Prelude.{
  ℕ, zero, suc, ◌+◌, ◌/◌, ◌%◌, ◌<◌, ◌≡◌, ◌≢◌, inl, inr, refl, ap, sym, ◌∙◌, true, arith, Bool-cases,
  ℕ_discrete, ◌≤◌,
}
use hon_os.Errors.{Code}
use hon_os.Memory.{bytes_per_frame, get_bit}
use hon_os.Paging.{PageMapEntry, pointer, Machine}
use hon_os.Paging.Addresses.{prefix}
use hon_os.Paging.Tables.{cell, cell-zero, cell_absent, cell_present, leaf}
use hon_os.Paging.Copies.Copying.{
  read_only, Used, Fresh, Inside, Inside-weaker, Inside-kept, Inside-leaf, Grows, Shows, Shown,
  Copies, Ready,
}

pub Grows-self : (l : ℕ) (m : Machine) (dest src i : ℕ) → Ready l m dest src i → Grows m dest m
Grows-self l m dest src i ready = record {
  manager = ready.manager;
  small = ready.small;
  used = λ u h. h;
  kept = λ u j h d. refl;
}

-- What is there for the rest.
pub Ready-rest :
    (l : ℕ) (m : Machine) (dest src i : ℕ) (m' : Machine)
    → Ready l m dest src i
    → Shows l m dest src i m'
    → Ready l m' dest src (i + 1)
Ready-rest l m dest src i m' ready first = record {
  manager = first.grows.manager;
  small = first.grows.small;
  source = first.grows.used src ready.source;
  target = first.grows.used dest ready.target;
  differs = ready.differs;
  inside = λ k j levels low high here.
      let same = first.grows.kept src j ready.source ready.differs in
      let ((used, other), deeper) =
        ready.inside k j levels (omega arith) high
          (ap (λ (e : PageMapEntry). e.present) (sym same) ∙ here) in
      let c = pointer (m.memory src j) in
      let whole =
        Inside-weaker (λ u. Used m u × (u ≢ dest)) (λ u. Used m' u × (u ≢ dest)) m'.memory k c
          (λ u (used', other'). (first.grows.used u used', other'))
          (Inside-kept (λ u. Used m u × (u ≢ dest)) m.memory m'.memory
            (λ u j' (used', other'). first.grows.kept u j' used' other') k c
            (λ j'. first.grows.kept c j' used other) deeper) in
      rw same ((first.grows.used c used, other), whole);
  empty = λ j h.
      ap (λ (e : PageMapEntry). e.present) (first.others j (omega arith))
      ∙ ready.empty j (omega arith);
}

module _ (l : ℕ) (m : Machine) (dest src i : ℕ) (small : i < 512) (m1 : Machine)
    (ready : Ready l m dest src i) (first : Shows l m dest src i m1) (code : Code) (m2 : Machine)
    (rest : Copies l m1 dest src (i + 1) code m2) where
  joined-Grows : Grows m dest m2
  joined-Grows = record {
    manager = rest.grows.manager;
    small = rest.grows.small;
    used = λ u h. rest.grows.used u (first.grows.used u h);
    kept = λ u j h d. rest.grows.kept u j (first.grows.used u h) d ∙ first.grows.kept u j h d;
  }

  -- What the first entry has taken into use is no longer touched.
  Fresh-ne : (u : ℕ) → Fresh m m1 u → u ≢ dest
  Fresh-ne u (unused, used) e =
      let held : get_bit m.manager (u / bytes_per_frame) ≡ true =
        ap (λ v. get_bit m.manager (v / bytes_per_frame)) e ∙ ready.target in
      absurd (cc)

  Fresh-early : (u : ℕ) → Fresh m m1 u → Fresh m m2 u
  Fresh-early u (unused, used) = (unused, rest.grows.used u used)

  Fresh-late : (u : ℕ) → Fresh m1 m2 u → Fresh m m2 u
  Fresh-late u (unused, used) = elim (Bool-cases (get_bit m.manager (u / bytes_per_frame))) [
    | inl held ↦ let h = first.grows.used u held in absurd (cc)
    | inr free ↦ (free, used)
  ]

  untouched : (u j : ℕ) → Fresh m m1 u → m2.memory u j ≡ m1.memory u j
  untouched u j (unused, used) = rest.grows.kept u j used (Fresh-ne u (unused, used))

  -- The entry of the first stays.
  first_stays : m2.memory dest i ≡ m1.memory dest i
  first_stays = rest.low i (omega arith)

  first-Inside :
      (k : ℕ)
      → l ≡ suc k
      → (m2.memory dest i).present ≡ true
      → Fresh m m2 (pointer (m2.memory dest i))
        × Inside (Fresh m m2) m2.memory k (pointer (m2.memory dest i))
  first-Inside k levels here =
      let (fresh, inside) =
        first.inside k levels (sym (ap (λ (e : PageMapEntry). e.present) first_stays) ∙ here) in
      let c = pointer (m1.memory dest i) in
      let whole = Inside-weaker (Fresh m m1) (Fresh m m2) m2.memory k c Fresh-early (
        Inside-kept (Fresh m m1) m1.memory m2.memory (λ u j h. untouched u j h) k c
          (λ j. untouched c j fresh) inside) in
      rw first_stays (Fresh-early c fresh, whole)

  first_cell :
      (k x : ℕ) → l ≡ k → prefix l x % 512 ≡ i → leaf m2.memory k dest x ≡ leaf m1.memory k dest x
  first_cell zero x levels index =
      let here : prefix zero x % 512 ≡ i = ap (λ n. prefix n x % 512) (sym levels) ∙ index in
      let e = m1.memory dest i in
      ap (λ j. cell m2.memory zero (m2.memory dest j) x) here
      ∙ ap (λ (d : PageMapEntry). cell m2.memory zero d x) first_stays
      ∙ cell-zero m2.memory e x
      ∙ sym (cell-zero m1.memory e x)
      ∙ sym (ap (λ j. cell m1.memory zero (m1.memory dest j) x) here)
  first_cell (suc k) x levels index =
      let here : prefix (suc k) x % 512 ≡ i = ap (λ n. prefix n x % 512) (sym levels) ∙ index in
      let e = m1.memory dest i in
      ap (λ j. cell m2.memory (suc k) (m2.memory dest j) x) here
      ∙ ap (λ (d : PageMapEntry). cell m2.memory (suc k) d x) first_stays
      ∙ elim (Bool-cases e.present) [
        | inl present ↦
            let (fresh, inside) = first.inside k levels present in
            cell_present m2.memory k e x present
            ∙ Inside-leaf (Fresh m m1) m1.memory m2.memory (λ u j h. untouched u j h) k (pointer e)
                x (λ j. untouched (pointer e) j fresh) inside
            ∙ sym (cell_present m1.memory k e x present)
        | inr absent ↦
            cell_absent m2.memory (suc k) e x absent
            ∙ sym (cell_absent m1.memory (suc k) e x absent)
      ]
      ∙ sym (ap (λ j. cell m1.memory (suc k) (m1.memory dest j) x) here)

  -- The source still has the page.
  source_leaf :
      (k x : ℕ) → l ≡ k → i ≤ prefix l x % 512 → leaf m1.memory k src x ≡ leaf m.memory k src x
  source_leaf k x levels low =
      let j = prefix k x % 512 in
      let place : prefix l x % 512 ≡ j = ap (λ n. prefix n x % 512) levels in
      let e = m.memory src j in
      ap (λ (d : PageMapEntry). cell m1.memory k d x)
        (first.grows.kept src j ready.source ready.differs)
      ∙ source_cell k x levels e refl (omega arith)
    where
      source_cell :
          (k x : ℕ)
          → l ≡ k
          → (e : PageMapEntry) → e ≡ m.memory src (prefix k x % 512)
          → i ≤ prefix k x % 512
          → cell m1.memory k e x ≡ cell m.memory k e x
      source_cell zero x levels e here low = cell-zero m1.memory e x ∙ sym (cell-zero m.memory e x)
      source_cell (suc k) x levels e here low = elim (Bool-cases e.present) [
        | inr gone ↦
            cell_absent m1.memory (suc k) e x gone ∙ sym (cell_absent m.memory (suc k) e x gone)
        | inl present ↦
            let j = prefix (suc k) x % 512 in
            let ((used, other), deeper) =
              ready.inside k j levels low (omega arith)
                (ap (λ (d : PageMapEntry). d.present) (sym here) ∙ present) in
            let c = pointer (m.memory src j) in
            cell_present m1.memory k e x present
            ∙ ap (λ (d : PageMapEntry). leaf m1.memory k (pointer d) x) here
            ∙ Inside-leaf (λ u. Used m u × (u ≢ dest)) m.memory m1.memory
                (λ u j' (used', other'). first.grows.kept u j' used' other') k c x
                (λ j'. first.grows.kept c j' used other) deeper
            ∙ sym (ap (λ (d : PageMapEntry). leaf m.memory k (pointer d) x) here)
            ∙ sym (cell_present m.memory k e x present)
      ]

  joined-Shown : Shown l m1 dest src (i + 1) m2 → Shown l m dest src i m2
  joined-Shown shown = record {
    shown = λ x low. elim (ℕ_discrete (prefix l x % 512) i) [
      | yes here ↦ first_cell l x refl here ∙ first.shown x here
      | no later ↦ shown.shown x (omega arith) ∙ ap read_only (source_leaf l x refl (omega arith))
    ];
    inside = λ j k low high levels here. elim (ℕ_discrete j i) [
      | yes same ↦
          rw same (first-Inside k levels (ap (λ n. (m2.memory dest n).present) (sym same) ∙ here))
      | no later ↦
          let (fresh, inside) = shown.inside j k (omega arith) high levels here in
          (
            Fresh-late (pointer (m2.memory dest j)) fresh,
            Inside-weaker (Fresh m1 m2) (Fresh m m2) m2.memory k (pointer (m2.memory dest j))
                Fresh-late inside,
          )
    ];
  }

  pub joined-Copies : Copies l m dest src i code m2
  joined-Copies = record {
    grows = joined-Grows;
    low = λ j h. rest.low j (omega arith) ∙ first.others j (omega arith);
    outcome = elim rest.outcome [
      | inl failed ↦ inl failed
      | inr (ok, shown) ↦ inr (ok, joined-Shown shown)
    ];
  }
