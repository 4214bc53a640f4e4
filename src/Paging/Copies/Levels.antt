-- ===== src/Paging/Copies/Levels.antt =====
-- `CopyPageMaps` over the levels.
use hon_os.Prelude.{
  ℕ, zero, suc, ◌+◌, ◌-◌, ◌≤◌, ◌<◌, ◌≡◌, inl, inr, refl, ap, ◌∙◌, Option, some, true, false, arith,
  Bool-cases,
}
use hon_os.Errors.{Code, success, no_enough_memory, is_error}
use hon_os.Paging.{pointer, Machine, new_page_map}
use hon_os.Paging.Entries.{new_page_map-NewMap}
use hon_os.Paging.Copies.{copy_last, copy_entry, copy_entries, copy_page_maps}
use hon_os.Paging.Copies.Copying.{Shows, Copies, Ready}
use hon_os.Paging.Copies.Rest.{Grows-self, Ready-rest, joined-Copies}
use hon_os.Paging.Copies.Child.{linked, child-Ready, child_same, failed-Copies, child-Shows}
use hon_os.Paging.Copies.Whole.{absent-Shows, done-Copies, copy_last-Copies}

abbrev Below : Type 0
Below = Machine → ℕ → ℕ → Option (Code × Machine)

abbrev Next : Type 0
Next = Machine → Option (Code × Machine)

module _ (below : Below) (m : Machine) (dest src i : ℕ) (next : Next) where
  entry_absent : (m.memory src i).present ≡ false → copy_entry below m dest src i next ≡ next m
  unfolding copy_entry
  entry_absent h = rw h refl

  entry_refused :
      (m.memory src i).present ≡ true
      → new_page_map m ≡ some (record { value = 0; error = no_enough_memory }, m)
      → copy_entry below m dest src i next ≡ some (no_enough_memory, m)
  unfolding copy_entry is_error
  entry_refused h full = rw (full, h) refl

  entry_failed :
      (p : ℕ) (m1 : Machine) (m3 : Machine)
      → (m.memory src i).present ≡ true
      → new_page_map m ≡ some (record { value = p; error = success }, m1)
      → below (linked m1 dest src i p) p (pointer ((linked m1 dest src i p).memory src i))
        ≡ some (no_enough_memory, m3)
      → copy_entry below m dest src i next ≡ some (no_enough_memory, m3)
  unfolding copy_entry is_error
  entry_failed p m1 m3 h made e = rw (made, h) (rw e refl)

  entry_copied :
      (p : ℕ) (m1 : Machine) (m3 : Machine)
      → (m.memory src i).present ≡ true
      → new_page_map m ≡ some (record { value = p; error = success }, m1)
      → below (linked m1 dest src i p) p (pointer ((linked m1 dest src i p).memory src i))
        ≡ some (success, m3)
      → copy_entry below m dest src i next ≡ next m3
  unfolding copy_entry is_error
  entry_copied p m1 m3 h made e = rw (made, h) (rw e refl)

-- What goes on below the entries copies there.
abbrev Runs : Below → ℕ → Type 0
Runs below k =
    (m : Machine) (dest src : ℕ)
    → Ready k m dest src 0
    → (code : Code) × (m' : Machine) × (below m dest src ≡ some (code, m'))
      × Copies k m dest src 0 code m'

module _ (below : Below) (k : ℕ) (runs : Runs below k) (dest src : ℕ) where
  abbrev Loops : ℕ → Machine → ℕ → Type 0
  Loops rounds m i =
      (code : Code) × (m' : Machine) × (copy_entries rounds below m dest src i ≡ some (code, m'))
      × Copies (suc k) m dest src i code m'

  no_rounds : (m : Machine) (i : ℕ) → copy_entries 0 below m dest src i ≡ some (success, m)
  unfolding copy_entries
  no_rounds m i = refl

  a_round :
      (rounds : ℕ) (m : Machine) (i : ℕ)
      → copy_entries (suc rounds) below m dest src i
        ≡ copy_entry below m dest src i (λ m'. copy_entries rounds below m' dest src (i + 1))
  unfolding copy_entries
  a_round rounds m i = refl

  -- The rest behind an entry that is copied.
  behind :
      (rounds : ℕ) (m : Machine) (i : ℕ) (m1 : Machine)
      → i < 512
      → Ready (suc k) m dest src i
      → Shows (suc k) m dest src i m1
      → copy_entry below m dest src i (λ m'. copy_entries rounds below m' dest src (i + 1))
        ≡ copy_entries rounds below m1 dest src (i + 1)
      → Loops rounds m1 (i + 1)
      → Loops (suc rounds) m i
  behind rounds m i m1 small ready first e (code, m', e', rest) = (
    code,
    m',
    a_round rounds m i ∙ e ∙ e',
    joined-Copies (suc k) m dest src i small m1 ready first code m' rest,
  )

  loop_lem :
      (rounds : ℕ) (m : Machine) (i : ℕ)
      → Ready (suc k) m dest src i
      → i + rounds ≡ 512
      → Loops rounds m i
  loop_lem zero m i ready h =
      (success, m, no_rounds m i, done-Copies (suc k) m dest src i ready (omega arith))
  loop_lem (suc rounds) m i ready h = elim (Bool-cases (m.memory src i).present) [
    | inr gone ↦
        let first = absent-Shows (suc k) m dest src i ready gone in
        behind rounds m i m (omega arith) ready first (entry_absent below m dest src i _ gone)
          (loop_lem rounds m (i + 1) (Ready-rest (suc k) m dest src i m ready first) (omega arith))
    | inl here ↦ elim (new_page_map-NewMap m ready.manager ready.small) [
      | inl full ↦ (
        no_enough_memory,
        m,
        a_round rounds m i ∙ entry_refused below m dest src i _ here full,
        record {
          grows = Grows-self (suc k) m dest src i ready;
          low = λ j b. refl;
          outcome = inl refl;
        },
      )
      | inr (p, m1, made, new) ↦
          let small : i < 512 = omega arith in
          let (code, m3, e, copies) =
            runs (linked m1 dest src i p) p (pointer (m.memory src i))
              (child-Ready k m dest src i small ready here p m1 new) in
          let same =
            ap (below (linked m1 dest src i p) p)
              (child_same k m dest src i small ready here p m1 new)
            ∙ e in
          elim copies.outcome [
            | inl failed ↦ (
              no_enough_memory,
              m3,
              a_round rounds m i
                  ∙ entry_failed below m dest src i _ p m1 m3 here made
                      (same ∙ ap (λ c. some (c, m3)) failed),
              failed-Copies k m dest src i small ready here p m1 new code m3 copies failed,
            )
            | inr (ok, shown) ↦
                let first =
                  child-Shows k m dest src i small ready here p m1 new code m3 copies shown in
                behind rounds m i m3 small ready first
                  (entry_copied below m dest src i _ p m1 m3 here made
                    (same ∙ ap (λ c. some (c, m3)) ok))
                  (loop_lem rounds m3 (i + 1) (Ready-rest (suc k) m dest src i m3 ready first)
                    (omega arith))
          ]
    ]
  ]

last_level :
    (m : Machine) (dest src start : ℕ)
    → copy_page_maps 0 m dest src start ≡ some (success, copy_last (512 - start) m dest src start)
unfolding copy_page_maps
last_level m dest src start = refl

upper_level :
    (k : ℕ) (m : Machine) (dest src start : ℕ)
    → copy_page_maps (suc k) m dest src start
      ≡ copy_entries
          (512 - start)
          (λ m' table child. copy_page_maps k m' table child 0)
          m
          dest
          src
          start
unfolding copy_page_maps
upper_level k m dest src start = refl

-- `CopyPageMaps` at any level, from a page map to one that is empty from `start` on, when the page maps
-- below the source are in use and are not the target: it returns, and either there is not enough memory,
-- or it reports success and each page from `start` on has in the target the entry that it has in the
-- source, but read only. The page maps below the target are pages that were free, and no page that was
-- in use changes but the target, from `start` on.
pub copy_page_maps-Copies :
    (l : ℕ) (m : Machine) (dest src start : ℕ)
    → Ready l m dest src start
    → start ≤ 512
    → (code : Code) × (m' : Machine) × (copy_page_maps l m dest src start ≡ some (code, m'))
      × Copies l m dest src start code m'
copy_page_maps-Copies zero m dest src start ready h =
    let (m', e, copies) = copy_last-Copies (512 - start) m dest src start ready (omega arith) in
    (success, m', last_level m dest src start ∙ ap (λ n. some (success, n)) e, copies)
copy_page_maps-Copies (suc k) m dest src start ready h =
    let (code, m', e, copies) =
      loop_lem (λ m' table child. copy_page_maps k m' table child 0) k
        (λ m' d s ready'. copy_page_maps-Copies k m' d s 0 ready' (omega arith)) dest src
        (512 - start) m start ready (omega arith) in
    (code, m', upper_level k m dest src start ∙ e, copies)
