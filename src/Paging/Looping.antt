-- ===== src/Paging/Looping.antt =====
-- The loop of `SetupPageMap` keeps the promises when what is below its entries does.

use hon_os.Prelude.{
  ℕ, zero, suc, ◌+◌, ◌-◌, ◌*◌, ◌%◌, ◌≤◌, ◌<◌, ◌≡◌, ◌≢◌, inl, inr, refl, ap, sym, ◌∙◌, some, Bool,
  arith, ℕ_discrete,
}
use hon_os.Errors.{success, no_enough_memory, WithError}
use hon_os.Paging.{
  LinearAddress, Machine, Below, set_flags, part, advance, after_entry, setup_entries,
  set_new_page_map_if_not_present,
}
use hon_os.Paging.Addresses.{IsAddress, number, prefix, part_lem, part-lt, advance_lem}
use hon_os.Paging.Reach.{prefix-reach, prefix_next, reach_last, lt-reach}
use hon_os.Paging.Tables.{Labels, IsTree, own_number, user_start}
use hon_os.Paging.Entering.{Entered}
use hon_os.Paging.Making.{enter}
use hon_os.Paging.Rounds.{
  no_pages, some_pages, entry_refused, entry_runs, after_failed, after_last, after_more,
}
use hon_os.Paging.Joining.{failed_success, joined-Sets, joined-Full}
use hon_os.Paging.Setting.{Sets, Full, Runs, idle, entry-Sets}

failed-Sets :
    (l : ℕ) (flag : Bool) (m : Machine) (label : Labels) (c s n : ℕ) (r : WithError ℕ)
    (m' : Machine) (label' : Labels)
    → Sets l flag m label c s n r m' label'
    → Sets l flag m label c s n (record { value = n; error = no_enough_memory }) m' label'
failed-Sets l flag m label c s n r m' label' sets = record {
  tree = sets.tree;
  grows = sets.grows;
  upper = sets.upper;
  kept = sets.kept;
  outcome = inl refl;
}

-- The end of a page map.
last-Full :
    (l s n : ℕ) (r : WithError ℕ) → prefix l s % 512 ≡ 511 → Full l s n r → Full (suc l) s n r
last-Full l s n r last full ok left = full ok left ∙ reach_last l s last

Entered_at :
    (m : Machine) (label : Labels) (t l q i i' : ℕ) (flag : Bool) (c : ℕ) (m1 : Machine)
    (label1 : Labels)
    → i ≡ i'
    → Entered m label t l q i flag c m1 label1
    → Entered m label t l q i' flag c m1 label1
Entered_at m label t l q i i' flag c m1 label1 h entered = rw (sym h) entered

module _ (below : Below) (l : ℕ) (flag : Bool) (runs : Runs below l flag) (bound : l < 4)
    (writable : Bool) (levels : l ≡ 0 → writable ≡ flag) where
  -- What the loop comes to.
  abbrev Loops : ℕ → Machine → Labels → ℕ → LinearAddress → ℕ → Type 0
  Loops fuel m label t addr n =
      (r : WithError ℕ) × (m' : Machine) × (label' : Labels) × (setup_entries fuel below writable
          (suc l) m t addr n
        ≡ some (r, m'))
      × Sets (suc l) flag m label t (number addr) n r m' label'
      × Full (suc l) (number addr) n r

  loop_idle :
      (fuel : ℕ) (m : Machine) (label : Labels) (t : ℕ) (addr : LinearAddress) (n : ℕ)
      → IsTree m label
      → n ≡ 0
      → Loops (suc fuel) m label t addr n
  loop_idle fuel m label t addr n tree h = (
    record { value = n; error = success },
    m,
    label,
    no_pages fuel below writable (suc l) m t addr n h,
    idle (suc l) flag m label t (number addr) n n success tree (inr (refl, refl)),
    λ ok left. absurd (left h),
  )

  loop_refused :
      (fuel : ℕ) (m : Machine) (label : Labels) (t : ℕ) (addr : LinearAddress) (n : ℕ)
      → IsTree m label
      → n ≢ 0
      → set_new_page_map_if_not_present m t (part addr (suc l))
        ≡ some (record { value = 0; error = no_enough_memory }, m)
      → Loops (suc fuel) m label t addr n
  loop_refused fuel m label t addr n tree h e = (
    record { value = n; error = no_enough_memory },
    m,
    label,
    some_pages fuel below writable (suc l) m t addr n h
        ∙ entry_refused below writable m t addr (part addr (suc l)) n _ e,
    idle (suc l) flag m label t (number addr) n n no_enough_memory tree (inl refl),
    λ ok left. absurd (failed_success ok),
  )

  -- Behind a round that has gone down.
  loop_round :
      (fuel : ℕ) (m : Machine) (label : Labels) (t : ℕ) (addr : LinearAddress) (n : ℕ)
      (r : WithError ℕ) (m2 : Machine) (label2 : Labels)
      → IsAddress addr
      → user_start ≤ number addr
      → label t ≡ some (l, prefix (suc l) (number addr))
      → Sets (suc l) flag m label t (number addr) n r m2 label2
      → Full l (number addr) n r
      → setup_entries (suc fuel) below writable (suc l) m t addr n
        ≡ after_entry
            (part addr (suc l))
            n
            (λ m' left.
              setup_entries fuel below writable
                (suc l)
                m'
                t
                (advance addr (suc l) (part addr (suc l)))
                left)
            (r, m2)
      → (part addr (suc l) ≢ 511
          → r.error ≡ success
          → Loops fuel m2 label2 t (advance addr (suc l) (part addr (suc l))) r.value)
      → Loops (suc fuel) m label t addr n
  loop_round fuel m label t addr n r m2 label2 k up own sets full e more = elim sets.outcome [
    | inl failed ↦ (
      record { value = n; error = no_enough_memory },
      m2,
      label2,
      e ∙ after_failed (part addr (suc l)) n _ r m2 failed,
      failed-Sets (suc l) flag m label t (number addr) n r m2 label2 sets,
      λ ok left. absurd (failed_success ok),
    )
    | inr done ↦ elim (ℕ_discrete (part addr (suc l)) 511) [
      | yes last ↦ (
        r,
        m2,
        label2,
        e ∙ after_last (part addr (suc l)) n _ r m2 done.ok last,
        sets,
        last-Full l (number addr) n r (sym (part_lem l addr bound k) ∙ last) full,
      )
      | no not_last ↦
          let (r', m3, label3, e', rest, full') = more not_last done.ok in
          let index : part addr (suc l) < 511 = omega (arith, part-lt l addr bound k) in
          let (starts, k') = advance_lem l addr bound k index in
          let near : prefix (suc l) (number (advance addr (suc l) (part addr (suc l))))
              ≡ prefix (suc l) (number addr) =
            ap (prefix (suc l)) starts
            ∙ prefix_next l (number addr) (omega (arith, part_lem l addr bound k)) in
          let joins : r.value ≢ 0
              → number addr + (n - r.value) ≡ number (advance addr (suc l) (part addr (suc l))) =
            λ left. full done.ok left ∙ sym starts in
          (
            r',
            m3,
            label3,
            e ∙ after_more (part addr (suc l)) n _ r m2 done.ok not_last ∙ e',
            joined-Sets l flag m label t (number addr) n r m2 label2 sets done own up _ joins near
                r' m3 label3 rest,
            joined-Full l flag m label t (number addr) n r m2 label2 sets done own up _ joins near
                r' m3 label3 rest full',
          )
    ]
  ]

  -- The next entry of the page map.
  next_entry :
      (addr : LinearAddress)
      → IsAddress addr
      → user_start ≤ number addr
      → part addr (suc l) ≢ 511
      → IsAddress (advance addr (suc l) (part addr (suc l)))
        × (user_start ≤ number (advance addr (suc l) (part addr (suc l))))
        × (prefix (suc l) (number addr)
            ≡ prefix (suc l) (number (advance addr (suc l) (part addr (suc l)))))
        × (part (advance addr (suc l) (part addr (suc l))) (suc l) ≡ suc (part addr (suc l)))
  next_entry addr k up not_last =
      let index : part addr (suc l) < 511 = omega (arith, part-lt l addr bound k) in
      let (starts, k') = advance_lem l addr bound k index in
      let here : prefix l (number addr) % 512 < 511 = omega (arith, part_lem l addr bound k) in
      (
        k',
        omega (arith, starts, lt-reach l (number addr)),
        sym (ap (prefix (suc l)) starts ∙ prefix_next l (number addr) here),
        part_lem l (advance addr (suc l) (part addr (suc l))) bound k'
            ∙ ap (λ p. p % 512) (ap (prefix l) starts ∙ prefix-reach l (number addr))
            ∙ (let h : (prefix l (number addr) + 1) % 512 ≡ suc (prefix l (number addr) % 512) =
                  omega arith in
                h)
            ∙ ap suc (sym (part_lem l addr bound k)),
      )

  -- The loop from any entry on, which the fuel is enough for.
  pub loop_lem :
      (fuel : ℕ) (m : Machine) (label : Labels) (t : ℕ) (addr : LinearAddress) (n : ℕ)
      → IsTree m label
      → IsAddress addr
      → user_start ≤ number addr
      → label t ≡ some (l, prefix (suc l) (number addr))
      → 512 ≤ fuel + part addr (suc l)
      → Loops fuel m label t addr n
  loop_lem zero m label t addr n tree k up own enough =
      absurd (omega (arith, part-lt l addr bound k))
  loop_lem (suc fuel) m label t addr n tree k up own enough = elim (ℕ_discrete n 0) [
    | yes none_left ↦ loop_idle fuel m label t addr n tree none_left
    | no left ↦
        elim (enter m label t l (prefix (suc l) (number addr)) (part addr (suc l)) writable tree own
          (number addr) refl (part_lem l addr bound k) up) [
            | inl full ↦ loop_refused fuel m label t addr n tree left full
            | inr (c, m1, label1, e, entered) ↦
                let s = number addr in
                let i = part addr (suc l) in
                let number_there : prefix (suc l) s * 512 + i ≡ prefix l s =
                  ap (λ j. prefix (suc l) s * 512 + j) (part_lem l addr bound k) ∙ own_number l s in
                let (r, m2, label2, e', sets, full) =
                  runs (set_flags m1 t i writable) label1 c addr n entered.tree k up (omega arith)
                    (λ k' deeper. entered.child k' deeper ∙ ap (λ p. some (k', p)) number_there) in
                let whole =
                  entry-Sets l flag m label t s n writable levels (omega arith) own c
                    (set_flags m1 t i writable) label1
                    (Entered_at m label t l (prefix (suc l) s) i (prefix l s % 512) writable c
                      (set_flags m1 t i writable) label1 (part_lem l addr bound k) entered)
                    r m2 label2 sets in
                loop_round fuel m label t addr n r m2 label2 k up own whole full
                  (some_pages fuel below writable (suc l) m t addr n left
                    ∙ entry_runs below writable m t addr i n _ c m1 r m2 e e')
                  (λ not_last ok.
                    let (k', up', near, index) = next_entry addr k up not_last in
                    loop_lem fuel m2 label2 t (advance addr (suc l) i) r.value sets.tree k' up'
                      (whole.grows t (l, prefix (suc l) s) own ∙ ap (λ p. some (l, p)) near)
                      (omega (arith, index)))
          ]
  ]
