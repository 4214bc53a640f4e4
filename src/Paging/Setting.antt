-- ===== src/Paging/Setting.antt =====
-- What `SetupPageMap` promises for a page map, and how the promises for its entries come together.
use hon_os.Prelude.{
  ℕ, zero, suc, ◌+◌, ◌-◌, ◌*◌, ◌%◌, ◌≤◌, ◌<◌, ◌≡◌, ◌≢◌, ◌⊎◌, inl, inr, refl, ap, sym, ◌∙◌, none,
  some, Bool, true, if◌then◌else◌, arith,
}
use hon_os.Errors.{Code, success, no_enough_memory, WithError}
use hon_os.Paging.{LinearAddress, PageMapEntry, Memory, Machine, Below}
use hon_os.Paging.Addresses.{IsAddress, number, prefix}
use hon_os.Paging.Reach.{reach, lt-reach, prefix_same, reach_up}
use hon_os.Paging.Tables.{
  cell, cell-zero, cell_present, leaf, Labels, IsTree, own_number, user_start,
}
use hon_os.Paging.Entering.{Entered, deeper_ne}

-- The page `x` is mapped below the page map `c`, for the user, and with the given permission.
abbrev pub Mapped : Memory → ℕ → ℕ → ℕ → Bool → Type 0
Mapped mem k c x flag =
    (e : PageMapEntry) × (leaf mem k c x ≡ some e) × (e.user ≡ true) × (e.writable ≡ flag)

-- All pages from `s` on that are not left, and none past what `c` reaches, are mapped.
pub record Done (l : ℕ) (flag : Bool) (c s n : ℕ) (r : WithError ℕ) (m' : Machine) : Type 0 where
  pub ok : r.error ≡ success
  pub left : r.value ≤ n
  pub ends : s + (n - r.value) ≤ reach l s
  pub mapped :
      (k : ℕ) → l ≡ suc k → (x : ℕ) → s ≤ x → x < s + (n - r.value) → Mapped m'.memory k c x flag

-- From the page map `c` of an entry of the level `l` on, for `n` pages from `s` on.
pub record Sets (l : ℕ) (flag : Bool) (m : Machine) (label : Labels) (c s n : ℕ) (r : WithError ℕ)
    (m' : Machine) (label' : Labels) : Type 0 where
  pub tree : IsTree m' label'
  pub grows : (t' : ℕ) (a : ℕ × ℕ) → label t' ≡ some a → label' t' ≡ some a
  pub upper : (t' l' q' j : ℕ) → label t' ≡ some (l', q') → l ≤ l' → m'.memory t' j ≡ m.memory t' j
  pub kept :
      (l' t' x : ℕ)
      → label t' ≡ some (l', prefix (suc l') x)
      → user_start ≤ x
      → (x < s) ⊎ (s + n ≤ x)
      → leaf m'.memory l' t' x ≡ leaf m.memory l' t' x
  pub outcome : (r.error ≡ no_enough_memory) ⊎ Done l flag c s n r m'

-- Pages are left only when the entry is at its end.
abbrev pub Full : ℕ → ℕ → ℕ → WithError ℕ → Type 0
Full l s n r = r.error ≡ success → r.value ≢ 0 → s + (n - r.value) ≡ reach l s

-- What goes on below an entry of the level `l` keeps the promises.
abbrev pub Runs : Below → ℕ → Bool → Type 0
Runs below l flag =
    (m : Machine) (label : Labels) (c : ℕ) (addr : LinearAddress) (n : ℕ)
    → IsTree m label
    → IsAddress addr
    → user_start ≤ number addr
    → 0 < n
    → ((k : ℕ) → l ≡ suc k → label c ≡ some (k, prefix l (number addr)))
    → (r : WithError ℕ) × (m' : Machine) × (label' : Labels) × (below m c addr n ≡ some (r, m'))
      × Sets l flag m label c (number addr) n r m' label'
      × Full l (number addr) n r

-- Nothing done.
pub idle :
    (l : ℕ) (flag : Bool) (m : Machine) (label : Labels) (c s n v : ℕ) (e : Code)
    → IsTree m label
    → (e ≡ no_enough_memory) ⊎ ((e ≡ success) × (v ≡ n))
    → Sets l flag m label c s n (record { value = v; error = e }) m label
idle l flag m label c s n v e tree way = record {
  tree = tree;
  grows = λ t' a h. h;
  upper = λ t' l' q' j h b. refl;
  kept = λ l' t' x h up d. refl;
  outcome = elim way [
    | inl failed ↦ inl failed
    | inr (ok, all) ↦ inr (record {
      ok = ok;
      left = omega arith;
      ends = omega (arith, lt-reach l s);
      mapped = λ k levels x low high. absurd (omega arith);
    })
  ];
}

-- Another page has another entry of the last level.
away :
    (l s x : ℕ)
    → x ≢ s
    → ((k : ℕ) × (l ≡ suc k)) ⊎ (prefix l x ≢ prefix (suc l) s * 512 + prefix l s % 512)
away zero s x d = inr λ h. d (omega (arith, own_number 0 s))
away (suc l) s x d = inl (l, refl)

-- The entry of the level `l` at `s` and what is below it, as a part of its page map `t`.
module _ (l : ℕ) (flag : Bool) (m : Machine) (label : Labels) (t s n : ℕ) (flag' : Bool)
    (levels : (l ≡ 0) → flag' ≡ flag) (some_pages : 0 < n)
    (own : label t ≡ some (l, prefix (suc l) s)) (c : ℕ) (m1 : Machine) (label1 : Labels)
    (entered : Entered m label t l (prefix (suc l) s) (prefix l s % 512) flag' c m1 label1)
    (r : WithError ℕ) (m2 : Machine) (label2 : Labels)
    (below : Sets l flag m1 label1 c s n r m2 label2) where
  entry_kept : m2.memory t (prefix l s % 512) ≡ m1.memory t (prefix l s % 512)
  entry_kept =
      below.upper t l (prefix (suc l) s) (prefix l s % 512)
        (entered.grows t (l, prefix (suc l) s) own) (omega arith)

  -- The entry for the page `x` is that of `s`.
  entry_there :
      Done l flag c s n r m2
      → (x : ℕ) → s ≤ x
      → x < s + (n - r.value)
      → leaf m2.memory l t x ≡ cell m2.memory l (m1.memory t (prefix l s % 512)) x
  entry_there done x low high =
      ap (λ p. cell m2.memory l (m2.memory t (p % 512)) x)
        (prefix_same l s x low (omega (arith, done.ends)))
      ∙ ap (λ (e : PageMapEntry). cell m2.memory l e x) entry_kept

  entry-Mapped :
      (k : ℕ)
      → Done l flag c s n r m2
      → l ≡ k
      → (x : ℕ) → s ≤ x
      → x < s + (n - r.value)
      → Mapped m2.memory l t x flag
  entry-Mapped zero done e x low high =
      let e0 = m1.memory t (prefix l s % 512) in
      (
        e0,
        entry_there done x low high
            ∙ ap (λ k. cell m2.memory k e0 x) e
            ∙ cell-zero m2.memory e0 x
            ∙ ap (λ (b : Bool). if b then some e0 else none) entered.present,
        entered.user,
        entered.writable ∙ levels e,
      )
  entry-Mapped (suc k) done e x low high =
      let e0 = m1.memory t (prefix l s % 512) in
      let (d, found, user, writable) = done.mapped k e x low high in
      (
        d,
        entry_there done x low high
            ∙ ap (λ j. cell m2.memory j e0 x) e
            ∙ cell_present m2.memory k e0 x entered.present
            ∙ ap (λ c'. leaf m2.memory k c' x) entered.points
            ∙ found,
        user,
        writable,
      )

  pub entry-Sets : Sets (suc l) flag m label t s n r m2 label2
  entry-Sets = record {
    tree = below.tree;
    grows = λ t' a h. below.grows t' a (entered.grows t' a h);
    upper = λ t' l' q' j h b.
        below.upper t' l' q' j (entered.grows t' (l', q') h) (omega arith)
        ∙ entered.others t' l' q' j h (
            inl (λ e. deeper_ne label t' t l' l q' (prefix (suc l) s) h own (omega arith) (sym e)));
    kept = λ l' t' x h up d.
        below.kept l' t' x (entered.grows t' (l', prefix (suc l') x) h) up d
        ∙ entered.kept l' t' x h up
            (away l s x (elim d [ inl h' ↦ λ e. omega arith | inr h' ↦ λ e. omega arith ]));
    outcome = elim below.outcome [
      | inl failed ↦ inl failed
      | inr done ↦ inr (record {
        ok = done.ok;
        left = done.left;
        ends = omega (arith, done.ends, reach_up l s);
        mapped = λ k e x low high.
            let e' : k ≡ l = omega arith in rw e' (entry-Mapped l done refl x low high);
      })
    ];
  }
