-- ===== src/Paging/Rounds.antt =====
-- The rounds of `SetupPageMap`, by how they go on.
use hon_os.Prelude.{
  ℕ, suc, ◌≡◌, ◌≢◌, refl, ap, sym, ◌∙◌, Option, some, Bool, true, false, ◌==◌, arith,
}
use hon_os.Errors.{success, no_enough_memory, is_error, WithError}
use hon_os.Paging.{
  LinearAddress, Machine, Below, set_flags, part, advance, after_entry, setup_entry, setup_entries,
  set_new_page_map_if_not_present,
}

-- The rest of the loop behind an entry.
abbrev pub Next : Type 0
Next = Machine → ℕ → Option (WithError ℕ × Machine)

pub no_pages :
    (fuel : ℕ) (below : Below) (writable : Bool) (level : ℕ) (m : Machine) (t : ℕ)
    (addr : LinearAddress) (n : ℕ)
    → n ≡ 0
    → setup_entries (suc fuel) below writable level m t addr n
      ≡ some (record { value = n; error = success }, m)
unfolding setup_entries
no_pages fuel below writable level m t addr n h =
    let e : (n == 0) ≡ true = ground arith in rw e refl

pub some_pages :
    (fuel : ℕ) (below : Below) (writable : Bool) (level : ℕ) (m : Machine) (t : ℕ)
    (addr : LinearAddress) (n : ℕ)
    → n ≢ 0
    → setup_entries (suc fuel) below writable level m t addr n
      ≡ setup_entry below writable m t addr (part addr level) n (λ m' left.
        setup_entries fuel below writable level m' t (advance addr level (part addr level)) left)
unfolding setup_entries
some_pages fuel below writable level m t addr n h =
    let e : (n == 0) ≡ false = ground arith in rw e refl

pub entry_refused :
    (below : Below) (writable : Bool) (m : Machine) (t : ℕ) (addr : LinearAddress) (i n : ℕ)
    (next : Next)
    → set_new_page_map_if_not_present m t i
      ≡ some (record { value = 0; error = no_enough_memory }, m)
    → setup_entry below writable m t addr i n next
      ≡ some (record { value = n; error = no_enough_memory }, m)
unfolding setup_entry is_error
entry_refused below writable m t addr i n next e = rw e refl

pub entry_runs :
    (below : Below) (writable : Bool) (m : Machine) (t : ℕ) (addr : LinearAddress) (i n : ℕ)
    (next : Next) (c : ℕ) (m1 : Machine) (r : WithError ℕ) (m2 : Machine)
    → set_new_page_map_if_not_present m t i ≡ some (record { value = c; error = success }, m1)
    → below (set_flags m1 t i writable) c addr n ≡ some (r, m2)
    → setup_entry below writable m t addr i n next ≡ after_entry i n next (r, m2)
unfolding setup_entry is_error
entry_runs below writable m t addr i n next c m1 r m2 e f = rw (e, f) refl

pub after_failed :
    (i n : ℕ) (next : Next) (r : WithError ℕ) (m : Machine)
    → r.error ≡ no_enough_memory
    → after_entry i n next (r, m) ≡ some (record { value = n; error = no_enough_memory }, m)
unfolding after_entry is_error
after_failed i n next r m h = rw h refl

pub after_last :
    (i n : ℕ) (next : Next) (r : WithError ℕ) (m : Machine)
    → r.error ≡ success
    → i ≡ 511
    → after_entry i n next (r, m) ≡ some (r, m)
unfolding after_entry is_error
after_last i n next r m h last =
    let e : (i == 511) ≡ true = ground arith in
    (let q : after_entry i n next (r, m) ≡ some (record { value = r.value; error = success }, m) =
        rw (h, e) refl in
      q)
    ∙ ap (λ k. some (record { value = r.value; error = k }, m)) (sym h)

pub after_more :
    (i n : ℕ) (next : Next) (r : WithError ℕ) (m : Machine)
    → r.error ≡ success
    → i ≢ 511
    → after_entry i n next (r, m) ≡ next m r.value
unfolding after_entry is_error
after_more i n next r m h more = let e : (i == 511) ≡ false = ground arith in rw (h, e) refl
