-- ===== src/Paging/Joining.antt =====
-- The rounds of `SetupPageMap`, put together.

use hon_os.Prelude.{
  ℕ, suc, ◌+◌, ◌-◌, ◌*◌, ◌^◌, ◌≤◌, ◌<◌, ◌≡◌, ◌≢◌, ◌⊎◌, inl, inr, refl, ap, sym, ◌∙◌, some, Bool,
  arith, ltb, Bool-cases, ℕ_discrete,
}
use hon_os.Errors.{success, no_enough_memory, WithError}
use hon_os.Paging.{Machine}
use hon_os.Paging.Addresses.{prefix}
use hon_os.Paging.Reach.{reach, prefix_same}
use hon_os.Paging.Tables.{Labels, user_start}
use hon_os.Paging.Setting.{Mapped, Done, Sets, Full}

pub failed_success : no_enough_memory ≢ success
failed_success h = cc

-- The rest of a page map goes on where the entry before it has ended.
module _ (l : ℕ) (flag : Bool) (m : Machine) (label : Labels) (t s n : ℕ) (r : WithError ℕ)
    (m1 : Machine) (label1 : Labels) (first : Sets (suc l) flag m label t s n r m1 label1)
    (done : Done (suc l) flag t s n r m1) (own : label t ≡ some (l, prefix (suc l) s))
    (start : user_start ≤ s) (s' : ℕ) (joins : r.value ≢ 0 → s + (n - r.value) ≡ s')
    (near : prefix (suc l) s' ≡ prefix (suc l) s) (r' : WithError ℕ) (m2 : Machine)
    (label2 : Labels) (rest : Sets (suc l) flag m1 label1 t s' r.value r' m2 label2) where
  -- A page outside of all is outside of the rest.
  outside : (x : ℕ) → (x < s) ⊎ (s + n ≤ x) → (x < s') ⊎ (s' + r.value ≤ x)
  outside x d = ground (arith, done.left, joins)

  same_reach : reach (suc l) s' ≡ reach (suc l) s
  same_reach = ap (λ p. (p + 1) * 512 ^ suc l) near

  -- The pages of the rest end where all pages end.
  same_end : r'.value ≤ r.value → r.value ≢ 0 → s' + (r.value - r'.value) ≡ s + (n - r'.value)
  same_end b d = omega (arith, done.left, joins d)

  joined_ends : Done (suc l) flag t s' r.value r' m2 → s + (n - r'.value) ≤ reach (suc l) s
  joined_ends end = elim (ℕ_discrete r.value 0) [
    | yes all ↦ omega (arith, done.ends, end.left)
    | no left ↦ omega (arith, end.ends, same_reach, same_end end.left left)
  ]

  joined_late :
      Done (suc l) flag t s' r.value r' m2
      → (x : ℕ) → s + (n - r.value) ≤ x
      → x < s + (n - r'.value)
      → Mapped m2.memory l t x flag
  joined_late end x low high = elim (ℕ_discrete r.value 0) [
    | yes all ↦ absurd (omega (arith, end.left))
    | no left ↦
        end.mapped l refl x (omega (arith, joins left)) (omega (arith, same_end end.left left))
  ]

  joined_early : (x : ℕ) → s ≤ x → x < s + (n - r.value) → Mapped m2.memory l t x flag
  joined_early x low high =
      let (e, found, user, writable) = done.mapped l refl x low high in
      let there : label1 t ≡ some (l, prefix (suc l) x) =
        first.grows t (l, prefix (suc l) s) own
        ∙ ap (λ p. some (l, p)) (sym (prefix_same (suc l) s x low (omega (arith, done.ends)))) in
      let untouched : (x < s') ⊎ (s' + r.value ≤ x) = elim (ℕ_discrete r.value 0) [
        | yes all ↦ elim (Bool-cases (ltb x s')) [
          | inl before ↦ inl (ground arith)
          | inr behind ↦ inr (ground arith)
        ]
        | no left ↦ inl (omega (arith, joins left))
      ] in
      (e, rest.kept l t x there (omega arith) untouched ∙ found, user, writable)

  joined-Done : Done (suc l) flag t s' r.value r' m2 → Done (suc l) flag t s n r' m2
  joined-Done end = record {
    ok = end.ok;
    left = omega (arith, end.left, done.left);
    ends = joined_ends end;
    mapped = λ k levels x low high.
        let same : k ≡ l = omega arith in
        rw same (elim (Bool-cases (ltb x (s + (n - r.value)))) [
          | inl early ↦ joined_early x low (ground arith)
          | inr late ↦ joined_late end x (ground arith) high
        ]);
  }

  pub joined-Sets : Sets (suc l) flag m label t s n r' m2 label2
  joined-Sets = record {
    tree = rest.tree;
    grows = λ t' a h. rest.grows t' a (first.grows t' a h);
    upper = λ t' l' q' j h b.
        rest.upper t' l' q' j (first.grows t' (l', q') h) b ∙ first.upper t' l' q' j h b;
    kept = λ l' t' x h up d.
        rest.kept l' t' x (first.grows t' (l', prefix (suc l') x) h) up (outside x d)
        ∙ first.kept l' t' x h up d;
    outcome = elim rest.outcome [ inl failed ↦ inl failed | inr end ↦ inr (joined-Done end) ];
  }

  pub joined-Full : Full (suc l) s' r.value r' → Full (suc l) s n r'
  joined-Full full ok some_left = elim rest.outcome [
    | inl failed ↦ absurd (failed_success (sym failed ∙ ok))
    | inr end ↦
        let left : r.value ≢ 0 = λ none_left. some_left (omega (arith, end.left)) in
        sym (same_end end.left left) ∙ full ok some_left ∙ same_reach
  ]
