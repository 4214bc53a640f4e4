-- ===== src/Names/Slots.antt =====
-- The 11 bytes that `NameIsEqual` fills, and how a name with one dot at most splits.
use hon_os.Prelude.{
  ℕ, zero, suc, ◌+◌, ◌-◌, ◌≤◌, ◌≡◌, refl, ap, sym, ◌∙◌, List, [], ◌∷◌, ◌++◌, map, none, some, true,
  false, ◌==◌, ltb, arith, replicate, set, length, length-append, count,
}
use hon_os.Prelude.Slices.{append_assoc}
use hon_os.Names.{dot, space, toupper, name83_from, same_bytes, split_last_dot}

-- Characters written from byte `i` on.
pub written : ℕ → List ℕ → List ℕ → List ℕ
written i [] slots = slots
written i (c ∷ cs) slots = written (i + 1) cs (set slots i (toupper c))

-- The loop of `NameIsEqual` over characters that are no dots.
pub name83_from-written :
    (cs rest : List ℕ) (i : ℕ) (slots : List ℕ)
    → count dot cs ≡ 0
    → i + length cs ≤ 11
    → name83_from (cs ++ rest) i slots ≡ name83_from rest (i + length cs) (written i cs slots)
unfolding name83_from written
name83_from-written [] rest i slots z l =
    ap (λ k. name83_from rest k slots) (let e : i ≡ i + 0 = omega arith in e)
name83_from-written (c ∷ cs) rest i slots z l =
    let room : ltb i 11 ≡ true = ground arith in
    let plain : (c == dot) ≡ false = ground arith in
    let next : i + 1 + length cs ≡ i + suc (length cs) = omega arith in
    rw (room, plain)
      (name83_from-written cs rest (i + 1) (set slots i (toupper c)) (ground arith) (omega arith)
        ∙ ap (λ k. name83_from rest k (written (i + 1) cs (set slots i (toupper c)))) next)

set-append :
    (xs : List ℕ) (x y : ℕ) (ys : List ℕ) → set (xs ++ (y ∷ ys)) (length xs) x ≡ xs ++ (x ∷ ys)
set-append [] x y ys = refl
set-append (z ∷ xs) x y ys = ap (λ zs. z ∷ zs) (set-append xs x y ys)

-- Written over spaces, behind what stands there.
pub written_spaces :
    (cs front : List ℕ) (i n : ℕ)
    → length front ≡ i
    → length cs ≤ n
    → written i cs (front ++ replicate n space)
      ≡ front ++ (map toupper cs ++ replicate (n - length cs) space)
unfolding written
written_spaces [] front i n e l =
    ap (λ k. front ++ replicate k space) (let q : n ≡ n - 0 = omega arith in q)
written_spaces (c ∷ cs) front i zero e l = absurd (omega arith)
written_spaces (c ∷ cs) front i (suc n) e l =
    let put : set (front ++ replicate (suc n) space) i (toupper c)
        ≡ (front ++ (toupper c ∷ [])) ++ replicate n space =
      ap (λ k. set (front ++ replicate (suc n) space) k (toupper c)) (sym e)
      ∙ set-append front (toupper c) space (replicate n space)
      ∙ sym (append_assoc front (toupper c ∷ []) (replicate n space)) in
    ap (written (i + 1) cs) put
    ∙ written_spaces cs (front ++ (toupper c ∷ [])) (i + 1) n
        (length-append front (toupper c ∷ []) ∙ omega arith) (omega arith)
    ∙ append_assoc front (toupper c ∷ []) (map toupper cs ++ replicate (n - length cs) space)
    ∙ ap (λ k. front ++ (toupper c ∷ (map toupper cs ++ replicate k space)))
        (let q : n - length cs ≡ suc n - suc (length cs) = omega arith in q)

pub same_bytes_refl : (cs : List ℕ) → same_bytes cs cs ≡ true
unfolding same_bytes
same_bytes_refl [] = refl
same_bytes_refl (c ∷ cs) = ground (arith, same_bytes_refl cs)

pub split_none : (cs : List ℕ) → count dot cs ≡ 0 → split_last_dot cs ≡ none
unfolding split_last_dot
split_none [] z = refl
split_none (c ∷ cs) z =
    let plain : (c == dot) ≡ false = ground arith in rw (split_none cs (ground arith), plain) refl

pub split_at_dot :
    (base ext : List ℕ)
    → count dot ext ≡ 0
    → split_last_dot (base ++ (dot ∷ ext)) ≡ some (base, ext)
unfolding split_last_dot
split_at_dot [] ext z = rw (split_none ext z) refl
split_at_dot (c ∷ cs) ext z = rw (split_at_dot cs ext z) refl
