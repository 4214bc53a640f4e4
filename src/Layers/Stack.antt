-- ===== src/Layers/Stack.antt =====
-- The operations of std::vector on the stack of layers, and their laws.
use hon_os.Prelude.{
  ℕ, zero, suc, ◌+◌, ◌≤◌, ◌<◌, ◌≡◌, refl, List, [], ◌∷◌, Bool, true, false, ◌==◌, if◌then◌else◌,
  arith, length, count, Bool-cases, inl, inr,
}

-- `insert(begin() + n, x)`, for an `n` up to the length.
unfoldable pub insert_at : ℕ → ℕ → List ℕ → List ℕ
insert_at zero x xs = x ∷ xs
insert_at (suc n) x [] = x ∷ []
insert_at (suc n) x (y ∷ ys) = y ∷ insert_at n x ys

-- `std::find(begin(), end(), x) != end()`.
unfoldable pub contains : ℕ → List ℕ → Bool
contains x [] = false
contains x (y ∷ ys) = if y == x then true else contains x ys

-- `erase` of what `std::find` finds.
unfoldable pub remove : ℕ → List ℕ → List ℕ
remove x [] = []
remove x (y ∷ ys) = if y == x then ys else y ∷ remove x ys

pub contains_count : (x : ℕ) (xs : List ℕ) → contains x xs ≡ true → 0 < count x xs
unfolding contains
contains_count x [] e = cc
contains_count x (y ∷ ys) e = ground (arith, contains_count x ys)

pub count_contains : (x : ℕ) (xs : List ℕ) → contains x xs ≡ false → count x xs ≡ 0
unfolding contains
count_contains x [] e = refl
count_contains x (y ∷ ys) e = ground (arith, count_contains x ys)

pub remove_absent : (x : ℕ) (xs : List ℕ) → count x xs ≡ 0 → remove x xs ≡ xs
unfolding remove
remove_absent x [] e = refl
remove_absent x (y ∷ ys) e = ground (arith, remove_absent x ys)

pub length-remove : (x : ℕ) (xs : List ℕ) → 0 < count x xs → suc (length (remove x xs)) ≡ length xs
unfolding remove
length-remove x [] h = absurd (omega arith)
length-remove x (y ∷ ys) h = ground (arith, length-remove x ys)

pub count-remove :
    (x z : ℕ) (xs : List ℕ)
    → 0 < count x xs
    → count z (remove x xs) + (if x == z then 1 else 0) ≡ count z xs
unfolding remove
count-remove x z [] h = absurd (omega arith)
count-remove x z (y ∷ ys) h = ground (arith, count-remove x z ys)

pub count-insert_at :
    (n x z : ℕ) (xs : List ℕ) → count z (insert_at n x xs) ≡ count z xs + (if x == z then 1 else 0)
unfolding insert_at
count-insert_at zero x z xs = refl
count-insert_at (suc n) x z [] = refl
count-insert_at (suc n) x z (y ∷ ys) = omega (arith, count-insert_at n x z ys)

pub remove-insert_at : (n x : ℕ) (xs : List ℕ) → count x xs ≡ 0 → remove x (insert_at n x xs) ≡ xs
unfolding remove insert_at
remove-insert_at zero x xs e = ground arith
remove-insert_at (suc n) x [] e = ground arith
remove-insert_at (suc n) x (y ∷ ys) e = ground (arith, remove-insert_at n x ys)

-- Without a layer that stands there once at most.
pub count-remove_once :
    (x z : ℕ) (xs : List ℕ)
    → count x xs ≤ 1
    → count z (remove x xs) ≡ (if x == z then 0 else count z xs)
count-remove_once x z xs h = elim (Bool-cases (contains x xs)) [
  | inl present ↦
      let occurs = contains_count x xs present in ground (arith, count-remove x z xs occurs)
  | inr absent ↦
      let none_left = count_contains x xs absent in ground (arith, remove_absent x xs none_left)
]
