-- ===== src/ArrayMap/Slots.antt =====
-- What `Get` answers after `Put` and `Delete`.
use hon_os.Prelude.{
  ℕ, suc, ◌+◌, ◌≤◌, ◌<◌, ◌≡◌, refl, ap, List, [], ◌∷◌, Option, none, some, ◌==◌, if◌then◌else◌,
  arith, ◌∙◌,
}
use hon_os.ArrayMap.{Slot, get, put, delete}

module _ {V : Type 0} where
  -- How many slots have the key, and how many are not in use.
  abbrev pub uses : ℕ → List (Slot V) → ℕ
  uses key [] = 0
  uses key ((none, v) ∷ slots) = uses key slots
  uses key ((some k, v) ∷ slots) = uses key slots + (if k == key then 1 else 0)

  abbrev pub empty : List (Slot V) → ℕ
  empty [] = 0
  empty ((none, v) ∷ slots) = suc (empty slots)
  empty ((some k, v) ∷ slots) = empty slots

  get_unused : (key : ℕ) (slots : List (Slot V)) → uses key slots ≡ 0 → get key slots ≡ none
  unfolding get
  get_unused key [] h = refl
  get_unused key ((none, v) ∷ slots) h = get_unused key slots h
  get_unused key ((some k, v) ∷ slots) h = ground (arith, get_unused key slots)

  -- `Put` of a new key, with a slot free, binds it and no other key.
  get-put :
      (key j : ℕ) (value : V) (slots : List (Slot V))
      → uses key slots ≡ 0
      → 0 < empty slots
      → get j (put key value slots) ≡ (if key == j then some value else get j slots)
  unfolding get put
  get-put key j value [] h e = absurd (omega arith)
  get-put key j value ((none, v) ∷ slots) h e = refl
  get-put key j value ((some k, v) ∷ slots) h e = ground (arith, get-put key j value slots)

  uses-put :
      (key j : ℕ) (value : V) (slots : List (Slot V))
      → 0 < empty slots
      → uses j (put key value slots) ≡ uses j slots + (if key == j then 1 else 0)
  unfolding put
  uses-put key j value [] e = absurd (omega arith)
  uses-put key j value ((none, v) ∷ slots) e = refl
  uses-put key j value ((some k, v) ∷ slots) e = omega (arith, uses-put key j value slots e)

  get-delete :
      (key j : ℕ) (slots : List (Slot V))
      → uses key slots ≤ 1
      → get j (delete key slots) ≡ (if key == j then none else get j slots)
  unfolding get delete
  get-delete key j [] h = ground arith
  get-delete key j ((none, v) ∷ slots) h = get-delete key j slots h
  get-delete key j ((some k, v) ∷ slots) h =
      ground (arith, get-delete key j slots, get_unused key slots)

  uses-delete :
      (key j : ℕ) (slots : List (Slot V))
      → uses key slots ≤ 1
      → uses j (delete key slots) ≡ (if key == j then 0 else uses j slots)
  unfolding delete
  uses-delete key j [] h = ground arith
  uses-delete key j ((none, v) ∷ slots) h = uses-delete key j slots h
  uses-delete key j ((some k, v) ∷ slots) h = ground (arith, uses-delete key j slots)

  unused_of_get : (key : ℕ) (slots : List (Slot V)) → get key slots ≡ none → uses key slots ≡ 0
  unfolding get
  unused_of_get key [] h = refl
  unused_of_get key ((none, v) ∷ slots) h = unused_of_get key slots h
  unused_of_get key ((some k, v) ∷ slots) h = ground (arith, unused_of_get key slots)

  -- The slots stand for the partial function `f`, with each key in one slot at most.
  pub record Represents (slots : List (Slot V)) (f : ℕ → Option V) : Type 0 where
    pub unique : (j : ℕ) → uses j slots ≤ 1
    pub same : (j : ℕ) → get j slots ≡ f j

  -- `Put` of a key that is not bound, with a slot free, binds it and changes no other key.
  pub put-Represents :
      (slots : List (Slot V)) (f : ℕ → Option V) (key : ℕ) (value : V)
      → Represents slots f
      → f key ≡ none
      → 0 < empty slots
      → Represents (put key value slots) (λ j. if key == j then some value else f j)
  put-Represents slots f key value k h e = record {
    unique = λ j. ground (arith, uses-put key j value slots e, k.unique j, fresh);
    same = λ j.
        get-put key j value slots fresh e ∙ ap (λ o. if key == j then some value else o) (k.same j);
  }
    where
      fresh : uses key slots ≡ 0
      fresh = unused_of_get key slots (k.same key ∙ h)

  -- `Delete` unbinds its key, and changes no other.
  pub delete-Represents :
      (slots : List (Slot V)) (f : ℕ → Option V) (key : ℕ)
      → Represents slots f
      → Represents (delete key slots) (λ j. if key == j then none else f j)
  delete-Represents slots f key k = record {
    unique = λ j. ground (arith, uses-delete key j slots (k.unique key), k.unique j);
    same = λ j.
        get-delete key j slots (k.unique key) ∙ ap (λ o. if key == j then none else o) (k.same j);
  }
