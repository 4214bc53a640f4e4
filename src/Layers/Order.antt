-- ===== src/Layers/Order.antt =====
-- The order of the stack after `UpDown` and `Hide`.
use hon_os.Prelude.{
  ℕ, zero, suc, ◌+◌, ◌≤◌, ◌<◌, ◌≡◌, refl, ap, List, [], ◌∷◌, ◌==◌, none, some, if◌then◌else◌, arith,
  length, count, min, ◌∙◌, Bool-cases, inl, inr,
}
use hon_os.Prelude.Integers.{pos}
use hon_os.Layers.{Layer, LayerManager, get, find_layer, raise, up_down, height_from, get_height}
use hon_os.Layers.Stack.{
  insert_at, contains, remove, contains_count, count_contains, remove_absent, length-remove,
  count-remove_once, count-insert_at, remove-insert_at,
}

abbrev pub ids : List Layer → List ℕ
ids [] = []
ids (l ∷ ls) = l.id ∷ ids ls

-- Each layer has its own id, from 1 on; the stack holds layers that exist, each once at most.
pub record IsValid (m : LayerManager) : Type 0 where
  pub distinct : (id : ℕ) → count id (ids m.layers) ≤ 1
  pub given : (id : ℕ) → 0 < count id (ids m.layers) → (0 < id) × (id ≤ m.latest_id)
  pub stacked : (id : ℕ) → count id m.layer_stack ≤ count id (ids m.layers)

pub find_layer_known :
    (m : LayerManager) (id : ℕ) → 0 < count id (ids m.layers) → find_layer m id ≡ id
unfolding find_layer get
find_layer_known m id h = go m.layers h
  where
    go :
        (ls : List Layer)
        → 0 < count id (ids ls)
        → (elim (get id ls) as (λ o. ℕ) [ none ↦ 0 | some l ↦ l.id ]) ≡ id
    go [] h = absurd (omega arith)
    go (l ∷ ls) h = ground (arith, go ls)

pub find_layer_unknown :
    (m : LayerManager) (id : ℕ) → count id (ids m.layers) ≡ 0 → find_layer m id ≡ 0
unfolding find_layer get
find_layer_unknown m id h = go m.layers h
  where
    go :
        (ls : List Layer)
        → count id (ids ls) ≡ 0
        → (elim (get id ls) as (λ o. ℕ) [ none ↦ 0 | some l ↦ l.id ]) ≡ 0
    go [] h = refl
    go (l ∷ ls) h = ground (arith, go ls)

-- The other layers, in their order.
abbrev pub others : LayerManager → ℕ → List ℕ
others m id = remove id m.layer_stack

-- `UpDown` puts the layer at the height asked for among the others, or on top of them.
pub raise_lem :
    (m : LayerManager) (id height : ℕ)
    → 0 < count id (ids m.layers)
    → (raise m id height).layer_stack
      ≡ insert_at (min height (length (others m id))) id (others m id)
unfolding raise
raise_lem m id height h = elim (Bool-cases (contains id m.layer_stack)) [
  | inl present ↦
      let shorter = length-remove id m.layer_stack (contains_count id m.layer_stack present) in
      rw (find_layer_known m id h, present) (ap (λ n. insert_at n id (others m id)) (ground arith))
  | inr absent ↦
      let all = remove_absent id m.layer_stack (count_contains id m.layer_stack absent) in
      rw (find_layer_known m id h, absent, all)
        (ap (λ n. insert_at n id m.layer_stack) (ground arith))
]

height_from-insert_at :
    (n id h : ℕ) (xs : List ℕ)
    → count id xs ≡ 0
    → count 0 xs ≡ 0
    → 0 < id
    → n ≤ length xs
    → height_from (insert_at n id xs) id h ≡ some (pos (h + n))
unfolding height_from insert_at
height_from-insert_at zero id h xs e z p l = ground arith
height_from-insert_at (suc n) id h [] e z p l = absurd (omega arith)
height_from-insert_at (suc n) id h (y ∷ ys) e z p l =
    ground (arith, height_from-insert_at n id (h + 1) ys)

-- What moving a layer to a height means: the others keep their order, the layer stands at that height
-- or on top of them, and the manager stays valid.
pub record Raised (m : LayerManager) (id height : ℕ) (m' : LayerManager) : Type 0 where
  pub order : others m' id ≡ others m id
  pub top : get_height m' id ≡ some (pos (min height (length (others m id))))
  pub valid : IsValid m'
  pub kept : m'.layers ≡ m.layers

pub null_absent : (m : LayerManager) → IsValid m → count 0 m.layer_stack ≡ 0
null_absent m k = ground (arith, k.given 0, k.stacked 0)

count_others :
    (m : LayerManager) (id z : ℕ)
    → IsValid m
    → count z (others m id) ≡ (if id == z then 0 else count z m.layer_stack)
count_others m id z k =
    count-remove_once id z m.layer_stack (omega (arith, k.stacked id, k.distinct id))

raise_stacked :
    (m : LayerManager) (id height : ℕ)
    → IsValid m
    → 0 < count id (ids m.layers)
    → (z : ℕ) → count z (raise m id height).layer_stack ≤ count z (ids m.layers)
raise_stacked m id height k h z =
    let place = min height (length (others m id)) in
    let stack = ap (count z) (raise_lem m id height h) in
    let added = count-insert_at place id z (others m id) in
    let rest = count_others m id z k in ground (arith, k.stacked z)

-- `UpDown` of a layer that exists to a height that is not negative.
pub up_down-Raised :
    (m : LayerManager) (id height : ℕ)
    → IsValid m
    → 0 < count id (ids m.layers)
    → Raised m id height (up_down m id (pos height))
unfolding up_down get_height raise
up_down-Raised m id height k h = record {
  order = ap (remove id) stack ∙ remove-insert_at place id (others m id) gone;
  top =
      ap (λ s. height_from s id 0) stack
      ∙ height_from-insert_at place id 0 (others m id) gone
          (ground (arith, count_others m id 0 k, null_absent m k)) (k.given id h).0 (ground arith)
      ∙ ap (λ n. some (pos n)) (omega arith);
  valid = record {
    distinct = k.distinct;
    given = k.given;
    stacked = raise_stacked m id height k h;
  };
  kept = refl;
}
  where
    place : ℕ
    place = min height (length (others m id))

    stack : (raise m id height).layer_stack ≡ insert_at place id (others m id)
    stack = raise_lem m id height h

    gone : count id (others m id) ≡ 0
    gone = ground (arith, count_others m id id k)
