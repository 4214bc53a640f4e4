-- ===== src/Layers/Activation.antt =====
-- Where `ActiveLayer::Activate` puts the layer: just below the mouse.
use hon_os.Prelude.{
  ℕ, suc, ◌+◌, ◌<◌, ◌≡◌, ◌≢◌, refl, ap, List, [], ◌∷◌, ◌++◌, true, false, ◌==◌, some, if◌then◌else◌,
  arith, length, count, min, ltb, ◌∙◌, length-append, count-append, Bool-cases, inl, inr,
}
use hon_os.Prelude.Integers.{pos}
use hon_os.Layers.{
  LayerManager, up_down, height_from, get_height, Effect, deactivated, activated, drawn, told,
  ActiveLayer, window_of, leave, enter, activate,
}
use hon_os.Layers.Stack.{insert_at, remove}
use hon_os.Layers.Order.{ids, IsValid, others, raise_lem, up_down-Raised, null_absent, Raised}

insert_at-append : (xs ys : List ℕ) (x : ℕ) → insert_at (length xs) x (xs ++ ys) ≡ xs ++ (x ∷ ys)
unfolding insert_at
insert_at-append [] ys x = refl
insert_at-append (y ∷ xs) ys x = ap (λ zs. y ∷ zs) (insert_at-append xs ys x)

remove-append :
    (x y : ℕ) (xs : List ℕ) → x ≢ y → remove x (xs ++ (y ∷ [])) ≡ remove x xs ++ (y ∷ [])
unfolding remove
remove-append x y [] h = ground arith
remove-append x y (z ∷ xs) h = ground (arith, remove-append x y xs)

height_from-append :
    (id h : ℕ) (xs : List ℕ)
    → count id xs ≡ 0
    → count 0 xs ≡ 0
    → 0 < id
    → height_from (xs ++ (id ∷ [])) id h ≡ some (pos (h + length xs))
unfolding height_from
height_from-append id h [] e z p = ground arith
height_from-append id h (y ∷ xs) e z p = ground (arith, height_from-append id (h + 1) xs)

-- The layer `id` stands just below the mouse, which is on top; the others are as they were.
pub record Topmost (m : LayerManager) (below : List ℕ) (mouse id : ℕ) (m' : LayerManager)
    : Type 0 where
  pub stack : m'.layer_stack ≡ remove id below ++ (id ∷ mouse ∷ [])
  pub valid : IsValid m'
  pub kept : m'.layers ≡ m.layers

module _ (m : LayerManager) (mouse id : ℕ) (below : List ℕ) (k : IsValid m)
    (known : 0 < count id (ids m.layers)) (other : id ≢ mouse)
    (top : m.layer_stack ≡ below ++ (mouse ∷ [])) where
  -- The stack without the layer.
  rest : others m id ≡ remove id below ++ (mouse ∷ [])
  rest = ap (remove id) top ∙ remove-append id mouse below other

  lowered : (up_down m id (pos 0)).layer_stack ≡ id ∷ (remove id below ++ (mouse ∷ []))
  unfolding up_down insert_at
  lowered =
      let bottom : min 0 (length (others m id)) ≡ 0 = omega arith in
      raise_lem m id 0 known
      ∙ ap (λ n. insert_at n id (others m id)) bottom
      ∙ ap (λ ls. id ∷ ls) rest

  first : Raised m id 0 (up_down m id (pos 0))
  first = up_down-Raised m id 0 k known

  mouse_once :
      (count mouse (remove id below) ≡ 0) × (count 0 (remove id below) ≡ 0) × (0 < mouse) × (0 < id)
  mouse_once =
      let placed = ap (count mouse) lowered in
      let nulls = ap (count 0) lowered in
      let split = count-append mouse (remove id below) (mouse ∷ []) in
      let split_null = count-append 0 (remove id below) (mouse ∷ []) in
      let one = first.valid.stacked mouse in
      let distinct = first.valid.distinct mouse in
      let given = first.valid.given mouse in
      let null = null_absent (up_down m id (pos 0)) first.valid in
      (ground arith, ground arith, ground arith, (k.given id known).0)

  mouse_height :
      get_height (up_down m id (pos 0)) mouse ≡ some (pos (suc (length (remove id below))))
  unfolding get_height
  mouse_height =
      ap (λ s. height_from s mouse 0) lowered
      ∙ height_from-append mouse 0 (id ∷ remove id below) (ground (arith, mouse_once.0))
          (ground (arith, mouse_once.1, mouse_once.3)) mouse_once.2
      ∙ ap (λ n. some (pos n)) (omega arith)

  raised :
      Topmost m below mouse id (up_down (up_down m id (pos 0)) id (pos (length (remove id below))))
  unfolding up_down
  raised = record { stack = placed; valid = second.valid; kept = second.kept ∙ first.kept }
    where
      known' : 0 < count id (ids (up_down m id (pos 0)).layers)
      known' = rw (first.kept) known

      placed :
          (up_down (up_down m id (pos 0)) id (pos (length (remove id below)))).layer_stack
          ≡ remove id below ++ (id ∷ mouse ∷ [])
      placed =
          let m' = up_down m id (pos 0) in
          let n = length (remove id below) in
          let rest' : others m' id ≡ remove id below ++ (mouse ∷ []) = first.order ∙ rest in
          let longer = ap length rest' ∙ length-append (remove id below) (mouse ∷ []) in
          let size : min n (length (others m' id)) ≡ n = omega arith in
          raise_lem m' id n known'
          ∙ ap (λ j. insert_at j id (others m' id)) size
          ∙ ap (insert_at n id) rest'
          ∙ insert_at-append (remove id below) (mouse ∷ []) id

      second :
          Raised
            (up_down m id (pos 0))
            id
            (length (remove id below))
            (up_down (up_down m id (pos 0)) id (pos (length (remove id below))))
      second =
          up_down-Raised (up_down m id (pos 0)) id (length (remove id below)) first.valid known'

-- The effects of taking the focus from `old`, if that is a layer.
abbrev pub farewell : ℕ → ℕ → List Effect
farewell old window = if ltb 0 old then deactivated window ∷ drawn old ∷ told old 0 ∷ [] else []

leave_lem :
    (m : LayerManager) (old window : ℕ)
    → (0 < old → window_of m old ≡ some window)
    → leave m old ≡ some (farewell old window)
unfolding leave
leave_lem m old window was = elim (Bool-cases (ltb 0 old)) [
  | inl active ↦ rw (active, was (ground arith)) refl
  | inr none_active ↦ rw none_active refl
]

enter_lem :
    (m : LayerManager) (mouse id window n : ℕ)
    → 0 < id
    → window_of m id ≡ some window
    → get_height (up_down m id (pos 0)) mouse ≡ some (pos (suc n))
    → enter m mouse id
      ≡ some
          (up_down (up_down m id (pos 0)) id (pos n), activated window ∷ drawn id ∷ told id 1 ∷ [])
unfolding enter
enter_lem m mouse id window n p shown height =
    let positive : ltb 0 id ≡ true = ground arith in rw (positive, shown, height) refl

activate_lem :
    (m m' : LayerManager) (a : ActiveLayer) (id : ℕ) (before after : List Effect)
    → a.active_layer ≢ id
    → leave m a.active_layer ≡ some before
    → enter m a.mouse_layer id ≡ some (m', after)
    → activate m a id
      ≡ some (m', record { active_layer = id; mouse_layer = a.mouse_layer }, before ++ after)
unfolding activate
activate_lem m m' a id before after new l e =
    let differs : (a.active_layer == id) ≡ false = ground arith in rw (differs, l, e) refl

-- `Activate` of another layer, when the mouse is on top: it returns; the layer stands just below the
-- mouse and is active, all other layers keep their order; first the old window is deactivated and its
-- task told so, then the new one is activated and its task told.
pub activate-Topmost :
    (m : LayerManager) (a : ActiveLayer) (id window old_window : ℕ) (below : List ℕ)
    → IsValid m
    → 0 < count id (ids m.layers)
    → id ≢ a.mouse_layer
    → m.layer_stack ≡ below ++ (a.mouse_layer ∷ [])
    → a.active_layer ≢ id
    → window_of m id ≡ some window
    → (0 < a.active_layer → window_of m a.active_layer ≡ some old_window)
    → (m' : LayerManager) × (activate m a id
        ≡ some (
          m',
          record { active_layer = id; mouse_layer = a.mouse_layer },
          farewell a.active_layer old_window ++ (activated window ∷ drawn id ∷ told id 1 ∷ []),
        ))
      × Topmost m below a.mouse_layer id m'
activate-Topmost m a id window old_window below k known other top new shown was = (
  up_down (up_down m id (pos 0)) id (pos (length (remove id below))),
  activate_lem m _ a id _ _ new (leave_lem m a.active_layer old_window was) (
      enter_lem m a.mouse_layer id window (length (remove id below)) (k.given id known).0 shown
        (mouse_height m a.mouse_layer id below k known other top)),
  raised m a.mouse_layer id below k known other top,
)
