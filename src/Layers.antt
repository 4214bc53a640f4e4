-- ===== src/Layers.antt =====
-- kernel/layer.hpp and kernel/layer.cpp: the layers and the stack in which they are shown.
-- A `Layer*` is the layer's id, and 0 the null pointer: ids are given from 1 on. `none` is the use
-- of a null pointer. A window is the number that names it; what is drawn or sent is a list of effects.
pub mod Stack
pub mod Order
pub mod Lifecycle
pub mod Activation
mod Tests
use hon_os.Prelude.{
  ℕ, zero, suc, ◌+◌, ◌-◌, ◌%◌, ◌^◌, List, [], ◌∷◌, ◌++◌, Option, none, some, Bool, true, false, not,
  ◌==◌, ltb, if◌then◌else◌, length, ◌>>=◌,
}
use hon_os.Prelude.Integers.{ℤ, pos, negsuc, pred}
use hon_os.Layers.Stack.{insert_at, contains, remove}

pub record Layer : Type 0 where
  pub id : ℕ
  pub x : ℤ
  pub y : ℤ
  pub window : Option ℕ
  pub draggable : Bool

pub record LayerManager : Type 0 where
  pub layers : List Layer
  pub layer_stack : List ℕ
  pub latest_id : ℕ

pub make : LayerManager
make = record { layers = []; layer_stack = []; latest_id = 0 }

pub new_layer : LayerManager → ℕ × LayerManager
new_layer m =
    let id = (m.latest_id + 1) % 2 ^ 32 in
    let layer : Layer = record {
      id = id;
      x = pos 0;
      y = pos 0;
      window = none;
      draggable = false;
    } in
    (id, record m { layers = m.layers ++ (layer ∷ []); latest_id = id })

pub get : ℕ → List Layer → Option Layer
get id [] = none
get id (l ∷ ls) = if l.id == id then some l else get id ls

-- `FindLayer`.
pub find_layer : LayerManager → ℕ → ℕ
find_layer m id = elim (get id m.layers) [ none ↦ 0 | some l ↦ l.id ]

pub hide : LayerManager → ℕ → LayerManager
hide m id = record m { layer_stack = remove (find_layer m id) m.layer_stack }

-- `EraseIf`.
pub erase_if : ℕ → List Layer → List Layer
erase_if id [] = []
erase_if id (l ∷ ls) = if l.id == id then erase_if id ls else l ∷ erase_if id ls

pub remove_layer : LayerManager → ℕ → LayerManager
remove_layer m id = let m' = hide m id in record m' { layers = erase_if id m'.layers }

-- `UpDown` to a height that is not negative.
pub raise : LayerManager → ℕ → ℕ → LayerManager
raise m id height =
    let size = length m.layer_stack in
    let new_height = if ltb size height then size else height in
    let layer = find_layer m id in
    let moved =
      insert_at (if new_height == size then new_height - 1 else new_height) layer
        (remove layer m.layer_stack) in
    record m {
      layer_stack =
          if contains layer m.layer_stack then moved else insert_at new_height layer m.layer_stack;
    }

pub up_down : LayerManager → ℕ → ℤ → LayerManager
up_down m id (pos height) = raise m id height
up_down m id (negsuc k) = hide m id

-- The loop of `GetHeight`, from height `h` on.
pub height_from : List ℕ → ℕ → ℕ → Option ℤ
height_from [] id h = some (negsuc 0)
height_from (layer ∷ layers) id h =
    let rest = height_from layers id (h + 1) in
    if layer == 0 then none else if layer == id then some (pos h) else rest

pub get_height : LayerManager → ℕ → Option ℤ
get_height m id = height_from m.layer_stack id 0

-- What `Activate` does to windows, the screen and the task of a layer.
pub data Effect : Type 0 where
  deactivated : ℕ → Effect
  activated : ℕ → Effect
  drawn : ℕ → Effect
  told : ℕ → ℕ → Effect

pub record ActiveLayer : Type 0 where
  pub active_layer : ℕ
  pub mouse_layer : ℕ

-- `FindLayer(id)->GetWindow()`, dereferenced.
pub window_of : LayerManager → ℕ → Option ℕ
window_of m id = get id m.layers >>= λ layer. layer.window

-- The first block of `Activate`.
pub leave : LayerManager → ℕ → Option (List Effect)
leave m id =
    let left = window_of m id >>= λ window. some (deactivated window ∷ drawn id ∷ told id 0 ∷ []) in
    if ltb 0 id then left else some []

-- The second block of `Activate`.
pub enter : LayerManager → ℕ → ℕ → Option (LayerManager × List Effect)
enter m mouse id =
    let entered : Option (LayerManager × List Effect) = (do
      window ← window_of m id
      height ← get_height (up_down m id (pos 0)) mouse
      some (
        up_down (up_down m id (pos 0)) id (pred height),
        activated window ∷ drawn id ∷ told id 1 ∷ [],
      )) in
    if ltb 0 id then entered else some (m, [])

pub activate : LayerManager → ActiveLayer → ℕ → Option (LayerManager × ActiveLayer × List Effect)
activate m a id =
    let changed : Option (LayerManager × ActiveLayer × List Effect) = (do
      before ← leave m a.active_layer
      (m', after) ← enter m a.mouse_layer id
      some (m', record a { active_layer = id }, before ++ after)) in
    if a.active_layer == id then some (m, a, []) else changed
