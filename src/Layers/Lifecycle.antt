-- ===== src/Layers/Lifecycle.antt =====
-- The layers over any calls of the layer manager.
use hon_os.Prelude.{
  ℕ, ◌+◌, ◌^◌, ◌%◌, ◌<◌, ◌≡◌, refl, ap, List, [], ◌∷◌, ◌++◌, ◌==◌, if◌then◌else◌, arith, count, ◌∙◌,
  ℕ_discrete,
}
use hon_os.Prelude.Integers.{pos, negsuc}
use hon_os.Layers.{Layer, LayerManager, make, new_layer, hide, erase_if, remove_layer, up_down}
use hon_os.Layers.Stack.{count-remove_once, remove_absent}
use hon_os.Layers.Order.{
  ids, IsValid, find_layer_known, find_layer_unknown, null_absent, up_down-Raised,
}

ids-append :
    (ls : List Layer) (l : Layer) (z : ℕ)
    → count z (ids (ls ++ (l ∷ []))) ≡ count z (ids ls) + (if l.id == z then 1 else 0)
ids-append [] l z = refl
ids-append (x ∷ ls) l z = omega (arith, ids-append ls l z)

ids-new_layer :
    (m : LayerManager) (z : ℕ)
    → m.latest_id + 1 < 2 ^ 32
    → count z (ids (new_layer m).1.layers)
      ≡ count z (ids m.layers) + (if m.latest_id + 1 == z then 1 else 0)
unfolding new_layer
ids-new_layer m z h =
    let small : (m.latest_id + 1) % 2 ^ 32 ≡ m.latest_id + 1 = omega arith in
    ids-append m.layers _ z ∙ ap (λ n. count z (ids m.layers) + (if n == z then 1 else 0)) small

latest_id-new_layer :
    (m : LayerManager) → m.latest_id + 1 < 2 ^ 32 → (new_layer m).1.latest_id ≡ m.latest_id + 1
unfolding new_layer
latest_id-new_layer m h = omega arith

layer_stack-new_layer : (m : LayerManager) → (new_layer m).1.layer_stack ≡ m.layer_stack
unfolding new_layer
layer_stack-new_layer m = refl

new_layer-IsValid :
    (m : LayerManager) → IsValid m → m.latest_id + 1 < 2 ^ 32 → IsValid (new_layer m).1
new_layer-IsValid m k h = record {
  distinct = λ z. ground (arith, ids-new_layer m z h, k.distinct z, k.given z);
  given = λ z p. ground (arith, ids-new_layer m z h, latest_id-new_layer m h, k.given z);
  stacked =
      λ z. ground (arith, ids-new_layer m z h, ap (count z) (layer_stack-new_layer m), k.stacked z);
}

ids-erase_if :
    (id z : ℕ) (ls : List Layer)
    → count z (ids (erase_if id ls)) ≡ (if id == z then 0 else count z (ids ls))
unfolding erase_if
ids-erase_if id z [] = ground arith
ids-erase_if id z (l ∷ ls) = ground (arith, ids-erase_if id z ls)

layers-hide : (m : LayerManager) (id : ℕ) → (hide m id).layers ≡ m.layers
unfolding hide
layers-hide m id = refl

-- `Hide` takes the layer off the stack, once, and any other layer stays.
hide_lem :
    (m : LayerManager) (id z : ℕ)
    → IsValid m
    → count z (hide m id).layer_stack ≡ (if id == z then 0 else count z m.layer_stack)
unfolding hide
hide_lem m id z k = elim (ℕ_discrete (count id (ids m.layers)) 0) [
  | yes unknown ↦
      let same = remove_absent 0 m.layer_stack (null_absent m k) in
      rw (find_layer_unknown m id unknown, same) (ground (arith, k.stacked id))
  | no known ↦
      rw (find_layer_known m id (omega arith))
        (count-remove_once id z m.layer_stack (omega (arith, k.stacked id, k.distinct id)))
]

hide-IsValid : (m : LayerManager) (id : ℕ) → IsValid m → IsValid (hide m id)
hide-IsValid m id k = record {
  distinct = unfold hide in k.distinct;
  given = unfold hide in k.given;
  stacked = λ z.
      ground
        (arith, hide_lem m id z k, k.stacked z, ap (λ ls. count z (ids ls)) (layers-hide m id));
}

remove_layer-IsValid : (m : LayerManager) (id : ℕ) → IsValid m → IsValid (remove_layer m id)
unfolding remove_layer hide
remove_layer-IsValid m id k =
    let layers = λ (z : ℕ). ap (λ ls. count z (ids (erase_if id ls))) (layers-hide m id) in
    let left = λ (z : ℕ). layers z ∙ ids-erase_if id z m.layers in
    record {
      distinct = λ z. ground (arith, left z, k.distinct z);
      given = λ z p. ground (arith, left z, k.given z);
      stacked = λ z. ground (arith, left z, hide_lem m id z k, k.stacked z);
    }

-- A call of the layer manager; `UpDown` is called for a layer that exists, or to hide.
pub data Step (m : LayerManager) : LayerManager → Type 0 where
  creating : m.latest_id + 1 < 2 ^ 32 → Step m (new_layer m).1
  removing : (id : ℕ) → Step m (remove_layer m id)
  moving : (id height : ℕ) → 0 < count id (ids m.layers) → Step m (up_down m id (pos height))
  sinking : (id k : ℕ) → Step m (up_down m id (negsuc k))
  hiding : (id : ℕ) → Step m (hide m id)

pub data Reach : LayerManager → Type 0 where
  start : Reach make
  step : (m m' : LayerManager) → Reach m → Step m m' → Reach m'

make-IsValid : IsValid make
unfolding make
make-IsValid = record {
  distinct = λ z. omega arith;
  given = λ z p. absurd (omega arith);
  stacked = λ z. omega arith;
}

Step-IsValid : (m m' : LayerManager) → Step m m' → IsValid m → IsValid m'
unfolding up_down
Step-IsValid m _ (creating h) k = new_layer-IsValid m k h
Step-IsValid m _ (removing id) k = remove_layer-IsValid m id k
Step-IsValid m _ (moving id height h) k = (up_down-Raised m id height k h).valid
Step-IsValid m _ (sinking id n) k = hide-IsValid m id k
Step-IsValid m _ (hiding id) k = hide-IsValid m id k

-- After any such calls, with fewer than 2 ^ 32 layers made, all layers have different ids, and the
-- stack holds layers that exist, each once at most.
pub layers-Reach-IsValid : (m : LayerManager) → Reach m → IsValid m
layers-Reach-IsValid _ start = make-IsValid
layers-Reach-IsValid _ (step m m' r s) = Step-IsValid m m' s (layers-Reach-IsValid m r)
