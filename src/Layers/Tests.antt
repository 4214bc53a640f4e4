-- ===== src/Layers/Tests.antt =====
-- Runs of the layer manager on three layers, and instances of its properties.
use hon_os.Prelude.{ℕ, ◌+◌, ◌≡◌, refl, [], ◌∷◌, some, true, arith}
use hon_os.Prelude.Integers.{pos, negsuc}
use hon_os.Layers.{
  Layer, LayerManager, make, new_layer, get, find_layer, hide, raise, up_down, deactivated,
  activated, drawn, told, ActiveLayer, window_of, activate,
}
use hon_os.Layers.Stack.{insert_at, contains, remove}
use hon_os.Layers.Order.{IsValid}
use hon_os.Layers.Lifecycle.{Reach, start, step, creating, moving, layers-Reach-IsValid}
use hon_os.Layers.Activation.{Topmost, activate-Topmost}

abbrev shown_layer : ℕ → Layer
shown_layer id = record {
  id = id;
  x = pos 0;
  y = pos 0;
  window = some (100 + id);
  draggable = true;
}

-- The mouse is layer 1, on top of layers 2 and 3.
abbrev three : LayerManager
three = record {
  layers = shown_layer 1 ∷ shown_layer 2 ∷ shown_layer 3 ∷ [];
  layer_stack = 2 ∷ 3 ∷ 1 ∷ [];
  latest_id = 3;
}

abbrev focus : ActiveLayer
focus = record { active_layer = 3; mouse_layer = 1 }

to_the_top : (up_down three 2 (pos 9)).layer_stack ≡ 3 ∷ 1 ∷ 2 ∷ []
unfolding up_down raise find_layer get contains remove insert_at
to_the_top = refl

hidden : (up_down three 3 (negsuc 0)).layer_stack ≡ 2 ∷ 1 ∷ []
unfolding up_down hide find_layer get remove
hidden = refl

three-IsValid : IsValid three
three-IsValid = record {
  distinct = λ z. ground arith;
  given = λ z p. ground arith;
  stacked = λ z. ground arith;
}

activate-Topmost_example :
    (m' : LayerManager) × (activate three focus 2
      ≡ some (
        m',
        record { active_layer = 2; mouse_layer = 1 },
        deactivated 103 ∷ drawn 3 ∷ told 3 0 ∷ activated 102 ∷ drawn 2 ∷ told 2 1 ∷ [],
      ))
    × Topmost three (2 ∷ 3 ∷ []) 1 2 m'
unfolding window_of get
activate-Topmost_example =
    activate-Topmost three focus 2 102 103 (2 ∷ 3 ∷ []) three-IsValid (omega arith) (omega arith)
      refl (omega arith) refl (λ p. refl)

one : LayerManager
one = (new_layer make).1

one-Reach : Reach one
unfolding one make
one-Reach = step make (new_layer make).1 start (creating (omega arith))

raised-Reach : Reach (up_down one 1 (pos 0))
unfolding one make new_layer
raised-Reach = step one (up_down one 1 (pos 0)) one-Reach (moving 1 0 (omega arith))

layers-Reach-IsValid_example : IsValid (up_down one 1 (pos 0))
layers-Reach-IsValid_example = layers-Reach-IsValid (up_down one 1 (pos 0)) raised-Reach
