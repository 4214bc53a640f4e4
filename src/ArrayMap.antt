-- ===== src/ArrayMap.antt =====
-- kernel/usb/arraymap.hpp: a map in an array of slots. A key is the number that stands for it.
pub mod Slots
mod Tests
use hon_os.Prelude.{
  ℕ, zero, suc, List, [], ◌∷◌, Option, none, some, Bool, true, false, ◌==◌, if◌then◌else◌,
  replicate,
}

-- A slot with the key, if it is in use; a slot that is not keeps its last value.
abbrev pub Slot : Type 0 → Type 0
Slot V = Option ℕ × V

module _ {V : Type 0} where
  -- An array of `n` slots.
  pub make : ℕ → V → List (Slot V)
  make n v = replicate n (none, v)

  pub get : ℕ → List (Slot V) → Option V
  get key [] = none
  get key ((none, v) ∷ slots) = get key slots
  get key ((some k, v) ∷ slots) = if k == key then some v else get key slots

  pub put : ℕ → V → List (Slot V) → List (Slot V)
  put key value [] = []
  put key value ((none, v) ∷ slots) = (some key, value) ∷ slots
  put key value ((some k, v) ∷ slots) = (some k, v) ∷ put key value slots

  pub delete : ℕ → List (Slot V) → List (Slot V)
  delete key [] = []
  delete key ((none, v) ∷ slots) = (none, v) ∷ delete key slots
  delete key ((some k, v) ∷ slots) =
      if k == key then (none, v) ∷ slots else (some k, v) ∷ delete key slots
