-- ===== src/ArrayMap/Tests.antt =====
-- A map of three slots, and instances of its properties.
use hon_os.Prelude.{ℕ, ◌≡◌, refl, List, [], ◌∷◌, Option, none, some, arith, ◌==◌, if◌then◌else◌}
use hon_os.ArrayMap.{Slot, get, put, delete}
use hon_os.ArrayMap.Slots.{Represents, put-Represents}

abbrev slots : List (Slot ℕ)
slots = (some 5, 50) ∷ (none, 0) ∷ (some 6, 60) ∷ []

abbrev bound : ℕ → Option ℕ
bound j = get j slots

deleted : get 6 (delete 6 slots) ≡ none
unfolding get delete
deleted = refl

slots-Represents : Represents slots bound
slots-Represents = record { unique = λ j. ground arith; same = λ j. refl }

put-Represents_example : Represents (put 7 70 slots) (λ j. if 7 == j then some 70 else bound j)
unfolding get
put-Represents_example = put-Represents slots bound 7 70 slots-Represents refl (omega arith)
