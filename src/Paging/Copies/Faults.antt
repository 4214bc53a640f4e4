-- ===== src/Paging/Copies/Faults.antt =====
-- `HandlePageFault`: what it serves is there when the program goes on.
use hon_os.Prelude.{ℕ, ◌/◌, ◌%◌, ◌≡◌, Option, none, some, Bool, true, ◌==◌, ◌&&◌, ltb, leb, ◌≤◌}
use hon_os.Errors.{Code, success}
use hon_os.Memory.{bytes_per_frame, get_bit}
use hon_os.Paging.{of_value, PageMapEntry, pointer, Machine}
use hon_os.Paging.Copies.{Reading, Loading, Faulting}
use hon_os.Paging.Addresses.{number}
use hon_os.Paging.Tables.{leaf, Labels, IsTree, user_start}
use hon_os.Paging.Setting.{Mapped}

-- The fault of a write to a page that is there.
abbrev pub is_shared : ℕ → Bool
is_shared error_code = error_code % 2 == 1 && error_code / 2 % 2 == 1 && error_code / 4 % 2 == 1

-- The page is the user's, and its frame is in use and no page map.
abbrev pub Shared : Machine → Labels → ℕ → ℕ → Type 0
Shared m label cr3 a =
    (e : PageMapEntry) × (leaf m.memory 3 cr3 (number (of_value a)) ≡ some e)
    × (e.user ≡ true)
    × (get_bit m.manager (pointer e / bytes_per_frame) ≡ true)
    × (label (pointer e) ≡ none)

-- To fill a page changes no page map.
abbrev pub Fills : Loading → ℕ → Type 0
Fills load cr3 =
    (fd : ℕ) (m : Machine) (a offset x : ℕ)
    → leaf (load fd m a offset).memory 3 cr3 x ≡ leaf m.memory 3 cr3 x

-- An access of the user to the page finds it, for writing too.
abbrev pub Served : Option (Code × Machine) → ℕ → ℕ → Type 0
Served r cr3 a =
    (code : Code) × (m' : Machine) × (r ≡ some (code, m'))
    × ((code ≡ success) → Mapped m'.memory 3 cr3 (number (of_value a)) true)

module _ (m : Machine) (label : Labels) (cr3 a : ℕ) (tree : IsTree m label)
    (root : label cr3 ≡ some (3, 0)) (up : user_start ≤ number (of_value a)) where
  module _ (read : Reading) (load : Loading) (task : Faulting) (error_code : ℕ) where
    abbrev is_demanded : Bool
    is_demanded = leb task.dpaging_begin a && ltb a task.dpaging_end
