-- ===== src/Paging/Setup.antt =====
-- `SetupPageMap` and `SetupPageMaps` map the pages they are asked for.

use hon_os.Prelude.{ℕ, ◌+◌, ◌^◌, ◌≤◌, ◌<◌, ◌≡◌, ◌⊎◌, some, Bool}
use hon_os.Errors.{Code, success, no_enough_memory}
use hon_os.Paging.{Machine}
use hon_os.Paging.Tables.{leaf, Labels, IsTree, user_start}
use hon_os.Paging.Setting.{Mapped}

-- What `SetupPageMaps` promises for `n` pages from `s` on: memory has run out, or each of them that the
-- four levels reach is mapped. No other page of the upper half has
-- changed its entry.
pub record SetsUp (m : Machine) (label : Labels) (cr3 s n : ℕ) (flag : Bool) (code : Code)
    (m' : Machine) (label' : Labels) : Type 0 where
  pub tree : IsTree m' label'
  pub grows : (t' : ℕ) (a : ℕ × ℕ) → label t' ≡ some a → label' t' ≡ some a
  pub others :
      (x : ℕ)
      → user_start ≤ x
      → x < 2 ^ 36
      → (x < s) ⊎ (s + n ≤ x)
      → leaf m'.memory 3 cr3 x ≡ leaf m.memory 3 cr3 x
  pub outcome :
      (code ≡ no_enough_memory)
      ⊎ ((code ≡ success)
          × ((x : ℕ) → s ≤ x → x < s + n → x < 2 ^ 36 → Mapped m'.memory 3 cr3 x flag))
