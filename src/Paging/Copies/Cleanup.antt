-- ===== src/Paging/Copies/Cleanup.antt =====
-- The loop of `CleanPageMap`, its levels, and `CleanPageMaps`.
use hon_os.Prelude.{ℕ, suc, ◌*◌, ◌%◌, ◌^◌, ◌≤◌, ◌<◌, ◌≡◌, none, some, true}
use hon_os.Errors.{Code, success}
use hon_os.Memory.{BitmapMemoryManager, get_bit}
use hon_os.Memory.Frames.{IsValid}
use hon_os.Paging.{LinearAddress, PageMapEntry, Machine}
use hon_os.Paging.Copies.Cleaning.{CleansBelow, visit, IsFreed}
use hon_os.Paging.Addresses.{prefix}
use hon_os.Paging.Tables.{leaf, Labels, Leads, user_start}

-- What goes on below the entries of the level `l` cleans there.
abbrev Runs : (Machine → ℕ → Code × Machine) → ℕ → Type 0
Runs below l =
    (m : Machine) (label : Labels) (c n : ℕ)
    → Leads m.memory label
    → IsValid m.manager
    → user_start ≤ n * 512 ^ l
    → ((k : ℕ) → l ≡ suc k → label c ≡ some (k, n))
    → (m' : Machine) × (below m c ≡ (success, m')) × CleansBelow l m label c n m'

-- The parts below the highest are 0.
abbrev pub IsStart : LinearAddress → Type 0
IsStart addr = (addr.page ≡ 0) × (addr.dir ≡ 0) × (addr.pdp ≡ 0)

-- What `CleanPageMaps` promises from the entry `i` of the root on: no page there is mapped. On the way to
-- such a page, the frame of each entry that was present and writable is free, that of the page and those
-- of the page maps alike. The pages of the upper half before keep their entries, the root keeps its
-- entries before, and no frame is in use that was not.
pub record CleansUp (m : Machine) (cr3 i : ℕ) (m' : Machine) : Type 0 where
  pub gone : (x : ℕ) → i ≤ prefix 3 x % 512 → leaf m'.memory 3 cr3 x ≡ none
  pub freed :
      (n x : ℕ) (e : PageMapEntry)
      → x < 2 ^ 36
      → i ≤ prefix 3 x % 512
      → visit m.memory 3 n cr3 x ≡ some e
      → IsFreed m m' e
  pub kept :
      (x : ℕ)
      → user_start ≤ x
      → x < 2 ^ 36
      → prefix 3 x % 512 < i
      → leaf m'.memory 3 cr3 x ≡ leaf m.memory 3 cr3 x
  pub root : (j : ℕ) → j < i → m'.memory cr3 j ≡ m.memory cr3 j
  pub only : (g : ℕ) → get_bit m'.manager g ≡ true → get_bit m.manager g ≡ true
