-- ===== src/Paging.antt =====
-- kernel/paging.hpp and kernel/paging.cpp: page maps of four levels, and what sets them up. Memory is
-- the entry at each index of each page; a page map is the address of its page. The memory manager is
-- the part of the state that gives out frames.
pub mod Addresses
pub mod Tables
pub mod Entries
pub mod Entering
pub mod Making
pub mod Reach
pub mod Setting
pub mod Rounds
pub mod Joining
pub mod Looping
pub mod Setup
pub mod Copies
pub mod Identity
mod Tests
use hon_os.Prelude.{
  ℕ, zero, suc, ◌+◌, ◌-◌, ◌*◌, ◌/◌, ◌%◌, ◌^◌, Option, none, some, Bool, true, false, ◌==◌,
  if◌then◌else◌, mul64, ◌>>=◌,
}
use hon_os.Errors.{Code, success, is_error, WithError}
use hon_os.Memory.{BitmapMemoryManager, bytes_per_frame, allocate, free}

-- `LinearAddress4Level`, by its parts.
pub record LinearAddress : Type 0 where
  pub offset : ℕ
  pub page : ℕ
  pub dir : ℕ
  pub pdp : ℕ
  pub pml4 : ℕ
  pub upper : ℕ

-- From the value.
pub of_value : ℕ → LinearAddress
of_value value = record {
  offset = value % 2 ^ 12;
  page = value / 2 ^ 12 % 2 ^ 9;
  dir = value / 2 ^ 21 % 2 ^ 9;
  pdp = value / 2 ^ 30 % 2 ^ 9;
  pml4 = value / 2 ^ 39 % 2 ^ 9;
  upper = value / 2 ^ 48;
}

pub part : LinearAddress → ℕ → ℕ
part a zero = a.offset
part a (suc zero) = a.page
part a (suc (suc zero)) = a.dir
part a (suc (suc (suc zero))) = a.pdp
part a (suc (suc (suc (suc zero)))) = a.pml4
part a (suc (suc (suc (suc (suc level))))) = 0

pub set_part : LinearAddress → ℕ → ℕ → LinearAddress
set_part a zero value = record a { offset = value % 2 ^ 12 }
set_part a (suc zero) value = record a { page = value % 2 ^ 9 }
set_part a (suc (suc zero)) value = record a { dir = value % 2 ^ 9 }
set_part a (suc (suc (suc zero))) value = record a { pdp = value % 2 ^ 9 }
set_part a (suc (suc (suc (suc zero)))) value = record a { pml4 = value % 2 ^ 9 }
set_part a (suc (suc (suc (suc (suc level))))) value = a

-- `PageMapEntry`; `other` stands for the bits that no code here names.
pub record PageMapEntry : Type 0 where
  pub present : Bool
  pub writable : Bool
  pub user : Bool
  pub addr : ℕ
  pub other : ℕ

abbrev pub zero_entry : PageMapEntry
zero_entry = record { present = false; writable = false; user = false; addr = 0; other = 0 }

pub pointer : PageMapEntry → ℕ
pointer e = e.addr * 2 ^ 12

pub set_pointer : PageMapEntry → ℕ → PageMapEntry
set_pointer e p = record e { addr = p / 2 ^ 12 % 2 ^ 40 }

abbrev pub Memory : Type 0
Memory = ℕ → ℕ → PageMapEntry

abbrev pub write : Memory → ℕ → ℕ → PageMapEntry → Memory
write mem t i e t' i' = if t == t' then (if i == i' then e else mem t' i') else mem t' i'

-- `memset` of a page to 0.
abbrev pub clear : Memory → ℕ → Memory
clear mem t t' i' = if t == t' then zero_entry else mem t' i'

pub record Machine : Type 0 where
  pub memory : Memory
  pub manager : BitmapMemoryManager

-- `NewPageMap`: the address of the page map, 0 for the null pointer.
pub new_page_map : Machine → Option (WithError ℕ × Machine)
new_page_map m = allocate m.manager 1 >>= λ (frame, manager).
    let e = mul64 frame.value bytes_per_frame in
    some (
      if is_error frame.error
      then (record { value = 0; error = frame.error }, record m { manager = manager })
      else (
        record { value = e; error = success },
        record { memory = clear m.memory e; manager = manager },
      ))

pub free_page_map : Machine → ℕ → Code × Machine
free_page_map m table =
    let (err, manager) = free m.manager (table / bytes_per_frame) 1 in
    (err, record m { manager = manager })

-- `SetNewPageMapIfNotPresent` of the entry at index `i` of `table`.
pub set_new_page_map_if_not_present : Machine → ℕ → ℕ → Option (WithError ℕ × Machine)
set_new_page_map_if_not_present m table i =
    let entry = m.memory table i in
    let made : Option (WithError ℕ × Machine) = new_page_map m >>= λ (child_map, m'). some (
      if is_error child_map.error then (record { value = 0; error = child_map.error }, m') else (
        record { value = child_map.value; error = success },
        record m' {
          memory =
              write m'.memory table i
                (record (set_pointer (m'.memory table i) child_map.value) { present = true });
        },
      )) in
    if entry.present then some (record { value = pointer entry; error = success }, m) else made

-- `user` and `writable` of an entry.
pub set_flags : Machine → ℕ → ℕ → Bool → Machine
set_flags m table i writable = record m {
  memory = write m.memory table i (record (m.memory table i) { user = true; writable = writable });
}

-- The parts below a level, set to 0.
pub clear_below : LinearAddress → ℕ → LinearAddress
clear_below a zero = a
clear_below a (suc level) = if level == 0 then a else clear_below (set_part a level 0) level

-- The address where the next entry of a level starts.
pub advance : LinearAddress → ℕ → ℕ → LinearAddress
advance a page_map_level entry_index =
    clear_below (set_part a page_map_level (entry_index + 1)) page_map_level

-- What goes on below an entry: from the page map there, for the address and the number of pages left.
abbrev pub Below : Type 0
Below = Machine → ℕ → LinearAddress → ℕ → Option (WithError ℕ × Machine)

-- What `SetupPageMap` does behind the call for an entry; `next` is the rest of its loop.
pub after_entry :
    ℕ
    → ℕ
    → (Machine → ℕ → Option (WithError ℕ × Machine))
    → WithError ℕ × Machine
    → Option (WithError ℕ × Machine)
after_entry entry_index num_4kpages next (r, m) =
    if is_error r.error
    then some (record { value = num_4kpages; error = r.error }, m)
    else if entry_index == 511
    then some (record { value = r.value; error = success }, m)
    else next m r.value

-- One round of the loop of `SetupPageMap`, at one entry.
pub setup_entry :
    Below
    → Bool
    → Machine
    → ℕ
    → LinearAddress
    → ℕ
    → ℕ
    → (Machine → ℕ → Option (WithError ℕ × Machine))
    → Option (WithError ℕ × Machine)
setup_entry below writable m page_map addr entry_index num_4kpages next =
    set_new_page_map_if_not_present m page_map entry_index >>= λ (child_map, m').
    if is_error child_map.error
    then some (record { value = num_4kpages; error = child_map.error }, m')
    else (below (set_flags m' page_map entry_index writable) child_map.value addr num_4kpages
        >>= after_entry entry_index num_4kpages next)

-- The loop of `SetupPageMap`, with fuel: each round but the last goes on to the next entry.
pub setup_entries : ℕ → Below → Bool → ℕ → Below
setup_entries zero below writable page_map_level m page_map addr num_4kpages = none
setup_entries (suc fuel) below writable page_map_level m page_map addr num_4kpages =
    let entry_index = part addr page_map_level in
    let round = setup_entry below writable m page_map addr entry_index num_4kpages λ m' left.
      setup_entries fuel below writable page_map_level m' page_map
        (advance addr page_map_level entry_index) left in
    if num_4kpages == 0 then some (record { value = num_4kpages; error = success }, m) else round

-- `SetupPageMap`, for 512 entries at each level; level 0 stands for `--num_4kpages`. The entries above
-- the last level are writable.
pub setup_page_map : ℕ → Bool → Below
setup_page_map zero writable m page addr num_4kpages =
    some (record { value = num_4kpages - 1; error = success }, m)
setup_page_map (suc level) writable m page_map addr num_4kpages =
    setup_entries 512 (λ m' child a n. setup_page_map level writable m' child a n)
      (if level == 0 then writable else true) (suc level) m page_map addr num_4kpages

-- `SetupPageMaps`, for the page map at `cr3`.
pub setup_page_maps : Machine → ℕ → LinearAddress → ℕ → Bool → Option (Code × Machine)
setup_page_maps m cr3 addr num_4kpages writable =
    setup_page_map 4 writable m cr3 addr num_4kpages >>= λ (r, m'). some (r.error, m')
