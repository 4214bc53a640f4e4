-- ===== src/Paging/Copies.antt =====
-- kernel/paging.cpp: what changes page maps that are already there: the clean-up, the copies and the
-- handler of page faults. What the processor reads at a linear address, and what a file puts into a
-- page, are arguments.
pub mod Finding
pub mod OnePage
pub mod Faults
pub mod Freeing
pub mod Cleaning
pub mod Cleanup
pub mod Copying
pub mod Rest
pub mod Child
pub mod Whole
pub mod Levels
mod Tests
use hon_os.Prelude.{
  ℕ, zero, suc, ◌+◌, ◌-◌, ◌*◌, ◌/◌, ◌%◌, ◌^◌, List, [], ◌∷◌, Option, none, some, Bool, true, false,
  not, ◌&&◌, ◌==◌, ltb, leb, if◌then◌else◌, ◌>>=◌, sub64,
}
use hon_os.Errors.{Code, success, already_allocated, index_out_of_range, is_error, WithError}
use hon_os.Memory.{bytes_per_frame, free}
use hon_os.Paging.{
  LinearAddress, of_value, part, PageMapEntry, zero_entry, pointer, set_pointer, Memory, write,
  Machine, new_page_map, setup_page_maps,
}

-- An entry set to 0.
pub erased : Machine → ℕ → ℕ → Code × Machine
erased m page_map i = (success, record m { memory = write m.memory page_map i zero_entry })

-- A round of `CleanPageMap`; `below` is the call for the next level.
pub clean_entry : (Machine → ℕ → Code × Machine) → Machine → ℕ → ℕ → Code × Machine
clean_entry below m page_map i =
    let entry = m.memory page_map i in
    let (err, m') = below m (pointer entry) in
    let (err', manager) = free m'.manager (pointer entry / bytes_per_frame) 1 in
    let freed = record m' { manager = manager } in
    if not entry.present
    then (success, m)
    else if is_error err
    then (err, m')
    else if entry.writable
    then (if is_error err' then (err', freed) else erased freed page_map i)
    else erased m' page_map i

-- The loop of `CleanPageMap` from the entry `i` on.
pub clean_entries : ℕ → (Machine → ℕ → Code × Machine) → Machine → ℕ → ℕ → Code × Machine
clean_entries zero below m page_map i = (success, m)
clean_entries (suc rounds) below m page_map i =
    let (err, m') = clean_entry below m page_map i in
    let rest = clean_entries rounds below m' page_map (i + 1) in
    if is_error err then (err, m') else rest

-- `CleanPageMap`; at level 1 there is no call for a next level, which the level 0 stands for.
pub clean_page_map : ℕ → LinearAddress → Machine → ℕ → Code × Machine
clean_page_map zero addr m page_map = (success, m)
clean_page_map (suc level) addr m page_map =
    clean_entries (512 - part addr (suc level)) (clean_page_map level addr) m page_map
      (part addr (suc level))

pub clean_page_maps : Machine → ℕ → LinearAddress → Code × Machine
clean_page_maps m cr3 addr = clean_page_map 4 addr m cr3

-- `SetPageContent` for the part `level + 1`. The translation of the processor is not cached here.
pub set_page_content : ℕ → Machine → ℕ → LinearAddress → ℕ → Code × Machine
set_page_content zero m table addr content =
    let i = part addr 1 in
    (
      success,
      record m {
        memory =
            write m.memory table i
              (record (set_pointer (m.memory table i) content) { writable = true });
      },
    )
set_page_content (suc level) m table addr content =
    let i = part addr (suc (suc level)) in
    set_page_content level m (pointer (m.memory table i)) addr content

-- `memcpy` of a page, from the words it has.
abbrev pub copy_page : Memory → ℕ → (ℕ → PageMapEntry) → Memory
copy_page mem p words t' i' = if p == t' then words i' else mem t' i'

-- The words of the page at a linear address that is a multiple of 4096.
abbrev pub Reading : Type 0
Reading = Memory → ℕ → ℕ → PageMapEntry

abbrev pub page_start : ℕ → ℕ
page_start addr = addr / 2 ^ 12 * 2 ^ 12

pub copy_one_page : Reading → Machine → ℕ → ℕ → Option (Code × Machine)
copy_one_page read m cr3 causal_addr = new_page_map m >>= λ (p, m').
    let words = read m'.memory (page_start causal_addr) in
    let copied = record m' { memory = copy_page m'.memory p.value words } in
    some (
      if is_error p.error
      then (p.error, m')
      else set_page_content 3 copied cr3 (of_value causal_addr) p.value)

-- The loop of `CopyPageMaps` over the pages of a last page map.
pub copy_last : ℕ → Machine → ℕ → ℕ → ℕ → Machine
copy_last zero m dest src i = m
copy_last (suc rounds) m dest src i =
    let copied = record m {
      memory = write m.memory dest i (record (m.memory src i) { writable = false });
    } in
    copy_last rounds (if not (m.memory src i).present then m else copied) dest src (i + 1)

-- A round of its loop over page maps; `below` is the call for the next level, `next` the rest.
pub copy_entry :
    (Machine → ℕ → ℕ → Option (Code × Machine))
    → Machine
    → ℕ
    → ℕ
    → ℕ
    → (Machine → Option (Code × Machine))
    → Option (Code × Machine)
copy_entry below m dest src i next =
    let made = new_page_map m >>= λ (table, m').
    let linked = record m' {
      memory = write m'.memory dest i (set_pointer (m'.memory src i) table.value);
    } in
    if is_error table.error
    then some (table.error, m')
    else (below linked table.value (pointer (linked.memory src i)) >>= λ (err, m'').
        if is_error err then some (err, m'') else next m'') in
    if not (m.memory src i).present then next m else made

pub copy_entries :
    ℕ → (Machine → ℕ → ℕ → Option (Code × Machine)) → Machine → ℕ → ℕ → ℕ → Option (Code × Machine)
copy_entries zero below m dest src i = some (success, m)
copy_entries (suc rounds) below m dest src i =
    copy_entry below m dest src i (λ m'. copy_entries rounds below m' dest src (i + 1))

-- `CopyPageMaps` for the part `level + 1`.
pub copy_page_maps : ℕ → Machine → ℕ → ℕ → ℕ → Option (Code × Machine)
copy_page_maps zero m dest src start = some (success, copy_last (512 - start) m dest src start)
copy_page_maps (suc level) m dest src start =
    copy_entries (512 - start) (λ m' table child. copy_page_maps level m' table child 0) m dest src
      start

pub record FileMapping : Type 0 where
  pub fd : ℕ
  pub vaddr_begin : ℕ
  pub vaddr_end : ℕ

pub find_file_mapping : List FileMapping → ℕ → Option FileMapping
find_file_mapping [] causal_vaddr = none
find_file_mapping (m ∷ fmaps) causal_vaddr =
    if leb m.vaddr_begin causal_vaddr && ltb causal_vaddr m.vaddr_end
    then some m
    else find_file_mapping fmaps causal_vaddr

-- What `Load` of the file of a descriptor does to a page: to the linear address and from the offset.
abbrev pub Loading : Type 0
Loading = ℕ → Machine → ℕ → ℕ → Machine

pub prepare_page_cache : Loading → Machine → ℕ → FileMapping → ℕ → Option (Code × Machine)
prepare_page_cache load m cr3 mapping causal_vaddr =
    let page_vaddr = page_start causal_vaddr in
    setup_page_maps m cr3 (of_value page_vaddr) 1 true >>= λ (err, m'). some (
      if is_error err
      then (err, m')
      else (success, load mapping.fd m' page_vaddr (sub64 page_vaddr mapping.vaddr_begin)))

-- What `HandlePageFault` reads of the current task.
pub record Faulting : Type 0 where
  pub dpaging_begin : ℕ
  pub dpaging_end : ℕ
  pub file_maps : List FileMapping

pub handle_page_fault : Reading → Loading → Faulting → Machine → ℕ → ℕ → ℕ → Option (Code × Machine)
handle_page_fault read load task m cr3 error_code causal_addr =
    let present = error_code % 2 == 1 in
    let rw_bit = error_code / 2 % 2 == 1 in
    let user = error_code / 4 % 2 == 1 in
    let mapped : Option (Code × Machine) = elim (find_file_mapping task.file_maps causal_addr) [
      | some mapping ↦ prepare_page_cache load m cr3 mapping causal_addr
      | none ↦ some (index_out_of_range, m)
    ] in
    if present && rw_bit && user
    then copy_one_page read m cr3 causal_addr
    else if present
    then some (already_allocated, m)
    else if leb task.dpaging_begin causal_addr && ltb causal_addr task.dpaging_end
    then setup_page_maps m cr3 (of_value causal_addr) 1 true
    else mapped
