-- ===== src/Directories.antt =====
-- kernel/fat.cpp: `FindFile`, `AllocateEntry` and `CreateFile` on the directories of a volume.
-- A pointer to an entry of a directory is its cluster and its index there. `none` is undefined
-- behaviour of the source, such as a part of a path that is longer than its buffer, or a chain of
-- clusters that does not end.
pub mod Search
pub mod Patches
pub mod Placement
pub mod Creation
mod Tests
use hon_os.Prelude.{
  ℕ, zero, suc, ◌+◌, ◌-◌, ◌*◌, ◌/◌, ◌^◌, List, [], ◌∷◌, ◌++◌, Option, none, some, Bool, true, false,
  not, ◌&&◌, ◌||◌, ◌==◌, ltb, if◌then◌else◌, take, drop, replicate, length, get_or, ◌>>=◌,
}
use hon_os.Errors.{Code, success, is_directory, no_such_entry, WithError}
use hon_os.Fat.{next_cluster, extend_cluster, end_of_clusterchain}
use hon_os.Files.{DirectoryEntry, first_cluster, Volume, overwrite}
use hon_os.Names.{name_is_equal, name_bytes, split_last_dot}
use hon_os.Tasks.Queues.{update}

abbrev pub entry_size : ℕ
entry_size = 32

-- `Attribute::kDirectory`.
abbrev pub directory_attribute : ℕ
directory_attribute = 0x10

abbrev pub slash : ℕ
slash = b'/'

-- Two bytes of memory as a number.
abbrev pub word_at : List ℕ → ℕ → ℕ
word_at bytes i = get_or bytes i 0 + get_or bytes (i + 1) 0 * 2 ^ 8

-- The fields of the entry at the start of `bytes`.
pub parse_entry : List ℕ → DirectoryEntry
parse_entry bytes = record {
  name = take 11 bytes;
  attr = get_or bytes 11 0;
  first_cluster_high = word_at bytes 20;
  first_cluster_low = word_at bytes 26;
  file_size = word_at bytes 28 + word_at bytes 30 * 2 ^ 16;
}

-- `dir[i]`, for the directory's cluster `cluster`.
pub entry_at : Volume → ℕ → ℕ → DirectoryEntry
entry_at v cluster i = parse_entry (take entry_size (drop (entry_size * i) (v.content cluster)))

-- The first byte of the name in an entry.
abbrev pub mark : DirectoryEntry → ℕ
mark e = get_or e.name 0 0

-- `NextPathElement`: the element, and what follows a slash.
pub next_path_element : List ℕ → List ℕ × Option (List ℕ)
next_path_element [] = ([], none)
next_path_element (c ∷ cs) =
    let (elem, rest) = next_path_element cs in
    if c == slash then ([], some cs) else (c ∷ elem, rest)

-- How the loop over the entries of one cluster ends.
pub data Scan : Type 0 where
  found : ℕ → Scan
  ended passed : Scan

-- From entry `i` on, with the number of entries left.
pub scan : Volume → ℕ → List ℕ → ℕ → ℕ → Scan
scan v cluster name i zero = passed
scan v cluster name i (suc left) =
    let rest = scan v cluster name (i + 1) left in
    if mark (entry_at v cluster i) == 0
    then ended
    else if name_is_equal (entry_at v cluster i) name
    then found i
    else rest

abbrev pub entries_per_cluster : Volume → ℕ
entries_per_cluster v = v.bytes_per_cluster / entry_size

-- What the end of a scan means for the search; `further` goes on in the next cluster.
pub after_scan : ℕ → Scan → Option (Option (ℕ × ℕ)) → Option (Option (ℕ × ℕ))
after_scan cluster (found i) further = some (some (cluster, i))
after_scan cluster ended further = some none
after_scan cluster passed further = further

-- The loop over the clusters of a directory, with fuel; a result `none` inside is no entry.
pub search : ℕ → Volume → List ℕ → ℕ → Option (Option (ℕ × ℕ))
search zero v name cluster = none
search (suc fuel) v name cluster =
    let further = next_cluster v.fat cluster >>= λ next. search fuel v name next in
    if cluster == end_of_clusterchain
    then some none
    else after_scan cluster (scan v cluster name 0 (entries_per_cluster v)) further

-- Where the path starts: at the root for a leading slash or cluster 0.
pub start_of : ℕ → List ℕ → ℕ → ℕ × List ℕ
start_of root [] cluster = (if cluster == 0 then root else cluster, [])
start_of root (c ∷ cs) cluster =
    if c == slash then (root, cs) else (if cluster == 0 then root else cluster, c ∷ cs)

-- `next_path != nullptr && next_path[0] != '\0'`: what is left of the path.
pub more_path : Option (List ℕ) → Option (List ℕ)
more_path none = none
more_path (some []) = none
more_path (some (c ∷ cs)) = some (c ∷ cs)

pub has_slash : Option (List ℕ) → Bool
has_slash none = false
has_slash (some rest) = true

-- `FindFile` behind its loops; `descend` is the recursive call.
pub after_search :
    Volume
    → Option (List ℕ)
    → (List ℕ → ℕ → Option (Option (ℕ × ℕ) × Bool))
    → Option (ℕ × ℕ)
    → Option (Option (ℕ × ℕ) × Bool)
after_search v next descend none = some (none, has_slash next)
after_search v next descend (some (c, i)) =
    let here : Option (Option (ℕ × ℕ) × Bool) = some (some (c, i), has_slash next) in
    let descended : Option (Option (ℕ × ℕ) × Bool) = elim (more_path next) [
      | none ↦ here
      | some rest ↦ descend rest (first_cluster (entry_at v c i))
    ] in
    if (entry_at v c i).attr == directory_attribute then descended else here

-- `FindFile`, with fuel for the parts of the path: the entry, and whether a slash follows its name.
pub find_file : ℕ → Volume → ℕ → List ℕ → ℕ → Option (Option (ℕ × ℕ) × Bool)
find_file zero v root path cluster = none
find_file (suc fuel) v root path cluster =
    let (start, path') = start_of root path cluster in
    let (elem, next) = next_path_element path' in
    let rest =
      search (suc (length v.fat)) v elem start
      >>= after_search v next (λ left c. find_file fuel v root left c) in
    if ltb 12 (length elem) then none else rest

-- The first free entry of a cluster, from entry `i` on.
pub free_entry : Volume → ℕ → ℕ → ℕ → Option ℕ
free_entry v cluster i zero = none
free_entry v cluster i (suc left) =
    let rest = free_entry v cluster (i + 1) left in
    let first = mark (entry_at v cluster i) in if first == 0 || first == 0xe5 then some i else rest

-- The free entry of this cluster, or what the other clusters give.
pub or_further : Volume → ℕ → Option ℕ → Option ((ℕ × ℕ) × Volume) → Option ((ℕ × ℕ) × Volume)
or_further v cluster none further = further
or_further v cluster (some i) further = some ((cluster, i), v)

-- `AllocateEntry`, with fuel for the clusters: the entry, and the volume.
pub allocate_entry : ℕ → Volume → ℕ → Option ((ℕ × ℕ) × Volume)
allocate_entry zero v cluster = none
allocate_entry (suc fuel) v cluster =
    let extended : Option ((ℕ × ℕ) × Volume) = (do
      (last, fat) ← extend_cluster v.fat cluster 1
      some (
        (last, 0),
        record v { fat = fat; content = update v.content last (replicate v.bytes_per_cluster 0) },
      )) in
    let further : Option ((ℕ × ℕ) × Volume) = next_cluster v.fat cluster >>= λ next.
    let rest = allocate_entry fuel v next in
    if next == end_of_clusterchain then extended else rest in
    or_further v cluster (free_entry v cluster 0 (entries_per_cluster v)) further

-- What stands before the last slash, and behind it.
pub split_last_slash : List ℕ → Option (List ℕ × List ℕ)
split_last_slash [] = none
split_last_slash (c ∷ cs) = elim (split_last_slash cs) [
  | some (before, after) ↦ some (c ∷ before, after)
  | none ↦ if c == slash then some ([], cs) else none
]

-- `SetFileName`, and the size 0, in an entry that stands in a directory.
pub name_entry : Volume → ℕ → ℕ → List ℕ → Volume
name_entry v cluster i name =
    let named =
      overwrite (v.content cluster) (entry_size * i) (name_bytes name (split_last_dot name)) in
    record v {
      content = update v.content cluster (overwrite named (entry_size * i + 28) (replicate 4 0));
    }

-- `CreateFile` in the directory that starts with `parent`.
pub create_in : Volume → ℕ → List ℕ → Option (WithError (Option (ℕ × ℕ)) × Volume)
create_in v parent filename = do
  ((c, i), v') ← allocate_entry (suc (length v.fat)) v parent
  some (record { value = some (c, i); error = success }, name_entry v' c i filename)

-- The same in the directory that `FindFile` has found, or not.
pub create_at : Volume → Option (ℕ × ℕ) → List ℕ → Option (WithError (Option (ℕ × ℕ)) × Volume)
create_at v none filename = some (record { value = none; error = no_such_entry }, v)
create_at v (some (c, i)) filename = create_in v (first_cluster (entry_at v c i)) filename

-- `CreateFile` for a path with a slash: `dir` stands before the last one.
pub create_under : Volume → ℕ → List ℕ → List ℕ → Option (WithError (Option (ℕ × ℕ)) × Volume)
create_under v root dir [] = some (record { value = none; error = is_directory }, v)
create_under v root [] filename = create_in v root filename
create_under v root (d ∷ ds) filename = do
  (hit, post_slash) ← find_file (suc (length (d ∷ ds))) v root (d ∷ ds) 0
  create_at v hit filename

-- `CreateFile`, by how its path splits.
pub create_split :
    Volume → ℕ → List ℕ → Option (List ℕ × List ℕ) → Option (WithError (Option (ℕ × ℕ)) × Volume)
create_split v root path none = create_in v root path
create_split v root path (some (dir, filename)) = create_under v root dir filename

pub create_file : Volume → ℕ → List ℕ → Option (WithError (Option (ℕ × ℕ)) × Volume)
create_file v root path = create_split v root path (split_last_slash path)
