-- ===== src/Directories/Creation.antt =====
-- What `CreateFile` does in a directory.
use hon_os.Prelude.{
  ℕ, suc, ◌*◌, ◌≤◌, ◌<◌, ◌≡◌, ◌≢◌, refl, ap, ◌∙◌, ◌⊎◌, List, ◌∷◌, ◌++◌, some, Bool, true, ◌==◌,
  ◌||◌, arith, length, take, drop, get_elem?, count,
}
use hon_os.Errors.{success}
use hon_os.Fat.{first_end}
use hon_os.Fat.Chains.{IsChain, free_from}
use hon_os.Files.{Volume, first_cluster}
use hon_os.Files.Stream.{IsVolume}
use hon_os.Names.{name_bytes, split_last_dot}
use hon_os.Names.RoundTrip.{length-name_bytes}
use hon_os.Directories.{
  entry_size, entry_at, mark, slash, allocate_entry, name_entry, create_in, find_file, parse_entry,
}
use hon_os.Directories.Patches.{name_entry-Named}
use hon_os.Directories.Placement.{Placed, allocate_entry-Allocated}

-- The entry at the place has the name and no bytes, and the place is in the chain of the directory in
-- the new table; all other entries of clusters that were in use are as they were.
pub record Created (v : Volume) (parent : ℕ) (bytes : List ℕ) (place i : ℕ) (v' : Volume)
    : Type 0 where
  pub name : (entry_at v' place i).name ≡ bytes
  pub size : (entry_at v' place i).file_size ≡ 0
  pub unused :
      ((mark (entry_at v place i) == 0 || mark (entry_at v place i) == 0xe5) ≡ true)
      ⊎ (get_elem? v.fat place ≡ some 0)
  pub others :
      (d j : ℕ)
      → get_elem? v.fat d ≢ some 0
      → (place ≢ d) ⊎ (i ≢ j)
      → entry_at v' d j ≡ entry_at v d j
  pub placed : Placed v parent place v'
  pub volume : IsVolume v'

create_in_lem :
    (v v' : Volume) (c place i : ℕ) (filename : List ℕ)
    → allocate_entry (suc (length v.fat)) v c ≡ some ((place, i), v')
    → create_in v c filename
      ≡ some (record { value = some (place, i); error = success }, name_entry v' place i filename)
unfolding create_in
create_in_lem v v' c place i filename e = rw e refl

named-Placed :
    (v v' : Volume) (parent place i : ℕ) (filename : List ℕ)
    → Placed v parent place v'
    → Placed v parent place (name_entry v' place i filename)
unfolding name_entry
named-Placed v v' parent place i filename p = record {
  clusters = p.clusters;
  chain = p.chain;
  linked = p.linked;
  links = p.links;
}

same_content :
    (v v' : Volume) (d j : ℕ) → v'.content d ≡ v.content d → entry_at v' d j ≡ entry_at v d j
unfolding entry_at
same_content v v' d j h = ap (λ bs. parse_entry (take entry_size (drop (entry_size * j) bs))) h

-- The part of `CreateFile` behind the search for the directory.
pub create_in-Created :
    (v : Volume) (c : ℕ) (cs filename : List ℕ)
    → IsVolume v
    → IsChain v.fat (c ∷ cs)
    → length (c ∷ cs) ≤ length v.fat
    → length v.fat ≤ first_end
    → 0 < free_from 2 v.fat
    → entry_size ≤ v.bytes_per_cluster
    → (place : ℕ) × (i : ℕ) × (v' : Volume) × (create_in v c filename
        ≡ some (record { value = some (place, i); error = success }, v'))
      × Created v c (name_bytes filename (split_last_dot filename)) place i v'
create_in-Created v c cs filename w k l s f r =
    let (place, i, v', e, a, p) =
      allocate_entry-Allocated (suc (length v.fat)) v c cs w k l s f r (omega arith) in
    let named =
      name_entry-Named v' place i filename a.volume a.room
        (length-name_bytes filename (split_last_dot filename)) in
    (
      place,
      i,
      name_entry v' place i filename,
      create_in_lem v v' c place i filename e,
      record {
        name = named.name;
        size = named.size;
        unused = a.unused;
        others = λ d j used other. named.others d j other ∙ same_content v v' d j (a.kept d used);
        placed = named-Placed v v' c place i filename p;
        volume = named.volume;
      },
    )

-- The name in a path, and the first cluster of the directory that it stands in.
pub data InDirectory (v : Volume) (root : ℕ) : List ℕ → List ℕ → ℕ → Type 0 where
  relative :
      (filename : List ℕ) → count slash filename ≡ 0 → InDirectory v root filename filename root
  absolute :
      (f : ℕ) (fs : List ℕ)
      → count slash (f ∷ fs) ≡ 0
      → InDirectory v root (slash ∷ f ∷ fs) (f ∷ fs) root
  below :
      (d f c i : ℕ) (ds fs : List ℕ) (post_slash : Bool)
      → count slash (f ∷ fs) ≡ 0
      → find_file (suc (length (d ∷ ds))) v root (d ∷ ds) 0 ≡ some (some (c, i), post_slash)
      → InDirectory v root ((d ∷ ds) ++ (slash ∷ f ∷ fs)) (f ∷ fs) (first_cluster (entry_at v c i))
