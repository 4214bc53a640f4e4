-- ===== src/Directories/Tests.antt =====
-- Instances of the properties of directories, on a volume of small clusters.
use hon_os.Prelude.{ℕ, List, [], ◌∷◌, ◌++◌, ◌≡◌, refl, some, false, arith, replicate}
use hon_os.Fat.Chains.{IsChain, end_of, link_to}
use hon_os.Files.{Volume}
use hon_os.Names.{dot}
use hon_os.Directories.{mark, find_file, entry_at, parse_entry}
use hon_os.Directories.Search.{first_match, listing, find_file_lem}

-- Clusters of two entries, with the cluster's number in each byte; clusters 2 and 4 are a directory,
-- which has no room left.
abbrev volume : Volume
volume = record {
  bytes_per_cluster = 64;
  fat = 0x0ffffff8 ∷ 0x0fffffff ∷ 4 ∷ 0 ∷ 0x0fffffff ∷ 0 ∷ [];
  content = λ c. replicate 64 c;
}

directory-IsChain : IsChain volume.fat (2 ∷ 4 ∷ [])
directory-IsChain =
    link_to 2 4 [] refl (omega arith) (omega arith) (end_of 4 0x0fffffff refl (omega arith))

-- The name of the entries of cluster 4.
abbrev fours : List ℕ
fours = replicate 8 4 ++ (dot ∷ replicate 3 4)

find_file_lem_example :
    find_file 1 volume 2 fours 2
    ≡ some (first_match volume fours (listing volume (2 ∷ 4 ∷ [])), false)
find_file_lem_example =
    find_file_lem 0 volume 2 fours 2 (4 ∷ []) directory-IsChain (omega arith) (omega arith)
      (omega arith) refl (omega arith)

last_entry : mark (entry_at volume 4 1) ≡ 4
unfolding entry_at parse_entry
last_entry = refl
