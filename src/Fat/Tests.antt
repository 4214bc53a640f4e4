-- ===== src/Fat/Tests.antt =====
-- Runs of the operations on a small table, and instances of the properties of tables and addresses.
use hon_os.Prelude.{ℕ, List, [], ◌∷◌, ◌≡◌, refl, some, arith, length, ◌≤◌, ◌+◌, ◌*◌}
use hon_os.Fat.Addresses.{Fits, get_cluster_addr_disjoint}
use hon_os.Fat.{
  Bpb, get_cluster_addr, get_fat, bytes_per_cluster, extend_cluster, allocate_cluster_chain,
  last_cluster, is_end_of_clusterchain, link_free, first_free,
}
use hon_os.Fat.Chains.{IsChain, end_of, link_to}
use hon_os.Fat.Extension.{Extended, extend_cluster-Extended}
use hon_os.Fat.NewChain.{Fresh, allocate_cluster_chain-Fresh}

-- Clusters 2 and 4 are a chain; 3, 5 and 6 are free.
abbrev table : List ℕ
table = 0x0ffffff8 ∷ 0x0fffffff ∷ 4 ∷ 0 ∷ 0x0fffffff ∷ 0 ∷ 0 ∷ []

table-IsChain : IsChain table (2 ∷ 4 ∷ [])
table-IsChain =
    link_to 2 4 [] refl (omega arith) (omega arith) (end_of 4 0x0fffffff refl (omega arith))

extended_twice :
    extend_cluster table 2 2 ≡ some (5, 0x0ffffff8 ∷ 0x0fffffff ∷ 4 ∷ 5 ∷ 3 ∷ 0x0fffffff ∷ 0 ∷ [])
unfolding extend_cluster last_cluster is_end_of_clusterchain link_free
extended_twice = refl

new_chain :
    allocate_cluster_chain table 2
    ≡ some (3, 0x0ffffff8 ∷ 0x0fffffff ∷ 4 ∷ 5 ∷ 0x0fffffff ∷ 0x0fffffff ∷ 0 ∷ [])
unfolding allocate_cluster_chain first_free extend_cluster last_cluster is_end_of_clusterchain
    link_free
new_chain = refl

extend_cluster-Extended_example :
    (last : ℕ) × (fat' : List ℕ) × (new : List ℕ) × (extend_cluster table 2 2 ≡ some (last, fat'))
    × (length new ≡ 2)
    × Extended table 2 (4 ∷ []) new last fat'
extend_cluster-Extended_example =
    extend_cluster-Extended table 2 2 (4 ∷ []) table-IsChain (omega arith) (omega arith)
      (omega arith)

allocate_cluster_chain-Fresh_example :
    (first : ℕ) × (fat' : List ℕ) × (new : List ℕ) × (allocate_cluster_chain table 3
      ≡ some (first, fat'))
    × (length (first ∷ new) ≡ 3)
    × Fresh table first new fat'
allocate_cluster_chain-Fresh_example =
    allocate_cluster_chain-Fresh table 3 (omega arith) (omega arith)

-- A volume at 1 MiB with 512-byte sectors, 8 of them in a cluster.
abbrev image : ℕ
image = 0x100000

abbrev bpb : Bpb
bpb = record {
  bytes_per_sector = 512;
  sectors_per_cluster = 8;
  reserved_sector_count = 32;
  num_fats = 2;
  fat_size_32 = 1000;
  root_cluster = 2;
}

bpb-Fits : Fits image bpb 9
bpb-Fits = record {
  sectors = omega arith;
  start = omega arith;
  cluster = omega arith;
  memory = omega arith;
}

get_cluster_addr_disjoint_example :
    (get_cluster_addr image bpb 2 + bytes_per_cluster bpb ≤ get_cluster_addr image bpb 9)
    × (get_fat image bpb + 1000 * 512 ≤ get_cluster_addr image bpb 2)
get_cluster_addr_disjoint_example =
    get_cluster_addr_disjoint image bpb 2 9 (omega arith) (omega arith) (omega arith) bpb-Fits
