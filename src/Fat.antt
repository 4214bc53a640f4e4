-- ===== src/Fat.antt =====
-- kernel/fat.hpp and kernel/fat.cpp: where the clusters of a FAT32 volume stand, and its chains of
-- clusters. The file allocation table is the list of its 32-bit entries. `none` is undefined behaviour
-- of the source: an access outside the table. It is also the result of a walk along a chain that
-- does not end.
pub mod Chains
pub mod Allocation
pub mod Extension
pub mod NewChain
pub mod Addresses
mod Tests
use hon_os.Prelude.{
  ℕ, zero, suc, ◌+◌, List, Option, none, some, Bool, true, false, ◌==◌, ltb, leb, if◌then◌else◌,
  get_elem?, set, length, add64, sub64, mul64, ◌*◌, ◌%◌, ◌^◌, ◌-◌, ◌>>=◌,
}

-- The fields of the volume's first sector that the kernel reads.
pub record Bpb : Type 0 where
  pub bytes_per_sector : ℕ
  pub sectors_per_cluster : ℕ
  pub reserved_sector_count : ℕ
  pub num_fats : ℕ
  pub fat_size_32 : ℕ
  pub root_cluster : ℕ

-- `Initialize`: the number of bytes in a cluster.
pub bytes_per_cluster : Bpb → ℕ
bytes_per_cluster b = mul64 b.bytes_per_sector b.sectors_per_cluster

-- `GetClusterAddr`, for a volume image at the address `image`.
pub get_cluster_addr : ℕ → Bpb → ℕ → ℕ
get_cluster_addr image b cluster =
    let sector_num =
      add64 ((b.reserved_sector_count + b.num_fats * b.fat_size_32) % 2 ^ 32)
        (mul64 (sub64 cluster 2) b.sectors_per_cluster) in
    add64 image (mul64 sector_num b.bytes_per_sector)

-- The address that `GetFAT` returns.
pub get_fat : ℕ → Bpb → ℕ
get_fat image b = add64 image (b.reserved_sector_count * b.bytes_per_sector)

abbrev pub end_of_clusterchain : ℕ
end_of_clusterchain = 0x0fffffff

-- The least entry that ends a chain.
abbrev pub first_end : ℕ
first_end = 0x0ffffff8

pub is_end_of_clusterchain : ℕ → Bool
is_end_of_clusterchain cluster = leb first_end cluster

pub next_cluster : List ℕ → ℕ → Option ℕ
next_cluster fat cluster = get_elem? fat cluster >>= λ next.
    some (if is_end_of_clusterchain next then end_of_clusterchain else next)

-- The first loop of `ExtendCluster`, with fuel: the last cluster of the chain.
pub last_cluster : ℕ → List ℕ → ℕ → Option ℕ
last_cluster zero fat cluster = none
last_cluster (suc fuel) fat cluster = get_elem? fat cluster >>= λ next.
    let rest = last_cluster fuel fat next in
    if is_end_of_clusterchain next then some cluster else rest

-- The second loop of `ExtendCluster`: `n` free clusters, from `candidate` on, are linked behind
-- `current`. The fuel bounds the candidates.
pub link_free : ℕ → List ℕ → ℕ → ℕ → ℕ → Option (ℕ × List ℕ)
link_free fuel fat candidate current zero = some (current, set fat current end_of_clusterchain)
link_free zero fat candidate current (suc n) = none
link_free (suc fuel) fat candidate current (suc n) = get_elem? fat candidate >>= λ entry.
    let taken = link_free fuel (set fat current (candidate % 2 ^ 32)) (candidate + 1) candidate n in
    let passed = link_free fuel fat (candidate + 1) current (suc n) in
    if entry == 0 then taken else passed

-- The last cluster of the longer chain, and the table.
pub extend_cluster : List ℕ → ℕ → ℕ → Option (ℕ × List ℕ)
extend_cluster fat eoc_cluster n =
    last_cluster (length fat) fat eoc_cluster >>= λ eoc. link_free (length fat) fat 2 eoc n

-- The loop of `AllocateClusterChain`: the first free cluster from `cluster` on.
pub first_free : ℕ → List ℕ → ℕ → Option ℕ
first_free zero fat cluster = none
first_free (suc fuel) fat cluster = get_elem? fat cluster >>= λ entry.
    let rest = first_free fuel fat (cluster + 1) in if entry == 0 then some cluster else rest

-- The first cluster of the new chain, and the table.
pub allocate_cluster_chain : List ℕ → ℕ → Option (ℕ × List ℕ)
allocate_cluster_chain fat n = first_free (length fat) fat 2 >>= λ first.
    let fat' = set fat first end_of_clusterchain in
    let extended = extend_cluster fat' first (n - 1) in
    if ltb 1 n then (extended >>= λ (last, fat''). some (first, fat'')) else some (first, fat')
