-- ===== src/Fat/Addresses.antt =====
-- Where the table and the clusters stand in the volume image, for an image that fits into memory.
use hon_os.Prelude.{
  ℕ, ◌+◌, ◌-◌, ◌*◌, ◌^◌, ◌%◌, ◌≤◌, ◌<◌, ◌≡◌, ◌∙◌, refl, arith, add64-eq, sub64-eq, mul64-eq, add64,
  sub64, mul64,
}
use hon_os.Fat.{Bpb, bytes_per_cluster, get_cluster_addr, get_fat}
use native.Mathlib.Nat.{mul-le-mul_right, add-mul, mul_comm}

-- The sectors before cluster 2, and those before cluster `c`.
abbrev pub data_start : Bpb → ℕ
data_start b = b.reserved_sector_count + b.num_fats * b.fat_size_32

abbrev pub sector_of : Bpb → ℕ → ℕ
sector_of b c = data_start b + (c - 2) * b.sectors_per_cluster

-- All up to the end of cluster `c` lies in the memory.
pub record Fits (image : ℕ) (b : Bpb) (c : ℕ) : Type 0 where
  pub sectors : 1 ≤ b.bytes_per_sector
  pub start : data_start b < 2 ^ 32
  pub cluster : c < 2 ^ 64
  pub memory : image + (sector_of b c + b.sectors_per_cluster) * b.bytes_per_sector < 2 ^ 64

le_times : (n b : ℕ) → 1 ≤ b → n ≤ n * b
le_times n b h = grind arith

room : (m n s : ℕ) → m < n → m * s + s ≤ n * s
room m n s h = grind arith

-- No operation of the address of cluster `c` wraps.
linear :
    (image start n s b c : ℕ)
    → c < 2 ^ 64
    → 2 ≤ c
    → c - 2 ≡ n
    → start < 2 ^ 32
    → 1 ≤ b
    → image + (start + n * s + s) * b < 2 ^ 64
    → add64 image (mul64 (add64 (start % 2 ^ 32) (mul64 (sub64 c 2) s)) b)
      ≡ image + (start + n * s) * b
linear image start n s b c big l e small h fits =
    let unwrapped : start % 2 ^ 32 ≡ start = omega arith in
    let total : (start + n * s + s) * b ≡ (start + n * s) * b + s * b = grind arith in
    let wide : start + n * s ≤ (start + n * s) * b = le_times (start + n * s) b h in
    let sub = sub64-eq c 2 big l ∙ e in
    let mul = mul64-eq n s (omega arith) in
    let add = add64-eq start (n * s) (omega arith) in
    rw (sub, mul, unwrapped, add, mul64-eq (start + n * s) b (omega arith))
      (add64-eq image ((start + n * s) * b) (omega arith))

get_cluster_addr-eq :
    (image : ℕ) (b : Bpb) (c : ℕ)
    → 2 ≤ c
    → Fits image b c
    → get_cluster_addr image b c ≡ image + sector_of b c * b.bytes_per_sector
unfolding get_cluster_addr
get_cluster_addr-eq image b c l k =
    linear image (data_start b) (c - 2) b.sectors_per_cluster b.bytes_per_sector c k.cluster l refl
      k.start k.sectors k.memory

sector_of_lem :
    (b : Bpb) (c d : ℕ)
    → 2 ≤ c
    → c < d
    → (sector_of b c + b.sectors_per_cluster) * b.bytes_per_sector
      ≤ sector_of b d * b.bytes_per_sector
sector_of_lem b c d l h =
    let step = room (c - 2) (d - 2) b.sectors_per_cluster (omega arith) in
    mul-le-mul_right b.bytes_per_sector (omega arith)

-- An earlier cluster fits as well.
Fits-earlier : (image : ℕ) (b : Bpb) (c d : ℕ) → 2 ≤ c → c < d → Fits image b d → Fits image b c
Fits-earlier image b c d l h k = record {
  sectors = k.sectors;
  start = k.start;
  cluster = omega (arith, k.cluster);
  memory =
      let apart = sector_of_lem b c d l h in
      let last = add-mul (sector_of b d) b.sectors_per_cluster b.bytes_per_sector in
      omega (arith, k.memory);
}

-- In an image that fits into memory up to cluster `d`, an earlier cluster ends where `d` starts, or
-- before, and the first copy of the file allocation table ends before each cluster.
pub get_cluster_addr_disjoint :
    (image : ℕ) (b : Bpb) (c d : ℕ)
    → 2 ≤ c
    → c < d
    → 1 ≤ b.num_fats
    → Fits image b d
    → (get_cluster_addr image b c + bytes_per_cluster b ≤ get_cluster_addr image b d)
      × (get_fat image b + b.fat_size_32 * b.bytes_per_sector ≤ get_cluster_addr image b c)
unfolding bytes_per_cluster get_fat
get_cluster_addr_disjoint image b c d l h n k =
    let at_c = get_cluster_addr-eq image b c l (Fits-earlier image b c d l h k) in
    let at_d = get_cluster_addr-eq image b d (omega arith) k in
    let apart = sector_of_lem b c d l h in
    let size = add-mul (sector_of b c) b.sectors_per_cluster b.bytes_per_sector in
    let last = add-mul (sector_of b d) b.sectors_per_cluster b.bytes_per_sector in
    let turned = mul_comm b.bytes_per_sector b.sectors_per_cluster in
    let bytes = mul64-eq b.bytes_per_sector b.sectors_per_cluster (omega (arith, k.memory)) in
    let copies = le_times b.fat_size_32 b.num_fats n in
    let swapped = mul_comm b.fat_size_32 b.num_fats in
    let before : (b.reserved_sector_count + b.fat_size_32) * b.bytes_per_sector
        ≤ sector_of b c * b.bytes_per_sector =
      mul-le-mul_right b.bytes_per_sector (omega arith) in
    let table = add-mul b.reserved_sector_count b.fat_size_32 b.bytes_per_sector in
    let address =
      add64-eq image (b.reserved_sector_count * b.bytes_per_sector) (omega (arith, k.memory)) in
    (omega arith, omega arith)
