-- ===== src/Fat/NewChain.antt =====
-- `AllocateClusterChain`: the chain it makes out of free clusters.
use hon_os.Prelude.{
  ℕ, zero, suc, ◌+◌, ◌-◌, ◌≤◌, ◌<◌, ◌≡◌, refl, ap, ◌∙◌, List, [], ◌∷◌, some, true, false, ◌==◌, ltb,
  arith, get_elem?, set, length, count, max, get_elem?-set_self, get_elem?-set_ne, length-set, inl,
  inr, ℕ_discrete, Bool-cases,
}
use hon_os.Fat.{extend_cluster, first_free, allocate_cluster_chain, end_of_clusterchain, first_end}
use hon_os.Fat.Chains.{IsChain, end_of, free_from, free_from-step, free_from-use, get_elem?→lt}
use hon_os.Fat.Extension.{Extended, extend_cluster-Extended}

first_free-pass :
    (fuel : ℕ) (fat : List ℕ) (cluster v : ℕ)
    → get_elem? fat cluster ≡ some v
    → v == 0 ≡ false
    → first_free (suc fuel) fat cluster ≡ first_free fuel fat (cluster + 1)
unfolding first_free
first_free-pass fuel fat cluster v e u = rw (e, u) refl

-- The search for a free cluster finds one.
first_free_lem :
    (fuel : ℕ) (fat : List ℕ) (cluster : ℕ)
    → length fat ≤ fuel + cluster
    → 0 < free_from cluster fat
    → (c : ℕ) × (first_free fuel fat cluster ≡ some c) × (cluster ≤ c) × (get_elem? fat c ≡ some 0)
unfolding first_free
first_free_lem zero fat cluster f h =
    let (v, at, _) = free_from-step fat cluster h in
    absurd (omega (arith, get_elem?→lt fat cluster v at))
first_free_lem (suc fuel) fat cluster f h =
    let (v, at, counts) = free_from-step fat cluster h in
    elim (Bool-cases (v == 0)) [
      | inl free ↦ (cluster, rw (at, free) refl, omega arith, at ∙ ap some (ground arith))
      | inr used ↦
          let (c, r, l, z) = first_free_lem fuel fat (cluster + 1) (omega arith) (ground arith) in
          (c, first_free-pass fuel fat cluster v at used ∙ r, omega arith, z)
    ]

-- In `fat'`, `first` and `new` are a chain; its clusters were free in `fat`, all else is as it was.
pub record Fresh (fat : List ℕ) (first : ℕ) (new fat' : List ℕ) : Type 0 where
  pub chain : IsChain fat' (first ∷ new)
  pub free :
      (d : ℕ)
      → 0 < count d (first ∷ new)
      → (2 ≤ d) × (count d (first ∷ new) ≡ 1) × (get_elem? fat d ≡ some 0)
  pub kept : (d : ℕ) → count d (first ∷ new) ≡ 0 → get_elem? fat' d ≡ get_elem? fat d
  pub table : length fat' ≡ length fat

-- A chain of one cluster, extended.
Fresh-Extended :
    (fat : List ℕ) (first last : ℕ) (new fat' : List ℕ)
    → 2 ≤ first
    → get_elem? fat first ≡ some 0
    → Extended (set fat first end_of_clusterchain) first [] new last fat'
    → Fresh fat first new fat'
Fresh-Extended fat first last new fat' a e k = record {
  chain = k.chain;
  free = λ d x. elim (ℕ_discrete first d) [
    | yes q ↦ (
      omega arith,
      ground (arith, k.free d, get_elem?-set_self fat first end_of_clusterchain bound),
      rw (← q) e,
    )
    | no q ↦ ground (arith, k.free d, get_elem?-set_ne fat first d end_of_clusterchain)
  ];
  kept = λ d x.
      k.kept d (ground arith) (ground arith)
      ∙ get_elem?-set_ne fat first d end_of_clusterchain (ground arith);
  table = k.table ∙ length-set fat first end_of_clusterchain;
}
  where
    bound : first < length fat
    bound = get_elem?→lt fat first 0 e

Fresh-single :
    (fat : List ℕ) (first : ℕ)
    → 2 ≤ first
    → get_elem? fat first ≡ some 0
    → Fresh fat first [] (set fat first end_of_clusterchain)
Fresh-single fat first a e = record {
  chain =
      end_of first end_of_clusterchain
        (get_elem?-set_self fat first end_of_clusterchain (get_elem?→lt fat first 0 e))
        (omega arith);
  free = λ d x. elim (ℕ_discrete first d) [
    | yes q ↦ (omega arith, ground arith, rw (← q) e)
    | no q ↦ absurd (ground arith)
  ];
  kept = λ d x. get_elem?-set_ne fat first d end_of_clusterchain (ground arith);
  table = length-set fat first end_of_clusterchain;
}

allocate_single :
    (fat : List ℕ) (n first : ℕ)
    → first_free (length fat) fat 2 ≡ some first
    → ltb 1 n ≡ false
    → allocate_cluster_chain fat n ≡ some (first, set fat first end_of_clusterchain)
unfolding allocate_cluster_chain
allocate_single fat n first e l = rw (e, l) refl

allocate_more :
    (fat : List ℕ) (n first last : ℕ) (fat' : List ℕ)
    → first_free (length fat) fat 2 ≡ some first
    → ltb 1 n ≡ true
    → extend_cluster (set fat first end_of_clusterchain) first (n - 1) ≡ some (last, fat')
    → allocate_cluster_chain fat n ≡ some (first, fat')
unfolding allocate_cluster_chain
allocate_more fat n first last fat' e l x = rw (e, l, x) refl

-- `AllocateClusterChain` of `n` clusters, in a table with as many free ones, returns the first of
-- `n` clusters (of one, if `n` is 0) that were free and are a chain now; all else is as it was.
pub allocate_cluster_chain-Fresh :
    (fat : List ℕ) (n : ℕ)
    → length fat ≤ first_end
    → max 1 n ≤ free_from 2 fat
    → (first : ℕ) × (fat' : List ℕ) × (new : List ℕ) × (allocate_cluster_chain fat n
        ≡ some (first, fat'))
      × (length (first ∷ new) ≡ max 1 n)
      × Fresh fat first new fat'
allocate_cluster_chain-Fresh fat n s f =
    let (first, found, a, e) = first_free_lem (length fat) fat 2 (omega arith) (omega arith) in
    let bound = get_elem?→lt fat first 0 e in
    let fat₁ = set fat first end_of_clusterchain in
    let same : length fat₁ ≡ length fat = length-set fat first end_of_clusterchain in
    let left = free_from-use fat first end_of_clusterchain 2 (omega arith) a e in
    elim (Bool-cases (ltb 1 n)) [
      | inr small ↦ (
        first,
        fat₁,
        [],
        allocate_single fat n first found small,
        ground arith,
        Fresh-single fat first a e,
      )
      | inl large ↦
          let single =
            end_of first end_of_clusterchain
              (get_elem?-set_self fat first end_of_clusterchain bound) (omega arith) in
          let (last, fat', new, r, size, k) =
            extend_cluster-Extended fat₁ first (n - 1) [] single (omega arith) (omega arith)
              (ground arith) in
          (
            first,
            fat',
            new,
            allocate_more fat n first last fat' found large r,
            ground arith,
            Fresh-Extended fat first last new fat' a e k,
          )
    ]
