-- ===== src/Fat/Chains.antt =====
-- Chains of clusters, and what `NextCluster` and the first loop of `ExtendCluster` find on them.
use hon_os.Prelude.{
  ℕ, zero, suc, ◌+◌, ◌≤◌, ◌<◌, ◌≡◌, ◌≢◌, refl, ap, List, [], ◌∷◌, some, ◌==◌, if◌then◌else◌, arith,
  get_elem?, set, length, count, drop, ◌⊎◌, inl, inr,
}
use hon_os.Fat.{next_cluster, last_cluster, is_end_of_clusterchain, end_of_clusterchain, first_end}

-- The clusters of a chain, in order: each entry names the next cluster, the last one is an end mark.
pub data IsChain (fat : List ℕ) : List ℕ → Type 0 where
  end_of : (c e : ℕ) → get_elem? fat c ≡ some e → first_end ≤ e → IsChain fat (c ∷ [])
  link_to :
      (c d : ℕ) (cs : List ℕ)
      → get_elem? fat c ≡ some d
      → 2 ≤ d
      → d < first_end
      → IsChain fat (d ∷ cs)
      → IsChain fat (c ∷ d ∷ cs)

abbrev pub last_of : ℕ → List ℕ → ℕ
last_of c [] = c
last_of c (d ∷ ds) = last_of d ds

pub get_elem?→lt : (xs : List ℕ) (i v : ℕ) → get_elem? xs i ≡ some v → i < length xs
get_elem?→lt [] i v e = cc
get_elem?→lt (x ∷ xs) zero v e = omega arith
get_elem?→lt (x ∷ xs) (suc i) v e = omega (arith, get_elem?→lt xs i v e)

-- `NextCluster` goes along the chain, and answers with the end mark behind its last cluster.
pub next_cluster-IsChain :
    (fat : List ℕ) (c : ℕ) (cs : List ℕ)
    → IsChain fat (c ∷ cs)
    → next_cluster fat c ≡ some (elim cs [ [] ↦ end_of_clusterchain | d ∷ ds ↦ d ])
unfolding next_cluster is_end_of_clusterchain
next_cluster-IsChain fat c _ (end_of _ e h l) = ground arith
next_cluster-IsChain fat c _ (link_to _ d cs h a b k) = ground arith

pub last_cluster-IsChain :
    (fuel : ℕ) (fat : List ℕ) (c : ℕ) (cs : List ℕ)
    → IsChain fat (c ∷ cs)
    → length cs < fuel
    → last_cluster fuel fat c ≡ some (last_of c cs)
unfolding last_cluster is_end_of_clusterchain
last_cluster-IsChain zero fat c cs k f = absurd (omega arith)
last_cluster-IsChain (suc fuel) fat c _ (end_of _ e h l) f = ground arith
last_cluster-IsChain (suc fuel) fat c _ (link_to _ d cs h a b k) f =
    ground (arith, last_cluster-IsChain fuel fat d cs k)

-- The free clusters from `candidate` on.
abbrev pub free_from : ℕ → List ℕ → ℕ
free_from candidate fat = count 0 (drop candidate fat)

-- What does not turn an entry into a free one or back leaves their number.
pub free_from-set :
    (fat : List ℕ) (i v candidate : ℕ)
    → v ≢ 0
    → (i < candidate) ⊎ (get_elem? fat i ≢ some 0)
    → free_from candidate (set fat i v) ≡ free_from candidate fat
free_from-set [] i v zero h k = refl
free_from-set [] i v (suc c) h k = refl
free_from-set (x ∷ xs) zero v zero h (inl k) = absurd (omega arith)
free_from-set (x ∷ xs) zero v zero h (inr k) = ground arith
free_from-set (x ∷ xs) (suc i) v zero h (inl k) = absurd (omega arith)
free_from-set (x ∷ xs) (suc i) v zero h (inr k) =
    ap (λ n. n + (if x == 0 then 1 else 0)) (free_from-set xs i v zero h (inr k))
free_from-set (x ∷ xs) zero v (suc c) h k = refl
free_from-set (x ∷ xs) (suc i) v (suc c) h (inl k) = free_from-set xs i v c h (inl (omega arith))
free_from-set (x ∷ xs) (suc i) v (suc c) h (inr k) = free_from-set xs i v c h (inr k)

free_from-suc :
    (fat : List ℕ) (candidate : ℕ)
    → 0 < free_from candidate fat
    → (e : ℕ) × (get_elem? fat candidate ≡ some e)
      × (free_from candidate fat ≡ free_from (suc candidate) fat + (if e == 0 then 1 else 0))
free_from-suc [] zero h = absurd (omega arith)
free_from-suc [] (suc c) h = absurd (omega arith)
free_from-suc (x ∷ xs) zero h = (x, refl, refl)
free_from-suc (x ∷ xs) (suc c) h = free_from-suc xs c h

-- The entry at `candidate` and the free clusters behind it.
pub free_from-step :
    (fat : List ℕ) (candidate : ℕ)
    → 0 < free_from candidate fat
    → (e : ℕ) × (get_elem? fat candidate ≡ some e)
      × (free_from candidate fat ≡ free_from (candidate + 1) fat + (if e == 0 then 1 else 0))
free_from-step fat candidate h =
    let next : candidate + 1 ≡ suc candidate = omega arith in
    rw next (free_from-suc fat candidate h)

-- A free cluster that is taken into use.
pub free_from-use :
    (fat : List ℕ) (i v candidate : ℕ)
    → v ≢ 0
    → candidate ≤ i
    → get_elem? fat i ≡ some 0
    → free_from candidate fat ≡ suc (free_from candidate (set fat i v))
free_from-use [] i v c h l e = absurd (cc)
free_from-use (x ∷ xs) zero v zero h l e = ground arith
free_from-use (x ∷ xs) (suc i) v zero h l e =
    omega (arith, free_from-use xs i v zero h (omega arith) e)
free_from-use (x ∷ xs) zero v (suc c) h l e = absurd (omega arith)
free_from-use (x ∷ xs) (suc i) v (suc c) h l e = free_from-use xs i v c h (omega arith) e

-- The last entry of a chain is an end mark.
pub last_of-IsChain :
    (fat : List ℕ) (c : ℕ) (cs : List ℕ)
    → IsChain fat (c ∷ cs)
    → (e : ℕ) × (get_elem? fat (last_of c cs) ≡ some e) × (first_end ≤ e)
last_of-IsChain fat c _ (end_of _ e h l) = (e, h, l)
last_of-IsChain fat c _ (link_to _ d cs h a b k) = last_of-IsChain fat d cs k
