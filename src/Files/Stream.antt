-- ===== src/Files/Stream.antt =====
-- A file as a stream: the bytes along its chain of clusters, and a position in them.
use hon_os.Prelude.{
  ℕ, ◌+◌, ◌≤◌, ◌<◌, ◌≡◌, ◌≢◌, refl, ap, sym, ◌∙◌, List, [], ◌∷◌, ◌++◌, Option, some, ◌==◌,
  if◌then◌else◌, arith, length, take, drop, ◌>>=◌, ℕ_discrete,
}
use hon_os.Prelude.Slices.{length-drop, take-append, drop-append, drop-drop, drop_append_self}
use hon_os.Fat.{next_cluster, end_of_clusterchain}
use hon_os.Fat.Chains.{IsChain, end_of, link_to, next_cluster-IsChain}
use hon_os.Files.{Volume}

-- Clusters hold `bytes_per_cluster` bytes each.
pub record IsVolume (v : Volume) : Type 0 where
  pub some_bytes : 0 < v.bytes_per_cluster
  pub whole : (c : ℕ) → length (v.content c) ≡ v.bytes_per_cluster

abbrev pub chain_bytes : Volume → List ℕ → List ℕ
chain_bytes v [] = []
chain_bytes v (c ∷ cs) = v.content c ++ chain_bytes v cs

-- From offset `off` of cluster `c` on, the bytes that follow are `bytes`. No file has cluster 0.
pub data At (v : Volume) : ℕ → ℕ → List ℕ → Type 0 where
  at_end : (c off : ℕ) → c ≢ 0 → At v c off []
  inside :
      (c off : ℕ) (cs bytes : List ℕ)
      → c ≢ 0
      → IsChain v.fat (c ∷ cs)
      → off < v.bytes_per_cluster
      → bytes ≡ drop off (v.content c ++ chain_bytes v cs)
      → At v c off bytes

pub At-ne : {c off : ℕ} {bytes : List ℕ} (v : Volume) → At v c off bytes → c ≢ 0
At-ne v (at_end _ _ z) = z
At-ne v (inside _ _ cs _ z k h e) = z

-- Where one round of the loop of `Read` leads to.
abbrev pub turn : Volume → ℕ → ℕ → ℕ → Option (ℕ × ℕ)
turn v c off n =
    if off + n == v.bytes_per_cluster
    then (next_cluster v.fat c >>= λ next. some (next, 0))
    else some (c, off + n)

module _ (v : Volume) (w : IsVolume v) where
  pub first_bytes :
      (c off n : ℕ) (cs : List ℕ)
      → off + n ≤ v.bytes_per_cluster
      → take n (drop off (v.content c)) ≡ take n (drop off (v.content c ++ chain_bytes v cs))
  first_bytes c off n cs h =
      let size = w.whole c in
      let short = length-drop off (v.content c) in
      sym (
        ap (take n) (drop-append off (v.content c) (chain_bytes v cs) (omega arith))
        ∙ take-append n (drop off (v.content c)) (chain_bytes v cs) (omega arith))

  -- Behind the last byte of a cluster the next cluster starts.
  pub after_cluster :
      (c off n : ℕ) (cs : List ℕ)
      → off + n ≡ v.bytes_per_cluster
      → drop n (drop off (v.content c ++ chain_bytes v cs)) ≡ chain_bytes v cs
  after_cluster c off n cs h =
      drop-drop off n (length (v.content c)) (v.content c ++ chain_bytes v cs) (h ∙ sym (w.whole c))
      ∙ drop_append_self (v.content c) (chain_bytes v cs)

  pub next_At :
      (c : ℕ) (cs : List ℕ)
      → IsChain v.fat (c ∷ cs)
      → (next : ℕ) × (next_cluster v.fat c ≡ some next) × At v next 0 (chain_bytes v cs)
  next_At c _ (end_of _ e h l) = (
    end_of_clusterchain,
    next_cluster-IsChain v.fat c [] (end_of c e h l),
    at_end end_of_clusterchain 0 (omega arith),
  )
  next_At c _ (link_to _ d cs h a b k) = (
    d,
    next_cluster-IsChain v.fat c (d ∷ cs) (link_to c d cs h a b k),
    inside d 0 cs (chain_bytes v (d ∷ cs)) (omega arith) k w.some_bytes refl,
  )

  pub turn-At :
      (c off n : ℕ) (cs bytes : List ℕ)
      → c ≢ 0
      → IsChain v.fat (c ∷ cs)
      → off + n ≤ v.bytes_per_cluster
      → bytes ≡ drop off (v.content c ++ chain_bytes v cs)
      → (c' off' : ℕ) × (turn v c off n ≡ some (c', off')) × At v c' off' (drop n bytes)
  turn-At c off n cs bytes z k h e = elim (ℕ_discrete (off + n) v.bytes_per_cluster) [
    | yes full ↦
        let (next, r, a) = next_At c cs k in
        let rest = ap (drop n) e ∙ after_cluster c off n cs full in
        (next, 0, ground (arith, r), rw rest a)
    | no part ↦ (
      c,
      off + n,
      ground arith,
      inside c (off + n) cs (drop n bytes) z k (omega arith)
          (ap (drop n) e ∙ drop-drop off n (off + n) (v.content c ++ chain_bytes v cs) refl),
    )
  ]
