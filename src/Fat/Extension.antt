-- ===== src/Fat/Extension.antt =====
-- What `ExtendCluster` promises of a table with enough free clusters.
use hon_os.Prelude.{
  ℕ, ◌≤◌, ◌<◌, ◌≡◌, ◌≢◌, ap, ◌∙◌, List, ◌∷◌, ◌++◌, some, arith, get_elem?, length, count, inr,
  ◌>>=◌,
}
use hon_os.Fat.{link_free, extend_cluster, first_end}
use hon_os.Fat.Chains.{
  IsChain, end_of, link_to, last_of, free_from, get_elem?→lt, last_cluster-IsChain, last_of-IsChain,
}
use hon_os.Fat.Allocation.{Linked, link_free-Linked}

-- A chain whose last cluster is `current` goes on with what was linked there.
IsChain-append :
    (fat : List ℕ) (candidate c n last : ℕ) (cs new fat' : List ℕ)
    → IsChain fat (c ∷ cs)
    → Linked fat candidate (last_of c cs) n new last fat'
    → IsChain fat' (c ∷ (cs ++ new))
IsChain-append fat candidate c n last _ new fat' (end_of _ e h l) k = k.chain
IsChain-append fat candidate c n last _ new fat' (link_to _ d cs h a b ch) k =
    let (e, at, l) = last_of-IsChain fat d cs ch in
    let differs : c ≢ last_of d cs = λ q. ground (arith, ap (get_elem? fat) q) in
    let unlinked : count c new ≡ 0 = ground (arith, k.free c) in
    link_to c d (cs ++ new) (k.kept c differs unlinked ∙ h) a b
      (IsChain-append fat candidate d n last cs new fat' ch k)

-- A chain that `current` is not on stays a chain.
IsChain-other :
    (fat : List ℕ) (candidate current n last c : ℕ) (cs new fat' : List ℕ)
    → IsChain fat (c ∷ cs)
    → count current (c ∷ cs) ≡ 0
    → Linked fat candidate current n new last fat'
    → IsChain fat' (c ∷ cs)
IsChain-other fat candidate current n last c _ new fat' (end_of _ e h l) z k =
    end_of c e (k.kept c (ground arith) (ground (arith, k.free c)) ∙ h) l
IsChain-other fat candidate current n last c _ new fat' (link_to _ d cs h a b ch) z k =
    link_to c d cs (k.kept c (ground arith) (ground (arith, k.free c)) ∙ h) a b
      (IsChain-other fat candidate current n last d cs new fat' ch (ground arith) k)

-- From `fat` to `fat'`, the chain `cs` got the `n` clusters `new`, which were free; all entries but
-- that of its last cluster and theirs are as they were, and so is each chain with another end.
pub record Extended (fat : List ℕ) (c : ℕ) (cs new : List ℕ) (last : ℕ) (fat' : List ℕ)
    : Type 0 where
  pub chain : IsChain fat' (c ∷ (cs ++ new))
  pub ends : last_of (last_of c cs) new ≡ last
  pub free : (d : ℕ) → 0 < count d new → (2 ≤ d) × (count d new ≡ 1) × (get_elem? fat d ≡ some 0)
  pub kept : (d : ℕ) → d ≢ last_of c cs → count d new ≡ 0 → get_elem? fat' d ≡ get_elem? fat d
  pub others :
      (d : ℕ) (ds : List ℕ)
      → IsChain fat (d ∷ ds)
      → count (last_of c cs) (d ∷ ds) ≡ 0
      → IsChain fat' (d ∷ ds)
  pub table : length fat' ≡ length fat

-- `ExtendCluster` on a cluster of a chain, in a table with `n` free clusters, returns; it links `n`
-- clusters that were free behind the chain, returns the last of them, and keeps all other chains.
pub extend_cluster-Extended :
    (fat : List ℕ) (c n : ℕ) (cs : List ℕ)
    → IsChain fat (c ∷ cs)
    → length cs < length fat
    → length fat ≤ first_end
    → n ≤ free_from 2 fat
    → (last : ℕ) × (fat' : List ℕ) × (new : List ℕ) × (extend_cluster fat c n ≡ some (last, fat'))
      × (length new ≡ n)
      × Extended fat c cs new last fat'
unfolding extend_cluster
extend_cluster-Extended fat c n cs ch l s f =
    let (e, at, over) = last_of-IsChain fat c cs ch in
    let (last, fat', new, r, k) =
      link_free-Linked (length fat) fat 2 (last_of c cs) n s (omega arith)
        (get_elem?→lt fat (last_of c cs) e at) (inr (ground arith)) (omega arith) f in
    (
      last,
      fat',
      new,
      ap (λ o. o >>= λ eoc. link_free (length fat) fat 2 eoc n)
            (last_cluster-IsChain (length fat) fat c cs ch l)
          ∙ r,
      k.size,
      record {
        chain = IsChain-append fat 2 c n last cs new fat' ch k;
        ends = k.ends;
        free = k.free;
        kept = k.kept;
        others = λ d ds h z. IsChain-other fat 2 (last_of c cs) n last d ds new fat' h z k;
        table = k.table;
      },
    )
