-- ===== src/Fat/Allocation.antt =====
-- `ExtendCluster` and `AllocateClusterChain`: the clusters they link, and what they leave alone.
use hon_os.Prelude.{
  ℕ, zero, suc, ◌+◌, ◌^◌, ◌%◌, ◌≤◌, ◌<◌, ◌≡◌, ◌≢◌, refl, ap, sym, ◌∙◌, List, [], ◌∷◌, some, false,
  ◌==◌, arith, get_elem?, set, length, count, get_elem?-set_self, get_elem?-set_ne, length-set, inl,
  inr, ℕ_discrete, Bool-cases, ◌⊎◌,
}
use hon_os.Fat.{link_free, end_of_clusterchain, first_end}
use hon_os.Fat.Chains.{
  IsChain, end_of, link_to, free_from, free_from-set, free_from-step, last_of, get_elem?→lt,
}

-- From `fat` to `fat'`, the `n` free clusters `new`, from `candidate` on, are a chain behind
-- `current`, which ends with `last`; all else is as it was.
pub record Linked (fat : List ℕ) (candidate current n : ℕ) (new : List ℕ) (last : ℕ) (fat' : List ℕ)
    : Type 0 where
  pub chain : IsChain fat' (current ∷ new)
  pub size : length new ≡ n
  pub ends : last_of current new ≡ last
  pub free :
      (c : ℕ) → 0 < count c new → (candidate ≤ c) × (count c new ≡ 1) × (get_elem? fat c ≡ some 0)
  pub kept : (c : ℕ) → c ≢ current → count c new ≡ 0 → get_elem? fat' c ≡ get_elem? fat c
  pub table : length fat' ≡ length fat

-- What was not linked behind `candidate` differs from `current`, which points to it.
Linked-current :
    (fat : List ℕ) (candidate current n : ℕ) (new : List ℕ) (last : ℕ) (fat' : List ℕ)
    → 2 ≤ candidate
    → current < length fat
    → Linked (set fat current candidate) (candidate + 1) candidate n new last fat'
    → (c : ℕ) → 0 < count c new
    → current ≢ c
Linked-current fat candidate current n new last fat' a h k c x e =
    ground (arith, k.free c x, get_elem?-set_self fat current candidate h)

-- One more free cluster, `candidate`, before those that were linked behind it.
Linked-take :
    (fat : List ℕ) (candidate current n : ℕ) (new : List ℕ) (last : ℕ) (fat' : List ℕ)
    → 2 ≤ candidate
    → candidate < first_end
    → current < length fat
    → current ≢ candidate
    → get_elem? fat candidate ≡ some 0
    → Linked (set fat current candidate) (candidate + 1) candidate n new last fat'
    → Linked fat candidate current (suc n) (candidate ∷ new) last fat'
Linked-take fat candidate current n new last fat' a b h ne e k = record {
  chain =
      link_to current candidate new
        (k.kept current ne (ground (arith, other current))
          ∙ get_elem?-set_self fat current candidate h)
        a b k.chain;
  size = ap suc k.size;
  ends = k.ends;
  free = λ c x. elim (ℕ_discrete candidate c) [
    | yes q ↦ (omega arith, ground (arith, k.free c), rw (← q) e)
    | no q ↦ ground (arith, k.free c, other c, get_elem?-set_ne fat current c candidate)
  ];
  kept = λ c x y.
      k.kept c (ground arith) (ground arith)
      ∙ get_elem?-set_ne fat current c candidate (λ q. x (sym q));
  table = k.table ∙ length-set fat current candidate;
}
  where
    other : (c : ℕ) → 0 < count c new → current ≢ c
    other = Linked-current fat candidate current n new last fat' a h k

-- `current` is no candidate: they have passed it, or it is in use.
abbrev pub IsBehind : List ℕ → ℕ → ℕ → Type 0
IsBehind fat candidate current = (current < candidate) ⊎ (get_elem? fat current ≢ some 0)

IsBehind-ne :
    (fat : List ℕ) (candidate current : ℕ)
    → IsBehind fat candidate current
    → get_elem? fat candidate ≡ some 0
    → current ≢ candidate
IsBehind-ne fat candidate current (inl l) e = λ q. omega arith
IsBehind-ne fat candidate current (inr u) e = λ q. u (rw q e)

IsBehind-later :
    (fat : List ℕ) (candidate current : ℕ)
    → IsBehind fat candidate current
    → IsBehind fat (candidate + 1) current
IsBehind-later fat candidate current (inl l) = inl (omega arith)
IsBehind-later fat candidate current (inr u) = inr u

Linked-earlier :
    (fat : List ℕ) (candidate current n : ℕ) (new : List ℕ) (last : ℕ) (fat' : List ℕ)
    → Linked fat (candidate + 1) current n new last fat'
    → Linked fat candidate current n new last fat'
Linked-earlier fat candidate current n new last fat' k = record {
  chain = k.chain;
  size = k.size;
  ends = k.ends;
  free = λ c x. (omega (arith, (k.free c x).0), (k.free c x).1, (k.free c x).2);
  kept = k.kept;
  table = k.table;
}

link_free-take :
    (fuel : ℕ) (fat : List ℕ) (candidate current n : ℕ)
    → get_elem? fat candidate ≡ some 0
    → candidate < 2 ^ 32
    → link_free (suc fuel) fat candidate current (suc n)
      ≡ link_free fuel (set fat current candidate) (candidate + 1) candidate n
unfolding link_free
link_free-take fuel fat candidate current n e l =
    let small : candidate % 2 ^ 32 ≡ candidate = omega arith in rw (e, small) refl

link_free-pass :
    (fuel : ℕ) (fat : List ℕ) (candidate current n v : ℕ)
    → get_elem? fat candidate ≡ some v
    → v == 0 ≡ false
    → link_free (suc fuel) fat candidate current (suc n)
      ≡ link_free fuel fat (candidate + 1) current (suc n)
unfolding link_free
link_free-pass fuel fat candidate current n v e u = rw (e, u) refl

-- With `n` free clusters from `candidate` on, and enough fuel, `n` of them are linked.
pub link_free-Linked :
    (fuel : ℕ) (fat : List ℕ) (candidate current n : ℕ)
    → length fat ≤ first_end
    → 2 ≤ candidate
    → current < length fat
    → IsBehind fat candidate current
    → length fat ≤ fuel + candidate
    → n ≤ free_from candidate fat
    → (last : ℕ) × (fat' : List ℕ) × (new : List ℕ) × (link_free fuel fat candidate current n
        ≡ some (last, fat'))
      × Linked fat candidate current n new last fat'
unfolding link_free
link_free-Linked fuel fat candidate current zero s a h w f e = (
  current,
  set fat current end_of_clusterchain,
  [],
  refl,
  record {
    chain = end_of current end_of_clusterchain (get_elem?-set_self fat current _ h) (omega arith);
    size = refl;
    ends = refl;
    free = λ c x. absurd (omega arith);
    kept = λ c x y. get_elem?-set_ne fat current c _ (λ q. x (sym q));
    table = length-set fat current _;
  },
)
link_free-Linked zero fat candidate current (suc n) s a h w f e =
    let (v, at, _) = free_from-step fat candidate (omega arith) in
    absurd (omega (arith, get_elem?→lt fat candidate v at))
link_free-Linked (suc fuel) fat candidate current (suc n) s a h w f e =
    let (v, at, counts) = free_from-step fat candidate (omega arith) in
    let below = get_elem?→lt fat candidate v at in
    elim (Bool-cases (v == 0)) [
      | inl free ↦
          let zero_at : get_elem? fat candidate ≡ some 0 = at ∙ ap some (ground arith) in
          let differs : current ≢ candidate = IsBehind-ne fat candidate current w zero_at in
          let same = length-set fat current candidate in
          let counts' =
            free_from-set fat current candidate (candidate + 1) (omega arith)
              (IsBehind-later fat candidate current w) in
          let (last, fat', new, r, k) =
            link_free-Linked fuel (set fat current candidate) (candidate + 1) candidate n
              (omega arith) (omega arith) (omega arith) (inl (omega arith)) (omega arith)
              (ground arith) in
          (
            last,
            fat',
            candidate ∷ new,
            link_free-take fuel fat candidate current n zero_at (omega arith) ∙ r,
            Linked-take fat candidate current n new last fat' a (omega arith) h differs zero_at k,
          )
      | inr used ↦
          let (last, fat', new, r, k) =
            link_free-Linked fuel fat (candidate + 1) current (suc n) s (omega arith) h
              (IsBehind-later fat candidate current w) (omega arith) (ground arith) in
          (
            last,
            fat',
            new,
            link_free-pass fuel fat candidate current n v at used ∙ r,
            Linked-earlier fat candidate current (suc n) new last fat' k,
          )
    ]
