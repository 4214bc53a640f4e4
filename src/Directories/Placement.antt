-- ===== src/Directories/Placement.antt =====
-- Where `AllocateEntry` finds a place for an entry.
use hon_os.Prelude.{
  ℕ, zero, suc, ◌+◌, ◌*◌, ◌≤◌, ◌<◌, ◌≡◌, ◌≢◌, refl, sym, ◌∙◌, ◌⊎◌, inl, inr, List, [], ◌∷◌, none,
  some, true, false, ◌==◌, ◌||◌, arith, length, length-replicate, replicate, get_elem?, Bool-cases,
  Option-cases, ℕ_discrete, count, dec_lt,
}
use hon_os.Fat.{next_cluster, extend_cluster, end_of_clusterchain, first_end}
use hon_os.Fat.Chains.{IsChain, end_of, link_to, free_from, next_cluster-IsChain}
use hon_os.Fat.Extension.{Extended, extend_cluster-Extended}
use hon_os.Files.{Volume}
use hon_os.Files.Stream.{IsVolume}
use hon_os.Directories.{
  entry_size, entry_at, mark, entries_per_cluster, free_entry, or_further, allocate_entry,
}
use hon_os.Tasks.Queues.{update}

free_entry-first :
    (v : Volume) (c i left : ℕ)
    → (mark (entry_at v c i) == 0 || mark (entry_at v c i) == 0xe5) ≡ true
    → free_entry v c i (suc left) ≡ some i
unfolding free_entry
free_entry-first v c i left free = rw free refl

free_entry-next :
    (v : Volume) (c i left : ℕ)
    → (mark (entry_at v c i) == 0 || mark (entry_at v c i) == 0xe5) ≡ false
    → free_entry v c i (suc left) ≡ free_entry v c (i + 1) left
unfolding free_entry
free_entry-next v c i left used = rw used refl

free_entry_end : (v : Volume) (c i : ℕ) → free_entry v c i zero ≡ none
unfolding free_entry
free_entry_end v c i = refl

free_entry-lt :
    (v : Volume) (c i left j : ℕ)
    → free_entry v c i left ≡ some j
    → (j < i + left) × ((mark (entry_at v c j) == 0 || mark (entry_at v c j) == 0xe5) ≡ true)
free_entry-lt v c i zero j e = absurd (cc (e, free_entry_end v c i))
free_entry-lt v c i (suc left) j e =
    elim (Bool-cases (mark (entry_at v c i) == 0 || mark (entry_at v c i) == 0xe5)) [
      | inl free ↦
          let same : i ≡ j = cc (e, free_entry-first v c i left free) in
          (omega arith, rw (← same) free)
      | inr used ↦
          let (below, free) =
            free_entry-lt v c (i + 1) left j (sym (free_entry-next v c i left used) ∙ e) in
          (omega arith, free)
    ]

-- The place is an unused entry of a cluster in use, or in a cluster that was free. Clusters in use
-- keep their bytes.
pub record Allocated (v : Volume) (c i : ℕ) (v' : Volume) : Type 0 where
  pub room : entry_size * i + entry_size ≤ v'.bytes_per_cluster
  pub unused :
      ((mark (entry_at v c i) == 0 || mark (entry_at v c i) == 0xe5) ≡ true)
      ⊎ (get_elem? v.fat c ≡ some 0)
  pub kept : (d : ℕ) → get_elem? v.fat d ≢ some 0 → v'.content d ≡ v.content d
  pub volume : IsVolume v'

-- The place is in the chain of the directory, in the table after the call. Each cluster that had
-- another behind it still has that one.
pub record Placed (v : Volume) (parent place : ℕ) (v' : Volume) : Type 0 where
  pub clusters : List ℕ
  pub chain : IsChain v'.fat (parent ∷ clusters)
  pub linked : 0 < count place (parent ∷ clusters)
  pub links :
      (d e : ℕ) → get_elem? v.fat d ≡ some e → 0 < e → e < first_end → get_elem? v'.fat d ≡ some e

here-Placed : (v : Volume) (c : ℕ) (cs : List ℕ) → IsChain v.fat (c ∷ cs) → Placed v c c v
here-Placed v c cs k = record {
  clusters = cs;
  chain = k;
  linked = ground arith;
  links = λ d e at some_next inside. at;
}

further-Placed :
    (v v' : Volume) (c d place : ℕ)
    → get_elem? v.fat c ≡ some d
    → 2 ≤ d
    → d < first_end
    → Placed v d place v'
    → Placed v c place v'
further-Placed v v' c d place at a b p = record {
  clusters = d ∷ p.clusters;
  chain = link_to c d p.clusters (p.links c d at (omega arith) b) a b p.chain;
  linked = (let more = p.linked in ground (arith, more));
  links = p.links;
}

allocate_here :
    (fuel : ℕ) (v : Volume) (c i : ℕ)
    → free_entry v c 0 (entries_per_cluster v) ≡ some i
    → allocate_entry (suc fuel) v c ≡ some ((c, i), v)
unfolding allocate_entry or_further
allocate_here fuel v c i e = rw e refl

allocate_further :
    (fuel : ℕ) (v : Volume) (c next : ℕ)
    → free_entry v c 0 (entries_per_cluster v) ≡ none
    → next_cluster v.fat c ≡ some next
    → (next == end_of_clusterchain) ≡ false
    → allocate_entry (suc fuel) v c ≡ allocate_entry fuel v next
unfolding allocate_entry or_further
allocate_further fuel v c next e n d = rw (e, n, d) refl

-- The volume with one more cluster, all of whose bytes are 0.
abbrev pub with_cluster : Volume → ℕ → List ℕ → Volume
with_cluster v last fat = record v {
  fat = fat;
  content = update v.content last (replicate v.bytes_per_cluster 0);
}

allocate_extended :
    (fuel : ℕ) (v : Volume) (c last : ℕ) (fat : List ℕ)
    → free_entry v c 0 (entries_per_cluster v) ≡ none
    → next_cluster v.fat c ≡ some end_of_clusterchain
    → extend_cluster v.fat c 1 ≡ some (last, fat)
    → allocate_entry (suc fuel) v c ≡ some ((last, 0), with_cluster v last fat)
unfolding allocate_entry or_further
allocate_extended fuel v c last fat e n x = rw (e, n, x) refl

-- Room for the entry that was found.
found_room :
    (v : Volume) (c i : ℕ)
    → free_entry v c 0 (entries_per_cluster v) ≡ some i
    → entry_size * i + entry_size ≤ v.bytes_per_cluster
found_room v c i e =
    let (below, free) = free_entry-lt v c 0 (entries_per_cluster v) i e in omega arith

here-Allocated :
    (v : Volume) (c i : ℕ)
    → IsVolume v
    → free_entry v c 0 (entries_per_cluster v) ≡ some i
    → Allocated v c i v
here-Allocated v c i w e = record {
  room = found_room v c i e;
  unused = inl ((free_entry-lt v c 0 (entries_per_cluster v) i e).1);
  kept = λ d h. refl;
  volume = w;
}

-- The cluster that was linked was free.
only_new :
    (fat fat' : List ℕ) (c last : ℕ) (new : List ℕ)
    → length new ≡ 1
    → Extended fat c [] new last fat'
    → get_elem? fat last ≡ some 0
only_new fat fat' c last [] one h = absurd (omega arith)
only_new fat fat' c last (d ∷ e ∷ ds) one h = absurd (omega arith)
only_new fat fat' c last (d ∷ []) one h =
    let (low, once, free) = h.free d (ground arith) in rw (← h.ends) free

only_last :
    (fat fat' : List ℕ) (c last : ℕ) (new : List ℕ)
    → length new ≡ 1
    → Extended fat c [] new last fat'
    → 0 < count last (c ∷ new)
only_last fat fat' c last [] one h = absurd (omega arith)
only_last fat fat' c last (d ∷ e ∷ ds) one h = absurd (omega arith)
only_last fat fat' c last (d ∷ []) one h = rw (← h.ends) (ground arith)

-- A cluster with another behind it is neither the last one of the chain nor free.
Extended-links :
    (fat fat' : List ℕ) (c end_mark last d e : ℕ) (new : List ℕ)
    → Extended fat c [] new last fat'
    → get_elem? fat c ≡ some end_mark
    → first_end ≤ end_mark
    → get_elem? fat d ≡ some e
    → 0 < e
    → e < first_end
    → get_elem? fat' d ≡ some e
Extended-links fat fat' c end_mark last d e new h end over at some_next inside =
    let other : d ≢ c = λ same.
      (let here : get_elem? fat c ≡ some e = rw (← same) at in
        let equal : e ≡ end_mark = cc in omega arith) in
    let old : count d new ≡ 0 = elim (dec_lt 0 (count d new)) [
      | yes is_new ↦
          let (low, once, free) = h.free d is_new in let equal : e ≡ 0 = cc in absurd (omega arith)
      | no is_old ↦ omega arith
    ] in
    h.kept d other old ∙ at

Extended-Placed :
    (v : Volume) (fat : List ℕ) (c end_mark last : ℕ) (new : List ℕ)
    → Extended v.fat c [] new last fat
    → length new ≡ 1
    → get_elem? v.fat c ≡ some end_mark
    → first_end ≤ end_mark
    → Placed v c last (with_cluster v last fat)
Extended-Placed v fat c end_mark last new h one end over = record {
  clusters = new;
  chain = h.chain;
  linked = only_last v.fat fat c last new one h;
  links = λ d e at some_next inside.
      Extended-links v.fat fat c end_mark last d e new h end over at some_next inside;
}

-- `AllocateEntry` returns an entry.
abbrev pub GetsEntry : ℕ → Volume → ℕ → Type 0
GetsEntry fuel v c =
    (place : ℕ) × (i : ℕ) × (v' : Volume) × (allocate_entry fuel v c ≡ some ((place, i), v'))
    × Allocated v place i v'
    × Placed v c place v'

extended-Allocated :
    (v : Volume) (last : ℕ) (fat : List ℕ)
    → IsVolume v
    → entry_size ≤ v.bytes_per_cluster
    → get_elem? v.fat last ≡ some 0
    → Allocated v last 0 (with_cluster v last fat)
extended-Allocated v last fat w room free = record {
  room = omega arith;
  unused = inr free;
  kept = λ d h.
      (let other : (last == d) ≡ false = ground (arith, λ (q : last ≡ d). h (rw (← q) free)) in
        rw other refl);
  volume = record {
    some_bytes = w.some_bytes;
    whole = λ d. elim (ℕ_discrete last d) [
      | yes same ↦
          (let here : (last == d) ≡ true = ground arith in
            rw here (length-replicate v.bytes_per_cluster 0))
      | no differs ↦ (let other : (last == d) ≡ false = ground arith in rw other (w.whole d))
    ];
  };
}

-- Where the entry comes from if all those of a cluster are used; `deeper` is for the clusters behind.
next_Allocated :
    (fuel : ℕ) (v : Volume) (c : ℕ) (cs : List ℕ)
    → IsVolume v
    → IsChain v.fat (c ∷ cs)
    → length (c ∷ cs) ≤ length v.fat
    → length v.fat ≤ first_end
    → 0 < free_from 2 v.fat
    → entry_size ≤ v.bytes_per_cluster
    → length cs < suc fuel
    → free_entry v c 0 (entries_per_cluster v) ≡ none
    → ((d : ℕ) (ds : List ℕ)
        → IsChain v.fat (d ∷ ds)
        → length (d ∷ ds) ≤ length v.fat
        → length ds < fuel
        → GetsEntry fuel v d)
    → GetsEntry (suc fuel) v c
next_Allocated fuel v c _ w (link_to _ d ds at a b k) l s f r n full deeper =
    let (place, i, v', e, h, p) = deeper d ds k (omega arith) (omega arith) in
    let on = next_cluster-IsChain v.fat c (d ∷ ds) (link_to c d ds at a b k) in
    (
      place,
      i,
      v',
      allocate_further fuel v c d full on (ground arith) ∙ e,
      h,
      further-Placed v v' c d place at a b p,
    )
next_Allocated fuel v c _ w (end_of _ e at over) l s f r n full deeper =
    let k = end_of c e at over in
    let (last, fat, new, x, one, h) = extend_cluster-Extended v.fat c 1 [] k (omega arith) s f in
    let free = only_new v.fat fat c last new one h in
    (
      last,
      0,
      with_cluster v last fat,
      allocate_extended fuel v c last fat full (next_cluster-IsChain v.fat c [] k) x,
      extended-Allocated v last fat w r free,
      Extended-Placed v fat c e last new h one at over,
    )

-- `AllocateEntry` in a directory, with a free cluster in the table, returns an entry in the chain of the
-- directory.
pub allocate_entry-Allocated :
    (fuel : ℕ) (v : Volume) (c : ℕ) (cs : List ℕ)
    → IsVolume v
    → IsChain v.fat (c ∷ cs)
    → length (c ∷ cs) ≤ length v.fat
    → length v.fat ≤ first_end
    → 0 < free_from 2 v.fat
    → entry_size ≤ v.bytes_per_cluster
    → length cs < fuel
    → GetsEntry fuel v c
allocate_entry-Allocated zero v c cs w k l s f r n = absurd (omega arith)
allocate_entry-Allocated (suc fuel) v c cs w k l s f r n =
    elim (Option-cases (free_entry v c 0 (entries_per_cluster v))) [
      | inr (i, e) ↦
          (c, i, v, allocate_here fuel v c i e, here-Allocated v c i w e, here-Placed v c cs k)
      | inl full ↦
          next_Allocated fuel v c cs w k l s f r n full
            (λ d ds k' l' n'. allocate_entry-Allocated fuel v d ds w k' l' s f r n')
    ]
