-- ===== src/Directories/Search.antt =====
-- `FindFile` in one directory against the list of the directory's entries.
use hon_os.Prelude.{
  ℕ, zero, suc, ◌+◌, ◌≤◌, ◌<◌, ◌≡◌, ◌≢◌, refl, ap, sym, ◌∙◌, List, [], ◌∷◌, ◌++◌, Option, none,
  some, Bool, false, ◌==◌, ltb, if◌then◌else◌, arith, length, Bool-cases, inl, inr, count,
}
use hon_os.Fat.{next_cluster, end_of_clusterchain}
use hon_os.Fat.Chains.{IsChain, end_of, link_to, next_cluster-IsChain}
use hon_os.Files.{Volume}
use hon_os.Names.{name_is_equal}
use hon_os.Directories.{
  entry_at, mark, slash, next_path_element, Scan, found, ended, passed, scan, entries_per_cluster,
  search, start_of, has_slash, more_path, after_scan, after_search, directory_attribute, find_file,
}

-- The places of `left` entries of a cluster, and those of a directory.
abbrev pub places : ℕ → ℕ → ℕ → List (ℕ × ℕ)
places cluster i zero = []
places cluster i (suc left) = (cluster, i) ∷ places cluster (i + 1) left

abbrev pub listing : Volume → List ℕ → List (ℕ × ℕ)
listing v [] = []
listing v (c ∷ cs) = places c 0 (entries_per_cluster v) ++ listing v cs

-- The first entry with the name, before the first one that marks the end.
abbrev pub first_match : Volume → List ℕ → List (ℕ × ℕ) → Option (ℕ × ℕ)
first_match v name [] = none
first_match v name ((c, i) ∷ ps) =
    if mark (entry_at v c i) == 0
    then none
    else if name_is_equal (entry_at v c i) name
    then some (c, i)
    else first_match v name ps

-- What the end of a scan means for the search.
abbrev outcome : ℕ → Scan → Option (ℕ × ℕ) → Option (ℕ × ℕ)
outcome cluster (found i) rest = some (cluster, i)
outcome cluster ended rest = none
outcome cluster passed rest = rest

scan_lem :
    (v : Volume) (c : ℕ) (name : List ℕ) (i left : ℕ) (rest : List (ℕ × ℕ))
    → first_match v name (places c i left ++ rest)
      ≡ outcome c (scan v c name i left) (first_match v name rest)
unfolding scan
scan_lem v c name i zero rest = refl
scan_lem v c name i (suc left) rest = elim (Bool-cases (mark (entry_at v c i) == 0)) [
  | inl last ↦ rw last refl
  | inr more ↦ elim (Bool-cases (name_is_equal (entry_at v c i) name)) [
    | inl hit ↦ rw (more, hit) refl
    | inr miss ↦ rw (more, miss) (scan_lem v c name (i + 1) left rest)
  ]
]

after_scan_lem :
    (c : ℕ) (s : Scan) (rest : Option (ℕ × ℕ))
    → after_scan c s (some rest) ≡ some (outcome c s rest)
unfolding after_scan
after_scan_lem c (found i) rest = refl
after_scan_lem c ended rest = refl
after_scan_lem c passed rest = refl

-- One round of the search.
search_round :
    (fuel : ℕ) (v : Volume) (name : List ℕ) (c next : ℕ) (rest : Option (ℕ × ℕ))
    → c ≢ end_of_clusterchain
    → next_cluster v.fat c ≡ some next
    → search fuel v name next ≡ some rest
    → search (suc fuel) v name c ≡ some (outcome c (scan v c name 0 (entries_per_cluster v)) rest)
unfolding search
search_round fuel v name c next rest h n r =
    let differs : (c == end_of_clusterchain) ≡ false = ground arith in
    rw (differs, n, r) (after_scan_lem c (scan v c name 0 (entries_per_cluster v)) rest)

search_end :
    (fuel : ℕ) (v : Volume) (name : List ℕ)
    → search (suc fuel) v name end_of_clusterchain ≡ some none
unfolding search
search_end fuel v name = refl

search_lem :
    (fuel : ℕ) (v : Volume) (name : List ℕ) (c : ℕ) (cs : List ℕ)
    → IsChain v.fat (c ∷ cs)
    → c ≢ end_of_clusterchain
    → length (c ∷ cs) < fuel
    → search fuel v name c ≡ some (first_match v name (listing v (c ∷ cs)))
search_lem zero v name c cs k h f = absurd (omega arith)
search_lem (suc zero) v name c cs k h f = absurd (omega arith)
search_lem (suc (suc fuel)) v name c _ (end_of _ e at l) h f =
    search_round (suc fuel) v name c end_of_clusterchain none h
      (next_cluster-IsChain v.fat c [] (end_of c e at l)) (search_end fuel v name)
    ∙ ap some (sym (scan_lem v c name 0 (entries_per_cluster v) []))
search_lem (suc (suc fuel)) v name c _ (link_to _ d cs at a b k) h f =
    search_round (suc fuel) v name c d (first_match v name (listing v (d ∷ cs))) h
      (next_cluster-IsChain v.fat c (d ∷ cs) (link_to c d cs at a b k))
      (search_lem (suc fuel) v name d cs k (omega arith) (omega arith))
    ∙ ap some (sym (scan_lem v c name 0 (entries_per_cluster v) (listing v (d ∷ cs))))

element_lem : (path : List ℕ) → count slash path ≡ 0 → next_path_element path ≡ (path, none)
unfolding next_path_element
element_lem [] h = refl
element_lem (c ∷ cs) h =
    let plain : (c == slash) ≡ false = ground arith in
    rw (plain, element_lem cs (ground arith)) refl

after_search_lem :
    (v : Volume) (descend : List ℕ → ℕ → Option (Option (ℕ × ℕ) × Bool)) (hit : Option (ℕ × ℕ))
    → after_search v none descend hit ≡ some (hit, false)
unfolding after_search more_path has_slash
after_search_lem v descend none = refl
after_search_lem v descend (some (c, i)) =
    elim (Bool-cases ((entry_at v c i).attr == directory_attribute)) [
      | inl directory ↦ rw directory refl
      | inr file ↦ rw file refl
    ]

start_of_lem :
    (root : ℕ) (name : List ℕ) (c : ℕ)
    → count slash name ≡ 0
    → c ≢ 0
    → start_of root name c ≡ (c, name)
unfolding start_of
start_of_lem root [] c s z = let given : (c == 0) ≡ false = ground arith in rw given refl
start_of_lem root (d ∷ ds) c s z =
    let given : (c == 0) ≡ false = ground arith in
    let plain : (d == slash) ≡ false = ground arith in rw (given, plain) refl

-- `FindFile` of a name without slashes, of at most 12 characters, in a directory that starts with
-- cluster `c`, which is not 0 or the end mark, and whose clusters are a chain no longer than the table:
-- its loops return the first match in the listing of the directory.
pub find_file_lem :
    (fuel : ℕ) (v : Volume) (root : ℕ) (name : List ℕ) (c : ℕ) (cs : List ℕ)
    → IsChain v.fat (c ∷ cs)
    → length (c ∷ cs) ≤ length v.fat
    → c ≢ 0
    → c ≢ end_of_clusterchain
    → count slash name ≡ 0
    → length name ≤ 12
    → find_file (suc fuel) v root name c ≡ some (first_match v name (listing v (c ∷ cs)), false)
unfolding find_file
find_file_lem fuel v root name c cs k f z h s l =
    let fits : ltb 12 (length name) ≡ false = ground arith in
    let hit = search_lem (suc (length v.fat)) v name c cs k h (omega arith) in
    rw (start_of_lem root name c s z, element_lem name s, fits, hit)
      (after_search_lem v (λ left d. find_file fuel v root left d)
        (first_match v name (listing v (c ∷ cs))))
