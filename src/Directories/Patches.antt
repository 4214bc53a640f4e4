-- ===== src/Directories/Patches.antt =====
-- The entries of a directory after a name and a size are written into one of them.
use hon_os.Prelude.{
  ℕ, zero, suc, ◌+◌, ◌-◌, ◌*◌, ◌≤◌, ◌≡◌, ◌≢◌, refl, ap, sym, ◌∙◌, ◌⊎◌, inl, inr, List, [], ◌∷◌,
  ◌++◌, false, ◌==◌, arith, take, drop, length, get_or, length-append, ℕ_discrete, dec_lt, ==_refl,
}
use hon_os.Prelude.Slices.{
  take-append, drop-append, drop-drop, drop-take, take-take, length-take, length-drop,
  take_append_self, drop_append_self,
}
use hon_os.Files.{Volume, overwrite}
use hon_os.Files.Stream.{IsVolume}
use hon_os.Names.{name_bytes, split_last_dot}
use hon_os.Directories.{entry_size, parse_entry, entry_at, name_entry}

-- The `n` bytes from `off` on.
abbrev pub slice : ℕ → ℕ → List ℕ → List ℕ
slice off n xs = take n (drop off xs)

module _ (old : List ℕ) (off : ℕ) (bytes : List ℕ) (fits : off + length bytes ≤ length old) where
  front : length (take off old) ≡ off
  front = length-take off old ∙ omega arith

  pub length-overwrite : length (overwrite old off bytes) ≡ length old
  unfolding overwrite
  length-overwrite =
      length-append (take off old) (bytes ++ drop (off + length bytes) old)
      ∙ omega (
        arith,
        front,
        length-append bytes (drop (off + length bytes) old),
        length-drop (off + length bytes) old,
      )

  behind : drop off (overwrite old off bytes) ≡ bytes ++ drop (off + length bytes) old
  unfolding overwrite
  behind =
      ap (λ k. drop k (take off old ++ (bytes ++ drop (off + length bytes) old))) (sym front)
      ∙ drop_append_self (take off old) (bytes ++ drop (off + length bytes) old)

  pub slice_self : slice off (length bytes) (overwrite old off bytes) ≡ bytes
  slice_self =
      ap (take (length bytes)) behind ∙ take_append_self bytes (drop (off + length bytes) old)

  pub slice_before : (i n : ℕ) → i + n ≤ off → slice i n (overwrite old off bytes) ≡ slice i n old
  unfolding overwrite
  slice_before i n h =
      let room : n ≤ length (drop i (take off old)) =
        omega (arith, length-drop i (take off old), front) in
      ap (take n) (drop-append i (take off old) _ (omega (arith, front)))
      ∙ take-append n (drop i (take off old)) _ room
      ∙ ap (take n) (drop-take i off old)
      ∙ take-take n (off - i) (drop i old) (omega arith)

  pub slice_after :
      (i n : ℕ) → off + length bytes ≤ i → slice i n (overwrite old off bytes) ≡ slice i n old
  slice_after i n h =
      let k : ℕ = i - off in
      let rest : drop k (drop off (overwrite old off bytes)) ≡ drop i (overwrite old off bytes) =
        drop-drop off k i (overwrite old off bytes) (omega arith) in
      let tail : List ℕ = drop (off + length bytes) old in
      ap (take n) (
        sym rest
        ∙ ap (drop k) behind
        ∙ sym (drop-drop (length bytes) (k - length bytes) k (bytes ++ tail) (omega arith))
        ∙ ap (drop (k - length bytes)) (drop_append_self bytes tail)
        ∙ drop-drop (off + length bytes) (k - length bytes) i old (omega arith))

get_or-drop : (xs : List ℕ) (n k m d : ℕ) → n + k ≡ m → get_or (drop n xs) k d ≡ get_or xs m d
get_or-drop xs zero k m d e = ap (λ j. get_or xs j d) (let q : k ≡ m = omega arith in q)
get_or-drop [] (suc n) k m d e = refl
get_or-drop (x ∷ xs) (suc n) k zero d e = absurd (omega arith)
get_or-drop (x ∷ xs) (suc n) k (suc m) d e = get_or-drop xs n k m d (omega arith)

-- The bytes of the size in an entry that ends with four zeros.
zero_size :
    (bytes : List ℕ) → drop 28 bytes ≡ 0 ∷ 0 ∷ 0 ∷ 0 ∷ [] → (parse_entry bytes).file_size ≡ 0
unfolding parse_entry
zero_size bytes e =
    let byte = λ (k m : ℕ) (q : 28 + k ≡ m).
      sym (get_or-drop bytes 28 k m 0 q) ∙ ap (λ bs. get_or bs k 0) e in
    rw (byte 0 28 refl, byte 1 29 refl, byte 2 30 refl, byte 3 31 refl) refl

-- The bytes of a cluster whose entry `i` gets a name and the size 0.
abbrev named : List ℕ → List ℕ → ℕ → List ℕ
named old bytes i = overwrite old (entry_size * i) bytes

abbrev renamed : List ℕ → List ℕ → ℕ → List ℕ
renamed old bytes i = overwrite (named old bytes i) (entry_size * i + 28) (0 ∷ 0 ∷ 0 ∷ 0 ∷ [])

module _ (old bytes : List ℕ) (i : ℕ) (room : entry_size * i + entry_size ≤ length old)
    (eleven : length bytes ≡ 11) where
  fits_name : entry_size * i + length bytes ≤ length old
  fits_name = omega arith

  fits_size : entry_size * i + 28 + 4 ≤ length (named old bytes i)
  fits_size = omega (arith, length-overwrite old (entry_size * i) bytes fits_name)

  length-renamed : length (renamed old bytes i) ≡ length old
  length-renamed =
      length-overwrite (named old bytes i) (entry_size * i + 28) (0 ∷ 0 ∷ 0 ∷ 0 ∷ []) fits_size
      ∙ length-overwrite old (entry_size * i) bytes fits_name

  renamed_name : take 11 (slice (entry_size * i) entry_size (renamed old bytes i)) ≡ bytes
  renamed_name =
      take-take 11 entry_size (drop (entry_size * i) (renamed old bytes i)) (omega arith)
      ∙ slice_before (named old bytes i) (entry_size * i + 28) (0 ∷ 0 ∷ 0 ∷ 0 ∷ []) fits_size
          (entry_size * i) 11 (omega arith)
      ∙ ap (λ k. slice (entry_size * i) k (named old bytes i)) (sym eleven)
      ∙ slice_self old (entry_size * i) bytes fits_name

  renamed_size :
      drop 28 (slice (entry_size * i) entry_size (renamed old bytes i)) ≡ 0 ∷ 0 ∷ 0 ∷ 0 ∷ []
  renamed_size =
      drop-take 28 entry_size (drop (entry_size * i) (renamed old bytes i))
      ∙ ap (take 4) (drop-drop (entry_size * i) 28 (entry_size * i + 28) (renamed old bytes i) refl)
      ∙ slice_self (named old bytes i) (entry_size * i + 28) (0 ∷ 0 ∷ 0 ∷ 0 ∷ []) fits_size

  renamed_other :
      (j : ℕ)
      → i ≢ j
      → slice (entry_size * j) entry_size (renamed old bytes i)
        ≡ slice (entry_size * j) entry_size old
  renamed_other j h = elim (dec_lt j i) [
    | yes below ↦
        slice_before (named old bytes i) (entry_size * i + 28) (0 ∷ 0 ∷ 0 ∷ 0 ∷ []) fits_size
          (entry_size * j) entry_size (omega arith)
        ∙ slice_before old (entry_size * i) bytes fits_name (entry_size * j) entry_size
            (omega arith)
    | no above ↦
        slice_after (named old bytes i) (entry_size * i + 28) (0 ∷ 0 ∷ 0 ∷ 0 ∷ []) fits_size
          (entry_size * j) entry_size (omega arith)
        ∙ slice_after old (entry_size * i) bytes fits_name (entry_size * j) entry_size (omega arith)
  ]

-- What naming entry `i` of cluster `c` has done to the volume.
pub record Named (v : Volume) (c i : ℕ) (bytes : List ℕ) (v' : Volume) : Type 0 where
  pub name : (entry_at v' c i).name ≡ bytes
  pub size : (entry_at v' c i).file_size ≡ 0
  pub others : (d j : ℕ) → (c ≢ d) ⊎ (i ≢ j) → entry_at v' d j ≡ entry_at v d j
  pub fat : v'.fat ≡ v.fat
  pub volume : IsVolume v'

content_self :
    (v : Volume) (c i : ℕ) (name : List ℕ)
    → (name_entry v c i name).content c
      ≡ renamed (v.content c) (name_bytes name (split_last_dot name)) i
unfolding name_entry
content_self v c i name = rw (==_refl c) refl

content_other :
    (v : Volume) (c i d : ℕ) (name : List ℕ)
    → c ≢ d
    → (name_entry v c i name).content d ≡ v.content d
unfolding name_entry
content_other v c i d name h = let other : (c == d) ≡ false = ground arith in rw other refl

-- The bytes of an entry.
abbrev entry_bytes : List ℕ → ℕ → List ℕ
entry_bytes content i = slice (entry_size * i) entry_size content

entry_at_name :
    (v : Volume) (c i : ℕ) → (entry_at v c i).name ≡ take 11 (entry_bytes (v.content c) i)
unfolding entry_at parse_entry
entry_at_name v c i = refl

entry_at_size :
    (v : Volume) (c i : ℕ)
    → drop 28 (entry_bytes (v.content c) i) ≡ 0 ∷ 0 ∷ 0 ∷ 0 ∷ []
    → (entry_at v c i).file_size ≡ 0
unfolding entry_at
entry_at_size v c i h = zero_size (entry_bytes (v.content c) i) h

entry_at-eq :
    (v v' : Volume) (c i : ℕ)
    → entry_bytes (v'.content c) i ≡ entry_bytes (v.content c) i
    → entry_at v' c i ≡ entry_at v c i
unfolding entry_at
entry_at-eq v v' c i h = ap parse_entry h

pub name_entry-Named :
    (v : Volume) (c i : ℕ) (name : List ℕ)
    → IsVolume v
    → entry_size * i + entry_size ≤ v.bytes_per_cluster
    → length (name_bytes name (split_last_dot name)) ≡ 11
    → Named v c i (name_bytes name (split_last_dot name)) (name_entry v c i name)
name_entry-Named v c i name w room eleven = record {
  name =
      entry_at_name v' c i
      ∙ ap (λ bs. take 11 (entry_bytes bs i)) (content_self v c i name)
      ∙ renamed_name (v.content c) bytes i room' eleven;
  size = entry_at_size v' c i (
      ap (λ bs. drop 28 (entry_bytes bs i)) (content_self v c i name)
      ∙ renamed_size (v.content c) bytes i room' eleven);
  others = λ d j. elim (ℕ_discrete c d) [
    | yes same ↦ λ h. entry_at-eq v v' d j (
        rw (← same) (
          ap (λ bs. entry_bytes bs j) (content_self v c i name)
          ∙ renamed_other (v.content c) bytes i room' eleven j (other_index d j same h)))
    | no other ↦
        λ h. entry_at-eq v v' d j (ap (λ bs. entry_bytes bs j) (content_other v c i d name other))
  ];
  fat = unfold name_entry in refl;
  volume = record {
    some_bytes = unfold name_entry in w.some_bytes;
    whole = λ d. elim (ℕ_discrete c d) [
      | yes same ↦ rw (← same) (
          ap length (content_self v c i name)
          ∙ length-renamed (v.content c) bytes i room' eleven
          ∙ w.whole c
          ∙ size_kept)
      | no other ↦ ap length (content_other v c i d name other) ∙ w.whole d ∙ size_kept
    ];
  };
}
  where
    bytes : List ℕ
    bytes = name_bytes name (split_last_dot name)

    v' : Volume
    v' = name_entry v c i name

    size_kept : v.bytes_per_cluster ≡ (name_entry v c i name).bytes_per_cluster
    size_kept = unfold name_entry in refl

    room' : entry_size * i + entry_size ≤ length (v.content c)
    room' = omega (arith, w.whole c)

    other_index : (d j : ℕ) → c ≡ d → (c ≢ d) ⊎ (i ≢ j) → i ≢ j
    other_index d j same (inl h) = absurd (h same)
    other_index d j same (inr h) = h
