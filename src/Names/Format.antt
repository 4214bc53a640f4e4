-- ===== src/Names/Format.antt =====
-- What `FormatName` makes of the bytes that `SetFileName` writes.
use hon_os.Prelude.{
  ℕ, zero, suc, ◌-◌, ◌≤◌, ◌≡◌, ◌≢◌, refl, ap, sym, ◌∙◌, List, [], ◌∷◌, ◌++◌, arith, take, drop,
  replicate, length, count,
}
use hon_os.Prelude.Slices.{take_all, take_append_self, drop_append_self}
use hon_os.Files.{DirectoryEntry}
use hon_os.Names.{
  dot, space, toupper, pad, keep, trim, c_string, read_name, suffix, format_name, set_file_name,
}
use hon_os.Names.RoundTrip.{
  dotted, text, IsShort, length-map, length-pad, upper, bytes83, set_file_name_dotted,
}

-- No spaces, and nothing that ends a text.
abbrev pub IsClear : List ℕ → Type 0
IsClear cs = (count space cs ≡ 0) × (count 0 cs ≡ 0)

toupper-ne : (c : ℕ) → c ≢ space → c ≢ 0 → (toupper c ≢ space) × (toupper c ≢ 0)
unfolding toupper
toupper-ne c s z = ground arith

upper-IsClear : (cs : List ℕ) → IsClear cs → IsClear (upper cs)
upper-IsClear [] k = (refl, refl)
upper-IsClear (c ∷ cs) (s, z) = ground (arith, toupper-ne c, upper-IsClear cs)

trim_spaces : (n : ℕ) → trim (replicate n space) ≡ []
unfolding trim keep
trim_spaces zero = refl
trim_spaces (suc n) = ap (keep space) (trim_spaces n)

keep_lem : (c : ℕ) (cs : List ℕ) → c ≢ space → keep c cs ≡ c ∷ cs
unfolding keep
keep_lem c [] h = ground arith
keep_lem c (d ∷ ds) h = refl

trim_padded : (n : ℕ) (cs : List ℕ) → count space cs ≡ 0 → trim (cs ++ replicate n space) ≡ cs
unfolding trim
trim_padded n [] h = trim_spaces n
trim_padded n (c ∷ cs) h =
    ap (keep c) (trim_padded n cs (ground arith)) ∙ keep_lem c cs (ground arith)

c_string_all : (cs : List ℕ) → count 0 cs ≡ 0 → c_string cs ≡ cs
unfolding c_string
c_string_all [] h = refl
c_string_all (c ∷ cs) h = ground (arith, c_string_all cs)

part_text : (n : ℕ) (cs : List ℕ) → IsClear cs → c_string (trim (pad n (upper cs))) ≡ upper cs
part_text n cs k =
    ap c_string (trim_padded (n - length (upper cs)) (upper cs) (upper-IsClear cs k).0)
    ∙ c_string_all (upper cs) (upper-IsClear cs k).1

-- The two parts of the name in an entry with a short name.
read_name_lem :
    (e : DirectoryEntry) (base ext : List ℕ)
    → length base ≤ 8
    → length ext ≤ 3
    → IsClear base
    → IsClear ext
    → e.name ≡ bytes83 base ext
    → format_name e ≡ upper base ++ suffix (upper ext)
unfolding format_name read_name
read_name_lem e base ext l l' k k' n =
    let front = length-pad 8 (upper base) (omega (arith, length-map toupper base)) in
    let back = length-pad 3 (upper ext) (omega (arith, length-map toupper ext)) in
    let base_bytes : take 8 e.name ≡ pad 8 (upper base) =
      ap (take 8) n
      ∙ ap (λ k. take k (bytes83 base ext)) (sym front)
      ∙ take_append_self (pad 8 (upper base)) (pad 3 (upper ext)) in
    let ext_bytes : take 3 (drop 8 e.name) ≡ pad 3 (upper ext) =
      ap (λ bs. take 3 (drop 8 bs)) n
      ∙ ap (λ k. take 3 (drop k (bytes83 base ext))) (sym front)
      ∙ ap (take 3) (drop_append_self (pad 8 (upper base)) (pad 3 (upper ext)))
      ∙ take_all 3 (pad 3 (upper ext)) (omega arith) in
    ap (λ bs. c_string (trim bs) ++ suffix (c_string (trim (take 3 (drop 8 e.name))))) base_bytes
    ∙ ap (λ bs. c_string (trim (pad 8 (upper base))) ++ suffix (c_string (trim bs))) ext_bytes
    ∙ ap (λ cs. cs ++ suffix (c_string (trim (pad 3 (upper ext))))) (part_text 8 base k)
    ∙ ap (λ cs. upper base ++ suffix cs) (part_text 3 ext k')

joined :
    (base ext : List ℕ) → ext ≢ [] → upper base ++ suffix (upper ext) ≡ upper (base ++ (dot ∷ ext))
unfolding suffix toupper
joined [] [] h = absurd (h refl)
joined [] (c ∷ cs) h = refl
joined (b ∷ bs) ext h = ap (λ k. toupper b ∷ k) (joined bs ext h)

-- `FormatName` gives back a short name in upper case, if it has no spaces, and an extension where it
-- has a dot.
pub format_name-set_file_name :
    (e : DirectoryEntry) (base ext : List ℕ)
    → IsShort (dotted base ext)
    → IsClear base
    → IsClear ext
    → ext ≢ []
    → format_name (set_file_name e (text (dotted base ext))) ≡ upper (text (dotted base ext))
format_name-set_file_name e base ext (s, s') k k' h =
    read_name_lem (set_file_name e (text (dotted base ext))) base ext s.0 s'.0 k k'
      (set_file_name_dotted e base ext s s')
    ∙ joined base ext h
