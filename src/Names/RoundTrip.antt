-- ===== src/Names/RoundTrip.antt =====
-- `SetFileName` against `NameIsEqual` and `FormatName`.
use hon_os.Prelude.{
  ℕ, zero, suc, ◌+◌, ◌-◌, ◌≤◌, ◌≡◌, refl, ap, sym, ◌∙◌, List, [], ◌∷◌, ◌++◌, map, Option, none,
  some, true, ltb, arith, take, replicate, length, length-replicate, length-append, count,
}
use hon_os.Prelude.Slices.{length-take, append_assoc, append-nil, take_all}
use hon_os.Files.{DirectoryEntry}
use hon_os.Names.{dot, space, toupper, pad, name83_from, name_is_equal, name_bytes, set_file_name}
use hon_os.Names.Slots.{
  written, name83_from-written, written_spaces, same_bytes_refl, split_none, split_at_dot,
}

-- A name without a dot, or with one between a base and an extension.
pub data Name : Type 0 where
  plain : List ℕ → Name
  dotted : List ℕ → List ℕ → Name

abbrev pub text : Name → List ℕ
text (plain base) = base
text (dotted base ext) = base ++ (dot ∷ ext)

abbrev pub IsPart : ℕ → List ℕ → Type 0
IsPart n cs = (length cs ≤ n) × (count dot cs ≡ 0)

-- Base and extension have at most 8 and 3 characters, and no dots.
abbrev pub IsShort : Name → Type 0
IsShort (plain base) = IsPart 8 base
IsShort (dotted base ext) = IsPart 8 base × IsPart 3 ext

pub length-map : (f : ℕ → ℕ) (cs : List ℕ) → length (map f cs) ≡ length cs
length-map f [] = refl
length-map f (c ∷ cs) = ap suc (length-map f cs)

replicate-append : (m n k x : ℕ) → m + n ≡ k → replicate m x ++ replicate n x ≡ replicate k x
replicate-append zero n k x e = ap (λ j. replicate j x) (let q : n ≡ k = omega arith in q)
replicate-append (suc m) n zero x e = absurd (omega arith)
replicate-append (suc m) n (suc k) x e = ap (λ xs. x ∷ xs) (replicate-append m n k x (omega arith))

abbrev pub upper : List ℕ → List ℕ
upper cs = map toupper cs

pub length-pad : (n : ℕ) (cs : List ℕ) → length cs ≤ n → length (pad n cs) ≡ n
length-pad n cs h =
    length-append cs (replicate (n - length cs) space)
    ∙ omega (arith, length-replicate (n - length cs) space)

length-part : (n : ℕ) (cs : List ℕ) → length (pad n (map toupper (take n cs))) ≡ n
length-part n cs =
    length-pad n (map toupper (take n cs))
      (omega (arith, length-map toupper (take n cs), length-take n cs))

pub length-name_bytes :
    (name : List ℕ) (parts : Option (List ℕ × List ℕ)) → length (name_bytes name parts) ≡ 11
unfolding name_bytes
length-name_bytes name none =
    length-append (pad 8 (map toupper (take 8 name))) (pad 3 [])
    ∙ omega (arith, length-part 8 name, length-pad 3 [] (omega arith))
length-name_bytes name (some (base, ext)) =
    length-append (pad 8 (map toupper (take 8 base))) (pad 3 (map toupper (take 3 ext)))
    ∙ omega (arith, length-part 8 base, length-part 3 ext)

-- The bytes of a directory entry for a base and an extension.
abbrev pub bytes83 : List ℕ → List ℕ → List ℕ
bytes83 base ext = pad 8 (upper base) ++ pad 3 (upper ext)

-- The base in the first slots, and spaces behind it.
base_written :
    (base : List ℕ)
    → length base ≤ 8
    → written 0 base (replicate 11 space) ≡ pad 8 (upper base) ++ replicate 3 space
base_written base h =
    written_spaces base [] 0 11 refl (omega arith)
    ∙ ap (λ s. upper base ++ s)
        (sym (
          replicate-append (8 - length (upper base)) 3 (11 - length base) space
            (omega (arith, length-map toupper base))))
    ∙ sym
        (append_assoc (upper base) (replicate (8 - length (upper base)) space) (replicate 3 space))

ext_written :
    (base ext : List ℕ)
    → length base ≤ 8
    → length ext ≤ 3
    → written 8 ext (pad 8 (upper base) ++ replicate 3 space) ≡ bytes83 base ext
ext_written base ext h l =
    written_spaces ext (pad 8 (upper base)) 8 3
      (length-pad 8 (upper base) (omega (arith, length-map toupper base))) l
    ∙ ap (λ k. pad 8 (upper base) ++ (upper ext ++ replicate (3 - k) space))
        (sym (length-map toupper ext))

-- The loop of `NameIsEqual` at a dot.
at_dot :
    (ext : List ℕ) (i : ℕ) (slots : List ℕ)
    → i ≤ 8
    → name83_from (dot ∷ ext) i slots ≡ name83_from ext 8 slots
unfolding name83_from
at_dot ext i slots h = let room : ltb i 11 ≡ true = ground arith in rw room refl

name83_end : (i : ℕ) (slots : List ℕ) → name83_from [] i slots ≡ slots
unfolding name83_from
name83_end i slots = refl

name83_plain :
    (base : List ℕ) → IsPart 8 base → name83_from base 0 (replicate 11 space) ≡ bytes83 base []
unfolding name83_from
name83_plain base (l, z) =
    ap (λ k. name83_from k 0 (replicate 11 space)) (sym (append-nil base))
    ∙ name83_from-written base [] 0 (replicate 11 space) z (omega arith)
    ∙ base_written base l

name83_dotted :
    (base ext : List ℕ)
    → IsPart 8 base
    → IsPart 3 ext
    → name83_from (base ++ (dot ∷ ext)) 0 (replicate 11 space) ≡ bytes83 base ext
name83_dotted base ext (l, z) (l', z') =
    name83_from-written base (dot ∷ ext) 0 (replicate 11 space) z (omega arith)
    ∙ ap (name83_from (dot ∷ ext) (0 + length base)) (base_written base l)
    ∙ at_dot ext (0 + length base) (pad 8 (upper base) ++ replicate 3 space) (omega arith)
    ∙ ap (λ k. name83_from k 8 (pad 8 (upper base) ++ replicate 3 space)) (sym (append-nil ext))
    ∙ name83_from-written ext [] 8 (pad 8 (upper base) ++ replicate 3 space) z' (omega arith)
    ∙ name83_end (8 + length ext) (written 8 ext (pad 8 (upper base) ++ replicate 3 space))
    ∙ ext_written base ext l l'

pub set_file_name_plain :
    (e : DirectoryEntry) (base : List ℕ)
    → IsPart 8 base
    → (set_file_name e base).name ≡ bytes83 base []
unfolding set_file_name name_bytes
set_file_name_plain e base (l, z) =
    ap (name_bytes base) (split_none base z)
    ∙ ap (λ k. pad 8 (upper k) ++ pad 3 []) (take_all 8 base l)

pub set_file_name_dotted :
    (e : DirectoryEntry) (base ext : List ℕ)
    → IsPart 8 base
    → IsPart 3 ext
    → (set_file_name e (base ++ (dot ∷ ext))).name ≡ bytes83 base ext
unfolding set_file_name name_bytes
set_file_name_dotted e base ext (l, z) (l', z') =
    ap (name_bytes (base ++ (dot ∷ ext))) (split_at_dot base ext z')
    ∙ ap (λ k. pad 8 (upper k) ++ pad 3 (upper (take 3 ext))) (take_all 8 base l)
    ∙ ap (λ k. pad 8 (upper base) ++ pad 3 (upper k)) (take_all 3 ext l')

-- The name that `SetFileName` writes for a short name is one that `NameIsEqual` finds equal to it.
pub name_is_equal-set_file_name :
    (e : DirectoryEntry) (name : Name)
    → IsShort name
    → name_is_equal (set_file_name e (text name)) (text name) ≡ true
unfolding name_is_equal
name_is_equal-set_file_name e (plain base) s =
    rw (set_file_name_plain e base s, name83_plain base s) (same_bytes_refl (bytes83 base []))
name_is_equal-set_file_name e (dotted base ext) (s, s') =
    rw (set_file_name_dotted e base ext s s', name83_dotted base ext s s')
      (same_bytes_refl (bytes83 base ext))
