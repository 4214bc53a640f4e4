-- ===== src/Names.antt =====
-- kernel/fat.cpp: names of files, as text and as the 11 bytes of a directory entry. A text is the list
-- of its characters before the closing 0.
pub mod Slots
pub mod RoundTrip
pub mod Format
mod Tests
use hon_os.Prelude.{
  ℕ, zero, suc, ◌+◌, ◌-◌, List, [], ◌∷◌, ◌++◌, map, Option, none, some, Bool, true, false, ◌&&◌,
  ◌==◌, ltb, leb, if◌then◌else◌, take, drop, replicate, set, length,
}
use hon_os.Files.{DirectoryEntry}

abbrev pub dot : ℕ
dot = b'.'

abbrev pub space : ℕ
space = 0x20

-- `toupper` of the C locale.
pub toupper : ℕ → ℕ
toupper c = if leb b'a' c && leb c b'z' then c - 32 else c

-- `memset` of spaces, and the characters written from the first byte on.
abbrev pub pad : ℕ → List ℕ → List ℕ
pad n cs = cs ++ replicate (n - length cs) space

-- A character before the ones that are kept.
pub keep : ℕ → List ℕ → List ℕ
keep c [] = if c == space then [] else c ∷ []
keep c (d ∷ ds) = c ∷ d ∷ ds

-- The loops of `ReadName` that cut off spaces at the end.
pub trim : List ℕ → List ℕ
trim [] = []
trim (c ∷ cs) = keep c (trim cs)

-- The text that starts in a buffer.
pub c_string : List ℕ → List ℕ
c_string [] = []
c_string (c ∷ cs) = if c == 0 then [] else c ∷ c_string cs

-- `ReadName`: the base and the extension.
pub read_name : DirectoryEntry → List ℕ × List ℕ
read_name e = (c_string (trim (take 8 e.name)), c_string (trim (take 3 (drop 8 e.name))))

-- The extension with its dot, if there is one.
pub suffix : List ℕ → List ℕ
suffix [] = []
suffix (c ∷ cs) = dot ∷ c ∷ cs

pub format_name : DirectoryEntry → List ℕ
format_name e = let (base, ext) = read_name e in base ++ suffix ext

-- The loop of `NameIsEqual`, from byte `i83` of the name that is made on.
pub name83_from : List ℕ → ℕ → List ℕ → List ℕ
name83_from [] i83 name83 = name83
name83_from (c ∷ cs) i83 name83 =
    let after_dot = name83_from cs 8 name83 in
    let written = name83_from cs (i83 + 1) (set name83 i83 (toupper c)) in
    if ltb i83 11 then (if c == dot then after_dot else written) else name83

-- `memcmp` of two buffers of the same length.
pub same_bytes : List ℕ → List ℕ → Bool
same_bytes [] [] = true
same_bytes [] (d ∷ ds) = false
same_bytes (c ∷ cs) [] = false
same_bytes (c ∷ cs) (d ∷ ds) = if c == d then same_bytes cs ds else false

pub name_is_equal : DirectoryEntry → List ℕ → Bool
name_is_equal e name = same_bytes e.name (name83_from name 0 (replicate 11 space))

-- `strrchr(name, '.')`: what stands before the last dot, and behind it.
pub split_last_dot : List ℕ → Option (List ℕ × List ℕ)
split_last_dot [] = none
split_last_dot (c ∷ cs) = elim (split_last_dot cs) [
  | some (before, after) ↦ some (c ∷ before, after)
  | none ↦ if c == dot then some ([], cs) else none
]

-- The bytes that `SetFileName` writes, with a dot and without one.
pub name_bytes : List ℕ → Option (List ℕ × List ℕ) → List ℕ
name_bytes name none = pad 8 (map toupper (take 8 name)) ++ pad 3 []
name_bytes name (some (base, ext)) =
    pad 8 (map toupper (take 8 base)) ++ pad 3 (map toupper (take 3 ext))

pub set_file_name : DirectoryEntry → List ℕ → DirectoryEntry
set_file_name e name = record e { name = name_bytes name (split_last_dot name) }
