-- ===== src/Names/Tests.antt =====
-- Runs of the operations on names, and instances of their round trips.
use hon_os.Prelude.{ℕ, List, [], ◌∷◌, ◌≡◌, refl, true, arith, replicate}
use hon_os.Files.{DirectoryEntry}
use hon_os.Names.{space, set_file_name, name_is_equal, name_bytes, split_last_dot, toupper}
use hon_os.Names.RoundTrip.{dotted, text, name_is_equal-set_file_name}

abbrev blank : DirectoryEntry
blank = record {
  name = replicate 11 0;
  attr = 0x20;
  first_cluster_high = 0;
  first_cluster_low = 0;
  file_size = 0;
}

-- memo and txt
abbrev memo : List ℕ
memo = b'm' ∷ b'e' ∷ b'm' ∷ b'o' ∷ []

abbrev txt : List ℕ
txt = b't' ∷ b'x' ∷ b't' ∷ []

memo_bytes :
    (set_file_name blank (text (dotted memo txt))).name
    ≡ b'M' ∷ b'E' ∷ b'M' ∷ b'O' ∷ space ∷ space ∷ space ∷ space ∷ b'T' ∷ b'X' ∷ b'T' ∷ []
unfolding set_file_name name_bytes split_last_dot toupper
memo_bytes = refl

name_is_equal-set_file_name_example :
    name_is_equal (set_file_name blank (text (dotted memo txt))) (text (dotted memo txt)) ≡ true
name_is_equal-set_file_name_example =
    name_is_equal-set_file_name blank (dotted memo txt) ((omega arith, refl), (omega arith, refl))
