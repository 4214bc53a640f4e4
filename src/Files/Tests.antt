-- ===== src/Files/Tests.antt =====
-- Runs of `Read`, `Load` and `Write` on a volume of small clusters, and instances of their properties.
use hon_os.Prelude.{
  ℕ, List, [], ◌∷◌, ◌≡◌, refl, Option, some, none, arith, inl, inr, take, drop, ◌+◌, ◌<◌, ◌≤◌,
  length,
}
use hon_os.Fat.Chains.{end_of, link_to}
use hon_os.Files.{
  DirectoryEntry, first_cluster, Volume, FileDescriptor, make, read, read_from, load, write,
}
use hon_os.Files.Stream.{inside}
use hon_os.Files.Reading.{IsFile, Stands, Reads, read-Reads}
use hon_os.Files.Loading.{load_lem}
use hon_os.Files.Writing.{patch, write_within}

-- Clusters of 4 bytes, each with its own number; clusters 2 and 4 are a chain.
abbrev volume : Volume
volume = record {
  bytes_per_cluster = 4;
  fat = 0x0ffffff8 ∷ 0x0fffffff ∷ 4 ∷ 0 ∷ 0x0fffffff ∷ 0 ∷ [];
  content = λ c. c ∷ c ∷ c ∷ c ∷ [];
}

abbrev file : DirectoryEntry
file = record {
  name = [];
  attr = 0x20;
  first_cluster_high = 0;
  first_cluster_low = 2;
  file_size = 7;
}

abbrev stream : List ℕ
stream = 2 ∷ 2 ∷ 2 ∷ 2 ∷ 4 ∷ 4 ∷ 4 ∷ 4 ∷ []

file-IsFile : IsFile volume file stream
unfolding first_cluster
file-IsFile = record {
  volume = record { some_bytes = omega arith; whole = λ c. refl };
  start = inr (
      inside 2 0 (4 ∷ []) stream (omega arith)
        (link_to 2 4 [] refl (omega arith) (omega arith) (end_of 4 0x0fffffff refl (omega arith)))
        (omega arith) refl);
  enough = omega arith;
  small = omega arith;
}

-- A descriptor behind the first 5 bytes.
abbrev behind_five : FileDescriptor
behind_five = record make { rd_off = 5; rd_cluster = 4; rd_cluster_off = 1 }

behind_five-Stands : Stands volume stream behind_five
behind_five-Stands = inr (
    inside 4 1 [] (4 ∷ 4 ∷ 4 ∷ []) (omega arith) (end_of 4 0x0fffffff refl (omega arith))
      (omega arith) refl)

read_three :
    read volume file make 3
    ≡ some (2 ∷ 2 ∷ 2 ∷ [], record make { rd_off = 3; rd_cluster = 2; rd_cluster_off = 3 })
unfolding read read_from make first_cluster hon_os.Prelude.sub64 hon_os.Prelude.add64
read_three = refl

read-Reads_example :
    (bytes : List ℕ) × (fd' : FileDescriptor) × (read volume file behind_five 9 ≡ some (bytes, fd'))
    × Reads volume file stream behind_five 9 bytes fd'
read-Reads_example =
    read-Reads volume file stream behind_five 9 file-IsFile behind_five-Stands (omega arith)

load_lem_example : load volume file 3 3 ≡ some (take 3 (drop 3 (take 7 stream)))
load_lem_example = load_lem volume file stream 3 3 file-IsFile (omega arith)

-- A descriptor that has written one byte of cluster 4.
abbrev writer : FileDescriptor
writer = record make { wr_off = 5; wr_cluster = 4; wr_cluster_off = 1 }

write_within_example :
    write volume file writer (6 ∷ 7 ∷ 8 ∷ []) 3
    ≡ some (
      3,
      record writer { wr_off = 8; wr_cluster_off = 4 },
      record file { file_size = 8 },
      patch volume 4 1 (6 ∷ 7 ∷ 8 ∷ []),
    )
write_within_example =
    write_within volume file writer (6 ∷ 7 ∷ 8 ∷ []) (omega arith) (omega arith) (omega arith)
      (omega arith) (omega arith)
