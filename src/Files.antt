-- ===== src/Files.antt =====
-- kernel/fat.hpp and kernel/fat.cpp: the entries of a directory, and the class `FileDescriptor`.
-- A volume is its file allocation table and the bytes of each cluster: the clusters stand apart from
-- each other and from the table (Fat/Addresses). A file descriptor refers to a directory entry, which
-- its operations take and give back. `none` is undefined behaviour of the source, such as a copy from
-- behind the end of a buffer, or a loop that does not end.
pub mod Stream
pub mod Reading
pub mod Loading
pub mod Writing
mod Tests
use hon_os.Prelude.{
  ℕ, zero, suc, ◌+◌, ◌-◌, ◌*◌, ◌/◌, ◌%◌, ◌^◌, min, bit_and, bit_or, List, [], ◌∷◌, ◌++◌, Option,
  none, some, Bool, true, false, ◌==◌, ltb, leb, if◌then◌else◌, take, drop, length, add64, sub64,
  ◌>>=◌,
}
use hon_os.Fat.{next_cluster, extend_cluster, allocate_cluster_chain, end_of_clusterchain}
use hon_os.Tasks.Queues.{update}

-- The fields of `DirectoryEntry` that the kernel uses.
pub record DirectoryEntry : Type 0 where
  pub name : List ℕ
  pub attr : ℕ
  pub first_cluster_high : ℕ
  pub first_cluster_low : ℕ
  pub file_size : ℕ

pub first_cluster : DirectoryEntry → ℕ
first_cluster e = bit_or e.first_cluster_low (e.first_cluster_high * 2 ^ 16)

pub record Volume : Type 0 where
  pub bytes_per_cluster : ℕ
  pub fat : List ℕ
  pub content : ℕ → List ℕ

pub record FileDescriptor : Type 0 where
  pub rd_off : ℕ
  pub rd_cluster : ℕ
  pub rd_cluster_off : ℕ
  pub wr_off : ℕ
  pub wr_cluster : ℕ
  pub wr_cluster_off : ℕ

-- The constructor.
pub make : FileDescriptor
make = record {
  rd_off = 0;
  rd_cluster = 0;
  rd_cluster_off = 0;
  wr_off = 0;
  wr_cluster = 0;
  wr_cluster_off = 0;
}

-- What the loop of `Read` has read when it ends, and where it stands then.
pub record Chunk : Type 0 where
  pub bytes : List ℕ
  pub cluster : ℕ
  pub cluster_off : ℕ

-- The loop of `Read`, with fuel, for the `left` bytes that are still to be read.
pub read_from : ℕ → Volume → ℕ → ℕ → ℕ → Option Chunk
read_from fuel v cluster off zero =
    some (record { bytes = []; cluster = cluster; cluster_off = off })
read_from zero v cluster off (suc left) = none
read_from (suc fuel) v cluster off (suc left) =
    let n = min (suc left) (v.bytes_per_cluster - off) in
    let bytes = take n (drop off (v.content cluster)) in
    let turned : Option (ℕ × ℕ) =
      if off + n == v.bytes_per_cluster
      then (next_cluster v.fat cluster >>= λ next. some (next, 0))
      else some (cluster, off + n) in
    turned >>= λ (cluster', off'). read_from fuel v cluster' off' (suc left - n) >>= λ rest.
    some (record rest { bytes = bytes ++ rest.bytes })

-- `Read`: the bytes it copies into the buffer, and the descriptor. Each round but the last reads at
-- least one byte, if the offset stays below the size of a cluster.
pub read : Volume → DirectoryEntry → FileDescriptor → ℕ → Option (List ℕ × FileDescriptor)
read v e fd len =
    let cluster = if fd.rd_cluster == 0 then first_cluster e else fd.rd_cluster in
    let len' = min len (sub64 e.file_size fd.rd_off) in
    read_from len' v cluster fd.rd_cluster_off len' >>= λ chunk. some (
      chunk.bytes,
      record fd {
        rd_off = add64 fd.rd_off (length chunk.bytes);
        rd_cluster = chunk.cluster;
        rd_cluster_off = chunk.cluster_off;
      },
    )

-- `LoadFile`.
pub load_file : Volume → DirectoryEntry → ℕ → Option (List ℕ)
load_file v e len = read v e make len >>= λ (bytes, fd). some bytes

-- The loop of `Load`, with fuel: the cluster of an offset, and the offset in it.
pub seek : ℕ → Volume → ℕ → ℕ → Option (ℕ × ℕ)
seek zero v cluster offset = none
seek (suc fuel) v cluster offset =
    let further =
      next_cluster v.fat cluster >>= λ next. seek fuel v next (offset - v.bytes_per_cluster) in
    if leb v.bytes_per_cluster offset then further else some (cluster, offset)

pub load : Volume → DirectoryEntry → ℕ → ℕ → Option (List ℕ)
load v e len offset = seek (suc offset) v (first_cluster e) offset >>= λ (cluster, off).
    read v e (record make { rd_off = offset; rd_cluster = cluster; rd_cluster_off = off }) len
    >>= λ (bytes, fd). some bytes

-- The lambda `num_cluster` of `Write`.
pub num_cluster : Volume → ℕ → ℕ
num_cluster v bytes = sub64 (add64 bytes v.bytes_per_cluster) 1 / v.bytes_per_cluster

-- `wr_cluster_` when `Write` starts, the entry and the table.
pub start_write :
    Volume → DirectoryEntry → FileDescriptor → ℕ → Option (ℕ × DirectoryEntry × Volume)
start_write v e fd len =
    let allocated = allocate_cluster_chain v.fat (num_cluster v len) >>= λ (first, fat). some (
      first,
      record e {
        first_cluster_low = bit_and first 0xffff;
        first_cluster_high = bit_and (first / 2 ^ 16) 0xffff;
      },
      record v { fat = fat },
    ) in
    if fd.wr_cluster == 0
    then (if first_cluster e == 0 then allocated else some (first_cluster e, e, v))
    else some (fd.wr_cluster, e, v)

-- `memcpy` of `n` bytes from the buffer; there must be as many.
pub copy_from : List ℕ → ℕ → ℕ → Option (List ℕ)
copy_from buf total n =
    if ltb (length buf) (total + n) then none else some (take n (drop total buf))

-- The bytes of a cluster with some of them written anew.
unfoldable pub overwrite : List ℕ → ℕ → List ℕ → List ℕ
overwrite old off bytes = take off old ++ (bytes ++ drop (off + length bytes) old)

-- The cluster that `Write` goes on with at the end of one.
pub next_write : Volume → ℕ → ℕ → Option (ℕ × Volume)
next_write v cluster bytes = next_cluster v.fat cluster >>= λ next.
    let extended = extend_cluster v.fat cluster (num_cluster v bytes) >>= λ (last, fat).
    some (last, record v { fat = fat }) in
    if next == end_of_clusterchain then extended else some (next, v)

pub record Written : Type 0 where
  pub volume : Volume
  pub cluster : ℕ
  pub cluster_off : ℕ
  pub total : ℕ

-- The loop of `Write`, with fuel. The source takes the minimum with `len`, not with what is left of it.
pub write_from : ℕ → Volume → List ℕ → ℕ → ℕ → ℕ → ℕ → Option Written
write_from zero v buf len cluster off total = none
write_from (suc fuel) v buf len cluster off total =
    let round : Option Written = (do
      (cluster', v') ←
          if off == v.bytes_per_cluster
          then next_write v cluster (len - total)
          else some (cluster, v)
      let off' = if off == v.bytes_per_cluster then 0 else off
      let n = min len (v.bytes_per_cluster - off')
      bytes ← copy_from buf total n
      let v'' = record v' {
        content = update v'.content cluster' (overwrite (v'.content cluster') off' bytes);
      }
      write_from fuel v'' buf len cluster' (off' + n) (total + n)) in
    if ltb total len
    then round
    else some (record { volume = v; cluster = cluster; cluster_off = off; total = total })

-- `Write`: the bytes it says it has written, the descriptor, the entry and the volume.
pub write :
    Volume
    → DirectoryEntry
    → FileDescriptor
    → List ℕ
    → ℕ
    → Option (ℕ × FileDescriptor × DirectoryEntry × Volume)
write v e fd buf len = do
  (cluster, e', v') ← start_write v e fd len
  w ← write_from (suc len) v' buf len cluster fd.wr_cluster_off 0
  let off = add64 fd.wr_off w.total
  some (
    w.total,
    record fd { wr_off = off; wr_cluster = w.cluster; wr_cluster_off = w.cluster_off },
    record e' { file_size = off % 2 ^ 32 },
    w.volume,
  )
