-- ===== src/Files/Writing.antt =====
-- What `Write` does inside one cluster.
use hon_os.Prelude.{
  ℕ, suc, ◌+◌, ◌-◌, ◌%◌, ◌^◌, ◌≤◌, ◌<◌, ◌≡◌, ◌≢◌, refl, ap, ◌∙◌, min, ◌++◌, List, [], ◌∷◌, some,
  true, false, ◌==◌, ltb, arith, length, take, drop, ◌>>=◌, add64, add64-eq,
}
use hon_os.Prelude.Slices.{take_all}
use hon_os.Tasks.Queues.{update}
use hon_os.Files.{
  DirectoryEntry, Volume, FileDescriptor, copy_from, overwrite, write_from, start_write, write,
}

-- A cluster with the given bytes written from offset `off` on.
abbrev pub patch : Volume → ℕ → ℕ → List ℕ → Volume
patch v c off bytes = record v {
  content =
      update v.content c
        (take off (v.content c) ++ (bytes ++ drop (off + length bytes) (v.content c)));
}

write_step :
    (fuel : ℕ) (v : Volume) (buf bytes : List ℕ) (len c off total : ℕ)
    → ltb total len ≡ true
    → (off == v.bytes_per_cluster) ≡ false
    → copy_from buf total (min len (v.bytes_per_cluster - off)) ≡ some bytes
    → write_from (suc fuel) v buf len c off total
      ≡ write_from fuel
          (patch v c off bytes)
          buf
          len
          c
          (off + min len (v.bytes_per_cluster - off))
          (total + min len (v.bytes_per_cluster - off))
unfolding write_from overwrite
write_step fuel v buf bytes len c off total l o r = rw (l, o, r) refl

write_done :
    (fuel : ℕ) (v : Volume) (buf : List ℕ) (len c off total : ℕ)
    → ltb total len ≡ false
    → write_from (suc fuel) v buf len c off total
      ≡ some (record { volume = v; cluster = c; cluster_off = off; total = total })
unfolding write_from
write_done fuel v buf len c off total l = rw l refl

copy_from_lem :
    (buf : List ℕ) (total n : ℕ)
    → total + n ≤ length buf
    → copy_from buf total n ≡ some (take n (drop total buf))
unfolding copy_from
copy_from_lem buf total n h =
    let fits : ltb (length buf) (total + n) ≡ false = ground arith in rw fits refl

write_lem :
    (v : Volume) (e : DirectoryEntry) (fd : FileDescriptor) (buf : List ℕ) (len : ℕ)
    → fd.wr_cluster ≢ 0
    → write v e fd buf len ≡ (
        write_from (suc len) v buf len fd.wr_cluster fd.wr_cluster_off 0 >>= λ w. some (
          w.total,
          record fd {
            wr_off = add64 fd.wr_off w.total;
            wr_cluster = w.cluster;
            wr_cluster_off = w.cluster_off;
          },
          record e { file_size = add64 fd.wr_off w.total % 2 ^ 32 },
          w.volume,
        ))
unfolding write start_write
write_lem v e fd buf len h =
    let started : (fd.wr_cluster == 0) ≡ false = ground arith in rw started refl

loop_within :
    (fuel : ℕ) (v : Volume) (buf : List ℕ) (c off : ℕ)
    → off < v.bytes_per_cluster
    → off + length buf ≤ v.bytes_per_cluster
    → 0 < length buf
    → write_from (suc (suc fuel)) v buf (length buf) c off 0
      ≡ some (record {
        volume = patch v c off buf;
        cluster = c;
        cluster_off = off + length buf;
        total = length buf;
      })
loop_within fuel v buf c off o fits some_bytes =
    let n : min (length buf) (v.bytes_per_cluster - off) ≡ length buf = omega arith in
    let all = ap (λ m. take m buf) n ∙ take_all (length buf) buf (omega arith) in
    let copied = copy_from_lem buf 0 (min (length buf) (v.bytes_per_cluster - off)) (omega arith) in
    let zero_on : 0 + length buf ≡ length buf = omega arith in
    write_step (suc fuel) v buf buf (length buf) c off 0 (ground arith) (ground arith)
      (copied ∙ ap some all)
    ∙ ap (λ m. write_from (suc fuel) (patch v c off buf) buf (length buf) c (off + m) (0 + m)) n
    ∙ write_done fuel (patch v c off buf) buf (length buf) c (off + length buf) (0 + length buf)
        (ground arith)
    ∙ ap
        (λ m. some (record {
          volume = patch v c off buf;
          cluster = c;
          cluster_off = off + length buf;
          total = m;
        }))
        zero_on

-- `Write` through a descriptor with a current cluster, of a buffer that is not empty and fits into what
-- is left of this cluster, where the offset behind it stays below 2 ^ 32: it returns the length, replaces
-- these bytes of the cluster and no other of the volume, and moves the descriptor behind them; the size
-- of the file is then that offset.
pub write_within :
    (v : Volume) (e : DirectoryEntry) (fd : FileDescriptor) (buf : List ℕ)
    → fd.wr_cluster ≢ 0
    → fd.wr_cluster_off < v.bytes_per_cluster
    → fd.wr_cluster_off + length buf ≤ v.bytes_per_cluster
    → 0 < length buf
    → fd.wr_off + length buf < 2 ^ 32
    → write v e fd buf (length buf)
      ≡ some (
        length buf,
        record fd {
          wr_off = fd.wr_off + length buf;
          wr_cluster_off = fd.wr_cluster_off + length buf;
        },
        record e { file_size = fd.wr_off + length buf },
        patch v fd.wr_cluster fd.wr_cluster_off buf,
      )
write_within v e fd [] z o fits some_bytes small = absurd (omega arith)
write_within v e fd (x ∷ xs) z o fits some_bytes small =
    let next = add64-eq fd.wr_off (suc (length xs)) (omega arith) in
    let size : (fd.wr_off + suc (length xs)) % 2 ^ 32 ≡ fd.wr_off + suc (length xs) = omega arith in
    let loop =
      loop_within (length xs) v (x ∷ xs) fd.wr_cluster fd.wr_cluster_off o fits some_bytes in
    write_lem v e fd (x ∷ xs) (suc (length xs)) z ∙ rw (loop, next, size) refl
