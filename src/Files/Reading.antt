-- ===== src/Files/Reading.antt =====
-- What `Read` returns: the bytes of the file from its offset on.
use hon_os.Prelude.{
  ℕ, zero, suc, ◌+◌, ◌-◌, ◌^◌, ◌≤◌, ◌<◌, ◌≡◌, refl, ap, sym, ◌∙◌, min, List, [], ◌++◌, some, true,
  false, ◌==◌, if◌then◌else◌, arith, length, take, drop, add64, sub64, add64-eq, sub64-eq, ◌⊎◌, inl,
  inr,
}
use hon_os.Prelude.Slices.{length-take, length-drop, drop-drop, take_split, drop-take, take_twice}
use hon_os.Files.{DirectoryEntry, first_cluster, Volume, FileDescriptor, Chunk, read_from, read}
use hon_os.Files.Stream.{IsVolume, At, at_end, inside, At-ne, turn, turn-At, first_bytes}

read_round :
    (fuel : ℕ) (v : Volume) (c off left c' off' : ℕ) (rest : Chunk)
    → turn v c off (min (suc left) (v.bytes_per_cluster - off)) ≡ some (c', off')
    → read_from fuel v c' off' (suc left - min (suc left) (v.bytes_per_cluster - off)) ≡ some rest
    → read_from (suc fuel) v c off (suc left)
      ≡ some (record rest {
        bytes =
            take (min (suc left) (v.bytes_per_cluster - off)) (drop off (v.content c))
            ++ rest.bytes;
      })
unfolding read_from
read_round fuel v c off left c' off' rest t r = rw (t, r) refl

-- The loop reads the next `k` bytes of the file, and goes on behind them.
pub record Followed (v : Volume) (bytes : List ℕ) (k : ℕ) (chunk : Chunk) : Type 0 where
  pub read : chunk.bytes ≡ take k bytes
  pub at : At v chunk.cluster chunk.cluster_off (drop k bytes)

read_from-Followed :
    (fuel : ℕ) (v : Volume) (c off k : ℕ) (bytes : List ℕ)
    → IsVolume v
    → At v c off bytes
    → k ≤ length bytes
    → k ≤ fuel
    → (chunk : Chunk) × (read_from fuel v c off k ≡ some chunk) × Followed v bytes k chunk
unfolding read_from
read_from-Followed fuel v c off zero bytes w a l f =
    (record { bytes = []; cluster = c; cluster_off = off }, refl, record { read = refl; at = a })
read_from-Followed zero v c off (suc left) bytes w a l f = absurd (omega arith)
read_from-Followed (suc fuel) v c off (suc left) _ w (at_end _ _ z) l f = absurd (omega arith)
read_from-Followed (suc fuel) v c off (suc left) bytes w (inside _ _ cs _ z k h e) l f =
    let n : ℕ = min (suc left) (v.bytes_per_cluster - off) in
    let (c', off', t, a) = turn-At v w c off n cs bytes z k (omega arith) e in
    let (rest, r, d) =
      read_from-Followed fuel v c' off' (suc left - n) (drop n bytes) w a
        (omega (arith, length-drop n bytes)) (omega arith) in
    let here = first_bytes v w c off n cs (omega arith) ∙ ap (take n) (sym e) in
    (
      record rest { bytes = take n (drop off (v.content c)) ++ rest.bytes },
      read_round fuel v c off left c' off' rest t r,
      record {
        read =
            ap (λ bs. bs ++ rest.bytes) here
            ∙ ap (λ bs. take n bytes ++ bs) d.read
            ∙ take_split n (suc left - n) (suc left) bytes (omega arith);
        at = rw (← drop-drop n (suc left - n) (suc left) bytes (omega arith)) d.at;
      },
    )

-- A place in the file: the end of an empty file, which has no cluster, or one on the chain.
abbrev pub Place : Volume → ℕ → ℕ → List ℕ → Type 0
Place v c off bytes = ((c ≡ 0) × (off ≡ 0) × (bytes ≡ [])) ⊎ At v c off bytes

-- The bytes along the chain of a file, of which the first `file_size` are the file.
pub record IsFile (v : Volume) (e : DirectoryEntry) (stream : List ℕ) : Type 0 where
  pub volume : IsVolume v
  pub start : Place v (first_cluster e) 0 stream
  pub enough : e.file_size ≤ length stream
  pub small : e.file_size < 2 ^ 32

-- A descriptor that has not read yet, or stands behind the bytes it has read.
abbrev pub Stands : Volume → List ℕ → FileDescriptor → Type 0
Stands v stream fd =
    ((fd.rd_cluster ≡ 0) × (fd.rd_cluster_off ≡ 0) × (fd.rd_off ≡ 0))
    ⊎ At v fd.rd_cluster fd.rd_cluster_off (drop fd.rd_off stream)

-- What `Read` of `len` bytes has done at a descriptor inside the file.
pub record Reads (v : Volume) (e : DirectoryEntry) (stream : List ℕ) (fd : FileDescriptor) (len : ℕ)
    (bytes : List ℕ) (fd' : FileDescriptor) : Type 0 where
  pub read : bytes ≡ take len (drop fd.rd_off (take e.file_size stream))
  pub forward : fd'.rd_off ≡ fd.rd_off + length bytes
  pub inside : fd'.rd_off ≤ e.file_size
  pub stands : Stands v stream fd'

read_from-Place :
    (v : Volume) (c off k : ℕ) (bytes : List ℕ)
    → IsVolume v
    → Place v c off bytes
    → k ≤ length bytes
    → (chunk : Chunk) × (read_from k v c off k ≡ some chunk)
      × (chunk.bytes ≡ take k bytes)
      × (((c ≡ 0) × (k ≡ 0) × (chunk.cluster ≡ 0) × (chunk.cluster_off ≡ 0))
          ⊎ At v chunk.cluster chunk.cluster_off (drop k bytes))
unfolding read_from
read_from-Place v c off zero bytes w (inl (z, y, e)) l =
    (record { bytes = []; cluster = c; cluster_off = off }, refl, refl, inl (z, refl, z, y))
read_from-Place v c off (suc k) bytes w (inl (z, y, e)) l = absurd (ground arith)
read_from-Place v c off k bytes w (inr a) l =
    let (chunk, r, d) = read_from-Followed k v c off k bytes w a l (omega arith) in
    (chunk, r, d.read, inr d.at)

abbrev cursor : DirectoryEntry → FileDescriptor → ℕ
cursor e fd = if fd.rd_cluster == 0 then first_cluster e else fd.rd_cluster

cursor-Place :
    (v : Volume) (e : DirectoryEntry) (stream : List ℕ) (fd : FileDescriptor)
    → IsFile v e stream
    → Stands v stream fd
    → Place v (cursor e fd) fd.rd_cluster_off (drop fd.rd_off stream)
cursor-Place v e stream fd f (inl (z, o, p)) =
    let fresh : (fd.rd_cluster == 0) ≡ true = ground arith in rw (fresh, o, p) f.start
cursor-Place v e stream fd f (inr a) =
    let later : (fd.rd_cluster == 0) ≡ false = ground (arith, At-ne v a) in rw later (inr a)

read_lem :
    (v : Volume) (e : DirectoryEntry) (fd : FileDescriptor) (len left : ℕ) (chunk : Chunk)
    → min len (sub64 e.file_size fd.rd_off) ≡ left
    → read_from left v (cursor e fd) fd.rd_cluster_off left ≡ some chunk
    → read v e fd len
      ≡ some (
        chunk.bytes,
        record fd {
          rd_off = add64 fd.rd_off (length chunk.bytes);
          rd_cluster = chunk.cluster;
          rd_cluster_off = chunk.cluster_off;
        },
      )
unfolding read
read_lem v e fd len left chunk l r = rw (l, r) refl

-- Only a descriptor that has not read has cluster 0.
cursor_zero :
    (v : Volume) (e : DirectoryEntry) (stream : List ℕ) (fd : FileDescriptor)
    → Stands v stream fd
    → cursor e fd ≡ 0
    → fd.rd_off ≡ 0
cursor_zero v e stream fd (inl (z, o, p)) h = p
cursor_zero v e stream fd (inr a) h = ground (arith, At-ne v a)

moved_place :
    (v : Volume) (e : DirectoryEntry) (stream : List ℕ) (fd : FileDescriptor) (k next : ℕ)
    (chunk : Chunk)
    → fd.rd_off + k ≡ next
    → Stands v stream fd
    → (((cursor e fd ≡ 0) × (k ≡ 0) × (chunk.cluster ≡ 0) × (chunk.cluster_off ≡ 0))
        ⊎ At v chunk.cluster chunk.cluster_off (drop k (drop fd.rd_off stream)))
    → Stands v stream (record fd {
      rd_off = next;
      rd_cluster = chunk.cluster;
      rd_cluster_off = chunk.cluster_off;
    })
moved_place v e stream fd k next chunk n s (inl (z, e0, c, o)) =
    inl (c, o, omega (arith, cursor_zero v e stream fd s z))
moved_place v e stream fd k next chunk n s (inr a) =
    inr (rw (← drop-drop fd.rd_off k next stream n) a)

-- `Read` inside a file returns the next bytes, at most `len` and no more than there are, and moves
-- the descriptor behind them, where the next `Read` goes on.
pub read-Reads :
    (v : Volume) (e : DirectoryEntry) (stream : List ℕ) (fd : FileDescriptor) (len : ℕ)
    → IsFile v e stream
    → Stands v stream fd
    → fd.rd_off ≤ e.file_size
    → (bytes : List ℕ) × (fd' : FileDescriptor) × (read v e fd len ≡ some (bytes, fd'))
      × Reads v e stream fd len bytes fd'
read-Reads v e stream fd len f s p =
    let k : ℕ = min len (e.file_size - fd.rd_off) in
    let rest = sub64-eq e.file_size fd.rd_off (omega (arith, f.small)) p in
    let (chunk, r, b, place) =
      read_from-Place v (cursor e fd) fd.rd_cluster_off k (drop fd.rd_off stream) f.volume
        (cursor-Place v e stream fd f s) (omega (arith, length-drop fd.rd_off stream, f.enough)) in
    let size : length chunk.bytes ≡ k =
      ap length b
      ∙ length-take k (drop fd.rd_off stream)
      ∙ omega (arith, length-drop fd.rd_off stream, f.enough) in
    let next = add64-eq fd.rd_off (length chunk.bytes) (omega (arith, f.small)) in
    (
      chunk.bytes,
      record fd {
        rd_off = add64 fd.rd_off (length chunk.bytes);
        rd_cluster = chunk.cluster;
        rd_cluster_off = chunk.cluster_off;
      },
      read_lem v e fd len k chunk (ap (min len) rest) r,
      record {
        read =
            b
            ∙ sym (
                ap (take len) (drop-take fd.rd_off e.file_size stream)
                ∙ take_twice len (e.file_size - fd.rd_off) (drop fd.rd_off stream));
        forward = next;
        inside = omega arith;
        stands =
            moved_place v e stream fd k (add64 fd.rd_off (length chunk.bytes)) chunk (omega arith) s
              place;
      },
    )
