-- ===== src/Files/Loading.antt =====
-- `Load` and `LoadFile`: reads at an offset, and from the start.
use hon_os.Prelude.{
  ℕ, zero, suc, ◌-◌, ◌≤◌, ◌<◌, ◌≡◌, inl, inr, refl, ap, sym, ◌∙◌, List, some, true, false, leb,
  arith, length, take, drop, Bool-cases, length-append,
}
use hon_os.Prelude.Slices.{drop-drop}
use hon_os.Fat.{next_cluster}
use hon_os.Files.{DirectoryEntry, first_cluster, Volume, FileDescriptor, make, read, seek, load}
use hon_os.Files.Stream.{IsVolume, chain_bytes, At, at_end, inside, next_At, after_cluster}
use hon_os.Files.Reading.{Place, IsFile, Stands, read-Reads}

seek_here :
    (fuel : ℕ) (v : Volume) (c offset : ℕ)
    → leb v.bytes_per_cluster offset ≡ false
    → seek (suc fuel) v c offset ≡ some (c, offset)
unfolding seek
seek_here fuel v c offset h = rw h refl

seek_further :
    (fuel : ℕ) (v : Volume) (c next offset : ℕ)
    → leb v.bytes_per_cluster offset ≡ true
    → next_cluster v.fat c ≡ some next
    → seek (suc fuel) v c offset ≡ seek fuel v next (offset - v.bytes_per_cluster)
unfolding seek
seek_further fuel v c next offset h n = rw (h, n) refl

seek-At :
    (fuel : ℕ) (v : Volume) (c offset : ℕ) (bytes : List ℕ)
    → IsVolume v
    → At v c 0 bytes
    → offset ≤ length bytes
    → offset < fuel
    → (c' off : ℕ) × (seek fuel v c offset ≡ some (c', off)) × At v c' off (drop offset bytes)
seek-At zero v c offset bytes w a l f = absurd (omega arith)
seek-At (suc fuel) v c zero _ w (at_end _ _ z) l f =
    (c, 0, seek_here fuel v c 0 (ground (arith, w.some_bytes)), at_end c 0 z)
seek-At (suc fuel) v c (suc offset) _ w (at_end _ _ z) l f = absurd (omega arith)
seek-At (suc fuel) v c offset bytes w (inside _ _ cs _ z k h e) l f =
    elim (Bool-cases (leb v.bytes_per_cluster offset)) [
      | inl far ↦
          let (next, n, a) = next_At v w c cs k in
          let size = ap length e ∙ length-append (v.content c) (chain_bytes v cs) in
          let past : drop v.bytes_per_cluster bytes ≡ chain_bytes v cs =
            ap (drop v.bytes_per_cluster) e
            ∙ after_cluster v w c 0 v.bytes_per_cluster cs (omega arith) in
          let (c', off, r, a') =
            seek-At fuel v next (offset - v.bytes_per_cluster) (chain_bytes v cs) w a
              (ground (arith, w.whole c)) (ground (arith, w.some_bytes)) in
          let rest : drop offset bytes ≡ drop (offset - v.bytes_per_cluster) (chain_bytes v cs) =
            sym (
              drop-drop v.bytes_per_cluster (offset - v.bytes_per_cluster) offset bytes
                (ground arith))
            ∙ ap (drop (offset - v.bytes_per_cluster)) past in
          (c', off, seek_further fuel v c next offset far n ∙ r, rw rest a')
      | inr near ↦ (
        c,
        offset,
        seek_here fuel v c offset near,
        inside c offset cs (drop offset bytes) z k (ground arith) (ap (drop offset) e),
      )
    ]

-- Where `Load` starts to read.
seek-Stands :
    (v : Volume) (e : DirectoryEntry) (stream : List ℕ) (offset : ℕ)
    → IsFile v e stream
    → offset ≤ e.file_size
    → (c off : ℕ) × (seek (suc offset) v (first_cluster e) offset ≡ some (c, off))
      × Stands v stream (record make { rd_off = offset; rd_cluster = c; rd_cluster_off = off })
seek-Stands v e stream offset f h = go f.start
  where
    go :
        Place v (first_cluster e) 0 stream
        → (c off : ℕ) × (seek (suc offset) v (first_cluster e) offset ≡ some (c, off))
          × Stands v stream (record make { rd_off = offset; rd_cluster = c; rd_cluster_off = off })
    go (inl (z, o, b)) =
        let none_left : offset ≡ 0 = omega (arith, ap length b, f.enough) in
        (
          first_cluster e,
          offset,
          seek_here offset v (first_cluster e) offset (ground (arith, f.volume.some_bytes)),
          inl (z, none_left, none_left),
        )
    go (inr a) =
        let (c, off, r, a') =
          seek-At (suc offset) v (first_cluster e) offset stream f.volume a
            (omega (arith, f.enough)) (omega arith) in
        (c, off, r, inr a')

load_eq :
    (v : Volume) (e : DirectoryEntry) (len offset c off : ℕ) (bytes : List ℕ) (fd' : FileDescriptor)
    → seek (suc offset) v (first_cluster e) offset ≡ some (c, off)
    → read v e (record make { rd_off = offset; rd_cluster = c; rd_cluster_off = off }) len
      ≡ some (bytes, fd')
    → load v e len offset ≡ some bytes
unfolding load
load_eq v e len offset c off bytes fd' r q = rw (r, q) refl

-- `Load` at an offset inside a file returns the bytes from there on, at most `len`.
pub load_lem :
    (v : Volume) (e : DirectoryEntry) (stream : List ℕ) (len offset : ℕ)
    → IsFile v e stream
    → offset ≤ e.file_size
    → load v e len offset ≡ some (take len (drop offset (take e.file_size stream)))
load_lem v e stream len offset f h =
    let (c, off, r, s) = seek-Stands v e stream offset f h in
    let fd : FileDescriptor = record make {
      rd_off = offset;
      rd_cluster = c;
      rd_cluster_off = off;
    } in
    let (bytes, fd', q, d) = read-Reads v e stream fd len f s h in
    load_eq v e len offset c off bytes fd' r q ∙ ap some d.read
