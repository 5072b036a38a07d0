-- ===== src/Storage/File/Content.antt =====
-- The bytes of a file by themselves, and the reads of one cluster: fs/fat16/file.rs of
-- pkg/storage/src.
use operating_system_experim.Prelude.{
  ℕ, zero, suc, ◌+◌, ◌-◌, ◌*◌, ◌/◌, ◌%◌, ◌^◌, ◌≤◌, ◌<◌, min, ◌≡◌, refl, sym, ap, subst, ◌∙◌, ◌≢◌,
  none, some, List, [], ◌∷◌, ◌++◌, arith, length, take, drop, length-append, length-drop, take-nil,
  drop-nil, take-append, take-min, drop-append_le, drop-append_past,
}
use native.Mathlib.Nat.{mod-lt, div-lt_iff_lt-mul, div-add-mod'}
use operating_system_experim.Storage.Outcome.{ok}
use operating_system_experim.Storage.Bpb.{bytes_per_sector, sectors_per_cluster}
use operating_system_experim.Storage.Fat.{Fat16Impl, cluster_to_sector, get_next_cluster}
use operating_system_experim.Storage.File.{cluster_size, read_sectors, read_from_cluster}

-- The sectors of a disk `D` one after the other.
abbrev pub sectors : (ℕ → List ℕ) → ℕ → ℕ → List ℕ
sectors D sector zero = []
sectors D sector (suc count) = D sector ++ sectors D (sector + 1) count

-- The device answers the bytes of `D` for these sectors, each of the volume's size.
abbrev pub IsReadable : Fat16Impl → (ℕ → List ℕ) → ℕ → ℕ → Type 0
IsReadable fs D sector zero = Unit
IsReadable fs D sector (suc count) =
    (fs.inner sector ≡ ok (D sector))
    × (length (D sector) ≡ bytes_per_sector fs.bpb)
    × IsReadable fs D (sector + 1) count

abbrev pub cluster_bytes : Fat16Impl → (ℕ → List ℕ) → ℕ → List ℕ
cluster_bytes fs D c = sectors D (cluster_to_sector fs c) (sectors_per_cluster fs.bpb)

-- `cs` follows `c` in the table to the end of the chain, and all their sectors can be read.
abbrev pub IsChain : Fat16Impl → (ℕ → List ℕ) → ℕ → List ℕ → Type 0
IsChain fs D c [] =
    (c ≢ 0)
    × (get_next_cluster fs (c % 2 ^ 16) ≡ ok none)
    × IsReadable fs D (cluster_to_sector fs c) (sectors_per_cluster fs.bpb)
IsChain fs D c (next ∷ cs) =
    ((c ≢ 0)
      × (get_next_cluster fs (c % 2 ^ 16) ≡ ok (some next))
      × IsReadable fs D (cluster_to_sector fs c) (sectors_per_cluster fs.bpb))
    × IsChain fs D next cs

-- The bytes of the clusters of a chain.
abbrev pub content : Fat16Impl → (ℕ → List ℕ) → ℕ → List ℕ → List ℕ
content fs D c [] = cluster_bytes fs D c
content fs D c (next ∷ cs) = cluster_bytes fs D c ++ content fs D next cs

pub length-sectors :
    (fs : Fat16Impl) (D : ℕ → List ℕ) (count sector : ℕ)
    → IsReadable fs D sector count
    → length (sectors D sector count) ≡ count * bytes_per_sector fs.bpb
length-sectors fs D zero sector h = omega arith
length-sectors fs D (suc count) sector (_, here, h) = ground (
  arith,
  length-append (D sector) (sectors D (sector + 1) count),
  length-sectors fs D count (sector + 1) h,
)

-- A prefix of a block and what follows it, after some bytes of the block are left out.
pub take-drop_append :
    (want start : ℕ) (b rest : List ℕ)
    → start ≤ length b
    → take want (drop start (b ++ rest))
      ≡ take (min want (length b - start)) (drop start b)
        ++ take (want - min want (length b - start)) rest
take-drop_append want start b rest h =
    ap (take want) (drop-append_le start b rest h)
    ∙ take-append want (drop start b) rest
    ∙ ground (arith, take-min want (drop start b), length-drop start b)

read_sectors_lem :
    (fs : Fat16Impl) (D : ℕ → List ℕ) (count sector start want : ℕ)
    → IsReadable fs D sector count
    → start ≤ bytes_per_sector fs.bpb
    → read_sectors fs count sector start want ≡ ok (take want (drop start (sectors D sector count)))
unfolding read_sectors
read_sectors_lem fs D zero sector start want h le = rw (drop-nil start, take-nil want)
read_sectors_lem fs D (suc count) sector start zero h le = refl
read_sectors_lem fs D (suc count) sector start (suc n) (e, here, h) le = ground (
  arith,
  take-drop_append (suc n) start (D sector) (sectors D (sector + 1) count),
  read_sectors_lem fs D count (sector + 1) 0 (suc n - min (suc n) (bytes_per_sector fs.bpb - start))
      h,
)

drop-sectors :
    (fs : Fat16Impl) (D : ℕ → List ℕ) (q sector count r s n : ℕ)
    → IsReadable fs D sector count
    → sector + q ≡ s
    → n + q ≡ count
    → (drop (q * bytes_per_sector fs.bpb + r) (sectors D sector count) ≡ drop r (sectors D s n))
      × IsReadable fs D s n
drop-sectors fs D zero sector count r s n h es en =
    let es' : sector ≡ s = omega arith in
    let en' : count ≡ n = omega arith in
    (
      ap (λ k. drop k (sectors D sector count)) (omega arith)
          ∙ ap (λ k. drop r (sectors D k count)) es'
          ∙ ap (λ k. drop r (sectors D s k)) en',
      subst (λ k. IsReadable fs D k n) es' (subst (IsReadable fs D sector) en' h),
    )
drop-sectors fs D (suc q) sector zero r s n h es en = absurd (omega arith)
drop-sectors fs D (suc q) sector (suc count) r s n (e, here, h) es en =
    let bps = bytes_per_sector fs.bpb in
    let (rest, ok_rest) =
      drop-sectors fs D q (sector + 1) count r s n h (omega arith) (omega arith) in
    (
      ap (λ k. drop k (D sector ++ sectors D (sector + 1) count)) (omega (arith, here))
          ∙ drop-append_past (D sector) (sectors D (sector + 1) count) (q * bps + r)
          ∙ rest,
      ok_rest,
    )

right_pos : (x a b : ℕ) → x < a * b → 0 < b
right_pos x a zero h = absurd (omega arith)
right_pos x a (suc b) h = omega arith

mod-le : (n m : ℕ) → 0 < m → n % m ≤ m
mod-le n m h = omega (arith, mod_lt)
  where
    mod_lt : n % m < m
    mod_lt = mod-lt n h

-- A read from one cluster copies the bytes of the cluster from the offset on, as many as it can.
pub read_from_cluster_lem :
    (fs : Fat16Impl) (D : ℕ → List ℕ) (c offset want : ℕ)
    → IsReadable fs D (cluster_to_sector fs c) (sectors_per_cluster fs.bpb)
    → offset < cluster_size fs
    → read_from_cluster fs c offset want ≡ ok (take want (drop offset (cluster_bytes fs D c)))
unfolding read_from_cluster
read_from_cluster_lem fs D c offset want h lt =
    let bps = bytes_per_sector fs.bpb in
    let spc = sectors_per_cluster fs.bpb in
    let first = offset / bps in
    let pos : 0 < bps = right_pos offset spc bps lt in
    let q_lt : first < spc = (div-lt_iff_lt-mul pos).1 lt in
    let (dropped, readable) =
      drop-sectors fs D first (cluster_to_sector fs c) spc (offset % bps)
        (cluster_to_sector fs c + first) (spc - first) h refl (omega arith) in
    read_sectors_lem fs D (spc - first) (cluster_to_sector fs c + first) (offset % bps) want
      readable (mod-le offset bps pos)
    ∙ ap (λ l. ok (take want l))
        (sym dropped ∙ ap (λ k. drop k (cluster_bytes fs D c)) (div-add-mod' offset bps))
