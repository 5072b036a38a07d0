-- ===== src/Storage/Fat/Layout.antt =====
-- Where a volume keeps its parts: `new`, `cluster_to_sector` and `get_next_cluster` of
-- fs/fat16/impls.rs (pkg/storage/src).
use operating_system_experim.Prelude.{
  ℕ, ◌+◌, ◌-◌, ◌*◌, ◌/◌, ◌≤◌, ◌<◌, ◌≡◌, ◌≢◌, some, List, arith, ltb, ltb→lt, ltb→ge, Bool-cases,
  inl, inr, refl,
}
use native.Mathlib.Nat.{lt-div-mul-add, div-mul-le_self, mul-le-mul_right}
use operating_system_experim.Storage.Outcome.{Outcome, ok}
use operating_system_experim.Storage.DirEntry.{root_dir}
use operating_system_experim.Storage.Bpb.{
  new_bpb, bytes_per_sector, sectors_per_cluster, fat_count, sectors_per_fat, root_entries_count,
  trail,
}
use operating_system_experim.Storage.Fat.{Fat16Impl, new, cluster_to_sector, get_next_cluster}

-- The regions of a volume: reserved sectors, tables, root directory and data, one after the other;
-- the root directory has room for its entries and less than a sector too much.
abbrev pub IsLaidOut : Fat16Impl → Type 0
IsLaidOut fs =
    (bytes_per_sector fs.bpb ≢ 0)
    × (trail fs.bpb ≡ 0xAA55)
    × (fs.first_root_dir_sector ≡ fs.fat_start + fat_count fs.bpb * sectors_per_fat fs.bpb)
    × (root_entries_count fs.bpb * 32
        ≤ (fs.first_data_sector - fs.first_root_dir_sector) * bytes_per_sector fs.bpb)
    × ((fs.first_data_sector - fs.first_root_dir_sector) * bytes_per_sector fs.bpb
        < root_entries_count fs.bpb * 32 + bytes_per_sector fs.bpb)
    × (fs.first_root_dir_sector ≤ fs.first_data_sector)

-- A division rounded up.
ceiling : (n b : ℕ) → b ≢ 0 → (n ≤ (n + (b - 1)) / b * b) × ((n + (b - 1)) / b * b < n + b)
ceiling n b h = (omega (arith, mul_lem), omega (arith, div-mul-le_self (n + (b - 1)) b))
  where
    pos : 0 < b
    pos = ground arith

    mul_lem : n + (b - 1) < (n + (b - 1)) / b * b + b
    mul_lem = lt-div-mul-add pos

-- A volume that `new` accepts has sectors of one byte or more and the signature 0xAA55, and its
-- regions are in order: the root directory starts behind the tables, has room for its entries with
-- less than a sector to spare, and ends before the data.
pub new-IsLaidOut :
    (inner : ℕ → Outcome (List ℕ)) (fs : Fat16Impl) → new inner ≡ ok fs → IsLaidOut fs
unfolding new new_bpb
new-IsLaidOut inner fs h =
    ground (arith, ceiling (root_entries_count fs.bpb * 32) (bytes_per_sector fs.bpb))

-- If the data starts behind the root directory, the sectors of a cluster `a` from 2 on end before
-- those of any later cluster `b` below the number of the root directory, and none starts before the
-- data.
cluster_to_sector-apart :
    (fs : Fat16Impl) (a b : ℕ)
    → fs.first_root_dir_sector ≤ fs.first_data_sector
    → 2 ≤ a
    → a < b
    → b < root_dir
    → (cluster_to_sector fs a + sectors_per_cluster fs.bpb ≤ cluster_to_sector fs b)
      × (fs.first_data_sector ≤ cluster_to_sector fs a)
unfolding cluster_to_sector
cluster_to_sector-apart fs a b ordered low apart high =
    let k = sectors_per_cluster fs.bpb in
    let gap : a - 2 + 1 ≤ b - 2 = omega arith in ground (arith, mul-le-mul_right k gap)

-- A sector of which a byte belongs to the first `n` bytes is one of those that hold them.
within_region : (k size bytes n : ℕ) → n ≤ size * bytes → k * bytes < n → k < size
within_region k size bytes n fits before = elim (Bool-cases (ltb k size)) [
  | inl less ↦ ltb→lt k size less
  | inr more ↦
      let over : size * bytes ≤ k * bytes = mul-le-mul_right bytes (ltb→ge k size more) in
      absurd (omega (arith, over, fits, before))
]

-- The number that `get_next_cluster` answers is never 0, a free entry, and always below 0xFFF8, the
-- first of the end marks.
get_next_cluster-link :
    (fs : Fat16Impl) (c next : ℕ)
    → get_next_cluster fs c ≡ ok (some next)
    → (next ≢ 0) × (next < 0xFFF8)
unfolding get_next_cluster
get_next_cluster-link fs c next h = ground arith

first_cluster : (fs : Fat16Impl) → cluster_to_sector fs 2 ≡ fs.first_data_sector
unfolding cluster_to_sector
first_cluster fs = ground arith

root_dir-sector : (fs : Fat16Impl) → cluster_to_sector fs root_dir ≡ fs.first_root_dir_sector
unfolding cluster_to_sector
root_dir-sector fs = refl

-- On a volume that `new` accepts: cluster 2 begins with the data, and the sectors of a cluster `a` from 2
-- on end before those of any later cluster `b` below the number of the root directory. The root directory starts behind the tables, and
-- each sector with a byte of its entries lies before those of `a`. The number that `get_next_cluster`
-- answers is never 0, a free entry, and always below 0xFFF8, the first of the end marks.
pub cluster_to_sector-get_next_cluster :
    (inner : ℕ → Outcome (List ℕ)) (fs : Fat16Impl) (a b c next : ℕ)
    → new inner ≡ ok fs
    → 2 ≤ a
    → a < b
    → b < root_dir
    → get_next_cluster fs c ≡ ok (some next)
    → (cluster_to_sector fs 2 ≡ fs.first_data_sector)
      × (cluster_to_sector fs a + sectors_per_cluster fs.bpb ≤ cluster_to_sector fs b)
      × (fs.fat_start + fat_count fs.bpb * sectors_per_fat fs.bpb ≤ cluster_to_sector fs root_dir)
      × ((k : ℕ)
          → k * bytes_per_sector fs.bpb < root_entries_count fs.bpb * 32
          → cluster_to_sector fs root_dir + k < cluster_to_sector fs a)
      × ((next ≢ 0) × (next < 0xFFF8))
cluster_to_sector-get_next_cluster inner fs a b c next accepted low apart high link =
    let (_, _, behind, room, _, ordered) = new-IsLaidOut inner fs accepted in
    let clusters = cluster_to_sector-apart fs a b ordered low apart high in
    (
      first_cluster fs,
      clusters.0,
      omega (arith, behind, root_dir-sector fs),
      λ k before.
          let inside =
            within_region k (fs.first_data_sector - fs.first_root_dir_sector)
              (bytes_per_sector fs.bpb) (root_entries_count fs.bpb * 32) room before in
          omega (arith, inside, clusters.1, root_dir-sector fs),
      get_next_cluster-link fs c next link,
    )
