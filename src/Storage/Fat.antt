-- ===== src/Storage/Fat.antt =====
-- The FAT16 volume: `Fat16Impl` of fs/fat16/mod.rs and fs/fat16/impls.rs (pkg/storage/src). The
-- volume is read only, so its device is a function from the number of a block to its bytes. Loops
-- along a chain of clusters run on `fuel`, since a chain can be a circle.
pub mod Entries
pub mod Layout
pub mod Loops
use operating_system_experim.Prelude.{
  ℕ, zero, suc, ◌+◌, ◌-◌, ◌*◌, ◌/◌, ◌%◌, ◌^◌, Bool, true, false, not, ◌&&◌, ◌||◌, Option, none,
  some, List, [], ◌∷◌, ◌++◌, ltb, leb, ◌==◌, if◌then◌else◌, get_or,
}
use operating_system_experim.Storage.Outcome.{
  Outcome, ok, err, panic, unfinished, ◌>>=◌, not_a_directory, byte_at, slice,
}
use operating_system_experim.Storage.ShortName.{Text, ShortFileName, matches, parse as parse_name}
use operating_system_experim.Storage.DirEntry.{
  DirEntry, root_dir, is_valid, is_directory, is_long_name, parse as parse_entry,
}
use operating_system_experim.Storage.Bpb.{
  new_bpb, bytes_per_sector, sectors_per_cluster, reserved_sector_count, fat_count, sectors_per_fat,
  root_entries_count,
}

pub record Fat16Impl : Type 0 where
  pub inner : ℕ → Outcome (List ℕ)
  pub bpb : List ℕ
  pub fat_start : ℕ
  pub first_data_sector : ℕ
  pub first_root_dir_sector : ℕ

-- The sectors of the root directory, rounded up.
abbrev pub root_dir_size : List ℕ → ℕ
root_dir_size bpb =
    (root_entries_count bpb * 32 + (bytes_per_sector bpb - 1)) / bytes_per_sector bpb

-- `unwrap()`
abbrev pub unwrap : {A : Type 0} → Outcome A → Outcome A
unwrap (ok a) = ok a
unwrap (err e) = panic
unwrap panic = panic
unwrap unfinished = unfinished

-- Sectors of no bytes make the division panic.
unfoldable pub new : (ℕ → Outcome (List ℕ)) → Outcome Fat16Impl
unfolding new_bpb
new inner = do
  block ← unwrap (inner 0)
  bpb ← unwrap (new_bpb block)
  elim (bytes_per_sector bpb == 0) [
    | true ↦ panic
    | false ↦
        let first_root = reserved_sector_count bpb + fat_count bpb * sectors_per_fat bpb in
        ok (record {
          inner = inner;
          bpb = bpb;
          fat_start = reserved_sector_count bpb;
          first_data_sector = first_root + root_dir_size bpb;
          first_root_dir_sector = first_root;
        })
  ]

unfoldable pub cluster_to_sector : Fat16Impl → ℕ → ℕ
cluster_to_sector fs c =
    if c == root_dir
    then fs.first_root_dir_sector
    else if ltb c 2
    then fs.first_data_sector
    else (c - 2) * sectors_per_cluster fs.bpb + fs.first_data_sector

-- An entry of the table: free, the end of a chain, or the next cluster.
abbrev pub fat_entry_next : ℕ → Option ℕ
fat_entry_next entry = if entry == 0 || leb 0xFFF8 entry then none else some entry

unfoldable pub get_next_cluster : Fat16Impl → ℕ → Outcome (Option ℕ)
get_next_cluster fs cluster = do
  let bps = bytes_per_sector fs.bpb
  block ← fs.inner (fs.fat_start + cluster * 2 / bps)
  low ← byte_at block (cluster * 2 % bps)
  high ← byte_at block (cluster * 2 % bps + 1)
  ok (fat_entry_next (low + 256 * high))

-- `if let Ok(Some(next))`: an error ends the chain, a panic does not.
abbrev pub next_or_end : Outcome (Option ℕ) → Outcome (Option ℕ)
next_or_end (ok next) = ok next
next_or_end (err e) = ok none
next_or_end panic = panic
next_or_end unfinished = unfinished

module _ {t : Text} where
  -- An entry is added if it is in use and no part of a long name.
  abbrev pub add_entry : List (DirEntry t) → DirEntry t → List (DirEntry t)
  add_entry entries entry =
      if is_valid entry && not (is_long_name entry) then entries ++ entry ∷ [] else entries

  -- The loop over `count` entries of a block from entry `j` on, with the entries so far; `true`
  -- where the end of the directory is reached.
  unfoldable pub scan_block :
      ℕ → ℕ → List ℕ → List (DirEntry t) → Outcome (Bool × List (DirEntry t))
  unfolding parse_entry
  scan_block zero j block entries = ok (false, entries)
  scan_block (suc count) j block entries = do
    bytes ← slice block (j * 32) 32
    elim (get_or bytes 0 0 == 0x00) [
      | true ↦ ok (true, entries)
      | false ↦
          scan_block count (j + 1) block
            (if get_or bytes 0 0 == 0xE5 then entries else add_entry entries (parse_entry bytes))
    ]

  -- The loop over `count` sectors of a cluster.
  unfoldable pub scan_sectors :
      Fat16Impl → ℕ → ℕ → List (DirEntry t) → Outcome (Bool × List (DirEntry t))
  unfolding scan_block
  scan_sectors fs zero sector entries = ok (false, entries)
  scan_sectors fs (suc count) sector entries = do
    block ← fs.inner sector
    (done, entries') ← scan_block (bytes_per_sector fs.bpb / 32) 0 block entries
    elim done [ true ↦ ok (true, entries') | false ↦ scan_sectors fs count (sector + 1) entries' ]

  -- The loop of `read_dir_entries` over the clusters; the number of a cluster is cut to 16 bits
  -- before its entry of the table is read.
  unfoldable pub scan_clusters : ℕ → Fat16Impl → ℕ → List (DirEntry t) → Outcome (List (DirEntry t))
  unfolding scan_sectors get_next_cluster cluster_to_sector
  scan_clusters zero fs cluster entries = unfinished
  scan_clusters (suc fuel) fs cluster entries = do
    let count = if cluster == root_dir then root_dir_size fs.bpb else sectors_per_cluster fs.bpb
    (done, entries') ← scan_sectors fs count (cluster_to_sector fs cluster) entries
    elim (done || cluster == root_dir) [
      | true ↦ ok entries'
      | false ↦ do
        next ← next_or_end (get_next_cluster fs (cluster % 2 ^ 16))
        elim next [ none ↦ ok entries' | some cluster' ↦ scan_clusters fuel fs cluster' entries' ]
    ]

  abbrev pub read_dir_entries : ℕ → Fat16Impl → ℕ → Outcome (List (DirEntry t))
  read_dir_entries fuel fs cluster = scan_clusters fuel fs cluster []

  unfoldable pub find_name : ShortFileName → List (DirEntry t) → Option (DirEntry t)
  find_name name [] = none
  find_name name (entry ∷ entries) =
      if matches entry.filename name then some entry else find_name name entries

  -- The test for an empty name comes after `parse`, which has refused it.
  unfoldable pub find_entry : ℕ → Fat16Impl → ℕ → List ℕ → Outcome (Option (DirEntry t))
  unfolding scan_clusters find_name parse_name
  find_entry fuel fs dir_cluster name = do
    entries ← read_dir_entries fuel fs dir_cluster
    target ← parse_name t name
    elim name [ [] ↦ ok none | _ ↦ ok (find_name target entries) ]

-- `trim_start_matches('/')`
unfoldable pub trim_slashes : List ℕ → List ℕ
trim_slashes [] = []
trim_slashes (c ∷ cs) = if c == b'/' then trim_slashes cs else c ∷ cs

abbrev pub add_byte : ℕ → List (List ℕ) → List (List ℕ)
add_byte c [] = (c ∷ []) ∷ []
add_byte c (part ∷ parts) = (c ∷ part) ∷ parts

-- `split('/')`
unfoldable pub split_slashes : List ℕ → List (List ℕ)
split_slashes [] = [] ∷ []
split_slashes (c ∷ cs) =
    let rest = split_slashes cs in if c == b'/' then [] ∷ rest else add_byte c rest

unfoldable pub count_parts : List (List ℕ) → ℕ
count_parts [] = 0
count_parts ([] ∷ parts) = count_parts parts
count_parts ((_ ∷ _) ∷ parts) = suc (count_parts parts)

module _ {t : Text} where
  -- The loop of `find_path` over the parts from number `i` on, `last` being `lenth - 1`.
  unfoldable pub walk : ℕ → Fat16Impl → ℕ → List (List ℕ) → ℕ → ℕ → Outcome (Option (DirEntry t))
  unfolding find_entry
  walk fuel fs last [] i cluster = ok none
  walk fuel fs last (part ∷ parts) i cluster = do
    found ← find_entry {t = t} fuel fs cluster part
    elim found [
      | none ↦ ok none
      | some entry ↦ elim (i == last) [
        | true ↦ ok (some entry)
        | false ↦ elim (is_directory entry) [
          | true ↦ walk fuel fs last parts (i + 1) entry.cluster
          | false ↦ err not_a_directory
        ]
      ]
    ]

  abbrev pub find_parts : ℕ → Fat16Impl → List ℕ → Outcome (Option (DirEntry t))
  find_parts fuel fs [] = ok none
  find_parts fuel fs (c ∷ cs) =
      let parts = split_slashes (c ∷ cs) in walk fuel fs (count_parts parts - 1) parts 0 root_dir

  unfoldable pub find_path : ℕ → Fat16Impl → List ℕ → Outcome (Option (DirEntry t))
  unfolding walk trim_slashes split_slashes count_parts
  find_path fuel fs path = find_parts fuel fs (trim_slashes path)
