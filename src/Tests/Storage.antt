-- ===== src/Tests/Storage.antt =====
-- Small volumes: sectors of 32 bytes, or blocks of any size where the code allows it.
use operating_system_experim.Prelude.{
  ℕ, ◌+◌, ◌*◌, ◌≤◌, ◌<◌, ◌≡◌, refl, ◌≢◌, true, some, List, [], ◌∷◌, ◌++◌, arith, ◌==◌,
  if◌then◌else◌, take, replicate, update,
}
use operating_system_experim.Storage.Outcome.{ok, Ends}
use operating_system_experim.Storage.Device.{BlockDevice, Partition}
use operating_system_experim.Storage.Device.Isolation.{Faithful}
use operating_system_experim.Storage.Mbr.{parse}
use operating_system_experim.Storage.Mbr.Table.{parse-written, concat}
use operating_system_experim.Storage.ShortName.{
  Text, ShortFileName, parse as parse_name, display, any_invalid,
}
use operating_system_experim.Storage.ShortName.Parsing.{display-parse}
use operating_system_experim.Storage.DirEntry.{DirEntry, root_dir, is_file, file}
use operating_system_experim.Storage.Fat.{
  Fat16Impl, new, cluster_to_sector, get_next_cluster, read_dir_entries, find_entry, scan_clusters,
}
use operating_system_experim.Storage.Fat.Entries.{Picks, find_entry-first}
use operating_system_experim.Storage.Fat.Layout.{
  IsLaidOut, new-IsLaidOut, cluster_to_sector-get_next_cluster,
}
use operating_system_experim.Storage.Fat.Loops.{read_dir_entries-Ends}
use operating_system_experim.Storage.File.{read, read_all, new as new_file}
use operating_system_experim.Storage.File.Rounds.{Gives}
use operating_system_experim.Storage.File.Reading.{read-content}
use operating_system_experim.Storage.File.Whole.{file_bytes, IsWhole, read_all-content}
use operating_system_experim.Storage.FileSystem.{open_file, metadata, exists}
use operating_system_experim.Storage.FileSystem.Agreement.{open_file-agrees}

-- Texts whose letters are upper case already, on a calendar that knows no time.
abbrev trim_spaces : List ℕ → List ℕ
trim_spaces [] = []
trim_spaces (c ∷ cs) =
    let rest = trim_spaces cs in
    elim rest [ [] ↦ (if c == 0x20 then [] else c ∷ []) | d ∷ ds ↦ c ∷ d ∷ ds ]

abbrev text : Text
text = record {
  to_uppercase = λ s. s;
  is_utf8 = λ s. true;
  trim_end = trim_spaces;
  Time = ℕ;
  epoch = 0;
  with_ymd_and_hms = λ year month day hour minute sec. some year;
}

-- A disk in memory: a write always succeeds.
abbrev ram : BlockDevice (ℕ → List ℕ)
ram = record {
  block_count = λ s. ok 8;
  read_block = λ s i. ok (s i);
  write_block = λ s i block. (update s i block, ok tt);
}

ram-Faithful : Faithful ram
ram-Faithful s i block h = ground arith

abbrev low : Partition (ℕ → List ℕ)
low = record { inner = ram; offset = 1; size = 3 }

abbrev high : Partition (ℕ → List ℕ)
high = record { inner = ram; offset = 4; size = 2 }

-- An active entry from block 1 on, of 3 blocks, and an entry that is not in use.
abbrev used : List ℕ
used = (0x80 ∷ replicate 7 0) ++ 1 ∷ 0 ∷ 0 ∷ 0 ∷ 3 ∷ 0 ∷ 0 ∷ 0 ∷ []

abbrev unused : List ℕ
unused = replicate 16 0

abbrev entries : List (List ℕ)
entries = used ∷ unused ∷ used ∷ unused ∷ []

parse-written_example :
    parse ram (λ _. replicate 446 0 ++ (concat entries ++ 0x55 ∷ 0xAA ∷ []))
    ≡ ok (record { inner = ram; partitions = entries })
parse-written_example =
    parse-written ram (λ _. replicate 446 0 ++ (concat entries ++ 0x55 ∷ 0xAA ∷ []))
      (replicate 446 0) (0x55 ∷ 0xAA ∷ []) entries refl refl refl (refl, (refl, (refl, (refl, tt))))

-- "A.B", with its form in a directory.
abbrev name_ab : List ℕ
name_ab = b'A' ∷ b'.' ∷ b'B' ∷ []

abbrev short_ab : ShortFileName
short_ab = record { name = b'A' ∷ replicate 7 0x20; ext = b'B' ∷ replicate 2 0x20 }

display-parse_example :
    (f : ShortFileName) × (parse_name text name_ab ≡ ok f) × (display text f ≡ ok name_ab)
unfolding any_invalid
display-parse_example =
    display-parse text b'A' b'B' [] [] refl refl (omega arith, tt) (omega arith) (omega arith) refl
      refl refl refl

-- A volume with sectors of 32 bytes and one sector to a cluster: the boot sector, a table, the root
-- directory with one file of 40 bytes in the clusters 2 and 3, and its data.
abbrev boot : List ℕ
boot =
    replicate 11 0
    ++ (32 ∷ 0 ∷ 1 ∷ 1 ∷ 0 ∷ 1 ∷ 1 ∷ 0 ∷ 0 ∷ 0 ∷ 0 ∷ 1 ∷ 0 ∷ [])
    ++ replicate 486 0
    ++ 0x55 ∷ 0xAA ∷ []

-- 2 is linked to 3, 3 is the last, and 5 is linked to itself.
abbrev table : List ℕ
table = (0 ∷ 0 ∷ 0 ∷ 0 ∷ 3 ∷ 0 ∷ 0xFF ∷ 0xFF ∷ 0 ∷ 0 ∷ 5 ∷ 0 ∷ []) ++ replicate 20 0

abbrev root : List ℕ
root =
    (b'A' ∷ replicate 7 0x20)
    ++ (b'B' ∷ 0x20 ∷ 0x20 ∷ 0x20 ∷ [])
    ++ replicate 14 0
    ++ 2 ∷ 0 ∷ 40 ∷ 0 ∷ 0 ∷ 0 ∷ []

abbrev disk : ℕ → List ℕ
disk s =
    if s == 0
    then boot
    else if s == 1
    then table
    else if s == 2
    then root
    else if s == 3
    then replicate 32 7
    else if s == 4
    then replicate 32 8
    else replicate 32 0xE5

abbrev volume : Fat16Impl
volume = record {
  inner = λ s. ok (disk s);
  bpb = boot;
  fat_start = 1;
  first_data_sector = 3;
  first_root_dir_sector = 2;
}

abbrev entry_ab : DirEntry text
entry_ab = record {
  filename = short_ab;
  modified_time = 0;
  created_time = 0;
  accessed_time = 0;
  cluster = 2;
  attributes = 0x20;
  size = 40;
}

new-IsLaidOut_example : IsLaidOut volume
unfolding new
new-IsLaidOut_example = new-IsLaidOut (λ s. ok (disk s)) volume refl

cluster_to_sector-get_next_cluster_example :
    (cluster_to_sector volume 2 ≡ 3)
    × (cluster_to_sector volume 2 + 1 ≤ cluster_to_sector volume 3)
    × (1 + 1 ≤ cluster_to_sector volume root_dir)
    × ((k : ℕ) → k * 32 < 32 → cluster_to_sector volume root_dir + k < cluster_to_sector volume 2)
    × ((◌≢◌ {A = ℕ} 3 0) × (3 < 0xFFF8))
unfolding get_next_cluster new
cluster_to_sector-get_next_cluster_example =
    cluster_to_sector-get_next_cluster (λ s. ok (disk s)) volume 2 3 2 3 refl (omega arith)
      (omega arith) (omega arith) refl

find_entry-first_example :
    (target : ShortFileName) × (entries : List (DirEntry text)) × (parse_name text name_ab
      ≡ ok target)
    × (read_dir_entries 1 volume root_dir ≡ ok entries)
    × Picks target entries (some entry_ab)
unfolding find_entry
find_entry-first_example =
    find_entry-first 1 volume root_dir b'A' (b'.' ∷ b'B' ∷ []) (some entry_ab) refl

ram-Ends : (s : ℕ) → Ends (volume.inner s)
ram-Ends s = tt

read_dir_entries-Ends_example : Ends (scan_clusters {t = text} 2 volume 2 [])
unfolding get_next_cluster
read_dir_entries-Ends_example =
    read_dir_entries-Ends 2 volume 2 (3 ∷ []) [] ram-Ends (refl, refl) (omega arith)

open_file-agrees_example :
    (exists text 1 volume name_ab ≡ ok true)
    × (metadata {t = text} 1 volume name_ab
        ≡ ok (record {
          name = name_ab;
          entry_type = file;
          len = 40;
          created = some 0;
          modified = some 0;
          accessed = some 0;
        }))
    × (is_file entry_ab ≡ true)
    × (40 ≡ entry_ab.size)
    × ((new_file volume entry_ab).offset ≡ 0)
unfolding open_file display
open_file-agrees_example =
    open_file-agrees text 1 volume name_ab
      (record {
        name = name_ab;
        entry_type = file;
        len = 40;
        created = some 0;
        modified = some 0;
        accessed = some 0;
      })
      (new_file volume entry_ab) refl

file_is_IsWhole : IsWhole disk volume entry_ab (3 ∷ [])
unfolding get_next_cluster cluster_to_sector
file_is_IsWhole = (
  ((omega arith, refl, (refl, refl, tt)), (omega arith, refl, (refl, refl, tt))),
  omega arith,
  omega arith,
)

read-content_example :
    Gives
      (new_file volume entry_ab)
      []
      (take 35 (file_bytes disk volume entry_ab (3 ∷ [])))
      (read (new_file volume entry_ab) 35)
read-content_example =
    read-content disk (new_file volume entry_ab) 35 (3 ∷ []) file_is_IsWhole.0 file_is_IsWhole.1
      file_is_IsWhole.2

read_all-content_example :
    Gives
      (new_file volume entry_ab)
      []
      (file_bytes disk volume entry_ab (3 ∷ []))
      (read_all 41 (new_file volume entry_ab) [])
read_all-content_example =
    read_all-content disk 41 (new_file volume entry_ab) [] (3 ∷ []) file_is_IsWhole (omega arith)

-- The same disk read with two sectors to a cluster.
abbrev wide : Fat16Impl
wide = record volume {
  bpb =
      replicate 11 0
      ++ (32 ∷ 0 ∷ 2 ∷ 1 ∷ 0 ∷ 1 ∷ 1 ∷ 0 ∷ 0 ∷ 0 ∷ 0 ∷ 1 ∷ 0 ∷ [])
      ++ replicate 486 0
      ++ 0x55 ∷ 0xAA ∷ [];
}
