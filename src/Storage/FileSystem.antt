-- ===== src/Storage/FileSystem.antt =====
-- The operations on paths: `FileSystem for Fat16` of fs/fat16/impls.rs, the defaults of
-- common/filesystem.rs, and common/mount.rs (pkg/storage/src).
pub mod Agreement
use operating_system_experim.Prelude.{
  ℕ, zero, suc, Bool, true, false, Option, none, some, List, [], ◌∷◌, ◌==◌, if◌then◌else◌, is_some,
  length,
}
use operating_system_experim.Storage.Outcome.{
  Outcome, ok, err, ◌>>=◌, not_a_directory, not_a_file, file_not_found,
}
use operating_system_experim.Storage.ShortName.{Text, display}
use operating_system_experim.Storage.DirEntry.{
  DirEntry, Metadata, FileType, file, directory, root_dir, is_directory, is_file, entry_type_of,
}
use operating_system_experim.Storage.Fat.{Fat16Impl, read_dir_entries, find_path}
use operating_system_experim.Storage.File.{File, new}

-- `path == "/" || path.is_empty()`
abbrev pub is_root : List ℕ → Bool
is_root [] = true
is_root (c ∷ []) = c == b'/'
is_root (_ ∷ _ ∷ _) = false

-- `trim_start_matches` of a text: as many copies as the path starts with. An empty text matches
-- without end in none of its characters.
abbrev pub strip_prefix : List ℕ → List ℕ → Option (List ℕ)
strip_prefix [] path = some path
strip_prefix (_ ∷ _) [] = none
strip_prefix (a ∷ as') (b ∷ bs) = if a == b then strip_prefix as' bs else none

unfoldable pub trim_copies : ℕ → List ℕ → List ℕ → List ℕ
trim_copies zero point path = path
trim_copies (suc fuel) point path = elim (strip_prefix point path) [
  | none ↦ path
  | some rest ↦ trim_copies fuel point rest
]

-- Each copy of a mount point that is not empty takes a byte or more.
abbrev pub trim_mount_point : List ℕ → List ℕ → List ℕ
trim_mount_point point path = trim_copies (length path) point path

-- The cluster of the directory that the path names.
unfoldable pub dir_cluster : (t : Text) → ℕ → Fat16Impl → List ℕ → Outcome ℕ
unfolding find_path
dir_cluster t fuel fs path = elim (is_root path) [
  | true ↦ ok root_dir
  | false ↦ do
    found ← find_path {t = t} fuel fs path
    elim found [
      | none ↦ err not_a_directory
      | some e ↦ if is_directory e then ok e.cluster else err not_a_directory
    ]
]

module _ {t : Text} where
  abbrev pub metadata_of : DirEntry t → FileType → Outcome (Metadata t)
  metadata_of e entry_type = do
    name ← display t e.filename
    ok (record {
      name = name;
      entry_type = entry_type;
      len = e.size;
      created = some e.created_time;
      modified = some e.modified_time;
      accessed = some e.accessed_time;
    })

  abbrev pub root_metadata : Metadata t
  root_metadata = record {
    name = b'/' ∷ [];
    entry_type = directory;
    len = 0;
    created = none;
    modified = none;
    accessed = none;
  }

  unfoldable pub metadata_list : List (DirEntry t) → Outcome (List (Metadata t))
  metadata_list [] = ok []
  metadata_list (e ∷ es) = do
    meta ← metadata_of e (entry_type_of e)
    rest ← metadata_list es
    ok (meta ∷ rest)

  unfoldable pub read_dir : ℕ → Fat16Impl → List ℕ → Outcome (List (Metadata t))
  unfolding dir_cluster metadata_list
  read_dir fuel fs path = do
    cluster ← dir_cluster t fuel fs path
    entries ← read_dir_entries fuel fs cluster
    metadata_list entries

  unfoldable pub open_file : ℕ → Fat16Impl → List ℕ → Outcome (Metadata t × File t)
  unfolding find_path
  open_file fuel fs path = do
    found ← find_path {t = t} fuel fs path
    elim found [
      | none ↦ err file_not_found
      | some e ↦ elim (is_file e) [
        | false ↦ err not_a_file
        | true ↦ do meta ← metadata_of e file; ok (meta, new fs e)
      ]
    ]

  unfoldable pub metadata : ℕ → Fat16Impl → List ℕ → Outcome (Metadata t)
  unfolding find_path
  metadata fuel fs path = elim (is_root path) [
    | true ↦ ok root_metadata
    | false ↦ do
      found ← find_path {t = t} fuel fs path
      elim found [ none ↦ err file_not_found | some e ↦ metadata_of e (entry_type_of e) ]
  ]

-- The text is given where the answer does not show it.
unfoldable pub exists : (t : Text) → ℕ → Fat16Impl → List ℕ → Outcome Bool
unfolding find_path
exists t fuel fs path = elim (is_root path) [
  | true ↦ ok true
  | false ↦ do found ← find_path {t = t} fuel fs path; ok (is_some found)
]
