-- ===== src/Storage/FileSystem/Agreement.antt =====
-- The operations on paths side by side: fs/fat16/impls.rs of pkg/storage/src.
use operating_system_experim.Prelude.{ℕ, ◌≡◌, refl, true, none, List, [], ◌∷◌, arith}
use operating_system_experim.Storage.Outcome.{ok}
use operating_system_experim.Storage.ShortName.{Text}
use operating_system_experim.Storage.DirEntry.{Metadata, is_file}
use operating_system_experim.Storage.Fat.{Fat16Impl, find_path, trim_slashes}
use operating_system_experim.Storage.File.{File}
use operating_system_experim.Storage.FileSystem.{is_root, open_file, metadata, exists}

find_path-root :
    (t : Text) (fuel : ℕ) (fs : Fat16Impl) (path : List ℕ)
    → is_root path ≡ true
    → find_path {t = t} fuel fs path ≡ ok none
unfolding find_path trim_slashes
find_path-root t fuel fs [] h = refl
find_path-root t fuel fs (c ∷ []) h = rw (h, find_path)
find_path-root t fuel fs (c ∷ d ∷ cs) h = absurd (ground arith)

-- A path that opens as a file exists, and `metadata` answers the metadata that the handle has, with
-- the size of its entry; the entry is a file's, and reading starts at the first byte.
pub open_file-agrees :
    (t : Text) (fuel : ℕ) (fs : Fat16Impl) (path : List ℕ) (meta : Metadata t) (f : File t)
    → open_file fuel fs path ≡ ok (meta, f)
    → (exists t fuel fs path ≡ ok true)
      × (metadata fuel fs path ≡ ok meta)
      × (is_file f.entry ≡ true)
      × (meta.len ≡ f.entry.size)
      × (f.offset ≡ 0)
unfolding open_file exists metadata
open_file-agrees t fuel fs path meta f h = ground (arith, find_path-root t fuel fs path)
