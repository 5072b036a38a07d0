-- ===== src/Storage/DirEntry.antt =====
-- Directory entries of 32 bytes: `DirEntry` and `parse_datetime` of fs/fat16/direntry.rs, with the
-- metadata of common/metadata.rs (pkg/storage/src).
use operating_system_experim.Prelude.{
  ℕ, ◌+◌, ◌*◌, ◌/◌, ◌%◌, Bool, not, ◌&&◌, ◌||◌, Option, none, some, List, [], ◌∷◌, ltb, ◌==◌,
  if◌then◌else◌, take,
}
use operating_system_experim.Storage.Outcome.{Outcome, ok, ◌>>=◌, u8_field, u16_field, u32_field}
use operating_system_experim.Storage.ShortName.{
  Text, ShortFileName, new_name, is_eod, is_unused, display,
}

pub record DirEntry (t : Text) : Type 0 where
  pub filename : ShortFileName
  pub modified_time : t.Time
  pub created_time : t.Time
  pub accessed_time : t.Time
  pub cluster : ℕ
  pub attributes : ℕ
  pub size : ℕ

-- Cluster::ROOT_DIR
abbrev pub root_dir : ℕ
root_dir = 0xFFFF_FFFC

pub data FileType : Type 0 where
  file directory : FileType

pub record Metadata (t : Text) : Type 0 where
  pub name : List ℕ
  pub entry_type : FileType
  pub len : ℕ
  pub created : Option t.Time
  pub modified : Option t.Time
  pub accessed : Option t.Time

abbrev pub or_epoch : (t : Text) → Option t.Time → t.Time
or_epoch t none = t.epoch
or_epoch t (some time) = time

unfoldable pub parse_datetime : (t : Text) → ℕ → ℕ → t.Time
parse_datetime t date time =
    let month = date / 32 % 16 in
    let day = date % 32 in
    let hour = time / 2048 % 32 in
    let minute = time / 32 % 64 in
    let sec = time % 32 * 2 in
    if month == 0
      || ltb 12 month
      || day == 0
      || ltb 31 day
      || ltb 23 hour
      || ltb 59 minute
      || ltb 59 sec
    then t.epoch
    else or_epoch t (t.with_ymd_and_hms (date / 512 % 128 + 1980) month day hour minute sec)

module _ {t : Text} where
  abbrev pub is_valid : DirEntry t → Bool
  is_valid e = not (is_unused e.filename) && not (is_eod e.filename)

  -- The bit 0x10.
  abbrev pub is_directory : DirEntry t → Bool
  is_directory e = e.attributes / 16 % 2 == 1

  -- The bit 0x08 is VOLUME_ID.
  abbrev pub is_file : DirEntry t → Bool
  is_file e = not (is_directory e) && not (e.attributes / 8 % 2 == 1)

  -- All bits of 0x0f.
  abbrev pub is_long_name : DirEntry t → Bool
  is_long_name e = e.attributes % 16 == 15

  -- `DirEntry::filename`; the other branch is the word "unknown".
  abbrev pub filename : DirEntry t → Outcome (List ℕ)
  filename e =
      if is_valid e && not (is_long_name e)
      then display t e.filename
      else ok (b'u' ∷ b'n' ∷ b'k' ∷ b'n' ∷ b'o' ∷ b'w' ∷ b'n' ∷ [])

  -- `DirEntry::parse`, which answers `Ok` on 32 bytes; only the bits 0x3f are attributes.
  unfoldable pub parse : List ℕ → DirEntry t
  unfolding parse_datetime
  parse bytes = record {
    filename = new_name (take 11 bytes);
    modified_time = parse_datetime t (u16_field bytes 24) (u16_field bytes 22);
    created_time = parse_datetime t (u16_field bytes 16) (u16_field bytes 14);
    accessed_time = parse_datetime t (u16_field bytes 18) 0;
    cluster = u16_field bytes 20 * 65536 + u16_field bytes 26;
    attributes = u8_field bytes 11 % 64;
    size = u32_field bytes 28;
  }

  abbrev pub entry_type_of : DirEntry t → FileType
  entry_type_of e = if is_directory e then directory else file

  -- `as_meta`
  abbrev pub as_meta : DirEntry t → Outcome (Metadata t)
  as_meta e = do
    name ← filename e
    ok (record {
      name = name;
      entry_type = entry_type_of e;
      len = e.size;
      created = some e.created_time;
      modified = some e.modified_time;
      accessed = some e.accessed_time;
    })
