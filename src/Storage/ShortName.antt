-- ===== src/Storage/ShortName.antt =====
-- Names of 8 + 3 bytes: `ShortFileName` of fs/fat16/direntry.rs (pkg/storage/src).
pub mod Parsing
use operating_system_experim.Prelude.{
  ℕ, ◌-◌, Bool, true, false, ◌&&◌, ◌||◌, Option, none, some, List, [], ◌∷◌, ◌++◌, ltb, leb, ◌==◌,
  if◌then◌else◌, length, get_or, take, drop, replicate,
}
use operating_system_experim.Storage.Outcome.{
  Outcome, ok, err, panic, ◌>>=◌, file_name_error, invalid_character, filename_empty, name_too_long,
  misplaced_period,
}

-- What the crate takes of strings and of the crate `chrono`.
pub record Text : Type 1 where
  -- `str::to_uppercase`, on the bytes of the string
  pub to_uppercase : List ℕ → List ℕ
  -- whether `core::str::from_utf8` accepts the bytes
  pub is_utf8 : List ℕ → Bool
  -- `str::trim_end`
  pub trim_end : List ℕ → List ℕ
  -- `DateTime<Utc>`
  pub Time : Type 0
  -- `DateTime::from_timestamp_millis(0).unwrap()`
  pub epoch : Time
  -- `Utc.with_ymd_and_hms`, where its answer is a single time
  pub with_ymd_and_hms : ℕ → ℕ → ℕ → ℕ → ℕ → ℕ → Option Time

pub record ShortFileName : Type 0 where
  pub name : List ℕ
  pub ext : List ℕ

abbrev pub new_name : List ℕ → ShortFileName
new_name buf = record { name = take 8 buf; ext = take 3 (drop 8 buf) }

abbrev pub eq_bytes : List ℕ → List ℕ → Bool
eq_bytes [] [] = true
eq_bytes (a ∷ as') (b ∷ bs) = a == b && eq_bytes as' bs
eq_bytes _ _ = false

abbrev pub is_eod : ShortFileName → Bool
is_eod f = get_or f.name 0 0 == 0x00 && get_or f.ext 0 0 == 0x00

abbrev pub is_unused : ShortFileName → Bool
is_unused f = get_or f.name 0 0 == 0xE5

-- Also the derived `==`.
abbrev pub matches : ShortFileName → ShortFileName → Bool
matches f sfn = eq_bytes f.name sfn.name && eq_bytes f.ext sfn.ext

-- INVALID_CHARS: 0x00 to 0x20 and these.
abbrev pub punctuation : List ℕ
punctuation =
    0x22 ∷ 0x2A ∷ 0x2B ∷ 0x2C ∷ 0x2F ∷ 0x3A ∷ 0x3B ∷ 0x3C ∷ 0x3D ∷ 0x3E ∷ 0x3F ∷ 0x5B ∷ 0x5C ∷ 0x5D
    ∷ 0x7C ∷ []

abbrev pub contains : ℕ → List ℕ → Bool
contains c [] = false
contains c (d ∷ ds) = c == d || contains c ds

abbrev pub is_invalid : ℕ → Bool
is_invalid c = leb c 0x20 || contains c punctuation

unfoldable pub any_invalid : List ℕ → Bool
any_invalid [] = false
any_invalid (c ∷ cs) = is_invalid c || any_invalid cs

-- `find('.')`, with the parts before and after the period.
unfoldable pub split_period : List ℕ → Option (List ℕ × List ℕ)
split_period [] = none
split_period (c ∷ cs) =
    let rest = split_period cs in
    if c == b'.'
    then some ([], cs)
    else elim rest [ none ↦ none | some (base, ext) ↦ some (c ∷ base, ext) ]

-- An array of `n` spaces with the bytes copied to its start.
abbrev pub padded : ℕ → List ℕ → List ℕ
padded n bytes = bytes ++ replicate (n - length bytes) 0x20

-- A copy of more than 3 bytes to the extension indexes out of its array.
abbrev pub with_extension : List ℕ → List ℕ → Outcome ShortFileName
with_extension base ext =
    if ltb 8 (length base)
    then err (file_name_error name_too_long)
    else if ltb 8 (length base)
    then err (file_name_error misplaced_period)
    else if ltb 3 (length ext)
    then panic
    else ok (record { name = padded 8 base; ext = padded 3 ext })

abbrev pub without_extension : List ℕ → Outcome ShortFileName
without_extension base =
    if ltb 8 (length base)
    then err (file_name_error name_too_long)
    else ok (record { name = padded 8 base; ext = padded 3 [] })

abbrev is_empty : List ℕ → Bool
is_empty [] = true
is_empty (_ ∷ _) = false

unfoldable pub parse : Text → List ℕ → Outcome ShortFileName
unfolding any_invalid split_period
parse t name =
    if is_empty name
    then err (file_name_error filename_empty)
    else if any_invalid name
    then err (file_name_error invalid_character)
    else elim (split_period (t.to_uppercase name)) [
      | none ↦ without_extension (t.to_uppercase name)
      | some (base, ext) ↦ with_extension base ext
    ]

-- `basename` and `extension` panic on bytes that are no UTF-8.
abbrev pub text_of : Text → List ℕ → Outcome (List ℕ)
text_of t bytes = if t.is_utf8 bytes then ok bytes else panic

-- `Display for ShortFileName`
unfoldable pub display : Text → ShortFileName → Outcome (List ℕ)
display t f = do
  base ← text_of t f.name
  elim (get_or f.ext 0 0 == 0x20) [
    | true ↦ ok (t.trim_end base)
    | false ↦ do ext ← text_of t f.ext; ok (t.trim_end base ++ b'.' ∷ t.trim_end ext)
  ]
