-- ===== src/Storage/ShortName/Parsing.antt =====
-- What `ShortFileName::parse` and its `Display` promise: fs/fat16/direntry.rs of pkg/storage/src.
use operating_system_experim.Prelude.{
  ℕ, ◌≤◌, ◌≡◌, refl, ◌≢◌, true, false, some, List, [], ◌∷◌, ◌++◌, arith, length, All,
}
use operating_system_experim.Storage.Outcome.{ok}
use operating_system_experim.Storage.ShortName.{
  Text, ShortFileName, parse, display, any_invalid, split_period, padded,
}

split_period-lem :
    (base ext : List ℕ)
    → All (λ c. c ≢ b'.') base
    → split_period (base ++ b'.' ∷ ext) ≡ some (base, ext)
unfolding split_period
split_period-lem [] ext h = refl
split_period-lem (c ∷ base) ext (here, h) = ground (arith, split_period-lem base ext h)

any_invalid-append : (xs ys : List ℕ) → any_invalid (xs ++ ys) ≡ false → any_invalid ys ≡ false
unfolding any_invalid
any_invalid-append [] ys h = h
any_invalid-append (x ∷ xs) ys h = any_invalid-append xs ys (ground arith)

-- A name in upper case without an invalid byte, whose base name has 1 to 8 bytes and no period and
-- whose extension has 1 to 3, is parsed to an entry's name that is displayed as the name it was, if
-- its parts are UTF-8 and `trim_end` takes the padding away and nothing else.
pub display-parse :
    (t : Text) (b c : ℕ) (base ext : List ℕ)
    → let name = (b ∷ base) ++ b'.' ∷ c ∷ ext in
      t.to_uppercase name ≡ name
      → any_invalid name ≡ false
      → All (λ x. x ≢ b'.') (b ∷ base)
      → length base ≤ 7
      → length ext ≤ 2
      → t.is_utf8 (padded 8 (b ∷ base)) ≡ true
      → t.is_utf8 (padded 3 (c ∷ ext)) ≡ true
      → t.trim_end (padded 8 (b ∷ base)) ≡ b ∷ base
      → t.trim_end (padded 3 (c ∷ ext)) ≡ c ∷ ext
      → (f : ShortFileName) × (parse t name ≡ ok f) × (display t f ≡ ok name)
unfolding parse display any_invalid
display-parse t b c base ext upper valid plain short short' utf8 utf8' trimmed trimmed' =
    let tail_valid = any_invalid-append (b ∷ base) (b'.' ∷ c ∷ ext) valid in
    let split = split_period-lem (b ∷ base) (c ∷ ext) plain in
    (
      record { name = padded 8 (b ∷ base); ext = padded 3 (c ∷ ext) },
      ground (arith, upper, split),
      ground arith,
    )
