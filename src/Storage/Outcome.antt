-- ===== src/Storage/Outcome.antt =====
-- The results of pkg/storage/src/common/error.rs, with a panic of the kernel and a loop that has
-- not ended within its fuel as further outcomes.
use operating_system_experim.Prelude.{
  ℕ, zero, suc, ◌+◌, ◌*◌, ◌≡◌, refl, sym, subst, Bool, true, false, List, [], ◌∷◌, arith, leb,
  if◌then◌else◌, length, get_or, take, drop,
}

pub data DeviceError : Type 0 where
  busy unknown_device unknown device_invalid_operation read_error write_error : DeviceError
  with_status : ℕ → DeviceError

pub data FilenameError : Type 0 where
  invalid_character filename_empty name_too_long misplaced_period utf8_error unable_to_parse :
      FilenameError

pub data FsError : Type 0 where
  file_not_found not_in_sector end_of_file write_zero not_a_directory not_a_file read_only : FsError
  invalid_operation not_supported bad_cluster invalid_offset : FsError
  file_name_error : FilenameError → FsError
  device_error : DeviceError → FsError
  invalid_path : List ℕ → FsError

pub data Outcome (A : Type 0) : Type 0 where
  ok : A → Outcome A
  err : FsError → Outcome A
  panic unfinished : Outcome A

infixl 5 ◌>>=◌
abbrev pub ◌>>=◌ : {A B : Type 0} → Outcome A → (A → Outcome B) → Outcome B
ok a >>= f = f a
err e >>= f = err e
panic >>= f = panic
unfinished >>= f = unfinished

-- An access to a byte of a slice, which panics out of range.
abbrev pub byte_at : List ℕ → ℕ → Outcome ℕ
byte_at [] i = panic
byte_at (b ∷ bs) zero = ok b
byte_at (b ∷ bs) (suc i) = byte_at bs i

-- `&data[start..start + len]`
abbrev pub slice : List ℕ → ℕ → ℕ → Outcome (List ℕ)
slice data_bytes start len =
    if leb (start + len) (length data_bytes) then ok (take len (drop start data_bytes)) else panic

-- The macro `define_field!`, on arrays that hold the field.
abbrev pub u8_field : List ℕ → ℕ → ℕ
u8_field bytes offset = get_or bytes offset 0

abbrev pub u16_field : List ℕ → ℕ → ℕ
u16_field bytes offset = get_or bytes offset 0 + 256 * get_or bytes (offset + 1) 0

abbrev pub u32_field : List ℕ → ℕ → ℕ
u32_field bytes offset = u16_field bytes offset + 65536 * u16_field bytes (offset + 2)

-- A predicate of the value, where there is one.
abbrev pub Holds : {A : Type 0} → (A → Type 0) → Outcome A → Type 0
Holds P (ok a) = P a
Holds P _ = Unit

pub Holds-bind :
    {A B : Type 0} (P : A → Type 0) (Q : B → Type 0) (o : Outcome A) (f : A → Outcome B)
    → Holds P o
    → ((a : A) → P a → Holds Q (f a))
    → Holds Q (o >>= f)
Holds-bind P Q (ok a) f h k = k a h
Holds-bind P Q (err e) f h k = tt
Holds-bind P Q panic f h k = tt
Holds-bind P Q unfinished f h k = tt

-- What holds of any value.
pub Holds-any : {A : Type 0} (o : Outcome A) → Holds (λ _. Unit) o
Holds-any (ok a) = tt
Holds-any (err e) = tt
Holds-any panic = tt
Holds-any unfinished = tt

-- Both branches of a test.
pub Holds-branch :
    {A : Type 0} (P : A → Type 0) (b : Bool) (x y : Outcome A)
    → Holds P x
    → Holds P y
    → Holds P (elim b [ true ↦ x | false ↦ y ])
Holds-branch P true x y hx hy = hx
Holds-branch P false x y hx hy = hy

-- A computation whose loops have all ended.
abbrev pub Ends : {A : Type 0} → Outcome A → Type 0
Ends unfinished = ⊥
Ends _ = Unit

pub Ends-bind :
    {A B : Type 0} (o : Outcome A) (f : A → Outcome B)
    → Ends o
    → ((a : A) → Ends (f a))
    → Ends (o >>= f)
Ends-bind (ok a) f h k = k a
Ends-bind (err e) f h k = tt
Ends-bind panic f h k = tt
Ends-bind unfinished f h k = h

pub Ends-branch :
    {A : Type 0} (b : Bool) (x y : Outcome A)
    → Ends x
    → Ends y
    → Ends (elim b [ true ↦ x | false ↦ y ])
Ends-branch true x y hx hy = hx
Ends-branch false x y hx hy = hy

pub Ends-known :
    {A B : Type 0} (o : Outcome A) (a : A) (f : A → Outcome B)
    → o ≡ ok a
    → Ends (f a)
    → Ends (o >>= f)
Ends-known o a f e h = subst (λ x. Ends (x >>= f)) (sym e) h

-- A computation in two parts that has a value has one for its first part.
pub bind-ok :
    {A B : Type 0} (o : Outcome A) (f : A → Outcome B) (b : B)
    → (o >>= f) ≡ ok b
    → (a : A) × (o ≡ ok a) × (f a ≡ ok b)
bind-ok (ok a) f b h = (a, refl, h)
bind-ok (err e) f b h = absurd (ground arith)
bind-ok panic f b h = absurd (ground arith)
bind-ok unfinished f b h = absurd (ground arith)
