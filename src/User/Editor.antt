-- ===== src/User/Editor.antt =====
-- The shell's editor of a line with its history, `read_line_history` of pkg/app/sh/src/main.rs, on
-- what `read_key` answers, key by key. What is drawn on the screen is left out.
pub mod Ascii
pub mod Lines
pub mod Wide
use operating_system_experim.Prelude.{
  ℕ, zero, suc, ◌+◌, ◌-◌, Bool, not, ◌&&◌, ◌||◌, Option, none, some, List, [], ◌∷◌, ltb, leb, ◌==◌,
  if◌then◌else◌, length,
}

-- What the editor expects: a key, or the second or third one of a sequence for the cursor.
pub data Mode : Type 0 where
  plain escaped bracketed : Mode

-- The text of the buffer is the list of its characters, and the cursor a number of bytes.
pub record Editor : Type 0 where
  pub buffer : List ℕ
  pub cursor : ℕ
  pub history : List (List ℕ)
  pub history_index : Option ℕ
  pub mode : Mode

pub data Reading : Type 0 where
  typing : Editor → Reading
  entered : List ℕ → Editor → Reading
  panics : Reading

-- `char::len_utf8`
abbrev pub width : ℕ → ℕ
width c = if ltb c 0x80 then 1 else (if ltb c 0x800 then 2 else (if ltb c 0x1_0000 then 3 else 4))

-- `String::len`
abbrev pub byte_length : List ℕ → ℕ
byte_length [] = 0
byte_length (c ∷ cs) = width c + byte_length cs

abbrev pub prepend : ℕ → Option (List ℕ) → Option (List ℕ)
prepend c none = none
prepend c (some cs) = some (c ∷ cs)

-- `String::insert` at a number of bytes, which panics within a character and behind the end.
unfoldable pub insert_char : ℕ → ℕ → List ℕ → Option (List ℕ)
insert_char c zero cs = some (c ∷ cs)
insert_char c (suc n) [] = none
insert_char c (suc n) (x ∷ xs) =
    let rest = prepend x (insert_char c (suc n - width x) xs) in
    if ltb (suc n) (width x) then none else rest

-- `String::remove`, which panics at the end too.
unfoldable pub remove_char : ℕ → List ℕ → Option (List ℕ)
remove_char n [] = none
remove_char zero (x ∷ xs) = some xs
remove_char (suc n) (x ∷ xs) =
    let rest = prepend x (remove_char (suc n - width x) xs) in
    if ltb (suc n) (width x) then none else rest

abbrev pub get_elem? : {A : Type 0} → List A → ℕ → Option A
get_elem? [] i = none
get_elem? (x ∷ xs) zero = some x
get_elem? (x ∷ xs) (suc i) = get_elem? xs i

-- The command at a place of the history, where there is one.
abbrev pub recalled : Option (List ℕ) → ℕ → Editor → Editor
recalled none i e = record e { history_index = some i; mode = plain }
recalled (some cmd) i e = record e {
  buffer = cmd;
  cursor = byte_length cmd;
  history_index = some i;
  mode = plain;
}

abbrev pub recall : ℕ → Editor → Editor
recall i e = recalled (get_elem? e.history i) i e

abbrev pub previous : ℕ → Option ℕ → ℕ
previous len (some (suc i)) = i
previous len (some zero) = 0
previous len none = len - 1

-- With an empty history the arrows up and down do nothing.
abbrev pub up_in : List (List ℕ) → Editor → Editor
up_in [] e = record e { mode = plain }
up_in (_ ∷ _) e = recall (previous (length e.history) e.history_index) e

unfoldable pub up : Editor → Editor
up e = up_in e.history e

-- Behind the last command there is an empty line.
abbrev pub down_at : Option ℕ → Editor → Editor
down_at none e = record e { mode = plain }
down_at (some i) e =
    if ltb i (length e.history - 1)
    then recall (i + 1) e
    else record e { buffer = []; cursor = 0; history_index = some (length e.history); mode = plain }

abbrev pub down_in : List (List ℕ) → Editor → Editor
down_in [] e = record e { mode = plain }
down_in (_ ∷ _) e = down_at e.history_index e

unfoldable pub down : Editor → Editor
down e = down_in e.history e

abbrev pub right : Editor → Editor
right e =
    if ltb e.cursor (byte_length e.buffer)
    then record e { cursor = e.cursor + 1; mode = plain }
    else record e { mode = plain }

abbrev pub left : Editor → Editor
left e = record e { cursor = e.cursor - 1; mode = plain }

-- The last key of a sequence.
unfoldable pub arrow : ℕ → Editor → Editor
arrow c e =
    if c == b'A'
    then up e
    else (if c == b'B'
        then down e
        else (if c == b'C'
            then right e
            else (if c == b'D' then left e else record e { mode = plain })))

-- `char::is_control`
abbrev pub is_control : ℕ → Bool
is_control c = ltb c 0x20 || (leb 0x7F c && ltb c 0xA0)

abbrev pub is_printable : ℕ → Bool
is_printable c = not (is_control c) || (c == b' ' || c == 9)

abbrev pub typed_at : ℕ → Option (List ℕ) → Editor → Reading
typed_at n none e = panics
typed_at n (some text) e = typing (record e { buffer = text; cursor = n })

unfoldable pub type_char : ℕ → Editor → Reading
type_char c e = typed_at (e.cursor + 1) (insert_char c e.cursor e.buffer) e

abbrev pub erase_at : ℕ → Editor → Reading
erase_at zero e = typing e
erase_at (suc n) e = typed_at n (remove_char n e.buffer) e

unfoldable pub backspace : Editor → Reading
backspace e = erase_at e.cursor e

unfoldable pub plain_key : ℕ → Editor → Reading
plain_key c e =
    if c == 10 || c == 13
    then entered e.buffer e
    else (if c == 0x08 || c == 0x7F
        then backspace e
        else (if c == 0x1B
            then typing (record e { mode = escaped })
            else (if is_printable c then type_char c e else typing e)))

abbrev pub key_in : Mode → ℕ → Editor → Reading
key_in plain c e = plain_key c e
key_in escaped c e =
    if c == b'[' then typing (record e { mode = bracketed }) else typing (record e { mode = plain })
key_in bracketed c e = typing (arrow c e)

-- One answer of `read_key`; `none` is for bytes that make up no character.
unfoldable pub press : Option ℕ → Editor → Reading
press none e = typing (record e { mode = plain })
press (some c) e = key_in e.mode c e

-- A line with the keys behind it, and the history's place where it was left.
pub data Typed : Type 0 where
  line : List ℕ → Option ℕ → List (Option ℕ) → Typed
  waits panicked : Typed

abbrev pub go_on : (Editor → Typed) → List (Option ℕ) → Reading → Typed
go_on more keys (typing e) = more e
go_on more keys (entered text e) = line text e.history_index keys
go_on more keys panics = panicked

unfoldable pub read_keys : Editor → List (Option ℕ) → Typed
read_keys e [] = waits
read_keys e (key ∷ keys) = go_on (λ e'. read_keys e' keys) keys (press key e)

unfoldable pub read_line_history : List (List ℕ) → Option ℕ → List (Option ℕ) → Typed
unfolding read_keys
read_line_history history index keys =
    read_keys
      (record { buffer = []; cursor = 0; history = history; history_index = index; mode = plain })
      keys
