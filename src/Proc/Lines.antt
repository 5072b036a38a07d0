-- ===== src/Proc/Lines.antt =====
-- The kernel's line editor, `get_line` of pkg/kernel/src/drivers/input.rs, on the keys that are typed, in
-- their order. `pop_key` spins until there is one; what is echoed is left out.
pub mod Text
use operating_system_experim.Prelude.{
  ℕ, zero, suc, ◌+◌, ◌-◌, ◌*◌, ◌%◌, Bool, true, false, not, ◌&&◌, ◌||◌, Option, none, some, List,
  [], ◌∷◌, ◌++◌, ltb, leb, ◌==◌, if◌then◌else◌, length, take,
}

-- A line with the keys behind it, or too few keys for a line, or a panic of the kernel.
pub data Typed : Type 0 where
  line : List ℕ → List ℕ → Typed
  waits panics : Typed

-- The byte starts a character: it is not of the form 10xxxxxx or 11111xxx.
abbrev pub is_utf8 : ℕ → Bool
is_utf8 ch =
    ltb ch 0x80
    || ((leb 0xC0 ch && ltb ch 0xE0)
        || ((leb 0xE0 ch && ltb ch 0xF0) || (leb 0xF0 ch && ltb ch 0xF8)))

-- `count` more keys, of which each adds its six low bits.
unfoldable pub more_keys : ℕ → ℕ → List ℕ → Option (ℕ × List ℕ)
more_keys zero code keys = some (code, keys)
more_keys (suc count) code [] = none
more_keys (suc count) code (key ∷ keys) = more_keys count (code * 64 + key % 64) keys

-- The code point, with the keys behind it; shifts and disjoint bits are products and sums.
unfoldable pub to_utf8 : ℕ → List ℕ → Option (ℕ × List ℕ)
unfolding more_keys
to_utf8 ch keys =
    if ltb ch 0x80
    then some (ch, keys)
    else (if leb 0xC0 ch && ltb ch 0xE0
        then more_keys 1 (ch % 32) keys
        else (if leb 0xE0 ch && ltb ch 0xF0
            then more_keys 2 (ch % 16) keys
            else (if leb 0xF0 ch && ltb ch 0xF8
                then more_keys 3 (ch % 8) keys
                else some (0, keys))))

-- `char::from_u32` succeeds.
abbrev pub is_char : ℕ → Bool
is_char c = ltb c 0xD800 || (leb 0xE000 c && ltb c 0x11_0000)

-- `String::pop`
abbrev pub pop_char : List ℕ → List ℕ
pop_char cs = take (length cs - 1) cs

abbrev pub is_backspace : ℕ → List ℕ → Bool
is_backspace ch text = (ch == 0x08 || ch == 0x7F) && not (length text == 0)

-- The text so far and the keys; the fuel is one for each round, which takes a key or more.
unfoldable pub get_line : ℕ → List ℕ → List ℕ → Typed
unfolding to_utf8
get_line zero text keys = waits
get_line (suc fuel) text [] = waits
get_line (suc fuel) text (ch ∷ keys) = elim (ch == 13) [
  | true ↦ line text keys
  | false ↦ elim (is_backspace ch text) [
    | true ↦ get_line fuel (pop_char text) keys
    | false ↦ elim (is_utf8 ch) [
      | false ↦ get_line fuel (text ++ ch ∷ []) keys
      | true ↦ elim (to_utf8 ch keys) [
        | none ↦ waits
        | some (c, rest) ↦ elim (is_char c) [
          | false ↦ panics
          | true ↦ get_line fuel (text ++ c ∷ []) rest
        ]
      ]
    ]
  ]
]
