-- ===== src/User/Stdin.antt =====
-- Reading from the console, `Stdin` of pkg/lib/src/io.rs, on what its calls of sys_read answer, in their
-- order: nothing, or a number of bytes with the byte that is then in the buffer. A text is the list of
-- its characters.
pub mod Keys
pub mod Typing
use operating_system_experim.Prelude.{
  ℕ, zero, suc, ◌-◌, ◌+◌, ◌*◌, ◌%◌, Bool, true, false, ◌&&◌, ◌||◌, Option, none, some, List, [],
  ◌∷◌, ◌++◌, ltb, leb, ◌==◌, if◌then◌else◌, length, take,
}

abbrev pub Answer : Type 0
Answer = Option (ℕ × ℕ)

-- `try_read_key_with_buf`
abbrev pub try_read_key : Answer → Option ℕ
try_read_key none = none
try_read_key (some (bytes, key)) = if bytes == 1 then some key else none

-- The first key that an answer has; none if no answer has one, and the call still spins.
unfoldable pub pop_key : List Answer → Option (ℕ × List Answer)
pop_key [] = none
pop_key (answer ∷ answers) = elim (try_read_key answer) [
  | none ↦ pop_key answers
  | some key ↦ some (key, answers)
]

-- The byte starts a character: it is not of the form 10xxxxxx or 11111xxx.
abbrev pub is_utf8 : ℕ → Bool
is_utf8 ch =
    ltb ch 0x80
    || ((leb 0xC0 ch && ltb ch 0xE0)
        || ((leb 0xE0 ch && ltb ch 0xF0) || (leb 0xF0 ch && ltb ch 0xF8)))

-- `count` more keys, of which each adds its six low bits; shifts and disjoint bits are products and
-- sums.
unfoldable pub more_bits : ℕ → ℕ → List Answer → Option (ℕ × List Answer)
unfolding pop_key
more_bits zero code answers = some (code, answers)
more_bits (suc count) code answers = elim (pop_key answers) [
  | none ↦ none
  | some (key, rest) ↦ more_bits count (code * 64 + key % 64) rest
]

-- The code point, with the answers behind it.
unfoldable pub to_utf8 : ℕ → List Answer → Option (ℕ × List Answer)
unfolding more_bits
to_utf8 ch answers =
    if ltb ch 0x80
    then some (ch, answers)
    else (if leb 0xC0 ch && ltb ch 0xE0
        then more_bits 1 (ch % 32) answers
        else (if leb 0xE0 ch && ltb ch 0xF0
            then more_bits 2 (ch % 16) answers
            else (if leb 0xF0 ch && ltb ch 0xF8
                then more_bits 3 (ch % 8) answers
                else some (0, answers))))

-- `char::from_u32` succeeds.
abbrev pub is_char : ℕ → Bool
is_char c = ltb c 0xD800 || (leb 0xE000 c && ltb c 0x11_0000)

-- `read_key`, with the answers behind it; none while it spins.
unfoldable pub read_key : List Answer → Option (Option ℕ × List Answer)
unfolding pop_key to_utf8
read_key answers = elim (pop_key answers) [
  | none ↦ none
  | some (ch, rest) ↦ elim (is_utf8 ch) [
    | false ↦ some (some ch, rest)
    | true ↦ elim (to_utf8 ch rest) [
      | none ↦ none
      | some (c, rest') ↦ some (if is_char c then some c else none, rest')
    ]
  ]
]

-- A text, what was echoed and the answers behind the line; or a call that spins, or a panic.
pub data Entered : Type 0 where
  entered : List ℕ → List ℕ → List Answer → Entered
  spins panics unfinished : Entered

-- `String::pop`
abbrev pub pop_char : List ℕ → List ℕ
pop_char cs = take (length cs - 1) cs

-- What a key that deletes shows: nothing on an empty line.
abbrev pub rubout : List ℕ → List ℕ
rubout [] = []
rubout (_ ∷ _) = 0x08 ∷ b' ' ∷ 0x08 ∷ []

-- The rounds of `read_line` from the text so far and what was echoed; the fuel is one for each.
unfoldable pub read_line : ℕ → List ℕ → List ℕ → List Answer → Entered
unfolding pop_key to_utf8
read_line zero text echo answers = unfinished
read_line (suc fuel) text echo answers = elim (pop_key answers) [
  | none ↦ spins
  | some (ch, rest) ↦ elim (ch == 0x0D) [
    | true ↦ entered text (echo ++ 10 ∷ 10 ∷ []) rest
    | false ↦ elim (ch == 0x03) [
      | true ↦ entered [] (echo ++ 10 ∷ []) rest
      | false ↦ elim (ch == 0x08 || ch == 0x7F) [
        | true ↦ read_line fuel (pop_char text) (echo ++ rubout text) rest
        | false ↦ elim (is_utf8 ch) [
          | false ↦ read_line fuel (text ++ ch ∷ []) (echo ++ ch ∷ []) rest
          | true ↦ elim (to_utf8 ch rest) [
            | none ↦ spins
            | some (c, rest') ↦ elim (is_char c) [
              | false ↦ panics
              | true ↦ read_line fuel (text ++ c ∷ []) (echo ++ c ∷ []) rest'
            ]
          ]
        ]
      ]
    ]
  ]
]
