-- ===== src/User/Shell/Console.antt =====
-- The shell on the console: the keys of pkg/app/sh/src/main.rs are what `read_key` of
-- pkg/lib/src/io.rs answers, call after call, on the answers of sys_read.
use operating_system_experim.Prelude.{ℕ, zero, suc, ◌<◌, Option, none, some, List, [], ◌∷◌, All}
use operating_system_experim.User.Editor.Ascii.{OneByte}
use operating_system_experim.User.Stdin.{Answer, read_key}

-- The answers of as many calls of `read_key`, as long as they end.
unfoldable pub keys_of : ℕ → List Answer → List (Option ℕ)
unfolding read_key
keys_of zero answers = []
keys_of (suc count) answers = elim (read_key answers) [
  | none ↦ []
  | some (key, rest) ↦ key ∷ keys_of count rest
]

-- An answer without a key, or with one of ASCII.
abbrev pub IsLow : Answer → Type 0
IsLow none = Unit
IsLow (some (bytes, key)) = key < 0x80

abbrev LowKey : Option ℕ → Type 0
LowKey none = Unit
LowKey (some key) = key < 0x80

abbrev Popped : Option (ℕ × List Answer) → Type 0
Popped none = Unit
Popped (some (ch, rest)) = (ch < 0x80) × All IsLow rest

abbrev Keyed : Option (Option ℕ × List Answer) → Type 0
Keyed none = Unit
Keyed (some (key, rest)) = OneByte key × All IsLow rest
