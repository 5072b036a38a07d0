-- ===== src/User/Paths.antt =====
-- `normalize_path` of the shell, pkg/app/sh/src/main.rs. A text is the list of its characters.
pub mod Canonical
pub mod Splitting
use operating_system_experim.Prelude.{
  ℕ, ◌-◌, Bool, true, false, ◌&&◌, ◌||◌, List, [], ◌∷◌, ◌++◌, ◌==◌, if◌then◌else◌, length, take,
}
use operating_system_experim.Storage.Fat.{split_slashes}

abbrev pub slash : ℕ
slash = b'/'

abbrev pub is_empty : List ℕ → Bool
is_empty [] = true
is_empty (_ ∷ _) = false

abbrev pub starts_with_slash : List ℕ → Bool
starts_with_slash [] = false
starts_with_slash (c ∷ cs) = c == slash

-- `trim_matches('/')`
unfoldable pub trim_left : List ℕ → List ℕ
trim_left [] = []
trim_left (c ∷ cs) = if c == slash then trim_left cs else c ∷ cs

unfoldable pub trim_right : List ℕ → List ℕ
trim_right [] = []
trim_right (c ∷ cs) =
    let rest = trim_right cs in if c == slash && is_empty rest then [] else c ∷ rest

unfoldable pub nonempty : List (List ℕ) → List (List ℕ)
nonempty [] = []
nonempty (p ∷ ps) = let rest = nonempty ps in if is_empty p then rest else p ∷ rest

-- `split('/')` without the empty parts
unfoldable pub parts : List ℕ → List (List ℕ)
parts path = nonempty (split_slashes path)

abbrev pub is_dot : List ℕ → Bool
is_dot (a ∷ []) = a == b'.'
is_dot _ = false

abbrev pub is_dot_dot : List ℕ → Bool
is_dot_dot (a ∷ b ∷ []) = a == b'.' && b == b'.'
is_dot_dot _ = false

-- `Vec::pop`
abbrev pub pop : List (List ℕ) → List (List ℕ)
pop components = take (length components - 1) components

unfoldable pub enter : List (List ℕ) → List ℕ → List (List ℕ)
enter components part =
    if is_dot part
    then components
    else (if is_dot_dot part then pop components else components ++ part ∷ [])

-- The loop over the parts of the target.
unfoldable pub enter_all : List (List ℕ) → List (List ℕ) → List (List ℕ)
enter_all components [] = components
enter_all components (part ∷ rest) = enter_all (enter components part) rest

-- `join("/")`
unfoldable pub join : List (List ℕ) → List ℕ
join [] = []
join (part ∷ []) = part
join (part ∷ next ∷ rest) = part ++ slash ∷ join (next ∷ rest)

unfoldable pub absolute_path : List (List ℕ) → List ℕ
absolute_path [] = slash ∷ []
absolute_path (part ∷ rest) = slash ∷ join (part ∷ rest)

unfoldable pub relative_path : List (List ℕ) → List ℕ
relative_path [] = b'.' ∷ []
relative_path (part ∷ rest) = join (part ∷ rest)

-- The components from which the parts of the target go on.
unfoldable pub start_components : List ℕ → List ℕ → List (List ℕ)
start_components current target =
    if starts_with_slash target then [] else parts (trim_right (trim_left current))

unfoldable pub normalize_path : List ℕ → List ℕ → List ℕ
unfolding start_components enter_all absolute_path relative_path
normalize_path current target =
    let components = enter_all (start_components current target) (parts target) in
    if starts_with_slash target || starts_with_slash current
    then absolute_path components
    else relative_path components
