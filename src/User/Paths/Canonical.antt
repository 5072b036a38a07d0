-- ===== src/User/Paths/Canonical.antt =====
-- Canonical paths: absolute, without empty parts and without `.` and `..`.
use operating_system_experim.Prelude.{
  ℕ, zero, suc, ◌-◌, ◌≡◌, refl, sym, ap, ◌∙◌, ◌≢◌, inl, inr, Bool, true, false, ◌||◌, List, [], ◌∷◌,
  ◌++◌, ◌==◌, if◌then◌else◌, ne→==, ==→ne, Bool-cases, length, take, All, All-append, All-map,
}
use operating_system_experim.Storage.Fat.{split_slashes, add_byte}
use operating_system_experim.User.Paths.{
  slash, is_empty, starts_with_slash, trim_left, nonempty, parts, is_dot, is_dot_dot, enter,
  enter_all, join, absolute_path, start_components, normalize_path,
}
use operating_system_experim.User.Paths.Splitting.{
  parts-append, parts-slash, parts-trim_left, parts-trim_right,
}

abbrev Slashless : List ℕ → Type 0
Slashless p = All (λ c. c ≢ slash) p

-- A part of a path: a text without slashes that is not empty.
abbrev pub Plain : List ℕ → Type 0
Plain p = (is_empty p ≡ false) × Slashless p

-- A part that names an entry.
abbrev pub IsName : List ℕ → Type 0
IsName p = Plain p × (is_dot p ≡ false) × (is_dot_dot p ≡ false)

add_byte-Slashless :
    (c : ℕ) (ps : List (List ℕ)) → c ≢ slash → All Slashless ps → All Slashless (add_byte c ps)
add_byte-Slashless c [] h k = ((h, tt), tt)
add_byte-Slashless c (p ∷ ps) h k = ((h, k.0), k.1)

split-Slashless : (cs : List ℕ) → All Slashless (split_slashes cs)
unfolding split_slashes
split-Slashless [] = (tt, tt)
split-Slashless (c ∷ cs) = elim (Bool-cases (c == slash)) [
  | inl e ↦ rw e (tt, split-Slashless cs)
  | inr e ↦ rw e (add_byte-Slashless c (split_slashes cs) (==→ne c slash e) (split-Slashless cs))
]

nonempty-Plain : (ps : List (List ℕ)) → All Slashless ps → All Plain (nonempty ps)
unfolding nonempty
nonempty-Plain [] h = tt
nonempty-Plain (p ∷ ps) h = elim (Bool-cases (is_empty p)) [
  | inl e ↦ rw e (nonempty-Plain ps h.1)
  | inr e ↦ rw e ((e, h.0), nonempty-Plain ps h.1)
]

parts-Plain : (cs : List ℕ) → All Plain (parts cs)
unfolding parts
parts-Plain cs = nonempty-Plain (split_slashes cs) (split-Slashless cs)

split_name : (p : List ℕ) → Slashless p → split_slashes p ≡ p ∷ []
unfolding split_slashes
split_name [] h = refl
split_name (c ∷ cs) h = rw (ne→== c slash h.0) (ap (add_byte c) (split_name cs h.1))

parts-name : (p : List ℕ) → Plain p → parts p ≡ p ∷ []
unfolding parts nonempty
parts-name p (e, h) = rw (split_name p h) (rw e)

parts-join : (ps : List (List ℕ)) → All Plain ps → parts (join ps) ≡ ps
unfolding join parts nonempty split_slashes
parts-join [] h = refl
parts-join (p ∷ []) h = parts-name p h.0
parts-join (p ∷ q ∷ ps) h =
    parts-append p (join (q ∷ ps)) ∙ λ i. parts-name p h.0 i ++ parts-join (q ∷ ps) h.1 i

pub parts-absolute_path : (ps : List (List ℕ)) → All Plain ps → parts (absolute_path ps) ≡ ps
unfolding absolute_path parts nonempty split_slashes
parts-absolute_path [] h = refl
parts-absolute_path (p ∷ ps) h = parts-slash (join (p ∷ ps)) ∙ parts-join (p ∷ ps) h

take-All : (n : ℕ) (P : List ℕ → Type 0) (ps : List (List ℕ)) → All P ps → All P (take n ps)
take-All zero P ps h = tt
take-All (suc n) P [] h = tt
take-All (suc n) P (p ∷ ps) h = (h.0, take-All n P ps h.1)

enter-IsName : (ps : List (List ℕ)) (p : List ℕ) → All IsName ps → Plain p → All IsName (enter ps p)
unfolding enter
enter-IsName ps p h k = elim (Bool-cases (is_dot p)) [
  | inl e ↦ rw e h
  | inr dot ↦ elim (Bool-cases (is_dot_dot p)) [
    | inl e ↦ rw (dot, e) (take-All (length ps - 1) IsName ps h)
    | inr e ↦ rw (dot, e) (All-append IsName ps (p ∷ []) h ((k, dot, e), tt))
  ]
]

enter_all-IsName :
    (ps qs : List (List ℕ)) → All IsName ps → All Plain qs → All IsName (enter_all ps qs)
unfolding enter_all
enter_all-IsName ps [] h k = h
enter_all-IsName ps (q ∷ qs) h k = enter_all-IsName (enter ps q) qs (enter-IsName ps q h k.0) k.1

pub enter_all-append :
    (ps qs rs : List (List ℕ)) → enter_all ps (qs ++ rs) ≡ enter_all (enter_all ps qs) rs
unfolding enter_all
enter_all-append ps [] rs = refl
enter_all-append ps (q ∷ qs) rs = enter_all-append (enter ps q) qs rs

-- The names of the directories from the root make up the path.
pub record IsCanonical (path : List ℕ) : Type 0 where
  pub names : List (List ℕ)
  pub are_names : All IsName names
  pub rendered : path ≡ absolute_path names

starts-absolute_path : (ps : List (List ℕ)) → starts_with_slash (absolute_path ps) ≡ true
unfolding absolute_path
starts-absolute_path [] = refl
starts-absolute_path (p ∷ ps) = refl

names-Plain : (ps : List (List ℕ)) → All IsName ps → All Plain ps
names-Plain = All-map IsName Plain (λ p h. h.0)

-- Where the target starts from: the root, or the names of the current directory.
abbrev base : List (List ℕ) → List ℕ → List (List ℕ)
base names target = if starts_with_slash target then [] else names

start_components-base :
    (path target : List ℕ) (c : IsCanonical path)
    → start_components path target ≡ base c.names target
unfolding start_components
start_components-base path target c = elim (Bool-cases (starts_with_slash target)) [
  | inl e ↦ rw e
  | inr e ↦ rw e (
      parts-trim_right (trim_left path)
      ∙ parts-trim_left path
      ∙ ap parts c.rendered
      ∙ parts-absolute_path c.names (names-Plain c.names c.are_names))
]

or-true : (b : Bool) → (b || true) ≡ true
or-true true = refl
or-true false = refl

normalize_path-names :
    (path target : List ℕ) (c : IsCanonical path)
    → normalize_path path target ≡ absolute_path (enter_all (base c.names target) (parts target))
unfolding normalize_path
normalize_path-names path target c =
    let e : starts_with_slash path ≡ true =
      ap starts_with_slash c.rendered ∙ starts-absolute_path c.names in
    rw (e, or-true (starts_with_slash target))
      (ap (λ ps. absolute_path (enter_all ps (parts target))) (start_components-base path target c))

base-IsName : (target : List ℕ) (ps : List (List ℕ)) → All IsName ps → All IsName (base ps target)
base-IsName target ps h = elim (Bool-cases (starts_with_slash target)) [
  | inl e ↦ rw e tt
  | inr e ↦ rw e h
]

target-IsName :
    (target : List ℕ) (ps : List (List ℕ))
    → All IsName ps
    → All IsName (enter_all (base ps target) (parts target))
target-IsName target ps h =
    enter_all-IsName (base ps target) (parts target) (base-IsName target ps h) (parts-Plain target)

abbrev moved : (path target : List ℕ) → IsCanonical path → IsCanonical (normalize_path path target)
moved path target c = record {
  names = enter_all (base c.names target) (parts target);
  are_names = target-IsName target c.names c.are_names;
  rendered = normalize_path-names path target c;
}

-- From a canonical directory, whatever the target is, normalize_path gives a canonical path.
pub normalize_path-IsCanonical :
    (path target : List ℕ) → IsCanonical path → IsCanonical (normalize_path path target)
normalize_path-IsCanonical path target c = moved path target c

-- From a canonical directory, to go to a target that is not empty and from there to a relative one
-- leads where the two targets lead that are joined by a slash.
pub normalize_path-append :
    (path : List ℕ) (c : ℕ) (first second : List ℕ)
    → IsCanonical path
    → starts_with_slash second ≡ false
    → normalize_path (normalize_path path (c ∷ first)) second
      ≡ normalize_path path (c ∷ first ++ slash ∷ second)
normalize_path-append path c first second h e =
    normalize_path-names (normalize_path path (c ∷ first)) second (moved path (c ∷ first) h)
    ∙ rw e (
        ap absolute_path
          (sym (enter_all-append (base h.names (c ∷ first)) (parts (c ∷ first)) (parts second)))
        ∙ ap (λ ps. absolute_path (enter_all (base h.names (c ∷ first)) ps))
            (sym (parts-append (c ∷ first) second))
        ∙ sym (normalize_path-names path (c ∷ first ++ slash ∷ second) h))
