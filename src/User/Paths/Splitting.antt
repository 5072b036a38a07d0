-- ===== src/User/Paths/Splitting.antt =====
-- The parts of a path: how they meet concatenation, trimming and joining.
use operating_system_experim.Prelude.{
  ℕ, zero, suc, ◌≡◌, refl, sym, ap, ◌∙◌, inl, inr, true, List, [], ◌∷◌, ◌++◌, append-nil, ◌==◌,
  ==→eq, Bool-cases, replicate,
}
use operating_system_experim.Storage.Fat.{split_slashes, add_byte}
use operating_system_experim.User.Paths.{slash, is_empty, trim_left, trim_right, nonempty, parts}

abbrev HasPart : List (List ℕ) → Type 0
HasPart [] = ⊥
HasPart (_ ∷ _) = Unit

add_byte-HasPart : (c : ℕ) (ps : List (List ℕ)) → HasPart ps → HasPart (add_byte c ps)
add_byte-HasPart c [] h = tt
add_byte-HasPart c (p ∷ ps) h = tt

split-HasPart : (cs : List ℕ) → HasPart (split_slashes cs)
unfolding split_slashes
split-HasPart [] = tt
split-HasPart (c ∷ cs) = elim (Bool-cases (c == slash)) [
  | inl e ↦ rw e tt
  | inr e ↦ rw e (add_byte-HasPart c (split_slashes cs) (split-HasPart cs))
]

add_byte-append :
    (c : ℕ) (ps qs : List (List ℕ)) → HasPart ps → add_byte c (ps ++ qs) ≡ add_byte c ps ++ qs
add_byte-append c [] qs h = absurd h
add_byte-append c (p ∷ ps) qs h = refl

-- A slash between two texts ends a part.
split-append :
    (as' bs : List ℕ) → split_slashes (as' ++ slash ∷ bs) ≡ split_slashes as' ++ split_slashes bs
unfolding split_slashes
split-append [] bs = refl
split-append (c ∷ cs) bs = elim (Bool-cases (c == slash)) [
  | inl e ↦ rw e (ap (λ l. [] ∷ l) (split-append cs bs))
  | inr e ↦ rw e (
      ap (add_byte c) (split-append cs bs)
      ∙ add_byte-append c (split_slashes cs) (split_slashes bs) (split-HasPart cs))
]

nonempty-append : (ps qs : List (List ℕ)) → nonempty (ps ++ qs) ≡ nonempty ps ++ nonempty qs
unfolding nonempty
nonempty-append [] qs = refl
nonempty-append (p ∷ ps) qs = elim (Bool-cases (is_empty p)) [
  | inl e ↦ rw e (nonempty-append ps qs)
  | inr e ↦ rw e (ap (λ l. p ∷ l) (nonempty-append ps qs))
]

pub parts-append : (as' bs : List ℕ) → parts (as' ++ slash ∷ bs) ≡ parts as' ++ parts bs
unfolding parts
parts-append as' bs =
    ap nonempty (split-append as' bs) ∙ nonempty-append (split_slashes as') (split_slashes bs)

pub parts-slash : (cs : List ℕ) → parts (slash ∷ cs) ≡ parts cs
unfolding parts nonempty split_slashes
parts-slash cs = parts-append [] cs

parts-slashes : (k : ℕ) → parts (replicate k slash) ≡ []
unfolding parts nonempty split_slashes
parts-slashes zero = refl
parts-slashes (suc k) = parts-slash (replicate k slash) ∙ parts-slashes k

parts-append_slashes : (cs : List ℕ) (k : ℕ) → parts (cs ++ replicate k slash) ≡ parts cs
parts-append_slashes cs zero = ap parts (append-nil cs)
parts-append_slashes cs (suc k) =
    parts-append cs (replicate k slash)
    ∙ ap (λ l. parts cs ++ l) (parts-slashes k)
    ∙ append-nil (parts cs)

is_empty-nil : (cs : List ℕ) → is_empty cs ≡ true → cs ≡ []
is_empty-nil [] h = refl
is_empty-nil (c ∷ cs) h = cc

trimmed-cons :
    (c : ℕ) (cs : List ℕ)
    → (k : ℕ) × (cs ≡ trim_right cs ++ replicate k slash)
    → (k : ℕ) × (c ∷ cs ≡ trim_right (c ∷ cs) ++ replicate k slash)
unfolding trim_right
trimmed-cons c cs (k, e) = elim (Bool-cases (c == slash)) [
  | inr other ↦ (k, rw other (ap (λ l. c ∷ l) e))
  | inl same ↦ elim (Bool-cases (is_empty (trim_right cs))) [
    | inr more ↦ (k, rw (same, more) (ap (λ l. c ∷ l) e))
    | inl all ↦ (
      suc k,
      rw (same, all)
          (λ i.
            ==→eq c slash same i
            ∷ (e ∙ ap (λ l. l ++ replicate k slash) (is_empty-nil (trim_right cs) all)) i),
    )
  ]
]

trim_right_split : (cs : List ℕ) → (k : ℕ) × (cs ≡ trim_right cs ++ replicate k slash)
unfolding trim_right
trim_right_split [] = (0, refl)
trim_right_split (c ∷ cs) = trimmed-cons c cs (trim_right_split cs)

pub parts-trim_right : (cs : List ℕ) → parts (trim_right cs) ≡ parts cs
parts-trim_right cs =
    let (k, e) = trim_right_split cs in sym (ap parts e ∙ parts-append_slashes (trim_right cs) k)

pub parts-trim_left : (cs : List ℕ) → parts (trim_left cs) ≡ parts cs
unfolding trim_left
parts-trim_left [] = refl
parts-trim_left (c ∷ cs) = elim (Bool-cases (c == slash)) [
  | inl e ↦
      rw e (parts-trim_left cs ∙ sym (ap (λ d. parts (d ∷ cs)) (==→eq c slash e) ∙ parts-slash cs))
  | inr e ↦ rw e
]
