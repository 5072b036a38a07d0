-- ===== src/User/Fish/Pattern.antt =====
-- Whose turn it is after so many characters, and what they are.
use operating_system_experim.Prelude.{
  ℕ, zero, suc, ◌+◌, ◌/◌, ◌%◌, ◌<◌, ◌≡◌, refl, ◌∙◌, ◌≢◌, some, List, [], ◌∷◌, ◌++◌, arith, length,
  get_or, length-append,
}
use operating_system_experim.User.Fish.{gt, lt, us, char_of, next_sem}

-- The processes in the order of their turns, which repeats after eight.
turns : List ℕ
turns = lt ∷ gt ∷ lt ∷ us ∷ gt ∷ lt ∷ gt ∷ us ∷ []

pub owner : ℕ → ℕ
owner n = get_or turns (n % 8) 0

-- `<><_><>_`
abbrev pub fishes : List ℕ
fishes = b'<' ∷ b'>' ∷ b'<' ∷ b'_' ∷ b'>' ∷ b'<' ∷ b'>' ∷ b'_' ∷ []

-- The first `n` characters of fishes without end.
pub picture : ℕ → List ℕ
picture zero = []
picture (suc n) = picture n ++ get_or fishes (n % 8) 0 ∷ []

pub picture-suc : (n : ℕ) → picture (suc n) ≡ picture n ++ get_or fishes (n % 8) 0 ∷ []
unfolding picture
picture-suc n = refl

pub picture-nil : picture 0 ≡ []
unfolding picture
picture-nil = refl

pub length-picture : (n : ℕ) → length (picture n) ≡ n
unfolding picture
length-picture zero = refl
length-picture (suc n) =
    omega (arith, length-append (picture n) (get_or fishes (n % 8) 0 ∷ []), length-picture n)

pub first_owner : owner 0 ≡ lt
unfolding owner turns
first_owner = refl

below_eight :
    (P : ℕ → Type 0) → P 0 × P 1 × P 2 × P 3 × P 4 × P 5 × P 6 × P 7 → (r : ℕ) → r < 8 → P r
below_eight P h zero lt' = h.0
below_eight P h (suc zero) lt' = h.1
below_eight P h (suc (suc zero)) lt' = h.2
below_eight P h (suc (suc (suc zero))) lt' = h.3
below_eight P h (suc (suc (suc (suc zero)))) lt' = h.4
below_eight P h (suc (suc (suc (suc (suc zero))))) lt' = h.5
below_eight P h (suc (suc (suc (suc (suc (suc zero)))))) lt' = h.6
below_eight P h (suc (suc (suc (suc (suc (suc (suc zero))))))) lt' = h.7
below_eight P h (suc (suc (suc (suc (suc (suc (suc (suc r)))))))) lt' = absurd (omega arith)

remainder : (n : ℕ) → n % 8 < 8
remainder n = omega arith

pub owner-lt : (n : ℕ) → owner n < 3
unfolding owner turns
owner-lt n = below_eight (λ r. get_or turns r 0 < 3) (omega arith) (n % 8) (remainder n)

pub char_of-owner : (n : ℕ) → char_of (owner n) ≡ get_or fishes (n % 8) 0
unfolding owner turns
char_of-owner n =
    below_eight (λ r. char_of (get_or turns r 0) ≡ get_or fishes r 0)
      (refl, refl, refl, refl, refl, refl, refl, refl) (n % 8) (remainder n)

eighth : (n : ℕ) → (n / 4 % 2 ≡ n % 8 / 4) × (n % 4 ≡ n % 8 % 4)
eighth n = omega arith

pub next_sem-owner : (n : ℕ) → next_sem (n / 4 % 2) (n % 4) ≡ some (owner n)
unfolding owner turns next_sem
next_sem-owner n =
    (λ i. next_sem ((eighth n).0 i) ((eighth n).1 i))
    ∙ below_eight (λ r. next_sem (r / 4) (r % 4) ≡ some (get_or turns r 0))
        (refl, refl, refl, refl, refl, refl, refl, refl) (n % 8) (remainder n)

next_eighth : (n : ℕ) → suc n % 8 ≡ (n % 8 + 1) % 8
next_eighth n = omega arith

pub owner-suc : (n : ℕ) → owner (suc n) ≢ owner n
unfolding owner turns
owner-suc n = rw (next_eighth n) (
    below_eight (λ r. get_or turns ((r + 1) % 8) 0 ≢ get_or turns r 0) (omega arith) (n % 8)
      (remainder n))
