-- ===== src/Prelude/Slices.antt =====
-- The first and the last elements of lists: how `take` and `drop` meet `++` and each other.
use Prim.Native.Nat.{ℕ, zero, suc, ◌+◌, ◌-◌, ◌≤◌, min}
use mathlib.Core.Path.{◌≡◌, refl, sym, ap, ◌∙◌}
use mathlib.Core.List.{List, [], ◌∷◌, ◌++◌}
use native.Mathlib.Omega.{arith}
use native.Mathlib.Numerals.{unary_clauses}
use operating_system_experim.Prelude.Lists.{length, take, drop}

zero_sub : (n : ℕ) → 0 ≡ 0 - n
zero_sub n = omega arith

suc_add : (m n : ℕ) → suc m + n ≡ suc (m + n)
suc_add m n = omega arith

module _ {A : Type 0} where
  pub take-nil : (n : ℕ) → take {A = A} n [] ≡ []
  take-nil zero = refl
  take-nil (suc n) = refl

  pub drop-nil : (n : ℕ) → drop {A = A} n [] ≡ []
  drop-nil zero = refl
  drop-nil (suc n) = refl

  pub take-append :
      (n : ℕ) (xs ys : List A) → take n (xs ++ ys) ≡ take n xs ++ take (n - length xs) ys
  take-append zero [] ys = refl
  take-append zero (x ∷ xs) ys = ap (λ k. take k ys) (zero_sub (suc (length xs)))
  take-append (suc n) [] ys = simp unary_clauses
  take-append (suc n) (x ∷ xs) ys = simp (unary_clauses, take-append n xs ys)

  pub take-min : (n : ℕ) (xs : List A) → take (min n (length xs)) xs ≡ take n xs
  take-min zero xs = simp unary_clauses
  take-min (suc n) [] = simp unary_clauses
  take-min (suc n) (x ∷ xs) = simp (unary_clauses, take-min n xs)

  pub drop-append_le :
      (n : ℕ) (xs ys : List A) → n ≤ length xs → drop n (xs ++ ys) ≡ drop n xs ++ ys
  drop-append_le zero xs ys h = refl
  drop-append_le (suc n) [] ys h = absurd (omega arith)
  drop-append_le (suc n) (x ∷ xs) ys h = drop-append_le n xs ys (omega arith)

  pub drop-append_past : (xs ys : List A) (n : ℕ) → drop (length xs + n) (xs ++ ys) ≡ drop n ys
  drop-append_past [] ys n = ap (λ k. drop k ys) (omega arith)
  drop-append_past (x ∷ xs) ys n =
      ap (λ k. drop k (x ∷ xs ++ ys)) (suc_add (length xs) n) ∙ drop-append_past xs ys n

  pub drop-drop : (m n : ℕ) (xs : List A) → drop m (drop n xs) ≡ drop (n + m) xs
  drop-drop m zero xs = ap (λ k. drop k xs) (omega arith)
  drop-drop m (suc n) [] = drop-nil m ∙ sym (drop-nil (suc n + m))
  drop-drop m (suc n) (x ∷ xs) = drop-drop m n xs ∙ ap (λ k. drop k (x ∷ xs)) (sym (suc_add n m))

  pub take-take : (m n : ℕ) (xs : List A) → take m (take n xs) ≡ take (min m n) xs
  take-take zero n xs = simp unary_clauses
  take-take (suc m) zero xs = simp unary_clauses
  take-take (suc m) (suc n) [] = sym (take-nil (min (suc m) (suc n)))
  take-take (suc m) (suc n) (x ∷ xs) = simp (unary_clauses, take-take m n xs)

  pub drop-take : (m n : ℕ) (xs : List A) → drop m (take n xs) ≡ take (n - m) (drop m xs)
  drop-take zero n xs = simp unary_clauses
  drop-take (suc m) zero xs = ap (λ k. take k (drop (suc m) xs)) (zero_sub (suc m))
  drop-take (suc m) (suc n) [] = sym (take-nil (suc n - suc m))
  drop-take (suc m) (suc n) (x ∷ xs) = simp (unary_clauses, drop-take m n xs)

  pub take-all : (n : ℕ) (xs : List A) → length xs ≤ n → take n xs ≡ xs
  take-all zero [] h = refl
  take-all zero (x ∷ xs) h = absurd (omega arith)
  take-all (suc n) [] h = refl
  take-all (suc n) (x ∷ xs) h = ap (λ l. x ∷ l) (take-all n xs (omega arith))

  -- A list is what `take` takes and what is left behind it.
  pub take-drop_split : (n : ℕ) (xs : List A) → take n xs ++ drop (length (take n xs)) xs ≡ xs
  take-drop_split zero xs = refl
  take-drop_split (suc n) [] = refl
  take-drop_split (suc n) (x ∷ xs) = ap (λ l. x ∷ l) (take-drop_split n xs)

  pub take-exact : (xs ys : List A) → take (length xs) (xs ++ ys) ≡ xs
  take-exact [] ys = refl
  take-exact (x ∷ xs) ys = ap (λ l. x ∷ l) (take-exact xs ys)

  pub drop-exact : (xs ys : List A) → drop (length xs) (xs ++ ys) ≡ ys
  drop-exact [] ys = refl
  drop-exact (x ∷ xs) ys = drop-exact xs ys
