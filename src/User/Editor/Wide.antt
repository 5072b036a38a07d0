-- ===== src/User/Editor/Wide.antt =====
-- What the shell's editor does behind a character of several bytes.
use operating_system_experim.Prelude.{
  ℕ, zero, suc, ◌+◌, ◌-◌, ◌≤◌, ◌≡◌, refl, sym, ap, subst, ◌∙◌, Bool, true, false, Option, none,
  some, List, [], ◌∷◌, arith, ltb, if◌then◌else◌, ge→ltb, ltb→ge,
}
use operating_system_experim.User.Editor.{
  plain, Editor, typing, panics, width, prepend, is_printable, insert_char, typed_at, type_char,
  plain_key, press,
}

some-inj : {xs ys : List ℕ} → some xs ≡ some ys → xs ≡ ys
some-inj e = ground arith

width-wide : (c : ℕ) → 128 ≤ c → ltb 1 (width c) ≡ true
width-wide c h = ground arith

width-bounds : (x : ℕ) → (1 ≤ width x) × (width x ≤ 4)
width-bounds x = ground arith

past : (n w : ℕ) → w ≤ n → suc n - w ≡ suc (n - w)
past n w h = omega arith

-- A byte behind the start of a character of several bytes there is no place for another.
insert_char-within :
    (c k n : ℕ) (text result : List ℕ)
    → 128 ≤ c
    → insert_char c n text ≡ some result
    → insert_char k (suc n) result ≡ none
unfolding insert_char
insert_char-within c k zero text result h e =
    subst (λ r. insert_char k 1 r ≡ none) (some-inj e) (rw (width-wide c h))
insert_char-within c k (suc n) [] result h e = absurd (ground arith)
insert_char-within c k (suc n) (x ∷ xs) result h e =
    behind (insert_char c (suc n - width x) xs) (ltb (suc n) (width x)) refl e
      (λ r. insert_char-within c k (suc n - width x) xs r h)
  where
    behind :
        (inner : Option (List ℕ)) (b : Bool)
        → ltb (suc n) (width x) ≡ b
        → (if b then none else prepend x inner) ≡ some result
        → ((r : List ℕ) → inner ≡ some r → insert_char k (suc (suc n - width x)) r ≡ none)
        → insert_char k (suc (suc n)) result ≡ none
    behind inner true at eq ih = absurd (ground arith)
    behind none false at eq ih = absurd (ground arith)
    behind (some r) false at eq ih =
        subst (λ l. insert_char k (suc (suc n)) l ≡ none) (some-inj eq)
          (rw (ge→ltb (suc (suc n)) (width x) (omega (arith, ltb→ge (suc n) (width x) at))) (
            ap (prepend x) (
              ap (λ m. insert_char k m r) (past (suc n) (width x) (ltb→ge (suc n) (width x) at))
              ∙ ih r refl)))

next : (n : ℕ) → n + 1 ≡ suc n
next n = omega arith

press-type :
    (c : ℕ) (e : Editor)
    → e.mode ≡ plain
    → is_printable c ≡ true
    → press (some c) e ≡ typed_at (e.cursor + 1) (insert_char c e.cursor e.buffer) e
unfolding press plain_key type_char
press-type c e m p = rw m (ground arith)

typing-inj : {e f : Editor} → typing e ≡ typing f → e ≡ f
typing-inj h = ground arith

typed_at-panics :
    (c k : ℕ) (e f : Editor) (inserted : Option (List ℕ))
    → e.mode ≡ plain
    → 128 ≤ c
    → is_printable k ≡ true
    → insert_char c e.cursor e.buffer ≡ inserted
    → typed_at (e.cursor + 1) inserted e ≡ typing f
    → press (some k) f ≡ panics
typed_at-panics c k e f none m h p i t = absurd (ground arith)
typed_at-panics c k e f (some text) m h p i t =
    subst (λ g. press (some k) g ≡ panics) (typing-inj t)
      (press-type k (record e { buffer = text; cursor = e.cursor + 1 }) m p
        ∙ ap
            (λ o. typed_at (e.cursor + 1 + 1) o (record e { buffer = text; cursor = e.cursor + 1 }))
            (ap (λ n. insert_char k n text) (next e.cursor)
              ∙ insert_char-within c k e.cursor e.buffer text h i))

-- In any state of the editor that waits for a plain key: when a printable character outside ASCII
-- has been typed, the next printable key panics.
pub press-wide_panics :
    (c k : ℕ) (e f : Editor)
    → e.mode ≡ plain
    → 128 ≤ c
    → is_printable c ≡ true
    → is_printable k ≡ true
    → press (some c) e ≡ typing f
    → press (some k) f ≡ panics
press-wide_panics c k e f m h pc pk t =
    typed_at-panics c k e f (insert_char c e.cursor e.buffer) m h pk refl
      (sym (press-type c e m pc) ∙ t)
