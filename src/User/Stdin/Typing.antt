-- ===== src/User/Stdin/Typing.antt =====
-- Lines that are typed with characters and keys that delete: `read_line` of pkg/lib/src/io.rs.
use operating_system_experim.Prelude.{
  ℕ, zero, suc, ◌<◌, ◌≡◌, refl, sym, ap, ◌∙◌, ◌≢◌, ◌⊎◌, inl, inr, true, false, ◌||◌, List, [], ◌∷◌,
  ◌++◌, append_assoc, append-nil, arith, ◌==◌, ne→==, length, take, ◌-◌, All,
}
use operating_system_experim.Proc.Lines
use operating_system_experim.Proc.Lines.Text.{
  IsPlain, first_byte, other_bytes, to_utf8-encode, first_byte-is_utf8, first_byte-plain,
}
use operating_system_experim.User.Stdin.{Answer, Entered, entered, pop_char, rubout, read_line}
use operating_system_experim.User.Stdin.Keys.{delivered, pop_key-delivered, to_utf8-delivered}

-- What is typed: a character, or one of the two keys that delete the last one.
pub data Key : Type 0 where
  char : ℕ → Key
  backspace delete : Key

-- A code point that is none of the keys that edit or end a line.
abbrev pub IsTyped : Key → Type 0
IsTyped (char c) = IsPlain c × (c ≢ 3)
IsTyped backspace = Unit
IsTyped delete = Unit

-- The keys in UTF-8, and then some others.
abbrev pub bytes : Key → List ℕ → List ℕ
bytes (char c) more = first_byte c ∷ (other_bytes c ++ more)
bytes backspace more = 0x08 ∷ more
bytes delete more = 0x7F ∷ more

unfoldable pub all_bytes : List Key → List ℕ → List ℕ
all_bytes [] more = more
all_bytes (k ∷ ks) more = bytes k (all_bytes ks more)

abbrev pub without_last : List ℕ → List ℕ
without_last [] = []
without_last (c ∷ []) = []
without_last (c ∷ d ∷ cs) = c ∷ without_last (d ∷ cs)

-- Back, over the last character with a space, and back; nothing on an empty line.
abbrev pub wiped : List ℕ → List ℕ
wiped [] = []
wiped (_ ∷ _) = 0x08 ∷ b' ' ∷ 0x08 ∷ []

pop_char-without_last : (text : List ℕ) → pop_char text ≡ without_last text
pop_char-without_last [] = refl
pop_char-without_last (c ∷ []) = refl
pop_char-without_last (c ∷ d ∷ cs) =
    let less : suc (suc (length cs)) - 1 ≡ suc (suc (length cs) - 1) = omega arith in
    ap (λ n. take n (c ∷ d ∷ cs)) less ∙ ap (λ l. c ∷ l) (pop_char-without_last (d ∷ cs))

rubout-wiped : (text : List ℕ) → rubout text ≡ wiped text
rubout-wiped [] = refl
rubout-wiped (_ ∷ _) = refl

-- The text once a key was typed, and what the key shows.
abbrev pub edited : Key → List ℕ → List ℕ
edited (char c) text = text ++ c ∷ []
edited backspace text = without_last text
edited delete text = without_last text

abbrev pub shown : Key → List ℕ → List ℕ
shown (char c) text = c ∷ []
shown backspace text = wiped text
shown delete text = wiped text

unfoldable pub all_edited : List Key → List ℕ → List ℕ
all_edited [] text = text
all_edited (k ∷ ks) text = all_edited ks (edited k text)

unfoldable pub all_shown : List Key → List ℕ → List ℕ
all_shown [] text = []
all_shown (k ∷ ks) text = shown k text ++ all_shown ks (edited k text)

-- A round that goes on with another text and echo, and with the keys left.
pub record Round (fuel : ℕ) (text echo : List ℕ) (answers : List Answer) (text' echo' more : List ℕ)
    : Type 0 where
  pub rest : List Answer
  pub goes_on : read_line (suc fuel) text echo answers ≡ read_line fuel text' echo' rest
  pub left : delivered rest ≡ more

char-Round :
    (fuel c : ℕ) (text echo : List ℕ) (answers : List Answer) (more : List ℕ)
    → IsPlain c
    → c ≢ 3
    → delivered answers ≡ first_byte c ∷ (other_bytes c ++ more)
    → Round fuel text echo answers (text ++ c ∷ []) (echo ++ c ∷ []) more
unfolding read_line
char-Round fuel c text echo answers more plain no_end h =
    let p = pop_key-delivered answers (first_byte c) (other_bytes c ++ more) h in
    let q =
      to_utf8-delivered (first_byte c) p.rest c more
        (ap (Lines.to_utf8 (first_byte c)) p.left ∙ to_utf8-encode c more plain.code_point) in
    let apart : (n : ℕ) → c ≢ n → n < 0x80 → (first_byte c == n) ≡ false =
      λ n h k. ne→== (first_byte c) n (first_byte-plain c n h k) in
    record {
      rest = q.rest;
      goes_on =
          rw (p.read, read_line)
            (rw
              (
                apart 13 plain.no_return (omega arith),
                apart 3 no_end (omega arith),
                apart 0x08 plain.no_backspace (omega arith),
                apart 0x7F plain.no_delete (omega arith),
              )
              (rw (first_byte-is_utf8 c plain.code_point)
                (rw (q.read) (rw (plain.code_point) refl))));
      left = q.left;
    }

deletes :
    (b : ℕ)
    → (b ≡ 0x08) ⊎ (b ≡ 0x7F)
    → ((b == 13) ≡ false) × ((b == 3) ≡ false) × ((b == 0x08 || b == 0x7F) ≡ true)
deletes b (inl e) = rw e (refl, refl, refl)
deletes b (inr e) = rw e (refl, refl, refl)

-- A key that deletes, by its byte.
rubout-Round :
    (fuel b : ℕ) (text echo : List ℕ) (answers : List Answer) (more : List ℕ)
    → (b ≡ 0x08) ⊎ (b ≡ 0x7F)
    → delivered answers ≡ b ∷ more
    → Round fuel text echo answers (without_last text) (echo ++ wiped text) more
unfolding read_line
rubout-Round fuel b text echo answers more which h =
    let p = pop_key-delivered answers b more h in
    let (no_return, no_end, is_one) = deletes b which in
    record {
      rest = p.rest;
      goes_on =
          rw (p.read, read_line)
            (rw (no_return) (
              rw (no_end) (
                rw (is_one) (
                  ap (λ t. read_line fuel t (echo ++ rubout text) p.rest)
                    (pop_char-without_last text)
                  ∙ ap (λ r. read_line fuel (without_last text) (echo ++ r) p.rest)
                      (rubout-wiped text)))));
      left = p.left;
    }

key-Round :
    (fuel : ℕ) (k : Key) (text echo : List ℕ) (answers : List Answer) (more : List ℕ)
    → IsTyped k
    → delivered answers ≡ bytes k more
    → Round fuel text echo answers (edited k text) (echo ++ shown k text) more
key-Round fuel (char c) text echo answers more t h =
    char-Round fuel c text echo answers more t.0 t.1 h
key-Round fuel backspace text echo answers more t h =
    rubout-Round fuel 0x08 text echo answers more (inl refl) h
key-Round fuel delete text echo answers more t h =
    rubout-Round fuel 0x7F text echo answers more (inr refl) h

-- The line that was entered, with the keys left behind it.
pub record Line (e : Entered) (text echo more : List ℕ) : Type 0 where
  pub rest : List Answer
  pub is_entered : e ≡ entered text echo rest
  pub left : delivered rest ≡ more

read_line-typed_from :
    (fuel : ℕ) (ks : List Key) (text echo : List ℕ) (answers : List Answer) (more : List ℕ)
    → length ks < fuel
    → All IsTyped ks
    → delivered answers ≡ all_bytes ks (13 ∷ more)
    → Line
        (read_line fuel text echo answers)
        (all_edited ks text)
        (echo ++ all_shown ks text ++ 10 ∷ 10 ∷ [])
        more
unfolding read_line all_bytes all_edited all_shown
read_line-typed_from zero ks text echo answers more enough typed h = absurd (omega (arith, enough))
read_line-typed_from (suc fuel) [] text echo answers more enough typed h =
    let p = pop_key-delivered answers 13 more h in
    record {
      rest = p.rest;
      is_entered =
          rw (p.read, read_line)
            (ap (λ l. entered text (l ++ 10 ∷ 10 ∷ []) p.rest) (sym (append-nil echo)));
      left = p.left;
    }
read_line-typed_from (suc fuel) (k ∷ ks) text echo answers more enough (t, typed) h =
    let r = key-Round fuel k text echo answers (all_bytes ks (13 ∷ more)) t h in
    let whole =
      read_line-typed_from fuel ks (edited k text) (echo ++ shown k text) r.rest more
        (omega (arith, enough)) typed r.left in
    record {
      rest = whole.rest;
      is_entered =
          r.goes_on
          ∙ whole.is_entered
          ∙ ap (λ l. entered (all_edited ks (edited k text)) (l ++ 10 ∷ 10 ∷ []) whole.rest)
              (append_assoc echo (shown k text) (all_shown ks (edited k text)));
      left = whole.left;
    }

-- Whatever sys_read answers in between: when characters and keys that delete, none of them a return or
-- a Ctrl-C, are typed in UTF-8 and then the return key, read_line ends, given a round for each and one
-- more. The line is what the keys leave when each that deletes takes the last character, if there is
-- one, the echo shows them with two ends of a line, and the keys behind the return key are left.
pub read_line-typed :
    (fuel : ℕ) (ks : List Key) (answers : List Answer) (more : List ℕ)
    → length ks < fuel
    → All IsTyped ks
    → delivered answers ≡ all_bytes ks (13 ∷ more)
    → Line (read_line fuel [] [] answers) (all_edited ks []) (all_shown ks [] ++ 10 ∷ 10 ∷ []) more
read_line-typed fuel ks answers more = read_line-typed_from fuel ks [] [] answers more
