-- ===== src/Proc/Lines/Text.antt =====
-- Lines of text as they are typed: `get_line` of pkg/kernel/src/drivers/input.rs.
use operating_system_experim.Prelude.{
  ℕ, zero, suc, ◌+◌, ◌*◌, ◌/◌, ◌%◌, ◌≤◌, ◌<◌, ◌≡◌, refl, sym, ap, ◌∙◌, ◌≢◌, inl, inr, true, false,
  Option, some, List, [], ◌∷◌, ◌++◌, append-nil, append_assoc, arith, ltb, if◌then◌else◌, ltb→lt,
  ltb→ge, ne→==, Bool-cases, length, All,
}
use operating_system_experim.Proc.Lines.{
  line, is_utf8, more_keys, to_utf8, is_char, is_backspace, get_line,
}

-- The bytes of a code point in UTF-8: the first, and those behind it.
abbrev pub first_byte : ℕ → ℕ
first_byte c =
    if ltb c 0x80
    then c
    else (if ltb c 0x800
        then 0xC0 + c / 64
        else (if ltb c 0x1_0000 then 0xE0 + c / 4096 else 0xF0 + c / 262144))

abbrev pub low_byte : ℕ → ℕ
low_byte c = 0x80 + c % 64

abbrev pub other_bytes : ℕ → List ℕ
other_bytes c =
    if ltb c 0x80
    then []
    else (if ltb c 0x800
        then low_byte c ∷ []
        else (if ltb c 0x1_0000
            then low_byte (c / 64) ∷ low_byte c ∷ []
            else low_byte (c / 4096) ∷ low_byte (c / 64) ∷ low_byte c ∷ []))

unfoldable pub encode : List ℕ → List ℕ
encode [] = []
encode (c ∷ cs) = first_byte c ∷ (other_bytes c ++ encode cs)

-- A code point that is none of the three keys that edit.
pub record IsPlain (c : ℕ) : Type 0 where
  pub code_point : is_char c ≡ true
  pub no_return : c ≢ 13
  pub no_backspace : c ≢ 0x08
  pub no_delete : c ≢ 0x7F

two_bytes : (c : ℕ) → c < 0x800 → (0xC0 + c / 64) % 32 * 64 + low_byte c % 64 ≡ c
two_bytes c h = omega (arith, h)

three_bytes :
    (c : ℕ)
    → c < 0x1_0000
    → ((0xE0 + c / 4096) % 16 * 64 + low_byte (c / 64) % 64) * 64 + low_byte c % 64 ≡ c
three_bytes c h = omega (arith, h)

four_bytes :
    (c : ℕ)
    → c < 0x11_0000
    → (((0xF0 + c / 262144) % 8 * 64 + low_byte (c / 4096) % 64) * 64 + low_byte (c / 64) % 64) * 64
        + low_byte c % 64
      ≡ c
four_bytes c h = omega (arith, h)

decoded :
    (n c : ℕ) (rest : List ℕ)
    → n ≡ c
    → ◌≡◌ {A = Option (ℕ × List ℕ)} (some (n, rest)) (some (c, rest))
decoded n c rest h = ap (λ k. some (k, rest)) h

to_utf8-two :
    (c : ℕ) (rest : List ℕ)
    → 0x80 ≤ c
    → c < 0x800
    → to_utf8 (0xC0 + c / 64) (low_byte c ∷ rest) ≡ some (c, rest)
unfolding to_utf8 more_keys
to_utf8-two c rest low high = ground (arith, low, high, decoded _ c rest (two_bytes c high))

to_utf8-three :
    (c : ℕ) (rest : List ℕ)
    → 0x800 ≤ c
    → c < 0x1_0000
    → to_utf8 (0xE0 + c / 4096) (low_byte (c / 64) ∷ low_byte c ∷ rest) ≡ some (c, rest)
unfolding to_utf8 more_keys
to_utf8-three c rest low high = ground (arith, low, high, decoded _ c rest (three_bytes c high))

to_utf8-four :
    (c : ℕ) (rest : List ℕ)
    → 0x1_0000 ≤ c
    → c < 0x11_0000
    → to_utf8 (0xF0 + c / 262144) (low_byte (c / 4096) ∷ low_byte (c / 64) ∷ low_byte c ∷ rest)
      ≡ some (c, rest)
unfolding to_utf8 more_keys
to_utf8-four c rest low high = ground (arith, low, high, decoded _ c rest (four_bytes c high))

to_utf8-shape :
    (c b : ℕ) (bs rest : List ℕ)
    → first_byte c ≡ b
    → other_bytes c ≡ bs
    → to_utf8 b (bs ++ rest) ≡ some (c, rest)
    → to_utf8 (first_byte c) (other_bytes c ++ rest) ≡ some (c, rest)
to_utf8-shape c b bs rest e f h =
    ap (λ n. to_utf8 n (other_bytes c ++ rest)) e ∙ ap (λ l. to_utf8 b (l ++ rest)) f ∙ h

to_utf8-one : (c : ℕ) (rest : List ℕ) → c < 0x80 → to_utf8 c rest ≡ some (c, rest)
unfolding to_utf8
to_utf8-one c rest low = ground (arith, low)

pub to_utf8-encode :
    (c : ℕ) (rest : List ℕ)
    → is_char c ≡ true
    → to_utf8 (first_byte c) (other_bytes c ++ rest) ≡ some (c, rest)
to_utf8-encode c rest h = elim (Bool-cases (ltb c 0x80)) [
  | inl one ↦
      to_utf8-shape c c [] rest (ground (arith, one)) (ground (arith, one))
        (to_utf8-one c rest (ltb→lt c 0x80 one))
  | inr a ↦ elim (Bool-cases (ltb c 0x800)) [
    | inl two ↦
        to_utf8-shape c (0xC0 + c / 64) (low_byte c ∷ []) rest (ground (arith, a, two))
          (ground (arith, a, two)) (to_utf8-two c rest (ltb→ge c 0x80 a) (ltb→lt c 0x800 two))
    | inr b ↦ elim (Bool-cases (ltb c 0x1_0000)) [
      | inl three ↦
          to_utf8-shape c (0xE0 + c / 4096) (low_byte (c / 64) ∷ low_byte c ∷ []) rest
            (ground (arith, a, b, three)) (ground (arith, a, b, three))
            (to_utf8-three c rest (ltb→ge c 0x800 b) (ltb→lt c 0x1_0000 three))
      | inr d ↦
          to_utf8-shape c (0xF0 + c / 262144)
            (low_byte (c / 4096) ∷ low_byte (c / 64) ∷ low_byte c ∷ []) rest
            (ground (arith, a, b, d)) (ground (arith, a, b, d))
            (to_utf8-four c rest (ltb→ge c 0x1_0000 d) (ground (arith, h)))
    ]
  ]
]

pub first_byte-is_utf8 : (c : ℕ) → is_char c ≡ true → is_utf8 (first_byte c) ≡ true
first_byte-is_utf8 c h = ground (arith, h)

pub first_byte-plain : (c n : ℕ) → c ≢ n → n < 0x80 → first_byte c ≢ n
first_byte-plain c n h small = ground (arith, h, small)

get_line-step :
    (fuel : ℕ) (before : List ℕ) (c : ℕ) (tail : List ℕ)
    → IsPlain c
    → get_line (suc fuel) before (first_byte c ∷ (other_bytes c ++ tail))
      ≡ get_line fuel (before ++ c ∷ []) tail
unfolding get_line
get_line-step fuel before c tail h =
    let no_return = ne→== (first_byte c) 13 (first_byte-plain c 13 h.no_return (omega arith)) in
    let no_edit : is_backspace (first_byte c) before ≡ false = ground (
      arith,
      first_byte-plain c 0x08 h.no_backspace (omega arith),
      first_byte-plain c 0x7F h.no_delete (omega arith),
    ) in
    rw (no_return, get_line)
      (rw (no_edit) (
        rw (first_byte-is_utf8 c h.code_point)
          (rw (to_utf8-encode c tail h.code_point) (rw (h.code_point) refl))))

-- Typing a text, which holds none of the keys that edit, as UTF-8 and then the return key gives the
-- text so far with that text behind it, and leaves the keys behind the line, given a round for each
-- character and one more.
pub get_line-encode :
    (fuel : ℕ) (before text keys : List ℕ)
    → length text < fuel
    → All IsPlain text
    → get_line fuel before (encode text ++ 13 ∷ keys) ≡ line (before ++ text) keys
unfolding get_line encode
get_line-encode zero before text keys enough plain = absurd (omega (arith, enough))
get_line-encode (suc fuel) before [] keys enough plain =
    ap (λ l. line l keys) (sym (append-nil before))
get_line-encode (suc fuel) before (c ∷ text) keys enough (h, plain) =
    ap (λ l. get_line (suc fuel) before (first_byte c ∷ l))
      (append_assoc (other_bytes c) (encode text) (13 ∷ keys))
    ∙ get_line-step fuel before c (encode text ++ 13 ∷ keys) h
    ∙ get_line-encode fuel (before ++ c ∷ []) text keys (omega (arith, enough)) plain
    ∙ ap (λ l. line l keys) (append_assoc before (c ∷ []) text)
