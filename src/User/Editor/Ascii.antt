-- ===== src/User/Editor/Ascii.antt =====
-- The editor on text of one byte for each character, and on other text.
use operating_system_experim.Prelude.{
  ℕ, zero, suc, ◌+◌, ◌-◌, ◌≤◌, ◌<◌, ◌≡◌, refl, ap, subst, inl, inr, true, ◌||◌, Option, none, some,
  List, [], ◌∷◌, ◌++◌, arith, ltb, ◌==◌, ltb→lt, ge→ltb, Bool-cases, length, take, drop,
  length-append, length-take, All, All-append,
}
use operating_system_experim.User.Editor.{
  Mode, plain, escaped, bracketed, Editor, Reading, typing, entered, panics, width, byte_length,
  prepend, insert_char, remove_char, get_elem?, recalled, recall, previous, up_in, up, down_at,
  down_in, down, erase_at, right, left, arrow, is_printable, type_char, backspace, plain_key,
  key_in, press,
}

-- A printable character of one byte.
abbrev pub IsText : ℕ → Type 0
IsText c = (c < 128) × (is_printable c ≡ true)

byte_length-text : (cs : List ℕ) → All IsText cs → byte_length cs ≡ length cs
byte_length-text [] h = refl
byte_length-text (c ∷ cs) h = ground (arith, byte_length-text cs h.1)

width-text : (c : ℕ) → c < 128 → width c ≡ 1
width-text c h = ground arith

suc_pred : (n : ℕ) → suc n - 1 ≡ n
suc_pred n = omega arith

pub insert_char-text :
    (c n : ℕ) (cs : List ℕ)
    → All IsText cs
    → n ≤ length cs
    → insert_char c n cs ≡ some (take n cs ++ c ∷ drop n cs)
unfolding insert_char
insert_char-text c zero cs h le = refl
insert_char-text c (suc n) [] h le = absurd (omega arith)
insert_char-text c (suc n) (x ∷ xs) h le =
    rw (width-text x h.0.0, ge→ltb (suc n) 1 (omega arith), suc_pred n)
      (ap (prepend x) (insert_char-text c n xs h.1 (omega arith)))

remove_char-text :
    (n : ℕ) (cs : List ℕ)
    → All IsText cs
    → n < length cs
    → remove_char n cs ≡ some (take n cs ++ drop (suc n) cs)
unfolding remove_char
remove_char-text zero [] h lt = absurd (omega arith)
remove_char-text zero (x ∷ xs) h lt = refl
remove_char-text (suc n) [] h lt = absurd (omega arith)
remove_char-text (suc n) (x ∷ xs) h lt =
    rw (width-text x h.0.0, ge→ltb (suc n) 1 (omega arith), suc_pred n)
      (ap (prepend x) (remove_char-text n xs h.1 (omega arith)))

take-text : (P : ℕ → Type 0) (n : ℕ) (cs : List ℕ) → All P cs → All P (take n cs)
take-text P zero cs h = tt
take-text P (suc n) [] h = tt
take-text P (suc n) (c ∷ cs) h = (h.0, take-text P n cs h.1)

drop-text : (P : ℕ → Type 0) (n : ℕ) (cs : List ℕ) → All P cs → All P (drop n cs)
drop-text P zero cs h = h
drop-text P (suc n) [] h = tt
drop-text P (suc n) (c ∷ cs) h = drop-text P n cs h.1

-- The cursor is in a text of printable characters, and so are those of the history.
pub record IsAscii (e : Editor) : Type 0 where
  pub text : All IsText e.buffer
  pub past : All (λ cmd. All IsText cmd) e.history
  pub place : e.cursor ≤ length e.buffer

-- What a key leads to from such a state.
abbrev pub Safe : List (List ℕ) → Reading → Type 0
Safe history (typing e) = IsAscii e × (e.history ≡ history)
Safe history (entered text e) = All IsText text
Safe history panics = ⊥

elem-text :
    (P : List ℕ → Type 0) (cmds : List (List ℕ)) (i : ℕ) {cmd : List ℕ}
    → All P cmds
    → get_elem? cmds i ≡ some cmd
    → P cmd
elem-text P [] i h e = absurd (ground arith)
elem-text P (c ∷ cmds) zero h e = subst P (ground arith) h.0
elem-text P (c ∷ cmds) (suc i) h e = elem-text P cmds i h.1 e

-- A state of the editor that keeps the history.
abbrev Keeps : Editor → Editor → Type 0
Keeps e f = IsAscii f × (f.history ≡ e.history)

plain-Keeps : (e : Editor) → IsAscii e → Keeps e (record e { mode = plain })
plain-Keeps e h = (record { text = h.text; past = h.past; place = h.place }, refl)

recalled-Keeps :
    (found : Option (List ℕ)) (i : ℕ) (e : Editor)
    → get_elem? e.history i ≡ found
    → IsAscii e
    → Keeps e (recalled found i e)
recalled-Keeps none i e k h = (record { text = h.text; past = h.past; place = h.place }, refl)
recalled-Keeps (some cmd) i e k h =
    let text : All IsText cmd = elem-text (All IsText) e.history i h.past k in
    (record { text = text; past = h.past; place = omega (arith, byte_length-text cmd text) }, refl)

recall-Keeps : (i : ℕ) (e : Editor) → IsAscii e → Keeps e (recall i e)
recall-Keeps i e h = recalled-Keeps (get_elem? e.history i) i e refl h

up_in-Keeps : (cmds : List (List ℕ)) (e : Editor) → IsAscii e → Keeps e (up_in cmds e)
up_in-Keeps [] e h = plain-Keeps e h
up_in-Keeps (_ ∷ _) e h = recall-Keeps (previous (length e.history) e.history_index) e h

down_at-Keeps : (index : Option ℕ) (e : Editor) → IsAscii e → Keeps e (down_at index e)
down_at-Keeps none e h = plain-Keeps e h
down_at-Keeps (some i) e h = elim (Bool-cases (ltb i (length e.history - 1))) [
  | inl k ↦ rw k (recall-Keeps (i + 1) e h)
  | inr k ↦ rw k (record { text = tt; past = h.past; place = omega arith }, refl)
]

down_in-Keeps : (cmds : List (List ℕ)) (e : Editor) → IsAscii e → Keeps e (down_in cmds e)
down_in-Keeps [] e h = plain-Keeps e h
down_in-Keeps (_ ∷ _) e h = down_at-Keeps e.history_index e h

right-Keeps : (e : Editor) → IsAscii e → Keeps e (right e)
right-Keeps e h = elim (Bool-cases (ltb e.cursor (byte_length e.buffer))) [
  | inl k ↦ rw k (
    record {
      text = h.text;
      past = h.past;
      place =
          omega (arith, byte_length-text e.buffer h.text, ltb→lt e.cursor (byte_length e.buffer) k);
    },
    refl,
  )
  | inr k ↦ rw k (plain-Keeps e h)
]

left-Keeps : (e : Editor) → IsAscii e → Keeps e (left e)
left-Keeps e h = (record { text = h.text; past = h.past; place = omega (arith, h.place) }, refl)

arrow-Keeps : (c : ℕ) (e : Editor) → IsAscii e → Keeps e (arrow c e)
unfolding arrow up down
arrow-Keeps c e h = elim (Bool-cases (c == b'A')) [
  | inl k ↦ rw k (up_in-Keeps e.history e h)
  | inr a ↦ elim (Bool-cases (c == b'B')) [
    | inl k ↦ rw (a, k) (down_in-Keeps e.history e h)
    | inr b ↦ elim (Bool-cases (c == b'C')) [
      | inl k ↦ rw (a, b, k) (right-Keeps e h)
      | inr d ↦ elim (Bool-cases (c == b'D')) [
        | inl k ↦ rw (a, b, d, k) (left-Keeps e h)
        | inr k ↦ rw (a, b, d, k) (plain-Keeps e h)
      ]
    ]
  ]
]

type_char-Safe : (c : ℕ) (e : Editor) → IsText c → IsAscii e → Safe e.history (type_char c e)
unfolding type_char
type_char-Safe c e t h = rw (insert_char-text c e.cursor e.buffer h.text h.place) (
  record {
    text =
        All-append IsText (take e.cursor e.buffer) (c ∷ drop e.cursor e.buffer)
          (take-text IsText e.cursor e.buffer h.text)
          (t, drop-text IsText e.cursor e.buffer h.text);
    past = h.past;
    place = omega (
      arith,
      h.place,
      length-append (take e.cursor e.buffer) (c ∷ drop e.cursor e.buffer),
      length-take e.cursor e.buffer,
    );
  },
  refl,
)

erase_at-Safe :
    (n : ℕ) (e : Editor) → n ≤ length e.buffer → IsAscii e → Safe e.history (erase_at n e)
erase_at-Safe zero e le h = (h, refl)
erase_at-Safe (suc n) e le h = rw (remove_char-text n e.buffer h.text (omega arith)) (
  record {
    text =
        All-append IsText (take n e.buffer) (drop (suc n) e.buffer)
          (take-text IsText n e.buffer h.text) (drop-text IsText (suc n) e.buffer h.text);
    past = h.past;
    place =
        omega
          (arith, length-append (take n e.buffer) (drop (suc n) e.buffer), length-take n e.buffer);
  },
  refl,
)

mode-Safe : (m : Mode) (e : Editor) → IsAscii e → Safe e.history (typing (record e { mode = m }))
mode-Safe m e h = (record { text = h.text; past = h.past; place = h.place }, refl)

plain_key-Safe : (c : ℕ) (e : Editor) → c < 128 → IsAscii e → Safe e.history (plain_key c e)
unfolding plain_key backspace
plain_key-Safe c e lt h = elim (Bool-cases (c == 10 || c == 13)) [
  | inl k ↦ rw k h.text
  | inr a ↦ elim (Bool-cases (c == 0x08 || c == 0x7F)) [
    | inl k ↦ rw (a, k) (erase_at-Safe e.cursor e h.place h)
    | inr b ↦ elim (Bool-cases (c == 0x1B)) [
      | inl k ↦ rw (a, b, k) (mode-Safe escaped e h)
      | inr d ↦ elim (Bool-cases (is_printable c)) [
        | inl k ↦ rw (a, b, d, k) (type_char-Safe c e (lt, k) h)
        | inr k ↦ rw (a, b, d, k) (h, refl)
      ]
    ]
  ]
]

key_in-Safe : (m : Mode) (c : ℕ) (e : Editor) → c < 128 → IsAscii e → Safe e.history (key_in m c e)
key_in-Safe plain c e lt h = plain_key-Safe c e lt h
key_in-Safe bracketed c e lt h = arrow-Keeps c e h
key_in-Safe escaped c e lt h = elim (Bool-cases (c == b'[')) [
  | inl k ↦ rw k (mode-Safe bracketed e h)
  | inr k ↦ rw k (mode-Safe plain e h)
]

-- A key of one byte, or bytes that are no character.
abbrev pub OneByte : Option ℕ → Type 0
OneByte none = Unit
OneByte (some c) = c < 128

pub press-Safe :
    (key : Option ℕ) (e : Editor) → OneByte key → IsAscii e → Safe e.history (press key e)
unfolding press
press-Safe none e lt h = mode-Safe plain e h
press-Safe (some c) e lt h = key_in-Safe e.mode c e lt h
