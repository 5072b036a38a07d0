-- ===== src/User/Editor/Lines.antt =====
-- Lines of printable characters of one byte, as the shell's editor reads them.
use operating_system_experim.Prelude.{
  ℕ, suc, ◌≤◌, ◌<◌, ◌≡◌, refl, sym, ap, ◌∙◌, Option, some, List, [], ◌∷◌, ◌++◌, map, append-nil,
  append_assoc, arith, length, drop, length-append, take-all, All, All-append,
}
use operating_system_experim.User.Editor.{
  plain, Editor, Reading, typing, entered, panics, insert_char, type_char, plain_key, press, Typed,
  line, waits, panicked, go_on, read_keys, read_line_history,
}
use operating_system_experim.User.Editor.Ascii.{
  IsText, IsAscii, Safe, OneByte, press-Safe, insert_char-text,
}

-- A line of printable characters, with fewer than `n` keys behind it, or too few keys, but no panic.
abbrev pub Answered : ℕ → Typed → Type 0
Answered n (line text index keys) = All IsText text × All OneByte keys × (length keys < n)
Answered n waits = Unit
Answered n panicked = ⊥

Answered-suc : (n : ℕ) (t : Typed) → Answered n t → Answered (suc n) t
Answered-suc n (line text index keys) h = (h.0, h.1, omega (arith, h.2))
Answered-suc n waits h = tt
Answered-suc n panicked h = h

go_on-Answered :
    (more : Editor → Typed) (keys : List (Option ℕ)) (history : List (List ℕ)) (r : Reading)
    → Safe history r
    → All OneByte keys
    → ((e : Editor) → IsAscii e → Answered (length keys) (more e))
    → Answered (suc (length keys)) (go_on more keys r)
go_on-Answered more keys history (typing e) h o k = Answered-suc (length keys) (more e) (k e h.0)
go_on-Answered more keys history (entered text e) h o k = (h, o, omega arith)
go_on-Answered more keys history panics h o k = absurd h

read_keys-Answered :
    (keys : List (Option ℕ)) (e : Editor)
    → All OneByte keys
    → IsAscii e
    → Answered (length keys) (read_keys e keys)
unfolding read_keys
read_keys-Answered [] e h k = tt
read_keys-Answered (key ∷ keys) e h k =
    go_on-Answered (λ f. read_keys f keys) keys e.history (press key e) (press-Safe key e h.0 k) h.1
      (λ f g. read_keys-Answered keys f h.1 g)

-- With a history of printable ASCII commands, whatever keys of one byte are typed, arrows and
-- backspaces among them, the editor never panics, and a line that it reads is printable ASCII.
pub read_line_history-IsText :
    (history : List (List ℕ)) (index : Option ℕ) (keys : List (Option ℕ))
    → All (λ cmd. All IsText cmd) history
    → All OneByte keys
    → Answered (length keys) (read_line_history history index keys)
unfolding read_line_history
read_line_history-IsText history index keys h k =
    read_keys-Answered keys
      (record { buffer = []; cursor = 0; history = history; history_index = index; mode = plain }) k
      (record { text = tt; past = h; place = omega arith })

abbrev at_end : List ℕ → List (List ℕ) → Option ℕ → Editor
at_end text history index = record {
  buffer = text;
  cursor = length text;
  history = history;
  history_index = index;
  mode = plain;
}

plain_key-text : (c : ℕ) (e : Editor) → IsText c → plain_key c e ≡ type_char c e
unfolding plain_key
plain_key-text c e h = ground arith

drop-end : (cs : List ℕ) → drop (length cs) cs ≡ []
drop-end [] = refl
drop-end (c ∷ cs) = drop-end cs

le_self : (n : ℕ) → n ≤ n
le_self n = omega arith

insert_char-end :
    (c : ℕ) (text : List ℕ)
    → All IsText text
    → insert_char c (length text) text ≡ some (text ++ c ∷ [])
insert_char-end c text h = insert_char-text c (length text) text h (le_self (length text)) ∙ λ i.
    some (take-all (length text) text (le_self (length text)) i ++ c ∷ drop-end text i)

press-text :
    (c : ℕ) (text : List ℕ) (history : List (List ℕ)) (index : Option ℕ)
    → IsText c
    → All IsText text
    → press (some c) (at_end text history index) ≡ typing (at_end (text ++ c ∷ []) history index)
unfolding press type_char
press-text c text history index h k = rw (plain_key-text c (at_end text history index) h) (
    rw (insert_char-end c text k) (λ i. typing (record {
      buffer = text ++ c ∷ [];
      cursor = sym (length-append text (c ∷ [])) i;
      history = history;
      history_index = index;
      mode = plain;
    })))

press-return :
    (text : List ℕ) (history : List (List ℕ)) (index : Option ℕ)
    → press (some 13) (at_end text history index) ≡ entered text (at_end text history index)
unfolding press plain_key
press-return text history index = refl

read_keys-text :
    (text typed : List ℕ) (history : List (List ℕ)) (index : Option ℕ) (rest : List (Option ℕ))
    → All IsText text
    → All IsText typed
    → read_keys (at_end text history index) (map some typed ++ some 13 ∷ rest)
      ≡ line (text ++ typed) index rest
unfolding read_keys
read_keys-text text [] history index rest h k =
    rw (press-return text history index) (ap (λ l. line l index rest) (sym (append-nil text)))
read_keys-text text (c ∷ typed) history index rest h k =
    rw (press-text c text history index k.0 h) (
      read_keys-text (text ++ c ∷ []) typed history index rest
        (All-append IsText text (c ∷ []) h (k.0, tt)) k.1
      ∙ ap (λ l. line l index rest) (append_assoc text (c ∷ []) typed))

-- A text of printable ASCII that is typed and ended by the return key is the line, whatever the
-- history is and whatever is typed behind it.
pub read_line_history-typed :
    (typed : List ℕ) (history : List (List ℕ)) (index : Option ℕ) (rest : List (Option ℕ))
    → All IsText typed
    → read_line_history history index (map some typed ++ some 13 ∷ rest) ≡ line typed index rest
unfolding read_line_history
read_line_history-typed typed history index rest h = read_keys-text [] typed history index rest tt h
