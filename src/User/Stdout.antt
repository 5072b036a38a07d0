-- ===== src/User/Stdout.antt =====
-- The buffered output of pkg/lib/src/io.rs: what is written, and what reaches the system call. A text
-- is the list of its bytes.
use operating_system_experim.Prelude.{
  ℕ, ◌≤◌, ◌≡◌, refl, sym, ap, ◌∙◌, inl, inr, Bool, true, false, List, [], ◌∷◌, ◌++◌, append-nil,
  append_assoc, arith, ltb, if◌then◌else◌, ltb→ge, Bool-cases, length,
}

-- The buffer, and the pieces that were handed to sys_write.
pub record Stdout : Type 0 where
  pub buffer : List ℕ
  pub sent : List (List ℕ)

unfoldable pub new : Stdout
new = record { buffer = []; sent = [] }

abbrev pub is_empty : List ℕ → Bool
is_empty [] = true
is_empty (_ ∷ _) = false

unfoldable pub flush : Stdout → Stdout
flush o = if is_empty o.buffer then o else record { buffer = []; sent = o.sent ++ o.buffer ∷ [] }

unfoldable pub write_str : List ℕ → Stdout → Stdout
unfolding flush
write_str s o =
    let o' = record o { buffer = o.buffer ++ s } in
    if ltb 1024 (length o'.buffer) then flush o' else o'

-- Texts written one after the other.
unfoldable pub write_all : List (List ℕ) → Stdout → Stdout
unfolding write_str
write_all [] o = o
write_all (s ∷ rest) o = write_all rest (write_str s o)

pub concat : List (List ℕ) → List ℕ
concat [] = []
concat (s ∷ rest) = s ++ concat rest

concat-end : (ss : List (List ℕ)) (s : List ℕ) → concat (ss ++ s ∷ []) ≡ concat ss ++ s
unfolding concat
concat-end [] s = append-nil s
concat-end (x ∷ ss) s = ap (λ l. x ++ l) (concat-end ss s) ∙ sym (append_assoc x (concat ss) s)

-- All that was written so far, sent or not.
abbrev written : Stdout → List ℕ
written o = concat o.sent ++ o.buffer

flush-written :
    (o : Stdout) (b : List ℕ)
    → o.buffer ≡ b
    → (written (flush o) ≡ written o) × (length (flush o).buffer ≤ 1024)
unfolding flush
flush-written o [] e = rw e (refl, omega arith)
flush-written o (c ∷ cs) e =
    rw e (append-nil (concat (o.sent ++ (c ∷ cs) ∷ [])) ∙ concat-end o.sent (c ∷ cs), omega arith)

write_str-written :
    (s : List ℕ) (o : Stdout)
    → (written (write_str s o) ≡ written o ++ s) × (length (write_str s o).buffer ≤ 1024)
unfolding write_str
write_str-written s o =
    let o' = record o { buffer = o.buffer ++ s } in
    let e : written o' ≡ written o ++ s = sym (append_assoc (concat o.sent) o.buffer s) in
    elim (Bool-cases (ltb 1024 (length (o.buffer ++ s)))) [
      | inl k ↦ let f = flush-written o' o'.buffer refl in rw k (f.0 ∙ e, f.1)
      | inr k ↦ rw k (e, ltb→ge 1024 (length (o.buffer ++ s)) k)
    ]

write_all-written_from :
    (ss : List (List ℕ)) (o : Stdout)
    → length o.buffer ≤ 1024
    → (written (write_all ss o) ≡ written o ++ concat ss) × (length (write_all ss o).buffer ≤ 1024)
unfolding write_all concat
write_all-written_from [] o h = (sym (append-nil (written o)), h)
write_all-written_from (s ∷ ss) o h =
    let f = write_str-written s o in
    let g = write_all-written_from ss (write_str s o) f.1 in
    (g.0 ∙ ap (λ l. l ++ concat ss) f.0 ∙ append_assoc (written o) s (concat ss), g.1)

-- Whatever texts are written to a new Stdout: those that were sent and the buffer behind them are the
-- texts in their order, and at most 1024 bytes are held back.
pub write_all-written :
    (ss : List (List ℕ))
    → (concat (write_all ss new).sent ++ (write_all ss new).buffer ≡ concat ss)
      × (length (write_all ss new).buffer ≤ 1024)
unfolding new concat
write_all-written ss = write_all-written_from ss (record { buffer = []; sent = [] }) (omega arith)
