-- ===== src/User/Stdin/Keys.antt =====
-- The keys that the answers deliver, whatever else is answered between them, and what `pop_key` and
-- `to_utf8` of pkg/lib/src/io.rs make of them.
use operating_system_experim.Prelude.{
  ℕ, zero, suc, ◌+◌, ◌*◌, ◌%◌, ◌≡◌, refl, Bool, true, false, Option, none, some, List, [], ◌∷◌, ltb,
  leb, ◌&&◌, if◌then◌else◌,
}
use operating_system_experim.Proc.Lines
use operating_system_experim.User.Stdin.{Answer, try_read_key, pop_key, more_bits, to_utf8}

abbrev with_key : Option ℕ → List ℕ → List ℕ
with_key none keys = keys
with_key (some key) keys = key ∷ keys

unfoldable pub delivered : List Answer → List ℕ
delivered [] = []
delivered (answer ∷ answers) = with_key (try_read_key answer) (delivered answers)

-- The answers left when `o` has been read, which deliver the keys left.
pub record Leaves {A : Type 0} (o : Option (A × List Answer)) (a : A) (keys : List ℕ) : Type 0 where
  pub rest : List Answer
  pub read : o ≡ some (a, rest)
  pub left : delivered rest ≡ keys

pop_key-by :
    (o : Option ℕ) (answer : Answer) (answers : List Answer) (key : ℕ) (keys : List ℕ)
    → try_read_key answer ≡ o
    → with_key o (delivered answers) ≡ key ∷ keys
    → (delivered answers ≡ key ∷ keys → Leaves (pop_key answers) key keys)
    → Leaves (pop_key (answer ∷ answers)) key keys
unfolding pop_key
pop_key-by none answer answers key keys e h again = rw (e, pop_key) (again h)
pop_key-by (some k) answer answers key keys e h again =
    rw (e, pop_key) (record { rest = answers; read = cc h; left = cc h })

pub pop_key-delivered :
    (answers : List Answer) (key : ℕ) (keys : List ℕ)
    → delivered answers ≡ key ∷ keys
    → Leaves (pop_key answers) key keys
unfolding delivered
pop_key-delivered [] key keys h = absurd (cc h)
pop_key-delivered (answer ∷ answers) key keys h =
    pop_key-by (try_read_key answer) answer answers key keys refl h
      (pop_key-delivered answers key keys)

-- `more_keys` and `to_utf8` of the kernel, on the keys that are delivered.
more_bits-by :
    (count code : ℕ) (answers : List Answer) (typed : List ℕ) (c : ℕ) (keys : List ℕ)
    → delivered answers ≡ typed
    → Lines.more_keys (suc count) code typed ≡ some (c, keys)
    → ((code : ℕ) (answers : List Answer)
        → Lines.more_keys count code (delivered answers) ≡ some (c, keys)
        → Leaves (more_bits count code answers) c keys)
    → Leaves (more_bits (suc count) code answers) c keys
unfolding more_bits Lines.more_keys
more_bits-by count code answers [] c keys e h again = absurd (cc h)
more_bits-by count code answers (k ∷ ks) c keys e h again =
    let p = pop_key-delivered answers k ks e in
    rw (p.read, more_bits) (again (code * 64 + k % 64) p.rest (rw (p.left) h))

more_bits-delivered :
    (count code : ℕ) (answers : List Answer) (c : ℕ) (keys : List ℕ)
    → Lines.more_keys count code (delivered answers) ≡ some (c, keys)
    → Leaves (more_bits count code answers) c keys
unfolding more_bits Lines.more_keys
more_bits-delivered zero code answers c keys h = record { rest = answers; read = cc h; left = cc h }
more_bits-delivered (suc count) code answers c keys h =
    more_bits-by count code answers (delivered answers) c keys refl h
      (λ code' answers' h'. more_bits-delivered count code' answers' c keys h')

either-delivered :
    (c : ℕ) (keys : List ℕ) (b : Bool) (o o' : Option (ℕ × List Answer))
    (k k' : Option (ℕ × List ℕ))
    → (k ≡ some (c, keys) → Leaves o c keys)
    → (k' ≡ some (c, keys) → Leaves o' c keys)
    → (if b then k else k') ≡ some (c, keys)
    → Leaves (if b then o else o') c keys
either-delivered c keys true o o' k k' f g h = f h
either-delivered c keys false o o' k k' f g h = g h

here-delivered :
    (n : ℕ) (answers : List Answer) (c : ℕ) (keys : List ℕ)
    → ◌≡◌ {A = Option (ℕ × List ℕ)} (some (n, delivered answers)) (some (c, keys))
    → Leaves (some (n, answers)) c keys
here-delivered n answers c keys h = record { rest = answers; read = cc h; left = cc h }

pub to_utf8-delivered :
    (ch : ℕ) (answers : List Answer) (c : ℕ) (keys : List ℕ)
    → Lines.to_utf8 ch (delivered answers) ≡ some (c, keys)
    → Leaves (to_utf8 ch answers) c keys
unfolding to_utf8 Lines.to_utf8
to_utf8-delivered ch answers c keys =
    either-delivered c keys (ltb ch 0x80) _ _ _ _ (here-delivered ch answers c keys) (
      either-delivered c keys (leb 0xC0 ch && ltb ch 0xE0) _ _ _ _
        (more_bits-delivered 1 (ch % 32) answers c keys)
        (either-delivered c keys (leb 0xE0 ch && ltb ch 0xF0) _ _ _ _
          (more_bits-delivered 2 (ch % 16) answers c keys)
          (either-delivered c keys (leb 0xF0 ch && ltb ch 0xF8) _ _ _ _
            (more_bits-delivered 3 (ch % 8) answers c keys) (here-delivered 0 answers c keys))))
