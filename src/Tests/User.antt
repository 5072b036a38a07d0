-- ===== src/Tests/User.antt =====
-- Runs of the programs of users.
use operating_system_experim.Prelude.{
  ℕ, ◌≤◌, ◌≡◌, refl, Option, none, some, List, [], ◌∷◌, ◌++◌, arith, length,
}
use operating_system_experim.User.Paths.{
  normalize_path, absolute_path, enter_all, enter, parts, start_components, trim_right, trim_left,
  nonempty, join,
}
use operating_system_experim.Storage.Fat.{split_slashes}
use operating_system_experim.User.Paths.Canonical.{IsCanonical, normalize_path-append}
use operating_system_experim.User.Editor.{
  Editor, plain, typing, press, insert_char, type_char, plain_key, backspace, read_keys,
  read_line_history,
}
use operating_system_experim.User.Shell.{
  Shell, start, trim_start, trim_end, trim, split_whitespace, same_text, remember, commands,
  find_name, dispatch, run_words, run_line, prompt, run_shell,
}
use operating_system_experim.User.Shell.Sessions.{Fine, run_shell-Fine}
use operating_system_experim.User.Fish.{Pond, run, total_prints}
use operating_system_experim.User.Fish
use operating_system_experim.User.Fish.Pattern.{picture}
use operating_system_experim.User.Fish.Output.{run-picture}
use operating_system_experim.User.SpinLock
use operating_system_experim.User.SpinLock.Exclusion
use operating_system_experim.User.Stdout
use operating_system_experim.Proc.Lines.Text.{IsPlain}
use operating_system_experim.User.Stdin.{
  Answer, read_line, read_key, pop_key, to_utf8, more_bits, entered, panics as breaks,
}
use operating_system_experim.User.Stdin.Keys.{delivered}
use operating_system_experim.User.Stdin.Typing.{
  Key, char, Line, read_line-typed, all_edited, all_shown, all_bytes,
}
use operating_system_experim.User.Stdin.Typing

abbrev root : List ℕ
root = b'/' ∷ []

root-IsCanonical : IsCanonical root
unfolding absolute_path
root-IsCanonical = record { names = []; are_names = tt; rendered = refl }

up_and_down : normalize_path root (b'a' ∷ b'/' ∷ b'.' ∷ b'.' ∷ b'/' ∷ b'b' ∷ []) ≡ b'/' ∷ b'b' ∷ []
unfolding normalize_path enter_all enter parts trim_right trim_left nonempty split_slashes join
up_and_down = refl

normalize_path-append_example :
    normalize_path (normalize_path root (b'a' ∷ b'/' ∷ b'b' ∷ [])) (b'.' ∷ b'.' ∷ [])
    ≡ normalize_path root (b'a' ∷ b'/' ∷ b'b' ∷ b'/' ∷ b'.' ∷ b'.' ∷ [])
normalize_path-append_example =
    normalize_path-append root b'a' (b'/' ∷ b'b' ∷ []) (b'.' ∷ b'.' ∷ []) root-IsCanonical refl

abbrev fresh : Editor
fresh = record { buffer = []; cursor = 0; history = []; history_index = some 0; mode = plain }

-- The letter e with an acute accent.
typed_wide : press (some 0xE9) fresh ≡ typing (record fresh { buffer = 0xE9 ∷ []; cursor = 1 })
unfolding press plain_key type_char insert_char
typed_wide = refl

-- `cd a`, the return key, a key that goes back, and bytes that are no character.
abbrev keys : List (Option ℕ)
keys = some b'c' ∷ some b'd' ∷ some b' ' ∷ some b'a' ∷ some 13 ∷ some 0x7F ∷ none ∷ []

run_shell-Fine_example : Fine (run_shell 8 start keys [])
run_shell-Fine_example = run_shell-Fine 8 keys (omega arith) (
  omega arith,
  (omega arith, (omega arith, (omega arith, (omega arith, (omega arith, (tt, tt)))))),
)

at_a :
    (s : Shell) × (run_shell 8 start keys [] ≡ prompt s [])
    × (s.current_working_directory ≡ b'/' ∷ b'a' ∷ [])
unfolding run_shell start read_line_history read_keys press plain_key type_char insert_char
    backspace run_line trim trim_start trim_end split_whitespace remember same_text run_words
    find_name commands dispatch normalize_path start_components enter_all enter parts trim_right
    trim_left nonempty split_slashes join absolute_path
at_a = (_, refl, refl)

-- The process that prints `<` has its turn, then another one.
abbrev order : List ℕ
order = 1 ∷ 0 ∷ 1 ∷ 1 ∷ 1 ∷ 1 ∷ 1 ∷ 2 ∷ 1 ∷ 0 ∷ 0 ∷ 0 ∷ []

run-picture_example :
    (p : Pond) × (run order Fish.start ≡ some p)
    × (length p.output ≤ total_prints)
    × (p.output ≡ picture (length p.output))
run-picture_example = run-picture order

-- What the order above prints.
printed_pair : (p : Pond) × (run order Fish.start ≡ some p) × (p.output ≡ b'<' ∷ b'>' ∷ [])
unfolding run Fish.start Fish.wait_on Fish.signal_on
printed_pair = (_, refl, refl)

-- Two processes come to the lock, the first is let in, the second has to wait until it has left.
abbrev turns : List ℕ
turns = 0 ∷ 1 ∷ 0 ∷ 1 ∷ 1 ∷ 0 ∷ 1 ∷ []

run-Exclusive_example : Exclusion.Exclusive (SpinLock.run turns SpinLock.start)
run-Exclusive_example = Exclusion.run-Exclusive turns

let_in :
    ((SpinLock.run turns SpinLock.start).place 1 ≡ SpinLock.behind)
    × ((SpinLock.run (0 ∷ 1 ∷ 0 ∷ 1 ∷ []) SpinLock.start).place 1 ≡ SpinLock.spinning)
unfolding SpinLock.run SpinLock.step SpinLock.start SpinLock.new SpinLock.try_acquire
    SpinLock.release
let_in = (refl, refl)

write_all-written_example :
    (Stdout.concat (Stdout.write_all ((1 ∷ []) ∷ (2 ∷ []) ∷ []) Stdout.new).sent
        ++ (Stdout.write_all ((1 ∷ []) ∷ (2 ∷ []) ∷ []) Stdout.new).buffer
      ≡ Stdout.concat ((1 ∷ []) ∷ (2 ∷ []) ∷ []))
    × (length (Stdout.write_all ((1 ∷ []) ∷ (2 ∷ []) ∷ []) Stdout.new).buffer ≤ 1024)
write_all-written_example = Stdout.write_all-written ((1 ∷ []) ∷ (2 ∷ []) ∷ [])

held_back : (Stdout.write_all ((1 ∷ []) ∷ (2 ∷ []) ∷ []) Stdout.new).buffer ≡ 1 ∷ 2 ∷ []
unfolding Stdout.write_all Stdout.write_str Stdout.flush Stdout.new
held_back = refl

-- An e with an acute accent, between answers without a key, the key that deletes, `x`, and the return
-- key.
abbrev answers : List Answer
answers =
    none
    ∷ some (1, 0xC3)
    ∷ some (0, 0)
    ∷ some (1, 0xA9)
    ∷ some (1, 0x7F)
    ∷ some (1, b'x')
    ∷ none
    ∷ some (1, 13)
    ∷ some (1, b'y')
    ∷ []

accent-IsPlain : IsPlain 0xE9
accent-IsPlain = record {
  code_point = refl;
  no_return = omega arith;
  no_backspace = omega arith;
  no_delete = omega arith;
}

letter-IsPlain : IsPlain b'x'
letter-IsPlain = record {
  code_point = refl;
  no_return = omega arith;
  no_backspace = omega arith;
  no_delete = omega arith;
}

read_line-typed_example :
    Line
      (read_line 4 [] [] answers)
      (all_edited (char 0xE9 ∷ Typing.delete ∷ char b'x' ∷ []) [])
      (all_shown (char 0xE9 ∷ Typing.delete ∷ char b'x' ∷ []) [] ++ 10 ∷ 10 ∷ [])
      (b'y' ∷ [])
unfolding delivered all_bytes
read_line-typed_example =
    read_line-typed 4 (char 0xE9 ∷ Typing.delete ∷ char b'x' ∷ []) answers (b'y' ∷ []) (omega arith)
      ((accent-IsPlain, omega arith), (tt, ((letter-IsPlain, omega arith), tt))) refl

line_of_x :
    read_line 4 [] [] answers
    ≡ entered (b'x' ∷ []) (0xE9 ∷ 0x08 ∷ b' ' ∷ 0x08 ∷ b'x' ∷ 10 ∷ 10 ∷ []) (some (1, b'y') ∷ [])
unfolding read_line pop_key to_utf8 more_bits
line_of_x = refl

-- The three bytes of a surrogate: `read_key` answers none, and `read_line` panics.
abbrev surrogate : List Answer
surrogate = some (1, 0xED) ∷ some (1, 0xA0) ∷ some (1, 0x80) ∷ []

surrogate_read : (read_key surrogate ≡ some (none, [])) × (read_line 1 [] [] surrogate ≡ breaks)
unfolding read_key read_line pop_key to_utf8 more_bits
surrogate_read = (refl, refl)

-- `cd a` and the return key, as sys_read answers them.
abbrev cd_a : List Answer
cd_a = some (1, b'c') ∷ some (1, b'd') ∷ none ∷ some (1, b' ') ∷ some (1, b'a') ∷ some (1, 13) ∷ []
