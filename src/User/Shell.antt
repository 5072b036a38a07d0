-- ===== src/User/Shell.antt =====
-- The loop of the shell, `main` of pkg/app/sh/src/main.rs with exec and kill of services.rs beside it,
-- from the lines that are read to the calls and messages that they lead to.
pub mod Console
pub mod Sessions
use operating_system_experim.Prelude.{
  ℕ, zero, suc, ◌+◌, ◌-◌, ◌*◌, ◌^◌, Bool, true, false, ◌&&◌, ◌||◌, Option, none, some, List, [],
  ◌∷◌, ◌++◌, map, ltb, leb, ◌==◌, if◌then◌else◌, length,
}
use operating_system_experim.User.Paths.{slash, normalize_path}
use operating_system_experim.User.Editor.{Typed, line, waits, panicked, read_line_history}
use operating_system_experim.Proc.World.{ascii_lower}

-- What a line leads to: a system call or a message. Paths are those that are handed over.
pub data Action : Type 0 where
  stat help clear list_apps cat_usage exec_usage kill_usage : Action
  print_directory list_dir cat_file : List ℕ → Action
  exec : List ℕ → Action
  kill : ℕ → Action
  invalid_pid not_found : List ℕ → Action

pub record Shell : Type 0 where
  pub history : List (List ℕ)
  pub history_index : Option ℕ
  pub current_working_directory : List ℕ

unfoldable pub start : Shell
start = record { history = []; history_index = some 0; current_working_directory = slash ∷ [] }

-- `char::is_whitespace`
abbrev pub is_whitespace : ℕ → Bool
is_whitespace c =
    (leb 9 c && leb c 13)
    || (c == 32
        || (c == 0x85
            || (c == 0xA0
                || (c == 0x1680
                    || ((leb 0x2000 c && leb c 0x200A)
                        || (c == 0x2028
                            || (c == 0x2029 || (c == 0x202F || (c == 0x205F || c == 0x3000)))))))))

unfoldable pub trim_start : List ℕ → List ℕ
trim_start [] = []
trim_start (c ∷ cs) = if is_whitespace c then trim_start cs else c ∷ cs

abbrev pub is_empty : {A : Type 0} → List A → Bool
is_empty [] = true
is_empty (_ ∷ _) = false

unfoldable pub trim_end : List ℕ → List ℕ
trim_end [] = []
trim_end (c ∷ cs) =
    let rest = trim_end cs in if is_whitespace c && is_empty rest then [] else c ∷ rest

unfoldable pub trim : List ℕ → List ℕ
trim cs = trim_end (trim_start cs)

-- A word begins with the character, or goes on with it.
abbrev pub add_char : ℕ → List ℕ → List (List ℕ) → List (List ℕ)
add_char c (d ∷ _) (w ∷ ws) = if is_whitespace d then (c ∷ []) ∷ w ∷ ws else (c ∷ w) ∷ ws
add_char c _ ws = (c ∷ []) ∷ ws

unfoldable pub split_whitespace : List ℕ → List (List ℕ)
split_whitespace [] = []
split_whitespace (c ∷ cs) =
    let words = split_whitespace cs in if is_whitespace c then words else add_char c cs words

-- Equality of texts.
unfoldable pub same_text : List ℕ → List ℕ → Bool
same_text [] [] = true
same_text [] (_ ∷ _) = false
same_text (_ ∷ _) [] = false
same_text (a ∷ as') (b ∷ bs) = a == b && same_text as' bs

abbrev pub is_last : List (List ℕ) → List ℕ → Bool
is_last [] cmd = false
is_last (c ∷ []) cmd = same_text c cmd
is_last (c ∷ d ∷ cmds) cmd = is_last (d ∷ cmds) cmd

-- The history with the command, which is not put there twice in a row, and its place behind the end.
unfoldable pub remember : List ℕ → Shell → Shell
remember cmd s =
    if is_empty cmd
    then s
    else (let history = if is_last s.history cmd then s.history else s.history ++ cmd ∷ [] in
        record s { history = history; history_index = some (length history) })

abbrev pub is_digit : ℕ → Bool
is_digit c = leb b'0' c && leb c b'9'

-- The digits of a number below 2 ^ 16.
unfoldable pub parse_digits : ℕ → List ℕ → Option ℕ
parse_digits n [] = some n
parse_digits n (c ∷ cs) =
    let rest = parse_digits (n * 10 + (c - b'0')) cs in
    if is_digit c && ltb (n * 10 + (c - b'0')) (2 ^ 16) then rest else none

-- `parse::<u16>`, which takes a plus sign
unfoldable pub parse_u16 : List ℕ → Option ℕ
unfolding parse_digits
parse_u16 [] = none
parse_u16 (c ∷ cs) =
    if c == b'+' then (if is_empty cs then none else parse_digits 0 cs) else parse_digits 0 (c ∷ cs)

pub data Name : Type 0 where
  exit ps ls cat cd pwd help_name clear_name lsapp exec_name kill_name other : Name

-- The names of the commands; the first is Ctrl-D.
unfoldable pub commands : List (List ℕ × Name)
commands =
    (4 ∷ [], exit)
    ∷ (b'e' ∷ b'x' ∷ b'i' ∷ b't' ∷ [], exit)
    ∷ (b'p' ∷ b's' ∷ [], ps)
    ∷ (b'l' ∷ b's' ∷ [], ls)
    ∷ (b'c' ∷ b'a' ∷ b't' ∷ [], cat)
    ∷ (b'c' ∷ b'd' ∷ [], cd)
    ∷ (b'p' ∷ b'w' ∷ b'd' ∷ [], pwd)
    ∷ (b'h' ∷ b'e' ∷ b'l' ∷ b'p' ∷ [], help_name)
    ∷ (b'c' ∷ b'l' ∷ b'e' ∷ b'a' ∷ b'r' ∷ [], clear_name)
    ∷ (b'l' ∷ b's' ∷ b'a' ∷ b'p' ∷ b'p' ∷ [], lsapp)
    ∷ (b'e' ∷ b'x' ∷ b'e' ∷ b'c' ∷ [], exec_name)
    ∷ (b'k' ∷ b'i' ∷ b'l' ∷ b'l' ∷ [], kill_name)
    ∷ []

unfoldable pub find_name : List ℕ → List (List ℕ × Name) → Name
unfolding same_text
find_name word [] = other
find_name word ((text, name) ∷ rest) =
    let next = find_name word rest in if same_text word text then name else next

-- The shell goes on with what it does, or ends.
pub data Turn : Type 0 where
  goes_on : Shell → List Action → Turn
  ends : Turn

-- The argument of a command, if there is one.
abbrev pub first_arg : List (List ℕ) → Option (List ℕ)
first_arg [] = none
first_arg (a ∷ _) = some a

abbrev pub target_of : Option (List ℕ) → List ℕ
target_of none = b'.' ∷ []
target_of (some a) = a

abbrev pub cat_action : Option (List ℕ) → Shell → Action
cat_action none s = cat_usage
cat_action (some a) s = cat_file (normalize_path s.current_working_directory a)

abbrev pub change_directory : Option (List ℕ) → Shell → Shell
change_directory none s = record s { current_working_directory = slash ∷ [] }
change_directory (some a) s = record s {
  current_working_directory = normalize_path s.current_working_directory a;
}

abbrev pub exec_action : Option (List ℕ) → Action
exec_action none = exec_usage
exec_action (some a) = exec (map ascii_lower a)

abbrev pub pid_action : List ℕ → Option ℕ → Action
pid_action a none = invalid_pid a
pid_action a (some pid) = kill pid

abbrev pub kill_action : Option (List ℕ) → Action
kill_action none = kill_usage
kill_action (some a) = pid_action a (parse_u16 a)

unfoldable pub dispatch : Name → List ℕ → Option (List ℕ) → Shell → Turn
unfolding parse_u16
dispatch exit word arg s = ends
dispatch ps word arg s = goes_on s (stat ∷ [])
dispatch ls word arg s =
    goes_on s (list_dir (normalize_path s.current_working_directory (target_of arg)) ∷ [])
dispatch cat word arg s = goes_on s (cat_action arg s ∷ [])
dispatch cd word arg s = goes_on (change_directory arg s) []
dispatch pwd word arg s = goes_on s (print_directory s.current_working_directory ∷ [])
dispatch help_name word arg s = goes_on s (help ∷ [])
dispatch clear_name word arg s = goes_on s (clear ∷ [])
dispatch lsapp word arg s = goes_on s (list_apps ∷ [])
dispatch exec_name word arg s = goes_on s (exec_action arg ∷ [])
dispatch kill_name word arg s = goes_on s (kill_action arg ∷ [])
dispatch other word arg s = goes_on s (not_found word ∷ [])

-- The words of a line: none is for a line without any, which does nothing.
unfoldable pub run_words : List (List ℕ) → Shell → Turn
unfolding dispatch find_name commands
run_words [] s = goes_on s []
run_words (word ∷ args) s = dispatch (find_name word commands) word (first_arg args) s

-- A line that was read, with the place in the history at which the editor was left.
unfoldable pub run_line : List ℕ → Option ℕ → Shell → Turn
unfolding run_words remember trim
run_line text index s =
    let trimmed = trim text in
    run_words (split_whitespace trimmed) (remember trimmed (record s { history_index = index }))

-- The shell after some keys, with what it has done: it waits for a line, has ended, or has panicked.
pub data Session : Type 0 where
  prompt : Shell → List Action → Session
  closed : List Action → Session
  crashed unfinished : Session

abbrev pub after_turn : (Shell → List Action → Session) → List Action → Turn → Session
after_turn more acts (goes_on s new) = more s (acts ++ new)
after_turn more acts ends = closed acts

abbrev pub after_line :
    (Shell → List (Option ℕ) → List Action → Session) → Shell → List Action → Typed → Session
after_line more s acts (line text index rest) =
    after_turn (λ s' done. more s' rest done) acts (run_line text index s)
after_line more s acts waits = prompt s acts
after_line more s acts panicked = crashed

-- The loop of `main`, on the keys that are typed; the fuel is one for each line.
unfoldable pub run_shell : ℕ → Shell → List (Option ℕ) → List Action → Session
run_shell zero s keys acts = unfinished
run_shell (suc fuel) s keys acts =
    after_line (λ s' rest done. run_shell fuel s' rest done) s acts
      (read_line_history s.history s.history_index keys)
