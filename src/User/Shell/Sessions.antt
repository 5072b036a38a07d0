-- ===== src/User/Shell/Sessions.antt =====
-- The shell over all the lines of a session.
use operating_system_experim.Prelude.{
  ℕ, zero, suc, ◌<◌, refl, inl, inr, ◌&&◌, Option, none, some, List, [], ◌∷◌, ◌++◌, arith,
  Bool-cases, length, All, All-append,
}
use operating_system_experim.User.Paths.{slash, absolute_path}
use operating_system_experim.User.Paths.Canonical.{IsCanonical, normalize_path-IsCanonical}
use operating_system_experim.User.Editor.{Typed, line, waits, panicked, read_line_history}
use operating_system_experim.User.Editor.Ascii.{IsText, OneByte}
use operating_system_experim.User.Editor.Lines.{Answered, read_line_history-IsText}
use operating_system_experim.User.Shell.{
  Action, print_directory, list_dir, cat_file, Shell, start, is_whitespace, trim_start, is_empty,
  trim_end, trim, split_whitespace, is_last, remember, commands, find_name, Name, Turn, goes_on,
  ends, first_arg, target_of, cat_action, change_directory, exec_action, kill_action, pid_action,
  parse_u16, dispatch, run_words, run_line, Session, prompt, closed, crashed, unfinished,
  after_turn, after_line, run_shell,
}

-- The directory is a canonical path, and the history is printable ASCII.
pub record IsValid (s : Shell) : Type 0 where
  pub directory : IsCanonical s.current_working_directory
  pub past : All (λ cmd. All IsText cmd) s.history

-- A path that is handed to the system is canonical.
abbrev pub IsSound : Action → Type 0
IsSound (list_dir path) = IsCanonical path
IsSound (cat_file path) = IsCanonical path
IsSound (print_directory path) = IsCanonical path
IsSound _ = Unit

abbrev Sound : Turn → Type 0
Sound (goes_on s acts) = IsValid s × All IsSound acts
Sound ends = Unit

root-IsCanonical : IsCanonical (slash ∷ [])
unfolding absolute_path
root-IsCanonical = record { names = []; are_names = tt; rendered = refl }

cat_action-IsSound : (arg : Option (List ℕ)) (s : Shell) → IsValid s → IsSound (cat_action arg s)
cat_action-IsSound none s h = tt
cat_action-IsSound (some a) s h =
    normalize_path-IsCanonical s.current_working_directory a h.directory

change_directory-IsValid :
    (arg : Option (List ℕ)) (s : Shell) → IsValid s → IsValid (change_directory arg s)
change_directory-IsValid none s h = record { directory = root-IsCanonical; past = h.past }
change_directory-IsValid (some a) s h = record {
  directory = normalize_path-IsCanonical s.current_working_directory a h.directory;
  past = h.past;
}

exec_action-IsSound : (arg : Option (List ℕ)) → IsSound (exec_action arg)
exec_action-IsSound none = tt
exec_action-IsSound (some a) = tt

pid_action-IsSound : (a : List ℕ) (o : Option ℕ) → IsSound (pid_action a o)
pid_action-IsSound a none = tt
pid_action-IsSound a (some n) = tt

kill_action-IsSound : (arg : Option (List ℕ)) → IsSound (kill_action arg)
kill_action-IsSound none = tt
kill_action-IsSound (some a) = pid_action-IsSound a (parse_u16 a)

dispatch-Sound :
    (name : Name) (word : List ℕ) (arg : Option (List ℕ)) (s : Shell)
    → IsValid s
    → Sound (dispatch name word arg s)
unfolding dispatch
dispatch-Sound Name.exit word arg s h = tt
dispatch-Sound Name.ps word arg s h = (h, (tt, tt))
dispatch-Sound Name.ls word arg s h =
    (h, (normalize_path-IsCanonical s.current_working_directory (target_of arg) h.directory, tt))
dispatch-Sound Name.cat word arg s h = (h, (cat_action-IsSound arg s h, tt))
dispatch-Sound Name.cd word arg s h = (change_directory-IsValid arg s h, tt)
dispatch-Sound Name.pwd word arg s h = (h, (h.directory, tt))
dispatch-Sound Name.help_name word arg s h = (h, (tt, tt))
dispatch-Sound Name.clear_name word arg s h = (h, (tt, tt))
dispatch-Sound Name.lsapp word arg s h = (h, (tt, tt))
dispatch-Sound Name.exec_name word arg s h = (h, (exec_action-IsSound arg, tt))
dispatch-Sound Name.kill_name word arg s h = (h, (kill_action-IsSound arg, tt))
dispatch-Sound Name.other word arg s h = (h, (tt, tt))

run_words-Sound : (words : List (List ℕ)) (s : Shell) → IsValid s → Sound (run_words words s)
unfolding run_words
run_words-Sound [] s h = (h, tt)
run_words-Sound (word ∷ args) s h =
    dispatch-Sound (find_name word commands) word (first_arg args) s h

trim_start-text : (cs : List ℕ) → All IsText cs → All IsText (trim_start cs)
unfolding trim_start
trim_start-text [] h = tt
trim_start-text (c ∷ cs) h = elim (Bool-cases (is_whitespace c)) [
  | inl k ↦ rw k (trim_start-text cs h.1)
  | inr k ↦ rw k h
]

trim_end-text : (cs : List ℕ) → All IsText cs → All IsText (trim_end cs)
unfolding trim_end
trim_end-text [] h = tt
trim_end-text (c ∷ cs) h = elim (Bool-cases (is_whitespace c && is_empty (trim_end cs))) [
  | inl k ↦ rw k tt
  | inr k ↦ rw k (h.0, trim_end-text cs h.1)
]

remember-IsValid :
    (cmd : List ℕ) (s : Shell) → All IsText cmd → IsValid s → IsValid (remember cmd s)
unfolding remember
remember-IsValid [] s k h = h
remember-IsValid (c ∷ cmd) s k h = elim (Bool-cases (is_last s.history (c ∷ cmd))) [
  | inl same ↦ record { directory = h.directory; past = rw same h.past }
  | inr new ↦ record {
    directory = h.directory;
    past = rw new (All-append (λ x. All IsText x) s.history ((c ∷ cmd) ∷ []) h.past (k, tt));
  }
]

run_line-Sound :
    (text : List ℕ) (index : Option ℕ) (s : Shell)
    → All IsText text
    → IsValid s
    → Sound (run_line text index s)
unfolding run_line trim
run_line-Sound text index s k h =
    run_words-Sound (split_whitespace (trim text))
      (remember (trim text) (record s { history_index = index }))
      (remember-IsValid (trim text) (record s { history_index = index })
        (trim_end-text (trim_start text) (trim_start-text text k))
        (record { directory = h.directory; past = h.past }))

-- A session that has not panicked.
abbrev pub Fine : Session → Type 0
Fine (prompt s acts) = IsValid s × All IsSound acts
Fine (closed acts) = All IsSound acts
Fine crashed = ⊥
Fine unfinished = ⊥

after_turn-Fine :
    (more : Shell → List Action → Session) (acts : List Action) (t : Turn)
    → Sound t
    → All IsSound acts
    → ((s : Shell) (done : List Action) → IsValid s → All IsSound done → Fine (more s done))
    → Fine (after_turn more acts t)
after_turn-Fine more acts (goes_on s new) h k m =
    m s (acts ++ new) h.0 (All-append IsSound acts new k h.1)
after_turn-Fine more acts ends h k m = k

after_line-Fine :
    (more : Shell → List (Option ℕ) → List Action → Session) (s : Shell) (acts : List Action)
    (n : ℕ) (t : Typed)
    → Answered n t
    → IsValid s
    → All IsSound acts
    → ((s' : Shell) (rest : List (Option ℕ)) (done : List Action)
        → All OneByte rest
        → length rest < n
        → IsValid s'
        → All IsSound done
        → Fine (more s' rest done))
    → Fine (after_line more s acts t)
after_line-Fine more s acts n (line text index rest) h v k m =
    after_turn-Fine (λ s' done. more s' rest done) acts (run_line text index s)
      (run_line-Sound text index s h.0 v) k (λ s' done v' k'. m s' rest done h.1 h.2 v' k')
after_line-Fine more s acts n waits h v k m = (v, k)
after_line-Fine more s acts n panicked h v k m = absurd h

run_shell-Fine_from :
    (fuel : ℕ) (s : Shell) (keys : List (Option ℕ)) (acts : List Action)
    → length keys < fuel
    → All OneByte keys
    → IsValid s
    → All IsSound acts
    → Fine (run_shell fuel s keys acts)
unfolding run_shell
run_shell-Fine_from zero s keys acts lt o v k = absurd (omega arith)
run_shell-Fine_from (suc fuel) s keys acts lt o v k =
    after_line-Fine (λ s' rest done. run_shell fuel s' rest done) s acts (length keys)
      (read_line_history s.history s.history_index keys)
      (read_line_history-IsText s.history s.history_index keys v.past o) v k
      (λ s' rest done o' lt' v' k'. run_shell-Fine_from fuel s' rest done (omega arith) o' v' k')

-- With more fuel than keys, the session of a shell that was just started is never at a panic and
-- never out of fuel, whatever keys of one byte are typed. The directory is then a canonical path, the
-- history is printable ASCII, and all paths that were listed, printed or handed to `cat` are canonical.
pub run_shell-Fine :
    (fuel : ℕ) (keys : List (Option ℕ))
    → length keys < fuel
    → All OneByte keys
    → Fine (run_shell fuel start keys [])
unfolding start
run_shell-Fine fuel keys lt o =
    run_shell-Fine_from fuel
      (record { history = []; history_index = some 0; current_working_directory = slash ∷ [] }) keys
      [] lt o (record { directory = root-IsCanonical; past = tt }) tt
