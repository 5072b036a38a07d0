-- ===== src/User/Fish.antt =====
-- The sample pkg/app/fish/src/main.rs: three processes that print a pattern in turns, over the
-- semaphores of the kernel. Each of its calls is a step, and so are what it does between two calls
-- while it holds the mutex; the processes take steps in any order. The statics are shared, as vfork
-- shares the data of a process.
pub mod Critical
pub mod Invariant
pub mod Leaving
pub mod Output
pub mod Pattern
pub mod Roles
pub mod Turns
use operating_system_experim.Prelude.{
  ℕ, ◌+◌, ◌%◌, Bool, true, false, Option, none, some, List, [], ◌∷◌, ◌++◌, ltb, leb, ◌==◌,
  if◌then◌else◌, ◌>>=◌, update,
}
use operating_system_experim.Proc.Sync.{
  Semaphore, SemaphoreResult, block, wake_up, new, wait, signal,
}

-- The processes and the semaphores that wake them, by number, and the mutex.
abbrev pub gt : ℕ
gt = 0

abbrev pub lt : ℕ
lt = 1

abbrev pub us : ℕ
us = 2

abbrev pub mutex : ℕ
mutex = 3

abbrev pub total_prints : ℕ
total_prints = 400

-- Where a process stands: before a call, blocked in one, between two, or at its end.
pub data Pc : Type 0 where
  turn turn_blocked locking lock_blocked checking printing printed waking unlocking : Pc
  leaving : ℕ → Pc
  exited : Pc

pub record Pond : Type 0 where
  pub sems : ℕ → Semaphore
  pub pc : ℕ → Pc
  pub step : ℕ
  pub pattern_number : ℕ
  pub print_count : ℕ
  pub output : List ℕ

-- The semaphore of the next character; another step is `unreachable!`.
unfoldable pub next_sem : ℕ → ℕ → Option ℕ
next_sem pattern_number step =
    if pattern_number == 0
    then (if step == 0
        then some lt
        else (if step == 1
            then some gt
            else (if step == 2 then some lt else (if step == 3 then some us else none))))
    else (if step == 0
        then some gt
        else (if step == 1
            then some lt
            else (if step == 2 then some gt else (if step == 3 then some us else none))))

abbrev pub char_of : ℕ → ℕ
char_of i = if i == gt then b'>' else (if i == lt then b'<' else b'_')

-- Where a process goes on when a signal wakes it.
abbrev pub woken : Pc → Pc
woken turn_blocked = locking
woken lock_blocked = checking
woken p = p

-- `wait` by process `i` on semaphore `k`: it goes on at `on`, or blocks at `off`.
abbrev pub waited : ℕ → ℕ → Pc → Pc → Semaphore × SemaphoreResult → Pond → Pond
waited i k on off (s, block _) p = record p { sems = update p.sems k s; pc = update p.pc i off }
waited i k on off (s, _) p = record p { sems = update p.sems k s; pc = update p.pc i on }

-- `signal` by process `i` on semaphore `k`, which may wake another process.
abbrev pub signalled : ℕ → ℕ → Pc → Semaphore × SemaphoreResult → Pond → Pond
signalled i k on (s, wake_up j) p = record p {
  sems = update p.sems k s;
  pc = update (update p.pc i on) j (woken (update p.pc i on j));
}
signalled i k on (s, _) p = record p { sems = update p.sems k s; pc = update p.pc i on }

unfoldable pub wait_on : ℕ → ℕ → Pc → Pc → Pond → Pond
unfolding wait
wait_on i k on off p = waited i k on off (wait (p.sems k) i) p

unfoldable pub signal_on : ℕ → ℕ → Pc → Pond → Pond
unfolding signal
signal_on i k on p = signalled i k on (signal (p.sems k)) p

-- The counters behind a print.
abbrev pub counted : Pond → Pond
counted p =
    if ltb (p.step + 1) 4
    then record p { print_count = p.print_count + 1; step = p.step + 1 }
    else record p {
      print_count = p.print_count + 1;
      step = 0;
      pattern_number = (p.pattern_number + 1) % 2;
    }

abbrev pub wake_next : ℕ → Option ℕ → Pond → Option Pond
wake_next i none p = none
wake_next i (some k) p = some (signal_on i k unlocking p)

-- One step of process `i`; `none` is a panic.
unfoldable pub act : ℕ → Pc → Pond → Option Pond
unfolding next_sem
act i turn p = some (wait_on i i locking turn_blocked p)
act i turn_blocked p = some p
act i locking p = some (wait_on i mutex checking lock_blocked p)
act i lock_blocked p = some p
act i checking p = some (record p {
  pc = update p.pc i (if leb total_prints p.print_count then leaving 0 else printing);
})
act i printing p =
    some (record p { output = p.output ++ char_of i ∷ []; pc = update p.pc i printed })
act i printed p = some (record (counted p) { pc = update p.pc i waking })
act i waking p = wake_next i (next_sem p.pattern_number p.step) p
act i unlocking p = some (signal_on i mutex turn p)
act i (leaving k) p =
    some (if ltb k 3 then signal_on i k (leaving (k + 1)) p else signal_on i mutex exited p)
act i exited p = some p

abbrev pub if_process : Bool → Option Pond → Pond → Option Pond
if_process true o p = o
if_process false o p = some p

-- The processes take steps in an order; a number that is no process takes none.
unfoldable pub run : List ℕ → Pond → Option Pond
unfolding act
run [] p = some p
run (i ∷ order) p = if_process (ltb i 3) (act i (p.pc i) p) p >>= run order

-- The children when `main` has forked them.
unfoldable pub start : Pond
unfolding new
start = record {
  sems = update (update (λ _. new 0) mutex (new 1)) lt (new 1);
  pc = λ _. turn;
  step = 0;
  pattern_number = 0;
  print_count = 0;
  output = [];
}
