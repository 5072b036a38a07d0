-- ===== src/Tests/Proc.antt =====
-- The process manager on a machine whose memory is a number, with three processes.
use operating_system_experim.Prelude.{
  ℕ, zero, suc, ◌+◌, ◌-◌, ◌*◌, ◌≤◌, ◌<◌, ◌≡◌, refl, true, false, none, some, List, [], ◌∷◌, ◌++◌,
  arith, if◌then◌else◌, length, All, Map, lookup, insert,
}
use operating_system_experim.Proc.Sync.Permits.{Inv, run, start, run-Inv, waits, signals}
use operating_system_experim.Proc.Sync.Table.{set_remove-other_keys}
use operating_system_experim.Proc.Sync.{set_insert, set_remove, set_wait, set_signal, not_exist}
use operating_system_experim.Proc.Resources.{Resource, ResourceSet, console, stdin, null, default}
use operating_system_experim.Proc.Resources.Descriptors.{Opens, open-Opens, default-IsValid}
use operating_system_experim.Proc.Lines.{line, get_line}
use operating_system_experim.Proc.Lines.Text.{IsPlain, encode, get_line-encode}
use operating_system_experim.Proc.World.{
  Machine, Context, default_context, set_rax, ready, running, blocked, Process, World,
}
use operating_system_experim.Proc.Manager.{kill, switch_next}
use operating_system_experim.Proc.Calls.{switch, sem_signal, vfork}
use operating_system_experim.Proc.Calls.Switch.{
  Runnable, Live, resumed, saved, switch-resumes, switch-Live,
}
use operating_system_experim.Proc.Calls.Fairness.{Waits, Runs, clocks, clocks-Runs}
use operating_system_experim.Proc.Calls.Entries.{core_of}
use operating_system_experim.Proc.Calls.Exit.{kill-core, kill-queue, revive, member, waiters_of}
use operating_system_experim.Proc.Calls.Revival.{signal-kill_panics}
use operating_system_experim.Proc.Calls.Vfork.{Forked, vfork-Forked}

-- A table of address spaces by number; a copied stack lies 8 bytes lower for each child.
abbrev pub machine : Machine
machine = record {
  Vm = ℕ;
  Memory = ℕ;
  File = ℕ;
  Elf = ℕ;
  new_vm = λ vm memory. some (memory, memory + 1);
  load_elf = λ elf vm memory. some (vm, memory);
  fork = λ vm k memory. some (memory, k * 8, memory + 1);
  drop_vm = λ vm memory. memory;
  load = λ vm memory. memory;
  brk = λ vm addr memory. (addr, memory);
  page_fault = λ vm addr memory. none;
  entry_point = λ elf. elf;
  read_file = λ f n. (f, none);
  truncate = λ addr. addr;
  offset_address = λ addr offset. some (addr - offset);
  user_code_selector = 0x2b;
  user_data_selector = 0x33;
}

abbrev pub shell : Process machine
shell = record {
  name = b's' ∷ b'h' ∷ [];
  parent = some none;
  children = [];
  ticks_passed = 7;
  status = running;
  context = default_context;
  exit_code = none;
  proc_data = some (record { env = 0; resources = 0; semaphores = 0 });
  proc_vm = some 5;
}

abbrev pub sleeper : Process machine
sleeper = record shell { status = blocked; parent = some (some 1) }

abbrev pub worker : Process machine
worker = record shell {
  status = ready;
  parent = some (some 1);
  context = set_rax 9 default_context;
}

-- The process 1 runs, 2 is blocked on the semaphore 4, 3 is ready and waits for 2.
abbrev pub world : World machine
world = record {
  processes = (1, shell) ∷ (2, sleeper) ∷ (3, worker) ∷ [];
  ready_queue = 2 ∷ 3 ∷ [];
  wait_queue = (2, 3 ∷ []) ∷ [];
  app_list = none;
  next_pid = 4;
  cpu = 1;
  semaphores = λ _. (4, record { count = 0; wait_queue = 2 ∷ [] }) ∷ [];
  resources = λ _. default;
  next_object = 1;
  memory = 6;
  keys = [];
}

run-Inv_example : Inv 1 (run (start 1) (waits 2 ∷ waits 3 ∷ signals ∷ signals ∷ []))
run-Inv_example = run-Inv 1 (waits 2 ∷ waits 3 ∷ signals ∷ signals ∷ []) (omega arith)

set_remove-other_keys_example :
    ((lookup 5 (set_insert (world.semaphores 0) 4 1).0 ≡ none)
      × (lookup 5 (set_remove (world.semaphores 0) 4).0 ≡ none)
      × (lookup 5 (set_wait (world.semaphores 0) 4 3).0 ≡ none)
      × (lookup 5 (set_signal (world.semaphores 0) 4).0 ≡ none))
    × (let r = set_remove (world.semaphores 0) 4 in
        (r.1 ≡ true)
        × ((set_remove r.0 4).1 ≡ false)
        × (set_wait r.0 4 3 ≡ (r.0, not_exist))
        × (set_signal r.0 4 ≡ (r.0, not_exist)))
unfolding lookup
set_remove-other_keys_example = set_remove-other_keys (world.semaphores 0) 4 5 1 3 (omega arith)

few : length (default {File = ℕ}).handles + length (default {File = ℕ}).recycled < 256
unfolding default lookup insert
few = omega arith

open-Opens_example : Opens (default {File = ℕ}) null
open-Opens_example = open-Opens default null default-IsValid few

-- 256 handles on the console's input.
abbrev many : ℕ → Map (Resource ℕ)
many zero = []
many (suc n) = (255 - n, console stdin) ∷ many n

abbrev crowded : ResourceSet ℕ
crowded = record { handles = many 256; recycled = [] }

abbrev worker_runs : Runnable (saved default_context shell world).processes 3
unfolding lookup insert
worker_runs = record { entry = worker; vm = 5; found = refl; is_in = refl; has_vm = refl }

switch-resumes_example :
    switch default_context world
    ≡ some (resumed (saved default_context shell world) 3 worker_runs (1 ∷ []))
unfolding lookup insert
switch-resumes_example =
    switch-resumes world default_context shell (2 ∷ []) 3 [] worker_runs (omega arith) refl refl
      ((sleeper, refl, refl), tt) (omega arith)

world_is_Live : Live world
unfolding lookup insert
world_is_Live = record {
  real = omega arith;
  self_found = refl;
  self_vm = λ p e. ground arith;
  no_zero = refl;
  queued = (refl, (refl, tt));
  alive = λ pid p e r. ground arith;
}

switch-Live_example :
    (r : Context × World machine) × (switch default_context world ≡ some r) × Live r.1
switch-Live_example = switch-Live world default_context world_is_Live

kill-core_example :
    core_of 3 (kill 2 77 world)
    ≡ (if member 3 (waiters_of 2 world) then revive 77 (core_of 3 world) else core_of 3 world)
unfolding lookup
kill-core_example = kill-core 3 2 77 sleeper world refl

kill-queue_example :
    ((kill 2 77 world).ready_queue ≡ world.ready_queue ++ waiters_of 2 world)
    × (lookup 2 (kill 2 77 world).wait_queue ≡ none)
unfolding lookup
kill-queue_example = kill-queue 2 77 sleeper world refl (refl, tt)

-- The same processes without a waiter for 2, and 3 alone in the ready queue.
abbrev idle : World machine
idle = record world { ready_queue = 3 ∷ []; wait_queue = [] }

signal-kill_panics_example :
    (w' : World machine) × (sem_signal 4 default_context (kill 2 77 idle)
      ≡ some (default_context, w'))
    × (clocks (λ _. default_context) 1 w' ≡ none)
unfolding lookup
signal-kill_panics_example =
    signal-kill_panics idle shell sleeper (record { env = 0; resources = 0; semaphores = 0 }) 2 4 77
      1 (record { count = 0; wait_queue = 2 ∷ [] }) [] default_context (λ _. default_context)
      (omega arith) (omega arith) refl refl refl refl refl refl ((omega arith, omega arith), tt)
      (omega arith)

vfork-Forked_example :
    (w' : World machine) × (vfork default_context world ≡ switch_next default_context w')
    × Forked world shell default_context 6 (0x2000 - 8) 7 w'
unfolding lookup
vfork-Forked_example =
    vfork-Forked world shell default_context 5 6 8 (0x2000 - 8) 7 (omega arith) (omega arith) refl
      refl refl refl

worker-Waits : Waits 3 worker world 2
unfolding lookup
worker-Waits = record {
  before = 2 ∷ [];
  after = [];
  queue = refl;
  near = omega arith;
  elsewhere = omega arith;
  found = refl;
}

clocks-Runs_example :
    (k : ℕ) × (r : Context × World machine) × (k ≤ 1)
    × (clocks (λ _. default_context) k world ≡ some r)
    × Runs 3 worker r
clocks-Runs_example =
    clocks-Runs 3 worker 5 refl refl (λ _. default_context) 1 world world_is_Live worker-Waits

-- A letter, and one of three bytes.
abbrev typed : List ℕ
typed = b'a' ∷ 0x4F60 ∷ []

typed-IsPlain : All IsPlain typed
typed-IsPlain = (
  record {
    code_point = refl;
    no_return = omega arith;
    no_backspace = omega arith;
    no_delete = omega arith;
  },
  (
    record {
      code_point = refl;
      no_return = omega arith;
      no_backspace = omega arith;
      no_delete = omega arith;
    },
    tt,
  ),
)

get_line-encode_example : get_line 3 [] (encode typed ++ 13 ∷ b'b' ∷ []) ≡ line typed (b'b' ∷ [])
get_line-encode_example = get_line-encode 3 [] typed (b'b' ∷ []) (omega arith) typed-IsPlain
