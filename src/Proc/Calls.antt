-- ===== src/Proc/Calls.antt =====
-- The kernel's calls on processes, pkg/kernel/src/proc/mod.rs: each runs with interrupts off, on the
-- context of the process that called. `none` is a panic; where a call can switch processes it
-- answers the context with which the processor goes on.
pub mod Doom
pub mod Entries
pub mod Exit
pub mod Fairness
pub mod Revival
pub mod Switch
pub mod Vfork
use operating_system_experim.Prelude.{
  ℕ, Bool, true, false, ◌&&◌, Option, none, some, List, [], ◌∷◌, ◌==◌, if◌then◌else◌, ◌>>=◌, update,
}
use operating_system_experim.Proc.Sync.{
  SemaphoreSet, ok, not_exist, wake_up as woken, block as blocks, set_insert, set_remove, set_wait,
  set_signal,
}
use operating_system_experim.Proc.Resources.{Resource, open_handle, close, set_read, set_write}
use operating_system_experim.Proc.World.{
  Machine, Context, set_rax, ProcessData, World, block_process, get_pid,
}
use operating_system_experim.Proc.Manager.{
  modify, push_ready, get_exit_code, current, add_waiter, block, save_current, switch_next, wake_up,
  kill, kill_self, manager_vfork, manager_spawn,
}

-- `0xdead`, the exit code of a killed process.
abbrev pub killed : ℕ
killed = 0xdead

abbrev eq_name : List ℕ → List ℕ → Bool
eq_name [] [] = true
eq_name (a ∷ as') (b ∷ bs) = a == b && eq_name as' bs
eq_name _ _ = false

-- `app_list.iter().find(|&app| app.name.eq(name))`
unfoldable pub find_app : {Elf : Type 0} → List ℕ → List (List ℕ × Elf) → Option Elf
find_app name [] = none
find_app name ((app, elf) ∷ apps) = if eq_name app name then some elf else find_app name apps

module _ {m : Machine} where
  unfoldable pub switch : Context → World m → Option (Context × World m)
  unfolding save_current switch_next
  switch context w = do (pid, w1) ← save_current context w; switch_next context (push_ready pid w1)

  -- The handler of the timer; its acknowledgement goes to the interrupt controller.
  abbrev pub clock : Context → World m → Option (Context × World m)
  clock = switch

  unfoldable pub process_exit : ℕ → Context → World m → Option (Context × World m)
  unfolding kill_self switch_next
  process_exit ret context w = do w1 ← kill_self ret w; switch_next context w1

  unfoldable pub wait_pid : ℕ → Context → World m → Option (Context × World m)
  unfolding add_waiter save_current switch_next modify
  wait_pid pid context w = elim (get_exit_code pid w) [
    | some ret ↦ some (set_rax ret context, w)
    | none ↦ do
      w1 ← add_waiter pid w
      (self, w2) ← save_current context w1
      switch_next context (modify self block_process w2)
  ]

  abbrev pub wait_no_block : ℕ → World m → Option ℕ
  wait_no_block = get_exit_code

  unfoldable pub kill_call : ℕ → Context → World m → Option (Context × World m)
  unfolding kill kill_self switch_next
  kill_call pid context w = do
    self ← get_pid w
    elim (pid == self) [
      | true ↦ do w1 ← kill_self killed w; switch_next context w1
      | false ↦ some (context, kill pid killed w)
    ]

  unfoldable pub elf_spawn : List ℕ → m.Elf → World m → Option (ℕ × World m)
  unfolding manager_spawn
  elf_spawn name elf w = do _ ← current w; manager_spawn elf name (some (some w.cpu)) w

  -- The answer is `none` when no program has the name.
  unfoldable pub spawn : List ℕ → World m → Option (Option ℕ × World m)
  unfolding find_app elf_spawn
  spawn name w = elim w.app_list [
    | none ↦ some (none, w)
    | some apps ↦ elim (find_app name apps) [
      | none ↦ some (none, w)
      | some elf ↦ do (pid, w1) ← elf_spawn name elf w; some (some pid, w1)
    ]
  ]

  unfoldable pub vfork : Context → World m → Option (Context × World m)
  unfolding save_current manager_vfork switch_next
  vfork context w = do
    (pid, w1) ← save_current context w
    w2 ← manager_vfork w1
    switch_next context (push_ready pid w2)

  -- `Deref for ProcessInner`: a process without its data panics.
  abbrev pub current_data : World m → Option ProcessData
  current_data w = do p ← current w; p.proc_data

  abbrev pub put_sems : ProcessData → SemaphoreSet → World m → World m
  put_sems d sems w = record w { semaphores = update w.semaphores d.semaphores sems }

  unfoldable pub sem_new : ℕ → ℕ → World m → Option (ℕ × World m)
  unfolding set_insert
  sem_new key value w = do
    d ← current_data w
    let (sems, fresh) = set_insert (w.semaphores d.semaphores) key value
    some (if fresh then 0 else 1, put_sems d sems w)

  unfoldable pub remove_sem : ℕ → World m → Option (ℕ × World m)
  unfolding set_remove
  remove_sem key w = do
    d ← current_data w
    let (sems, found) = set_remove (w.semaphores d.semaphores) key
    some (if found then 0 else 1, put_sems d sems w)

  unfoldable pub sem_wait : ℕ → Context → World m → Option (Context × World m)
  unfolding set_wait save_current block switch_next
  sem_wait key context w = do
    d ← current_data w
    let (sems, result) = set_wait (w.semaphores d.semaphores) key w.cpu
    let w1 = put_sems d sems w
    elim result [
      | ok ↦ some (set_rax 0 context, w1)
      | not_exist ↦ some (set_rax 1 context, w1)
      | blocks pid ↦ do (_, w2) ← save_current context w1; switch_next context (block pid w2)
      | woken pid ↦ none
    ]

  -- The context is left alone when a process is woken.
  unfoldable pub sem_signal : ℕ → Context → World m → Option (Context × World m)
  unfolding set_signal wake_up
  sem_signal key context w = do
    d ← current_data w
    let (sems, result) = set_signal (w.semaphores d.semaphores) key
    let w1 = put_sems d sems w
    elim result [
      | ok ↦ some (set_rax 0 context, w1)
      | not_exist ↦ some (set_rax 1 context, w1)
      | woken pid ↦ some (context, wake_up pid none w1)
      | blocks pid ↦ none
    ]

  -- `brk` changes the address space that the process shares, not its entry.
  unfoldable pub brk : Option ℕ → World m → Option (Option ℕ × World m)
  brk addr w = do
    p ← current w
    vm ← p.proc_vm
    let (answer, memory') = m.brk vm addr w.memory
    some (answer, record w { memory = memory' })

  -- `read` answers the count as an `isize` and the buffer.
  unfoldable pub read : ℕ → List ℕ → World m → Option (ℕ × List ℕ × World m)
  unfolding set_read
  read fd buf w = do
    d ← current_data w
    (resources, keys, buf', count) ← set_read m.read_file (w.resources d.resources) fd w.keys buf
    some (
      count,
      buf',
      record w { resources = update w.resources d.resources resources; keys = keys },
    )

  unfoldable pub write : ℕ → List ℕ → World m → Option ℕ
  unfolding set_write
  write fd buf w = do d ← current_data w; some (set_write (w.resources d.resources) fd buf)

  unfoldable pub open_resource : Resource m.File → World m → Option (ℕ × World m)
  unfolding open_handle
  open_resource res w = do
    d ← current_data w
    let (resources, fd) = open_handle (w.resources d.resources) res
    some (fd, record w { resources = update w.resources d.resources resources })

  unfoldable pub close_resource : ℕ → World m → Option (Bool × World m)
  unfolding close
  close_resource fd w = do
    d ← current_data w
    let (resources, closed) = close (w.resources d.resources) fd
    some (closed, record w { resources = update w.resources d.resources resources })
