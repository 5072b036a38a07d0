-- ===== src/Proc/Manager.antt =====
-- The process manager, manager.rs, and the parts of process.rs that it calls
-- (both in pkg/kernel/src/proc). `none` is a panic.
use operating_system_experim.Prelude.{
  ℕ, ◌+◌, ◌-◌, Bool, true, false, Option, none, some, List, [], ◌∷◌, ◌++◌, map, ltb, ◌==◌,
  if◌then◌else◌, length, lookup, insert, erase, ◌>>=◌,
}
use operating_system_experim.Proc.World.{
  Machine, Context, default_context, init_stack_frame, ready, running, dead, Process, World, tick,
  pause, block_process, set_return, save, add_child, remove_child, set_parent, is_ready, new_pid,
  new_data, get_pid, ascii_lower,
}

abbrev pub kernel_pid : ℕ
kernel_pid = 1

-- STACK_INIT_TOP: STACK_MAX - 8
abbrev pub stack_init_top : ℕ
stack_init_top = 0x4000_0000_0000 - 8

-- A `BTreeSet` of pids, in ascending order.
unfoldable pub set_add : ℕ → List ℕ → List ℕ
set_add pid [] = pid ∷ []
set_add pid (q ∷ qs) =
    let rest = set_add pid qs in
    if pid == q then q ∷ qs else if ltb pid q then pid ∷ q ∷ qs else q ∷ rest

abbrev pub or_empty : Option (List ℕ) → List ℕ
or_empty none = []
or_empty (some l) = l

module _ {m : Machine} where
  abbrev pub get_proc : ℕ → World m → Option (Process m)
  get_proc pid w = lookup pid w.processes

  abbrev pub put_proc : ℕ → Process m → World m → World m
  put_proc pid p w = record w { processes = insert pid p w.processes }

  -- A change of one process, if it is in the table.
  abbrev pub modify_found : ℕ → (Process m → Process m) → World m → Option (Process m) → World m
  modify_found pid f w none = w
  modify_found pid f w (some p) = put_proc pid (f p) w

  unfoldable pub modify : ℕ → (Process m → Process m) → World m → World m
  modify pid f w = modify_found pid f w (get_proc pid w)

  abbrev pub push_ready : ℕ → World m → World m
  push_ready pid w = record w { ready_queue = w.ready_queue ++ pid ∷ [] }

  abbrev pub get_exit_code : ℕ → World m → Option ℕ
  get_exit_code pid w = elim (get_proc pid w) [ none ↦ none | some p ↦ p.exit_code ]

  abbrev pub current : World m → Option (Process m)
  current w = do pid ← get_pid w; get_proc pid w

  -- `wait_pid` of the manager: the current process joins those that wait for `pid`.
  unfoldable pub add_waiter : ℕ → World m → Option (World m)
  add_waiter pid w = do
    self ← get_pid w
    some (record w {
      wait_queue = insert pid (set_add self (or_empty (lookup pid w.wait_queue))) w.wait_queue;
    })

  unfoldable pub block : ℕ → World m → World m
  unfolding modify
  block pid w = modify pid block_process w

  unfoldable pub save_current : Context → World m → Option (ℕ × World m)
  save_current context w = do p ← current w; some (w.cpu, put_proc w.cpu (save context (tick p)) w)

  -- `ProcessInner::restore`, with the processor's pid; without an address space it panics.
  abbrev pub restore : ℕ → Process m → World m → Option (Context × World m)
  restore next p w = elim p.proc_vm [
    | none ↦ none
    | some vm ↦ some (
      p.context,
      record w {
        processes = insert next (record p { status = running }) w.processes;
        cpu = next;
        memory = m.load vm w.memory;
      },
    )
  ]

  -- The loop of `switch_next` over the ready queue. A process that is not ready is dropped; where
  -- the next one is the current one, nothing is restored.
  unfoldable pub switch_loop : List ℕ → Context → World m → Option (Context × World m)
  switch_loop [] context w = some (context, record w { ready_queue = [] })
  switch_loop (next ∷ queue) context w = elim (get_proc next w) [
    | none ↦ none
    | some p ↦ elim (is_ready p) [
      | false ↦ switch_loop queue context w
      | true ↦
          if w.cpu == next
          then some (context, record w { ready_queue = queue })
          else restore next p (record w { ready_queue = queue })
    ]
  ]

  unfoldable pub switch_next : Context → World m → Option (Context × World m)
  unfolding switch_loop
  switch_next context w = do _ ← get_pid w; switch_loop w.ready_queue context w

  unfoldable pub wake_up : ℕ → Option ℕ → World m → World m
  unfolding modify
  wake_up pid ret w = elim (get_proc pid w) [
    | none ↦ w
    | some p ↦
        let p' : Process m = elim ret [ none ↦ p | some r ↦ set_return r p ] in
        push_ready pid (put_proc pid (pause p') w)
  ]

  unfoldable pub wake_all : List ℕ → ℕ → World m → World m
  unfolding wake_up
  wake_all [] ret w = w
  wake_all (waiter ∷ waiters) ret w = wake_all waiters ret (wake_up waiter (some ret) w)

  unfoldable pub reparent : List ℕ → Option ℕ → World m → World m
  unfolding modify
  reparent [] parent w = w
  reparent (child ∷ children) parent w =
      reparent children parent (modify child (set_parent parent) w)

  -- `self.parent()`: the parent's pid and entry, if its `Weak` can be upgraded.
  unfoldable pub parent_of : Process m → World m → Option (ℕ × Process m)
  parent_of p w = do weak ← p.parent; pid ← weak; parent ← get_proc pid w; some (pid, parent)

  -- The children go to the parent, unless that has exited.
  unfoldable pub leave_family : ℕ → Process m → World m → World m
  unfolding modify reparent parent_of
  leave_family pid p w = elim (parent_of p w) [
    | none ↦ w
    | some (parent_pid, parent) ↦ elim parent.exit_code [
      | none ↦
          reparent p.children (some parent_pid) (put_proc parent_pid (remove_child pid parent) w)
      | some _ ↦ reparent p.children none w
    ]
  ]

  abbrev pub free_vm : Option m.Vm → World m → World m
  free_vm none w = w
  free_vm (some vm) w = record w { memory = m.drop_vm vm w.memory }

  abbrev pub dead_process : ℕ → Process m → Process m
  dead_process ret p = record p {
    proc_vm = none;
    proc_data = none;
    exit_code = some ret;
    status = dead;
  }

  -- `ProcessInner::kill`
  unfoldable pub kill_process : ℕ → ℕ → Process m → World m → World m
  unfolding leave_family
  kill_process pid ret p w =
      put_proc pid (dead_process ret p) (free_vm p.proc_vm (leave_family pid p w))

  -- `ProcessManager::kill`: those who wait for the process are woken, and wait no more.
  unfoldable pub kill : ℕ → ℕ → World m → World m
  unfolding kill_process wake_all
  kill pid ret w = elim (get_proc pid w) [
    | none ↦ w
    | some p ↦
        let w1 = kill_process pid ret p w in
        elim (lookup pid w1.wait_queue) [
          | none ↦ w1
          | some waiters ↦ wake_all waiters ret (record w1 { wait_queue = erase pid w1.wait_queue })
        ]
  ]

  unfoldable pub kill_self : ℕ → World m → Option (World m)
  unfolding kill
  kill_self ret w = do pid ← get_pid w; some (kill pid ret w)

  -- `ProcessInner::vfork`: the child's entry and the memory after the stack is copied.
  unfoldable pub vfork_process : ℕ → Process m → m.Memory → Option (Process m × m.Memory)
  vfork_process parent p memory = do
    vm ← p.proc_vm
    (child_vm, offset, memory') ← m.fork vm (length p.children + 1) memory
    stack_pointer ← m.offset_address p.context.stack_pointer offset
    some (
      record {
        name = p.name;
        parent = some (some parent);
        children = [];
        ticks_passed = 0;
        status = ready;
        context = record p.context { stack_pointer = stack_pointer; rax = 0 };
        exit_code = none;
        proc_data = p.proc_data;
        proc_vm = some child_vm;
      },
      memory',
    )

  -- `ProcessManager::vfork` with `Process::vfork`: the parent's saved `rax` is the child's pid.
  unfoldable pub manager_vfork : World m → Option (World m)
  unfolding vfork_process
  manager_vfork w = do
    p ← current w
    (child, memory') ← vfork_process w.cpu p w.memory
    let (pid, w1) = new_pid (record w { memory = memory' })
    let parent = pause (add_child pid (set_return pid p))
    some (push_ready pid (put_proc pid child (put_proc w.cpu parent w1)))

  -- `Process::new`
  unfoldable pub new_process : List ℕ → Option (Option ℕ) → m.Vm → World m → ℕ × Process m × World m
  new_process name parent vm w =
      let (pid, w1) = new_pid w in
      let (proc_data, w2) = new_data w1 in
      (
        pid,
        record {
          name = map ascii_lower name;
          parent = parent;
          children = [];
          ticks_passed = 0;
          status = ready;
          context = default_context;
          exit_code = none;
          proc_data = some proc_data;
          proc_vm = some vm;
        },
        w2,
      )

  unfoldable pub manager_spawn : m.Elf → List ℕ → Option (Option ℕ) → World m → Option (ℕ × World m)
  unfolding new_process init_stack_frame
  manager_spawn elf name parent w = do
    kproc ← get_proc kernel_pid w
    kernel_vm ← kproc.proc_vm
    (vm, memory1) ← m.new_vm kernel_vm w.memory
    let (pid, p, w1) = new_process name parent vm (record w { memory = memory1 })
    (vm', memory2) ← m.load_elf elf vm w1.memory
    let context =
        init_stack_frame m (m.truncate (m.entry_point elf)) (m.truncate stack_init_top) p.context
    some (
      pid,
      push_ready pid (
          put_proc pid (record p { proc_vm = some vm'; context = context })
            (record w1 { memory = memory2 })),
    )

  -- `ProcessManager::handle_page_fault`; a protection violation is not handled.
  unfoldable pub handle_page_fault : ℕ → Bool → World m → Option (Bool × World m)
  handle_page_fault addr protection_violation w =
      if protection_violation then some (false, w) else do
        p ← current w
        vm ← p.proc_vm
        (handled, vm', memory') ← m.page_fault vm addr w.memory
        some (
          handled,
          put_proc w.cpu (record p { proc_vm = some vm' }) (record w { memory = memory' }),
        )
