-- ===== src/Proc/Calls/Vfork.antt =====
-- What `vfork` makes of the parent and the child: mod.rs, manager.rs and process.rs of
-- pkg/kernel/src/proc.
use operating_system_experim.Prelude.{
  ℕ, ◌+◌, ◌%◌, ◌^◌, ◌≡◌, refl, ◌∙◌, ◌≢◌, none, some, [], ◌∷◌, ◌++◌, arith, length,
  lookup-insert_self, lookup-insert_ne,
}
use operating_system_experim.Proc.World.{
  Machine, Context, set_rax, Process, World, ready, save, tick, pause, add_child, set_return,
}
use operating_system_experim.Proc.Manager.{
  get_proc, put_proc, push_ready, save_current, manager_vfork, vfork_process, switch_next,
}
use operating_system_experim.Proc.Calls.{vfork}

module _ {m : Machine} where
  -- The state in which `vfork` looks for the next process: the parent and the child are both ready
  -- and queued, the child first; each has the registers that the parent called with but for `rax`,
  -- which is the child's pid in the parent and 0 in the child, and the child's moved stack pointer;
  -- the child shares the resources and the semaphores of its parent, which lists it as its child.
  abbrev pub Forked : World m → Process m → Context → m.Vm → ℕ → m.Memory → World m → Type 0
  Forked w self context child_vm stack_pointer memory w' =
      (child : Process m) × (parent : Process m) × (get_proc w.next_pid w' ≡ some child)
      × (get_proc w.cpu w' ≡ some parent)
      × (child.context ≡ record context { rax = 0; stack_pointer = stack_pointer })
      × (parent.context ≡ set_rax w.next_pid context)
      × (child.proc_data ≡ self.proc_data)
      × (parent.proc_data ≡ self.proc_data)
      × (child.proc_vm ≡ some child_vm)
      × (child.parent ≡ some (some w.cpu))
      × (parent.children ≡ self.children ++ w.next_pid ∷ [])
      × (child.status ≡ ready)
      × (parent.status ≡ ready)
      × (w'.ready_queue ≡ (w.ready_queue ++ w.next_pid ∷ []) ++ w.cpu ∷ [])
      × (w'.next_pid ≡ (w.next_pid + 1) % 2 ^ 16)
      × (w'.memory ≡ memory)

  -- `vfork` by a process whose stack can be copied, and that is not the one with the next pid, makes
  -- the parent and the child as above and then switches.
  pub vfork-Forked :
      (w : World m) (self : Process m) (context : Context) (vm child_vm : m.Vm)
      (offset stack_pointer : ℕ) (memory : m.Memory)
      → w.cpu ≢ 0
      → w.next_pid ≢ w.cpu
      → get_proc w.cpu w ≡ some self
      → self.proc_vm ≡ some vm
      → m.fork vm (length self.children + 1) w.memory ≡ some (child_vm, offset, memory)
      → m.offset_address context.stack_pointer offset ≡ some stack_pointer
      → (w' : World m) × (vfork context w ≡ switch_next context w')
        × Forked w self context child_vm stack_pointer memory w'
  unfolding vfork save_current manager_vfork vfork_process
  vfork-Forked w self context vm child_vm offset stack_pointer memory real other found has_vm forked
        moved =
      let p1 = save context (tick self) in
      let w1 = put_proc w.cpu p1 w in
      let parent = pause (add_child w.next_pid (set_return w.next_pid p1)) in
      let child : Process m = record {
        name = self.name;
        parent = some (some w.cpu);
        children = [];
        ticks_passed = 0;
        status = ready;
        context = record context { stack_pointer = stack_pointer; rax = 0 };
        exit_code = none;
        proc_data = self.proc_data;
        proc_vm = some child_vm;
      } in
      let w2 = record w1 { memory = memory; next_pid = (w.next_pid + 1) % 2 ^ 16 } in
      let w3 = push_ready w.next_pid (put_proc w.next_pid child (put_proc w.cpu parent w2)) in
      let saved_self : save_current context w ≡ some (w.cpu, w1) = ground arith in
      let self_found : get_proc w.cpu w1 ≡ some p1 = lookup-insert_self w.cpu p1 w.processes in
      let made : manager_vfork w1 ≡ some w3 = ground arith in
      (
        push_ready w.cpu w3,
        ground arith,
        (
          child,
          parent,
          lookup-insert_self w.next_pid child (put_proc w.cpu parent w2).processes,
          lookup-insert_ne w.next_pid w.cpu child (put_proc w.cpu parent w2).processes other
              ∙ lookup-insert_self w.cpu parent w2.processes,
          refl,
          refl,
          refl,
          refl,
          refl,
          refl,
          refl,
          refl,
          refl,
          refl,
          refl,
          refl,
        ),
      )
