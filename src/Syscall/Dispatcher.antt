-- ===== src/Syscall/Dispatcher.antt =====
-- The dispatcher of system calls, pkg/kernel/src/interrupt/syscall/mod.rs.
use operating_system_experim.Prelude.{Option, none, some}
use operating_system_experim.Proc.World.{Machine, Context, World, set_rax}
use operating_system_experim.Syscall.{Syscall, Services, SyscallArgs, args_of, find_call, number}
use operating_system_experim.Syscall.Service.{
  spawn_process, sys_write, sys_read, exit_process, sys_wait_pid, sys_kill, sys_get_pid,
  sys_allocate, sys_deallocate, sys_vfork, answer_rax, sys_sem, list_dir, sys_open, sys_close,
  sys_brk,
}

abbrev pub with_context : {m : Machine} → Context → Option (World m) → Option (Context × World m)
with_context context none = none
with_context context (some w) = some (context, w)

module _ {m : Machine} (k : Services m) where
  unfoldable pub serve : SyscallArgs → Context → World m → Option (Context × World m)
  unfolding spawn_process sys_write sys_read sys_kill sys_allocate sys_deallocate sys_sem list_dir
      sys_open sys_close sys_brk
  serve args context w = elim args.syscall [
    | Syscall.read ↦ answer_rax context (sys_read k args w)
    | Syscall.write ↦ answer_rax context (sys_write k args w)
    | Syscall.get_pid ↦ answer_rax context (sys_get_pid w)
    | Syscall.spawn ↦ answer_rax context (spawn_process k args w)
    | Syscall.exit_process ↦ exit_process args context w
    | Syscall.wait_pid ↦ sys_wait_pid args context w
    | Syscall.kill ↦ sys_kill args context w
    | Syscall.stat ↦ some (context, w)
    | Syscall.list_app ↦ some (context, w)
    | Syscall.vfork ↦ sys_vfork context w
    | Syscall.sem ↦ sys_sem args context w
    | Syscall.list_dir ↦ some (set_rax (list_dir k args w) context, w)
    | Syscall.open_file ↦ answer_rax context (sys_open k args w)
    | Syscall.close_file ↦ answer_rax context (sys_close args w)
    | Syscall.brk ↦ answer_rax context (sys_brk k args w)
    | Syscall.allocate ↦ answer_rax context (sys_allocate k args w)
    | Syscall.deallocate ↦ with_context context (sys_deallocate k args w)
    | Syscall.unknown ↦ some (context, w)
  ]

  unfoldable pub dispatcher : Context → World m → Option (Context × World m)
  unfolding serve find_call number
  dispatcher context w = serve (args_of context) context w
