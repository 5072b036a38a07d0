-- ===== src/Tests/Syscall.antt =====
-- The system calls of the processes of Tests.Proc, with a memory that any user pointer can access.
use operating_system_experim.Prelude.{
  ◌≡◌, refl, true, false, some, [], ◌∷◌, arith, replicate, lookup,
}
use operating_system_experim.Proc.World.{default_context, set_rax, ready, running, blocked, World}
use operating_system_experim.Proc.Manager.{get_exit_code, kill, switch_next}
use operating_system_experim.Proc.Calls.Entries.{core, core_of}
use operating_system_experim.Proc.Calls.Exit.{member}
use operating_system_experim.Syscall.{Services}
use operating_system_experim.Syscall.User.{
  sys_wait_pid, sys_exit, sys_sem_wait, sys_sem_signal, succeeded,
}
use operating_system_experim.Syscall.Dispatcher.{dispatcher}
use operating_system_experim.Syscall.Handshake.{Awaits, sys_wait_pid-sys_exit}
use operating_system_experim.Syscall.Wakeups.{sys_sem_signal-succeeded}
use operating_system_experim.Tests.Proc.{machine, shell, sleeper, worker, world}

abbrev services : Services machine
services = record {
  user_flag = λ memory addr. some true;
  bytes_at = λ memory ptr len. replicate len 97;
  put_bytes = λ memory ptr bytes. memory;
  is_utf8 = λ bytes. true;
  new_address = λ addr. some addr;
  open_path = λ path. some 0;
  layout_size = λ memory ptr. some 16;
  allocate_first_fit = λ memory ptr. (some 64, memory);
  deallocate = λ memory ptr layout. memory;
}

-- The process 3 runs, and 1 awaits its end.
abbrev awaited : World machine
awaited = record world {
  processes =
      (1, record shell { status = blocked; context = sys_wait_pid 3 default_context })
      ∷ (2, sleeper)
      ∷ (3, record worker { status = running })
      ∷ [];
  ready_queue = [];
  wait_queue = (3, 1 ∷ []) ∷ [];
  cpu = 3;
}

shell_awaits : Awaits 1 3 default_context awaited
unfolding lookup member
shell_awaits = record {
  entry = core (record shell { status = blocked; context = sys_wait_pid 3 default_context });
  found = refl;
  stopped = refl;
  registers = refl;
  listed = refl;
}

sys_wait_pid-sys_exit_example :
    ((w1 : World machine) × (dispatcher services (sys_wait_pid 3 default_context) world
        ≡ switch_next (sys_wait_pid 3 default_context) w1)
      × Awaits 1 3 default_context w1)
    × (dispatcher services (sys_exit 7 default_context) awaited
        ≡ switch_next (sys_exit 7 default_context) (kill 3 7 awaited))
    × (core_of 1 (kill 3 7 awaited)
        ≡ some (record shell_awaits.entry {
          status = ready;
          context = set_rax 7 shell_awaits.entry.context;
        }))
    × (member 1 (kill 3 7 awaited).ready_queue ≡ true)
    × (get_exit_code 3 (kill 3 7 awaited) ≡ some 7)
unfolding lookup
sys_wait_pid-sys_exit_example =
    sys_wait_pid-sys_exit services 3 7 default_context default_context shell
      (record worker { status = running }) world awaited (omega arith) (omega arith) (omega arith)
      (omega arith) refl refl refl refl (refl, tt) shell_awaits

-- The process 2 waits on the semaphore 4, in the library's call.
abbrev signalled : World machine
signalled = record world {
  processes =
      (1, shell)
      ∷ (2, record sleeper { context = sys_sem_wait 4 default_context })
      ∷ (3, worker)
      ∷ [];
}

sys_sem_signal-succeeded_example :
    (w' : World machine) × (dispatcher services (sys_sem_signal 4 default_context) signalled
      ≡ some (sys_sem_signal 4 default_context, w'))
    × (succeeded (sys_sem_signal 4 default_context) ≡ false)
    × (core_of 2 w'
        ≡ some (core (record sleeper { status = ready; context = sys_sem_wait 4 default_context })))
    × (succeeded (sys_sem_wait 4 default_context) ≡ false)
unfolding lookup
sys_sem_signal-succeeded_example =
    sys_sem_signal-succeeded services 4 2 [] default_context default_context
      (record { env = 0; resources = 0; semaphores = 0 })
      (record { count = 0; wait_queue = 2 ∷ [] })
      (core (record sleeper { context = sys_sem_wait 4 default_context })) signalled (omega arith)
      refl refl refl refl refl
