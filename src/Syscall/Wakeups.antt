-- ===== src/Syscall/Wakeups.antt =====
-- What the user library learns of a wake-up: `sys_sem_signal` and `sys_sem_wait` of
-- pkg/lib/src/syscall.rs with `sys_sem` of pkg/kernel/src/interrupt/syscall/service.rs.
use operating_system_experim.Prelude.{
  ℕ, ◌^◌, ◌<◌, ◌≡◌, refl, ap, ◌∙◌, inl, inr, false, none, some, List, ◌∷◌, arith, Option-cases,
  lookup, insert, lookup-insert_self,
}
use operating_system_experim.Proc.Sync.{Semaphore, set_signal, signal}
use operating_system_experim.Proc.World.{Machine, Context, ready, World, ProcessData, pause}
use operating_system_experim.Proc.Manager.{wake_up}
use operating_system_experim.Proc.Calls.{sem_signal, put_sems, current_data}
use operating_system_experim.Proc.Calls.Entries.{Core, core_of}
use operating_system_experim.Syscall.{Services, number, find_call}
use operating_system_experim.Syscall.Service.{sys_sem}
use operating_system_experim.Syscall.User.{syscall2, sys_sem_wait, sys_sem_signal, succeeded}
use operating_system_experim.Syscall.Dispatcher.{dispatcher, serve}

module _ {m : Machine} (k : Services m) where
  signal-dispatched :
      (key : ℕ) (c : Context) (w : World m)
      → key < 2 ^ 32
      → dispatcher k (sys_sem_signal key c) w ≡ sem_signal key (sys_sem_signal key c) w
  unfolding dispatcher serve number find_call syscall2 sys_sem
  signal-dispatched key c w small = ground arith

  signal-wakes :
      (key q : ℕ) (rest : List ℕ) (c : Context) (d : ProcessData) (s : Semaphore) (w : World m)
      → current_data w ≡ some d
      → lookup key (w.semaphores d.semaphores) ≡ some s
      → s.wait_queue ≡ q ∷ rest
      → sem_signal key c w
        ≡ some (
          c,
          wake_up q none (
              put_sems d
                (insert key (record s { wait_queue = rest }) (w.semaphores d.semaphores))
                w),
        )
  unfolding sem_signal set_signal signal
  signal-wakes key q rest c d s w data' has waits = ground (arith, data', has, waits)

  woken-core :
      (q : ℕ) (e : Core m.Vm) (w : World m)
      → core_of q w ≡ some e
      → core_of q (wake_up q none w) ≡ some (record e { status = ready })
  unfolding wake_up
  woken-core q e w found = elim (Option-cases (lookup q w.processes)) [
    | inl gone ↦ absurd (ground arith)
    | inr (p, at) ↦ ground (arith, lookup-insert_self q (pause p) w.processes)
  ]

  -- When a process of user space signals a semaphore on which a process waits, in `sys_sem_wait`, the
  -- permit passes to the first that waits, which is ready again; but neither of the two gets a
  -- zero in rax: for both the library's call returns `false`, as for a semaphore that does not exist.
  pub sys_sem_signal-succeeded :
      (key q : ℕ) (rest : List ℕ) (c cq : Context) (d : ProcessData) (s : Semaphore) (e : Core m.Vm)
      (w : World m)
      → key < 2 ^ 32
      → current_data w ≡ some d
      → lookup key (w.semaphores d.semaphores) ≡ some s
      → s.wait_queue ≡ q ∷ rest
      → core_of q w ≡ some e
      → e.context ≡ sys_sem_wait key cq
      → (w' : World m) × (dispatcher k (sys_sem_signal key c) w ≡ some (sys_sem_signal key c, w'))
        × (succeeded (sys_sem_signal key c) ≡ false)
        × (core_of q w' ≡ some (record e { status = ready }))
        × (succeeded e.context ≡ false)
  unfolding syscall2 number
  sys_sem_signal-succeeded key q rest c cq d s e w small data' has waits found stopped =
      let w1 =
        put_sems d (insert key (record s { wait_queue = rest }) (w.semaphores d.semaphores)) w in
      (
        wake_up q none w1,
        signal-dispatched key c w small
            ∙ signal-wakes key q rest (sys_sem_signal key c) d s w data' has waits,
        refl,
        woken-core q e w1 found,
        ap succeeded stopped,
      )
