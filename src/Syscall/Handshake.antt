-- ===== src/Syscall/Handshake.antt =====
-- Waiting for the end of a process, from the calls of the user library to the manager: `sys_wait_pid` and
-- `sys_exit` of pkg/lib/src/syscall.rs, through the dispatcher of pkg/kernel/src/interrupt/syscall/mod.rs.
use operating_system_experim.Prelude.{
  ℕ, ◌^◌, ◌<◌, ◌≡◌, refl, ap, ◌∙◌, ◌≢◌, true, none, some, List, [], ◌∷◌, ◌++◌, arith, is_some, All,
  lookup, insert, lookup-insert_self,
}
use operating_system_experim.Proc.World.{
  Machine, Context, ready, blocked, Process, World, set_rax, save, tick, block_process,
}
use operating_system_experim.Proc.Manager.{
  get_proc, put_proc, set_add, add_waiter, get_exit_code, kill, kill_self, modify, save_current,
  switch_next, or_empty,
}
use operating_system_experim.Proc.Calls.{process_exit, wait_pid}
use operating_system_experim.Proc.Calls.Entries.{Core, core, core_of}
use operating_system_experim.Proc.Calls.Exit.{kill-core, kill-queue, member, waiters_of}
use operating_system_experim.Syscall.{Services, number, find_call}
use operating_system_experim.Syscall.User.{syscall1, sys_wait_pid, sys_exit}
use operating_system_experim.Syscall.Dispatcher.{dispatcher, serve}

member-set_add : (a : ℕ) (l : List ℕ) → member a (set_add a l) ≡ true
unfolding member set_add
member-set_add a [] = ground arith
member-set_add a (b ∷ l) = ground (arith, member-set_add a l)

member-append : (a : ℕ) (l k : List ℕ) → member a k ≡ true → member a (l ++ k) ≡ true
unfolding member
member-append a [] k h = h
member-append a (b ∷ l) k h = ground (arith, member-append a l k h)

module _ {m : Machine} where
  -- The process `a` is blocked in the library's `sys_wait_pid` on `pid`, and stands with those that
  -- wait for `pid`.
  pub record Awaits (a pid : ℕ) (c : Context) (w : World m) : Type 0 where
    pub entry : Core m.Vm
    pub found : core_of a w ≡ some entry
    pub stopped : entry.status ≡ blocked
    pub registers : entry.context ≡ sys_wait_pid pid c
    pub listed : member a (waiters_of pid w) ≡ true

module _ {m : Machine} (k : Services m) where
  wait-dispatched :
      (pid : ℕ) (c : Context) (w : World m)
      → pid < 2 ^ 16
      → dispatcher k (sys_wait_pid pid c) w ≡ wait_pid pid (sys_wait_pid pid c) w
  unfolding dispatcher serve number find_call syscall1
  wait-dispatched pid c w small = ground arith

  exit-dispatched :
      (code : ℕ) (c : Context) (w : World m)
      → dispatcher k (sys_exit code c) w ≡ process_exit code (sys_exit code c) w
  unfolding dispatcher serve number find_call syscall1
  exit-dispatched code c w = refl

  -- The state in which `wait_pid` leaves its caller, before the next process is chosen.
  waiting : ℕ → Context → Process m → World m → World m
  waiting pid c self w = put_proc w.cpu (block_process (save c (tick self))) (
      put_proc w.cpu (save c (tick self)) (record w {
        wait_queue = insert pid (set_add w.cpu (or_empty (lookup pid w.wait_queue))) w.wait_queue;
      }))

  wait_pid-blocks :
      (pid : ℕ) (c : Context) (self : Process m) (w : World m)
      → w.cpu ≢ 0
      → get_proc w.cpu w ≡ some self
      → get_exit_code pid w ≡ none
      → wait_pid pid c w ≡ switch_next c (waiting pid c self w)
  unfolding wait_pid add_waiter save_current modify waiting
  wait_pid-blocks pid c self w real found alive =
      ground (arith, lookup-insert_self w.cpu (save c (tick self)) w.processes)

  waiting-Awaits :
      (pid : ℕ) (c : Context) (self : Process m) (w : World m)
      → Awaits w.cpu pid c (waiting pid (sys_wait_pid pid c) self w)
  unfolding waiting
  waiting-Awaits pid c self w = record {
    entry = core (block_process (save (sys_wait_pid pid c) (tick self)));
    found = ground (
      arith,
      lookup-insert_self w.cpu (block_process (save (sys_wait_pid pid c) (tick self)))
          (insert w.cpu (save (sys_wait_pid pid c) (tick self)) w.processes),
    );
    stopped = refl;
    registers = refl;
    listed = ground (
      arith,
      lookup-insert_self pid (set_add w.cpu (or_empty (lookup pid w.wait_queue))) w.wait_queue,
      member-set_add w.cpu (or_empty (lookup pid w.wait_queue)),
    );
  }

  -- The end of a process that another awaits, with the exit code.
  pub exit-answers :
      (a pid code : ℕ) (c c' : Context) (p : Process m) (w : World m)
      → pid ≢ 0
      → a ≢ pid
      → w.cpu ≡ pid
      → get_proc pid w ≡ some p
      → All (λ q. is_some (core_of q w) ≡ true) (waiters_of pid w)
      → (h : Awaits a pid c w)
      → (dispatcher k (sys_exit code c') w ≡ switch_next (sys_exit code c') (kill pid code w))
        × (core_of a (kill pid code w)
            ≡ some (record h.entry { status = ready; context = set_rax code h.entry.context }))
        × (member a (kill pid code w).ready_queue ≡ true)
        × (get_exit_code pid (kill pid code w) ≡ some code)
  unfolding process_exit kill_self
  exit-answers a pid code c c' p w real other at found all h = (
    exit-dispatched code c' w ∙ ground (arith, real, at),
    ground (arith, kill-core a pid code p w found, h.found, h.listed, other),
    ap (member a) (kill-queue pid code p w found all).0
        ∙ member-append a w.ready_queue (waiters_of pid w) h.listed,
    ground (arith, kill-core pid pid code p w found),
  )

  -- A live process that calls `sys_wait_pid` on another, which has not ended, is blocked and awaits it,
  -- and the next process is chosen. In any later state in which it still awaits it, and that process,
  -- now running, calls `sys_exit`: the process has ended with the code, the one that waits is
  -- ready, in the ready queue, and finds the code in rax, with its other registers as they were;
  -- and the next process is chosen. (All that wait must be in the table.)
  pub sys_wait_pid-sys_exit :
      (pid code : ℕ) (c c' : Context) (self p : Process m) (w w' : World m)
      → pid < 2 ^ 16
      → pid ≢ 0
      → w.cpu ≢ 0
      → w.cpu ≢ pid
      → get_proc w.cpu w ≡ some self
      → get_exit_code pid w ≡ none
      → w'.cpu ≡ pid
      → get_proc pid w' ≡ some p
      → All (λ q. is_some (core_of q w') ≡ true) (waiters_of pid w')
      → (h : Awaits w.cpu pid c w')
      → ((w1 : World m) × (dispatcher k (sys_wait_pid pid c) w
            ≡ switch_next (sys_wait_pid pid c) w1)
          × Awaits w.cpu pid c w1)
        × (dispatcher k (sys_exit code c') w' ≡ switch_next (sys_exit code c') (kill pid code w'))
        × (core_of w.cpu (kill pid code w')
            ≡ some (record h.entry { status = ready; context = set_rax code h.entry.context }))
        × (member w.cpu (kill pid code w').ready_queue ≡ true)
        × (get_exit_code pid (kill pid code w') ≡ some code)
  sys_wait_pid-sys_exit pid code c c' self p w w' small real_pid real other found alive at found'
        all h =
      let (exits, answered, queued, kept) =
        exit-answers w.cpu pid code c c' p w' real_pid other at found' all h in
      (
        (
          waiting pid (sys_wait_pid pid c) self w,
          wait-dispatched pid c w small
              ∙ wait_pid-blocks pid (sys_wait_pid pid c) self w real found alive,
          waiting-Awaits pid c self w,
        ),
        exits,
        answered,
        queued,
        kept,
      )
