-- ===== src/Proc/Calls/Revival.antt =====
-- A process that is killed while it waits on a semaphore: sync.rs, manager.rs and mod.rs of
-- pkg/kernel/src/proc.
use operating_system_experim.Prelude.{
  ℕ, ◌≡◌, refl, sym, ap, subst, ◌∙◌, ◌≢◌, inl, inr, true, none, some, List, [], ◌∷◌, ◌++◌,
  append-nil, arith, ◌==◌, if◌then◌else◌, Option-cases, is_some, All, length, ◌≤◌, lookup, insert,
  lookup-insert_self, lookup-insert_ne, update,
}
use operating_system_experim.Proc.Sync.{Semaphore}
use operating_system_experim.Proc.World.{Machine, Context, Process, World, ProcessData, pause}
use operating_system_experim.Proc.Manager.{get_proc, put_proc, push_ready, kill}
use operating_system_experim.Proc.Calls.{sem_signal}
use operating_system_experim.Proc.Calls.Doom.{IsOther, Doomed, clocks-panic}
use operating_system_experim.Proc.Calls.Fairness.{clocks}
use operating_system_experim.Proc.Calls.Entries.{Core, core, core_of}
use operating_system_experim.Proc.Calls.Exit.{ended, member, kill-core, kill-queue, kill-keeps}

module _ {m : Machine} where
  entry_of :
      (k : ℕ) (w : World m) (c : Core m.Vm)
      → core_of k w ≡ some c
      → (p : Process m) × (lookup k w.processes ≡ some p) × (core p ≡ c)
  entry_of k w c e = elim (Option-cases (lookup k w.processes)) [
    | inl gone ↦ absurd (ground arith)
    | inr (p, f) ↦ (p, f, ground arith)
  ]

  -- A signal that wakes a process which has no memory any more.
  module _ (w : World m) (self p : Process m) (d : ProcessData) (q key : ℕ) (s : Semaphore)
      (rest : List ℕ) (context : Context) (real : w.cpu ≢ 0) (other : w.cpu ≢ q)
      (self_found : lookup w.cpu w.processes ≡ some self) (has_data : self.proc_data ≡ some d)
      (found : lookup q w.processes ≡ some p) (no_vm : p.proc_vm ≡ none)
      (there : lookup key (w.semaphores d.semaphores) ≡ some s) (first : s.wait_queue ≡ q ∷ rest)
      (others : All (IsOther q) w.ready_queue) where
    woken : World m
    woken = push_ready q (
        put_proc q (pause p) (record w {
          semaphores =
              update w.semaphores d.semaphores
                (insert key (record s { wait_queue = rest }) (w.semaphores d.semaphores));
        }))

    signal-woken : sem_signal key context w ≡ some (context, woken)
    unfolding sem_signal woken
    signal-woken = ground arith

    woken-Doomed : Doomed q woken
    unfolding woken
    woken-Doomed = record {
      real = real;
      elsewhere = other;
      current_found =
          ap is_some
            (lookup-insert_ne q w.cpu (pause p) w.processes (λ e. other (sym e)) ∙ self_found);
      entry = pause p;
      found = lookup-insert_self q (pause p) w.processes;
      is_in = refl;
      no_vm = no_vm;
    }

    clocks-woken :
        (n : ℕ) (contexts : ℕ → Context) → length w.ready_queue ≤ n → clocks contexts n woken ≡ none
    unfolding woken
    clocks-woken n contexts le =
        clocks-panic q n woken contexts w.ready_queue [] woken-Doomed refl others le

  -- What a kill leaves when nobody waits for the process.
  kill-core_alone :
      (k q ret : ℕ) (p : Process m) (w : World m)
      → get_proc q w ≡ some p
      → lookup q w.wait_queue ≡ none
      → core_of k (kill q ret w) ≡ (if q == k then some (ended ret (core p)) else core_of k w)
  unfolding member
  kill-core_alone k q ret p w found alone = ground (arith, kill-core k q ret p w found)

  kill-queue_alone :
      (q ret : ℕ) (p : Process m) (w : World m)
      → get_proc q w ≡ some p
      → lookup q w.wait_queue ≡ none
      → (kill q ret w).ready_queue ≡ w.ready_queue
  kill-queue_alone q ret p w found alone =
      (kill-queue q ret p w found (
        subst (λ o. All (λ k. is_some (core_of k w) ≡ true) (elim o [ none ↦ [] | some ws ↦ ws ]))
          (sym alone) tt)).0
      ∙ ap (λ o. w.ready_queue ++ elim o [ none ↦ [] | some ws ↦ ws ]) alone
      ∙ append-nil w.ready_queue

  -- A process `q` other than the running one is killed while it is the first to wait on a semaphore of
  -- the running one, nobody waits for its exit, and the ready queue holds neither it nor 0. The next
  -- signal on the semaphore makes it ready again, and the kernel panics at the latest at the interrupt
  -- of the timer that follows one for each process of the ready queue, since `q` has no address space,
  -- if nothing but the timer interrupts the processes.
  pub signal-kill_panics :
      (w : World m) (self p : Process m) (d : ProcessData) (q key ret n : ℕ) (s : Semaphore)
      (rest : List ℕ) (context : Context) (contexts : ℕ → Context)
      → w.cpu ≢ 0
      → w.cpu ≢ q
      → get_proc w.cpu w ≡ some self
      → self.proc_data ≡ some d
      → get_proc q w ≡ some p
      → lookup q w.wait_queue ≡ none
      → lookup key (w.semaphores d.semaphores) ≡ some s
      → s.wait_queue ≡ q ∷ rest
      → All (IsOther q) w.ready_queue
      → length w.ready_queue ≤ n
      → (w' : World m) × (sem_signal key context (kill q ret w) ≡ some (context, w'))
        × (clocks contexts n w' ≡ none)
  signal-kill_panics w self p d q key ret n s rest context contexts real other here has_d found
        alone there first others enough =
      let w1 = kill q ret w in
      let kept = kill-keeps q ret p w found in
      let cpu_core : core_of w1.cpu w1 ≡ some (core self) =
        ground (arith, kept, kill-core_alone w.cpu q ret p w found alone) in
      let q_core : core_of q w1 ≡ some (ended ret (core p)) =
        ground (arith, kill-core_alone q q ret p w found alone) in
      let (self', self_found, self_same) = entry_of w1.cpu w1 (core self) cpu_core in
      let (p', p_found, p_same) = entry_of q w1 (ended ret (core p)) q_core in
      let queue : w1.ready_queue ≡ w.ready_queue = kill-queue_alone q ret p w found alone in
      let real' : w1.cpu ≢ 0 = ground (arith, kept) in
      let other' : w1.cpu ≢ q = ground (arith, kept) in
      let has_d' : self'.proc_data ≡ some d = ap (λ c. c.proc_data) self_same ∙ has_d in
      let there' : lookup key (w1.semaphores d.semaphores) ≡ some s =
        ap (λ f. lookup key (f d.semaphores)) kept.0 ∙ there in
      let no_vm : p'.proc_vm ≡ none = ap (λ c. c.proc_vm) p_same in
      let others' : All (IsOther q) w1.ready_queue = subst (All (IsOther q)) (sym queue) others in
      let enough' : length w1.ready_queue ≤ n = subst (λ l. length l ≤ n) (sym queue) enough in
      (
        woken w1 self' p' d q key s rest context real' other' self_found has_d' p_found no_vm there'
            first others',
        signal-woken w1 self' p' d q key s rest context real' other' self_found has_d' p_found no_vm
            there' first others',
        clocks-woken w1 self' p' d q key s rest context real' other' self_found has_d' p_found no_vm
            there' first others' n contexts enough',
      )
