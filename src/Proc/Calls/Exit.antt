-- ===== src/Proc/Calls/Exit.antt =====
-- The end of a process: what `kill` does to each process, and how the exit code reaches those
-- that wait for it (manager.rs and mod.rs of pkg/kernel/src/proc).
use operating_system_experim.Prelude.{
  ℕ, ◌≡◌, refl, sym, ap, ◌∙◌, inl, inr, Bool, true, false, ◌||◌, Option, none, some, List, [], ◌∷◌,
  ◌++◌, append-nil, append_assoc, arith, ◌==◌, if◌then◌else◌, Option-cases, is_some, All, All-map,
  lookup, erase, lookup-insert, lookup-erase,
}
use operating_system_experim.Proc.World.{
  Machine, Context, set_rax, ready, dead, Process, World, pause, set_return,
}
use operating_system_experim.Proc.Manager.{
  get_proc, get_exit_code, kill_process, kill, wake_up, wake_all,
}
use operating_system_experim.Proc.Calls.{wait_pid}
use operating_system_experim.Proc.Calls.Entries.{
  Core, core, core_of, kill_process-Kept, kill_process-core,
}

-- What a wake-up with a return value makes of a process, whatever it was.
abbrev pub revive : {Vm : Type 0} → ℕ → Option (Core Vm) → Option (Core Vm)
revive ret none = none
revive ret (some c) = some (record c { status = ready; context = set_rax ret c.context })

-- What the end of a process leaves of it: its registers and its exit code.
abbrev pub ended : {Vm : Type 0} → ℕ → Core Vm → Core Vm
ended ret c = record {
  status = dead;
  context = c.context;
  exit_code = some ret;
  proc_data = none;
  proc_vm = none;
}

unfoldable pub member : ℕ → List ℕ → Bool
member k [] = false
member k (q ∷ qs) = q == k || member k qs

abbrev pub waiters_of : {m : Machine} → ℕ → World m → List ℕ
waiters_of pid w = elim (lookup pid w.wait_queue) [ none ↦ [] | some ws ↦ ws ]

module _ {m : Machine} where
  wake_up-core :
      (k q ret : ℕ) (w : World m)
      → core_of k (wake_up q (some ret) w)
        ≡ (if q == k then revive ret (core_of k w) else core_of k w)
  unfolding wake_up
  wake_up-core k q ret w = elim (Option-cases (lookup q w.processes)) [
    | inl e ↦ ground arith
    | inr (p, e) ↦ ground (arith, lookup-insert q k (pause (set_return ret p)) w.processes)
  ]

  wake_all-core :
      (k ret : ℕ) (ws : List ℕ) (w : World m)
      → core_of k (wake_all ws ret w)
        ≡ (if member k ws then revive ret (core_of k w) else core_of k w)
  unfolding wake_all member
  wake_all-core k ret [] w = refl
  wake_all-core k ret (q ∷ ws) w =
      ground (arith, wake_all-core k ret ws (wake_up q (some ret) w), wake_up-core k q ret w)

  -- `kill` on a process of the table, for each process `k`: the process killed is dead, with the
  -- exit code and without its memory and data; those that wait for it get the code as their return
  -- value and are ready; no other process changes its status, registers, exit code, data or memory.
  pub kill-core :
      (k pid ret : ℕ) (p : Process m) (w : World m)
      → get_proc pid w ≡ some p
      → let before = if pid == k then some (ended ret (core p)) else core_of k w in
        core_of k (kill pid ret w)
        ≡ (if member k (waiters_of pid w) then revive ret before else before)
  unfolding kill
  kill-core k pid ret p w e =
      let w1 = kill_process pid ret p w in
      ground (
        arith,
        kill_process-Kept pid ret p w,
        kill_process-core k pid ret p w,
        wake_all-core k ret (waiters_of pid w) (record w1 { wait_queue = erase pid w1.wait_queue }),
      )

  get_exit_code-kill :
      (pid ret : ℕ) (p : Process m) (w : World m)
      → get_proc pid w ≡ some p
      → get_exit_code pid (kill pid ret w) ≡ some ret
  get_exit_code-kill pid ret p w e = ground (arith, kill-core pid pid ret p w e)

  -- When a process of the table has been killed, `wait_pid` on it answers its exit code at once and
  -- changes nothing else.
  pub wait_pid-kill :
      (pid ret : ℕ) (p : Process m) (w : World m) (context : Context)
      → get_proc pid w ≡ some p
      → wait_pid pid context (kill pid ret w) ≡ some (set_rax ret context, kill pid ret w)
  unfolding wait_pid
  wait_pid-kill pid ret p w context e = rw (get_exit_code-kill pid ret p w e, wait_pid)

  wake_up-queue :
      (q ret : ℕ) (w : World m)
      → is_some (core_of q w) ≡ true
      → (wake_up q (some ret) w).ready_queue ≡ w.ready_queue ++ q ∷ []
  unfolding wake_up
  wake_up-queue q ret w h = ground arith

  wake_all-queue :
      (ret : ℕ) (ws : List ℕ) (w : World m)
      → All (λ k. is_some (core_of k w) ≡ true) ws
      → (wake_all ws ret w).ready_queue ≡ w.ready_queue ++ ws
  unfolding wake_all
  wake_all-queue ret [] w h = sym (append-nil w.ready_queue)
  wake_all-queue ret (q ∷ ws) w (here, h) =
      wake_all-queue ret ws (wake_up q (some ret) w) (
        All-map (λ k. is_some (core_of k w) ≡ true)
          (λ k. is_some (core_of k (wake_up q (some ret) w)) ≡ true)
          (λ k e. ground (arith, wake_up-core k q ret w)) ws h)
      ∙ ap (λ l. l ++ ws) (wake_up-queue q ret w here)
      ∙ append_assoc w.ready_queue (q ∷ []) ws

  wake_all-keeps :
      (ret : ℕ) (ws : List ℕ) (w : World m)
      → ((wake_all ws ret w).wait_queue ≡ w.wait_queue)
        × ((wake_all ws ret w).semaphores ≡ w.semaphores)
        × ((wake_all ws ret w).cpu ≡ w.cpu)
  unfolding wake_all wake_up
  wake_all-keeps ret [] w = (refl, refl, refl)
  wake_all-keeps ret (q ∷ ws) w = ground (arith, wake_all-keeps ret ws (wake_up q (some ret) w))

  -- If those that wait for the process are all in the table of processes, `kill` puts them at the
  -- end of the ready queue, in the order in which the table of waiters has them, and forgets them
  -- as waiters.
  pub kill-queue :
      (pid ret : ℕ) (p : Process m) (w : World m)
      → get_proc pid w ≡ some p
      → All (λ k. is_some (core_of k w) ≡ true) (waiters_of pid w)
      → ((kill pid ret w).ready_queue ≡ w.ready_queue ++ waiters_of pid w)
        × (lookup pid (kill pid ret w).wait_queue ≡ none)
  unfolding kill
  kill-queue pid ret p w e h = ground (
    arith,
    kill_process-Kept pid ret p w,
    wake_all-queue ret (waiters_of pid w) w2 found,
    wake_all-keeps ret (waiters_of pid w) w2,
    append-nil w.ready_queue,
    lookup-erase pid pid w1.wait_queue,
  )
    where
      w1 : World m
      w1 = kill_process pid ret p w

      w2 : World m
      w2 = record w1 { wait_queue = erase pid w1.wait_queue }

      found : All (λ k. is_some (core_of k w2) ≡ true) (waiters_of pid w)
      found =
          All-map (λ k. is_some (core_of k w) ≡ true) (λ k. is_some (core_of k w2) ≡ true)
            (λ k f. ground (arith, kill_process-core k pid ret p w)) (waiters_of pid w) h

  pub kill-keeps :
      (pid ret : ℕ) (p : Process m) (w : World m)
      → get_proc pid w ≡ some p
      → ((kill pid ret w).semaphores ≡ w.semaphores) × ((kill pid ret w).cpu ≡ w.cpu)
  unfolding kill
  kill-keeps pid ret p w e =
      let w1 = kill_process pid ret p w in
      ground (
        arith,
        kill_process-Kept pid ret p w,
        wake_all-keeps ret (waiters_of pid w) (record w1 { wait_queue = erase pid w1.wait_queue }),
      )
