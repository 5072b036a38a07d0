-- ===== src/Proc/Calls/Entries.antt =====
-- Entries of the process table under the steps of `kill` (manager.rs and process.rs of
-- pkg/kernel/src/proc): what they keep of the other processes and of the rest of the state.
use operating_system_experim.Prelude.{
  ℕ, ◌≡◌, refl, ◌∙◌, inl, inr, Option, none, some, List, [], ◌∷◌, arith, ◌==◌, if◌then◌else◌,
  Bool-cases, Option-cases, lookup, lookup-insert,
}
use operating_system_experim.Proc.World.{
  Machine, Context, Process, World, ProgramStatus, ProcessData, remove_child, set_parent,
}
use operating_system_experim.Proc.Manager.{
  put_proc, modify, modify_found, reparent, parent_of, leave_family, kill_process, dead_process,
  free_vm,
}

-- What a process is but for its name, its ticks and its place in the family.
pub record Core (Vm : Type 0) : Type 0 where
  pub status : ProgramStatus
  pub context : Context
  pub exit_code : Option ℕ
  pub proc_data : Option ProcessData
  pub proc_vm : Option Vm

module _ {m : Machine} where
  abbrev pub core : Process m → Core m.Vm
  core p = record {
    status = p.status;
    context = p.context;
    exit_code = p.exit_code;
    proc_data = p.proc_data;
    proc_vm = p.proc_vm;
  }

  abbrev pub core? : Option (Process m) → Option (Core m.Vm)
  core? none = none
  core? (some p) = some (core p)

  abbrev pub core_of : ℕ → World m → Option (Core m.Vm)
  core_of k w = core? (lookup k w.processes)

  modify-core :
      (k pid : ℕ) (f : Process m → Process m) (w : World m)
      → ((p : Process m) → core (f p) ≡ core p)
      → core_of k (modify pid f w) ≡ core_of k w
  unfolding modify
  modify-core k pid f w same = elim (Option-cases (lookup pid w.processes)) [
    | inl e ↦ rw (e, modify_found)
    | inr (p, e) ↦ elim (Bool-cases (pid == k)) [
      | inl here ↦ ground (arith, lookup-insert pid k (f p) w.processes, same p)
      | inr other ↦ ground (arith, lookup-insert pid k (f p) w.processes)
    ]
  ]

  reparent-core :
      (k : ℕ) (children : List ℕ) (parent : Option ℕ) (w : World m)
      → core_of k (reparent children parent w) ≡ core_of k w
  unfolding reparent
  reparent-core k [] parent w = refl
  reparent-core k (child ∷ children) parent w =
      reparent-core k children parent (modify child (set_parent parent) w)
      ∙ modify-core k child (set_parent parent) w (λ p. refl)

  put-core :
      (k pid : ℕ) (p p' : Process m) (w : World m)
      → lookup pid w.processes ≡ some p
      → core p' ≡ core p
      → core_of k (put_proc pid p' w) ≡ core_of k w
  put-core k pid p p' w e same = ground (arith, lookup-insert pid k p' w.processes)

  parent_of-found :
      (p parent : Process m) (q : ℕ) (w : World m)
      → parent_of p w ≡ some (q, parent)
      → lookup q w.processes ≡ some parent
  unfolding parent_of
  parent_of-found p parent q w e = ground arith

  leave_family-core :
      (k pid : ℕ) (p : Process m) (w : World m) → core_of k (leave_family pid p w) ≡ core_of k w
  unfolding leave_family
  leave_family-core k pid p w = elim (Option-cases (parent_of p w)) [
    | inl e ↦ rw (e, leave_family)
    | inr ((q, parent), e) ↦ elim (Option-cases parent.exit_code) [
      | inl alive ↦
          rw (e, leave_family)
            (rw (alive, leave_family)
              (reparent-core k p.children (some q) (put_proc q (remove_child pid parent) w)
                ∙ put-core k q parent (remove_child pid parent) w (parent_of-found p parent q w e)
                    refl))
      | inr (ret, exited) ↦
          rw (e, leave_family) (rw (exited, leave_family) (reparent-core k p.children none w))
    ]
  ]

  -- The parts of the state that a change of entries leaves alone.
  pub record Kept (v w : World m) : Type 0 where
    pub ready_queue : w.ready_queue ≡ v.ready_queue
    pub wait_queue : w.wait_queue ≡ v.wait_queue
    pub cpu : w.cpu ≡ v.cpu
    pub semaphores : w.semaphores ≡ v.semaphores

  Kept-refl : (w : World m) → Kept w w
  Kept-refl w = record { ready_queue = refl; wait_queue = refl; cpu = refl; semaphores = refl }

  modify-Kept :
      (pid : ℕ) (f : Process m → Process m) (v w : World m) → Kept v w → Kept v (modify pid f w)
  unfolding modify
  modify-Kept pid f v w h = elim (Option-cases (lookup pid w.processes)) [
    | inl e ↦ rw (e, modify_found) h
    | inr (p, e) ↦ ground arith
  ]

  reparent-Kept :
      (children : List ℕ) (parent : Option ℕ) (v w : World m)
      → Kept v w
      → Kept v (reparent children parent w)
  unfolding reparent
  reparent-Kept [] parent v w h = h
  reparent-Kept (child ∷ children) parent v w h =
      reparent-Kept children parent v _ (modify-Kept child (set_parent parent) v w h)

  leave_family-Kept : (pid : ℕ) (p : Process m) (w : World m) → Kept w (leave_family pid p w)
  unfolding leave_family
  leave_family-Kept pid p w = elim (Option-cases (parent_of p w)) [
    | inl e ↦ rw (e, leave_family) (Kept-refl w)
    | inr ((q, parent), e) ↦ elim (Option-cases parent.exit_code) [
      | inl alive ↦
          rw (e, leave_family)
            (rw (alive, leave_family) (reparent-Kept p.children (some q) w _ (ground arith)))
      | inr (ret, exited) ↦
          rw (e, leave_family)
            (rw (exited, leave_family) (reparent-Kept p.children none w w (Kept-refl w)))
    ]
  ]

  pub kill_process-Kept :
      (pid ret : ℕ) (p : Process m) (w : World m) → Kept w (kill_process pid ret p w)
  unfolding kill_process
  kill_process-Kept pid ret p w = ground (arith, leave_family-Kept pid p w)

  pub kill_process-core :
      (k pid ret : ℕ) (p : Process m) (w : World m)
      → core_of k (kill_process pid ret p w)
        ≡ (if pid == k then some (core (dead_process ret p)) else core_of k w)
  unfolding kill_process
  kill_process-core k pid ret p w = ground (
    arith,
    lookup-insert pid k (dead_process ret p) (free_vm p.proc_vm (leave_family pid p w)).processes,
    leave_family-core k pid p w,
  )
