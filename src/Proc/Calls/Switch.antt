-- ===== src/Proc/Calls/Switch.antt =====
-- Switching processes: which process is taken from the ready queue, that a switch does not panic,
-- and that a process goes on with the context with which it stopped.
use operating_system_experim.Prelude.{
  ℕ, ◌+◌, ◌%◌, ◌^◌, ◌≡◌, refl, ap, ◌∙◌, ◌≢◌, inl, inr, true, false, Option, none, some, List, [],
  ◌∷◌, ◌++◌, append_assoc, arith, ◌==◌, ==→ne, Bool-cases, Option-cases, is_some, All, All-append,
  All-map, Map, lookup, insert, lookup-insert, lookup-insert_self,
}
use operating_system_experim.Proc.World.{
  Machine, Context, ready, running, Process, World, tick, save, is_ready,
}
use operating_system_experim.Proc.Manager.{get_proc, push_ready, switch_loop}
use operating_system_experim.Proc.Calls.{switch}

module _ {m : Machine} where
  -- A process of the queue that is in the table and not ready.
  abbrev pub Skipped : Map (Process m) → ℕ → Type 0
  Skipped table pid = (p : Process m) × (lookup pid table ≡ some p) × (is_ready p ≡ false)

  -- A process that can be restored.
  pub record Runnable (table : Map (Process m)) (pid : ℕ) : Type 0 where
    pub entry : Process m
    pub vm : m.Vm
    pub found : lookup pid table ≡ some entry
    pub is_in : entry.status ≡ ready
    pub has_vm : entry.proc_vm ≡ some vm

  -- The processor's state after `pid`, with the rest of the queue, has been restored.
  abbrev pub resumed :
      (w : World m) (pid : ℕ) → Runnable w.processes pid → List ℕ → Context × World m
  resumed w pid r rest = (
    r.entry.context,
    record w {
      processes = insert pid (record r.entry { status = running }) w.processes;
      ready_queue = rest;
      cpu = pid;
      memory = m.load r.vm w.memory;
    },
  )

  pub switch_loop-skips :
      (w : World m) (context : Context) (skipped queue : List ℕ)
      → All (Skipped w.processes) skipped
      → switch_loop (skipped ++ queue) context w ≡ switch_loop queue context w
  unfolding switch_loop
  switch_loop-skips w context [] queue h = refl
  switch_loop-skips w context (pid ∷ skipped) queue ((p, e, r), h) =
      rw (e, switch_loop) (rw (r, switch_loop) (switch_loop-skips w context skipped queue h))

  pub switch_loop-resumes :
      (w : World m) (context : Context) (pid : ℕ) (rest : List ℕ) (r : Runnable w.processes pid)
      → w.cpu ≢ pid
      → switch_loop (pid ∷ rest) context w ≡ some (resumed w pid r rest)
  unfolding switch_loop
  switch_loop-resumes w context pid rest r ne = ground arith

  pub switch_loop-panics :
      (w : World m) (context : Context) (pid : ℕ) (p : Process m) (rest : List ℕ)
      → lookup pid w.processes ≡ some p
      → is_ready p ≡ true
      → p.proc_vm ≡ none
      → w.cpu ≢ pid
      → switch_loop (pid ∷ rest) context w ≡ none
  unfolding switch_loop
  switch_loop-panics w context pid p rest e r gone ne = ground arith

  -- The state after the current process is saved, before it joins the ready queue: its entry has the
  -- registers of the interrupt, one tick more, and is ready.
  abbrev pub saved : Context → Process m → World m → World m
  saved context p w = record w {
    processes =
        insert w.cpu
          (record p {
            context = context;
            status = ready;
            ticks_passed = (p.ticks_passed + 1) % 2 ^ 64;
          })
          w.processes;
  }

  pub switch-eq-loop :
      (w : World m) (context : Context) (self : Process m)
      → w.cpu ≢ 0
      → get_proc w.cpu w ≡ some self
      → switch context w
        ≡ switch_loop
            (w.ready_queue ++ w.cpu ∷ [])
            context
            (push_ready w.cpu (saved context self w))
  unfolding switch
  switch-eq-loop w context self real found = ground arith

  -- Where the current process is in the table and another one of the queue is ready and has an address
  -- space: `switch` keeps the registers of the current process in its entry, makes it ready, counts a
  -- tick and puts it at the end of the ready queue; it goes on with the first ready process of the
  -- queue and its registers, and those before that one, none of them ready, are dropped.
  pub switch-resumes :
      (w : World m) (context : Context) (self : Process m) (skipped : List ℕ) (pid : ℕ)
      (rest : List ℕ) (r : Runnable (saved context self w).processes pid)
      → w.cpu ≢ 0
      → get_proc w.cpu w ≡ some self
      → w.ready_queue ≡ skipped ++ (pid ∷ rest)
      → All (Skipped (saved context self w).processes) skipped
      → w.cpu ≢ pid
      → switch context w ≡ some (resumed (saved context self w) pid r (rest ++ w.cpu ∷ []))
  unfolding switch
  switch-resumes w context self skipped pid rest r real found queue skip ne =
      switch-eq-loop w context self real found
      ∙ ap (λ q. switch_loop (q ++ w.cpu ∷ []) context w1) queue
      ∙ ap (λ q. switch_loop q context w1) (append_assoc skipped (pid ∷ rest) (w.cpu ∷ []))
      ∙ switch_loop-skips w1 context skipped (pid ∷ (rest ++ w.cpu ∷ [])) skip
      ∙ switch_loop-resumes w1 context pid (rest ++ w.cpu ∷ []) r ne
    where
      w1 : World m
      w1 = push_ready w.cpu (saved context self w)

  pub record Live (w : World m) : Type 0 where
    pub real : w.cpu ≢ 0
    pub self_found : is_some (lookup w.cpu w.processes) ≡ true
    pub self_vm : (p : Process m) → lookup w.cpu w.processes ≡ some p → is_some p.proc_vm ≡ true
    pub no_zero : lookup 0 w.processes ≡ none
    pub queued : All (λ pid. is_some (lookup pid w.processes) ≡ true) w.ready_queue
    pub alive :
        (pid : ℕ) (p : Process m)
        → lookup pid w.processes ≡ some p
        → is_ready p ≡ true
        → is_some p.proc_vm ≡ true

  still_in_table :
      (w : World m) (pid : ℕ) (p : Process m) (queue : List ℕ)
      → All (λ k. is_some (lookup k w.processes) ≡ true) queue
      → All (λ k. is_some (lookup k (insert pid p w.processes)) ≡ true) queue
  still_in_table w pid p queue h =
      All-map (λ k. is_some (lookup k w.processes) ≡ true)
        (λ k. is_some (lookup k (insert pid p w.processes)) ≡ true)
        (λ k e. ground (arith, lookup-insert pid k p w.processes)) queue h

  pub resume-Live :
      (w : World m) (pid : ℕ) (p : Process m) (vm : m.Vm) (rest : List ℕ)
      → Live w
      → lookup pid w.processes ≡ some p
      → p.proc_vm ≡ some vm
      → All (λ k. is_some (lookup k w.processes) ≡ true) rest
      → Live (record w {
        processes = insert pid (record p { status = running }) w.processes;
        ready_queue = rest;
        cpu = pid;
        memory = m.load vm w.memory;
      })
  resume-Live w pid p vm rest v e has h = record {
    real = λ z. ground (arith, v.no_zero);
    self_found = ground (arith, lookup-insert_self pid (record p { status = running }) w.processes);
    self_vm =
        λ q f. ground (arith, lookup-insert_self pid (record p { status = running }) w.processes);
    no_zero =
        ground (arith, lookup-insert pid 0 (record p { status = running }) w.processes, v.no_zero);
    queued = still_in_table w pid (record p { status = running }) rest h;
    alive = λ k q f r.
        ground
          (arith, lookup-insert pid k (record p { status = running }) w.processes, v.alive k q);
  }

  pub requeue-Live :
      (w : World m) (queue : List ℕ)
      → Live w
      → All (λ k. is_some (lookup k w.processes) ≡ true) queue
      → Live (record w { ready_queue = queue })
  requeue-Live w queue v h = record {
    real = v.real;
    self_found = v.self_found;
    self_vm = v.self_vm;
    no_zero = v.no_zero;
    queued = h;
    alive = v.alive;
  }

  Restored : Option (Context × World m) → Type 0
  Restored o = (r : Context × World m) × (o ≡ some r) × Live r.1

  take-Live :
      (w : World m) (context : Context) (pid : ℕ) (p : Process m) (queue : List ℕ)
      → Live w
      → lookup pid w.processes ≡ some p
      → is_ready p ≡ true
      → All (λ k. is_some (lookup k w.processes) ≡ true) queue
      → Restored (switch_loop (pid ∷ queue) context w)
  unfolding Restored switch_loop
  take-Live w context pid p queue v e r h = elim (Bool-cases (w.cpu == pid)) [
    | inl same ↦
        ((context, record w { ready_queue = queue }), ground arith, requeue-Live w queue v h)
    | inr other ↦ elim (Option-cases p.proc_vm) [
      | inl gone ↦ absurd (ground (arith, v.alive pid p e r))
      | inr (vm, has) ↦
          let run : Runnable w.processes pid = record {
            entry = p;
            vm = vm;
            found = e;
            is_in = ground arith;
            has_vm = has;
          } in
          (
            resumed w pid run queue,
            switch_loop-resumes w context pid queue run (==→ne w.cpu pid other),
            resume-Live w pid p vm queue v e has h,
          )
    ]
  ]

  loop-Live :
      (w : World m) (context : Context) (queue : List ℕ)
      → Live w
      → All (λ k. is_some (lookup k w.processes) ≡ true) queue
      → Restored (switch_loop queue context w)
  unfolding switch_loop Restored
  loop-Live w context [] v h =
      ((context, record w { ready_queue = [] }), refl, requeue-Live w [] v tt)
  loop-Live w context (pid ∷ queue) v (here, h) = elim (Option-cases (lookup pid w.processes)) [
    | inl gone ↦ absurd (ground arith)
    | inr (p, e) ↦ elim (Bool-cases (is_ready p)) [
      | inl r ↦ take-Live w context pid p queue v e r h
      | inr skip ↦ rw (e, switch_loop) (rw (skip, switch_loop) (loop-Live w context queue v h))
    ]
  ]

  pub saved-Live :
      (w : World m) (context : Context) (self : Process m)
      → Live w
      → lookup w.cpu w.processes ≡ some self
      → Live (push_ready w.cpu (saved context self w))
  saved-Live w context self v e = record {
    real = v.real;
    self_found = ground (arith, lookup-insert_self w.cpu (save context (tick self)) w.processes);
    self_vm = λ p f.
        ground (
          arith,
          lookup-insert_self w.cpu (save context (tick self)) w.processes,
          v.self_vm self e,
        );
    no_zero =
        ground
          (arith, lookup-insert w.cpu 0 (save context (tick self)) w.processes, v.no_zero, v.real);
    queued =
        All-append (λ k. is_some (lookup k (saved context self w).processes) ≡ true) w.ready_queue
          (w.cpu ∷ []) (still_in_table w w.cpu (save context (tick self)) w.ready_queue v.queued)
          (ground (arith, lookup-insert_self w.cpu (save context (tick self)) w.processes), tt);
    alive = λ k p f r. ground (
      arith,
      lookup-insert w.cpu k (save context (tick self)) w.processes,
      v.alive k p,
      v.self_vm self e,
    );
  }

  -- `Live`: the current process is in the table and has an address space, pid 0 is unused, every
  -- queued pid is in the table, and every ready process has an address space. Then `switch` does
  -- not panic, and `Live` holds again.
  pub switch-Live :
      (w : World m) (context : Context)
      → Live w
      → (r : Context × World m) × (switch context w ≡ some r) × Live r.1
  unfolding Restored
  switch-Live w context v = elim (Option-cases (lookup w.cpu w.processes)) [
    | inl gone ↦ absurd (ground (arith, v.self_found))
    | inr (self, e) ↦
        let w1 = push_ready w.cpu (saved context self w) in
        let go : Restored (switch_loop w1.ready_queue context w1) =
          loop-Live w1 context w1.ready_queue (saved-Live w context self v e)
            (saved-Live w context self v e).queued in
        (go.0, switch-eq-loop w context self v.real e ∙ go.1, go.2)
  ]
