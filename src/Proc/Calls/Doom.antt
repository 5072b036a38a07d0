-- ===== src/Proc/Calls/Doom.antt =====
-- A ready process without an address space in the ready queue: the timer's switches lead to a panic, when its
-- turn comes at the latest (pkg/kernel/src/proc/manager.rs).
use operating_system_experim.Prelude.{
  ℕ, zero, suc, ◌≤◌, ◌<◌, ◌≡◌, refl, sym, ap, subst, ◌∙◌, ◌≢◌, ◌⊎◌, inl, inr, true, Option, none,
  some, List, [], ◌∷◌, ◌++◌, append_assoc, arith, ◌==◌, Bool-cases, Option-cases, is_some, length,
  All, lookup, insert, lookup-insert_ne, lookup-insert_self,
}
use operating_system_experim.Proc.World.{
  Machine, Context, Process, World, running, is_ready, save, tick,
}
use operating_system_experim.Proc.Manager.{push_ready, switch_loop}
use operating_system_experim.Proc.Calls.{switch}
use operating_system_experim.Proc.Calls.Switch.{saved, switch-eq-loop, switch_loop-panics}
use operating_system_experim.Proc.Calls.Fairness.{clocks}

-- The pid of a process other than `q`.
abbrev pub IsOther : ℕ → ℕ → Type 0
IsOther q pid = (pid ≢ 0) × (pid ≢ q)

module _ {m : Machine} (q : ℕ) where
  -- The current process is another one, and `q` is ready and has no address space.
  pub record Doomed (w : World m) : Type 0 where
    pub real : w.cpu ≢ 0
    pub elsewhere : w.cpu ≢ q
    pub current_found : is_some (lookup w.cpu w.processes) ≡ true
    pub entry : Process m
    pub found : lookup q w.processes ≡ some entry
    pub is_in : is_ready entry ≡ true
    pub no_vm : entry.proc_vm ≡ none

  -- A panic, or a state in which fewer processes than `n` stand before `q`.
  Nears : ℕ → Option (Context × World m) → Type 0
  Nears n o =
      (o ≡ none)
      ⊎ ((r : Context × World m) × (o ≡ some r)
          × Doomed r.1
          × (front : List ℕ) × (rest : List ℕ) × (r.1.ready_queue ≡ front ++ q ∷ rest)
          × All (IsOther q) front
          × (length front < n))

  weaken-Nears : (k n : ℕ) (o : Option (Context × World m)) → k ≤ n → Nears k o → Nears n o
  unfolding Nears
  weaken-Nears k n o le (inl e) = inl e
  weaken-Nears k n o le (inr (r, e, d, front, rest, queue, others, near)) =
      inr (r, e, d, front, rest, queue, others, omega (arith, near, le))

  -- After another process has been restored.
  restored-Doomed :
      (w : World m) (pid : ℕ) (p : Process m) (queue : List ℕ) (memory : m.Memory)
      → Doomed w
      → IsOther q pid
      → Doomed (record w {
        processes = insert pid p w.processes;
        ready_queue = queue;
        cpu = pid;
        memory = memory;
      })
  restored-Doomed w pid p queue memory d other = record {
    real = other.0;
    elsewhere = other.1;
    current_found = ap is_some (lookup-insert_self pid p w.processes);
    entry = d.entry;
    found = lookup-insert_ne pid q p w.processes other.1 ∙ d.found;
    is_in = d.is_in;
    no_vm = d.no_vm;
  }

  take-Nears :
      (w : World m) (context : Context) (pid : ℕ) (p : Process m) (front rest : List ℕ)
      → Doomed w
      → IsOther q pid
      → All (IsOther q) front
      → lookup pid w.processes ≡ some p
      → is_ready p ≡ true
      → Nears (suc (length front)) (switch_loop (pid ∷ (front ++ q ∷ rest)) context w)
  unfolding Nears switch_loop
  take-Nears w context pid p front rest d other others e r = elim (Bool-cases (w.cpu == pid)) [
    | inl same ↦ inr (
      (context, record w { ready_queue = front ++ q ∷ rest }),
      ground arith,
      record {
        real = d.real;
        elsewhere = d.elsewhere;
        current_found = d.current_found;
        entry = d.entry;
        found = d.found;
        is_in = d.is_in;
        no_vm = d.no_vm;
      },
      front,
      rest,
      refl,
      others,
      omega arith,
    )
    | inr differs ↦ elim (Option-cases p.proc_vm) [
      | inl gone ↦ inl (ground arith)
      | inr (vm, has) ↦ inr (
        (
          p.context,
          record w {
            processes = insert pid (record p { status = running }) w.processes;
            ready_queue = front ++ q ∷ rest;
            cpu = pid;
            memory = m.load vm w.memory;
          },
        ),
        ground arith,
        restored-Doomed w pid (record p { status = running }) (front ++ q ∷ rest)
            (m.load vm w.memory) d other,
        front,
        rest,
        refl,
        others,
        omega arith,
      )
    ]
  ]

  loop-Nears :
      (front rest : List ℕ) (context : Context) (w : World m)
      → Doomed w
      → All (IsOther q) front
      → Nears (length front) (switch_loop (front ++ q ∷ rest) context w)
  unfolding Nears switch_loop
  loop-Nears [] rest context w d others =
      inl (switch_loop-panics w context q d.entry rest d.found d.is_in d.no_vm d.elsewhere)
  loop-Nears (pid ∷ front) rest context w d (other, others) =
      elim (Option-cases (lookup pid w.processes)) [
        | inl gone ↦ inl (ground arith)
        | inr (p, e) ↦ elim (Bool-cases (is_ready p)) [
          | inl r ↦ take-Nears w context pid p front rest d other others e r
          | inr skip ↦
              rw (e, switch_loop)
                (rw (skip, switch_loop)
                  (weaken-Nears (length front) (suc (length front))
                    (switch_loop (front ++ q ∷ rest) context w) (omega arith)
                    (loop-Nears front rest context w d others)))
        ]
      ]

  switch-Nears :
      (w : World m) (context : Context) (front rest : List ℕ)
      → Doomed w
      → w.ready_queue ≡ front ++ q ∷ rest
      → All (IsOther q) front
      → Nears (length front) (switch context w)
  switch-Nears w context front rest d queue others =
      elim (Option-cases (lookup w.cpu w.processes)) [
        | inl gone ↦ absurd (ground (arith, d.current_found))
        | inr (self, e) ↦
            let w1 = push_ready w.cpu (saved context self w) in
            let d1 : Doomed w1 = record {
              real = d.real;
              elsewhere = d.elsewhere;
              current_found =
                  ap is_some (lookup-insert_self w.cpu (save context (tick self)) w.processes);
              entry = d.entry;
              found =
                  lookup-insert_ne w.cpu q (save context (tick self)) w.processes d.elsewhere
                  ∙ d.found;
              is_in = d.is_in;
              no_vm = d.no_vm;
            } in
            let split : switch context w
                ≡ switch_loop (front ++ q ∷ (rest ++ w.cpu ∷ [])) context w1 =
              switch-eq-loop w context self d.real e
              ∙ ap (λ l. switch_loop (l ++ w.cpu ∷ []) context w1) queue
              ∙ ap (λ l. switch_loop l context w1) (append_assoc front (q ∷ rest) (w.cpu ∷ [])) in
            subst (Nears (length front)) (sym split)
              (loop-Nears front (rest ++ w.cpu ∷ []) context w1 d1 others)
      ]

  -- The interrupts of the timer from such a state on.
  pub clocks-panic :
      (n : ℕ) (w : World m) (contexts : ℕ → Context) (front rest : List ℕ)
      → Doomed w
      → w.ready_queue ≡ front ++ q ∷ rest
      → All (IsOther q) front
      → length front ≤ n
      → clocks contexts n w ≡ none
  unfolding clocks Nears
  clocks-panic zero w contexts front rest d queue others le =
      elim (switch-Nears w (contexts 0) front rest d queue others) [
        | inl e ↦ e
        | inr (r, e, d', front', rest', queue', others', near) ↦ absurd (omega (arith, near, le))
      ]
  clocks-panic (suc n) w contexts front rest d queue others le =
      elim (switch-Nears w (contexts 0) front rest d queue others) [
        | inl e ↦ rw e
        | inr (r, e, d', front', rest', queue', others', near) ↦ rw e (
            clocks-panic n r.1 (λ i. contexts (suc i)) front' rest' d' queue' others'
              (omega (arith, near, le)))
      ]
