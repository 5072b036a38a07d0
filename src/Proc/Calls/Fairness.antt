-- ===== src/Proc/Calls/Fairness.antt =====
-- How long a ready process waits for the processor: the timer's switches, pkg/kernel/src/interrupt/clock.rs
-- and pkg/kernel/src/proc/manager.rs.
use operating_system_experim.Prelude.{
  ℕ, zero, suc, ◌≤◌, ◌<◌, ◌≡◌, refl, sym, ap, subst, ◌∙◌, ◌≢◌, ◌⊎◌, inl, inr, true, Option, some,
  List, [], ◌∷◌, ◌++◌, append_assoc, arith, ◌==◌, ==→eq, ==→ne, Bool-cases, Option-cases, is_some,
  length, All, lookup, insert, lookup-insert, ◌>>=◌,
}
use operating_system_experim.Proc.World.{
  Machine, Context, ready, running, Process, World, is_ready, save, tick,
}
use operating_system_experim.Proc.Manager.{push_ready, switch_loop}
use operating_system_experim.Proc.Calls.{switch, clock}
use operating_system_experim.Proc.Calls.Switch.{
  Runnable, Live, resumed, saved, switch_loop-resumes, switch-eq-loop, resume-Live, requeue-Live,
  saved-Live,
}

module _ {m : Machine} where
  -- `n` + 1 interrupts of the timer; `contexts i` are the registers when the one of number `i` comes.
  unfoldable pub clocks : (ℕ → Context) → ℕ → World m → Option (Context × World m)
  clocks contexts zero w = clock (contexts 0) w
  clocks contexts (suc n) w = do (_, w1) ← clock (contexts 0) w; clocks (λ i. contexts (suc i)) n w1

  module _ (pid : ℕ) (entry : Process m) where
    -- The process is in the ready queue, with fewer than `n` before it, and not running.
    pub record Waits (w : World m) (n : ℕ) : Type 0 where
      pub before : List ℕ
      pub after : List ℕ
      pub queue : w.ready_queue ≡ before ++ (pid ∷ after)
      pub near : length before < n
      pub elsewhere : w.cpu ≢ pid
      pub found : lookup pid w.processes ≡ some entry

    -- The processor goes on with the process, and with its registers.
    abbrev pub Runs : Context × World m → Type 0
    Runs r = (r.0 ≡ entry.context) × (r.1.cpu ≡ pid)

    Advances : ℕ → Option (Context × World m) → Type 0
    Advances n o = (r : Context × World m) × (o ≡ some r) × Live r.1 × (Runs r ⊎ Waits r.1 n)

    module _ (vm : m.Vm) (is_in : entry.status ≡ ready) (has_vm : entry.proc_vm ≡ some vm) where
      -- After `q` has been restored, it is the process, or the process still waits.
      chosen :
          (w : World m) (q : ℕ) (p : Process m) (vm' : m.Vm) (before after : List ℕ)
          → lookup q w.processes ≡ some p
          → lookup pid w.processes ≡ some entry
          → let w' : World m = record w {
            processes = insert q (record p { status = running }) w.processes;
            ready_queue = before ++ (pid ∷ after);
            cpu = q;
            memory = m.load vm' w.memory;
          } in
            Runs (p.context, w') ⊎ Waits w' (suc (length before))
      chosen w q p vm' before after e found = elim (Bool-cases (q == pid)) [
        | inl same ↦ inl (ground (arith, e, found, same), ==→eq q pid same)
        | inr differs ↦ inr (record {
          before = before;
          after = after;
          queue = refl;
          near = omega arith;
          elsewhere = ==→ne q pid differs;
          found = ground (arith, lookup-insert q pid (record p { status = running }) w.processes);
        })
      ]

      weaken-Advances :
          (k n : ℕ) (o : Option (Context × World m)) → k ≤ n → Advances k o → Advances n o
      unfolding Advances
      weaken-Advances k n o le (r, e, v, inl runs) = (r, e, v, inl runs)
      weaken-Advances k n o le (r, e, v, inr waits) = (
        r,
        e,
        v,
        inr (record {
          before = waits.before;
          after = waits.after;
          queue = waits.queue;
          near = omega (arith, waits.near, le);
          elsewhere = waits.elsewhere;
          found = waits.found;
        }),
      )

      take-Advances :
          (w : World m) (context : Context) (q : ℕ) (p : Process m) (before after : List ℕ)
          → Live w
          → lookup q w.processes ≡ some p
          → is_ready p ≡ true
          → All (λ k. is_some (lookup k w.processes) ≡ true) (before ++ (pid ∷ after))
          → w.cpu ≢ pid
          → lookup pid w.processes ≡ some entry
          → Advances (suc (length before)) (switch_loop (q ∷ (before ++ (pid ∷ after))) context w)
      unfolding Advances switch_loop
      take-Advances w context q p before after v e r h other found =
          let queue = before ++ (pid ∷ after) in
          elim (Bool-cases (w.cpu == q)) [
            | inl same ↦ (
              (context, record w { ready_queue = queue }),
              ground arith,
              requeue-Live w queue v h,
              inr (record {
                before = before;
                after = after;
                queue = refl;
                near = omega arith;
                elsewhere = other;
                found = found;
              }),
            )
            | inr differs ↦ elim (Option-cases p.proc_vm) [
              | inl gone ↦ absurd (ground (arith, v.alive q p e r))
              | inr (vm', has) ↦
                  let run : Runnable w.processes q = record {
                    entry = p;
                    vm = vm';
                    found = e;
                    is_in = ground arith;
                    has_vm = has;
                  } in
                  (
                    resumed w q run queue,
                    switch_loop-resumes w context q queue run (==→ne w.cpu q differs),
                    resume-Live w q p vm' queue v e has h,
                    chosen w q p vm' before after e found,
                  )
            ]
          ]

      loop-Advances :
          (w : World m) (context : Context) (before after : List ℕ)
          → Live w
          → All (λ k. is_some (lookup k w.processes) ≡ true) (before ++ (pid ∷ after))
          → w.cpu ≢ pid
          → lookup pid w.processes ≡ some entry
          → Advances (length before) (switch_loop (before ++ (pid ∷ after)) context w)
      unfolding Advances switch_loop
      loop-Advances w context [] after v h other found =
          let run : Runnable w.processes pid = record {
            entry = entry;
            vm = vm;
            found = found;
            is_in = is_in;
            has_vm = has_vm;
          } in
          (
            resumed w pid run after,
            switch_loop-resumes w context pid after run other,
            resume-Live w pid entry vm after v found has_vm h.1,
            inl (refl, refl),
          )
      loop-Advances w context (q ∷ before) after v (here, h) other found =
          elim (Option-cases (lookup q w.processes)) [
            | inl gone ↦ absurd (ground arith)
            | inr (p, e) ↦ elim (Bool-cases (is_ready p)) [
              | inl r ↦ take-Advances w context q p before after v e r h other found
              | inr skip ↦
                  weaken-Advances (length before) (suc (length before))
                    (switch_loop (q ∷ (before ++ (pid ∷ after))) context w) (omega arith)
                    (rw (e, switch_loop)
                      (rw (skip, switch_loop)
                        (loop-Advances w context before after v h other found)))
            ]
          ]

      switch-Advances :
          (w : World m) (context : Context) (n : ℕ)
          → Live w
          → Waits w (suc n)
          → Advances n (switch context w)
      unfolding Advances
      switch-Advances w context n v waits = elim (Option-cases (lookup w.cpu w.processes)) [
        | inl gone ↦ absurd (ground (arith, v.self_found))
        | inr (self, e) ↦
            let w1 = push_ready w.cpu (saved context self w) in
            let live = saved-Live w context self v e in
            let rest = waits.after ++ (w.cpu ∷ []) in
            let queued : w1.ready_queue ≡ waits.before ++ (pid ∷ rest) =
              ap (λ q. q ++ (w.cpu ∷ [])) waits.queue
              ∙ append_assoc waits.before (pid ∷ waits.after) (w.cpu ∷ []) in
            let kept : lookup pid w1.processes ≡ some entry = ground (
              arith,
              lookup-insert w.cpu pid (save context (tick self)) w.processes,
              waits.found,
              waits.elsewhere,
            ) in
            subst (λ o. Advances n o)
              (sym (
                switch-eq-loop w context self v.real e ∙ ap (λ q. switch_loop q context w1) queued))
              (weaken-Advances (length waits.before) n
                (switch_loop (waits.before ++ (pid ∷ rest)) context w1) (omega (arith, waits.near))
                (loop-Advances w1 context waits.before rest live
                  (subst (λ q. All (λ k. is_some (lookup k w1.processes) ≡ true) q) queued
                    live.queued)
                  waits.elsewhere kept))
      ]

      -- In a live world (`Live` of Proc.Calls.Switch), a ready process of the queue that has its memory
      -- gets the processor, with its own registers, after at most as many interrupts of the timer
      -- as there are processes before it in the queue, and one more; whatever the registers are
      -- when the interrupts come.
      pub clocks-Runs :
          (contexts : ℕ → Context) (n : ℕ) (w : World m)
          → Live w
          → Waits w (suc n)
          → (k : ℕ) × (r : Context × World m) × (k ≤ n) × (clocks contexts k w ≡ some r) × Runs r
      unfolding clocks Advances
      clocks-Runs contexts zero w v waits = first (switch-Advances w (contexts 0) zero v waits)
        where
          first :
              Advances 0 (switch (contexts 0) w)
              → (k : ℕ) × (r : Context × World m) × (k ≤ 0)
                × (clocks contexts k w ≡ some r)
                × Runs r
          first (r, e, _, inl runs) = (0, r, omega arith, e, runs)
          first (r, e, _, inr waits') = absurd (omega (arith, waits'.near))
      clocks-Runs contexts (suc n) w v waits =
          next (λ w1 v1 h. clocks-Runs (λ i. contexts (suc i)) n w1 v1 h)
            (switch-Advances w (contexts 0) (suc n) v waits)
        where
          next :
              ((w1 : World m)
                → Live w1
                → Waits w1 (suc n)
                → (k : ℕ) × (r : Context × World m) × (k ≤ n)
                  × (clocks (λ i. contexts (suc i)) k w1 ≡ some r)
                  × Runs r)
              → Advances (suc n) (switch (contexts 0) w)
              → (k : ℕ) × (r : Context × World m) × (k ≤ suc n)
                × (clocks contexts k w ≡ some r)
                × Runs r
          next later (r, e, _, inl runs) = (0, r, omega arith, e, runs)
          next later (r, e, v1, inr waits') =
              let (k, r', le, ran, runs) = later r.1 v1 waits' in
              (suc k, r', omega (arith, le), rw (e) ran, runs)
