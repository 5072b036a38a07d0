-- ===== src/Proc/Sync/Permits.antt =====
-- One semaphore over a history of calls: who holds a permit, and in which order waiters are served.
use operating_system_experim.Prelude.{
  ℕ, ◌+◌, ◌^◌, ◌≤◌, ◌<◌, ◌≡◌, refl, ◌⊎◌, inr, List, [], ◌∷◌, ◌++◌, append_assoc, length, arith,
}
use operating_system_experim.Proc.Sync.{
  Semaphore, SemaphoreResult, ok, not_exist, block, wake_up, new, wait, signal,
}

pub data Call : Type 0 where
  waits : ℕ → Call
  signals : Call

-- The semaphore with what its calls have answered: the processes that got a permit at once or by a
-- wake-up, the order of those blocked and of those woken, and the number of signals.
pub record Log : Type 0 where
  pub sem : Semaphore
  pub granted : ℕ
  pub signalled : ℕ
  pub blocked : List ℕ
  pub woken : List ℕ

-- An answer that wakes a process grants it a permit.
abbrev note : Log → Semaphore × SemaphoreResult → Log
note l (s, ok) = record l { sem = s }
note l (s, not_exist) = record l { sem = s }
note l (s, block pid) = record l { sem = s; blocked = l.blocked ++ pid ∷ [] }
note l (s, wake_up pid) = record l { sem = s; granted = l.granted + 1; woken = l.woken ++ pid ∷ [] }

-- The answer `ok` to a `wait` grants a permit.
abbrev note_wait : Log → Semaphore × SemaphoreResult → Log
note_wait l (s, ok) = record l { sem = s; granted = l.granted + 1 }
note_wait l (s, not_exist) = note l (s, not_exist)
note_wait l (s, block pid) = note l (s, block pid)
note_wait l (s, wake_up pid) = note l (s, wake_up pid)

-- The answers are noted; a `signal` counts whatever it answers.
pub step : Log → Call → Log
step l (waits pid) = note_wait l (wait l.sem pid)
step l signals = let m = note l (signal l.sem) in record m { signalled = m.signalled + 1 }

pub run : Log → List Call → Log
run l [] = l
run l (c ∷ cs) = run (step l c) cs

pub start : ℕ → Log
start value = record { sem = new value; granted = 0; signalled = 0; blocked = []; woken = [] }

-- Permits are neither made nor lost, nobody waits while one is free, and the waiters are those
-- blocked and not yet woken, in the order in which they were blocked.
pub record Inv (value : ℕ) (l : Log) : Type 0 where
  pub counted : l.sem.count + l.granted ≡ value + l.signalled
  pub eager : (l.sem.count ≡ 0) ⊎ (l.sem.wait_queue ≡ [])
  pub fifo : l.blocked ≡ l.woken ++ l.sem.wait_queue

step-wait-Inv : (value : ℕ) (l : Log) (pid : ℕ) → Inv value l → Inv value (step l (waits pid))
unfolding step wait
step-wait-Inv value l pid h = record {
  counted = ground (arith, h.counted);
  eager = ground (arith, h.eager);
  fifo = ground (arith, h.fifo, append_assoc l.woken l.sem.wait_queue (pid ∷ []));
}

signal-fifo :
    (l : Log) (q : List ℕ)
    → l.sem.wait_queue ≡ q
    → l.blocked ≡ l.woken ++ l.sem.wait_queue
    → (step l signals).blocked ≡ (step l signals).woken ++ (step l signals).sem.wait_queue
unfolding step signal
signal-fifo l [] e h = ground arith
signal-fifo l (pid ∷ rest) e h = ground (arith, append_assoc l.woken (pid ∷ []) rest)

step-signal-Inv :
    (value : ℕ) (l : Log)
    → value + l.signalled + 1 < 2 ^ 64
    → Inv value l
    → Inv value (step l signals)
unfolding step signal
step-signal-Inv value l small h = record {
  counted = ground (arith, h.counted);
  eager = ground (arith, h.eager);
  fifo = signal-fifo l l.sem.wait_queue refl h.fifo;
}

-- The bound on the permits, carried along the history.
step-signalled : (l : Log) (c : Call) → (step l c).signalled ≤ l.signalled + 1
unfolding step wait signal
step-signalled l (waits pid) = ground arith
step-signalled l signals = ground arith

run-Inv_from :
    (value : ℕ) (l : Log) (cs : List Call)
    → value + l.signalled + length cs < 2 ^ 64
    → Inv value l
    → Inv value (run l cs)
unfolding run
run-Inv_from value l [] small h = h
run-Inv_from value l (waits pid ∷ cs) small h =
    run-Inv_from value (step l (waits pid)) cs (omega (arith, step-signalled l (waits pid)))
      (step-wait-Inv value l pid h)
run-Inv_from value l (signals ∷ cs) small h =
    run-Inv_from value (step l signals) cs (omega (arith, step-signalled l signals))
      (step-signal-Inv value l (omega arith) h)

-- After any history of `wait` and `signal` on a new semaphore, whose initial value and length stay
-- below 2 ^ 64: the free permits and those granted make up the initial value and the signals, no
-- process waits while a permit is free, and waiters are woken in the order in which they blocked.
pub run-Inv :
    (value : ℕ) (cs : List Call) → value + length cs < 2 ^ 64 → Inv value (run (start value) cs)
unfolding start new
run-Inv value cs small =
    run-Inv_from value (start value) cs (omega arith)
      (record { counted = omega arith; eager = inr refl; fifo = refl })
