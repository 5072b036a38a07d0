-- ===== src/User/SpinLock.antt =====
-- The spin lock of pkg/lib/src/sync.rs, and processes that acquire and release it in turns, each
-- atomic access a step. The steps of all processes are in one order, as on the one processor of the
-- kernel.
pub mod Exclusion
use operating_system_experim.Prelude.{ℕ, Bool, true, false, List, [], ◌∷◌, update}

pub record SpinLock : Type 0 where
  pub bolt : Bool

unfoldable pub new : SpinLock
new = record { bolt = false }

-- The `compare_exchange(false, true)` of `acquire`: whether it succeeds.
unfoldable pub try_acquire : SpinLock → SpinLock × Bool
try_acquire l = elim l.bolt [ true ↦ (l, false) | false ↦ (record { bolt = true }, true) ]

unfoldable pub release : SpinLock → SpinLock
release l = record { bolt = false }

-- A process is away from the lock, in the loop of `acquire`, or behind it.
pub data Place : Type 0 where
  away spinning behind : Place

pub record Threads : Type 0 where
  pub lock : SpinLock
  pub place : ℕ → Place

-- After a try: behind the lock, or once more in the loop.
abbrev pub tried : ℕ → SpinLock × Bool → Threads → Threads
tried i (l, true) t = record { lock = l; place = update t.place i behind }
tried i (l, false) t = record { lock = l; place = update t.place i spinning }

-- One step of process `i`.
unfoldable pub step : ℕ → Place → Threads → Threads
unfolding try_acquire release
step i away t = record t { place = update t.place i spinning }
step i spinning t = tried i (try_acquire t.lock) t
step i behind t = record { lock = release t.lock; place = update t.place i away }

unfoldable pub run : List ℕ → Threads → Threads
unfolding step
run [] t = t
run (i ∷ order) t = run order (step i (t.place i) t)

unfoldable pub start : Threads
unfolding new
start = record { lock = new; place = λ i. away }
