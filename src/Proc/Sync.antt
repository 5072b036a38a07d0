-- ===== src/Proc/Sync.antt =====
-- Semaphores, pkg/kernel/src/proc/sync.rs. A `ProcessId` and a `SemaphoreId` are their numbers, and
-- the `BTreeMap` of mutexes is a map of semaphores: the kernel takes each mutex with interrupts off.
pub mod Permits
pub mod Table
use operating_system_experim.Prelude.{
  ℕ, ◌+◌, ◌-◌, ◌%◌, ◌^◌, Bool, true, false, Option, none, some, List, [], ◌∷◌, ◌++◌, ◌==◌,
  if◌then◌else◌, is_some, is_none, Map, lookup, insert, erase,
}

pub record Semaphore : Type 0 where
  pub count : ℕ
  pub wait_queue : List ℕ

pub data SemaphoreResult : Type 0 where
  ok not_exist : SemaphoreResult
  block : ℕ → SemaphoreResult
  wake_up : ℕ → SemaphoreResult

unfoldable pub new : ℕ → Semaphore
new value = record { count = value; wait_queue = [] }

unfoldable pub wait : Semaphore → ℕ → Semaphore × SemaphoreResult
wait s pid =
    if s.count == 0
    then (record s { wait_queue = s.wait_queue ++ pid ∷ [] }, block pid)
    else (record s { count = s.count - 1 }, ok)

-- `count` is a `usize`: its increment wraps in the release builds that the Makefile makes.
unfoldable pub signal : Semaphore → Semaphore × SemaphoreResult
signal s = elim s.wait_queue [
  | [] ↦ (record s { count = (s.count + 1) % 2 ^ 64 }, ok)
  | pid ∷ rest ↦ (record s { wait_queue = rest }, wake_up pid)
]

abbrev pub SemaphoreSet : Type 0
SemaphoreSet = Map Semaphore

-- The result is that of `BTreeMap::insert(..).is_none()`: the entry is written in either case.
unfoldable pub set_insert : SemaphoreSet → ℕ → ℕ → SemaphoreSet × Bool
unfolding new
set_insert sems key value = (insert key (new value) sems, is_none (lookup key sems))

unfoldable pub set_remove : SemaphoreSet → ℕ → SemaphoreSet × Bool
set_remove sems key = (erase key sems, is_some (lookup key sems))

-- The operation behind the key, with the semaphore written back.
abbrev pub at_key :
    SemaphoreSet
    → ℕ
    → Option Semaphore
    → (Semaphore → Semaphore × SemaphoreResult)
    → SemaphoreSet × SemaphoreResult
at_key sems key none f = (sems, not_exist)
at_key sems key (some s) f = let (s', r) = f s in (insert key s' sems, r)

unfoldable pub set_wait : SemaphoreSet → ℕ → ℕ → SemaphoreSet × SemaphoreResult
unfolding wait
set_wait sems key pid = at_key sems key (lookup key sems) (λ s. wait s pid)

unfoldable pub set_signal : SemaphoreSet → ℕ → SemaphoreSet × SemaphoreResult
unfolding signal
set_signal sems key = at_key sems key (lookup key sems) signal
