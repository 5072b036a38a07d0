-- ===== src/Proc/Sync/Table.antt =====
-- The set of semaphores: each call acts on its own key, and what happens to waiters when a key is
-- replaced or removed.
use operating_system_experim.Prelude.{
  ℕ, ◌≡◌, refl, ◌≢◌, false, Option, none, some, [], arith, lookup, lookup-insert_ne,
  lookup-insert_self, lookup-erase, is_some,
}
use operating_system_experim.Proc.Sync.{
  Semaphore, SemaphoreSet, SemaphoreResult, not_exist, set_insert, set_remove, set_wait, set_signal,
  new, at_key,
}

at_key-other :
    (sems : SemaphoreSet) (key k : ℕ) (o : Option Semaphore)
    (f : Semaphore → Semaphore × SemaphoreResult)
    → key ≢ k
    → lookup k (at_key sems key o f).0 ≡ lookup k sems
at_key-other sems key k none f h = refl
at_key-other sems key k (some s) f h = lookup-insert_ne key k (f s).0 sems h

-- A call on one key leaves the semaphores behind all other keys as they were.
other_keys :
    (sems : SemaphoreSet) (key k value pid : ℕ)
    → key ≢ k
    → (lookup k (set_insert sems key value).0 ≡ lookup k sems)
      × (lookup k (set_remove sems key).0 ≡ lookup k sems)
      × (lookup k (set_wait sems key pid).0 ≡ lookup k sems)
      × (lookup k (set_signal sems key).0 ≡ lookup k sems)
unfolding set_insert set_remove set_wait set_signal
other_keys sems key k value pid h = (
  lookup-insert_ne key k _ sems h,
  ground (arith, lookup-erase key k sems),
  at_key-other sems key k (lookup key sems) _ h,
  at_key-other sems key k (lookup key sems) _ h,
)

-- Creating a semaphore under a key that is in use reports failure, and still puts a new semaphore
-- in place of the old one: whoever waited on the old one is in no queue any more.
pub set_insert_existing :
    (sems : SemaphoreSet) (key value : ℕ) (s : Semaphore)
    → lookup key sems ≡ some s
    → ((set_insert sems key value).1 ≡ false)
      × (lookup key (set_insert sems key value).0
          ≡ some (record { count = value; wait_queue = [] }))
unfolding set_insert
set_insert_existing sems key value s h =
    (ground arith, ground (arith, lookup-insert_self key (new value) sems))

-- A removed key is reported once, and later calls on it answer `not_exist` and change nothing.
set_remove_then :
    (sems : SemaphoreSet) (key pid : ℕ)
    → let r = set_remove sems key in
      (r.1 ≡ is_some (lookup key sems))
      × ((set_remove r.0 key).1 ≡ false)
      × (set_wait r.0 key pid ≡ (r.0, not_exist))
      × (set_signal r.0 key ≡ (r.0, not_exist))
unfolding set_remove set_wait set_signal
set_remove_then sems key pid = (
  refl,
  ground (arith, lookup-erase key key sems),
  ground (arith, lookup-erase key key sems),
  ground (arith, lookup-erase key key sems),
)

-- A call on one key leaves the semaphores behind all other keys as they were. Once a key has been
-- removed, which is reported where it was in use, a further removal fails, and a wait or a signal
-- on it answers `not_exist` and changes nothing.
pub set_remove-other_keys :
    (sems : SemaphoreSet) (key k value pid : ℕ)
    → key ≢ k
    → ((lookup k (set_insert sems key value).0 ≡ lookup k sems)
        × (lookup k (set_remove sems key).0 ≡ lookup k sems)
        × (lookup k (set_wait sems key pid).0 ≡ lookup k sems)
        × (lookup k (set_signal sems key).0 ≡ lookup k sems))
      × (let r = set_remove sems key in
          (r.1 ≡ is_some (lookup key sems))
          × ((set_remove r.0 key).1 ≡ false)
          × (set_wait r.0 key pid ≡ (r.0, not_exist))
          × (set_signal r.0 key ≡ (r.0, not_exist)))
set_remove-other_keys sems key k value pid h =
    (other_keys sems key k value pid h, set_remove_then sems key pid)
