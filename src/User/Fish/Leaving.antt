-- ===== src/User/Fish/Leaving.antt =====
-- The steps behind the last character, when the processes leave.
use operating_system_experim.Prelude.{
  ℕ, ◌+◌, ◌<◌, ◌≡◌, refl, sym, subst, inl, inr, some, ltb, ◌==◌, ==→eq, Bool-cases, update,
}
use operating_system_experim.Proc.Sync.{
  Semaphore, SemaphoreResult, ok, not_exist, block, wake_up, wait, signal,
}
use operating_system_experim.User.Fish.{
  Pond, Pc, turn, turn_blocked, locking, lock_blocked, checking, printing, printed, waking,
  unlocking, leaving, exited, mutex, woken, waited, signalled, wait_on, signal_on, act,
}
use operating_system_experim.User.Fish.Invariant.{Calm, Over}

-- Places at which nobody is about to print stay so.
place-Calm :
    (pc : ℕ → Pc) (i : ℕ) (x : Pc)
    → Calm x
    → ((j : ℕ) → j < 3 → Calm (pc j))
    → (j : ℕ) → j < 3
    → Calm (update pc i x j)
place-Calm pc i x c h j lt' = elim (Bool-cases (i == j)) [ inl k ↦ rw k c | inr k ↦ rw k (h j lt') ]

woken-Calm : (x : Pc) → Calm x → Calm (woken x)
woken-Calm turn c = tt
woken-Calm turn_blocked c = tt
woken-Calm locking c = tt
woken-Calm lock_blocked c = tt
woken-Calm checking c = tt
woken-Calm printing c = absurd c
woken-Calm printed c = absurd c
woken-Calm waking c = absurd c
woken-Calm unlocking c = tt
woken-Calm (leaving _) c = tt
woken-Calm exited c = tt

waited-Over :
    (i k : ℕ) (on off : Pc) (r : Semaphore × SemaphoreResult) (p : Pond)
    → Calm on
    → Calm off
    → Over p
    → Over (waited i k on off r p)
waited-Over i k on off (s, ok) p c d h = record {
  out = h.out;
  prints = h.prints;
  calm = place-Calm p.pc i on c h.calm;
}
waited-Over i k on off (s, not_exist) p c d h = record {
  out = h.out;
  prints = h.prints;
  calm = place-Calm p.pc i on c h.calm;
}
waited-Over i k on off (s, wake_up _) p c d h = record {
  out = h.out;
  prints = h.prints;
  calm = place-Calm p.pc i on c h.calm;
}
waited-Over i k on off (s, block _) p c d h = record {
  out = h.out;
  prints = h.prints;
  calm = place-Calm p.pc i off d h.calm;
}

signal-Calm :
    (pc : ℕ → Pc) (i j : ℕ) (on : Pc)
    → Calm on
    → ((m : ℕ) → m < 3 → Calm (pc m))
    → (m : ℕ) → m < 3
    → Calm (update (update pc i on) j (woken (update pc i on j)) m)
signal-Calm pc i j on c h m lt' = elim (Bool-cases (j == m)) [
  | inl k ↦ rw k (
      woken-Calm (update pc i on j)
        (subst (λ a. Calm (update pc i on a)) (sym (==→eq j m k)) (place-Calm pc i on c h m lt')))
  | inr k ↦ rw k (place-Calm pc i on c h m lt')
]

signalled-Over :
    (i k : ℕ) (on : Pc) (r : Semaphore × SemaphoreResult) (p : Pond)
    → Calm on
    → Over p
    → Over (signalled i k on r p)
signalled-Over i k on (s, ok) p c h = record {
  out = h.out;
  prints = h.prints;
  calm = place-Calm p.pc i on c h.calm;
}
signalled-Over i k on (s, not_exist) p c h = record {
  out = h.out;
  prints = h.prints;
  calm = place-Calm p.pc i on c h.calm;
}
signalled-Over i k on (s, block _) p c h = record {
  out = h.out;
  prints = h.prints;
  calm = place-Calm p.pc i on c h.calm;
}
signalled-Over i k on (s, wake_up j) p c h = record {
  out = h.out;
  prints = h.prints;
  calm = signal-Calm p.pc i j on c h.calm;
}

pub act-Over :
    (i : ℕ) (x : Pc) (p : Pond) → Calm x → Over p → (q : Pond) × (act i x p ≡ some q) × Over q
unfolding act wait_on signal_on
act-Over i turn p c h =
    (_, refl, waited-Over i i locking turn_blocked (wait (p.sems i) i) p tt tt h)
act-Over i turn_blocked p c h = (p, refl, h)
act-Over i locking p c h =
    (_, refl, waited-Over i mutex checking lock_blocked (wait (p.sems mutex) i) p tt tt h)
act-Over i lock_blocked p c h = (p, refl, h)
act-Over i checking p c h = (
  record p { pc = update p.pc i (leaving 0) },
  rw (h.prints),
  record { out = h.out; prints = h.prints; calm = place-Calm p.pc i (leaving 0) tt h.calm },
)
act-Over i printing p c h = absurd c
act-Over i printed p c h = absurd c
act-Over i waking p c h = absurd c
act-Over i unlocking p c h = (_, refl, signalled-Over i mutex turn (signal (p.sems mutex)) p tt h)
act-Over i (leaving k) p c h = elim (Bool-cases (ltb k 3)) [
  | inl e ↦ (_, rw e, signalled-Over i k (leaving (k + 1)) (signal (p.sems k)) p tt h)
  | inr e ↦ (_, rw e, signalled-Over i mutex exited (signal (p.sems mutex)) p tt h)
]
act-Over i exited p c h = (p, refl, h)
