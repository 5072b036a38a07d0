-- ===== src/User/Fish/Roles.antt =====
-- What each process of the sample is up to, by its own semaphore and by where it stands.
use operating_system_experim.Prelude.{
  ℕ, ◌<◌, ◌≡◌, refl, ap, subst, ◌∙◌, ◌≢◌, ◌⊎◌, inl, inr, [], ◌∷◌, arith, ◌==◌, ne→==, ==→eq,
  Bool-cases, update,
}
use operating_system_experim.Proc.Sync.{Semaphore, wait, signal}
use operating_system_experim.User.Fish.{
  Pond, Pc, turn, turn_blocked, mutex, waited, signalled, wait_on, signal_on, woken,
}

abbrev pub none_free : Semaphore
none_free = record { count = 0; wait_queue = [] }

abbrev pub one_free : Semaphore
one_free = record { count = 1; wait_queue = [] }

abbrev pub awaited : ℕ → Semaphore
awaited i = record { count = 0; wait_queue = i ∷ [] }

-- A process has no turn, or a permit for one that it has not taken, or is at a place of its turn.
pub data Role : Type 0 where
  rest permit : Role
  stands : Pc → Role

abbrev pub Looks : Role → ℕ → Semaphore → Pc → Type 0
Looks rest i s c = ((c ≡ turn) × (s ≡ none_free)) ⊎ ((c ≡ turn_blocked) × (s ≡ awaited i))
Looks permit i s c = (c ≡ turn) × (s ≡ one_free)
Looks (stands x) i s c = (c ≡ x) × (s ≡ none_free)

-- The three processes and the mutex, by their roles.
pub record Fits (roles : ℕ → Role) (m : Semaphore) (sems : ℕ → Semaphore) (pc : ℕ → Pc)
    : Type 0 where
  pub lock : sems mutex ≡ m
  pub each : (i : ℕ) → i < 3 → Looks (roles i) i (sems i) (pc i)

module _ {roles : ℕ → Role} {m : Semaphore} {sems : ℕ → Semaphore} {pc : ℕ → Pc}
    (fits : Fits roles m sems pc) where
  pub set_mutex-Fits : (s : Semaphore) → Fits roles s (update sems mutex s) pc
  set_mutex-Fits s = record {
    lock = refl;
    each = λ i h. rw (ne→== mutex i (omega arith)) (fits.each i h);
  }

  pub change_pc-Fits :
      (i : ℕ) (o : Role) (x : Pc)
      → Looks o i (sems i) x
      → Fits (update roles i o) m sems (update pc i x)
  change_pc-Fits i o x look = record {
    lock = fits.lock;
    each = λ j h. elim (Bool-cases (i == j)) [
      | inl e ↦ rw e (subst (λ k. Looks o k (sems k) x) (==→eq i j e) look)
      | inr e ↦ rw e (fits.each j h)
    ];
  }

  pub change_sem-Fits :
      (i : ℕ) (o : Role) (s : Semaphore)
      → i < 3
      → Looks o i s (pc i)
      → Fits (update roles i o) m (update sems i s) pc
  change_sem-Fits i o s lt look = record {
    lock = rw (ne→== i mutex (omega arith)) fits.lock;
    each = λ j h. elim (Bool-cases (i == j)) [
      | inl e ↦ rw e (subst (λ k. Looks o k s (pc k)) (==→eq i j e) look)
      | inr e ↦ rw e (fits.each j h)
    ];
  }

  pub change-Fits :
      (i : ℕ) (o : Role) (s : Semaphore) (x : Pc)
      → i < 3
      → Looks o i s x
      → Fits (update roles i o) m (update sems i s) (update pc i x)
  change-Fits i o s x lt look = record {
    lock = rw (ne→== i mutex (omega arith)) fits.lock;
    each = λ j h. elim (Bool-cases (i == j)) [
      | inl e ↦ rw e (subst (λ k. Looks o k s x) (==→eq i j e) look)
      | inr e ↦ rw e (fits.each j h)
    ];
  }

pub Fits-same :
    {roles roles' : ℕ → Role} {m : Semaphore} {sems : ℕ → Semaphore} {pc : ℕ → Pc}
    → ((i : ℕ) → roles i ≡ roles' i)
    → Fits roles m sems pc
    → Fits roles' m sems pc
Fits-same {sems} {pc} e f = record {
  lock = f.lock;
  each = λ i h. subst (λ o. Looks o i (sems i) (pc i)) (e i) (f.each i h);
}

module _ (i k : ℕ) (p : Pond) where
  pub wait_on-free :
      (on off : Pc)
      → p.sems k ≡ one_free
      → wait_on i k on off p ≡ record p { sems = update p.sems k none_free; pc = update p.pc i on }
  unfolding wait_on
  wait_on-free on off e = ap (λ s. waited i k on off (wait s i) p) e

  pub wait_on-blocked :
      (on off : Pc)
      → p.sems k ≡ none_free
      → wait_on i k on off p
        ≡ record p { sems = update p.sems k (awaited i); pc = update p.pc i off }
  unfolding wait_on
  wait_on-blocked on off e = ap (λ s. waited i k on off (wait s i) p) e

  pub signal_on-free :
      (on : Pc)
      → p.sems k ≡ none_free
      → signal_on i k on p ≡ record p { sems = update p.sems k one_free; pc = update p.pc i on }
  unfolding signal_on
  signal_on-free on e = ap (λ s. signalled i k on (signal s) p) e

  pub signal_on-awaited :
      (on : Pc) (j : ℕ) (c : Pc)
      → p.sems k ≡ awaited j
      → i ≢ j
      → p.pc j ≡ c
      → signal_on i k on p
        ≡ record p { sems = update p.sems k none_free; pc = update (update p.pc i on) j (woken c) }
  unfolding signal_on
  signal_on-awaited on j c e ne at =
      ap (λ s. signalled i k on (signal s) p) e
      ∙ ap
          (λ x. record p {
            sems = update p.sems k none_free;
            pc = update (update p.pc i on) j (woken x);
          })
          {x = update p.pc i on j} {y = c} (rw (ne→== i j ne) at)
