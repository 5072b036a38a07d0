-- ===== src/User/Fish/Turns.antt =====
-- One turn after the other: the steps before the last character keep the invariant.
use operating_system_experim.Prelude.{
  ℕ, ◌/◌, ◌%◌, ◌<◌, ◌≡◌, refl, sym, ap, subst, ◌∙◌, ◌≢◌, inl, inr, Bool, true, some, arith, ◌==◌,
  ne→==, ==→eq, Bool-cases, update,
}
use operating_system_experim.Proc.Sync.{Semaphore}
use operating_system_experim.User.Fish.{
  Pond, Pc, turn, turn_blocked, locking, lock_blocked, checking, unlocking, mutex, act,
}
use operating_system_experim.User.Fish.Pattern.{owner, picture, owner-lt}
use operating_system_experim.User.Fish.Roles.{
  none_free, one_free, awaited, Role, rest, permit, stands, Looks, Fits, set_mutex-Fits,
  change_pc-Fits, change-Fits, Fits-same, wait_on-free, wait_on-blocked, signal_on-free,
  signal_on-awaited,
}
use operating_system_experim.User.Fish.Invariant.{
  Config, owner_role, one_role, two_roles, roles_of, lock_of, shown, counts, Legal, Alive, Next,
  free, inside, held, queued,
}

update_same :
    (roles : ℕ → Role) (i : ℕ) (o : Role) → roles i ≡ o → (j : ℕ) → update roles i o j ≡ roles j
update_same roles i o e j = elim (Bool-cases (i == j)) [
  | inl k ↦ rw k (sym e ∙ ap roles (==→eq i j k))
  | inr k ↦ rw k
]

-- A step that only changes semaphores and places.
abbrev pub place_at : Pond → (ℕ → Semaphore) → (ℕ → Pc) → Pond
place_at p sems pc = record p { sems = sems; pc = pc }

module _ (i n : ℕ) (c : Config) (p : Pond) (alive : Alive n c p) where
  -- To the configuration `d` of the same turn, with as much shown and counted.
  pub moves :
      (x : Pc) (sems : ℕ → Semaphore) (pc : ℕ → Pc) (d : Config)
      → p.pc i ≡ x
      → act i x p ≡ some (place_at p sems pc)
      → Fits (roles_of d (owner n)) (lock_of d (owner n)) sems pc
      → shown c n ≡ shown d n
      → counts c n ≡ counts d n
      → Legal d n
      → Next i p
  moves x sems pc d at e f s k l = (
    place_at p sems pc,
    ap (λ y. act i y p) at ∙ e,
    inl (
      n,
      d,
      record {
        fits = f;
        out = alive.out ∙ ap picture s;
        prints = alive.prints ∙ k;
        step = alive.step ∙ ap (λ m. m % 4) k;
        pattern_number = alive.pattern_number ∙ ap (λ m. m / 4 % 2) k;
        legal = l;
      },
    ),
  )

  -- A process without a turn waits for one.
  pub rest-Next : i < 3 → roles_of c (owner n) i ≡ rest → Next i p
  unfolding act
  rest-Next lt e = waits (subst (λ o. Looks o i (p.sems i) (p.pc i)) e (alive.fits.each i lt))
    where
      waits : Looks rest i (p.sems i) (p.pc i) → Next i p
      waits (inl (at, s)) =
          moves turn (update p.sems i (awaited i)) (update p.pc i turn_blocked) c at
            (ap some (wait_on-blocked i i p locking turn_blocked s))
            (Fits-same (update_same (roles_of c (owner n)) i rest e)
              (change-Fits alive.fits i rest (awaited i) turn_blocked lt (inr (refl, refl))))
            refl refl alive.legal
      waits (inr (at, s)) =
          moves turn_blocked p.sems p.pc c at refl alive.fits refl refl alive.legal

-- What the owner of the turn looks like.
pub owner-Looks :
    (n : ℕ) (c : Config) (p : Pond) (o : Role)
    → Alive n c p
    → roles_of c (owner n) (owner n) ≡ o
    → Looks o (owner n) (p.sems (owner n)) (p.pc (owner n))
owner-Looks n c p o alive e =
    subst (λ o. Looks o (owner n) (p.sems (owner n)) (p.pc (owner n))) e
      (alive.fits.each (owner n) (owner-lt n))

pub one_role-owner : (e : ℕ) (o : Role) → one_role e o e ≡ o
one_role-owner e o = ground arith

pub two_roles-owner : (r e : ℕ) (o : Role) → two_roles r e o e ≡ o
two_roles-owner r e o = ground arith

pub two_roles-holder : (r e : ℕ) (o : Role) → r ≢ e → two_roles r e o r ≡ stands unlocking
two_roles-holder r e o ne = ground arith

pub update_twice :
    (roles : ℕ → Role) (e : ℕ) (o o' : Role) (j : ℕ)
    → update (update roles e o) e o' j ≡ update roles e o' j
update_twice roles e o o' j = ground arith

past_mutex : (sems : ℕ → Semaphore) (s : Semaphore) (i : ℕ) → i < 3 → update sems mutex s i ≡ sems i
past_mutex sems s i lt = rw (ne→== mutex i (omega arith))

-- The owner takes its permit.
pub permit-Next :
    (n : ℕ) (c d : Config) (p : Pond) (alive : Alive n c p)
    → roles_of c (owner n) (owner n) ≡ permit
    → ((j : ℕ)
        → update (roles_of c (owner n)) (owner n) (stands locking) j ≡ roles_of d (owner n) j)
    → lock_of c (owner n) ≡ lock_of d (owner n)
    → shown c n ≡ shown d n
    → counts c n ≡ counts d n
    → Legal d n
    → Next (owner n) p
unfolding act
permit-Next n c d p alive e roles m sh co l =
    let e' = owner n in
    let look = owner-Looks n c p permit alive e in
    moves e' n c p alive turn (update p.sems e' none_free) (update p.pc e' locking) d look.0
      (ap some (wait_on-free e' e' p locking turn_blocked look.1))
      (subst (λ m. Fits (roles_of d e') m (update p.sems e' none_free) (update p.pc e' locking)) m
        (Fits-same roles
          (change-Fits alive.fits e' (stands locking) none_free locking (owner-lt n) (refl, refl))))
      sh co l

-- The owner takes the mutex, where it is free.
pub lock-Next : (n : ℕ) (p : Pond) → Alive n (free true) p → Next (owner n) p
unfolding act
lock-Next n p alive =
    let e = owner n in
    let look =
      owner-Looks n (free true) p (stands locking) alive (one_role-owner e (stands locking)) in
    let f = set_mutex-Fits alive.fits none_free in
    moves e n (free true) p alive locking (update p.sems mutex none_free) (update p.pc e checking)
      (inside checking) look.0
      (ap some (wait_on-free e mutex p checking lock_blocked alive.fits.lock))
      (Fits-same (λ j. update_twice (λ _. rest) e (stands locking) (stands checking) j)
        (change_pc-Fits f e (stands checking) checking
          (refl, past_mutex p.sems none_free e (owner-lt n) ∙ look.1)))
      refl refl alive.legal

-- The owner asks for the mutex while it is held.
pub queue-Next : (n r : ℕ) (p : Pond) → Alive n (held r true) p → Next (owner n) p
unfolding act
queue-Next n r p alive =
    let e = owner n in
    let look =
      owner-Looks n (held r true) p (stands locking) alive (two_roles-owner r e (stands locking)) in
    let f = set_mutex-Fits alive.fits (awaited e) in
    moves e n (held r true) p alive locking (update p.sems mutex (awaited e))
      (update p.pc e lock_blocked) (queued r) look.0
      (ap some (wait_on-blocked e mutex p checking lock_blocked alive.fits.lock))
      (Fits-same
        (update_twice (update (λ _. rest) r (stands unlocking)) e (stands locking)
          (stands lock_blocked))
        (change_pc-Fits f e (stands lock_blocked) lock_blocked
          (refl, past_mutex p.sems (awaited e) e (owner-lt n) ∙ look.1)))
      refl refl alive.legal

-- The holder gives the mutex back, and nobody waits for it.
give_back :
    (r e : ℕ) (o : Role) → r ≢ e → (j : ℕ) → update (two_roles r e o) r rest j ≡ one_role e o j
give_back r e o ne j = ground arith

pub unlock-Next : (n r : ℕ) (b : Bool) (p : Pond) → Alive n (held r b) p → Next r p
unfolding act
unlock-Next n r b p alive =
    let e = owner n in
    let look =
      subst (λ o. Looks o r (p.sems r) (p.pc r)) (two_roles-holder r e (owner_role b) alive.legal.2)
        (alive.fits.each r alive.legal.1) in
    let f = set_mutex-Fits alive.fits one_free in
    moves r n (held r b) p alive unlocking (update p.sems mutex one_free) (update p.pc r turn)
      (free b) look.0 (ap some (signal_on-free r mutex p turn alive.fits.lock))
      (Fits-same (give_back r e (owner_role b) alive.legal.2) (
        change_pc-Fits f r rest turn
          (inl (refl, past_mutex p.sems one_free r alive.legal.1 ∙ look.1))))
      refl refl alive.legal.0

hand_over :
    (r e : ℕ) (o o' : Role)
    → r ≢ e
    → (j : ℕ) → update (update (two_roles r e o) r rest) e o' j ≡ one_role e o' j
hand_over r e o o' ne j = ground arith

-- The holder gives the mutex to the owner, which waits for it.
pub hand_over-Next : (n r : ℕ) (p : Pond) → Alive n (queued r) p → Next r p
unfolding act
hand_over-Next n r p alive =
    let e = owner n in
    let look =
      subst (λ o. Looks o r (p.sems r) (p.pc r))
        (two_roles-holder r e (stands lock_blocked) alive.legal.2)
        (alive.fits.each r alive.legal.1) in
    let mine =
      owner-Looks n (queued r) p (stands lock_blocked) alive
        (two_roles-owner r e (stands lock_blocked)) in
    let f = set_mutex-Fits alive.fits none_free in
    let g =
      change_pc-Fits f r rest turn
        (inl (refl, past_mutex p.sems none_free r alive.legal.1 ∙ look.1)) in
    moves r n (queued r) p alive unlocking (update p.sems mutex none_free)
      (update (update p.pc r turn) e checking) (inside checking) look.0
      (ap some
        (signal_on-awaited r mutex p turn e lock_blocked alive.fits.lock alive.legal.2 mine.0))
      (Fits-same (hand_over r e (stands lock_blocked) (stands checking) alive.legal.2) (
        change_pc-Fits g e (stands checking) checking
          (refl, past_mutex p.sems none_free e (owner-lt n) ∙ mine.1)))
      refl refl alive.legal.0
