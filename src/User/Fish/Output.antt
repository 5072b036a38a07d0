-- ===== src/User/Fish/Output.antt =====
-- What the three processes have printed after any steps in any order.
use operating_system_experim.Prelude.{
  ℕ, zero, suc, ◌≤◌, ◌<◌, ◌≡◌, refl, sym, ap, subst, ◌∙◌, inl, inr, Bool, true, false, some, List,
  [], ◌∷◌, arith, ltb, ◌==◌, ltb→lt, ==→eq, Bool-cases, length, ◌>>=◌, update,
}
use operating_system_experim.Proc.Sync.{new}
use operating_system_experim.User.Fish.{
  Pond, Pc, turn, turn_blocked, locking, lock_blocked, checking, printing, printed, waking,
  unlocking, leaving, exited, lt, total_prints, act, if_process, run, start,
}
use operating_system_experim.User.Fish.Pattern.{
  owner, picture, picture-nil, length-picture, first_owner,
}
use operating_system_experim.User.Fish.Roles.{one_free, rest, permit, stands, Looks, Fits}
use operating_system_experim.User.Fish.Invariant.{
  Config, free, inside, held, queued, one_role, shown, Legal, Alive, Inv, Next,
}
use operating_system_experim.User.Fish.Turns.{
  moves, rest-Next, owner-Looks, one_role-owner, two_roles-owner, permit-Next, lock-Next,
  queue-Next, unlock-Next, hand_over-Next, update_twice,
}
use operating_system_experim.User.Fish.Critical.{inside-Next}
use operating_system_experim.User.Fish.Leaving.{act-Over}

-- One that has no part in the configuration, or the owner, or the holder.
free-Next : (i n : ℕ) (b : Bool) (p : Pond) → i < 3 → Alive n (free b) p → Next i p
free-Next i n b p lt' alive = elim (Bool-cases (owner n == i)) [
  | inr e ↦ rest-Next i n (free b) p alive lt' (rw e)
  | inl e ↦ subst (λ j. Next j p) (==→eq (owner n) i e) (owned b alive)
]
  where
    owned : (b : Bool) → Alive n (free b) p → Next (owner n) p
    owned false alive =
        permit-Next n (free false) (free true) p alive (one_role-owner (owner n) permit)
          (update_twice (λ _. rest) (owner n) permit (stands locking)) refl refl refl alive.legal
    owned true alive = lock-Next n p alive

step-Inside : (i n : ℕ) (x : Pc) (p : Pond) → i < 3 → Alive n (inside x) p → Next i p
step-Inside i n x p lt' alive = elim (Bool-cases (owner n == i)) [
  | inr e ↦ rest-Next i n (inside x) p alive lt' (rw e)
  | inl e ↦ subst (λ j. Next j p) (==→eq (owner n) i e) (inside-Next n p x alive)
]

held-Next : (i n r : ℕ) (b : Bool) (p : Pond) → i < 3 → Alive n (held r b) p → Next i p
held-Next i n r b p lt' alive = elim (Bool-cases (owner n == i)) [
  | inl e ↦ subst (λ j. Next j p) (==→eq (owner n) i e) (owned b alive)
  | inr e ↦ elim (Bool-cases (r == i)) [
    | inl k ↦ subst (λ j. Next j p) (==→eq r i k) (unlock-Next n r b p alive)
    | inr k ↦ rest-Next i n (held r b) p alive lt' (rw (e, k))
  ]
]
  where
    owned : (b : Bool) → Alive n (held r b) p → Next (owner n) p
    owned false alive =
        permit-Next n (held r false) (held r true) p alive (two_roles-owner r (owner n) permit)
          (update_twice (update (λ _. rest) r (stands unlocking)) (owner n) permit (stands locking))
          refl refl refl alive.legal
    owned true alive = queue-Next n r p alive

-- The owner waits for the mutex.
blocked-Next : (n r : ℕ) (p : Pond) → Alive n (queued r) p → Next (owner n) p
unfolding act
blocked-Next n r p alive =
    moves (owner n) n (queued r) p alive lock_blocked p.sems p.pc (queued r)
      (owner-Looks n (queued r) p (stands lock_blocked) alive
        (two_roles-owner r (owner n) (stands lock_blocked))).0
      refl alive.fits refl refl alive.legal

queued-Next : (i n r : ℕ) (p : Pond) → i < 3 → Alive n (queued r) p → Next i p
queued-Next i n r p lt' alive = elim (Bool-cases (owner n == i)) [
  | inl e ↦ subst (λ j. Next j p) (==→eq (owner n) i e) (blocked-Next n r p alive)
  | inr e ↦ elim (Bool-cases (r == i)) [
    | inl k ↦ subst (λ j. Next j p) (==→eq r i k) (hand_over-Next n r p alive)
    | inr k ↦ rest-Next i n (queued r) p alive lt' (rw (e, k))
  ]
]

step-Next : (i : ℕ) (p : Pond) → i < 3 → Inv p → Next i p
step-Next i p lt' (inl (n, free b, alive)) = free-Next i n b p lt' alive
step-Next i p lt' (inl (n, inside x, alive)) = step-Inside i n x p lt' alive
step-Next i p lt' (inl (n, held r b, alive)) = held-Next i n r b p lt' alive
step-Next i p lt' (inl (n, queued r, alive)) = queued-Next i n r p lt' alive
step-Next i p lt' (inr over) =
    let (q, e, h) = act-Over i (p.pc i) p (over.calm i lt') over in (q, e, inr h)

-- A run that goes on after a step.
abbrev Runs : List ℕ → Pond → Type 0
Runs order p = (q : Pond) × (run order p ≡ some q) × Inv q

one_step :
    (i : ℕ) (order : List ℕ) (p : Pond) (b : Bool)
    → ltb i 3 ≡ b
    → Inv p
    → ((q : Pond) → Inv q → Runs order q)
    → (q : Pond) × ((if_process b (act i (p.pc i) p) p >>= run order) ≡ some q) × Inv q
one_step i order p false e h more = more p h
one_step i order p true e h more =
    let (q, a, k) = step-Next i p (ltb→lt i 3 e) h in
    let (q', r, k') = more q k in (q', ap (λ o. o >>= run order) a ∙ r, k')

run-Inv_from : (order : List ℕ) (p : Pond) → Inv p → Runs order p
unfolding run
run-Inv_from [] p h = (p, refl, h)
run-Inv_from (i ∷ order) p h = one_step i order p (ltb i 3) refl h (λ q k. run-Inv_from order q k)

start-each : (i : ℕ) → i < 3 → Looks (one_role lt permit i) i (start.sems i) (start.pc i)
unfolding start new
start-each zero h = inl (refl, refl)
start-each (suc zero) h = (refl, refl)
start-each (suc (suc zero)) h = inl (refl, refl)
start-each (suc (suc (suc i))) h = absurd (omega arith)

start-Alive : Alive 0 (free false) start
unfolding start new
start-Alive = record {
  fits =
      subst (λ e. Fits (one_role e permit) one_free start.sems start.pc) (sym first_owner)
        (record { lock = refl; each = start-each });
  out = sym picture-nil;
  prints = refl;
  step = refl;
  pattern_number = refl;
  legal = omega arith;
}

-- The output of a state in the invariant.
abbrev Drawn : Pond → Type 0
Drawn p = (length p.output ≤ total_prints) × (p.output ≡ picture (length p.output))

drawn : (m : ℕ) (p : Pond) → p.output ≡ picture m → m ≤ total_prints → Drawn p
drawn m p e le =
    let k : length p.output ≡ m = ap length e ∙ length-picture m in
    (omega arith, e ∙ ap picture (sym k))

shown-le : (n : ℕ) (c : Config) → Legal c n → shown c n ≤ total_prints
shown-le n (free b) l = l
shown-le n (inside checking) l = l
shown-le n (inside printing) l = omega arith
shown-le n (inside printed) l = omega arith
shown-le n (inside waking) l = omega arith
shown-le n (inside turn) l = absurd l
shown-le n (inside turn_blocked) l = absurd l
shown-le n (inside locking) l = absurd l
shown-le n (inside lock_blocked) l = absurd l
shown-le n (inside unlocking) l = absurd l
shown-le n (inside (leaving _)) l = absurd l
shown-le n (inside exited) l = absurd l
shown-le n (held r b) l = l.0
shown-le n (queued r) l = l.0

Inv-Drawn : (p : Pond) → Inv p → Drawn p
Inv-Drawn p (inl (n, c, alive)) = drawn (shown c n) p alive.out (shown-le n c alive.legal)
Inv-Drawn p (inr over) = drawn total_prints p over.out (omega arith)

-- In whatever order the three processes take their steps, none panics, and what they have printed is
-- the beginning of the repeated text <><_><>_ of at most 400 characters.
pub run-picture :
    (order : List ℕ)
    → (p : Pond) × (run order start ≡ some p)
      × (length p.output ≤ total_prints)
      × (p.output ≡ picture (length p.output))
run-picture order =
    let (p, r, h) = run-Inv_from order start (inl (0, free false, start-Alive)) in
    (p, r, (Inv-Drawn p h).0, (Inv-Drawn p h).1)
