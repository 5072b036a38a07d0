-- ===== src/User/Fish/Critical.antt =====
-- What the owner of the turn does while it has the mutex: it prints, counts and wakes the next.
use operating_system_experim.Prelude.{
  ℕ, suc, ◌+◌, ◌/◌, ◌%◌, ◌≤◌, ◌<◌, ◌≡◌, refl, sym, ap, subst, ◌∙◌, ◌≢◌, inl, inr, Bool, true, false,
  some, [], ◌∷◌, ◌++◌, arith, ltb, leb, ◌==◌, ltb→lt, ltb→ge, ne→==, Bool-cases, update,
}
use operating_system_experim.Proc.Sync.{Semaphore}
use operating_system_experim.User.Fish.{
  Pond, Pc, turn, turn_blocked, locking, lock_blocked, checking, printing, printed, waking,
  unlocking, leaving, exited, total_prints, char_of, next_sem, counted, wake_next, signal_on, act,
}
use operating_system_experim.User.Fish.Pattern.{
  owner, picture, picture-suc, owner-lt, char_of-owner, next_sem-owner, owner-suc,
}
use operating_system_experim.User.Fish.Roles.{
  none_free, one_free, Role, rest, permit, stands, Looks, Fits, change_pc-Fits, change_sem-Fits,
  change-Fits, Fits-same, signal_on-free, signal_on-awaited,
}
use operating_system_experim.User.Fish.Invariant.{
  inside, held, owner_role, one_role, two_roles, roles_of, Alive, Calm, Next,
}
use operating_system_experim.User.Fish.Turns.{moves, owner-Looks, one_role-owner, update_twice}

Looks-Calm : (o : Role) (i : ℕ) (s : Semaphore) (c : Pc) → o ≡ rest → Looks o i s c → Calm c
Looks-Calm rest i s c e (inl (at, _)) = subst Calm (sym at) tt
Looks-Calm rest i s c e (inr (at, _)) = subst Calm (sym at) tt
Looks-Calm permit i s c e look = absurd (ground arith)
Looks-Calm (stands x) i s c e look = absurd (ground arith)

one_role-other : (e k : ℕ) (o : Role) → e ≢ k → one_role e o k ≡ rest
one_role-other e k o ne = ground arith

passed :
    (e k : ℕ) (o o' : Role) (j : ℕ)
    → update (update (one_role e o) e (stands unlocking)) k o' j ≡ two_roles e k o' j
passed e k o o' j = ground arith

elsewhere : (pc : ℕ → Pc) (e k : ℕ) (x : Pc) → e ≢ k → update pc e x k ≡ pc k
elsewhere pc e k x ne = rw (ne→== e k ne)

module _ (n : ℕ) (p : Pond) where
  abbrev e : ℕ
  e = owner n

  here : (x : Pc) → Alive n (inside x) p → Looks (stands x) e (p.sems e) (p.pc e)
  here x alive = owner-Looks n (inside x) p (stands x) alive (one_role-owner e (stands x))

  -- All others have no turn.
  others-Calm :
      (x : Pc)
      → Alive n (inside x) p
      → (y : Pc) → Calm y
      → (i : ℕ) → i < 3
      → Calm (update p.pc e y i)
  others-Calm x alive y calm i lt = elim (Bool-cases (e == i)) [
    | inl k ↦ rw k calm
    | inr k ↦
        rw k
          (Looks-Calm (one_role e (stands x) i) i (p.sems i) (p.pc i) (rw k) (alive.fits.each i lt))
  ]

  stands-Fits :
      (x y : Pc)
      → Alive n (inside x) p
      → Fits (roles_of (inside y) e) none_free p.sems (update p.pc e y)
  stands-Fits x y alive =
      Fits-same (update_twice (λ _. rest) e (stands x) (stands y))
        (change_pc-Fits alive.fits e (stands y) y (refl, (here x alive).1))

  at_total :
      n ≤ total_prints
      → p.print_count ≡ n
      → leb total_prints p.print_count ≡ true
      → n ≡ total_prints
  at_total le eq all = ground arith

  below_total : p.print_count ≡ n → leb total_prints p.print_count ≡ false → n < total_prints
  below_total eq more = ground arith

  check-Next : Alive n (inside checking) p → Next e p
  unfolding act
  check-Next alive = elim (Bool-cases (leb total_prints p.print_count)) [
    | inl all ↦ (
      record p { pc = update p.pc e (leaving 0) },
      ap (λ y. act e y p) (here checking alive).0 ∙ rw all,
      inr (record {
        out = alive.out ∙ ap picture (at_total alive.legal alive.prints all);
        prints = alive.prints ∙ at_total alive.legal alive.prints all;
        calm = others-Calm checking alive (leaving 0) tt;
      }),
    )
    | inr more ↦
        moves e n (inside checking) p alive checking p.sems (update p.pc e printing)
          (inside printing) (here checking alive).0 (rw more) (stands-Fits checking printing alive)
          refl refl (below_total (alive.prints) more)
  ]

  print-Next : Alive n (inside printing) p → Next e p
  unfolding act
  print-Next alive = (
    record p { output = p.output ++ char_of e ∷ []; pc = update p.pc e printed },
    ap (λ y. act e y p) (here printing alive).0,
    inl (
      n,
      inside printed,
      record {
        fits = stands-Fits printing printed alive;
        out = (λ i. alive.out i ++ char_of-owner n i ∷ []) ∙ sym (picture-suc n);
        prints = alive.prints;
        step = alive.step;
        pattern_number = alive.pattern_number;
        legal = alive.legal;
      },
    ),
  )

  counted_row :
      p.print_count ≡ n
      → p.step ≡ n % 4
      → p.pattern_number ≡ n / 4 % 2
      → p.step + 1 < 4
      → (p.print_count + 1 ≡ suc n)
        × (p.step + 1 ≡ suc n % 4)
        × (p.pattern_number ≡ suc n / 4 % 2)
        × (p.output ≡ p.output)
        × (p.sems ≡ p.sems)
        × (p.pc ≡ p.pc)
  counted_row a b c k = (omega arith, omega arith, omega arith, refl, refl, refl)

  counted_turn :
      p.print_count ≡ n
      → p.step ≡ n % 4
      → p.pattern_number ≡ n / 4 % 2
      → 4 ≤ p.step + 1
      → (p.print_count + 1 ≡ suc n)
        × (0 ≡ suc n % 4)
        × ((p.pattern_number + 1) % 2 ≡ suc n / 4 % 2)
        × (p.output ≡ p.output)
        × (p.sems ≡ p.sems)
        × (p.pc ≡ p.pc)
  counted_turn a b c k = (omega arith, omega arith, omega arith, refl, refl, refl)

  counted_fields :
      p.print_count ≡ n
      → p.step ≡ n % 4
      → p.pattern_number ≡ n / 4 % 2
      → ((counted p).print_count ≡ suc n)
        × ((counted p).step ≡ suc n % 4)
        × ((counted p).pattern_number ≡ suc n / 4 % 2)
        × ((counted p).output ≡ p.output)
        × ((counted p).sems ≡ p.sems)
        × ((counted p).pc ≡ p.pc)
  counted_fields a b c = elim (Bool-cases (ltb (p.step + 1) 4)) [
    | inl k ↦ rw k (counted_row a b c (ltb→lt (p.step + 1) 4 k))
    | inr k ↦ rw k (counted_turn a b c (ltb→ge (p.step + 1) 4 k))
  ]

  count-Next : Alive n (inside printed) p → Next e p
  unfolding act
  count-Next alive =
      let f = counted_fields alive.prints alive.step alive.pattern_number in
      (
        record (counted p) { pc = update p.pc e waking },
        ap (λ y. act e y p) (here printed alive).0,
        inl (
          n,
          inside waking,
          record {
            fits =
                subst (λ s. Fits (roles_of (inside waking) e) none_free s (update p.pc e waking))
                  (sym f.4) (stands-Fits printed waking alive);
            out = f.3 ∙ alive.out;
            prints = f.0;
            step = f.1;
            pattern_number = f.2;
            legal = alive.legal;
          },
        ),
      )

  apart : e ≢ owner (suc n)
  apart k = owner-suc n (sym k)

  -- The next owner had no turn.
  next-Looks :
      Alive n (inside waking) p
      → Looks rest (owner (suc n)) (p.sems (owner (suc n))) (p.pc (owner (suc n)))
  next-Looks alive =
      subst (λ o. Looks o (owner (suc n)) (p.sems (owner (suc n))) (p.pc (owner (suc n))))
        (one_role-other e (owner (suc n)) (stands waking) apart)
        (alive.fits.each (owner (suc n)) (owner-lt (suc n)))

  -- The turn passes to the next owner, while this one still holds the mutex.
  pass-Next :
      (b : Bool) (sems : ℕ → Semaphore) (pc : ℕ → Pc)
      → Alive n (inside waking) p
      → signal_on e (owner (suc n)) unlocking p ≡ record p { sems = sems; pc = pc }
      → Fits (two_roles e (owner (suc n)) (owner_role b)) none_free sems pc
      → Next e p
  unfolding act
  pass-Next b sems pc alive eq fits = (
    record p { sems = sems; pc = pc },
    ap (λ y. act e y p) (here waking alive).0
        ∙ ap (λ o. wake_next e o p)
            ((λ i. next_sem (alive.pattern_number i) (alive.step i)) ∙ next_sem-owner (suc n))
        ∙ ap some eq,
    inl (
      suc n,
      held e b,
      record {
        fits = fits;
        out = alive.out;
        prints = alive.prints;
        step = alive.step;
        pattern_number = alive.pattern_number;
        legal = (alive.legal, owner-lt n, apart);
      },
    ),
  )

  wake-Next : Alive n (inside waking) p → Next e p
  wake-Next alive = wakes (next-Looks alive)
    where
      k : ℕ
      k = owner (suc n)

      moved :
          Fits
            (update (one_role e (stands waking)) e (stands unlocking))
            none_free
            p.sems
            (update p.pc e unlocking)
      moved = change_pc-Fits alive.fits e (stands unlocking) unlocking (refl, (here waking alive).1)

      wakes : Looks rest k (p.sems k) (p.pc k) → Next e p
      wakes (inl (at, s)) =
          pass-Next false (update p.sems k one_free) (update p.pc e unlocking) alive
            (signal_on-free e k p unlocking s)
            (Fits-same (passed e k (stands waking) permit) (
              change_sem-Fits moved k permit one_free (owner-lt (suc n))
                (elsewhere p.pc e k unlocking apart ∙ at, refl)))
      wakes (inr (at, s)) =
          pass-Next true (update p.sems k none_free) (update (update p.pc e unlocking) k locking)
            alive (signal_on-awaited e k p unlocking k turn_blocked s apart at)
            (Fits-same (passed e k (stands waking) (stands locking)) (
              change-Fits moved k (stands locking) none_free locking (owner-lt (suc n))
                (refl, refl)))

  -- The owner in its critical section.
  pub inside-Next : (x : Pc) → Alive n (inside x) p → Next e p
  inside-Next checking alive = check-Next alive
  inside-Next printing alive = print-Next alive
  inside-Next printed alive = count-Next alive
  inside-Next waking alive = wake-Next alive
  inside-Next turn alive = absurd alive.legal
  inside-Next turn_blocked alive = absurd alive.legal
  inside-Next locking alive = absurd alive.legal
  inside-Next lock_blocked alive = absurd alive.legal
  inside-Next unlocking alive = absurd alive.legal
  inside-Next (leaving _) alive = absurd alive.legal
  inside-Next exited alive = absurd alive.legal
