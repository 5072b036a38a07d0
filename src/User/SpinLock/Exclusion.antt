-- ===== src/User/SpinLock/Exclusion.antt =====
-- The lock keeps all but one process out.
use operating_system_experim.Prelude.{
  ℕ, ◌≡◌, refl, sym, ap, subst, ◌∙◌, ◌≢◌, inl, inr, Bool, true, false, List, [], ◌∷◌, ◌==◌, eq→==,
  ne→==, ==→eq, ==→ne, Bool-cases, update,
}
use operating_system_experim.User.SpinLock.{
  SpinLock, new, try_acquire, release, Place, away, spinning, behind, Threads, step, run, start,
}

-- The bolt is set just while a process is behind the lock, and no two are.
pub record Exclusive (t : Threads) : Type 0 where
  pub alone : (i j : ℕ) → t.place i ≡ behind → t.place j ≡ behind → i ≡ j
  pub bolted : (i : ℕ) → t.place i ≡ behind → t.lock.bolt ≡ true
  pub owned : t.lock.bolt ≡ true → (i : ℕ) × (t.place i ≡ behind)

away-out : away ≢ behind
away-out h = cc h

spinning-out : spinning ≢ behind
spinning-out h = cc h

bolts_differ : true ≢ false
bolts_differ h = cc h

tried-held : (t : Threads) → t.lock.bolt ≡ true → try_acquire t.lock ≡ (t.lock, false)
unfolding try_acquire
tried-held t e = rw e

tried-free :
    (t : Threads) → t.lock.bolt ≡ false → try_acquire t.lock ≡ (record { bolt = true }, true)
unfolding try_acquire
tried-free t e = rw e

-- A place that is written and is not behind the lock.
moved :
    (place : ℕ → Place) (i : ℕ) (x : Place) (j : ℕ)
    → x ≢ behind
    → update place i x j ≡ behind
    → (i ≢ j) × (place j ≡ behind)
moved place i x j out h = elim (Bool-cases (i == j)) [
  | inl e ↦ absurd (out (subst (λ y. y ≡ behind) (rw e) h))
  | inr e ↦ (==→ne i j e, subst (λ y. y ≡ behind) (rw e) h)
]

kept : (place : ℕ → Place) (i j : ℕ) (x : Place) → i ≢ j → update place i x j ≡ place j
kept place i j x ne = rw (ne→== i j ne)

outside-Exclusive :
    (t : Threads) (i : ℕ) (x : Place)
    → x ≢ behind
    → t.place i ≢ behind
    → Exclusive t
    → Exclusive (record t { place = update t.place i x })
outside-Exclusive t i x out was h = record {
  alone = λ j k a b. h.alone j k (moved t.place i x j out a).1 (moved t.place i x k out b).1;
  bolted = λ j a. h.bolted j (moved t.place i x j out a).1;
  owned =
      λ b. let (k, at) = h.owned b in (k, kept t.place i k x (λ e. was (ap t.place e ∙ at)) ∙ at);
}

-- Who is behind the lock after `i` has entered a free one.
entered :
    (t : Threads) (i j : ℕ)
    → t.lock.bolt ≡ false
    → Exclusive t
    → update t.place i behind j ≡ behind
    → j ≡ i
entered t i j free h at = elim (Bool-cases (i == j)) [
  | inl e ↦ sym (==→eq i j e)
  | inr e ↦ absurd (bolts_differ (sym (h.bolted j (subst (λ y. y ≡ behind) (rw e) at)) ∙ free))
]

enter-Exclusive :
    (t : Threads) (i : ℕ) (l : SpinLock)
    → t.lock.bolt ≡ false
    → l.bolt ≡ true
    → Exclusive t
    → Exclusive (record { lock = l; place = update t.place i behind })
enter-Exclusive t i l free set h = record {
  alone = λ j k a b. entered t i j free h a ∙ sym (entered t i k free h b);
  bolted = λ j a. set;
  owned = λ b. (i, rw (eq→== i i refl));
}

leave-Exclusive :
    (t : Threads) (i : ℕ) (l : SpinLock)
    → t.place i ≡ behind
    → l.bolt ≡ false
    → Exclusive t
    → Exclusive (record { lock = l; place = update t.place i away })
leave-Exclusive t i l at free h = record {
  alone = λ j k a b.
      h.alone j k (moved t.place i away j away-out a).1 (moved t.place i away k away-out b).1;
  bolted = λ j a. let m = moved t.place i away j away-out a in absurd (m.0 (h.alone i j at m.1));
  owned = λ b. absurd (bolts_differ (sym b ∙ free));
}

spin-Exclusive :
    (t : Threads) (i : ℕ) (b : Bool)
    → t.lock.bolt ≡ b
    → t.place i ≡ spinning
    → Exclusive t
    → Exclusive (step i spinning t)
unfolding step
spin-Exclusive t i true e at h =
    rw (tried-held t e)
      (outside-Exclusive t i spinning spinning-out (λ k. spinning-out (sym at ∙ k)) h)
spin-Exclusive t i false e at h =
    rw (tried-free t e) (enter-Exclusive t i (record { bolt = true }) e refl h)

step-Exclusive :
    (t : Threads) (i : ℕ) (x : Place) → t.place i ≡ x → Exclusive t → Exclusive (step i x t)
unfolding step release
step-Exclusive t i away at h =
    outside-Exclusive t i spinning spinning-out (λ k. away-out (sym at ∙ k)) h
step-Exclusive t i spinning at h = spin-Exclusive t i t.lock.bolt refl at h
step-Exclusive t i behind at h = leave-Exclusive t i (release t.lock) at refl h

run-Exclusive_from : (order : List ℕ) (t : Threads) → Exclusive t → Exclusive (run order t)
unfolding run
run-Exclusive_from [] t h = h
run-Exclusive_from (i ∷ order) t h =
    run-Exclusive_from order (step i (t.place i) t) (step-Exclusive t i (t.place i) refl h)

-- In whatever order any number of processes take their steps to acquire and release the lock, no two
-- are behind it at once, and its bolt is set just while one is.
pub run-Exclusive : (order : List ℕ) → Exclusive (run order start)
unfolding start new
run-Exclusive order =
    run-Exclusive_from order (record { lock = record { bolt = false }; place = λ i. away })
      (record {
        alone = λ i j a b. absurd (away-out a);
        bolted = λ i a. absurd (away-out a);
        owned = λ b. absurd (bolts_differ (sym b));
      })
