-- ===== src/User/Fish/Invariant.antt =====
-- What holds of the three processes over all steps: which of them has the permit or the mutex, and
-- how far the pattern is printed and counted.
use operating_system_experim.Prelude.{
  ℕ, suc, ◌/◌, ◌%◌, ◌≤◌, ◌<◌, ◌≡◌, ◌≢◌, ◌⊎◌, Bool, true, false, some, update,
}
use operating_system_experim.Proc.Sync.{Semaphore}
use operating_system_experim.User.Fish.{
  Pond, Pc, locking, lock_blocked, checking, printing, printed, waking, unlocking, total_prints,
  act,
}
use operating_system_experim.User.Fish.Pattern.{owner, picture}
use operating_system_experim.User.Fish.Roles.{
  none_free, one_free, awaited, Role, rest, permit, stands, Fits,
}

-- The owner of the turn before the mutex, with its permit taken or not, or inside; and the process `r`
-- that had the turn before and still holds the mutex, for which the owner may wait.
pub data Config : Type 0 where
  free : Bool → Config
  inside : Pc → Config
  held : ℕ → Bool → Config
  queued : ℕ → Config

abbrev pub owner_role : Bool → Role
owner_role false = permit
owner_role true = stands locking

abbrev pub one_role : ℕ → Role → ℕ → Role
one_role e o = update (λ _. rest) e o

abbrev pub two_roles : ℕ → ℕ → Role → ℕ → Role
two_roles r e o = update (update (λ _. rest) r (stands unlocking)) e o

abbrev pub roles_of : Config → ℕ → ℕ → Role
roles_of (free b) e = one_role e (owner_role b)
roles_of (inside x) e = one_role e (stands x)
roles_of (held r b) e = two_roles r e (owner_role b)
roles_of (queued r) e = two_roles r e (stands lock_blocked)

abbrev pub lock_of : Config → ℕ → Semaphore
lock_of (free b) e = one_free
lock_of (inside x) e = none_free
lock_of (held r b) e = none_free
lock_of (queued r) e = awaited e

-- How many characters stand in the output, and how many are counted.
abbrev pub shown : Config → ℕ → ℕ
shown (inside printed) n = suc n
shown (inside waking) n = suc n
shown c n = n

abbrev pub counts : Config → ℕ → ℕ
counts (inside waking) n = suc n
counts c n = n

abbrev pub Legal : Config → ℕ → Type 0
Legal (free b) n = n ≤ total_prints
Legal (inside checking) n = n ≤ total_prints
Legal (inside printing) n = n < total_prints
Legal (inside printed) n = n < total_prints
Legal (inside waking) n = n < total_prints
Legal (inside x) n = ⊥
Legal (held r b) n = (n ≤ total_prints) × (r < 3) × (r ≢ owner n)
Legal (queued r) n = (n ≤ total_prints) × (r < 3) × (r ≢ owner n)

-- Before the last turn has ended: `n` turns are over.
pub record Alive (n : ℕ) (c : Config) (p : Pond) : Type 0 where
  pub fits : Fits (roles_of c (owner n)) (lock_of c (owner n)) p.sems p.pc
  pub out : p.output ≡ picture (shown c n)
  pub prints : p.print_count ≡ counts c n
  pub step : p.step ≡ counts c n % 4
  pub pattern_number : p.pattern_number ≡ counts c n / 4 % 2
  pub legal : Legal c n

-- Nobody is about to print.
abbrev pub Calm : Pc → Type 0
Calm printing = ⊥
Calm printed = ⊥
Calm waking = ⊥
Calm _ = Unit

-- When all characters are printed.
pub record Over (p : Pond) : Type 0 where
  pub out : p.output ≡ picture total_prints
  pub prints : p.print_count ≡ total_prints
  pub calm : (i : ℕ) → i < 3 → Calm (p.pc i)

abbrev pub Inv : Pond → Type 0
Inv p = ((n : ℕ) × (c : Config) × Alive n c p) ⊎ Over p

-- What a step of process `i` leads to.
abbrev pub Next : ℕ → Pond → Type 0
Next i p = (q : Pond) × (act i (p.pc i) p ≡ some q) × Inv q
