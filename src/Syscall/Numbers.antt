-- ===== src/Syscall/Numbers.antt =====
-- The numbers of the system calls and the registers that carry them: pkg/syscall/src/lib.rs and macros.rs,
-- and `SyscallArgs::new` of pkg/kernel/src/interrupt/syscall/mod.rs.
use operating_system_experim.Prelude.{
  ℕ, ◌≡◌, refl, ap, ◌⊎◌, inl, inr, List, [], ◌∷◌, arith, ◌==◌, Bool-cases,
}
use operating_system_experim.Proc.World.{Context}
use operating_system_experim.Syscall.{Syscall, number, calls, from, find_call, args_of}
use operating_system_experim.Syscall.User.{syscall0, syscall1, syscall2, syscall3}

pub from-number : (s : Syscall) → from (number s) ≡ s
unfolding number find_call
from-number Syscall.read = refl
from-number Syscall.write = refl
from-number Syscall.open_file = refl
from-number Syscall.close_file = refl
from-number Syscall.list_dir = refl
from-number Syscall.get_pid = refl
from-number Syscall.vfork = refl
from-number Syscall.spawn = refl
from-number Syscall.exit_process = refl
from-number Syscall.wait_pid = refl
from-number Syscall.kill = refl
from-number Syscall.sem = refl
from-number Syscall.brk = refl
from-number Syscall.list_app = refl
from-number Syscall.stat = refl
from-number Syscall.allocate = refl
from-number Syscall.deallocate = refl
from-number Syscall.unknown = refl

find_call-found :
    (n : ℕ) (ss : List Syscall) → (number (find_call n ss) ≡ n) ⊎ (find_call n ss ≡ Syscall.unknown)
unfolding find_call
find_call-found n [] = inr refl
find_call-found n (s ∷ ss) = elim (Bool-cases (number s == n)) [
  | inl here ↦ ground (arith, here)
  | inr there ↦ rw (there, find_call) (find_call-found n ss)
]

-- The dispatcher takes from the registers just the call and the arguments that the user library
-- put there, for calls of any number of arguments; a number that it takes for a known call is that
-- call's number.
pub args_of-syscall :
    (s : Syscall) (a b d n : ℕ) (c : Context)
    → (args_of (syscall3 s a b d c) ≡ record { syscall = s; arg0 = a; arg1 = b; arg2 = d })
      × (args_of (syscall2 s a b c) ≡ record { syscall = s; arg0 = a; arg1 = b; arg2 = c.rdx })
      × (args_of (syscall1 s a c) ≡ record { syscall = s; arg0 = a; arg1 = c.rsi; arg2 = c.rdx })
      × (args_of (syscall0 s c) ≡ record { syscall = s; arg0 = c.rdi; arg1 = c.rsi; arg2 = c.rdx })
      × ((number (from n) ≡ n) ⊎ (from n ≡ Syscall.unknown))
unfolding syscall0 syscall1 syscall2 syscall3
args_of-syscall s a b d n c = (
  ap (λ t. record { syscall = t; arg0 = a; arg1 = b; arg2 = d }) (from-number s),
  ap (λ t. record { syscall = t; arg0 = a; arg1 = b; arg2 = c.rdx }) (from-number s),
  ap (λ t. record { syscall = t; arg0 = a; arg1 = c.rsi; arg2 = c.rdx }) (from-number s),
  ap (λ t. record { syscall = t; arg0 = c.rdi; arg1 = c.rsi; arg2 = c.rdx }) (from-number s),
  find_call-found n calls,
)
