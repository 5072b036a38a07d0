-- ===== src/Syscall.antt =====
-- The system calls: their numbers, of pkg/syscall/src/lib.rs, the registers that carry a call, and what
-- the services use of the rest of the kernel.
pub mod Service
pub mod Dispatcher
pub mod User
pub mod Numbers
pub mod Handshake
pub mod Wakeups
use operating_system_experim.Prelude.{ℕ, ◌-◌, ◌^◌, Bool, Option, List, [], ◌∷◌, ◌==◌, if◌then◌else◌}
use operating_system_experim.Proc.World.{Machine, Context}

pub data Syscall : Type 0 where
  read write open_file close_file list_dir get_pid vfork spawn exit_process wait_pid kill sem :
      Syscall
  brk list_app stat allocate deallocate unknown : Syscall

-- The discriminant of the call.
unfoldable pub number : Syscall → ℕ
number read = 0
number write = 1
number open_file = 14
number close_file = 15
number list_dir = 16
number get_pid = 39
number vfork = 40
number spawn = 59
number exit_process = 60
number wait_pid = 61
number kill = 62
number sem = 66
number brk = 67
number list_app = 65529
number stat = 65530
number allocate = 65533
number deallocate = 65534
number unknown = 65535

-- The calls that have a number of their own, in the order of the declaration.
abbrev pub calls : List Syscall
calls =
    read ∷ write ∷ open_file ∷ close_file ∷ list_dir ∷ get_pid ∷ vfork ∷ spawn ∷ exit_process
    ∷ wait_pid ∷ kill ∷ sem ∷ brk ∷ list_app ∷ stat ∷ allocate ∷ deallocate ∷ []

-- The first call of the list with the number, else the default.
unfoldable pub find_call : ℕ → List Syscall → Syscall
unfolding number
find_call n [] = unknown
find_call n (s ∷ ss) = if number s == n then s else find_call n ss

abbrev pub from : ℕ → Syscall
from n = find_call n calls

pub record SyscallArgs : Type 0 where
  pub syscall : Syscall
  pub arg0 : ℕ
  pub arg1 : ℕ
  pub arg2 : ℕ

-- The arguments as the dispatcher takes them from the registers.
abbrev pub args_of : Context → SyscallArgs
args_of c = record { syscall = from c.rax; arg0 = c.rdi; arg1 = c.rsi; arg2 = c.rdx }

-- `usize::MAX`
abbrev pub usize_max : ℕ
usize_max = 2 ^ 64 - 1

-- The memory of the user as the services read and write it, the allocator of the user heap, and the
-- files of the root file system.
pub record Services (m : Machine) : Type 0 where
  -- what `translate` finds at an address: whether the user can access it, if it is mapped
  pub user_flag : m.Memory → ℕ → Option Bool
  -- the bytes behind a pointer, and a store of bytes
  pub bytes_at : m.Memory → ℕ → ℕ → List ℕ
  pub put_bytes : m.Memory → ℕ → List ℕ → m.Memory
  -- `str::from_utf8` succeeds
  pub is_utf8 : List ℕ → Bool
  -- `VirtAddr::new`, which panics
  pub new_address : ℕ → Option ℕ
  -- `open_file` of the root file system
  pub open_path : List ℕ → Option m.File
  -- the size of the `Layout` behind a pointer; null panics
  pub layout_size : m.Memory → ℕ → Option ℕ
  -- `USER_ALLOCATOR`, with the pointer to the layout
  pub allocate_first_fit : m.Memory → ℕ → Option ℕ × m.Memory
  pub deallocate : m.Memory → ℕ → ℕ → m.Memory
