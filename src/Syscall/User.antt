-- ===== src/Syscall/User.antt =====
-- The user library's side of the system calls: pkg/syscall/src/macros.rs and pkg/lib/src/syscall.rs. A
-- call puts its number and arguments in the registers of the process; what it returns is read from
-- rax, with which the process goes on.
use operating_system_experim.Prelude.{
  ℕ, ◌%◌, ◌^◌, Bool, Option, none, some, leb, ◌==◌, if◌then◌else◌,
}
use operating_system_experim.Proc.World.{Context}
use operating_system_experim.Syscall.{Syscall, number, usize_max}

unfoldable pub syscall0 : Syscall → Context → Context
unfolding number
syscall0 n c = record c { rax = number n }

unfoldable pub syscall1 : Syscall → ℕ → Context → Context
unfolding number
syscall1 n arg0 c = record c { rax = number n; rdi = arg0 }

unfoldable pub syscall2 : Syscall → ℕ → ℕ → Context → Context
unfolding number
syscall2 n arg0 arg1 c = record c { rax = number n; rdi = arg0; rsi = arg1 }

unfoldable pub syscall3 : Syscall → ℕ → ℕ → ℕ → Context → Context
unfolding number
syscall3 n arg0 arg1 arg2 c = record c { rax = number n; rdi = arg0; rsi = arg1; rdx = arg2 }

-- Buffers and paths are their pointer and their length.
abbrev pub sys_write : ℕ → ℕ → ℕ → Context → Context
sys_write fd ptr len = syscall3 Syscall.write fd ptr len

abbrev pub sys_read : ℕ → ℕ → ℕ → Context → Context
sys_read fd ptr len = syscall3 Syscall.read fd ptr len

abbrev pub sys_wait_pid : ℕ → Context → Context
sys_wait_pid pid = syscall1 Syscall.wait_pid pid

abbrev pub sys_list_app : Context → Context
sys_list_app = syscall0 Syscall.list_app

abbrev pub sys_stat : Context → Context
sys_stat = syscall0 Syscall.stat

abbrev pub sys_allocate : ℕ → Context → Context
sys_allocate layout = syscall1 Syscall.allocate layout

abbrev pub sys_deallocate : ℕ → ℕ → Context → Context
sys_deallocate ptr layout = syscall2 Syscall.deallocate ptr layout

abbrev pub sys_spawn : ℕ → ℕ → Context → Context
sys_spawn ptr len = syscall2 Syscall.spawn ptr len

abbrev pub sys_get_pid : Context → Context
sys_get_pid = syscall0 Syscall.get_pid

abbrev pub sys_exit : ℕ → Context → Context
sys_exit code = syscall1 Syscall.exit_process code

abbrev pub sys_kill : ℕ → Context → Context
sys_kill pid = syscall1 Syscall.kill pid

abbrev pub sys_fork : Context → Context
sys_fork = syscall0 Syscall.vfork

abbrev pub sys_new_sem : ℕ → ℕ → Context → Context
sys_new_sem key value = syscall3 Syscall.sem 0 key value

abbrev pub sys_sem_wait : ℕ → Context → Context
sys_sem_wait key = syscall2 Syscall.sem 1 key

abbrev pub sys_sem_signal : ℕ → Context → Context
sys_sem_signal key = syscall2 Syscall.sem 2 key

abbrev pub sys_sem_free : ℕ → Context → Context
sys_sem_free key = syscall2 Syscall.sem 3 key

abbrev pub list_dir : ℕ → ℕ → Context → Context
list_dir ptr len = syscall2 Syscall.list_dir ptr len

abbrev pub open_path : ℕ → ℕ → Context → Context
open_path ptr len = syscall2 Syscall.open_file ptr len

abbrev pub close_fd : ℕ → Context → Context
close_fd fd = syscall1 Syscall.close_file fd

abbrev pub sys_brk : Option ℕ → Context → Context
sys_brk none = syscall1 Syscall.brk 0
sys_brk (some addr) = syscall1 Syscall.brk addr

-- `sys_write` and `sys_read`: a negative `isize` is no count.
abbrev pub count_of : Context → Option ℕ
count_of c = if leb (2 ^ 63) c.rax then none else some c.rax

-- The four calls on semaphores: whether the call succeeded.
abbrev pub succeeded : Context → Bool
succeeded c = c.rax == 0

abbrev pub pid_of : Context → ℕ
pid_of c = c.rax % 2 ^ 16

pub data ListDirError : Type 0 where
  null_path empty_path path_too_long invalid_utf8 empty_string unknown_error : ListDirError

-- The result of `list_dir`; `none` is success.
unfoldable pub list_dir_error : Context → Option ListDirError
list_dir_error c =
    if c.rax == 0
    then none
    else some (
        if c.rax == 1
        then null_path
        else (if c.rax == 2
            then empty_path
            else (if c.rax == 3
                then path_too_long
                else (if c.rax == 4
                    then invalid_utf8
                    else (if c.rax == 5 then empty_string else unknown_error)))))

abbrev pub fd_of : Context → Option ℕ
fd_of c = if c.rax == usize_max then none else some (c.rax % 2 ^ 8)

abbrev pub closed_of : Context → Bool
closed_of c = c.rax == 0

abbrev pub break_of : Context → Option ℕ
break_of c = if c.rax == usize_max then none else some c.rax
