-- ===== src/Syscall/Service.antt =====
-- The services of the system calls, pkg/kernel/src/interrupt/syscall/service.rs, with the tests of user
-- pointers of pkg/kernel/src/memory/address.rs. `none` is a panic; a service answers what goes to rax.
use operating_system_experim.Prelude.{
  ℕ, ◌+◌, ◌-◌, ◌%◌, ◌^◌, Bool, false, not, ◌||◌, Option, none, some, List, ltb, ◌==◌, if◌then◌else◌,
  ◌>>=◌,
}
use operating_system_experim.Proc.World.{Machine, Context, World, set_rax, get_pid}
use operating_system_experim.Proc.Manager.{current}
use operating_system_experim.Proc.Resources.{file}
use operating_system_experim.Proc.Calls.{
  process_exit, wait_pid, kill_call, spawn, vfork, sem_new, remove_sem, sem_wait, sem_signal, brk,
  read, write, open_resource, close_resource,
}
use operating_system_experim.Syscall.{Services, SyscallArgs, usize_max}

module _ {m : Machine} where
  abbrev pub exit_process : SyscallArgs → Context → World m → Option (Context × World m)
  exit_process args context w = process_exit args.arg0 context w

  abbrev pub sys_wait_pid : SyscallArgs → Context → World m → Option (Context × World m)
  sys_wait_pid args context w = wait_pid (args.arg0 % 2 ^ 16) context w

  unfoldable pub sys_kill : SyscallArgs → Context → World m → Option (Context × World m)
  sys_kill args context w =
      if args.arg0 == 1 then some (context, w) else kill_call (args.arg0 % 2 ^ 16) context w

  abbrev pub sys_get_pid : World m → Option (ℕ × World m)
  sys_get_pid w = do pid ← get_pid w; some (pid, w)

  abbrev pub sys_vfork : Context → World m → Option (Context × World m)
  sys_vfork context w = vfork context w

  -- The answer of a call goes to rax.
  abbrev pub answer_rax : Context → Option (ℕ × World m) → Option (Context × World m)
  answer_rax context none = none
  answer_rax context (some (answer, w)) = some (set_rax answer context, w)

  -- Keys are of 32 bits.
  unfoldable pub sys_sem : SyscallArgs → Context → World m → Option (Context × World m)
  sys_sem args context w =
      let key = args.arg1 % 2 ^ 32 in
      if args.arg0 == 0
      then answer_rax context (sem_new key args.arg2 w)
      else (if args.arg0 == 1
          then sem_wait key context w
          else (if args.arg0 == 2
              then sem_signal key context w
              else (if args.arg0 == 3
                  then answer_rax context (remove_sem key w)
                  else some (set_rax usize_max context, w))))

  unfoldable pub sys_close : SyscallArgs → World m → Option (ℕ × World m)
  unfolding close_resource
  sys_close args w = do
    (closed, w1) ← close_resource (args.arg0 % 2 ^ 8) w
    some (if closed then 0 else usize_max, w1)

module _ {m : Machine} (k : Services m) where
  unfoldable pub is_user_accessable : m.Memory → ℕ → Bool
  is_user_accessable memory addr = elim (k.user_flag memory (m.truncate addr)) [
    | none ↦ false
    | some user ↦ user
  ]

  unfoldable pub as_user_slice : m.Memory → ℕ → ℕ → Option (List ℕ)
  unfolding is_user_accessable
  as_user_slice memory ptr len =
      if is_user_accessable memory ptr then some (k.bytes_at memory ptr len) else none

  unfoldable pub spawn_process : SyscallArgs → World m → Option (ℕ × World m)
  unfolding spawn
  spawn_process args w = do
    (pid, w1) ← spawn (k.bytes_at w.memory args.arg0 args.arg1) w
    elim pid [ none ↦ some (0, w1) | some p ↦ some (p, w1) ]

  unfoldable pub sys_write : SyscallArgs → World m → Option (ℕ × World m)
  unfolding as_user_slice write
  sys_write args w = elim (as_user_slice w.memory args.arg1 args.arg2) [
    | none ↦ some (usize_max, w)
    | some buf ↦ do count ← write (args.arg0 % 2 ^ 8) buf w; some (count, w)
  ]

  -- The slice is mutable: what `read` puts there is stored behind the pointer.
  unfoldable pub sys_read : SyscallArgs → World m → Option (ℕ × World m)
  unfolding as_user_slice read
  sys_read args w = elim (as_user_slice w.memory args.arg1 args.arg2) [
    | none ↦ some (usize_max, w)
    | some buf ↦ do
      (count, buf', w1) ← read (args.arg0 % 2 ^ 8) buf w
      some (count, record w1 { memory = k.put_bytes w1.memory args.arg1 buf' })
  ]

  unfoldable pub sys_allocate : SyscallArgs → World m → Option (ℕ × World m)
  sys_allocate args w = do
    size ← k.layout_size w.memory args.arg0
    let (ptr, memory) = k.allocate_first_fit w.memory args.arg0
    let answer : ℕ = elim ptr [ none ↦ 0 | some p ↦ p ]
    if size == 0 then some (0, w) else some (answer, record w { memory = memory })

  -- After both pointers have been tested, the last byte of the block is.
  unfoldable pub deallocate_block : SyscallArgs → World m → Option (World m)
  unfolding is_user_accessable
  deallocate_block args w = do
    size ← k.layout_size w.memory args.arg1
    if size == 0 || not (is_user_accessable w.memory ((args.arg0 + size - 1) % 2 ^ 64))
        then some w
        else some (record w { memory = k.deallocate w.memory args.arg0 args.arg1 })

  unfoldable pub sys_deallocate : SyscallArgs → World m → Option (World m)
  unfolding is_user_accessable deallocate_block
  sys_deallocate args w =
      if args.arg0 == 0
        || (not (is_user_accessable w.memory args.arg0)
            || not (is_user_accessable w.memory args.arg1))
      then some w
      else deallocate_block args w

  -- The listing itself only prints.
  unfoldable pub list_dir : SyscallArgs → World m → ℕ
  list_dir args w =
      if args.arg0 == 0 || args.arg1 == 0
      then 1
      else (if ltb 4096 args.arg1
          then 2
          else (if k.is_utf8 (k.bytes_at w.memory args.arg0 args.arg1) then 0 else 3))

  unfoldable pub open_checked : List ℕ → World m → Option (ℕ × World m)
  unfolding open_resource
  open_checked path w = do
    _ ← current w
    elim (k.open_path path) [
      | none ↦ some (usize_max, w)
      | some handle ↦ open_resource (file handle) w
    ]

  unfoldable pub sys_open : SyscallArgs → World m → Option (ℕ × World m)
  unfolding open_checked
  sys_open args w =
      let path = k.bytes_at w.memory args.arg0 args.arg1 in
      if args.arg0 == 0 || (args.arg1 == 0 || (ltb 4096 args.arg1 || not (k.is_utf8 path)))
      then some (usize_max, w)
      else open_checked path w

  -- Zero asks for the end of the heap. An address that `VirtAddr::new` refuses panics.
  abbrev pub brk_argument : ℕ → Option (Option ℕ)
  brk_argument arg =
      if arg == 0
      then some none
      else (elim (k.new_address arg) [ none ↦ none | some a ↦ some (some a) ])

  unfoldable pub sys_brk : SyscallArgs → World m → Option (ℕ × World m)
  unfolding brk
  sys_brk args w = do
    addr ← brk_argument args.arg0
    (new_end, w1) ← brk addr w
    elim new_end [ none ↦ some (usize_max, w1) | some e ↦ some (e, w1) ]
