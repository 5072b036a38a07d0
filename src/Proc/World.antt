-- ===== src/Proc/World.antt =====
-- The data of the process manager: context.rs, pid.rs, data.rs, processor.rs and process.rs of
-- pkg/kernel/src/proc, with the state that they share. `none` is a panic of the kernel.
use operating_system_experim.Prelude.{
  ℕ, ◌+◌, ◌%◌, ◌^◌, Bool, true, false, ◌&&◌, Option, none, some, List, [], ◌∷◌, ◌++◌, leb, ◌==◌,
  if◌then◌else◌, replicate, Map, update,
}
use operating_system_experim.Proc.Sync.{SemaphoreSet}
use operating_system_experim.Proc.Resources.{ResourceSet, default}

-- What this part takes of the address spaces (pkg/kernel/src/proc/vm, paging.rs), of the parsed
-- programs, of the file handles and of the crate `x86_64`.
pub record Machine : Type 1 where
  pub Vm : Type 0
  pub Memory : Type 0
  pub File : Type 0
  pub Elf : Type 0
  -- `ProcessVm::new(kproc.clone_page_table())`; panics when no frame is left
  pub new_vm : Vm → Memory → Option (Vm × Memory)
  -- `ProcessVm::load_elf`
  pub load_elf : Elf → Vm → Memory → Option (Vm × Memory)
  -- `ProcessVm::fork` with the offset of the new stack from the old one
  pub fork : Vm → ℕ → Memory → Option (Vm × ℕ × Memory)
  -- `Drop for ProcessVm`
  pub drop_vm : Vm → Memory → Memory
  -- `page_table.load()`
  pub load : Vm → Memory → Memory
  -- `ProcessVm::brk`
  pub brk : Vm → Option ℕ → Memory → Option ℕ × Memory
  -- `ProcessVm::handle_page_fault`
  pub page_fault : Vm → ℕ → Memory → Option (Bool × Vm × Memory)
  pub entry_point : Elf → ℕ
  pub read_file : File → ℕ → File × Option (List ℕ)
  -- `VirtAddr::new_truncate` and `VirtAddr += u64`
  pub truncate : ℕ → ℕ
  pub offset_address : ℕ → ℕ → Option ℕ
  pub user_code_selector : ℕ
  pub user_data_selector : ℕ

-- The registers that the system calls read and write, and the others, with the stack frame.
pub record Context : Type 0 where
  pub rax : ℕ
  pub rdi : ℕ
  pub rsi : ℕ
  pub rdx : ℕ
  pub other_regs : List ℕ
  pub instruction_pointer : ℕ
  pub code_segment : ℕ
  pub cpu_flags : ℕ
  pub stack_pointer : ℕ
  pub stack_segment : ℕ

abbrev pub default_context : Context
default_context = record {
  rax = 0;
  rdi = 0;
  rsi = 0;
  rdx = 0;
  other_regs = replicate 11 0;
  instruction_pointer = 0x1000;
  code_segment = 0;
  cpu_flags = 0;
  stack_pointer = 0x2000;
  stack_segment = 0;
}

abbrev pub set_rax : ℕ → Context → Context
set_rax value c = record c { rax = value }

-- `self.value` is overwritten by the argument's, and the other way round.
abbrev pub context_save : Context → Context → Context
context_save self context = context

abbrev pub context_restore : Context → Context → Context
context_restore self context = self

-- IOPL_HIGH | IOPL_LOW | INTERRUPT_FLAG is 0x3200.
unfoldable pub init_stack_frame : Machine → ℕ → ℕ → Context → Context
init_stack_frame m entry stack_top c = record c {
  stack_pointer = stack_top;
  instruction_pointer = entry;
  cpu_flags = 0x3200;
  code_segment = m.user_code_selector;
  stack_segment = m.user_data_selector;
}

pub data ProgramStatus : Type 0 where
  running ready blocked dead : ProgramStatus

-- Each field is an `Arc`: the identity of a shared object.
pub record ProcessData : Type 0 where
  pub env : ℕ
  pub resources : ℕ
  pub semaphores : ℕ

-- A process is known by its pid: the table keeps every process, so an `Arc` or an upgraded `Weak`
-- leads to the entry of the table, as long as the 16-bit counter of pids has not gone round.
-- `parent` is `none` for no parent, and `some none` for the empty `Weak`.
pub record Process (m : Machine) : Type 0 where
  pub name : List ℕ
  pub parent : Option (Option ℕ)
  pub children : List ℕ
  pub ticks_passed : ℕ
  pub status : ProgramStatus
  pub context : Context
  pub exit_code : Option ℕ
  pub proc_data : Option ProcessData
  pub proc_vm : Option m.Vm

-- The manager's fields, the static counter of pids, the pid of the one processor (0 for none), the
-- objects that processes share, the memory, and the keys typed ahead.
pub record World (m : Machine) : Type 0 where
  pub processes : Map (Process m)
  pub ready_queue : List ℕ
  pub wait_queue : Map (List ℕ)
  pub app_list : Option (List (List ℕ × m.Elf))
  pub next_pid : ℕ
  pub cpu : ℕ
  pub semaphores : ℕ → SemaphoreSet
  pub resources : ℕ → ResourceSet m.File
  pub next_object : ℕ
  pub memory : m.Memory
  pub keys : List ℕ

-- `children.retain(|c| c.pid() != child)`
unfoldable pub remove_pid : ℕ → List ℕ → List ℕ
remove_pid child [] = []
remove_pid child (c ∷ cs) = let rest = remove_pid child cs in if c == child then rest else c ∷ rest

module _ {m : Machine} where
  -- `ticks_passed` is a `usize`.
  abbrev pub tick : Process m → Process m
  tick p = record p { ticks_passed = (p.ticks_passed + 1) % 2 ^ 64 }

  abbrev pub pause : Process m → Process m
  pause p = record p { status = ready }

  abbrev pub resume : Process m → Process m
  resume p = record p { status = running }

  abbrev pub block_process : Process m → Process m
  block_process p = record p { status = blocked }

  abbrev pub set_return : ℕ → Process m → Process m
  set_return ret p = record p { context = set_rax ret p.context }

  abbrev pub save : Context → Process m → Process m
  save context p = record p { context = context_save p.context context; status = ready }

  abbrev pub add_child : ℕ → Process m → Process m
  add_child child p = record p { children = p.children ++ child ∷ [] }

  abbrev pub remove_child : ℕ → Process m → Process m
  remove_child child p = record p { children = remove_pid child p.children }

  abbrev pub set_parent : Option ℕ → Process m → Process m
  set_parent parent p = record p { parent = some parent }

  abbrev pub is_ready : Process m → Bool
  is_ready p = elim p.status [ ready ↦ true | _ ↦ false ]

  -- `ProcessId::new`: the counter of 16 bits goes round.
  abbrev pub new_pid : World m → ℕ × World m
  new_pid w = (w.next_pid, record w { next_pid = (w.next_pid + 1) % 2 ^ 16 })

  -- `ProcessData::default`: three new objects.
  abbrev pub new_data : World m → ProcessData × World m
  new_data w = (
    record { env = w.next_object; resources = w.next_object; semaphores = w.next_object },
    record w {
      next_object = w.next_object + 1;
      resources = update w.resources w.next_object default;
      semaphores = update w.semaphores w.next_object [];
    },
  )

  -- `Processor::get_pid`, with the panic of `processor::get_pid`.
  abbrev pub get_pid : World m → Option ℕ
  get_pid w = if w.cpu == 0 then none else some w.cpu

-- `to_ascii_lowercase`
abbrev pub ascii_lower : ℕ → ℕ
ascii_lower c = if leb b'A' c && leb c b'Z' then c + 32 else c
