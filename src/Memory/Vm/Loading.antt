-- ===== src/Memory/Vm/Loading.antt =====
-- The program of a process, `ProcessVm::load_elf` of pkg/kernel/src/proc/vm/mod.rs. `none` is a panic of
-- the kernel, which is also what an error of the loader becomes.
use operating_system_experim.Prelude.{ℕ, true, Option, none, some, List, is_some, ◌>>=◌}
use operating_system_experim.Memory.Heap.{Mapper}
use operating_system_experim.Memory.Stack as stack
use operating_system_experim.Memory.Stack.{Addresses, Bytes}
use operating_system_experim.Memory.Elf as elf
use operating_system_experim.Memory.Elf.{PageTable, ProgramHeader, Load}
use operating_system_experim.Memory.Vm.{ProcessVm}

-- The page table as the stack uses it: its pages can be written and executed.
abbrev pub mapper_of : (x : PageTable) → (x.Table → ℕ → Option (ℕ × x.Table)) → Mapper
mapper_of x unmap = record {
  Table = x.Table;
  map_to = λ table page frame user alloc.
      x.map_to table page frame (record { executable = true; writable = true; user = user }) alloc;
  unmap = unmap;
  is_mapped = λ table page. is_some (x.translate table page);
}

module _ (x : PageTable) (unmap : x.Table → ℕ → Option (ℕ × x.Table)) (v : Addresses) where
  unfoldable pub load_elf_code :
      Bytes → List ProgramHeader → ProcessVm → Load x → Option (ProcessVm × Load x)
  unfolding elf.load_elf
  load_elf_code input segments vm s = elim (elf.load_elf x v input true segments s) [
    | none ↦ none
    | some (loaded, s1) ↦ elim loaded [
      | none ↦ none
      | some (ranges, usage) ↦ some (record vm { code = ranges; code_usage = usage }, s1)
    ]
  ]

  unfoldable pub load_elf :
      Bytes → List ProgramHeader → ProcessVm → Load x → Option (ProcessVm × Load x)
  unfolding load_elf_code stack.init
  load_elf input segments vm s = do
    (vm1, s1) ← load_elf_code input segments vm s
    (stack', table, alloc) ← stack.init v (mapper_of x unmap) s1.table s1.alloc
    some (record vm1 { stack = stack' }, record s1 { table = table; alloc = alloc })
