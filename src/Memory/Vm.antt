-- ===== src/Memory/Vm.antt =====
-- The address space of a process, `ProcessVm` of pkg/kernel/src/proc/vm/mod.rs, with the counting of
-- pkg/kernel/src/proc/paging.rs. A fork shares the page table and the end of the heap.
pub mod CleanUp
pub mod Loading
use operating_system_experim.Prelude.{
  ℕ, ◌+◌, ◌-◌, ◌*◌, ◌%◌, ◌^◌, Bool, true, false, ◌&&◌, Option, none, some, List, [], ◌∷◌, ◌==◌,
}
use operating_system_experim.Memory.Frames.{BootInfoFrameAllocator, deallocate_frame}
use operating_system_experim.Memory.Heap.{Mapper, Mapping, unmap_range, heap_start}
use operating_system_experim.Memory.Heap as heap
use operating_system_experim.Memory.Stack as stack
use operating_system_experim.Memory.Stack.{
  Addresses, Stack, Bytes, Search, found, panicked, unfinished, kstack, empty,
}

-- What the processes of one page table share: the table, the frame of its root, how many use it, and
-- the end of the heap.
pub record Shared (Table : Type 0) : Type 0 where
  pub table : Table
  pub root : ℕ
  pub users : ℕ
  pub heap_end : ℕ

-- The code is held by the first process of a table, as its ranges of pages, the last included.
pub record ProcessVm : Type 0 where
  pub stack : Stack
  pub code : List (ℕ × ℕ)
  pub code_usage : ℕ

abbrev pub new : ProcessVm
new = record { stack = empty; code = []; code_usage = 0 }

-- How many pages a range has, the last included.
abbrev pub range_count : ℕ × ℕ → ℕ
range_count (first, last) = last + 1 - first

unfoldable pub total_usage : List (ℕ × ℕ) → ℕ
total_usage [] = 0
total_usage (range ∷ ranges) = (range_count range * 4096 + total_usage ranges) % 2 ^ 64

unfoldable pub init_kernel_vm : List (ℕ × ℕ) → ProcessVm → ProcessVm
unfolding total_usage
init_kernel_vm pages vm = record { stack = kstack; code = pages; code_usage = total_usage pages }

abbrev pub memory_usage : {Table : Type 0} → ProcessVm → Shared Table → ℕ
memory_usage vm s =
    (stack.memory_usage vm.stack + (s.heap_end - heap_start) + vm.code_usage) % 2 ^ 64

module _ (x : Mapper) where
  -- `Heap::brk` on the shared end.
  unfoldable pub brk :
      Option ℕ
      → Shared x.Table
      → BootInfoFrameAllocator
      → Option ℕ × Shared x.Table × BootInfoFrameAllocator
  unfolding heap.brk
  brk addr s alloc =
      let (answer, heap_end, table, alloc') = heap.brk x addr s.heap_end s.table alloc in
      (answer, record s { table = table; heap_end = heap_end }, alloc')

  -- The loop over the ranges of the code.
  unfoldable pub unmap_code : List (ℕ × ℕ) → x.Table → BootInfoFrameAllocator → Mapping x.Table
  unfolding unmap_range
  unmap_code [] table alloc = (true, table, alloc)
  unmap_code ((first, last) ∷ ranges) table alloc =
      let (done, table', alloc') = unmap_range x first (range_count (first, last)) table alloc in
      elim done [ false ↦ (false, table', alloc') | true ↦ unmap_code ranges table' alloc' ]

  module _ (free_tables : x.Table → BootInfoFrameAllocator → x.Table × BootInfoFrameAllocator) where
    -- What the last process of a table frees besides its stack: the heap, the code, the tables of the
    -- levels 1 to 3 (`free_tables`, which is `clean_up` of the mapper), and the root.
    unfoldable pub clean_up_shared :
        ProcessVm
        → Shared x.Table
        → BootInfoFrameAllocator
        → Bool × Shared x.Table × BootInfoFrameAllocator
    unfolding heap.clean_up unmap_code deallocate_frame
    clean_up_shared vm s alloc =
        let (freed, heap_end, table1, alloc1) = heap.clean_up x s.heap_end s.table alloc in
        elim freed [
          | false ↦ (false, record s { table = table1; heap_end = heap_end }, alloc1)
          | true ↦
              let (done, table2, alloc2) = unmap_code vm.code table1 alloc1 in
              elim done [
                | false ↦ (false, record s { table = table2; heap_end = heap_end }, alloc2)
                | true ↦
                    let (table3, alloc3) = free_tables table2 alloc2 in
                    (
                      true,
                      record s { table = table3; heap_end = heap_end },
                      deallocate_frame alloc3 s.root,
                    )
              ]
        ]

    unfoldable pub clean_up :
        ProcessVm
        → Shared x.Table
        → BootInfoFrameAllocator
        → Bool × ProcessVm × Shared x.Table × BootInfoFrameAllocator
    unfolding stack.clean_up clean_up_shared
    clean_up vm s alloc =
        let (freed, stack', table1, alloc1) = stack.clean_up x vm.stack s.table alloc in
        let vm' : ProcessVm = record vm { stack = stack' } in
        let s' : Shared x.Table = record s { table = table1 } in
        elim (freed && s.users == 1) [
          | false ↦ (freed, vm', s', alloc1)
          | true ↦ let (done, s2, alloc2) = clean_up_shared vm s' alloc1 in (done, vm', s2, alloc2)
        ]

    -- The result of the clean-up only goes to the log; the process's share of the table ends.
    unfoldable pub drop_vm :
        ProcessVm
        → Shared x.Table
        → BootInfoFrameAllocator
        → Shared x.Table × BootInfoFrameAllocator
    unfolding clean_up
    drop_vm vm s alloc =
        let (done, vm', s', alloc') = clean_up vm s alloc in
        (record s' { users = s'.users - 1 }, alloc')

  module _ (v : Addresses) where
    unfoldable pub fork :
        ℕ
        → ProcessVm
        → ℕ
        → Bytes
        → Shared x.Table
        → BootInfoFrameAllocator
        → Search (ProcessVm × Bytes × Shared x.Table × BootInfoFrameAllocator)
    unfolding stack.vfork
    fork fuel vm offset bytes s alloc =
        elim (stack.vfork v x fuel vm.stack offset bytes s.table alloc) [
          | panicked ↦ panicked
          | unfinished ↦ unfinished
          | found (stack', bytes', table', alloc') ↦ found (
            record { stack = stack'; code = []; code_usage = 0 },
            bytes',
            record s { table = table'; users = s.users + 1 },
            alloc',
          )
        ]

    unfoldable pub handle_page_fault :
        ProcessVm
        → ℕ
        → ℕ
        → Shared x.Table
        → BootInfoFrameAllocator
        → Option (Bool × ProcessVm × Shared x.Table × BootInfoFrameAllocator)
    unfolding stack.handle_page_fault
    handle_page_fault vm addr pid s alloc =
        elim (stack.handle_page_fault v x vm.stack addr pid s.table alloc) [
          | none ↦ none
          | some (handled, stack', table', alloc') ↦
              some (handled, record vm { stack = stack' }, record s { table = table' }, alloc')
        ]
