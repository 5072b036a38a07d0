-- ===== src/Memory/Heap.antt =====
-- The heap of a process, pkg/kernel/src/proc/vm/heap.rs, with `map_range` and `unmap_range` of
-- pkg/elf/src/lib.rs. A page is its number, its address divided by 4096.
pub mod Pages
use operating_system_experim.Prelude.{
  ℕ, zero, suc, ◌+◌, ◌-◌, ◌*◌, ◌/◌, Bool, true, false, ◌||◌, Option, none, some, ltb, ◌==◌,
  if◌then◌else◌,
}
use operating_system_experim.Memory.Frames.{
  BootInfoFrameAllocator, allocate_frame, deallocate_frame,
}

-- What the heap uses of the `Mapper` of the crate `x86_64`. `map_to` may take frames for tables from
-- the allocator, whether it succeeds or not; `none` is an error.
pub record Mapper : Type 1 where
  pub Table : Type 0
  pub map_to : Table → ℕ → ℕ → Bool → BootInfoFrameAllocator → Option Table × BootInfoFrameAllocator
  pub unmap : Table → ℕ → Option (ℕ × Table)
  -- `translate_page` succeeds
  pub is_mapped : Table → ℕ → Bool

abbrev pub heap_start : ℕ
heap_start = 0x2000_0000_0000

abbrev pub heap_size : ℕ
heap_size = 0x100000 * 4096

-- The table and the allocator, which a failed call has changed up to the failure, and whether the
-- call succeeded.
abbrev pub Mapping : Type 0 → Type 0
Mapping Table = Bool × Table × BootInfoFrameAllocator

-- The loop of `map_range` over `count` pages.
unfoldable pub map_range :
    (x : Mapper) → ℕ → ℕ → Bool → x.Table → BootInfoFrameAllocator → Mapping x.Table
unfolding allocate_frame
map_range x page zero user table alloc = (true, table, alloc)
map_range x page (suc count) user table alloc =
    let (found, alloc1) = allocate_frame alloc in
    elim found [
      | none ↦ (false, table, alloc1)
      | some frame ↦
          let (mapped, alloc2) = x.map_to table page frame user alloc1 in
          elim mapped [
            | none ↦ (false, table, alloc2)
            | some table' ↦ map_range x (page + 1) count user table' alloc2
          ]
    ]

-- The loop of `unmap_range`, with `do_dealloc` set.
unfoldable pub unmap_range :
    (x : Mapper) → ℕ → ℕ → x.Table → BootInfoFrameAllocator → Mapping x.Table
unfolding deallocate_frame
unmap_range x page zero table alloc = (true, table, alloc)
unmap_range x page (suc count) table alloc = elim (x.unmap table page) [
  | none ↦ (false, table, alloc)
  | some (frame, table') ↦ unmap_range x (page + 1) count table' (deallocate_frame alloc frame)
]

-- The page after the last of the heap that ends at the address; an empty heap has none.
abbrev pub end_page : ℕ → ℕ
end_page address = if address == heap_start then address / 4096 else address / 4096 + 1

-- What the call leaves: the answer, the end of the heap, the table and the allocator.
abbrev pub Moved : Type 0 → Type 0
Moved Table = Option ℕ × ℕ × Table × BootInfoFrameAllocator

abbrev pub settle : {Table : Type 0} → ℕ → ℕ → Mapping Table → Moved Table
settle end' new_end (true, table, alloc) = (some new_end, new_end, table, alloc)
settle end' new_end (false, table, alloc) = (none, end', table, alloc)

-- The base of the heap is always `heap_start`. The end is shared by the processes of a fork.
unfoldable pub brk : (x : Mapper) → Option ℕ → ℕ → x.Table → BootInfoFrameAllocator → Moved x.Table
unfolding map_range unmap_range
brk x none end' table alloc = (some end', end', table, alloc)
brk x (some new_end) end' table alloc =
    if ltb (heap_start + heap_size) new_end || ltb new_end heap_start
    then (none, end', table, alloc)
    else settle end' new_end (
        if ltb (end_page end') (end_page new_end)
        then map_range x (end_page end') (end_page new_end - end_page end') true table alloc
        else unmap_range x (end_page new_end) (end_page end' - end_page new_end) table alloc)

-- The heap is empty after it; a failed call has moved the end all the same.
unfoldable pub clean_up :
    (x : Mapper)
    → ℕ
    → x.Table
    → BootInfoFrameAllocator
    → Bool × ℕ × x.Table × BootInfoFrameAllocator
unfolding unmap_range
clean_up x end' table alloc =
    if end' - heap_start == 0
    then (true, end', table, alloc)
    else (let (done, table', alloc') =
          unmap_range x (heap_start / 4096) (end' / 4096 + 1 - heap_start / 4096) table alloc in
        (done, heap_start, table', alloc'))
