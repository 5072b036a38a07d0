-- ===== src/Memory/Stack.antt =====
-- The stack of a process, pkg/kernel/src/proc/vm/stack.rs, with `map_pages` and `unmap_pages` of
-- pkg/elf/src/lib.rs. A page is its number, its address divided by 4096; words of 64 bits wrap, and
-- debug assertions are not compiled in, as in a release build. `none` is a panic of the kernel.
pub mod Copies
pub mod Forks
pub mod Fresh
pub mod Growth
pub mod Slots
use operating_system_experim.Prelude.{
  ℕ, zero, suc, ◌+◌, ◌-◌, ◌*◌, ◌/◌, ◌%◌, ◌^◌, Bool, true, false, not, ◌&&◌, Option, none, some, ltb,
  leb, ◌==◌, if◌then◌else◌,
}
use operating_system_experim.Memory.Frames.{BootInfoFrameAllocator}
use operating_system_experim.Memory.Heap.{Mapper, Mapping, map_range, unmap_range}

-- What the stack uses of the virtual addresses of the crate `x86_64`.
pub record Addresses : Type 0 where
  -- `VirtAddr::new`
  pub new : ℕ → Option ℕ
  -- the difference of two pages
  pub minus : ℕ → ℕ → Option ℕ

abbrev pub stack_max_pages : ℕ
stack_max_pages = 0x100000

abbrev pub stack_max_size : ℕ
stack_max_size = 0x100000 * 4096

abbrev pub stack_init_bot : ℕ
stack_init_bot = 0x4000_0000_0000 - 4096

abbrev stack_init_top_page : ℕ
stack_init_top_page = (0x4000_0000_0000 - 8) / 4096

abbrev kstack_init_page : ℕ
kstack_init_page = (0xffff_ff02_0000_0000 - 8 * 4096) / 4096

abbrev kstack_init_top_page : ℕ
kstack_init_top_page = (0xffff_ff02_0000_0000 - 8) / 4096

-- The pages from `start` up to `end'`, not included, and how many are in use.
pub record Stack : Type 0 where
  pub start : ℕ
  pub end' : ℕ
  pub usage : ℕ

abbrev pub kstack : Stack
kstack = record { start = kstack_init_page; end' = kstack_init_top_page; usage = 8 }

abbrev pub empty : Stack
empty = record { start = stack_init_top_page; end' = stack_init_top_page; usage = 0 }

abbrev pub memory_usage : Stack → ℕ
memory_usage s = s.usage * 4096

abbrev pub sub64 : ℕ → ℕ → ℕ
sub64 a b = (a + (2 ^ 64 - b % 2 ^ 64)) % 2 ^ 64

-- What a call leaves: the pages that it mapped, `none` for an error, the table and the allocator.
abbrev pub Mapped : Type 0 → Type 0
Mapped Table = Option (ℕ × ℕ) × Table × BootInfoFrameAllocator

abbrev pub with_pages : {Table : Type 0} → ℕ → ℕ → Mapping Table → Mapped Table
with_pages page count (done, table, alloc) =
    (if done then some (page, page + count) else none, table, alloc)

-- The bytes of the address space by their address.
abbrev pub Bytes : Type 0
Bytes = ℕ → ℕ

abbrev pub copy_bytes : ℕ → ℕ → ℕ → Bytes → Bytes
copy_bytes source target count bytes =
    λ a. if leb target a && ltb a (target + count) then bytes (source + (a - target)) else bytes a

-- A loop that ended with a result, that panicked, or that has not ended within its fuel.
pub data Search (A : Type 0) : Type 0 where
  found : A → Search A
  panicked unfinished : Search A

-- The difference to the base of the other stack, of 64 bits.
abbrev pub stack_offset : Stack → Stack → ℕ
stack_offset s old = sub64 (s.start * 4096) (old.start * 4096)

abbrev pub forked_stack : ℕ → ℕ → Stack
forked_stack base usage = record { start = base / 4096; end' = base / 4096 + usage; usage = usage }

-- The two addresses agree under the mask `!(STACK_MAX_SIZE - 1)`.
abbrev pub is_on_stack : Stack → ℕ → Bool
is_on_stack s addr = addr / stack_max_size == s.start * 4096 / stack_max_size

module _ (v : Addresses) (x : Mapper) where
  unfoldable pub map_pages :
      ℕ → ℕ → Bool → x.Table → BootInfoFrameAllocator → Option (Mapped x.Table)
  unfolding map_range
  map_pages addr pages user table alloc = elim (v.new addr) [
    | none ↦ none
    | some a ↦ some (with_pages (a / 4096) pages (map_range x (a / 4096) pages user table alloc))
  ]

  -- `unwrap` panics on an error.
  unfoldable pub init :
      x.Table → BootInfoFrameAllocator → Option (Stack × x.Table × BootInfoFrameAllocator)
  unfolding map_pages
  init table alloc = elim (map_pages stack_init_bot 1 true table alloc) [
    | none ↦ none
    | some (range, table', alloc') ↦ elim range [
      | none ↦ none
      | some (start, end') ↦ some (record { start = start; end' = end'; usage = 1 }, table', alloc')
    ]
  ]

  -- The loop of `vfork`: a slot further down is tried until the pages can be mapped. The pages that
  -- a failed attempt has mapped stay.
  unfoldable pub vfork_loop :
      ℕ → ℕ → ℕ → x.Table → BootInfoFrameAllocator → Search (ℕ × x.Table × BootInfoFrameAllocator)
  unfolding map_pages
  vfork_loop zero base usage table alloc = unfinished
  vfork_loop (suc fuel) base usage table alloc = elim (map_pages base usage true table alloc) [
    | none ↦ panicked
    | some (range, table', alloc') ↦ elim range [
      | none ↦ vfork_loop fuel (sub64 base stack_max_size) usage table' alloc'
      | some _ ↦ found (base, table', alloc')
    ]
  ]

  -- The new stack, with a copy of the bytes of the old.
  unfoldable pub vfork :
      ℕ
      → Stack
      → ℕ
      → Bytes
      → x.Table
      → BootInfoFrameAllocator
      → Search (Stack × Bytes × x.Table × BootInfoFrameAllocator)
  unfolding vfork_loop
  vfork fuel s offset bytes table alloc =
      elim (vfork_loop fuel (sub64 (s.start * 4096) (offset * stack_max_size % 2 ^ 64)) s.usage
        table alloc) [
          | panicked ↦ panicked
          | unfinished ↦ unfinished
          | found (base, table', alloc') ↦ found (
            forked_stack base s.usage,
            copy_bytes (s.start * 4096) base (s.usage * 4096 / 8 * 8) bytes,
            table',
            alloc',
          )
        ]

  -- Whether the call succeeded, and what it leaves.
  unfoldable pub grow_stack :
      Stack
      → ℕ
      → ℕ
      → x.Table
      → BootInfoFrameAllocator
      → Option (Bool × Stack × x.Table × BootInfoFrameAllocator)
  unfolding map_pages
  grow_stack s addr pid table alloc = elim (v.minus s.start (addr / 4096)) [
    | none ↦ none
    | some count ↦ elim (map_pages (addr / 4096 * 4096) count (not (pid == 1)) table alloc) [
      | none ↦ none
      | some (range, table', alloc') ↦ elim range [
        | none ↦ some (false, s, table', alloc')
        | some _ ↦ some (
          true,
          record { start = addr / 4096; end' = s.end'; usage = s.end' - addr / 4096 },
          table',
          alloc',
        )
      ]
    ]
  ]

  unfoldable pub handle_page_fault :
      Stack
      → ℕ
      → ℕ
      → x.Table
      → BootInfoFrameAllocator
      → Option (Bool × Stack × x.Table × BootInfoFrameAllocator)
  unfolding grow_stack
  handle_page_fault s addr pid table alloc =
      if is_on_stack s addr
      then grow_stack s addr pid table alloc
      else some (false, s, table, alloc)

module _ (x : Mapper) where
  unfoldable pub clean_up :
      Stack → x.Table → BootInfoFrameAllocator → Bool × Stack × x.Table × BootInfoFrameAllocator
  unfolding unmap_range
  clean_up s table alloc =
      if s.usage == 0
      then (true, s, table, alloc)
      else (let (done, table', alloc') = unmap_range x s.start (s.end' - s.start) table alloc in
          (done, if done then record s { usage = 0 } else s, table', alloc'))
