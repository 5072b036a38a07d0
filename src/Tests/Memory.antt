-- ===== src/Tests/Memory.antt =====
-- A memory map of two regions, of which one is free memory.
use operating_system_experim.Prelude.{
  ℕ, ◌+◌, ◌-◌, ◌*◌, ◌/◌, ◌%◌, ◌^◌, ◌<◌, ◌≡◌, refl, sym, ap, ◌≢◌, Bool, true, false, not, ◌&&◌, ◌||◌,
  Option, none, some, List, [], ◌∷◌, arith, ltb, leb, ◌==◌, if◌then◌else◌, length, Distinct,
}
use operating_system_experim.Memory.Heap.{Mapper, heap_start, brk, map_range}
use operating_system_experim.Memory.Heap.Pages.{IsLawful, IsHeap, brk-IsHeap}
use operating_system_experim.Memory.Stack.{
  Addresses, Stack, Bytes, is_on_stack, handle_page_fault, vfork, unfinished, copy_bytes,
}
use operating_system_experim.Memory.Vm.{ProcessVm, Shared, clean_up}
use operating_system_experim.Memory.Vm.CleanUp.{Unmaps, given_back, clean_up-Unmaps}
use operating_system_experim.Memory.Stack.Fresh.{IsFresh}
use operating_system_experim.Memory.Stack.Growth.{
  IsCanonical, IsStack, Grown, handle_page_fault-Grown,
}
use operating_system_experim.Memory.Stack.Forks.{vfork-Ends}
use operating_system_experim.Memory.Stack.Copies.{Copied, vfork-Copied}
use operating_system_experim.Memory.Frames.{
  BootInfoFrameAllocator, MemoryRegion, create_frame_iter, init,
}
use operating_system_experim.Memory.Frames.Ownership.{Inv, run, allocate, deallocate, frames-Inv}

abbrev memory_map : List MemoryRegion
memory_map =
    record { phys_start = 0; page_count = 4; conventional = false }
    ∷ record { phys_start = 0x4000; page_count = 3; conventional = true }
    ∷ []

three_frames : Distinct (create_frame_iter memory_map)
unfolding create_frame_iter
three_frames = ((omega arith, (omega arith, tt)), ((omega arith, tt), (tt, tt)))

frames-Inv_example : Inv (length (create_frame_iter memory_map)) (
    run
      (record { allocator = init memory_map 7; held = [] })
      (allocate ∷ allocate ∷ deallocate 1 ∷ allocate ∷ []))
frames-Inv_example =
    frames-Inv memory_map 7 (allocate ∷ allocate ∷ deallocate 1 ∷ allocate ∷ []) three_frames

-- A table that knows which pages are mapped; a page is unmapped from the frame 0.
abbrev pages : Mapper
pages = record {
  Table = ℕ → Bool;
  map_to = λ t page frame user a. (some (λ p. p == page || t p), a);
  unmap = λ t page. some (0, λ p. not (p == page) && t p);
  is_mapped = λ t p. t p;
}

pages-IsLawful : IsLawful pages
pages-IsLawful = record {
  map_law =
      λ t t' page frame user a a' e p. ap (λ r. elim r.0 [ none ↦ false | some u ↦ u p ]) (sym e);
  unmap_law = λ t t' page frame e p. ap (λ r. elim r [ none ↦ false | some v ↦ v.1 p ]) (sym e);
}

abbrev pub three : List ℕ → ℕ → BootInfoFrameAllocator
three frames used = record { size = 3; used = used; frames = frames; recycled = [] }

no_pages-IsHeap : IsHeap pages pages-IsLawful (λ p. false) heap_start
no_pages-IsHeap p low high = refl

abbrev two_pages : ℕ → Bool
two_pages p = p == heap_start / 4096 + 1 || (p == heap_start / 4096 || false)

brk-IsHeap_example :
    (some (heap_start + 4096) ≡ some (heap_start + 4096))
    × (heap_start + 4096 ≡ heap_start + 4096)
    × IsHeap pages pages-IsLawful two_pages (heap_start + 4096)
    × ((p : ℕ) → p < heap_start / 4096 → two_pages p ≡ false)
unfolding brk
brk-IsHeap_example =
    brk-IsHeap pages pages-IsLawful (heap_start + 4096) heap_start (heap_start + 4096)
      (some (heap_start + 4096)) (λ p. false) two_pages (three (4 ∷ 5 ∷ 6 ∷ []) 0)
      (three (6 ∷ []) 2) no_pages-IsHeap (omega arith) refl (λ e. ground arith)

-- A table that refuses a page that is mapped, on addresses of 48 bits.
abbrev strict_pages : Mapper
strict_pages = record pages {
  map_to = λ t page frame user a. (if t page then none else some (λ p. p == page || t p), a);
}

abbrev strict_mapped : Option (ℕ → Bool) → ℕ → Bool
strict_mapped o p = elim o [ none ↦ false | some u ↦ u p ]

strict_pages-law :
    (t t' : ℕ → Bool) (page p : ℕ) (b : Bool)
    → t page ≡ b
    → (if b then none else some (λ q. q == page || t q)) ≡ some t'
    → (b ≡ false) × (t' p ≡ (p == page || t p))
strict_pages-law t t' page p true _ e = absurd (ground arith)
strict_pages-law t t' page p false _ e = (refl, ap (λ o. strict_mapped o p) (sym e))

strict_pages-IsFresh : IsFresh strict_pages
strict_pages-IsFresh t t' page frame user a a' e =
    (strict_pages-law t t' page 0 (t page) refl (ap (λ r. r.0) e)).0

strict_pages-IsLawful : IsLawful strict_pages
strict_pages-IsLawful = record {
  map_law = λ t t' page frame user a a' e p.
      (strict_pages-law t t' page p (t page) refl (ap (λ r. r.0) e)).1;
  unmap_law = λ t t' page frame e p. ap (λ r. elim r [ none ↦ false | some v ↦ v.1 p ]) (sym e);
}

abbrev pub addresses : Addresses
addresses = record {
  new = λ a. if leb (2 ^ 47) a && ltb a (2 ^ 64 - 2 ^ 47) then none else some a;
  minus = λ a b. if leb b a then some (a - b) else none;
}

pub addresses-IsCanonical : IsCanonical addresses
addresses-IsCanonical = record {
  same = λ a b e. ground (arith, e);
  lower = λ a h. ground (arith, h);
  hole = λ a low high. ground (arith, low, high);
  distance = λ a b h. ground (arith, h);
}

-- The stack of one page that a program starts with.
abbrev top_page : ℕ
top_page = 0x4000_0000_0000 / 4096 - 1

abbrev one_page : Stack
one_page = record { start = top_page; end' = top_page + 1; usage = 1 }

abbrev top_mapped : ℕ → Bool
top_mapped p = p == top_page

one_page-IsStack : IsStack strict_pages top_mapped one_page
one_page-IsStack = record {
  in_order = omega arith;
  counted = refl;
  mapped = λ p low high. ground (arith, low, high);
  in_slot = omega arith;
}

-- A fault two pages below the stack.
handle_page_fault-Grown_example :
    (r : Bool × Stack × (ℕ → Bool) × BootInfoFrameAllocator) × (handle_page_fault addresses
        strict_pages one_page 0x3fff_ffff_d123 2 top_mapped
        (three (4 ∷ 5 ∷ 6 ∷ []) 0)
      ≡ some r)
    × (r.0 ≡ (
        is_on_stack one_page 0x3fff_ffff_d123
        && (map_range strict_pages
            (0x3fff_ffff_d123 / 4096)
            (top_page - 0x3fff_ffff_d123 / 4096)
            true
            top_mapped
            (three (4 ∷ 5 ∷ 6 ∷ []) 0)).0))
    × (r.0 ≡ true → Grown strict_pages top_mapped r.2 one_page r.1 0x3fff_ffff_d123)
    × (r.0 ≡ false → r.1 ≡ one_page)
handle_page_fault-Grown_example =
    handle_page_fault-Grown strict_pages addresses strict_pages-IsLawful addresses-IsCanonical
      one_page 0x3fff_ffff_d123 2 top_mapped (three (4 ∷ 5 ∷ 6 ∷ []) 0) one_page-IsStack
      (omega arith) (omega arith)

vfork-Ends_example :
    vfork addresses strict_pages 65537 one_page 1 (λ a. a % 256) top_mapped (three [] 3)
    ≢ unfinished
vfork-Ends_example =
    vfork-Ends strict_pages addresses addresses-IsCanonical 65537 one_page 1 (λ a. a % 256)
      top_mapped (three [] 3) (omega arith)

abbrev low_bytes : Bytes
low_bytes a = a % 256

abbrev child_page : ℕ
child_page = top_page - 0x100000

abbrev both_mapped : ℕ → Bool
both_mapped p = p == child_page || top_mapped p

abbrev child_stack : Stack
child_stack = record { start = child_page; end' = child_page + 1; usage = 1 }

abbrev copied_bytes : Bytes
copied_bytes = copy_bytes (top_page * 4096) (child_page * 4096) 4096 low_bytes

vfork-Copied_example :
    Copied strict_pages top_mapped both_mapped one_page child_stack low_bytes copied_bytes
unfolding vfork
vfork-Copied_example =
    vfork-Copied strict_pages addresses addresses-IsCanonical strict_pages-IsLawful
      strict_pages-IsFresh 3 one_page child_stack 1 low_bytes copied_bytes top_mapped both_mapped
      (three (4 ∷ []) 2) (three [] 3) one_page-IsStack refl

-- The last process of a table: a stack of one page, an empty heap and two pages of code.
abbrev program : ProcessVm
program = record { stack = one_page; code = (0x400, 0x401) ∷ []; code_usage = 8192 }

abbrev space : Shared (ℕ → Bool)
space = record {
  table = λ p. p == 0x400 || (p == 0x401 || top_mapped p);
  root = 3;
  users = 1;
  heap_end = heap_start;
}

abbrev emptied : Shared (ℕ → Bool)
emptied = record space {
  table = λ p. not (p == 0x401) && (not (p == 0x400) && (not (p == top_page) && space.table p));
}

clean_up-Unmaps_example : Unmaps pages (given_back pages program space) space.table emptied.table
unfolding clean_up
clean_up-Unmaps_example =
    clean_up-Unmaps pages pages-IsLawful (λ t a. (t, a)) (λ t a p. refl) program
      (record program { stack = record one_page { usage = 0 } }) space emptied (three [] 3)
      (record (three [] 3) { recycled = 3 ∷ 0 ∷ 0 ∷ 0 ∷ [] }) refl
