-- ===== src/Memory/Vm/CleanUp.antt =====
-- Which pages are left when a process gives its memory back: `clean_up` of
-- pkg/kernel/src/proc/vm/mod.rs, with those of the stack and the heap.
use operating_system_experim.Prelude.{
  ℕ, ◌+◌, ◌-◌, ◌/◌, ◌≡◌, refl, sym, ap, ◌∙◌, ◌≢◌, Bool, true, false, not, ◌&&◌, ◌||◌, List, [], ◌∷◌,
  arith, ◌==◌, if◌then◌else◌,
}
use operating_system_experim.Memory.Frames.{BootInfoFrameAllocator, deallocate_frame}
use operating_system_experim.Memory.Heap.{Mapper, Mapping, unmap_range, heap_start}
use operating_system_experim.Memory.Heap as heap
use operating_system_experim.Memory.Heap.Pages.{IsLawful, inside, unmap_range-mapped}
use operating_system_experim.Memory.Stack as stack
use operating_system_experim.Memory.Stack.{Stack}
use operating_system_experim.Memory.Vm.{
  ProcessVm, Shared, range_count, unmap_code, clean_up_shared, clean_up,
}

-- The page is one of a range of the code.
unfoldable pub in_code : List (ℕ × ℕ) → ℕ → Bool
in_code [] p = false
in_code ((first, last) ∷ ranges) p = inside first (range_count (first, last)) p || in_code ranges p

abbrev pub in_stack : Stack → ℕ → Bool
in_stack s p = not (s.usage == 0) && inside s.start (s.end' - s.start) p

-- The pages of a heap that ends at the address, if it is not empty.
abbrev pub in_heap : ℕ → ℕ → Bool
in_heap end' p =
    not (end' - heap_start == 0)
    && inside (heap_start / 4096) (end' / 4096 + 1 - heap_start / 4096) p

no_success : false ≢ true
no_success e = ground arith

module _ (x : Mapper) where
  -- Just the pages of the predicate have been unmapped.
  abbrev pub Unmaps : (ℕ → Bool) → x.Table → x.Table → Type 0
  Unmaps gone t t' = (p : ℕ) → x.is_mapped t' p ≡ (not (gone p) && x.is_mapped t p)

  -- The pages that a clean-up gives back: the stack's, and those of the heap and the code where no
  -- other process uses the table.
  abbrev pub given_back : ProcessVm → Shared x.Table → ℕ → Bool
  given_back vm s p =
      in_stack vm.stack p || (s.users == 1 && (in_heap s.heap_end p || in_code vm.code p))

module _ (x : Mapper) (law : IsLawful x) where
  Unmaps-join :
      (gone more : ℕ → Bool) (t t1 t' : x.Table)
      → Unmaps x gone t t1
      → Unmaps x more t1 t'
      → Unmaps x (λ p. gone p || more p) t t'
  Unmaps-join gone more t t1 t' a b p = ground (arith, a p, b p)

  unmap_code-Unmaps :
      (code : List (ℕ × ℕ)) (t t' : x.Table) (a a' : BootInfoFrameAllocator)
      → unmap_code x code t a ≡ (true, t', a')
      → Unmaps x (in_code code) t t'
  unfolding unmap_code in_code
  unmap_code-Unmaps [] t t' a a' e = λ p. ap (λ r. x.is_mapped r.1 p) (sym e)
  unmap_code-Unmaps ((first, last) ∷ code) t t' a a' e =
      ran (λ t1 a1 k. unmap_code-Unmaps code t1 t' a1 a' k)
        (unmap_range x first (range_count (first, last)) t a) refl e
    where
      ran :
          ((t1 : x.Table) (a1 : BootInfoFrameAllocator)
            → unmap_code x code t1 a1 ≡ (true, t', a')
            → Unmaps x (in_code code) t1 t')
          → (r : Mapping x.Table) → unmap_range x first (range_count (first, last)) t a ≡ r
          → (let r' : Mapping x.Table = elim r.0 [
            | false ↦ (false, r.1, r.2)
            | true ↦ unmap_code x code r.1 r.2
          ] in
              r')
            ≡ (true, t', a')
          → Unmaps x (in_code ((first, last) ∷ code)) t t'
      ran later (false, t1, a1) r k = absurd (no_success (ap (λ s. s.0) k))
      ran later (true, t1, a1) r k =
          Unmaps-join (inside first (range_count (first, last))) (in_code code) t t1 t'
            (unmap_range-mapped x law first (range_count (first, last)) t t1 a a1 r) (later t1 a1 k)

  stack_clean_up-Unmaps :
      (s s' : Stack) (t t' : x.Table) (a a' : BootInfoFrameAllocator)
      → stack.clean_up x s t a ≡ (true, s', t', a')
      → Unmaps x (in_stack s) t t'
  unfolding stack.clean_up
  stack_clean_up-Unmaps s s' t t' a a' e = picked (s.usage == 0) refl e
    where
      picked :
          (b : Bool)
          → (s.usage == 0) ≡ b
          → (let r : Mapping x.Table = unmap_range x s.start (s.end' - s.start) t a in
              let q : Bool × Stack × x.Table × BootInfoFrameAllocator =
                if b
                then (true, s, t, a)
                else (r.0, if r.0 then record s { usage = 0 } else s, r.1, r.2) in
              q)
            ≡ (true, s', t', a')
          → Unmaps x (in_stack s) t t'
      picked true z k p = ground (arith, z, ap (λ q. x.is_mapped q.2 p) k)
      picked false z k p = ground (
        arith,
        z,
        unmap_range-mapped x law s.start (s.end' - s.start) t t' a a' (ap (λ q. (q.0, q.2, q.3)) k)
            p,
      )

  heap_clean_up-Unmaps :
      (end' left : ℕ) (t t' : x.Table) (a a' : BootInfoFrameAllocator)
      → heap.clean_up x end' t a ≡ (true, left, t', a')
      → Unmaps x (in_heap end') t t' × (left - heap_start ≡ 0)
  unfolding heap.clean_up
  heap_clean_up-Unmaps end' left t t' a a' e = picked (end' - heap_start == 0) refl e
    where
      picked :
          (b : Bool)
          → (end' - heap_start == 0) ≡ b
          → (let r : Mapping x.Table =
                unmap_range x (heap_start / 4096) (end' / 4096 + 1 - heap_start / 4096) t a in
              let q : Bool × ℕ × x.Table × BootInfoFrameAllocator =
                if b then (true, end', t, a) else (r.0, heap_start, r.1, r.2) in
              q)
            ≡ (true, left, t', a')
          → Unmaps x (in_heap end') t t' × (left - heap_start ≡ 0)
      picked true z k = (
        λ p. ground (arith, z, ap (λ q. x.is_mapped q.2 p) k),
        ground (arith, z, ap (λ q. q.1) k),
      )
      picked false z k = (
        λ p. ground (
          arith,
          z,
          unmap_range-mapped x law (heap_start / 4096) (end' / 4096 + 1 - heap_start / 4096) t t' a
              a' (ap (λ q. (q.0, q.2, q.3)) k) p,
        ),
        ground (arith, ap (λ q. q.1) k),
      )

  module _ (free_tables : x.Table → BootInfoFrameAllocator → x.Table × BootInfoFrameAllocator)
      (keeps : (t : x.Table) (a : BootInfoFrameAllocator) (p : ℕ)
        → x.is_mapped (free_tables t a).0 p ≡ x.is_mapped t p) where
    clean_up_shared-Unmaps :
        (vm : ProcessVm) (s s' : Shared x.Table) (a a' : BootInfoFrameAllocator)
        → clean_up_shared x free_tables vm s a ≡ (true, s', a')
        → Unmaps x (λ p. in_heap s.heap_end p || in_code vm.code p) s.table s'.table
    unfolding clean_up_shared
    clean_up_shared-Unmaps vm s s' a a' e = freed (heap.clean_up x s.heap_end s.table a) refl e
      where
        coded :
            (left : ℕ) (t1 : x.Table) (a1 : BootInfoFrameAllocator)
            → Unmaps x (in_heap s.heap_end) s.table t1
            → (c : Mapping x.Table) → unmap_code x vm.code t1 a1 ≡ c
            → (let r : Bool × Shared x.Table × BootInfoFrameAllocator = elim c.0 [
              | false ↦ (false, record s { table = c.1; heap_end = left }, c.2)
              | true ↦ (
                true,
                record s { table = (free_tables c.1 c.2).0; heap_end = left },
                deallocate_frame (free_tables c.1 c.2).1 s.root,
              )
            ] in
                r)
              ≡ (true, s', a')
            → Unmaps x (λ p. in_heap s.heap_end p || in_code vm.code p) s.table s'.table
        coded left t1 a1 front (false, t2, a2) c k = absurd (no_success (ap (λ q. q.0) k))
        coded left t1 a1 front (true, t2, a2) c k = λ p.
            ap (λ q. x.is_mapped q.1.table p) (sym k)
            ∙ keeps t2 a2 p
            ∙ Unmaps-join (in_heap s.heap_end) (in_code vm.code) s.table t1 t2 front
                (unmap_code-Unmaps vm.code t1 t2 a1 a2 c) p

        freed :
            (h : Bool × ℕ × x.Table × BootInfoFrameAllocator)
            → heap.clean_up x s.heap_end s.table a ≡ h
            → (let r : Bool × Shared x.Table × BootInfoFrameAllocator = elim h.0 [
              | false ↦ (false, record s { table = h.2; heap_end = h.1 }, h.3)
              | true ↦ elim (unmap_code x vm.code h.2 h.3).0 [
                | false ↦ (
                  false,
                  record s { table = (unmap_code x vm.code h.2 h.3).1; heap_end = h.1 },
                  (unmap_code x vm.code h.2 h.3).2,
                )
                | true ↦
                    let c = unmap_code x vm.code h.2 h.3 in
                    (
                      true,
                      record s { table = (free_tables c.1 c.2).0; heap_end = h.1 },
                      deallocate_frame (free_tables c.1 c.2).1 s.root,
                    )
              ]
            ] in
                r)
              ≡ (true, s', a')
            → Unmaps x (λ p. in_heap s.heap_end p || in_code vm.code p) s.table s'.table
        freed (false, left, t1, a1) h k = absurd (no_success (ap (λ q. q.0) k))
        freed (true, left, t1, a1) h k =
            coded left t1 a1 (heap_clean_up-Unmaps s.heap_end left s.table t1 a a1 h).0
              (unmap_code x vm.code t1 a1) refl k

    -- A clean-up that succeeds unmaps just the pages of the process's stack and, where no other
    -- process uses the table, those of the heap and of the code. (`free_tables`, which frees tables
    -- without mapped pages, is to unmap none.)
    pub clean_up-Unmaps :
        (vm vm' : ProcessVm) (s s' : Shared x.Table) (a a' : BootInfoFrameAllocator)
        → clean_up x free_tables vm s a ≡ (true, vm', s', a')
        → Unmaps x (given_back x vm s) s.table s'.table
    unfolding clean_up
    clean_up-Unmaps vm vm' s s' a a' e = freed (stack.clean_up x vm.stack s.table a) refl e
      where
        shared :
            (b : Bool) (st : Stack) (t1 : x.Table) (a1 : BootInfoFrameAllocator)
            → (s.users == 1) ≡ b
            → Unmaps x (in_stack vm.stack) s.table t1
            → (let s1 : Shared x.Table = record s { table = t1 } in
                let vm1 : ProcessVm = record vm { stack = st } in
                let c = clean_up_shared x free_tables vm s1 a1 in
                let r : Bool × ProcessVm × Shared x.Table × BootInfoFrameAllocator = elim b [
                  | false ↦ (true, vm1, s1, a1)
                  | true ↦ (c.0, vm1, c.1, c.2)
                ] in
                r)
              ≡ (true, vm', s', a')
            → Unmaps x (given_back x vm s) s.table s'.table
        shared false st t1 a1 u front k =
            λ p. ground (arith, u, front p, ap (λ q. x.is_mapped q.2.table p) k)
        shared true st t1 a1 u front k = λ p. ground (
          arith,
          u,
          Unmaps-join (in_stack vm.stack) (λ q. in_heap s.heap_end q || in_code vm.code q) s.table
              t1 s'.table front
              (clean_up_shared-Unmaps vm (record s { table = t1 }) s' a1 a'
                (ap (λ q. (q.0, q.2, q.3)) k))
              p,
        )

        freed :
            (h : Bool × Stack × x.Table × BootInfoFrameAllocator)
            → stack.clean_up x vm.stack s.table a ≡ h
            → (let s1 : Shared x.Table = record s { table = h.2 } in
                let vm1 : ProcessVm = record vm { stack = h.1 } in
                let c = clean_up_shared x free_tables vm s1 h.3 in
                let r : Bool × ProcessVm × Shared x.Table × BootInfoFrameAllocator =
                  elim (h.0 && s.users == 1) [
                    | false ↦ (h.0, vm1, s1, h.3)
                    | true ↦ (c.0, vm1, c.1, c.2)
                  ] in
                r)
              ≡ (true, vm', s', a')
            → Unmaps x (given_back x vm s) s.table s'.table
        freed (false, st, t1, a1) h k = absurd (no_success (ap (λ q. q.0) k))
        freed (true, st, t1, a1) h k =
            shared (s.users == 1) st t1 a1 refl
              (stack_clean_up-Unmaps vm.stack st s.table t1 a a1 h) k
