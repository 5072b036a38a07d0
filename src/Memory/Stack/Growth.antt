-- ===== src/Memory/Stack/Growth.antt =====
-- The first stack of a program, and its growth on page faults: `init` and `handle_page_fault` of
-- pkg/kernel/src/proc/vm/stack.rs.
use operating_system_experim.Prelude.{
  ℕ, ◌+◌, ◌-◌, ◌*◌, ◌/◌, ◌^◌, ◌≤◌, ◌<◌, ◌≡◌, refl, sym, ap, subst, ◌∙◌, inl, inr, Bool, true, false,
  not, ◌&&◌, ◌||◌, Option, none, some, arith, ◌==◌, if◌then◌else◌, Bool-cases,
}
use operating_system_experim.Memory.Frames.{BootInfoFrameAllocator}
use operating_system_experim.Memory.Heap.{Mapper, Mapping, map_range}
use operating_system_experim.Memory.Heap.Pages.{IsLawful, inside, map_range-mapped}
use operating_system_experim.Memory.Stack.{
  Addresses, Stack, Mapped, with_pages, map_pages, init, is_on_stack, grow_stack, handle_page_fault,
  stack_max_size, stack_init_bot,
}

-- The addresses of 48 bits, sign-extended to 64, and the distance from a page to one below.
pub record IsCanonical (v : Addresses) : Type 0 where
  pub same : (a b : ℕ) → v.new a ≡ some b → b ≡ a
  pub lower : (a : ℕ) → a < 2 ^ 47 → v.new a ≡ some a
  pub hole : (a : ℕ) → 2 ^ 47 ≤ a → a < 2 ^ 64 - 2 ^ 47 → v.new a ≡ none
  pub distance : (a b : ℕ) → b ≤ a → v.minus a b ≡ some (a - b)

same_page : (addr : ℕ) → addr / 4096 * 4096 / 4096 ≡ addr / 4096
same_page addr = omega arith

module _ (x : Mapper) where
  -- A stack counts its pages, which are all mapped and lie in one slot.
  pub record IsStack (t : x.Table) (s : Stack) : Type 0 where
    pub in_order : s.start ≤ s.end'
    pub counted : s.usage ≡ s.end' - s.start
    pub mapped : (p : ℕ) → s.start ≤ p → p < s.end' → x.is_mapped t p ≡ true
    pub in_slot : s.end' * 4096 ≤ (s.start * 4096 / stack_max_size + 1) * stack_max_size

  -- What a fault at the address does to the stack and the table.
  pub record Grown (t t' : x.Table) (s s' : Stack) (addr : ℕ) : Type 0 where
    pub reached : s'.start ≡ addr / 4096
    pub top_kept : s'.end' ≡ s.end'
    pub stack : IsStack t' s'
    pub only :
        (p : ℕ)
        → x.is_mapped t' p ≡ (inside (addr / 4096) (s.start - addr / 4096) p || x.is_mapped t p)

  -- The result of growing, after the mapping of the missing pages.
  grow : Stack → ℕ → Mapping x.Table → Bool × Stack × x.Table × BootInfoFrameAllocator
  grow s addr (done, t, a) = (
    done,
    if done then record { start = addr / 4096; end' = s.end'; usage = s.end' - addr / 4096 } else s,
    t,
    a,
  )

  grown-IsStack :
      (t t' : x.Table) (s : Stack) (addr : ℕ)
      → IsStack t s
      → is_on_stack s addr ≡ true
      → addr / 4096 ≤ s.start
      → ((p : ℕ)
          → x.is_mapped t' p ≡ (inside (addr / 4096) (s.start - addr / 4096) p || x.is_mapped t p))
      → IsStack t' (record { start = addr / 4096; end' = s.end'; usage = s.end' - addr / 4096 })
  grown-IsStack t t' s addr stack on below maps = record {
    in_order = omega (arith, stack.in_order, below);
    counted = refl;
    mapped = λ p low high. ground (arith, maps p, stack.mapped p);
    in_slot = ground (arith, stack.in_slot);
  }

  module _ (v : Addresses) (law : IsLawful x) (canonical : IsCanonical v) where
    grow_stack-eq :
        (s : Stack) (addr pid : ℕ) (t : x.Table) (a : BootInfoFrameAllocator)
        → addr < 2 ^ 47
        → addr / 4096 ≤ s.start
        → grow_stack v x s addr pid t a
          ≡ some
              (grow s addr (map_range x (addr / 4096) (s.start - addr / 4096) (not (pid == 1)) t a))
    unfolding grow_stack map_pages grow
    grow_stack-eq s addr pid t a user below = ground (
      arith,
      canonical.distance s.start (addr / 4096) below,
      canonical.lower (addr / 4096 * 4096) (omega (arith, user)),
      same_page addr,
    )

    handled :
        (s : Stack) (addr pid : ℕ) (t : x.Table) (a : BootInfoFrameAllocator)
        → is_on_stack s addr ≡ true
        → handle_page_fault v x s addr pid t a ≡ grow_stack v x s addr pid t a
    unfolding handle_page_fault
    handled s addr pid t a on = ground (arith, on)

    -- For a well-formed stack and an address of user space at or below its lowest page: the fault is
    -- handled, without a panic, just where the address lies in the stack's slot and the missing
    -- pages can be mapped. Then the stack reaches down to the page of the address, is well-formed
    -- again, and just the missing pages have been mapped; otherwise the stack is as before.
    pub handle_page_fault-Grown :
        (s : Stack) (addr pid : ℕ) (t : x.Table) (a : BootInfoFrameAllocator)
        → IsStack t s
        → addr < 2 ^ 47
        → addr / 4096 ≤ s.start
        → (r : Bool × Stack × x.Table × BootInfoFrameAllocator) × (handle_page_fault v x s addr pid
              t a
            ≡ some r)
          × (r.0 ≡ (
              is_on_stack s addr
              && (map_range x (addr / 4096) (s.start - addr / 4096) (not (pid == 1)) t a).0))
          × (r.0 ≡ true → Grown t r.2 s r.1 addr)
          × (r.0 ≡ false → r.1 ≡ s)
    unfolding handle_page_fault grow
    handle_page_fault-Grown s addr pid t a stack user below =
        elim (Bool-cases (is_on_stack s addr)) [
          | inr off ↦ (
            (false, s, t, a),
            ground (arith, off),
            ground (arith, off),
            λ e. ground arith,
            λ _. refl,
          )
          | inl on ↦
              let missing =
                map_range x (addr / 4096) (s.start - addr / 4096) (not (pid == 1)) t a in
              let faulted = handled s addr pid t a on ∙ grow_stack-eq s addr pid t a user below in
              elim (Bool-cases missing.0) [
                | inl all ↦
                    let maps =
                      map_range-mapped x law (addr / 4096) (s.start - addr / 4096) (not (pid == 1))
                        t missing.1 a missing.2 (ap (λ b. (b, missing.1, missing.2)) all) in
                    (
                      (
                        true,
                        record { start = addr / 4096; end' = s.end'; usage = s.end' - addr / 4096 },
                        missing.1,
                        missing.2,
                      ),
                      faulted ∙ ap (λ b. some (grow s addr (b, missing.1, missing.2))) all,
                      ground (arith, on, all),
                      λ _. record {
                        reached = refl;
                        top_kept = refl;
                        stack = grown-IsStack t missing.1 s addr stack on below maps;
                        only = maps;
                      },
                      λ e. ground arith,
                    )
                | inr some_left ↦ (
                  (false, s, missing.1, missing.2),
                  faulted ∙ ap (λ b. some (grow s addr (b, missing.1, missing.2))) some_left,
                  ground (arith, on, some_left),
                  λ e. ground arith,
                  λ _. refl,
                )
              ]
        ]

    first_page : ℕ
    first_page = stack_init_bot / 4096

    init-ran :
        (t : x.Table) (a : BootInfoFrameAllocator)
        → map_pages v x stack_init_bot 1 true t a
          ≡ some (with_pages first_page 1 (map_range x first_page 1 true t a))
    unfolding map_pages first_page
    init-ran t a = rw (canonical.lower stack_init_bot (omega arith), map_pages) refl

    -- The stack that a program starts with is well-formed.
    pub init-IsStack :
        (s : Stack) (t t' : x.Table) (a a' : BootInfoFrameAllocator)
        → init v x t a ≡ some (s, t', a')
        → IsStack t' s
    unfolding init first_page
    init-IsStack s t t' a a' e =
        ran (map_range x first_page 1 true t a) refl (sym (ap started (init-ran t a)) ∙ e)
      where
        started : Option (Mapped x.Table) → Option (Stack × x.Table × BootInfoFrameAllocator)
        started o = elim o [
          | none ↦ none
          | some (range, table', alloc') ↦ elim range [
            | none ↦ none
            | some (start, end') ↦
                some (record { start = start; end' = end'; usage = 1 }, table', alloc')
          ]
        ]

        ran :
            (r : Mapping x.Table)
            → map_range x first_page 1 true t a ≡ r
            → started (some (with_pages first_page 1 r)) ≡ some (s, t', a')
            → IsStack t' s
        ran (false, t1, a1) m k = absurd (ground (arith, k))
        ran (true, t1, a1) m k =
            let first : Stack = record { start = first_page; end' = first_page + 1; usage = 1 } in
            let maps = map_range-mapped x law first_page 1 true t t1 a a1 m in
            subst {A = Stack × x.Table} (λ q. IsStack q.1 q.0)
              (ap (λ o. elim o [ none ↦ (first, t1) | some q ↦ (q.0, q.1) ]) k)
              (record {
                in_order = omega arith;
                counted = omega arith;
                mapped = λ p low high. ground (arith, maps p, low, high);
                in_slot = omega arith;
              })
