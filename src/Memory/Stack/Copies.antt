-- ===== src/Memory/Stack/Copies.antt =====
-- Where the stack of a forked process lies, and what it holds: `vfork` of
-- pkg/kernel/src/proc/vm/stack.rs.
use operating_system_experim.Prelude.{
  ℕ, zero, suc, ◌+◌, ◌*◌, ◌/◌, ◌%◌, ◌^◌, ◌<◌, ◌≡◌, refl, sym, ap, subst, ◌∙◌, inl, inr, true, false,
  Option, none, some, arith, Bool-cases,
}
use operating_system_experim.Memory.Frames.{BootInfoFrameAllocator}
use operating_system_experim.Memory.Heap.{Mapper, Mapping, map_range}
use operating_system_experim.Memory.Heap.Pages.{IsLawful, inside, map_range-mapped}
use operating_system_experim.Memory.Stack.Fresh.{
  IsFresh, map_range-keeps_mapped, map_range-mapped_fails,
}
use operating_system_experim.Memory.Stack.Growth.{IsCanonical, IsStack}
use operating_system_experim.Memory.Stack.{
  Addresses, Stack, Mapped, with_pages, map_pages, vfork_loop, vfork, Search, found, panicked,
  unfinished, Bytes, copy_bytes, forked_stack, sub64, stack_max_size, stack_max_pages,
}
use operating_system_experim.Memory.Stack.Slots.{
  same_place, first_place, aligned, slot_kept, copied_from, copied_outside, outside_bytes,
}

module _ (x : Mapper) where
  abbrev Loop : Type 0
  Loop = Search (ℕ × x.Table × BootInfoFrameAllocator)

  -- The loop has mapped `usage` pages from the base on, none of which was mapped before.
  record IsNew (t : x.Table) (usage first base : ℕ) (t' : x.Table) : Type 0 where
    place : base % stack_max_size ≡ first % stack_max_size
    kept : (p : ℕ) → x.is_mapped t p ≡ true → x.is_mapped t' p ≡ true
    was_free : (p : ℕ) → inside (base / 4096) usage p ≡ true → x.is_mapped t p ≡ false
    mapped : (p : ℕ) → inside (base / 4096) usage p ≡ true → x.is_mapped t' p ≡ true

  -- What `vfork` makes of the stack `s`.
  pub record Copied (t t' : x.Table) (s s' : Stack) (bytes bytes' : Bytes) : Type 0 where
    pub child : IsStack x t' s'
    pub parent : IsStack x t' s
    pub usage_kept : s'.usage ≡ s.usage
    pub place : s'.start % stack_max_pages ≡ s.start % stack_max_pages
    pub was_free : (p : ℕ) → inside s'.start s'.usage p ≡ true → x.is_mapped t p ≡ false
    pub still_mapped : (p : ℕ) → x.is_mapped t p ≡ true → x.is_mapped t' p ≡ true
    pub copied :
        (i : ℕ) → i < s.usage * 4096 → bytes' (s'.start * 4096 + i) ≡ bytes (s.start * 4096 + i)
    pub others_kept : (b : ℕ) → x.is_mapped t (b / 4096) ≡ true → bytes' b ≡ bytes b

  module _ (v : Addresses) (canonical : IsCanonical v) (law : IsLawful x) (fresh : IsFresh x) where
    abbrev after_attempt : ℕ → ℕ → ℕ → Option (Mapped x.Table) → Loop
    after_attempt fuel base usage o = elim o [
      | none ↦ panicked
      | some (range, table', alloc') ↦ elim range [
        | none ↦ vfork_loop v x fuel (sub64 base stack_max_size) usage table' alloc'
        | some _ ↦ found (base, table', alloc')
      ]
    ]

    mapped-IsNew :
        (base usage : ℕ) (t t' : x.Table) (a a' : BootInfoFrameAllocator)
        → map_range x (base / 4096) usage true t a ≡ (true, t', a')
        → IsNew t usage base base t'
    mapped-IsNew base usage t t' a a' e = record {
      place = refl;
      kept = λ p h. ground (arith, map_range-mapped x law (base / 4096) usage true t t' a a' e p);
      was_free = λ p within. elim (Bool-cases (x.is_mapped t p)) [
        | inl taken ↦ absurd (
            ground (
              arith,
              map_range-mapped_fails x law fresh (base / 4096) usage true t a p taken within,
              e,
            ))
        | inr free ↦ free
      ];
      mapped =
          λ p within. ground (arith, map_range-mapped x law (base / 4096) usage true t t' a a' e p);
    }

    loop-IsNew :
        (fuel first usage base : ℕ) (t t' : x.Table) (a a' : BootInfoFrameAllocator)
        → vfork_loop v x fuel first usage t a ≡ found (base, t', a')
        → IsNew t usage first base t'
    unfolding vfork_loop map_pages
    loop-IsNew zero first usage base t t' a a' e = absurd (ground arith)
    loop-IsNew (suc fuel) first usage base t t' a a' e =
        attempt (λ t1 a1 k. loop-IsNew fuel (sub64 first stack_max_size) usage base t1 t' a1 a' k)
          (v.new first) refl e
      where
        ran :
            ((t1 : x.Table) (a1 : BootInfoFrameAllocator)
              → vfork_loop v x fuel (sub64 first stack_max_size) usage t1 a1 ≡ found (base, t', a')
              → IsNew t1 usage (sub64 first stack_max_size) base t')
            → (r : Mapping x.Table) → map_range x (first / 4096) usage true t a ≡ r
            → after_attempt fuel first usage (some (with_pages (first / 4096) usage r))
              ≡ found (base, t', a')
            → IsNew t usage first base t'
        ran later (true, t1, a1) m k =
            subst (λ q. IsNew t usage first q.0 q.1)
              (ap (λ s. elim s [ found q ↦ q | _ ↦ (first, t1, a1) ]) k)
              (mapped-IsNew first usage t t1 a a1 m)
        ran later (false, t1, a1) m k =
            let n = later t1 a1 k in
            let keeps : (p : ℕ) → x.is_mapped t p ≡ true → x.is_mapped t1 p ≡ true = λ p h.
              ap (λ r. x.is_mapped r.1 p) (sym m)
              ∙ map_range-keeps_mapped x law (first / 4096) usage true t a p h in
            record {
              place = n.place ∙ same_place first;
              kept = λ p h. n.kept p (keeps p h);
              was_free = λ p within. ground (arith, n.was_free p within, keeps p);
              mapped = n.mapped;
            }

        attempt :
            ((t1 : x.Table) (a1 : BootInfoFrameAllocator)
              → vfork_loop v x fuel (sub64 first stack_max_size) usage t1 a1 ≡ found (base, t', a')
              → IsNew t1 usage (sub64 first stack_max_size) base t')
            → (o : Option ℕ) → v.new first ≡ o
            → after_attempt fuel first usage (elim o [
              | none ↦ none
              | some b ↦ some (with_pages (b / 4096) usage (map_range x (b / 4096) usage true t a))
            ])
              ≡ found (base, t', a')
            → IsNew t usage first base t'
        attempt later none n k = absurd (ground arith)
        attempt later (some b) n k = ran later (map_range x (first / 4096) usage true t a) refl (
            ap
              (λ c.
                after_attempt fuel first usage
                  (some (with_pages (c / 4096) usage (map_range x (c / 4096) usage true t a))))
              (sym (canonical.same first b n))
            ∙ k)

    new-Copied :
        (t t' : x.Table) (s : Stack) (bytes : Bytes) (first base : ℕ)
        → IsStack x t s
        → first % stack_max_size ≡ s.start * 4096 % stack_max_size
        → IsNew t s.usage first base t'
        → Copied t t' s
            (forked_stack base s.usage)
            bytes
            (copy_bytes (s.start * 4096) base (s.usage * 4096 / 8 * 8) bytes)
    new-Copied t t' s bytes first base stack at n =
        let place : base % stack_max_size ≡ s.start * 4096 % stack_max_size = n.place ∙ at in
        let not_new : (b : ℕ)
            → x.is_mapped t (b / 4096) ≡ true
            → inside (base / 4096) s.usage (b / 4096) ≡ false =
          λ b h. elim (Bool-cases (inside (base / 4096) s.usage (b / 4096))) [
            | inl within ↦ absurd (ground (arith, n.was_free (b / 4096) within, h))
            | inr out ↦ out
          ] in
        record {
          child = record {
            in_order = omega arith;
            counted = omega arith;
            mapped = λ p low high. n.mapped p (ground (arith, low, high));
            in_slot =
                slot_kept base s.start s.end' s.usage place stack.in_order stack.counted
                  stack.in_slot;
          };
          parent = record {
            in_order = stack.in_order;
            counted = stack.counted;
            mapped = λ p low high. n.kept p (stack.mapped p low high);
            in_slot = stack.in_slot;
          };
          usage_kept = refl;
          place = omega (arith, place);
          was_free = n.was_free;
          still_mapped = n.kept;
          copied = λ i h.
              ap (λ k. copy_bytes (s.start * 4096) base (s.usage * 4096 / 8 * 8) bytes (k + i))
                (aligned base s.start place)
              ∙ copied_from (s.start * 4096) base (s.usage * 4096 / 8 * 8) i bytes
                  (omega (arith, h));
          others_kept = λ b h.
              copied_outside (s.start * 4096) base (s.usage * 4096 / 8 * 8) b bytes
                (outside_bytes base s.start s.usage b (aligned base s.start place) (not_new b h));
        }

    -- A stack that `vfork` gives the child lies at the parent's place in a slot, on pages none
    -- of which was mapped: it is well-formed, as the parent's still is, every byte of it is the
    -- parent's byte at the same offset, and the bytes of all pages that were mapped are unchanged.
    pub vfork-Copied :
        (fuel : ℕ) (s s' : Stack) (offset : ℕ) (bytes bytes' : Bytes) (t t' : x.Table)
        (a a' : BootInfoFrameAllocator)
        → IsStack x t s
        → vfork v x fuel s offset bytes t a ≡ found (s', bytes', t', a')
        → Copied t t' s s' bytes bytes'
    unfolding vfork
    vfork-Copied fuel s s' offset bytes bytes' t t' a a' stack e =
        ended (vfork_loop v x fuel first s.usage t a) refl e
      where
        first : ℕ
        first = sub64 (s.start * 4096) (offset * stack_max_size % 2 ^ 64)

        ended :
            (l : Loop)
            → vfork_loop v x fuel first s.usage t a ≡ l
            → (let r : Search (Stack × Bytes × x.Table × BootInfoFrameAllocator) = elim l [
              | panicked ↦ panicked
              | unfinished ↦ unfinished
              | found (base, table', alloc') ↦ found (
                forked_stack base s.usage,
                copy_bytes (s.start * 4096) base (s.usage * 4096 / 8 * 8) bytes,
                table',
                alloc',
              )
            ] in
                r)
              ≡ found (s', bytes', t', a')
            → Copied t t' s s' bytes bytes'
        ended panicked l k = absurd (ground arith)
        ended unfinished l k = absurd (ground arith)
        ended (found (base, t1, a1)) l k =
            subst {A = Stack × Bytes × x.Table} (λ q. Copied t q.2 s q.0 bytes q.1)
              (ap (λ r. elim r [ found q ↦ (q.0, q.1, q.2) | _ ↦ (s, bytes, t) ]) k)
              (new-Copied t t1 s bytes first base stack (first_place (s.start * 4096) offset)
                (loop-IsNew fuel first s.usage base t t1 a a1 l))
