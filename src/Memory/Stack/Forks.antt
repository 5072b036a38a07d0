-- ===== src/Memory/Stack/Forks.antt =====
-- The stacks of forked processes: `vfork` of pkg/kernel/src/proc/vm/stack.rs.
use operating_system_experim.Prelude.{
  ℕ, zero, suc, ◌+◌, ◌-◌, ◌*◌, ◌/◌, ◌%◌, ◌^◌, ◌≤◌, ◌<◌, ◌≡◌, refl, ◌≢◌, inl, inr, true, Option,
  none, some, arith, ltb, ltb→lt, ltb→ge, Bool-cases,
}
use operating_system_experim.Memory.Frames.{BootInfoFrameAllocator}
use operating_system_experim.Memory.Heap.{Mapper}
use operating_system_experim.Memory.Stack.Growth.{IsCanonical}
use operating_system_experim.Memory.Stack.{
  Addresses, Stack, Mapped, map_pages, vfork_loop, vfork, Search, found, panicked, unfinished,
  Bytes, copy_bytes, forked_stack, sub64, stack_max_size,
}

lowered_above :
    (base : ℕ) → 2 ^ 64 - 2 ^ 47 ≤ base → base < 2 ^ 64 → 2 ^ 47 ≤ sub64 base stack_max_size
lowered_above base h k = omega (arith, h, k)

lowered_below :
    (base k : ℕ)
    → 2 ^ 64 - 2 ^ 47 ≤ base
    → base < 2 ^ 64
    → base < 2 ^ 64 - 2 ^ 47 + (suc k) * stack_max_size
    → sub64 base stack_max_size < 2 ^ 64 - 2 ^ 47 + k * stack_max_size
lowered_below base k h w b = omega (arith, h, w, b)

lowered_word : (base : ℕ) → sub64 base stack_max_size < 2 ^ 64
lowered_word base = omega arith

wrapped_above : (base : ℕ) → base < stack_max_size → 2 ^ 47 ≤ sub64 base stack_max_size
wrapped_above base h = omega (arith, h)

below_word : (a b : ℕ) → sub64 a b < 2 ^ 64
below_word a b = omega arith

lowered_slot :
    (base k : ℕ)
    → stack_max_size ≤ base
    → base < 2 ^ 64
    → base < (suc k + 1) * stack_max_size
    → sub64 base stack_max_size < (k + 1) * stack_max_size
lowered_slot base k h w b = omega (arith, h, w, b)

not_unfinished : {A : Type 0} (s : Search A) → s ≡ panicked → s ≢ unfinished
not_unfinished s e k = ground (arith, e, k)

module _ (x : Mapper) (v : Addresses) (canonical : IsCanonical v) where
  abbrev Loop : Type 0
  Loop = Search (ℕ × x.Table × BootInfoFrameAllocator)

  abbrev Ends : Loop → Type 0
  Ends s = s ≢ unfinished

  loop-step :
      (fuel base usage : ℕ) (t : x.Table) (a : BootInfoFrameAllocator)
      → ((t' : x.Table) (a' : BootInfoFrameAllocator)
          → Ends (vfork_loop v x fuel (sub64 base stack_max_size) usage t' a'))
      → Ends (vfork_loop v x (suc fuel) base usage t a)
  unfolding vfork_loop
  loop-step fuel base usage t a later = tried (map_pages v x base usage true t a)
    where
      tried :
          (o : Option (Mapped x.Table))
          → Ends (
              let s : Loop = elim o [
                | none ↦ panicked
                | some (range, table', alloc') ↦ elim range [
                  | none ↦ vfork_loop v x fuel (sub64 base stack_max_size) usage table' alloc'
                  | some _ ↦ found (base, table', alloc')
                ]
              ] in
              s)
      tried none e = ground arith
      tried (some (none, t', a')) e = later t' a' e
      tried (some (some _, t', a')) e = ground arith

  in_hole :
      (fuel base usage : ℕ) (t : x.Table) (a : BootInfoFrameAllocator)
      → 2 ^ 47 ≤ base
      → base < 2 ^ 64 - 2 ^ 47
      → vfork_loop v x (suc fuel) base usage t a ≡ panicked
  unfolding vfork_loop map_pages
  in_hole fuel base usage t a low high =
      rw (canonical.hole base low high, map_pages, vfork_loop) refl

  -- Down from the upper half, `k` slots above its lowest address.
  high-Ends :
      (k fuel base usage : ℕ) (t : x.Table) (a : BootInfoFrameAllocator)
      → k < fuel
      → 2 ^ 47 ≤ base
      → base < 2 ^ 64 - 2 ^ 47 + k * stack_max_size
      → base < 2 ^ 64
      → Ends (vfork_loop v x fuel base usage t a)
  high-Ends k zero base usage t a enough low high word = absurd (omega (arith, enough))
  high-Ends zero (suc fuel) base usage t a enough low high word =
      not_unfinished (vfork_loop v x (suc fuel) base usage t a)
        (in_hole fuel base usage t a low (omega (arith, high)))
  high-Ends (suc k) (suc fuel) base usage t a enough low high word =
      elim (Bool-cases (ltb base (2 ^ 64 - 2 ^ 47))) [
        | inl hole ↦
            not_unfinished (vfork_loop v x (suc fuel) base usage t a)
              (in_hole fuel base usage t a low (ltb→lt base (2 ^ 64 - 2 ^ 47) hole))
        | inr above ↦
            let past = ltb→ge base (2 ^ 64 - 2 ^ 47) above in
            loop-step fuel base usage t a λ t' a'.
              high-Ends k fuel (sub64 base stack_max_size) usage t' a' (omega (arith, enough))
                (lowered_above base past word) (lowered_below base k past word high)
                (lowered_word base)
      ]

  -- From the lowest slot the next base wraps to the top.
  wrapped-Ends :
      (fuel base usage : ℕ) (t : x.Table) (a : BootInfoFrameAllocator)
      → 2 ^ 15 < fuel
      → base < stack_max_size
      → Ends (vfork_loop v x (suc fuel) base usage t a)
  wrapped-Ends fuel base usage t a enough slot = loop-step fuel base usage t a λ t' a'.
      high-Ends (2 ^ 15) fuel (sub64 base stack_max_size) usage t' a' enough
        (wrapped_above base slot) (omega (arith, lowered_word base)) (lowered_word base)

  -- Down from the lower half, from the slot of number `k`.
  low-Ends :
      (k fuel base usage : ℕ) (t : x.Table) (a : BootInfoFrameAllocator)
      → k + 2 ^ 15 + 1 < fuel
      → base < (k + 1) * stack_max_size
      → base < 2 ^ 64
      → Ends (vfork_loop v x fuel base usage t a)
  low-Ends k zero base usage t a enough slot word = absurd (omega (arith, enough))
  low-Ends zero (suc fuel) base usage t a enough slot word =
      wrapped-Ends fuel base usage t a (omega (arith, enough)) (omega (arith, slot))
  low-Ends (suc k) (suc fuel) base usage t a enough slot word =
      elim (Bool-cases (ltb base stack_max_size)) [
        | inl lowest ↦
            wrapped-Ends fuel base usage t a (omega (arith, enough))
              (ltb→lt base stack_max_size lowest)
        | inr above ↦ loop-step fuel base usage t a λ t' a'.
            low-Ends k fuel (sub64 base stack_max_size) usage t' a' (omega (arith, enough))
              (lowered_slot base k (ltb→ge base stack_max_size above) word slot) (lowered_word base)
      ]

  loop-Ends :
      (fuel base usage : ℕ) (t : x.Table) (a : BootInfoFrameAllocator)
      → 2 ^ 16 < fuel
      → base < 2 ^ 64
      → Ends (vfork_loop v x fuel base usage t a)
  loop-Ends fuel base usage t a enough word = elim (Bool-cases (ltb base (2 ^ 47))) [
    | inl lower ↦
        low-Ends (2 ^ 15 - 1) fuel base usage t a (omega (arith, enough))
          (omega (arith, ltb→lt base (2 ^ 47) lower)) word
    | inr upper ↦
        high-Ends (2 ^ 15) fuel base usage t a (omega (arith, enough)) (ltb→ge base (2 ^ 47) upper)
          (omega (arith, word)) word
  ]

  -- Given fuel for more than 2 ^ 16 slots `vfork` ends, with a stack or with a panic, however much
  -- memory is left and whatever slots are taken. (When no slot can be mapped, the base goes down
  -- through zero until it is no canonical address.)
  pub vfork-Ends :
      (fuel : ℕ) (s : Stack) (offset : ℕ) (bytes : Bytes) (t : x.Table) (a : BootInfoFrameAllocator)
      → 2 ^ 16 < fuel
      → vfork v x fuel s offset bytes t a ≢ unfinished
  unfolding vfork
  vfork-Ends fuel s offset bytes t a enough e =
      loop-Ends fuel first s.usage t a enough
        (below_word (s.start * 4096) (offset * stack_max_size % 2 ^ 64))
        (loop_unfinished (vfork_loop v x fuel first s.usage t a) e)
    where
      first : ℕ
      first = sub64 (s.start * 4096) (offset * stack_max_size % 2 ^ 64)

      loop_unfinished :
          (l : Loop)
          → (let r : Search (Stack × Bytes × x.Table × BootInfoFrameAllocator) = elim l [
            | panicked ↦ panicked
            | unfinished ↦ unfinished
            | found (base, table', alloc') ↦ found (
              forked_stack base s.usage,
              copy_bytes (s.start * 4096) base (s.usage * 4096 / 8 * 8) bytes,
              table',
              alloc',
            )
          ] in
              r)
            ≡ unfinished
          → l ≡ unfinished
      loop_unfinished panicked k = absurd (ground arith)
      loop_unfinished unfinished k = refl
      loop_unfinished (found (base, t', a')) k = absurd (ground arith)
