-- ===== src/Memory/Stack/Slots.antt =====
-- Places of stacks in their slots, in numbers: pkg/kernel/src/proc/vm/stack.rs.
use operating_system_experim.Prelude.{
  ℕ, ◌+◌, ◌-◌, ◌*◌, ◌/◌, ◌%◌, ◌^◌, ◌≤◌, ◌<◌, ◌≡◌, ap, false, ◌&&◌, arith, ltb, leb,
}
use operating_system_experim.Memory.Heap.Pages.{inside}
use operating_system_experim.Memory.Stack.{Bytes, copy_bytes, sub64, stack_max_size}

pub same_place : (base : ℕ) → sub64 base stack_max_size % stack_max_size ≡ base % stack_max_size
same_place base = omega arith

pub first_place :
    (base offset : ℕ)
    → sub64 base (offset * stack_max_size % 2 ^ 64) % stack_max_size ≡ base % stack_max_size
first_place base offset = omega arith

pub aligned :
    (base start : ℕ)
    → base % stack_max_size ≡ start * 4096 % stack_max_size
    → base / 4096 * 4096 ≡ base
aligned base start h = omega (arith, h)

pub slot_kept :
    (base start end' usage : ℕ)
    → base % stack_max_size ≡ start * 4096 % stack_max_size
    → start ≤ end'
    → usage ≡ end' - start
    → end' * 4096 ≤ (start * 4096 / stack_max_size + 1) * stack_max_size
    → (base / 4096 + usage) * 4096 ≤ (base / 4096 * 4096 / stack_max_size + 1) * stack_max_size
slot_kept base start end' usage place order count slot = omega (arith, place, order, count, slot)

pub copied_from :
    (source target count i : ℕ) (bytes : Bytes)
    → i < count
    → copy_bytes source target count bytes (target + i) ≡ bytes (source + i)
copied_from source target count i bytes h =
    let at : target + i - target ≡ i = omega arith in
    ground (arith, h, ap (λ k. bytes (source + k)) at)

pub copied_outside :
    (source target count b : ℕ) (bytes : Bytes)
    → (leb target b && ltb b (target + count)) ≡ false
    → copy_bytes source target count bytes b ≡ bytes b
copied_outside source target count b bytes h = ground (arith, h)

pub outside_bytes :
    (base start usage b : ℕ)
    → base / 4096 * 4096 ≡ base
    → inside (base / 4096) usage (b / 4096) ≡ false
    → (leb base b && ltb b (base + usage * 4096 / 8 * 8)) ≡ false
outside_bytes base start usage b at h = ground (arith, at, h)
