-- ===== src/Memory/Heap/Pages.antt =====
-- Which pages the heap maps: pkg/kernel/src/proc/vm/heap.rs.
use operating_system_experim.Prelude.{
  ℕ, zero, suc, ◌+◌, ◌-◌, ◌/◌, ◌≤◌, ◌<◌, ◌≡◌, refl, sym, ap, ◌∙◌, ◌≢◌, inl, inr, Bool, true, false,
  not, ◌&&◌, ◌||◌, Option, none, some, arith, ltb, leb, ◌==◌, if◌then◌else◌, ltb→lt, ltb→ge,
  Bool-cases,
}
use operating_system_experim.Memory.Frames.{
  BootInfoFrameAllocator, allocate_frame, deallocate_frame,
}
use operating_system_experim.Memory.Heap.{
  Mapper, Mapping, map_range, unmap_range, end_page, settle, brk, heap_start, heap_size,
}

-- A page that is mapped is mapped from then on and no other page changes; the same for unmapping.
pub record IsLawful (x : Mapper) : Type 0 where
  pub map_law :
      (t t' : x.Table) (page frame : ℕ) (user : Bool) (a a' : BootInfoFrameAllocator)
      → x.map_to t page frame user a ≡ (some t', a')
      → (p : ℕ) → x.is_mapped t' p ≡ (p == page || x.is_mapped t p)
  pub unmap_law :
      (t t' : x.Table) (page frame : ℕ)
      → x.unmap t page ≡ some (frame, t')
      → (p : ℕ) → x.is_mapped t' p ≡ (not (p == page) && x.is_mapped t p)

-- `p` is one of the `count` pages from `page` on.
abbrev pub inside : ℕ → ℕ → ℕ → Bool
inside page count p = leb page p && ltb p (page + count)

not_both : false ≢ true
not_both e = ground arith

none_inside : (page p : ℕ) (b : Bool) → b ≡ (inside page 0 p || b)
none_inside page p b = ground arith

none_outside : (page p : ℕ) (b : Bool) → b ≡ (not (inside page 0 p) && b)
none_outside page p b = ground arith

one_more :
    (page count p : ℕ) (b : Bool)
    → (inside (page + 1) count p || (p == page || b)) ≡ (inside page (suc count) p || b)
one_more page count p b = ground arith

one_less :
    (page count p : ℕ) (b : Bool)
    → (not (inside (page + 1) count p) && (not (p == page) && b))
      ≡ (not (inside page (suc count) p) && b)
one_less page count p b = ground arith

-- A call that answers has moved the end.
settle-some :
    {Table : Type 0} (out : Bool) (end' new_end moved : ℕ) (answer : Option ℕ) (r : Mapping Table)
    (t t' : Table) (a a' : BootInfoFrameAllocator)
    → (if out then (none, end', t, a) else settle end' new_end r) ≡ (answer, moved, t', a')
    → answer ≢ none
    → (r ≡ (true, t', a')) × (answer ≡ some new_end) × (moved ≡ new_end) × (out ≡ false)
settle-some false end' new_end moved answer (true, t1, a1) t t' a a' e done =
    (ap (λ k. (true, k.2, k.3)) e, sym (ap (λ k. k.0) e), sym (ap (λ k. k.1) e), refl)
settle-some false end' new_end moved answer (false, t1, a1) t t' a a' e done =
    absurd (done (sym (ap (λ k. k.0) e)))
settle-some true end' new_end moved answer r t t' a a' e done =
    absurd (done (sym (ap (λ k. k.0) e)))

base-le-end_page : (a : ℕ) → heap_start ≤ a → heap_start / 4096 ≤ end_page a
base-le-end_page a h = ground arith

-- The page of the end is the last one of a heap that is not empty.
held-end_page :
    (p address : ℕ)
    → heap_start / 4096 ≤ p
    → (not (address == heap_start) && leb p (address / 4096)) ≡ ltb p (end_page address)
held-end_page p address low = ground (arith, low)

in_range : (a : ℕ) → (ltb (heap_start + heap_size) a || ltb a heap_start) ≡ false → heap_start ≤ a
in_range a h = ground arith

grown : (p from to : ℕ) → from < to → (inside from (to - from) p || ltb p from) ≡ ltb p to
grown p from to h = ground arith

shrunk : (p from to : ℕ) → to ≤ from → (not (inside to (from - to) p) && ltb p from) ≡ ltb p to
shrunk p from to h = ground arith

not_grown : (p from count : ℕ) (b : Bool) → p < from → (inside from count p || b) ≡ b
not_grown p from count b h = ground arith

not_shrunk : (p from count : ℕ) (b : Bool) → p < from → (not (inside from count p) && b) ≡ b
not_shrunk p from count b h = ground arith

module _ (x : Mapper) (law : IsLawful x) where
  pub unmap_range-mapped :
      (page count : ℕ) (t t' : x.Table) (a a' : BootInfoFrameAllocator)
      → unmap_range x page count t a ≡ (true, t', a')
      → (p : ℕ) → x.is_mapped t' p ≡ (not (inside page count p) && x.is_mapped t p)
  unfolding unmap_range
  unmap_range-mapped page zero t t' a a' e p =
      ap (λ r. x.is_mapped r.1 p) (sym e) ∙ none_outside page p (x.is_mapped t p)
  unmap_range-mapped page (suc count) t t' a a' e p =
      after (λ t1 a1 k. unmap_range-mapped (page + 1) count t1 t' a1 a' k p) (x.unmap t page) refl e
    where
      after :
          ((t1 : x.Table) (a1 : BootInfoFrameAllocator)
            → unmap_range x (page + 1) count t1 a1 ≡ (true, t', a')
            → x.is_mapped t' p ≡ (not (inside (page + 1) count p) && x.is_mapped t1 p))
          → (o : Option (ℕ × x.Table)) → x.unmap t page ≡ o
          → (let r : Mapping x.Table = elim o [
            | none ↦ (false, t, a)
            | some (frame, t1) ↦ unmap_range x (page + 1) count t1 (deallocate_frame a frame)
          ] in
              r)
            ≡ (true, t', a')
          → x.is_mapped t' p ≡ (not (inside page (suc count) p) && x.is_mapped t p)
      after later none _ k = absurd (not_both (ap (λ r. r.0) k))
      after later (some (frame, t1)) e1 k =
          later t1 (deallocate_frame a frame) k
          ∙ ap (λ b. not (inside (page + 1) count p) && b) (law.unmap_law t t1 page frame e1 p)
          ∙ one_less page count p (x.is_mapped t p)

  pub map_range-mapped :
      (page count : ℕ) (user : Bool) (t t' : x.Table) (a a' : BootInfoFrameAllocator)
      → map_range x page count user t a ≡ (true, t', a')
      → (p : ℕ) → x.is_mapped t' p ≡ (inside page count p || x.is_mapped t p)
  unfolding map_range
  map_range-mapped page zero user t t' a a' e p =
      ap (λ r. x.is_mapped r.1 p) (sym e) ∙ none_inside page p (x.is_mapped t p)
  map_range-mapped page (suc count) user t t' a a' e p =
      framed (λ t1 a1 k. map_range-mapped (page + 1) count user t1 t' a1 a' k p) (allocate_frame a)
        e
    where
      mapped :
          ((t1 : x.Table) (a1 : BootInfoFrameAllocator)
            → map_range x (page + 1) count user t1 a1 ≡ (true, t', a')
            → x.is_mapped t' p ≡ (inside (page + 1) count p || x.is_mapped t1 p))
          → (frame : ℕ) (a1 : BootInfoFrameAllocator) (r : Option x.Table × BootInfoFrameAllocator)
          → x.map_to t page frame user a1 ≡ r
          → (let r' : Mapping x.Table = elim r.0 [
            | none ↦ (false, t, r.1)
            | some t1 ↦ map_range x (page + 1) count user t1 r.1
          ] in
              r')
            ≡ (true, t', a')
          → x.is_mapped t' p ≡ (inside page (suc count) p || x.is_mapped t p)
      mapped later frame a1 (none, a2) _ k = absurd (not_both (ap (λ r. r.0) k))
      mapped later frame a1 (some t1, a2) e1 k =
          later t1 a2 k
          ∙ ap (λ b. inside (page + 1) count p || b) (law.map_law t t1 page frame user a1 a2 e1 p)
          ∙ one_more page count p (x.is_mapped t p)

      framed :
          ((t1 : x.Table) (a1 : BootInfoFrameAllocator)
            → map_range x (page + 1) count user t1 a1 ≡ (true, t', a')
            → x.is_mapped t' p ≡ (inside (page + 1) count p || x.is_mapped t1 p))
          → (r : Option ℕ × BootInfoFrameAllocator)
          → (let r' : Mapping x.Table = elim r.0 [
            | none ↦ (false, t, r.1)
            | some frame ↦ elim (x.map_to t page frame user r.1).0 [
              | none ↦ (false, t, (x.map_to t page frame user r.1).1)
              | some t1 ↦ map_range x (page + 1) count user t1 (x.map_to t page frame user r.1).1
            ]
          ] in
              r')
            ≡ (true, t', a')
          → x.is_mapped t' p ≡ (inside page (suc count) p || x.is_mapped t p)
      framed later (none, a1) k = absurd (not_both (ap (λ r. r.0) k))
      framed later (some frame, a1) k = mapped later frame a1 (x.map_to t page frame user a1) refl k

  -- The pages of a heap that ends at the address are mapped, from its base to the page of the end, that
  -- one included, and no other page of its range; an empty heap has none. A heap may end one page behind
  -- its size.
  abbrev pub IsHeap : x.Table → ℕ → Type 0
  IsHeap t end' =
      (p : ℕ)
      → heap_start / 4096 ≤ p
      → p ≤ (heap_start + heap_size) / 4096
      → x.is_mapped t p ≡ (not (end' == heap_start) && leb p (end' / 4096))

  -- Where just the pages of the heap are mapped in its range: a call of `brk` that succeeds with a new end
  -- answers it and leaves just the pages of a heap that ends there mapped; no page below the heap
  -- changes.
  pub brk-IsHeap :
      (new_end end' moved : ℕ) (answer : Option ℕ) (t t' : x.Table) (a a' : BootInfoFrameAllocator)
      → IsHeap t end'
      → heap_start ≤ end'
      → brk x (some new_end) end' t a ≡ (answer, moved, t', a')
      → answer ≢ none
      → (answer ≡ some new_end)
        × (moved ≡ new_end)
        × IsHeap t' new_end
        × ((p : ℕ) → p < heap_start / 4096 → x.is_mapped t' p ≡ x.is_mapped t p)
  unfolding brk
  brk-IsHeap new_end end' moved answer t t' a a' heap real e done =
      let E = end_page end' in
      let N = end_page new_end in
      let grow : Mapping x.Table = map_range x E (N - E) true t a in
      let shrink : Mapping x.Table = unmap_range x N (E - N) t a in
      let out = ltb (heap_start + heap_size) new_end || ltb new_end heap_start in
      let (settled, answered, at, within) =
        settle-some out end' new_end moved answer (if ltb E N then grow else shrink) t t' a a' e
          done in
      let E_base = base-le-end_page end' real in
      let N_base = base-le-end_page new_end (in_range new_end within) in
      elim (Bool-cases (ltb E N)) [
        | inl up ↦
            let ran : grow ≡ (true, t', a') =
              ap (λ b. if b then grow else shrink) (sym up) ∙ settled in
            let maps = map_range-mapped E (N - E) true t t' a a' ran in
            (
              answered,
              at,
              λ p low high.
                  maps p
                  ∙ ap (λ b. inside E (N - E) p || b) (heap p low high ∙ held-end_page p end' low)
                  ∙ grown p E N (ltb→lt E N up)
                  ∙ sym (held-end_page p new_end low),
              λ p low.
                  maps p ∙ not_grown p E (N - E) (x.is_mapped t p) (omega (arith, low, E_base)),
            )
        | inr down ↦
            let ran : shrink ≡ (true, t', a') =
              ap (λ b. if b then grow else shrink) (sym down) ∙ settled in
            let maps = unmap_range-mapped N (E - N) t t' a a' ran in
            (
              answered,
              at,
              λ p low high.
                  maps p
                  ∙ ap (λ b. not (inside N (E - N) p) && b)
                      (heap p low high ∙ held-end_page p end' low)
                  ∙ shrunk p E N (ltb→ge E N down)
                  ∙ sym (held-end_page p new_end low),
              λ p low.
                  maps p ∙ not_shrunk p N (E - N) (x.is_mapped t p) (omega (arith, low, N_base)),
            )
      ]
