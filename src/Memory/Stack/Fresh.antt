-- ===== src/Memory/Stack/Fresh.antt =====
-- What mapping pages keeps, whether it succeeds or not, and which pages it takes: `map_range` of
-- pkg/elf/src/lib.rs.
use operating_system_experim.Prelude.{
  ℕ, zero, suc, ◌+◌, ◌≡◌, refl, sym, ap, ◌∙◌, ◌≢◌, Bool, true, false, Option, none, some, arith,
}
use operating_system_experim.Memory.Frames.{BootInfoFrameAllocator, allocate_frame}
use operating_system_experim.Memory.Heap.{Mapper, Mapping, map_range}
use operating_system_experim.Memory.Heap.Pages.{IsLawful, inside}

-- `map_to` refuses a page that is mapped.
abbrev pub IsFresh : Mapper → Type 0
IsFresh x =
    (t t' : x.Table) (page frame : ℕ) (user : Bool) (a a' : BootInfoFrameAllocator)
    → x.map_to t page frame user a ≡ (some t', a')
    → x.is_mapped t page ≡ false

module _ (x : Mapper) (P : x.Table → Type 0)
    (map_keeps : (t t' : x.Table) (page frame : ℕ) (user : Bool) (a a' : BootInfoFrameAllocator)
      → x.map_to t page frame user a ≡ (some t', a')
      → P t
      → P t') where
  -- What each mapping of a page keeps.
  pub map_range-keeps :
      (page count : ℕ) (user : Bool) (t : x.Table) (a : BootInfoFrameAllocator)
      → P t
      → P (map_range x page count user t a).1
  unfolding map_range
  map_range-keeps page zero user t a h = h
  map_range-keeps page (suc count) user t a h =
      framed (λ t1 a1 k. map_range-keeps (page + 1) count user t1 a1 k) (allocate_frame a)
    where
      mapped :
          ((t1 : x.Table) (a1 : BootInfoFrameAllocator)
            → P t1
            → P (map_range x (page + 1) count user t1 a1).1)
          → (frame : ℕ) (a1 : BootInfoFrameAllocator) (r : Option x.Table × BootInfoFrameAllocator)
          → x.map_to t page frame user a1 ≡ r
          → P
              (let r' : Mapping x.Table = elim r.0 [
                | none ↦ (false, t, r.1)
                | some t1 ↦ map_range x (page + 1) count user t1 r.1
              ] in
                r').1
      mapped later frame a1 (none, a2) e = h
      mapped later frame a1 (some t1, a2) e = later t1 a2 (map_keeps t t1 page frame user a1 a2 e h)

      framed :
          ((t1 : x.Table) (a1 : BootInfoFrameAllocator)
            → P t1
            → P (map_range x (page + 1) count user t1 a1).1)
          → (r : Option ℕ × BootInfoFrameAllocator)
          → P
              (let r' : Mapping x.Table = elim r.0 [
                | none ↦ (false, t, r.1)
                | some frame ↦ elim (x.map_to t page frame user r.1).0 [
                  | none ↦ (false, t, (x.map_to t page frame user r.1).1)
                  | some t1 ↦
                      map_range x (page + 1) count user t1 (x.map_to t page frame user r.1).1
                ]
              ] in
                r').1
      framed later (none, a1) = h
      framed later (some frame, a1) = mapped later frame a1 (x.map_to t page frame user a1) refl

not_both : false ≢ true
not_both e = ground arith

beyond :
    (page count p : ℕ)
    → inside page (suc count) p ≡ true
    → p ≢ page
    → inside (page + 1) count p ≡ true
beyond page count p within other = ground (arith, within, other)

module _ (x : Mapper) (law : IsLawful x) where
  -- A page that is mapped stays mapped.
  pub map_range-keeps_mapped :
      (page count : ℕ) (user : Bool) (t : x.Table) (a : BootInfoFrameAllocator) (p : ℕ)
      → x.is_mapped t p ≡ true
      → x.is_mapped (map_range x page count user t a).1 p ≡ true
  map_range-keeps_mapped page count user t a p =
      map_range-keeps x (λ u. x.is_mapped u p ≡ true)
        (λ u u' q frame user' b b' e h. ground (arith, law.map_law u u' q frame user' b b' e p))
        page count user t a

  -- A mapped page of the range makes the mapping fail.
  pub map_range-mapped_fails :
      IsFresh x
      → (page count : ℕ) (user : Bool) (t : x.Table) (a : BootInfoFrameAllocator) (p : ℕ)
      → x.is_mapped t p ≡ true
      → inside page count p ≡ true
      → (map_range x page count user t a).0 ≡ false
  unfolding map_range
  map_range-mapped_fails fresh page zero user t a p h within = absurd (ground arith)
  map_range-mapped_fails fresh page (suc count) user t a p h within =
      framed (λ t1 a1. map_range-mapped_fails fresh (page + 1) count user t1 a1 p)
        (allocate_frame a)
    where
      mapped :
          ((t1 : x.Table) (a1 : BootInfoFrameAllocator)
            → x.is_mapped t1 p ≡ true
            → inside (page + 1) count p ≡ true
            → (map_range x (page + 1) count user t1 a1).0 ≡ false)
          → (frame : ℕ) (a1 : BootInfoFrameAllocator) (r : Option x.Table × BootInfoFrameAllocator)
          → x.map_to t page frame user a1 ≡ r
          → (let r' : Mapping x.Table = elim r.0 [
            | none ↦ (false, t, r.1)
            | some t1 ↦ map_range x (page + 1) count user t1 r.1
          ] in
              r').0
            ≡ false
      mapped later frame a1 (none, a2) e = refl
      mapped later frame a1 (some t1, a2) e =
          later t1 a2 (ground (arith, h, law.map_law t t1 page frame user a1 a2 e p)) (
            beyond page count p within (λ at.
              not_both
                (sym (fresh t t1 page frame user a1 a2 e) ∙ ap (x.is_mapped t) (sym at) ∙ h)))

      framed :
          ((t1 : x.Table) (a1 : BootInfoFrameAllocator)
            → x.is_mapped t1 p ≡ true
            → inside (page + 1) count p ≡ true
            → (map_range x (page + 1) count user t1 a1).0 ≡ false)
          → (r : Option ℕ × BootInfoFrameAllocator)
          → (let r' : Mapping x.Table = elim r.0 [
            | none ↦ (false, t, r.1)
            | some frame ↦ elim (x.map_to t page frame user r.1).0 [
              | none ↦ (false, t, (x.map_to t page frame user r.1).1)
              | some t1 ↦ map_range x (page + 1) count user t1 (x.map_to t page frame user r.1).1
            ]
          ] in
              r').0
            ≡ false
      framed later (none, a1) = refl
      framed later (some frame, a1) = mapped later frame a1 (x.map_to t page frame user a1) refl
