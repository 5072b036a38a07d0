-- ===== src/Memory/Elf/Zeros.antt =====
-- The loop of `load_segment` over the pages behind the file's part, pkg/elf/src/lib.rs.
use operating_system_experim.Prelude.{
  ℕ, zero, suc, ◌+◌, ◌*◌, ◌<◌, ◌≡◌, refl, sym, ap, subst, ◌∙◌, Bool, true, false, Option, none,
  some, arith,
}
use operating_system_experim.Memory.Frames.{BootInfoFrameAllocator, allocate_frame}
use operating_system_experim.Memory.Stack.{Bytes}
use operating_system_experim.Memory.Elf.{PageTable, Flags, Load, put, bss_pages}
use operating_system_experim.Memory.Elf.Tables.{IsTable, put-off_start, no_success}
use operating_system_experim.Memory.Elf.Pages.{
  Sound, Extends, Loaded, Loaded-none, Loaded-join, Unmapped, Unmapped-next, placed-Sound,
  placed-Extends, placed-Holds,
}

put-zeros :
    (frame o : ℕ) (bytes : Bytes)
    → o < 4096
    → put (frame * 4096) 4096 (λ i. 0) bytes (frame * 4096 + o) ≡ 0
put-zeros frame o bytes small = ground (arith, small)

module _ {x : PageTable} where
  module _ (law : IsTable x) where
    -- The rest of the loop after the page has been mapped, and after a frame has been asked for.
    abbrev zeroed :
        Flags → ℕ → ℕ → Load x → ℕ → Option x.Table × BootInfoFrameAllocator → Bool × Load x
    zeroed flags page count s frame (none, a) = (false, record s { alloc = a })
    zeroed flags page count s frame (some t, a) =
        bss_pages x flags (page + 1) count
          (record { table = t; alloc = a; bytes = put (frame * 4096) 4096 (λ i. 0) s.bytes })

    abbrev zeroing : Flags → ℕ → ℕ → Load x → Option ℕ × BootInfoFrameAllocator → Bool × Load x
    zeroing flags page count s (none, a) = (false, record s { alloc = a })
    zeroing flags page count s (some frame, a) =
        zeroed flags page count s frame (x.map_to s.table page frame flags a)

    bss_pages-step :
        (flags : Flags) (page count : ℕ) (s : Load x)
        → x.translate s.table page ≡ none
        → bss_pages x flags page (suc count) s ≡ zeroing flags page count s (allocate_frame s.alloc)
    unfolding bss_pages
    bss_pages-step flags page count s e = rw (e, bss_pages) (go (allocate_frame s.alloc))
      where
        went :
            (frame : ℕ) (m : Option x.Table × BootInfoFrameAllocator)
            → (let r : Bool × Load x = elim m.0 [
              | none ↦ (false, record s { alloc = m.1 })
              | some t ↦ bss_pages x flags (page + 1) count (record {
                table = t;
                alloc = m.1;
                bytes = put (frame * 4096) 4096 (λ i. 0) s.bytes;
              })
            ] in
                r)
              ≡ zeroed flags page count s frame m
        went frame (none, a) = refl
        went frame (some t, a) = refl

        go :
            (g : Option ℕ × BootInfoFrameAllocator)
            → (let r : Bool × Load x = elim g.0 [
              | none ↦ (false, record s { alloc = g.1 })
              | some frame ↦ elim (x.map_to s.table page frame flags g.1).0 [
                | none ↦ (false, record s { alloc = (x.map_to s.table page frame flags g.1).1 })
                | some table' ↦ bss_pages x flags (page + 1) count (record {
                  table = table';
                  alloc = (x.map_to s.table page frame flags g.1).1;
                  bytes = put (frame * 4096) 4096 (λ i. 0) s.bytes;
                })
              ]
            ] in
                r)
              ≡ zeroing flags page count s g
        go (none, a) = refl
        go (some frame, a) = went frame (x.map_to s.table page frame flags a)

    pub bss_pages-Loaded :
        (flags : Flags) (page count : ℕ) (s s' : Load x)
        → Sound s
        → Unmapped s page count
        → bss_pages x flags page count s ≡ (true, s')
        → Loaded page count (λ p o. 0) s s'
    unfolding bss_pages
    bss_pages-Loaded flags page zero s s' v h e =
        subst (λ r. Loaded page 0 (λ p o. 0) s r) (ap (λ r. r.1) e)
          (Loaded-none page (λ p o. 0) s v)
    bss_pages-Loaded flags page (suc count) s s' v h e =
        given (λ s1 v1 h1 k. bss_pages-Loaded flags (page + 1) count s1 s' v1 h1 k)
          (allocate_frame s.alloc) refl (sym (bss_pages-step flags page count s free) ∙ e)
      where
        free : x.translate s.table page ≡ none
        free = h page (ground arith)

        mapped :
            ((s1 : Load x)
              → Sound s1
              → Unmapped s1 (page + 1) count
              → bss_pages x flags (page + 1) count s1 ≡ (true, s')
              → Loaded (page + 1) count (λ p o. 0) s1 s')
            → (frame : ℕ) (a1 : BootInfoFrameAllocator) → allocate_frame s.alloc ≡ (some frame, a1)
            → (m : Option x.Table × BootInfoFrameAllocator)
            → x.map_to s.table page frame flags a1 ≡ m
            → zeroed flags page count s frame m ≡ (true, s')
            → Loaded page (suc count) (λ p o. 0) s s'
        mapped later frame a1 g (none, a2) m k = absurd (no_success (ap (λ r. r.0) k))
        mapped later frame a1 g (some t, a2) m k =
            let bytes' = put (frame * 4096) 4096 (λ i. 0) s.bytes in
            let s1 : Load x = record { table = t; alloc = a2; bytes = bytes' } in
            let one : Extends page 1 s s1 =
              placed-Extends law s page frame flags a1 a2 t bytes' v free g m (λ f o other small.
                put-off_start frame 4096 f o (λ i. 0) s.bytes (omega arith) other small) in
            Loaded-join page count (λ p o. 0) s s1 s' free one
              (placed-Holds law s page frame flags a1 a2 t bytes' (λ o. 0) m
                (λ o small. put-zeros frame o s.bytes small))
              (later s1 (placed-Sound law s page frame flags a1 a2 t bytes' v g m)
                (Unmapped-next page count s s1 h one) k)

        given :
            ((s1 : Load x)
              → Sound s1
              → Unmapped s1 (page + 1) count
              → bss_pages x flags (page + 1) count s1 ≡ (true, s')
              → Loaded (page + 1) count (λ p o. 0) s1 s')
            → (g : Option ℕ × BootInfoFrameAllocator) → allocate_frame s.alloc ≡ g
            → zeroing flags page count s g ≡ (true, s')
            → Loaded page (suc count) (λ p o. 0) s s'
        given later (none, a1) g k = absurd (no_success (ap (λ r. r.0) k))
        given later (some frame, a1) g k =
            mapped later frame a1 g (x.map_to s.table page frame flags a1) refl k
