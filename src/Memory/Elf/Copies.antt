-- ===== src/Memory/Elf/Copies.antt =====
-- The loop of `load_segment` over the pages of the file's part, pkg/elf/src/lib.rs.
use operating_system_experim.Prelude.{
  ℕ, zero, suc, ◌+◌, ◌-◌, ◌*◌, ◌^◌, ◌<◌, ◌≡◌, refl, sym, ap, subst, ◌∙◌, Bool, true, false, Option,
  none, some, arith,
}
use operating_system_experim.Memory.Frames.{BootInfoFrameAllocator, allocate_frame}
use operating_system_experim.Memory.Stack.{Bytes}
use operating_system_experim.Memory.Elf.{
  PageTable, Flags, ProgramHeader, Load, fill_frame, file_pages,
}
use operating_system_experim.Memory.Elf.Tables.{IsTable, no_success}
use operating_system_experim.Memory.Elf.Pages.{
  Sound, Extends, Loaded, Loaded-none, Loaded-join, Unmapped, Unmapped-next, placed-Sound,
  placed-Extends, placed-Holds,
}
use operating_system_experim.Memory.Elf.Filling.{page_bytes, fill_frame-in, fill_frame-off}

module _ (input : Bytes) (segment : ProgramHeader) where
  module _ {x : PageTable} (law : IsTable x) (flags : Flags) where
    -- The rest of the loop after the page has been mapped, and after a frame has been asked for.
    abbrev filling :
        ℕ → ℕ → ℕ → Load x → ℕ → Option x.Table × BootInfoFrameAllocator → Bool × Load x
    unfolding fill_frame
    filling index page count s frame (none, a) = (
      false,
      record { table = s.table; alloc = a; bytes = fill_frame input segment index frame s.bytes },
    )
    filling index page count s frame (some t, a) =
        file_pages x input segment flags (index + 1) (page + 1) count
          (record { table = t; alloc = a; bytes = fill_frame input segment index frame s.bytes })

    abbrev allocating : ℕ → ℕ → ℕ → Load x → Option ℕ × BootInfoFrameAllocator → Bool × Load x
    allocating index page count s (none, a) = (false, record s { alloc = a })
    allocating index page count s (some frame, a) =
        filling index page count s frame (x.map_to s.table page frame flags a)

    file_pages-step :
        (index page count : ℕ) (s : Load x)
        → file_pages x input segment flags index page (suc count) s
          ≡ allocating index page count s (allocate_frame s.alloc)
    unfolding file_pages
    file_pages-step index page count s = go (allocate_frame s.alloc)
      where
        went :
            (frame : ℕ) (m : Option x.Table × BootInfoFrameAllocator)
            → (let bytes' = fill_frame input segment index frame s.bytes in
                let r : Bool × Load x = elim m.0 [
                  | none ↦ (false, record { table = s.table; alloc = m.1; bytes = bytes' })
                  | some t ↦
                      file_pages x input segment flags
                        (index + 1)
                        (page + 1)
                        count
                        (record { table = t; alloc = m.1; bytes = bytes' })
                ] in
                r)
              ≡ filling index page count s frame m
        went frame (none, a) = refl
        went frame (some t, a) = refl

        go :
            (g : Option ℕ × BootInfoFrameAllocator)
            → (let r : Bool × Load x = elim g.0 [
              | none ↦ (false, record s { alloc = g.1 })
              | some frame ↦
                  let bytes' = fill_frame input segment index frame s.bytes in
                  elim (x.map_to s.table page frame flags g.1).0 [
                    | none ↦ (
                      false,
                      record {
                        table = s.table;
                        alloc = (x.map_to s.table page frame flags g.1).1;
                        bytes = bytes';
                      },
                    )
                    | some table' ↦
                        file_pages x input segment flags (index + 1) (page + 1) count (record {
                          table = table';
                          alloc = (x.map_to s.table page frame flags g.1).1;
                          bytes = bytes';
                        })
                  ]
            ] in
                r)
              ≡ allocating index page count s g
        go (none, a) = refl
        go (some frame, a) = went frame (x.map_to s.table page frame flags a)

    -- The bytes of each page, where the page of index 0 is `base`.
    abbrev pub contents : ℕ → ℕ → Bytes
    contents base p = page_bytes input segment (p - base)

    pub file_pages-Loaded :
        (base index page count : ℕ) (s s' : Load x)
        → page ≡ base + index
        → (index + count) * 4096 < segment.file_size + 4096
        → segment.file_size < 2 ^ 64
        → Sound s
        → Unmapped s page count
        → file_pages x input segment flags index page count s ≡ (true, s')
        → Loaded page count (contents base) s s'
    unfolding file_pages
    file_pages-Loaded base index page zero s s' at enough word v h e =
        subst (λ r. Loaded page 0 (contents base) s r) (ap (λ r. r.1) e)
          (Loaded-none page (contents base) s v)
    file_pages-Loaded base index page (suc count) s s' at enough word v h e =
        given
          (λ s1 v1 h1 k.
            file_pages-Loaded base (index + 1) (page + 1) count s1 s' (omega (arith, at))
              (omega (arith, enough)) word v1 h1 k)
          (allocate_frame s.alloc) refl (sym (file_pages-step index page count s) ∙ e)
      where
        free : x.translate s.table page ≡ none
        free = h page (ground arith)

        some_left : index * 4096 < segment.file_size
        some_left = omega (arith, enough)

        filled_here :
            (frame : ℕ) (o : ℕ)
            → o < 4096
            → fill_frame input segment index frame s.bytes (frame * 4096 + o) ≡ contents base page o
        filled_here frame o small =
            let same : index ≡ page - base = omega (arith, at) in
            fill_frame-in input segment index frame o s.bytes some_left word small
            ∙ ap (λ n. page_bytes input segment n o) same

        mapped :
            ((s1 : Load x)
              → Sound s1
              → Unmapped s1 (page + 1) count
              → file_pages x input segment flags (index + 1) (page + 1) count s1 ≡ (true, s')
              → Loaded (page + 1) count (contents base) s1 s')
            → (frame : ℕ) (a1 : BootInfoFrameAllocator) → allocate_frame s.alloc ≡ (some frame, a1)
            → (m : Option x.Table × BootInfoFrameAllocator)
            → x.map_to s.table page frame flags a1 ≡ m
            → filling index page count s frame m ≡ (true, s')
            → Loaded page (suc count) (contents base) s s'
        mapped later frame a1 g (none, a2) m k = absurd (no_success (ap (λ r. r.0) k))
        mapped later frame a1 g (some t, a2) m k =
            let bytes' = fill_frame input segment index frame s.bytes in
            let s1 : Load x = record { table = t; alloc = a2; bytes = bytes' } in
            let one : Extends page 1 s s1 =
              placed-Extends law s page frame flags a1 a2 t bytes' v free g m (λ f o other small.
                fill_frame-off input segment index frame f o s.bytes some_left word other small) in
            Loaded-join page count (contents base) s s1 s' free one
              (placed-Holds law s page frame flags a1 a2 t bytes' (contents base page) m
                (filled_here frame))
              (later s1 (placed-Sound law s page frame flags a1 a2 t bytes' v g m)
                (Unmapped-next page count s s1 h one) k)

        given :
            ((s1 : Load x)
              → Sound s1
              → Unmapped s1 (page + 1) count
              → file_pages x input segment flags (index + 1) (page + 1) count s1 ≡ (true, s')
              → Loaded (page + 1) count (contents base) s1 s')
            → (g : Option ℕ × BootInfoFrameAllocator) → allocate_frame s.alloc ≡ g
            → allocating index page count s g ≡ (true, s')
            → Loaded page (suc count) (contents base) s s'
        given later (none, a1) g k = absurd (no_success (ap (λ r. r.0) k))
        given later (some frame, a1) g k =
            mapped later frame a1 g (x.map_to s.table page frame flags a1) refl k
