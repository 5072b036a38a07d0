-- ===== src/Memory/Elf/Contents.antt =====
-- What a loaded segment holds: `load_segment` of pkg/elf/src/lib.rs.
use operating_system_experim.Prelude.{
  ℕ, ◌+◌, ◌-◌, ◌*◌, ◌/◌, ◌<◌, ◌≡◌, refl, sym, ap, subst, ◌∙◌, ◌≢◌, inl, inr, Bool, true, Option,
  none, some, arith, leb, ◌==◌, ==→eq, Bool-cases,
}
use operating_system_experim.Memory.Stack.{Addresses, Bytes}
use operating_system_experim.Memory.Stack.Growth.{IsCanonical}
use operating_system_experim.Memory.Elf.{
  PageTable, ProgramHeader, Load, page_flags, align_up, file_pages, bss_pages, load_file, load_bss,
  load_segment,
}
use operating_system_experim.Memory.Elf.Tables.{IsTable}
use operating_system_experim.Memory.Elf.Pages.{Sound, Loaded, Loaded-none, Unmapped}
use operating_system_experim.Memory.Elf.Joins.{Unmapped-rest, Loaded-append}
use operating_system_experim.Memory.Elf.Zeros.{bss_pages-Loaded}
use operating_system_experim.Memory.Elf.Filling.{page_bytes}
use operating_system_experim.Memory.Elf.Copies.{file_pages-Loaded}
use operating_system_experim.Memory.Elf.Segments.{
  IsSegment, first_page, file_count, page_count, pages_of_file, first_of_bss, pages_of_bss,
  last_page, zero_behind,
}

module _ (x : PageTable) (v : Addresses) (law : IsTable x) (canonical : IsCanonical v)
    (input : Bytes) (user : Bool) where
  -- The outcome of a part of the loading: where it succeeds, the pages hold their bytes.
  Part : ℕ → ℕ → (ℕ → Bytes) → Load x → Option (Bool × Load x) → Type 0
  Part first count content s o =
      (r : Bool × Load x) × (o ≡ some r) × (r.0 ≡ true → Loaded first count content s r.1)

  load_file-Part :
      (segment : ProgramHeader) (s : Load x)
      → IsSegment segment
      → Sound s
      → Unmapped s (first_page segment) (file_count segment)
      → Part
          (first_page segment)
          (file_count segment)
          (λ p. page_bytes input segment (p - first_page segment))
          s
          (load_file x v input user segment segment.virtual_addr s)
  unfolding Part load_file
  load_file-Part segment s seg sound free = elim (Bool-cases (segment.file_size == 0)) [
    | inl nothing ↦
        let none_there : file_count segment ≡ 0 =
          omega (arith, ==→eq segment.file_size 0 nothing) in
        (
          (true, s),
          rw (nothing, load_file) refl,
          λ _.
              subst
                (λ n.
                  Loaded (first_page segment) n
                    (λ p. page_bytes input segment (p - first_page segment)) s s)
                (sym none_there)
                (Loaded-none (first_page segment)
                  (λ p. page_bytes input segment (p - first_page segment)) s sound),
        )
    | inr part ↦
        let some_there : 0 < segment.file_size = ground (arith, part) in
        let flags = page_flags segment user in
        let r = file_pages x input segment flags 0 (first_page segment) (file_count segment) s in
        (
          r,
          rw (part, load_file)
              (rw
                (canonical.lower (segment.virtual_addr + segment.file_size)
                  (omega (arith, seg.room, seg.user)))
                (ap (λ n. some (file_pages x input segment flags 0 (first_page segment) n s))
                  (pages_of_file segment.virtual_addr segment.file_size seg.aligned some_there))),
          λ ok.
              file_pages-Loaded input segment law flags (first_page segment) 0 (first_page segment)
                (file_count segment) s r.1 (omega arith) (omega arith)
                (omega (arith, seg.room, seg.user)) sound free (ap (λ b. (b, r.1)) ok),
        )
  ]

  load_bss-Part :
      (segment : ProgramHeader) (s : Load x)
      → IsSegment segment
      → Sound s
      → Unmapped s
          (first_page segment + file_count segment)
          (page_count segment - file_count segment)
      → Part
          (first_page segment + file_count segment)
          (page_count segment - file_count segment)
          (λ p o. 0)
          s
          (load_bss x v input user segment segment.virtual_addr s)
  unfolding Part load_bss
  load_bss-Part segment s seg sound free =
      elim (Bool-cases (leb segment.mem_size segment.file_size)) [
        | inl nothing ↦
            let none_there : page_count segment - file_count segment ≡ 0 =
              ground (arith, nothing) in
            (
              (true, s),
              rw (nothing, load_bss) refl,
              λ _.
                  subst (λ n. Loaded (first_page segment + file_count segment) n (λ p o. 0) s s)
                    (sym none_there)
                    (Loaded-none (first_page segment + file_count segment) (λ p o. 0) s sound),
            )
        | inr part ↦
            let more : segment.file_size < segment.mem_size = ground (arith, part) in
            let flags = page_flags segment user in
            let first = first_page segment + file_count segment in
            let count = page_count segment - file_count segment in
            let r = bss_pages x flags first count s in
            let at = first_of_bss segment.virtual_addr segment.file_size seg.aligned in
            let pages =
              pages_of_bss segment.virtual_addr segment.file_size segment.mem_size seg.aligned
                more in
            (
              r,
              rw (part, load_bss)
                  (rw
                    (canonical.lower (segment.virtual_addr + segment.file_size)
                      (omega (arith, seg.room, seg.user)))
                    (rw
                      (canonical.lower (align_up (segment.virtual_addr + segment.file_size))
                        (omega (arith, more, seg.user)))
                      (rw
                        (canonical.lower (segment.virtual_addr + segment.mem_size)
                          (omega (arith, seg.user)))
                        (ap
                            (λ n. some (
                              bss_pages x flags n
                                ((segment.virtual_addr + segment.mem_size - 1) / 4096 + 1 - n) s))
                            at
                          ∙ ap (λ n. some (bss_pages x flags first n s)) pages)))),
              λ ok. bss_pages-Loaded law flags first count s r.1 sound free (ap (λ b. (b, r.1)) ok),
            )
      ]

  -- A segment of user space (`IsSegment`: it starts with a page, and its memory has room for its part
  -- of the file) whose pages are not mapped is loaded without a panic, where no mapped frame is free
  -- and none is free twice (`Sound`). If no error comes back, then the answer is the range of its
  -- pages and their size; each of its pages is mapped to a frame that holds the file's bytes, and
  -- zeros where the file's part ends; all other pages and the bytes of their frames are as before;
  -- and the state is sound again.
  pub load_segment-Loaded :
      (segment : ProgramHeader) (s : Load x)
      → IsSegment segment
      → Sound s
      → Unmapped s (first_page segment) (page_count segment)
      → (r : Option (ℕ × ℕ × ℕ) × Load x) × (load_segment x v input user segment s ≡ some r)
        × (r.0 ≢ none
            → (r.0
                ≡ some (
                  first_page segment,
                  first_page segment + page_count segment - 1,
                  page_count segment * 4096,
                ))
              × Loaded
                  (first_page segment)
                  (page_count segment)
                  (λ p. page_bytes input segment (p - first_page segment))
                  s
                  r.1)
  unfolding load_segment Part
  load_segment-Loaded segment s seg sound free =
      let first = first_page segment in
      let front : Unmapped s first (file_count segment) =
        λ p within. free p (ground (arith, within, seg.room)) in
      let content : ℕ → Bytes = λ p. page_bytes input segment (p - first) in
      let (r1, e1, l1) = load_file-Part segment s seg sound front in
      let start = canonical.lower segment.virtual_addr (omega (arith, seg.user, seg.nonempty)) in
      let end' =
        canonical.lower (segment.virtual_addr + segment.mem_size) (omega (arith, seg.user)) in
      elim (Bool-cases r1.0) [
        | inr failed ↦ ((none, r1.1), ground (arith, start, e1, failed), λ e. absurd (e refl))
        | inl ok ↦
            let one = l1 ok in
            let whole : file_count segment + (page_count segment - file_count segment)
                ≡ page_count segment =
              omega (arith, seg.room) in
            let free' : Unmapped s first
                (file_count segment + (page_count segment - file_count segment)) =
              subst (Unmapped s first) (sym whole) free in
            let (r2, e2, l2) = load_bss-Part segment r1.1 seg one.sound (
              Unmapped-rest first (file_count segment) (page_count segment - file_count segment) s
                r1.1 free' one.extends) in
            elim (Bool-cases r2.0) [
              | inr failed ↦
                  ((none, r2.1), ground (arith, start, e1, ok, e2, failed), λ e. absurd (e refl))
              | inl done ↦ (
                (some (first, first + page_count segment - 1, page_count segment * 4096), r2.1),
                ground (
                  arith,
                  start,
                  e1,
                  ok,
                  e2,
                  done,
                  end',
                  last_page segment.virtual_addr segment.mem_size seg.aligned seg.nonempty,
                  pages_of_file segment.virtual_addr segment.mem_size seg.aligned seg.nonempty,
                ),
                λ _. (
                  refl,
                  subst (λ n. Loaded first n content s r2.1) whole
                      (Loaded-append first (file_count segment)
                        (page_count segment - file_count segment) content (λ p o. 0) s r1.1 r2.1
                        free' (λ p o within small. zero_behind input segment p o within) one
                        (l2 done)),
                ),
              )
            ]
      ]
