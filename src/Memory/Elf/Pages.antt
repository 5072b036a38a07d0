-- ===== src/Memory/Elf/Pages.antt =====
-- The loops of `load_segment` over pages, pkg/elf/src/lib.rs.
use operating_system_experim.Prelude.{
  ℕ, suc, ◌+◌, ◌*◌, ◌<◌, ◌≡◌, refl, sym, ap, subst, ◌∙◌, ◌≢◌, inl, inr, true, false, none, some,
  ◌∷◌, ◌++◌, arith, ◌==◌, ==→eq, Bool-cases, Distinct,
}
use operating_system_experim.Memory.Frames.{BootInfoFrameAllocator, allocate_frame}
use operating_system_experim.Memory.Heap.Pages.{inside}
use operating_system_experim.Memory.Stack.{Bytes}
use operating_system_experim.Memory.Elf.{PageTable, Flags, Load}
use operating_system_experim.Memory.Elf.Tables.{
  free_frames, Apart, IsTable, allocated, no_page, is_mapped, only_page, same_frame, Apart-behind,
  Distinct-behind,
}

module _ {x : PageTable} where
  -- No frame is free twice, and none that is mapped is free.
  pub record Sound (s : Load x) : Type 0 where
    pub distinct : Distinct (free_frames s.alloc)
    pub taken : (p f : ℕ) → x.translate s.table p ≡ some f → Apart f (free_frames s.alloc)

  -- The pages outside the range are as before, and so are the bytes of mapped frames.
  pub record Extends (first count : ℕ) (s s' : Load x) : Type 0 where
    pub others :
        (p : ℕ) → inside first count p ≡ false → x.translate s'.table p ≡ x.translate s.table p
    pub bytes_kept :
        (p f o : ℕ)
        → x.translate s.table p ≡ some f
        → o < 4096
        → s'.bytes (f * 4096 + o) ≡ s.bytes (f * 4096 + o)

  -- The page is mapped to a frame with these bytes.
  pub record Holds (s : Load x) (p : ℕ) (content : Bytes) : Type 0 where
    pub frame : ℕ
    pub mapped : x.translate s.table p ≡ some frame
    pub bytes : (o : ℕ) → o < 4096 → s.bytes (frame * 4096 + o) ≡ content o

  module _ (law : IsTable x) where
    -- A frame of the allocator with new bytes becomes a page.
    pub placed-Sound :
        (s : Load x) (page frame : ℕ) (flags : Flags) (a1 a2 : BootInfoFrameAllocator)
        (t' : x.Table) (bytes' : Bytes)
        → Sound s
        → allocate_frame s.alloc ≡ (some frame, a1)
        → x.map_to s.table page frame flags a1 ≡ (some t', a2)
        → Sound (record { table = t'; alloc = a2; bytes = bytes' })
    placed-Sound s page frame flags a1 a2 t' bytes' v given mapped =
        let (front, eq) = law.takes s.table t' page frame flags a1 a2 mapped in
        let list : free_frames s.alloc ≡ frame ∷ (front ++ free_frames a2) =
          allocated s.alloc a1 frame given ∙ ap (λ l. frame ∷ l) eq in
        let (apart, others) = subst Distinct list v.distinct in
        record {
          distinct = Distinct-behind front (free_frames a2) others;
          taken = λ p f e.
              let maps = law.maps s.table t' page frame flags a1 a2 mapped p in
              elim (Bool-cases (p == page)) [
                | inl here ↦
                    subst (λ g. Apart g (free_frames a2))
                      (same_frame frame f (x.translate t' p) (ground (arith, maps, here)) e)
                      (Apart-behind frame front (free_frames a2) apart)
                | inr there ↦
                    Apart-behind f (frame ∷ front) (free_frames a2)
                      (subst (Apart f) list (v.taken p f (ground (arith, maps, there, e))))
              ];
        }

    pub placed-Extends :
        (s : Load x) (page frame : ℕ) (flags : Flags) (a1 a2 : BootInfoFrameAllocator)
        (t' : x.Table) (bytes' : Bytes)
        → Sound s
        → x.translate s.table page ≡ none
        → allocate_frame s.alloc ≡ (some frame, a1)
        → x.map_to s.table page frame flags a1 ≡ (some t', a2)
        → ((f o : ℕ) → f ≢ frame → o < 4096 → bytes' (f * 4096 + o) ≡ s.bytes (f * 4096 + o))
        → Extends page 1 s (record { table = t'; alloc = a2; bytes = bytes' })
    placed-Extends s page frame flags a1 a2 t' bytes' v none_there given mapped same = record {
      others = λ p out. ground (arith, law.maps s.table t' page frame flags a1 a2 mapped p, out);
      bytes_kept = λ p f o e small.
          same f o
            (λ k. (subst (Apart f) (allocated s.alloc a1 frame given) (v.taken p f e)).0 (sym k))
            small;
    }

    pub placed-Holds :
        (s : Load x) (page frame : ℕ) (flags : Flags) (a1 a2 : BootInfoFrameAllocator)
        (t' : x.Table) (bytes' content : Bytes)
        → x.map_to s.table page frame flags a1 ≡ (some t', a2)
        → ((o : ℕ) → o < 4096 → bytes' (frame * 4096 + o) ≡ content o)
        → Holds (record { table = t'; alloc = a2; bytes = bytes' }) page content
    placed-Holds s page frame flags a1 a2 t' bytes' content mapped filled = record {
      frame = frame;
      mapped = ground (arith, law.maps s.table t' page frame flags a1 a2 mapped page);
      bytes = filled;
    }

  Extends-join :
      (page count : ℕ) (s s1 s' : Load x)
      → x.translate s.table page ≡ none
      → Extends page 1 s s1
      → Extends (page + 1) count s1 s'
      → Extends page (suc count) s s'
  Extends-join page count s s1 s' none_there one more = record {
    others = λ p out. more.others p (ground (arith, out)) ∙ one.others p (ground (arith, out));
    bytes_kept = λ p f o e small.
        more.bytes_kept p f o (one.others p (not_here p page f e none_there) ∙ e) small
        ∙ one.bytes_kept p f o e small;
  }
    where
      not_here :
          (p q f : ℕ)
          → x.translate s.table p ≡ some f
          → x.translate s.table q ≡ none
          → inside q 1 p ≡ false
      not_here p q f e n = elim (Bool-cases (inside q 1 p)) [
        | inl within ↦
            absurd (is_mapped (sym e ∙ ap (x.translate s.table) (only_page p q within) ∙ n))
        | inr out ↦ out
      ]

  pub Holds-Extends :
      (page first count : ℕ) (s s' : Load x) (content : Bytes)
      → inside first count page ≡ false
      → Extends first count s s'
      → Holds s page content
      → Holds s' page content
  Holds-Extends page first count s s' content out more h = record {
    frame = h.frame;
    mapped = more.others page out ∙ h.mapped;
    bytes = λ o small. more.bytes_kept page h.frame o h.mapped small ∙ h.bytes o small;
  }

  -- What a loop over pages leaves.
  pub record Loaded (first count : ℕ) (content : ℕ → Bytes) (s s' : Load x) : Type 0 where
    pub sound : Sound s'
    pub extends : Extends first count s s'
    pub holds : (p : ℕ) → inside first count p ≡ true → Holds s' p (content p)

  pub Loaded-join :
      (page count : ℕ) (content : ℕ → Bytes) (s s1 s' : Load x)
      → x.translate s.table page ≡ none
      → Extends page 1 s s1
      → Holds s1 page (content page)
      → Loaded (page + 1) count content s1 s'
      → Loaded page (suc count) content s s'
  Loaded-join page count content s s1 s' none_there one here more = record {
    sound = more.sound;
    extends = Extends-join page count s s1 s' none_there one more.extends;
    holds = λ p within. elim (Bool-cases (p == page)) [
      | inl at ↦
          subst (λ q. Holds s' q (content q)) (sym (==→eq p page at))
            (Holds-Extends page (page + 1) count s1 s' (content page) (ground arith) more.extends
              here)
      | inr there ↦ more.holds p (ground (arith, within, there))
    ];
  }

  -- Nothing to load.
  pub Loaded-none :
      (first : ℕ) (content : ℕ → Bytes) (s : Load x) → Sound s → Loaded first 0 content s s
  Loaded-none first content s v = record {
    sound = v;
    extends = record { others = λ p out. refl; bytes_kept = λ p f o e small. refl };
    holds = λ p within. absurd (no_page first p within);
  }

  -- No page of the range is mapped.
  abbrev pub Unmapped : Load x → ℕ → ℕ → Type 0
  Unmapped s first count = (p : ℕ) → inside first count p ≡ true → x.translate s.table p ≡ none

  pub Unmapped-next :
      (page count : ℕ) (s s1 : Load x)
      → Unmapped s page (suc count)
      → Extends page 1 s s1
      → Unmapped s1 (page + 1) count
  Unmapped-next page count s s1 h one p within =
      one.others p (ground (arith, within)) ∙ h p (ground (arith, within))
