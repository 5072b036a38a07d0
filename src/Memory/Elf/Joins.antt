-- ===== src/Memory/Elf/Joins.antt =====
-- Two loads of pages, one behind the other: the loops of `load_segment` of pkg/elf/src/lib.rs.
use operating_system_experim.Prelude.{
  ℕ, ◌+◌, ◌<◌, ◌≡◌, sym, ◌∙◌, ◌≢◌, inl, inr, true, false, none, some, arith, Bool-cases,
}
use operating_system_experim.Memory.Heap.Pages.{inside}
use operating_system_experim.Memory.Stack.{Bytes}
use operating_system_experim.Memory.Elf.{PageTable, Load}
use operating_system_experim.Memory.Elf.Pages.{Extends, Holds-Extends, Loaded, Unmapped}

is_mapped : {f : ℕ} → some f ≢ none
is_mapped e = ground arith

module _ {x : PageTable} where
  pub Unmapped-rest :
      (first a b : ℕ) (s s1 : Load x)
      → Unmapped s first (a + b)
      → Extends first a s s1
      → Unmapped s1 (first + a) b
  Unmapped-rest first a b s s1 h e p within =
      e.others p (ground (arith, within)) ∙ h p (ground (arith, within))

  Extends-append :
      (first a b : ℕ) (s s1 s2 : Load x)
      → Unmapped s first (a + b)
      → Extends first a s s1
      → Extends (first + a) b s1 s2
      → Extends first (a + b) s s2
  Extends-append first a b s s1 s2 h one two = record {
    others = λ p out. two.others p (ground (arith, out)) ∙ one.others p (ground (arith, out));
    bytes_kept = λ p f o e small.
        two.bytes_kept p f o (one.others p (outside p f e) ∙ e) small
        ∙ one.bytes_kept p f o e small;
  }
    where
      outside : (p f : ℕ) → x.translate s.table p ≡ some f → inside first a p ≡ false
      outside p f e = elim (Bool-cases (inside first a p)) [
        | inl within ↦ absurd (is_mapped (sym e ∙ h p (ground (arith, within))))
        | inr out ↦ out
      ]

  pub Loaded-append :
      (first a b : ℕ) (content rest : ℕ → Bytes) (s s1 s2 : Load x)
      → Unmapped s first (a + b)
      → ((p o : ℕ) → inside (first + a) b p ≡ true → o < 4096 → rest p o ≡ content p o)
      → Loaded first a content s s1
      → Loaded (first + a) b rest s1 s2
      → Loaded first (a + b) content s s2
  Loaded-append first a b content rest s s1 s2 h same one two = record {
    sound = two.sound;
    extends = Extends-append first a b s s1 s2 h one.extends two.extends;
    holds = λ p within. elim (Bool-cases (inside first a p)) [
      | inl front ↦
          Holds-Extends p (first + a) b s1 s2 (content p) (ground (arith, front)) two.extends
            (one.holds p front)
      | inr behind ↦
          let there : inside (first + a) b p ≡ true = ground (arith, within, behind) in
          let h2 = two.holds p there in
          record {
            frame = h2.frame;
            mapped = h2.mapped;
            bytes = λ o small. h2.bytes o small ∙ same p o there small;
          }
    ];
  }
