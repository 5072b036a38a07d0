-- ===== src/Memory/Elf/Tables.antt =====
-- What the page table and the frame allocator keep apart, and buffers that are filled piece by piece.
use operating_system_experim.Prelude.{
  ℕ, ◌+◌, ◌*◌, ◌≤◌, ◌<◌, ◌≡◌, refl, ap, ◌∙◌, ◌≢◌, true, false, Option, none, some, List, [], ◌∷◌,
  ◌++◌, arith, ◌==◌, if◌then◌else◌, All, Distinct,
}
use operating_system_experim.Memory.Frames.{BootInfoFrameAllocator, allocate_frame}
use operating_system_experim.Memory.Heap.Pages.{inside}
use operating_system_experim.Memory.Stack.{Bytes}
use operating_system_experim.Memory.Elf.{PageTable, Flags, put}

-- The frames that the allocator can still give, in the order in which it gives them.
abbrev pub free_frames : BootInfoFrameAllocator → List ℕ
free_frames a = a.recycled ++ a.frames

abbrev pub Apart : ℕ → List ℕ → Type 0
Apart f l = All (λ g. g ≢ f) l

-- `map_to` maps just that page, and takes frames for tables as the allocator gives them.
pub record IsTable (x : PageTable) : Type 0 where
  pub maps :
      (t t' : x.Table) (page frame : ℕ) (flags : Flags) (a a' : BootInfoFrameAllocator)
      → x.map_to t page frame flags a ≡ (some t', a')
      → (q : ℕ) → x.translate t' q ≡ (if q == page then some frame else x.translate t q)
  pub takes :
      (t t' : x.Table) (page frame : ℕ) (flags : Flags) (a a' : BootInfoFrameAllocator)
      → x.map_to t page frame flags a ≡ (some t', a')
      → (front : List ℕ) × (free_frames a ≡ front ++ free_frames a')

-- The frame that a call of the allocator gives, before those that are left.
abbrev given_first : Option ℕ × BootInfoFrameAllocator → List ℕ
given_first (none, a) = []
given_first (some f, a) = f ∷ free_frames a

free_frames-first :
    (size used : ℕ) (recycled frames : List ℕ)
    → let a : BootInfoFrameAllocator = record {
      size = size;
      used = used;
      frames = frames;
      recycled = recycled;
    } in
      free_frames a ≡ given_first (allocate_frame a)
unfolding allocate_frame
free_frames-first size used [] [] = refl
free_frames-first size used [] (f ∷ frames) = refl
free_frames-first size used (f ∷ recycled) frames = refl

pub allocated :
    (a a1 : BootInfoFrameAllocator) (f : ℕ)
    → allocate_frame a ≡ (some f, a1)
    → free_frames a ≡ f ∷ free_frames a1
allocated a a1 f e = free_frames-first a.size a.used a.recycled a.frames ∙ ap given_first e

pub no_page : (first p : ℕ) → inside first 0 p ≢ true
no_page first p h = ground (arith, h)

pub no_success : false ≢ true
no_success e = ground arith

-- Bytes put inside one frame change no other frame.
pub put-off :
    (frame k count f o : ℕ) (source bytes : Bytes)
    → k + count ≤ 4096
    → f ≢ frame
    → o < 4096
    → put (frame * 4096 + k) count source bytes (f * 4096 + o) ≡ bytes (f * 4096 + o)
put-off frame k count f o source bytes within other small = ground (arith, within, other, small)

pub put-off_start :
    (frame count f o : ℕ) (source bytes : Bytes)
    → count ≤ 4096
    → f ≢ frame
    → o < 4096
    → put (frame * 4096) count source bytes (f * 4096 + o) ≡ bytes (f * 4096 + o)
put-off_start frame count f o source bytes within other small = ground (arith, within, other, small)

pub is_mapped : {f : ℕ} → some f ≢ none
is_mapped e = ground arith

pub only_page : (p q : ℕ) → inside q 1 p ≡ true → p ≡ q
only_page p q h = ground (arith, h)

pub same_frame : (f g : ℕ) (o : Option ℕ) → o ≡ some f → o ≡ some g → f ≡ g
same_frame f g o a b = ground (arith, a, b)

pub Apart-behind : (f : ℕ) (front back : List ℕ) → Apart f (front ++ back) → Apart f back
Apart-behind f [] back h = h
Apart-behind f (x ∷ front) back (_, h) = Apart-behind f front back h

pub Distinct-behind : (front back : List ℕ) → Distinct (front ++ back) → Distinct back
Distinct-behind [] back h = h
Distinct-behind (x ∷ front) back (_, h) = Distinct-behind front back h
