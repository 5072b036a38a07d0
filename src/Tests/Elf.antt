-- ===== src/Tests/Elf.antt =====
-- A program of one segment: five bytes of a file, in a memory of one page and a byte.
use operating_system_experim.Prelude.{
  ℕ, ◌-◌, ◌%◌, ◌≡◌, refl, sym, ap, ◌≢◌, true, false, Option, none, some, [], ◌∷◌, arith, ◌==◌,
  if◌then◌else◌,
}
use operating_system_experim.Memory.Stack.{Bytes}
use operating_system_experim.Memory.Elf.{PageTable, ProgramHeader, Load, load_segment}
use operating_system_experim.Memory.Elf.Tables.{IsTable, free_frames}
use operating_system_experim.Memory.Elf.Pages.{Sound, Loaded}
use operating_system_experim.Memory.Elf.Filling.{page_bytes}
use operating_system_experim.Memory.Elf.Segments.{IsSegment}
use operating_system_experim.Memory.Elf.Contents.{load_segment-Loaded}
use operating_system_experim.Tests.Memory.{three, addresses, addresses-IsCanonical}

-- A table that is the map of its pages to their frames.
abbrev frame_table : PageTable
frame_table = record {
  Table = ℕ → Option ℕ;
  map_to = λ t page frame flags a. (some (λ p. if p == page then some frame else t p), a);
  translate = λ t p. t p;
}

frame_table-IsTable : IsTable frame_table
frame_table-IsTable = record {
  maps =
      λ t t' page frame flags a a' e q. ap (λ r. elim r.0 [ none ↦ none | some u ↦ u q ]) (sym e);
  takes = λ t t' page frame flags a a' e. ([], ap (λ r. free_frames r.1) e);
}

abbrev code : ProgramHeader
code = record {
  is_load = true;
  virtual_addr = 0x40_0000;
  offset = 64;
  file_size = 5;
  mem_size = 4097;
  is_execute = true;
  is_write = false;
}

code-IsSegment : IsSegment code
code-IsSegment = record {
  aligned = refl;
  room = omega arith;
  nonempty = omega arith;
  user = omega arith;
}

abbrev image : Bytes
image a = a % 256

abbrev before : Load frame_table
before = record { table = λ p. none; alloc = three (4 ∷ 5 ∷ 6 ∷ []) 0; bytes = λ a. 7 }

before-Sound : Sound before
before-Sound = record {
  distinct = ((omega arith, (omega arith, tt)), ((omega arith, tt), (tt, tt)));
  taken = λ p f e. absurd (ground (arith, e));
}

load_segment-Loaded_example :
    (r : Option (ℕ × ℕ × ℕ) × Load frame_table) × (load_segment frame_table addresses image true
        code before
      ≡ some r)
    × (r.0 ≢ none
        → (r.0 ≡ some (0x400, 0x401, 8192))
          × Loaded 0x400 2 (λ p. page_bytes image code (p - 0x400)) before r.1)
load_segment-Loaded_example =
    load_segment-Loaded frame_table addresses frame_table-IsTable addresses-IsCanonical image true
      code before code-IsSegment before-Sound (λ p within. refl)
