-- ===== src/Memory/Elf.antt =====
-- The loading of programs, `load_elf` and `load_segment` of pkg/elf/src/lib.rs. Physical memory is mapped
-- at an offset, so that a frame is written under the physical addresses of its bytes. `none` is a
-- panic of the kernel.
pub mod Contents
pub mod Copies
pub mod Filling
pub mod Joins
pub mod Pages
pub mod Segments
pub mod Tables
pub mod Zeros
use operating_system_experim.Prelude.{
  ℕ, zero, suc, ◌+◌, ◌-◌, ◌*◌, ◌/◌, ◌%◌, ◌^◌, Bool, true, false, not, ◌&&◌, Option, none, some,
  List, [], ◌∷◌, ltb, leb, ◌==◌, if◌then◌else◌, ◌>>=◌,
}
use operating_system_experim.Memory.Frames.{BootInfoFrameAllocator, allocate_frame}
use operating_system_experim.Memory.Stack.{Addresses, Bytes, sub64}

-- The flags of a page, which is always present.
pub record Flags : Type 0 where
  pub executable : Bool
  pub writable : Bool
  pub user : Bool

-- What the loader uses of the page table of the crate `x86_64`.
pub record PageTable : Type 1 where
  pub Table : Type 0
  pub map_to :
      Table → ℕ → ℕ → Flags → BootInfoFrameAllocator → Option Table × BootInfoFrameAllocator
  -- `translate_page`
  pub translate : Table → ℕ → Option ℕ

-- A program header of the crate `xmas_elf`.
pub record ProgramHeader : Type 0 where
  pub is_load : Bool
  pub virtual_addr : ℕ
  pub offset : ℕ
  pub file_size : ℕ
  pub mem_size : ℕ
  pub is_execute : Bool
  pub is_write : Bool

-- The table, the allocator and the bytes of physical memory.
pub record Load (x : PageTable) : Type 0 where
  pub table : x.Table
  pub alloc : BootInfoFrameAllocator
  pub bytes : Bytes

-- `count` bytes at the address become those of the source.
abbrev pub put : ℕ → ℕ → Bytes → Bytes → Bytes
put start count source bytes =
    λ a. if leb start a && ltb a (start + count) then source (a - start) else bytes a

-- The bytes of the file that go to the page of this index, of words of 64 bits.
abbrev pub bytes_to_copy : ℕ → ℕ → ℕ
bytes_to_copy file_size index =
    if ltb (sub64 file_size (index * 4096)) 4096 then sub64 file_size (index * 4096) else 4096

-- The bytes of the file, then zeros.
unfoldable pub fill_frame : Bytes → ProgramHeader → ℕ → ℕ → Bytes → Bytes
fill_frame input segment index frame bytes =
    let count = bytes_to_copy segment.file_size index in
    let copied = put (frame * 4096) count (λ i. input (segment.offset + index * 4096 + i)) bytes in
    if ltb count 4096 then put (frame * 4096 + count) (4096 - count) (λ i. 0) copied else copied

abbrev pub page_flags : ProgramHeader → Bool → Flags
page_flags segment user = record {
  executable = segment.is_execute;
  writable = segment.is_write;
  user = user;
}

abbrev pub align_up : ℕ → ℕ
align_up a = (a + 4095) / 4096 * 4096

module _ (x : PageTable) where
  -- The loop over the pages of the file's part, from the page of this index on.
  unfoldable pub file_pages : Bytes → ProgramHeader → Flags → ℕ → ℕ → ℕ → Load x → Bool × Load x
  unfolding allocate_frame fill_frame
  file_pages input segment flags index page zero s = (true, s)
  file_pages input segment flags index page (suc count) s =
      let (given, alloc1) = allocate_frame s.alloc in
      elim given [
        | none ↦ (false, record s { alloc = alloc1 })
        | some frame ↦
            let bytes' = fill_frame input segment index frame s.bytes in
            let (mapped, alloc2) = x.map_to s.table page frame flags alloc1 in
            elim mapped [
              | none ↦ (false, record { table = s.table; alloc = alloc2; bytes = bytes' })
              | some table' ↦
                  file_pages input segment flags (index + 1) (page + 1) count
                    (record { table = table'; alloc = alloc2; bytes = bytes' })
            ]
      ]

  -- The loop over the pages behind the file's part; a page that is mapped is left as it is.
  unfoldable pub bss_pages : Flags → ℕ → ℕ → Load x → Bool × Load x
  unfolding allocate_frame
  bss_pages flags page zero s = (true, s)
  bss_pages flags page (suc count) s = elim (x.translate s.table page) [
    | some _ ↦ bss_pages flags (page + 1) count s
    | none ↦
        let (given, alloc1) = allocate_frame s.alloc in
        elim given [
          | none ↦ (false, record s { alloc = alloc1 })
          | some frame ↦
              let (mapped, alloc2) = x.map_to s.table page frame flags alloc1 in
              elim mapped [
                | none ↦ (false, record s { alloc = alloc2 })
                | some table' ↦ bss_pages flags (page + 1) count (record {
                  table = table';
                  alloc = alloc2;
                  bytes = put (frame * 4096) 4096 (λ i. 0) s.bytes;
                })
              ]
        ]
  ]

  module _ (v : Addresses) (input : Bytes) (user : Bool) where
    unfoldable pub load_file : ProgramHeader → ℕ → Load x → Option (Bool × Load x)
    unfolding file_pages
    load_file segment start s = if segment.file_size == 0 then some (true, s) else (do
      end' ← v.new (start + segment.file_size)
      some (
          file_pages input segment (page_flags segment user) 0 (start / 4096)
            ((end' - 1) / 4096 + 1 - start / 4096) s))

    unfoldable pub load_bss : ProgramHeader → ℕ → Load x → Option (Bool × Load x)
    unfolding bss_pages
    load_bss segment start s =
        if leb segment.mem_size segment.file_size then some (true, s) else (do
          bss ← v.new (start + segment.file_size)
          first ← v.new (align_up bss)
          end' ← v.new (start + segment.mem_size)
          some (
              bss_pages (page_flags segment user) (first / 4096)
                ((end' - 1) / 4096 + 1 - first / 4096) s))

    -- The first and the last page of the segment and the bytes of its pages, or `none` for an error.
    unfoldable pub load_segment : ProgramHeader → Load x → Option (Option (ℕ × ℕ × ℕ) × Load x)
    unfolding load_file load_bss
    load_segment segment s = do
      start ← v.new segment.virtual_addr
      (filed, s1) ← load_file segment start s
      (zeroed, s2) ← (if filed then load_bss segment start s1 else some (false, s1))
      end' ← (if zeroed then v.new (start + segment.mem_size) else some 0)
      let last = (end' - 1) / 4096
      some
          (if zeroed then some (start / 4096, last, (last + 1 - start / 4096) * 4096) else none, s2)

    abbrev pub segments_with :
        ℕ × ℕ × ℕ → Option (List (ℕ × ℕ) × ℕ) × Load x → Option (List (ℕ × ℕ) × ℕ) × Load x
    segments_with (first, last, usage) (none, s) = (none, s)
    segments_with (first, last, usage) (some (ranges, total), s) =
        (some ((first, last) ∷ ranges, (usage + total) % 2 ^ 64), s)

    -- The loop over the program headers, the ranges of pages and the bytes in all.
    unfoldable pub load_elf :
        List ProgramHeader → Load x → Option (Option (List (ℕ × ℕ) × ℕ) × Load x)
    unfolding load_segment
    load_elf [] s = some (some ([], 0), s)
    load_elf (segment ∷ segments) s = elim (segment.is_load && not (segment.mem_size == 0)) [
      | false ↦ load_elf segments s
      | true ↦ elim (load_segment segment s) [
        | none ↦ none
        | some (loaded, s1) ↦ elim loaded [
          | none ↦ some (none, s1)
          | some piece ↦ do r ← load_elf segments s1; some (segments_with piece r)
        ]
      ]
    ]
