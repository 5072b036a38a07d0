-- ===== src/Memory/Elf/Segments.antt =====
-- The pages of a segment of a program, and the bytes that each is to hold: `load_segment` of
-- pkg/elf/src/lib.rs.
use operating_system_experim.Prelude.{ℕ, ◌+◌, ◌-◌, ◌/◌, ◌%◌, ◌^◌, ◌≤◌, ◌<◌, ◌≡◌, true, arith}
use operating_system_experim.Memory.Heap.Pages.{inside}
use operating_system_experim.Memory.Stack.{Bytes}
use operating_system_experim.Memory.Elf.{ProgramHeader, align_up}
use operating_system_experim.Memory.Elf.Filling.{page_bytes}

-- A segment of user space that starts with a page, and has room for its part of the file.
pub record IsSegment (segment : ProgramHeader) : Type 0 where
  pub aligned : segment.virtual_addr % 4096 ≡ 0
  pub room : segment.file_size ≤ segment.mem_size
  pub nonempty : 0 < segment.mem_size
  pub user : segment.virtual_addr + segment.mem_size ≤ 2 ^ 47 - 4096

-- The number of the segment's first page, and how many pages its file's part and all of it take.
abbrev pub first_page : ProgramHeader → ℕ
first_page segment = segment.virtual_addr / 4096

abbrev pub file_count : ProgramHeader → ℕ
file_count segment = (segment.file_size + 4095) / 4096

abbrev pub page_count : ProgramHeader → ℕ
page_count segment = (segment.mem_size + 4095) / 4096

pub pages_of_file :
    (a n : ℕ) → a % 4096 ≡ 0 → 0 < n → (a + n - 1) / 4096 + 1 - a / 4096 ≡ (n + 4095) / 4096
pages_of_file a n h p = omega (arith, h, p)

pub first_of_bss : (a n : ℕ) → a % 4096 ≡ 0 → align_up (a + n) / 4096 ≡ a / 4096 + (n + 4095) / 4096
first_of_bss a n h = omega (arith, h)

pub pages_of_bss :
    (a n k : ℕ)
    → a % 4096 ≡ 0
    → n < k
    → (a + k - 1) / 4096 + 1 - (a / 4096 + (n + 4095) / 4096)
      ≡ (k + 4095) / 4096 - (n + 4095) / 4096
pages_of_bss a n k h l = omega (arith, h, l)

pub last_page :
    (a n : ℕ) → a % 4096 ≡ 0 → 0 < n → (a + n - 1) / 4096 ≡ a / 4096 + (n + 4095) / 4096 - 1
last_page a n h p = omega (arith, h, p)

pub zero_behind :
    (input : Bytes) (segment : ProgramHeader) (p o : ℕ)
    → inside (first_page segment + file_count segment) (page_count segment - file_count segment) p
      ≡ true
    → 0 ≡ page_bytes input segment (p - first_page segment) o
zero_behind input segment p o within = ground (arith, within)
