-- ===== src/Memory/Frames.antt =====
-- The allocator of physical frames, pkg/kernel/src/memory/frames.rs. A frame is its number, its
-- address divided by 4096.
pub mod Ownership
use operating_system_experim.Prelude.{
  ℕ, zero, suc, ◌+◌, ◌*◌, ◌/◌, Bool, Option, none, some, List, [], ◌∷◌, ◌++◌, if◌then◌else◌,
}

pub record BootInfoFrameAllocator : Type 0 where
  pub size : ℕ
  pub used : ℕ
  pub frames : List ℕ
  pub recycled : List ℕ

-- A region of the boot loader's memory map; `conventional` where its type is CONVENTIONAL.
pub record MemoryRegion : Type 0 where
  pub phys_start : ℕ
  pub page_count : ℕ
  pub conventional : Bool

-- The frames of a region from page `v` on.
unfoldable pub region_frames : ℕ → ℕ → ℕ → List ℕ
region_frames zero v start = []
region_frames (suc count) v start = (v * 4096 + start) / 4096 ∷ region_frames count (v + 1) start

unfoldable pub create_frame_iter : List MemoryRegion → List ℕ
unfolding region_frames
create_frame_iter [] = []
create_frame_iter (r ∷ rs) =
    let rest = create_frame_iter rs in
    if r.conventional then region_frames r.page_count 0 r.phys_start ++ rest else rest

unfoldable pub init : List MemoryRegion → ℕ → BootInfoFrameAllocator
unfolding create_frame_iter
init memory_map size = record {
  size = size;
  used = 0;
  frames = create_frame_iter memory_map;
  recycled = [];
}

-- `recycled` is a stack: its head here is the end of the `Vec`. `used` is a `usize` that counts the
-- frames taken from the memory map, at most as many as the map has.
abbrev pub next_frame : BootInfoFrameAllocator → List ℕ → Option ℕ × BootInfoFrameAllocator
next_frame a [] = (none, a)
next_frame a (frame ∷ rest) = (some frame, record a { used = a.used + 1; frames = rest })

unfoldable pub allocate_frame : BootInfoFrameAllocator → Option ℕ × BootInfoFrameAllocator
allocate_frame a = elim a.recycled [
  | [] ↦ next_frame a a.frames
  | frame ∷ rest ↦ (some frame, record a { recycled = rest })
]

unfoldable pub deallocate_frame : BootInfoFrameAllocator → ℕ → BootInfoFrameAllocator
deallocate_frame a frame = record a { recycled = frame ∷ a.recycled }
