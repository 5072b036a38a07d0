-- ===== src/Memory/Elf/Filling.antt =====
-- The bytes of a frame that `load_segment` fills, pkg/elf/src/lib.rs.
use operating_system_experim.Prelude.{
  ℕ, ◌+◌, ◌-◌, ◌*◌, ◌^◌, ◌≤◌, ◌<◌, min, ◌≡◌, sym, ap, ◌∙◌, ◌≢◌, inl, inr, arith, ltb, if◌then◌else◌,
  ltb→lt, ltb→ge, Bool-cases,
}
use operating_system_experim.Memory.Stack.{Bytes}
use operating_system_experim.Memory.Elf.{ProgramHeader, put, bytes_to_copy, fill_frame}
use operating_system_experim.Memory.Elf.Tables.{put-off, put-off_start}

-- The bytes that the page of this index is to hold.
abbrev pub page_bytes : Bytes → ProgramHeader → ℕ → Bytes
page_bytes input segment index = λ o.
    if ltb (index * 4096 + o) segment.file_size
    then input (segment.offset + index * 4096 + o)
    else 0

put-at :
    (start count o : ℕ) (source bytes : Bytes)
    → o < count
    → put start count source bytes (start + o) ≡ source o
put-at start count o source bytes h =
    let at : start + o - start ≡ o = omega arith in ground (arith, h, ap source at)

put-past :
    (start count o : ℕ) (source bytes : Bytes)
    → count ≤ o
    → put start count source bytes (start + o) ≡ bytes (start + o)
put-past start count o source bytes h = ground (arith, h)

put-before :
    (start count a : ℕ) (source bytes : Bytes)
    → a < start
    → put start count source bytes a ≡ bytes a
put-before start count a source bytes h = ground (arith, h)

copy_count :
    (file_size index : ℕ)
    → index * 4096 < file_size
    → file_size < 2 ^ 64
    → bytes_to_copy file_size index ≡ min 4096 (file_size - index * 4096)
copy_count file_size index h w = ground (arith, h, w)

-- A frame with `count` bytes of the source and zeros behind them.
abbrev filled : ℕ → ℕ → Bytes → Bytes → Bytes
filled frame count source bytes =
    let copied = put (frame * 4096) count source bytes in
    if ltb count 4096 then put (frame * 4096 + count) (4096 - count) (λ i. 0) copied else copied

filled-in :
    (frame count o : ℕ) (source bytes : Bytes)
    → count ≤ 4096
    → o < 4096
    → filled frame count source bytes (frame * 4096 + o) ≡ (if ltb o count then source o else 0)
filled-in frame count o source bytes within small =
    let copied = put (frame * 4096) count source bytes in
    elim (Bool-cases (ltb o count)) [
      | inl file ↦
          let inner = put-at (frame * 4096) count o source bytes (ltb→lt o count file) in
          ground (
            arith,
            file,
            inner,
            put-before (frame * 4096 + count) (4096 - count) (frame * 4096 + o) (λ i. 0) copied
                (omega (arith, ltb→lt o count file)),
          )
      | inr behind ↦
          let le = ltb→ge o count behind in
          let at : frame * 4096 + count + (o - count) ≡ frame * 4096 + o = omega (arith, le) in
          let zeros =
            put-at (frame * 4096 + count) (4096 - count) (o - count) (λ i. 0) copied
              (omega (arith, le, small)) in
          ground (
            arith,
            behind,
            small,
            le,
            sym (ap (put (frame * 4096 + count) (4096 - count) (λ i. 0) copied) at) ∙ zeros,
          )
    ]

filled-off :
    (frame count f o : ℕ) (source bytes : Bytes)
    → count ≤ 4096
    → f ≢ frame
    → o < 4096
    → filled frame count source bytes (f * 4096 + o) ≡ bytes (f * 4096 + o)
filled-off frame count f o source bytes within other small =
    let copied = put (frame * 4096) count source bytes in
    let inner : copied (f * 4096 + o) ≡ bytes (f * 4096 + o) =
      put-off_start frame count f o source bytes within other small in
    let outer =
      put-off frame count (4096 - count) f o (λ i. 0) copied (omega (arith, within)) other small in
    elim (Bool-cases (ltb count 4096)) [
      | inl part ↦ rw (part, filled) (outer ∙ inner)
      | inr whole ↦ rw (whole, filled) inner
    ]

counted :
    (file_size index o count : ℕ)
    → count ≡ min 4096 (file_size - index * 4096)
    → o < 4096
    → ltb o count ≡ ltb (index * 4096 + o) file_size
counted file_size index o count e small = ground (arith, e, small)

module _ (input : Bytes) (segment : ProgramHeader) where
  pub fill_frame-in :
      (index frame o : ℕ) (bytes : Bytes)
      → index * 4096 < segment.file_size
      → segment.file_size < 2 ^ 64
      → o < 4096
      → fill_frame input segment index frame bytes (frame * 4096 + o)
        ≡ page_bytes input segment index o
  unfolding fill_frame
  fill_frame-in index frame o bytes h w small =
      let source : Bytes = λ i. input (segment.offset + index * 4096 + i) in
      let exact = copy_count segment.file_size index h w in
      filled-in frame (bytes_to_copy segment.file_size index) o source bytes (omega (arith, exact))
        small
      ∙ ap (λ b. if b then source o else 0)
          (counted segment.file_size index o (bytes_to_copy segment.file_size index) exact small)

  pub fill_frame-off :
      (index frame f o : ℕ) (bytes : Bytes)
      → index * 4096 < segment.file_size
      → segment.file_size < 2 ^ 64
      → f ≢ frame
      → o < 4096
      → fill_frame input segment index frame bytes (f * 4096 + o) ≡ bytes (f * 4096 + o)
  unfolding fill_frame
  fill_frame-off index frame f o bytes h w other small =
      let source : Bytes = λ i. input (segment.offset + index * 4096 + i) in
      let exact = copy_count segment.file_size index h w in
      filled-off frame (bytes_to_copy segment.file_size index) f o source bytes
        (omega (arith, exact)) other small
