-- ===== src/Storage/Mbr/Entry.antt =====
-- A partition entry, partition/mbr/entry.rs of pkg/storage/src: `MbrPartition` is its 16 bytes.
use operating_system_experim.Prelude.{ℕ, ◌+◌, ◌*◌, ◌/◌, ◌%◌, Bool, List, ◌==◌}
use operating_system_experim.Storage.Outcome.{u8_field, u32_field}

abbrev pub status : List ℕ → ℕ
status bytes = u8_field bytes 0x00

abbrev pub begin_head : List ℕ → ℕ
begin_head bytes = u8_field bytes 0x01

abbrev pub partition_type : List ℕ → ℕ
partition_type bytes = u8_field bytes 0x04

abbrev pub end_head : List ℕ → ℕ
end_head bytes = u8_field bytes 0x05

abbrev pub begin_lba : List ℕ → ℕ
begin_lba bytes = u32_field bytes 0x08

abbrev pub total_lba : List ℕ → ℕ
total_lba bytes = u32_field bytes 0x0C

-- `& 0x3f`
abbrev pub begin_sector : List ℕ → ℕ
begin_sector bytes = u8_field bytes 0x02 % 64

-- The two high bits of one byte, shifted left by two, and the other byte below them.
abbrev pub begin_cylinder : List ℕ → ℕ
begin_cylinder bytes = u8_field bytes 0x02 / 64 * 256 + u8_field bytes 0x03

abbrev pub end_sector : List ℕ → ℕ
end_sector bytes = u8_field bytes 0x06 % 64

abbrev pub end_cylinder : List ℕ → ℕ
end_cylinder bytes = u8_field bytes 0x06 / 64 * 256 + u8_field bytes 0x07

abbrev pub is_active : List ℕ → Bool
is_active bytes = status bytes == 0x80
