-- ===== src/Storage/Bpb.antt =====
-- The BIOS parameter block, fs/fat16/bpb.rs of pkg/storage/src: the 512 bytes of the first sector.
use operating_system_experim.Prelude.{ℕ, List, ◌==◌, if◌then◌else◌, length, take, drop}
use operating_system_experim.Storage.Outcome.{
  Outcome, ok, err, panic, invalid_operation, u8_field, u16_field, u32_field,
}

abbrev pub oem_name : List ℕ → List ℕ
oem_name bytes = take 8 (drop 0x03 bytes)

abbrev pub bytes_per_sector : List ℕ → ℕ
bytes_per_sector bytes = u16_field bytes 0x0B

abbrev pub sectors_per_cluster : List ℕ → ℕ
sectors_per_cluster bytes = u8_field bytes 0x0D

abbrev pub reserved_sector_count : List ℕ → ℕ
reserved_sector_count bytes = u16_field bytes 0x0E

abbrev pub fat_count : List ℕ → ℕ
fat_count bytes = u8_field bytes 0x10

abbrev pub root_entries_count : List ℕ → ℕ
root_entries_count bytes = u16_field bytes 0x11

abbrev pub total_sectors_16 : List ℕ → ℕ
total_sectors_16 bytes = u16_field bytes 0x13

abbrev pub media_descriptor : List ℕ → ℕ
media_descriptor bytes = u8_field bytes 0x15

abbrev pub sectors_per_fat : List ℕ → ℕ
sectors_per_fat bytes = u16_field bytes 0x16

abbrev pub sectors_per_track : List ℕ → ℕ
sectors_per_track bytes = u16_field bytes 0x18

abbrev pub track_count : List ℕ → ℕ
track_count bytes = u16_field bytes 0x1A

abbrev pub hidden_sectors : List ℕ → ℕ
hidden_sectors bytes = u32_field bytes 0x1C

abbrev pub total_sectors_32 : List ℕ → ℕ
total_sectors_32 bytes = u32_field bytes 0x20

abbrev pub drive_number : List ℕ → ℕ
drive_number bytes = u8_field bytes 0x24

abbrev pub reserved_flags : List ℕ → ℕ
reserved_flags bytes = u8_field bytes 0x25

abbrev pub boot_signature : List ℕ → ℕ
boot_signature bytes = u8_field bytes 0x26

abbrev pub volume_id : List ℕ → ℕ
volume_id bytes = u32_field bytes 0x27

abbrev pub volume_label : List ℕ → List ℕ
volume_label bytes = take 11 (drop 0x2B bytes)

abbrev pub system_identifier : List ℕ → List ℕ
system_identifier bytes = take 8 (drop 0x36 bytes)

abbrev pub trail : List ℕ → ℕ
trail bytes = u16_field bytes 0x1FE

-- The conversion to an array panics on another length.
unfoldable pub new_bpb : List ℕ → Outcome (List ℕ)
new_bpb bytes =
    if length bytes == 512
    then (if trail bytes == 0xAA55 then ok bytes else err invalid_operation)
    else panic

abbrev pub total_sectors : List ℕ → ℕ
total_sectors bytes =
    if total_sectors_16 bytes == 0 then total_sectors_32 bytes else total_sectors_16 bytes
