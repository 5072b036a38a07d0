-- ===== src/Storage.antt =====
-- The crate pkg/storage: block devices, the partition table and the FAT16 file system.
pub mod Outcome
pub mod Device
pub mod Mbr
pub mod Bpb
pub mod ShortName
pub mod DirEntry
pub mod Fat
pub mod File
pub mod FileSystem
