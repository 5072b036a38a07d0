-- ===== src/Proc.antt =====
-- The kernel's processes: pkg/kernel/src/proc and pkg/kernel/src/utils/resource.rs.
pub mod Sync
pub mod Resources
pub mod World
pub mod Manager
pub mod Calls
pub mod Lines
