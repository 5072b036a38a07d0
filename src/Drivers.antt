-- ===== src/Drivers.antt =====
-- The drivers of pkg/kernel/src/drivers, over the ports of the machine.
pub mod Ata
