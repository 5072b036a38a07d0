-- ===== src/Memory.antt =====
-- The memory of the kernel and of processes: pkg/kernel/src/memory and pkg/kernel/src/proc/vm.
pub mod Frames
pub mod Heap
pub mod Stack
pub mod Elf
pub mod Vm
