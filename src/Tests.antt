-- ===== src/Tests.antt =====
-- Runs of the model at concrete inputs, at which the hypotheses of its theorems hold.
mod Drivers
mod Elf
mod Memory
mod Proc
mod Storage
mod Syscall
mod User
