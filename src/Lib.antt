-- ===== src/Lib.antt =====
-- A model of the operating system's process manager (pkg/kernel/src/proc, with
-- pkg/kernel/src/utils/resource.rs and the keyboard of pkg/kernel/src/drivers/input.rs), of its
-- frames, heaps, stacks and programs, of its system calls, and of its storage crate
-- (pkg/storage/src), with the theorems that hold of it.
--
-- Processes. Proc.World has the state: a table of processes by pid, the ready queue, those that
-- wait for an exit, the counter of pids, the one processor, and the semaphores and resources that
-- processes share, which are known by the number of the object. Proc.Manager has the operations
-- of manager.rs with the parts of process.rs that they call, Proc.Calls the functions of mod.rs
-- that the system calls reach; each takes the registers of its caller and answers those with
-- which the processor goes on. `none` is a panic. Calls run with interrupts off on one processor,
-- so each is one step, and the locks inside it are left out. A process stays in the table when it
-- has ended, so an upgraded `Weak` is an entry of the table while the 16-bit counter of pids has
-- not gone round. Proc.Sync is sync.rs, Proc.Resources is utils/resource.rs, and Proc.Lines the
-- line editor of pkg/kernel/src/drivers/input.rs, on the keys in the order in which they are
-- typed. The record Machine of Proc.World stands for the address spaces (pkg/kernel/src/proc/vm),
-- programs and files, which Proc uses through their interface only.
--
-- Storage. Storage.Outcome has the results of common/error.rs, with a panic and a loop that has
-- not ended within its fuel as outcomes of their own. Storage.Device is common/device.rs,
-- common/block.rs and partition/mod.rs; Storage.Mbr is partition/mbr; Storage.Bpb,
-- Storage.ShortName, Storage.DirEntry, Storage.Fat, Storage.File and Storage.FileSystem are
-- fs/fat16 with the operations on paths, common/io.rs and common/mount.rs. A block is the list of
-- its bytes, and a volume reads its device by a function, since nothing of fs/fat16 writes. The
-- record Text of Storage.ShortName stands for upper case in Unicode, the test for UTF-8,
-- `trim_end` and the crate chrono.
--
-- System calls. Syscall has the numbers of pkg/syscall/src/lib.rs and what the services use of
-- the rest of the kernel (the record Services: user memory, the allocator of the user heap, the
-- root file system); Syscall.Service is pkg/kernel/src/interrupt/syscall/service.rs on top of
-- Proc.Calls, with the tests of user pointers of pkg/kernel/src/memory/address.rs,
-- Syscall.Dispatcher is the dispatcher of mod.rs beside it, and Syscall.User the other side: the
-- registers that pkg/syscall/src/macros.rs and pkg/lib/src/syscall.rs set, and what they read
-- from rax. The timer's handler (pkg/kernel/src/interrupt/clock.rs) is `clock` of Proc.Calls.
--
-- Memory. Memory.Frames is the allocator of pkg/kernel/src/memory/frames.rs, and Memory.Heap the
-- heap of pkg/kernel/src/proc/vm/heap.rs with map_range and unmap_range of pkg/elf/src/lib.rs.
-- The record Mapper stands for the page table of the crate x86_64, whose laws are IsLawful of
-- Memory.Heap.Pages. Memory.Stack is pkg/kernel/src/proc/vm/stack.rs with map_pages of
-- pkg/elf/src/lib.rs, and Memory.Elf load_elf and load_segment of pkg/elf/src/lib.rs. Memory.Vm
-- is ProcessVm of pkg/kernel/src/proc/vm/mod.rs, whose record Shared has what a process shares
-- with its forks. The record Addresses has the partial operations of virtual addresses, and
-- PageTable the page table with flags and frames.
--
-- Drivers. Drivers.Ata is pkg/kernel/src/drivers/ata/bus.rs over the ports of the machine (the
-- record Ports), and Drivers.Ata.Drive mod.rs beside it. Drivers.Ata.Disk states what the ATA
-- standard documents of the device behind the ports, as the laws Shows, which the theorems take
-- as a hypothesis.
--
-- Programs of users. User.Shell is the loop of pkg/app/sh/src/main.rs from the keys that are
-- typed to the calls that the lines lead to, on top of its line editor (User.Editor) and
-- normalize_path (User.Paths), and User.Shell.Console puts it on the keys that User.Stdin reads;
-- User.Fish is pkg/app/fish/src/main.rs, three processes that take steps in any order over the
-- semaphores of Proc.Sync. User.SpinLock is the lock of pkg/lib/src/sync.rs, with processes that
-- take its atomic steps in any order, and User.Stdin and User.Stdout are the console of
-- pkg/lib/src/io.rs.
--
-- Fuel. The polls of the driver take fuel for one read of the status each, of which one more than
-- the device is busy for are enough; the shell takes fuel for a line each, of which one more than
-- the keys are enough. Loops along a chain of clusters take fuel, since a chain on the disk can
-- be a circle: one more than the links of the chain is enough for a directory. The loop of `read`
-- is given as many rounds as bytes are wanted, each of which copies a byte or more; `read_all` is
-- given more than the bytes left. The line editors of the kernel and of the user library take
-- fuel for one round each, of which one more than the characters and the keys that delete are
-- enough. The search of `vfork` for a free stack takes fuel for one slot each, of which 2 ^ 16
-- and one more are enough. Sizes of machine words are written out where the code can wrap:
-- counters of pids, permits, ticks and descriptors.
--
-- Not modelled: hardware (interrupt controllers, the serial port, descriptor tables) and the boot
-- loader, which are accesses to registers and calls of the firmware; the mapping of the kernel
-- itself, which is done once before any process runs; the calls that the one mount at the root
-- passes on to its volume with the path trimmed; the kernel's own heap, which is a library; the
-- other user programs, which show the same calls; and what only prints or writes to the log.
--
-- Prelude has the lists, maps and Boolean tests that all parts share, and Tests the runs at
-- concrete inputs.
pub mod Drivers
pub mod Memory
pub mod Prelude
pub mod Proc
pub mod Storage
pub mod Syscall
pub mod Tests
pub mod User
