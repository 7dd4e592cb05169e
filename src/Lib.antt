-- ===== src/Lib.antt =====
-- Verification library of NostaluxOS, a small x86-64 operating system written in C. It models
-- parts of the kernel over the native natural numbers; a w-bit integer is a number below 2^w and
-- the wrap-around of its arithmetic is written out.
--
-- kernel/fs.c is in Fs. FILES is a list of 32 files, each with its name and its first `size`
-- bytes; the disk is two slots, each the bytes of a header sector and of a table. Fs.Names has the
-- names, Fs.Table the records with `fs_serialize` and the two readers, Fs.Bytes the bytes of
-- records and headers with the checksums, Fs.Load the choice of a slot in `fs_load_from_disk`,
-- Fs.Sync `fs_sync_to_disk_verified` with its read-backs, Fs.Files the operations by name with
-- `fs_commit_changes`, Fs.Recovery and Fs.Mount `fs_init`, the self test and the upgrade of legacy
-- snapshots. The driver kernel/ata.c is a parameter: Answers and Reader hold what its calls return
-- and what its writes leave, and IsHonest states its documented behaviour. Fs.Valid has the
-- invariant of FILES, Fs.Load.Snapshot what a committed slot is, Fs.Sync.Crash the disks that a
-- commit can leave when it is cut short, Fs.Load.Trust what the other header says of a mount,
-- Fs.Files.Spec the operations against a map from names to contents. The loop over the parts of a
-- file is given 32 steps, more than the 8 that a file of 8191 bytes takes; the others recur on the
-- files, the records or the sectors that are left.
--
-- kernel/scheduler.c is in Scheduler. The ring is the list of its tasks from `g_head` on, and a
-- pointer to a task is its number. Scheduler.Reap has `reap_dead_tasks`, Scheduler.Ring the
-- invariant, Scheduler.Numbers what spawning and termination do to it, Scheduler.Choice `schedule`
-- and the quantum, Scheduler.Outcomes what it is to do and Scheduler.Pick that it does it,
-- Scheduler.Steps runs of calls as a step relation. What the allocator and the page tables answer
-- is an argument of the spawning functions.
--
-- kernel/heap.c is in Heap. The chain of block headers is a list of blocks with their addresses;
-- `heap_init`, `kmalloc`, `kfree`, `heap_free_space` and `heap_used_space` keep their names.
-- Heap.Blocks has the invariant and the abstract view, the regions in use in the order of their
-- addresses. A loop over the chain is a recursion on the list.
--
-- kernel/elf64_loader.c and kernel/include/elf64_loader.h are in Elf. A buffer is the list of its
-- bytes, and an access outside of it is the outcome `fault`. Elf.Reader has the byte accesses,
-- Elf.Segments the tests of one load segment, Elf.Inspect `elf64_inspect` and Elf.Load
-- `elf64_load_contiguous`; Elf.Sound states what an accepted plan is. The loops recur on the
-- headers that are left and on the bytes that are left, so they need no fuel.
--
-- kernel/include/user_return.h is in UserReturn: the saved frame as a record, and what is done to
-- it before `IRETQ`. UserReturn.Checks has the proofs.
--
-- kernel/irq_registry.c is in Irq. A handler is a function of its own that may change the registry
-- while `irq_registry_dispatch` walks the line, so it is a parameter; Irq.Slots has the lemmas on
-- a line as a set, Irq.Changes registration and removal, Irq.Dispatch the walk. The walk recurs on
-- the slots that are left.
--
-- kernel/app_manifest.c is in Manifest: an array of characters is the list of all its characters,
-- and the registry is the list of its filled slots. Manifest.Strings has the texts that the arrays
-- hold, Manifest.Unique registration and Manifest.Found the lookups.
--
-- kernel/syslog.c is in Syslog: the ring of messages, with the bytes that go to the debug port.
-- Syslog.Messages has what one entry holds, Syslog.Ring the ring against the list of the last
-- messages, Syslog.Text the copy of the log into a buffer. The loops recur on the characters and
-- on the messages that are left.
--
-- kernel/bmp.c is in Bmp: as for the ELF loader, an access outside of the list of bytes is
-- `fault`. Bmp.Bounds has the reads, Bmp.Opened what an opened image promises. The encoder is not
-- modelled.
--
-- kernel/kstring.c is in KString, with KString.Order for the comparisons and KString.Parse for the
-- numbers; a C string is the list of its characters without the final zero.
--
-- kernel/vmmouse_decode.c is in Mouse.
--
-- kernel/memtest.c is in MemTest up to `memtest_detect_upper_limit`, which gives the heap its end:
-- MemTest.Points has the sorted endpoints of the firmware's ranges, MemTest.Covered one segment,
-- MemTest.Limit the loop over the segments, MemTest.Detected the result. The map in low memory is
-- a function from addresses to entries.
--
-- kernel/app_services.c is in Services as far as the input queue of a window, the handles and the
-- table of open files go; Services.Queued has what becomes of the queue when an event arrives,
-- Services.Queue its invariant and Services.Files the closing of a file.
--
-- Base has the shared names: Boolean tests, lists by native indices, 32- and 64-bit arithmetic and
-- the laws of the bit operations.
--
-- Not modelled: of the scheduler the stacks, the floating point state and the switch; paging, the
-- network stack with its clients, and the processes and the desktop on top of them; the boot
-- loader and the assembly entry points; device drivers, which move bytes between ports and memory;
-- the text of messages.
pub mod Base
pub mod Fs
pub mod Scheduler
pub mod Heap
pub mod Elf
pub mod UserReturn
pub mod Irq
pub mod Manifest
pub mod Syslog
pub mod Bmp
pub mod KString
pub mod Mouse
pub mod MemTest
pub mod Services
