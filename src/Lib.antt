-- ===== src/Lib.antt =====
-- The kernel (kernel/), and what belongs to it of user/ and fat439/: models of the components in a
-- shallow embedding, and theorems about them.
--
-- Each operation of the source is a function over the state that it changes. A 32-bit word is a
-- natural number, and an operation that can wrap takes the remainder by 2 ^ 32. A pointer is an
-- address, with 0 for nullptr. What stops the kernel is a value: `panic` for `Debug::panic`, `fault`
-- for an access through nullptr or to a deleted object; in Heap and Vmm, `none` for either.
--
-- The parts, from the bottom up:
--   * Base: tests, lists indexed by native numbers, stores, membership, words.
--   * Mmu (kernel/mmu.cc, kernel/mmu.h): segment and gate descriptors; `mms` and `mme` write and read
--     a field of a word, and every other setter and getter is made of them.
--   * Block (kernel/block.cc, kernel/block.h): `read`, `write`, `readFully` and `writeFully`. The
--     virtual `readBlock` and `writeBlock` are fields of an interface (Block.Interface), with the
--     laws that a device follows.
--   * Ide (kernel/ide.cc): the device of the kernel, a drive behind ports. The controller is a
--     parameter, and Ide.Read states what is relied on of it (IsController), of an idle drive only.
--   * Fat (kernel/fs.cc, kernel/fs.h): the table of blocks of the file system. It is chains of
--     block numbers, one per file and one of the free blocks.
--   * Files (kernel/fs.cc, kernel/fs.h): `OpenFile` and `File`, over the chains of Fat and the reads of
--     Block; the bytes of a file are an array (Files.Contents). Files.Update has what changes a file,
--     and Files.Shared the table of open files with its counts.
--   * Directory (kernel/fs.cc): `Fat439Directory`, the search for a name among the entries of a file;
--     Directory.Update has `mkdir`, `remove` and the steps to other files, over Files.Update and Fat.
--   * Queue (kernel/queue.h): `SimpleQueue`, doubly linked nodes, against lists.
--   * Process (kernel/process.cc, kernel/process.h): `disable` and `enable`, `startIrq` and
--     `endIrq`, `makeReady`, `yield`, `dispatch`. A queue of processes is the list of its
--     members, which Queue justifies. A function that switches to another process ends at the
--     switch, and what follows is a function of its own; if no other process is ready to be switched
--     to, the caller runs on. Process.Turns says who runs after `yield` from any state.
--   * Lifecycle (kernel/process.cc): `start`, `kill`, `exit` and `checkReaper`, over Process, Table and
--     the event of the process.
--   * Timers (kernel/pit.cc and the class Timer, `sleepUntil` and `tick` of kernel/process.cc): the tick
--     count, and the processes that sleep until a later tick.
--   * Pic (kernel/pic.cc): the writes to the interrupt controllers, and the handling of an interrupt from
--     its mark to the switch, over Process and Timers.
--   * Libk (kernel/libk.cc): `strlen`, `contains`, `strdup`, `isdigit`.
--   * Semaphore (kernel/semaphore.cc, kernel/semaphore.h): `down` and `up` over the operations of
--     Process; `Mutex` and `Event` over those.
--   * BoundedBuffer (kernel/bb.h): `put` and `get` over three semaphores.
--   * Heap (kernel/heap.cc): the allocator. The array of ints is a function, and its shape a list of
--     blocks, taken or available, that cover it (Heap.Blocks), with a doubly linked list of the
--     available ones (Heap.Links). The array is shorter than 2 ^ 31 ints, so no index wraps.
--   * UserHeap (user/heap.c): the allocator of the user programs, which is that of Heap without its
--     panics; UserHeap.Agree compares the two, operation by operation.
--   * Mkfs (fat439/mkfs.c): the tool that builds an image: the table, and the copying of a file into
--     the blocks. Mkfs.KernelReads puts it together with Fat, Files, Directory
--     and Block.
--   * Vmm (kernel/vmm.cc): physical frames and page tables. The memory is a word for each address. A
--     space is in order (Vmm.Space) if its tables are different frames, none of them free.
--   * Keyboard (kernel/kbd.cc): scan codes to characters, with the state of the shift keys.
--   * Random (kernel/random.h): the generator `Random32`.
--   * Syscall (kernel/syscall.cc): the calls on semaphores, processes and files, over Table, Semaphore,
--     Lifecycle and Files, whose states it puts together.
--   * Resource, Table (kernel/resource.h, kernel/table.cc, kernel/table.h): objects with a reference
--     count, and the table of a process, whose slots refer to them.
--
-- Bounds and fuel. The loops of `read_fully`, `write_fully`, `file_read_fully` and
-- `open_read_fully` run on the fuel n + 1 for n bytes: each turn moves at least one byte.
-- `copy` of Mkfs has its fuel as an argument, one more than the bytes of the file is enough.
-- `write_rest` and `write_turns` of Files.Update run on n + 1 for n bytes in the same way.
-- The loops of Ide have their fuel as an argument; the patience of the controller is enough.
-- `first_fit` runs on one more than the length of the array: each turn reads another block of the
-- list. `chain_end` runs on the number of blocks of the table: a chain without a cycle is no longer.
-- `reap_loop` runs on one more than the number of processes in the queue. `map_kernel` runs on
-- 2 ^ 20, the number of frames that an address can name. The loops of Libk have their fuel as an
-- argument, and a string that is shorter than it is read to its end.
-- Every other loop is a recursion on its own bound.
--
-- Not modelled: forkMe of the files; execv of kernel/process.cc; of
-- kernel/syscall.cc fork, execv and the calls on directories; the serial port, which is port input and
-- output; assembly; kernel/snprintf.cc, a copy of another project; the user programs but for their
-- allocator.
pub mod Base
pub mod Mmu
pub mod Fat
pub mod Block
pub mod Queue
pub mod Process
pub mod Semaphore
pub mod BoundedBuffer
pub mod Random
pub mod Resource
pub mod Table
pub mod Lifecycle
pub mod Heap
pub mod UserHeap
pub mod Mkfs
pub mod Keyboard
pub mod Vmm
pub mod Timers
pub mod Pic
pub mod Libk
pub mod Files
pub mod Directory
pub mod Syscall
pub mod Ide
