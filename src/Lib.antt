-- ===== src/Lib.antt =====
-- GenOS: a verification library for the parts of the kernel and of the shell that decide by state
-- and rules, without hardware: who holds which authority, who owns which frame, which message,
-- buffer or slot comes next, and what the user's line looks like.
--
-- The parts and their files (each also has child modules with its theorems, named for what they
-- prove, and a Tests module with concrete runs):
--   Capability   kernel/src/capability.rs: `HandleTable`, the one registry of a process in which a
--                handle must stand to be usable. The array of `N` slots is a list of options.
--   Ipc          kernel/src/ipc.rs: `ChannelQueue`, the ring of waiting messages of an endpoint.
--   Endpoint     kernel/src/endpoint.rs: `EndpointState`, the send and receive capabilities of a
--                process, which stand in its own table and, by number, in the registry of
--                Capability; the published endpoint holds a queue of Ipc. A method that takes
--                `&mut HandleTable` takes and returns the registry.
--   FrameGrant   kernel/src/frame_grant.rs: `Ledger`, the grants of physical frames to page tables
--                and processes.
--   BootMemory   crates/abi/src/boot_memory.rs: the decoding of the firmware's memory map and the checks
--                of what the boot loader hands over.
--   Physmem      kernel/src/physmem.rs: `FrameAllocator`, the bitmap of the managed frames over the
--                regions of the map.
--   Memory       kernel/src/memory.rs: `MemoryState`, the composition of BootMemory, Physmem and
--                FrameGrant: each closure that the ledger calls is a call of the bitmap.
--   FixedText    kernel/src/console_text.rs: `FixedText`, text of at most 160 bytes.
--   PathPolicy   kernel/src/path_policy.rs: which strings are paths, and the path of a child.
--   Vfs          kernel/src/vfs.rs: `RamVfs`, the file system in memory, over PathPolicy.
--   SerialKeys   kernel/src/serial_keys.rs: `SerialKeys`, the keys that the bytes of the terminal give.
--   Request      kernel/src/request.rs: `RequestSequence`, the ids of asynchronous requests.
--   Scheduler    kernel/src/scheduler.rs: `RoundRobin` and `Scan`, the order of process slots.
--   TickClock    kernel/src/tick_clock.rs: `Clock`, ticks from polling, then from the timer.
--   TxQueue      kernel/src/tx_queue.rs: `TxQueue`, the ownership of the transmit buffer.
--   RxQueue      kernel/src/rx_queue.rs: `RxBatch`, the admission of received buffers.
--   Tasks        kernel/src/tasks.rs: `TaskRegistry`, the states of the tasks and the processor's
--                turns among the workers.
--   Editor       userspace/shell/src/editor.rs: `Editor`, the shell's line and its history.
--   Parser       userspace/shell/src/parser.rs: `parse`, the command that a line names.
--   Common       what these share: Boolean tests, machine words, lists as arrays, bit laws.
--
-- How the models correspond to the code. A method on `&mut self` is a function that returns its
-- answer and the new state. Names are those of the source. Numbers are natural numbers; where the
-- source wraps, saturates or checks (`wrapping_add`, `saturating_add`, `checked_add`) the model
-- writes that out at the width of the word (the plain `+= 1` counters of the task registry are
-- numbers without a bound), and where it indexes an array the theorems' invariants keep the index
-- in range. A `const` parameter is an argument. A failed `assert!` of the frame
-- ledger, and what halts the machine in Memory, is an outcome of its own. A string is the list of its
-- bytes, a bitmap the list of its bits. Of an array with a count of entries in use (regions, nodes)
-- the model keeps those.
--
-- Bounds and fuel. Loops run over lists, or over the number of slots that are left: the loops over
-- a scan use its `remaining` field, the number of answers that it gives. The search of the bitmap and
-- the loop of `require_retained` run on fuel, the words of the bitmap and the bytes of the range: each
-- round of the one leaves a word behind, each round of the other a byte. The decimal digits of
-- `push_u64` have the room of its buffer.
--
-- Parameters. In FrameGrant the physical allocator that `Ledger::allocate` calls, and the preparation of memory
-- that `Ledger::release` calls, are closures in the source and arguments here, on an arbitrary
-- state that is handed through; nothing is assumed of them. Memory gives them the bitmap. The check
-- of UTF-8 (`str::from_utf8`) and the size of `BootInfo` are arguments in BootMemory.
--
-- Not modelled: the machine interface (paging, interrupts, devices), the coordinator of processes
-- and system calls, the network protocols and the display; the
-- text rows of the task registry and of the allocator's report; the contents of frames and their
-- erasing; the snapshots and the storage format of the filesystem; and the parsers of images and input.
pub mod Common
pub mod Capability
pub mod Ipc
pub mod Endpoint
pub mod FrameGrant
pub mod Request
pub mod Scheduler
pub mod TickClock
pub mod TxQueue
pub mod RxQueue
pub mod Editor
pub mod Tasks
pub mod BootMemory
pub mod Physmem
pub mod Memory
pub mod FixedText
pub mod PathPolicy
pub mod Vfs
pub mod SerialKeys
pub mod Parser
