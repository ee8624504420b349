-- ===== src/Lib.antt =====
-- ferr_os: a small x86-64 operating system, its loader and the library that they share.
--
-- The loader (loader/) reads the memory map, builds page tables and jumps into the kernel (src/).
-- Both use shared_lib/: addresses, page tables, the frame allocator.
--
--   Base                 helpers of all modules: numbers, lists, words, bitwise operations, Outcome
--   Addr                 shared_lib/src/addr.rs
--   Bits                 shared_lib/src/bits.rs
--   PageTable            shared_lib/src/page_table.rs
--   FrameAllocator       shared_lib/src/frame_allocator.rs
--   Memory               src/memory.rs
--   Task                 src/task/: Timer, Executor, Keyboard, and the interfaces Waker and Queue of
--                        the crates that they use, each with an instance
--   Interrupts           src/interrupts.rs, shared_lib/src/interrupts.rs
--   Idt                  src/idt.rs
--   Gdt                  src/gdt.rs
--   HeapSetup            src/allocator.rs
--   BlockAllocator       shared_lib/src/allocator/fixed_size_block.rs
--   Pci                  src/pci.rs
--   Ide                  src/ide.rs: Channel has the registers, Transfer commands, reading and writing,
--                        Probe the search for drives, Drive what a drive is relied on to do
--   Xsdt                 src/xsdt.rs
--   Apic                 src/apic.rs: Clock has the calibration, Setup has initialize_apic
--   Serial               shared_lib/src/serial.rs: Uart has what the port is relied on to do
--   Loader               loader/src/main.rs: Kernel has the segments, Setup the other mappings
--   Logger               shared_lib/src/logger.rs
--   Gpt                  src/gpt.rs
--   Chrono               src/chrono.rs
--   Shell                src/shell.rs
--   Crc                  shared_lib/src/crc.rs
--
-- A machine integer is a natural number. Arithmetic is that of a release build: it wraps (u8 to
-- u64 of Base/Word), and a shift count is taken modulo the width. Outcome (Base/Results) has the
-- results of fallible code: a value, an error with its message, a panic, or a loop without end.
--
-- Page tables stand in memory: Tables gives the entry at an index of the table at an address, and
-- Machine has them with the state of the allocator. IsTree says that no table is reached along two
-- paths, and IsSound adds that no reserved table of the allocator is reached. Pool, IsGrant and
-- IsAllocator (PageTable/Mapping) are the interface of an allocator, which FrameAllocator/Tables
-- fills. CR3 is an argument.
--
-- Interrupts are explicit: poll_next and poll_scancode take those that come between their looks at the
-- flag or the queue. A tick, a new sleep and a poll are events (Task/Timer/Ticks). The executor's loop
-- runs on fuel, and hang is more rounds than that.
--
-- Drivers and the logger are programs in Io (Base/Io): a state, and an Outcome. Gives says that
-- such a program ends in a value of which a predicate holds, and Ends that a call ends. The
-- devices behind the ports are a parameter of Ide; IsDrive (Ide/Drive) states what the driver
-- relies on, and Ide/Tests has a drive that does it. IsDrive asks for registers and commands
-- only while the drive is idle, and for words only while it asks for them; IsUart (Serial/Uart)
-- for a byte only while the transmitter is empty. Loops that wait for a device take fuel, and a
-- device is not busy for longer. The heap has 75 pages, and its loop 76 rounds; the walk over
-- the records of a MADT has its fuel as an argument. HasFrames (FrameAllocator/Enough) counts
-- the frames that an allocator has left.
--
-- An error or a panic carries no state: the callers of the fallible operations panic on an error. The
-- loader's bytes are memory outside the page tables; no theorem tells the bytes of a frame that has
-- become a table.
--
-- Not modelled: the locks and the log crate behind the loggers and the serial port, the loader's
-- efi_main and its calls of the uefi crate, the entry points, and the tool that writes the disk image
-- (disk_image/).
pub mod Addr
pub mod Apic
pub mod Base
pub mod Bits
pub mod BlockAllocator
pub mod Chrono
pub mod Crc
pub mod FrameAllocator
pub mod Gdt
pub mod Gpt
pub mod HeapSetup
pub mod Ide
pub mod Idt
pub mod Interrupts
pub mod Loader
pub mod Logger
pub mod Memory
pub mod PageTable
pub mod Pci
pub mod Serial
pub mod Shell
pub mod Task
pub mod Xsdt
