-- ===== src/Lib.antt =====
-- Cinea OS, a hobby operating system: models of the parts of its kernel and programs that carry
-- logic of their own, with the theorems that make them correct.
--
-- The kernel (src/syskrnl) runs processes in turn: the scheduler decides which, the event queue and
-- the queue of sleepers decide which of those that wait go on, and the handlers of clock, keyboard
-- and windows feed them. Programs (src/usrbin) and the interface to them (src/sysapi) are apart.
--
-- Files and what they model:
--   Scheduler    src/syskrnl/schedule/roundroll.rs: nodes in a vector, linked by index into a ring and
--                a free list. State: Scheduler. Each method of RoundRollScheduler and of the trait
--                ProcessScheduler is a function of that name (the trait's `add` is `add_process`).
--   Allocator    src/syskrnl/allocator: the free list of linked_list.rs, with a node at the start of
--                each region as a Region, and Bump for bump.rs. The mask of `align_up` is written as
--                rounding up to a multiple, which is the same for a power of two.
--   Events       src/syskrnl/event/mod.rs and service.rs: which process waits for which event;
--                Events.Message src/sysapi/src/event.rs; Events.Sleep src/syskrnl/time/sleep.rs.
--   Kernel       the handlers of src/syskrnl/clock.rs, src/syskrnl/task/keyboard.rs and
--                src/syskrnl/interrupts/mod.rs over Scheduler, Events and Events.Sleep together.
--   Gui          src/syskrnl/gui/window.rs: windows, places, clicks; it uses Kernel to wake processes.
--   Fs           the files: Fs.Path for the path functions of src/sysapi/src/fs.rs, Fs.Disk for the
--                directories and Fs.Handles for the open files of src/syskrnl/fs/wrap.rs, Fs.Ata for
--                src/syskrnl/fs/ata.rs, Fs.Ahci for src/syskrnl/fs/ahci.rs.
--   Vga          src/syskrnl/vga_buffer.rs.
--   Clock        src/syskrnl/clock.rs, src/syskrnl/time/cmos.rs, src/syskrnl/time/mod.rs; Clock.DateTime
--                src/syskrnl/time/datetime.rs.
--   Mouse        src/syskrnl/task/mouse.rs.
--   Shell        `resolve_command` of src/usrbin/src/bin/shell.rs.
--   Game         src/usrbin/src/bin/2048.rs.
--   Memory       src/syskrnl/memory/mod.rs and src/syskrnl/allocator/mod.rs: the frames of the boot
--                loader's memory map and their allocators, mapping and unmapping of ranges of pages,
--                the kernel's heap.
--   Process      src/syskrnl/proc.rs: the process table and the pool of ids; Process.Create `create`,
--                Process.Exec `exec`, Process.Spawn `spawn`, `exit` and the calls `alloc` and `free` of
--                src/syskrnl/syscall/service.rs, Process.Fields the parts of the running process.
--                State: Processes, with the scheduler and the memory.
--   Interrupts   src/syskrnl/interrupts/mod.rs: the clock interrupt and the switch of processes, over
--                Process, Events and Events.Sleep; src/syskrnl/event/call.rs; Interrupts.Syscalls the
--                dispatcher of src/syskrnl/syscall/mod.rs. State: System, and the processor as a Cpu.
--   Graphics     src/syskrnl/graphic/mod.rs: a layer (Writer there) as a Layer; Graphics.Screen the
--                PhysicalWriter and `render`; Graphics.WindowWriter src/sysapi/src/gui.rs.
--   Grid         pictures as lists of rows, for Graphics.
--   AtaBus       src/syskrnl/io/ata.rs: the registers of a bus and its commands; AtaBus.Identify the
--                identification of a drive.
--   Examples     the theorems at concrete inputs.
--   Prelude      shared helpers: tests, lists, maps, results of a run.
--
-- A panic, an index out of range and a failed assertion are results (Run, and Fs.Result for the files).
-- Loops that the source does not bound run on fuel, and a run that is out of it is a result of its
-- own: the scheduler's loop over waiting processes has one more round than there are nodes, the loop
-- over path segments one more than there are segments, the loops over blocks of a disk one more than
-- there are bytes, a merge in the game five rounds for its line of four. Theorems show that this is
-- enough, but for the loop that writes blocks to a disk, about which there is none.
--
-- Sums and products of `usize`s that a program or a heap can make too large, in the allocators and in
-- sleeping, panic when they reach 2 ^ 64, as in a build with overflow checks (`checked`). The code of
-- a command line's splitting is modelled for ASCII characters only.
--
-- Two loops have fuel of another kind: the loop of `poll` takes as many steps as readings of the
-- status fit into its second, a number that is an argument; a range of pages is mapped in as many
-- steps as it has pages.
--
-- Parameters: the FAT library is a record Disk, the drive behind Fs.Ata a record Drive, the page
-- tables a record Mapper, the driver of an AHCI disk a record Port, of which is only assumed
-- what it does for 1 to 16 sectors at a time, the ports of the ATA bus a record Hardware; a record
-- Machine bundles the page tables, the parsing of ELF files and the check of UTF-8 for loading; a
-- record Services has the system calls that read serialized arguments. The clock's reading is an
-- argument. The memory of programs is a function from virtual addresses to bytes, the same in every
-- page table, as the kernel's entries are copied into each.
--
-- Not modelled: the AHCI driver, PCI, the interrupt and segment tables and the ports of clock, mouse
-- and screen are input and output of the hardware; fonts, images,
-- decoding of key codes, serialization and the queues of the task executor are of libraries.
pub mod Allocator
pub mod AtaBus
pub mod Clock
pub mod Events
pub mod Examples
pub mod Fs
pub mod Game
pub mod Graphics
pub mod Grid
pub mod Gui
pub mod Interrupts
pub mod Kernel
pub mod Memory
pub mod Mouse
pub mod Prelude
pub mod Process
pub mod Scheduler
pub mod Shell
pub mod Vga
