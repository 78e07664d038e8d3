-- ===== src/Lib.antt =====
-- Forward OS: the kernel of kernel/src, a small operating system in Rust for x86-64, modelled at
-- the level of what its functions compute. The build is a release build: arithmetic wraps, and a
-- failed bounds check is a panic that stops the machine.
--
-- Numbers are native natural numbers with the wrap-around of the source's widths written out; a
-- pointer's target is a function from offsets to bytes. What is hardware is a parameter of the
-- model.
--
-- - Base.antt and its folder: Boolean tests, lists, little-endian words in memory, bit operations
--   by masks.
-- - Ram.antt: the page bitmap of kernel/src/ram.rs (`RamManager`) and its first-fit allocator;
--   Ram/Boot.antt: the loops of `kmain` in kernel/src/main.rs that build it from the firmware's
--   memory map; SYS_MUNMAP of kernel/src/interrupts.rs frees pages of it. Ram/Marks.antt,
--   Ram/Allocate.antt, Ram/Aligned.antt and Ram/Munmap.antt hold the theorems.
-- - Disk.antt: the interface to the disk. `read_sector` fills one buffer, `write_sector` writes it
--   out, and does not wait for its command: that is still running when it returns, the next
--   `read_sector` that succeeds waits for it, and a store into the buffer before that goes to the
--   disk. The drive is a parameter, which says for each sector whether a command fails and what
--   then stands in the buffer, because the callers in kernel/src/file.rs and kernel/src/boot/fd.rs
--   ignore the driver's result.
-- - Fat.antt: mounting and the geometry of a FAT32 volume (`SimpleFileSystem` of
--   kernel/src/file.rs) and the step along a chain; Fat/Chain.antt: the chain as the disk gives it.
-- - File.antt and its folder: kernel/src/boot/fd.rs. File/Table.antt: the table of descriptors;
--   File.antt: `read_cluster` and `sys_read_file`; File/Seek.antt: `sys_lseek`, `sys_seek` and
--   `sys_fstat`.
-- - Directory.antt and its folder: the search of a directory (`find_entry`, `find_directory` of
--   kernel/src/file.rs; Directory/Meaning.antt says what they look for in the bytes of an entry)
--   and `syscall_open` of kernel/src/boot/fd.rs.
-- - Write.antt and its folder: kernel/src/boot/sys_write_file.rs: `alloc_cluster`, `set_fat_entry`,
--   `write_cluster`, `sys_write_file` and `update_dir_entry`. The theorems of a write over a file
--   that is long enough go from a sector (Write/Cluster.antt) to a chain of clusters
--   (Write/InPlace.antt, Write/Chunks.antt), the call (Write/Seek.antt, Write/Syscall.antt) and the
--   call with a read after it (Write/ReadBack.antt).
-- - Container.antt and its folder: kernel/src/boot/container.rs, the table of containers and the
--   futures that run in one. A future is any state with a poll of its own.
-- - Keys.antt and its folder: the ring of scan codes between the keyboard's interrupt and the
--   reader, of kernel/src/interrupts.rs.
-- - Net.antt and its folder: kernel/src/net, packets as lists of bytes: the IPv4 header, UDP
--   datagrams, replies to echo requests.
-- - Async.antt and its folder: kernel/src/executor.rs, kernel/src/boot/async_utils.rs and
--   kernel/src/boot/timer.rs: `block_on`, the futures, and the clock.
-- - E1000.antt and its folder: kernel/src/net/e1000.rs. E1000/Rings.antt says what the controller
--   does with the descriptors, and what a run of deliveries and calls is; E1000/Receive.antt and
--   E1000/Send.antt hold the theorems.
-- - Pci.antt and its folder: kernel/src/pci.rs, the configuration space as a function.
-- - Draw.antt and its folder: kernel/src/draw.rs, and in Draw/Screen.antt the drawing of
--   kernel/src/boot/mod.rs. Draw/Paint.antt says what painting on a canvas is, for any
--   representation of one; Draw/Shapes.antt and Draw/Screen.antt are two of them.
-- - Ahci.antt and its folder: kernel/src/ahci.rs on its registers, `write_sector` of
--   kernel/src/boot/sys_write_file.rs, and the choice of a port in `kmain`. The controller is a
--   parameter: what it does in a turn of a waiting loop, and what a write to a register does.
-- - Paging.antt and its folder: kernel/src/paging.rs, with the pages of Ram.antt. Paging/Walk.antt
--   has the walk of the processor as the specification.
-- - Exec.antt and its folder: kernel/src/boot/exec.rs, `load_elf` and the calls of it on an
--   interface of the system calls that it makes. Exec/Span.antt, Exec/Table.antt,
--   Exec/Segments.antt and Exec/Program.antt hold the theorems on the region of a program, on its
--   segments and on the whole, for calls that do what they promise to a file that is open;
--   Exec/System.antt fills the interface with the kernel's own functions and shows that they do.
-- - Syscall.antt and its folder: `syscall_int80_handler` of kernel/src/interrupts.rs, on the state
--   that the calls share: the files, the pages, the screen. Syscall/Calls.antt: the functions of
--   kernel/src/boot/mod.rs that raise the interrupt; Syscall/Idt.antt: the table of interrupts;
--   Syscall/Pages.antt and Syscall/Path.antt: the calls for pages and for opening a file, through
--   memory.
-- - Apic.antt and its folder: kernel/src/apic.rs, and `keyboard_handler` of
--   kernel/src/interrupts.rs on the ring of Keys.antt.
-- - Shell.antt and its folder: the debug shell of `kmain` in kernel/src/main.rs: its screen and its
--   line, the commands in Shell/Command.antt, the listing of a directory in Shell/Listing.antt, the
--   keys in Shell/Key.antt, with the tables of kernel/src/keyboard.rs in Keys/Map.antt.
--   Base/Text.antt has what the shell uses of Rust's library: numbers as texts and words of a line.
-- - App.antt and its folder: app/src/fscc.rs, the library of the applications, on the handler of
--   Syscall.antt.
-- - Boot.antt and its folder: the boot menu of `kmain` in kernel/src/main.rs, and what
--   `standard_boot` of kernel/src/boot/mod.rs does to find the host by ARP on the card of
--   E1000.antt, and to wait for a key.
--
-- Loops over a range are structural recursion. The walk along a chain has as fuel the position it
-- goes to, the loop over chunks the count of bytes wanted: each round goes on by a byte at least,
-- so both are enough on a volume that covers the file. The walk of a directory has the fuel of an
-- argument, in clusters; the theorems ask for more than its chain has. The memory of a program and
-- the buffer of the driver are apart. The loop that folds the carries of a checksum has the fuel
-- `fold_fuel`, enough for every sum of 32 bits.
--
-- The waits for the disk controller have the timeouts of the source for fuel; those for the network
-- card, the timer and the end of a write have none in the source, so their fuel is an argument.
-- `block_on` has fuel in rounds of two polls; its theorem asks for more than a measure of the
-- future's state.
--
-- Not modelled: messages to the serial port, the messages of the file calls on the screen, spinning
-- and memory fences; the jump into a program (`load_and_run` of kernel/src/boot/exec.rs), the reset
-- of the machine and the rest of the standard boot, a demonstration of the calls; the boot loader.
pub mod Base
pub mod Ram
pub mod Disk
pub mod Fat
pub mod File
pub mod Net
pub mod Container
pub mod Directory
pub mod Write
pub mod Keys
pub mod Async
pub mod E1000
pub mod Pci
pub mod Draw
pub mod Ahci
pub mod Paging
pub mod Exec
pub mod Syscall
pub mod Shell
pub mod Apic
pub mod App
pub mod Boot
