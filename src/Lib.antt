-- ===== src/Lib.antt =====
-- A verification library for MmdOS, a 64-bit higher-half kernel (src/kernel, src/programs).
--
-- Parts and files. Paths are from the repository's root.
--   Base, Base/*        shared names, Boolean tests, words of C, arrays, and Outcome: a value, a
--                       panic, a lock waited for without end, or a loop of the model out of fuel.
--   Memory, Memory/*    byte memory and the loops memset and memcpy of src/kernel/lib/util.c; Words
--                       and Bytes are words and lists of bytes in it.
--   Strings, *          kstrcpy and kstrcmp of src/kernel/lib/util.c, over byte memory.
--   Spinlock, *         src/kernel/lib/spinlock.h and spinlock.c: the lock word with one agent at work;
--                       Exclusion has any number of agents, as a step relation on their phases.
--   Pmm, Pmm/*          the physical page allocator, src/kernel/mm/bitmap.h and pmm.c. The record Pmm
--                       holds the static variables of pmm.c and the memory that the bitmap lies in.
--                       Scan is physical_alloc, Alloc pmm_alloc_nozero, Zero pmm_alloc, Free
--                       pmm_free, Init pmm_init, with Marks about its loops; Client is about several calls in a row.
--   Vmm, Vmm/*          page tables, src/kernel/mm/vmm.c, as words in the memory of Pmm: Walk is the walk
--                       through present tables, Change and Translate the operations at its end,
--                       Missing what unmapping does without them.
--   Heap, *             src/kernel/mm/kheap.c: Block is a block of an arena, Pages an arena of its own for
--                       a block, from the page allocator and back to it.
--   Keyboard, *         src/kernel/interrupts/keyboard.c: Keys holds its tables, Typing an account of
--                       what typing means, Refines and Reads the handler and the calls that read.
--   Interrupts, *       src/kernel/interrupts/idt.c: Gates is idt_init and the gate descriptors, Lines the
--                       handler tables, irq_handler, isr_handler, and pic_eoi of src/kernel/cpu/pic.c.
--   Syscalls, *         src/kernel/userland/sys.c: syscall_init and syscall_handler; Keys joins them to the
--                       keyboard and its interrupt line.
--   Prompt, *           src/kernel/terminal/prompt.c: Editor is the line as a list of characters, Stdin the
--                       lock on standard input over runs of calls, Commands the enter key and what it
--                       prints, Enter the command that it picks.
--   Format, *           src/kernel/lib/formatter.c and vkprintf of src/kernel/lib/print.c: Decimal is about
--                       decimal numbers, Bounds about what each operation writes, Loop about vkprintf,
--                       Plain about print_syscall on a string without directives.
--   Octal, *            kpow and oct_ascii_to_dec of src/kernel/lib/util.c.
--   Ustar, *            the archive in memory, src/kernel/fs/ustar.c: Names is the name that a header is
--                       compared by, Lookup the search for it, NotOpen and Files opening and closing,
--                       Reading the copy of a file's bytes, Directory the helpers of ustar_read_dir.
--   Vfs, *              src/kernel/fs/vfs.c: Paths are the searches of vfs_open, Opening the way from a
--                       path to a descriptor, Reading vfs_read, Closing vfs_close and a descriptor
--                       after it.
--   Cat, *              src/programs/cat.c: its loop takes what becomes of a piece as an argument: Rounds
--                       is the loop, Prints the pieces handed over and the pieces printed, Whole
--                       the latter on what vfs_open opened.
--   Life, *             src/programs/gameoflife/gameoflife.c: Generation is the simultaneous update,
--                       Neighbors the eight cells around.
--   Snake, *            src/programs/snake/snake.c: Next is the cell that the head goes to, Entries
--                       and Body the snake as a list, Board what is painted.
--   Process, Process/*  process control blocks as records at addresses and their linked queue,
--                       src/kernel/scheduler/process.h and process.c. Kernel holds the static
--                       variables of process.c, the uptime of src/kernel/interrupts/timer.c, and the
--                       registers that a context switch loads.
--   Scheduler, *        src/kernel/scheduler/scheduler.c: `round` is the body of the loop of
--                       schedule, `pick` the loop, `run_next` what follows it.
--
-- Interaction. The timer interrupt calls schedule, which walks the queue of process.c and deletes dead
-- processes from it; process_create puts new processes into that queue. The page allocator is used by
-- the page tables (walk_pte calls pmm_alloc) and the heap; process_create takes the heap's blocks as
-- parameters. The keyboard's handler takes the bytes of port 0x60 as arguments. irq_handler
-- and syscall_handler call what is in their tables: a handler of the model works on a Machine, whose
-- world is the state of the component that the handler belongs to.
--
-- A mount point of vfs.c holds the operations of ustar.c, as functions on the state of the archive; the
-- state of the virtual file system has that state in it, and with it memory. cat calls them by system
-- calls 1 to 3. Local arrays lie at addresses that the definitions take as arguments, and so do the
-- blocks that kalloc gives; what else kalloc does, running out of memory included, is left aside.
--
-- Numbers. An address or a word is a natural number with the wrap of its C type written out.
-- A panic halts the machine, so nothing is said of the state after it. A read through NULL is a
-- page fault, which panics.
--
-- Fuel. The search of physical_alloc takes the distance from the index to the limit, and the index
-- grows by one a round. A walk along the process queue takes more than the number of its members,
-- and the loop of schedule one round more than that; the theorems say so in their hypotheses. An
-- entry of the memory map of `len` bytes takes `len / 4096 + 1` rounds. kstrcmp takes as many
-- rounds as its length, vkprintf one for each character or directive of its format and one more, and
-- the count of a number's digits 21, which is more than a 64-bit number has. The search of the
-- archive takes 3 rounds more than it has headers, get_rel_path one more than the bytes that path and
-- mount point share, oct_ascii_to_dec one for each digit, and the loop of cat one for each 511 bytes
-- begun and one more.
--
-- Not modelled: assembly and machine instructions, the boot protocol, port output, fixed descriptor
-- tables. Making, destroying and first filling page tables, listing a directory, starting a
-- file as a process, and the waiting of the games for the timer are parts of the system outside this
-- library. The enter key of the prompt stops at the command that process_create is called for.
pub mod Base
pub mod Memory
pub mod Spinlock
pub mod Pmm
pub mod Process
pub mod Scheduler
pub mod Keyboard
pub mod Vmm
pub mod Interrupts
pub mod Syscalls
pub mod Prompt
pub mod Strings
pub mod Format
pub mod Octal
pub mod Ustar
pub mod Vfs
pub mod Cat
pub mod Life
pub mod Snake
pub mod Heap
