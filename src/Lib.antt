-- ===== src/Lib.antt =====
-- A model of seaweed, a kernel for x86-64 that boots from its own loader, and what is proved of it.
-- Each C module that is modelled has a module here with its globals as a record and one function for
-- each operation; a function that changes the globals takes them and returns the new ones.
--
-- The parts. kernel/kernelMain.c starts everything in order: the physical pages (mm), the kernel
-- heap on top of them, the tables of descriptors and interrupts (int), the firmware's tables (acpi),
-- the cores and the scheduler (sched), and the drivers. All of them print through lib/libk/output.c,
-- and use the routines of lib/libk for memory and strings. The timer interrupt enters by a stub,
-- isrHandlerMain acknowledges it and calls schedulerMain, which switches the task of the core.
--
-- The files:
-- - Base: words of fixed width, Boolean tests, lists and arrays that the other files share.
-- - Libk/Bitmap, Libk/Memory (lib/libk/memUtils.c): the bits of a bitmap; the fills and copies,
--   on cells of one width. Libk/Text (lib/libk/string.c): strings as lists of bytes. Libk/Print
--   (lib/libk/output.c and lib/libu/logs.c): the format of the three printers;
--   Libk/Print/Terminal: putchar and the cursor of the screen.
-- - Mm/Run: the search for a run of clear bits that physicalPageAlloc and kmalloc have in common.
--   Mm/Frames (kernel/mm/physicalPageManager.c): initPMM, physicalPageAlloc and physicalPageFree.
--   Mm/Heap (kernel/mm/kHeap.c): kmalloc, kfree and krealloc. Mm/Paging
--   (kernel/mm/virtualPageManager.c): initVMM, and in Mm/Paging/Space createNewAddressSpace and
--   freeAddressSpace, and any number of spaces made one after the other; Mm/Paging/Walk is the
--   walk of the processor through such tables, as its manual describes it, for the addresses that
--   the tables of this kernel can hold. Mm/Boot (kernel/kernelMain.c): the allocations of
--   bootMain.
-- - Sched/Task, Sched/Scheduler (kernel/sched/scheduler.c and scheduler.h, with initAddressSpace
--   of kernel/mm/virtualPageManager.c): schedulerMain; startTask and switchTask, which are
--   assembly, are the ways in which it ends. Sched/Create: createNewTask, createThread and
--   findFreeIndex of the same file, on the address spaces, the pages and the heap, and
--   syscallMain (kernel/int/syscall.c); Sched/Create/Booting: the calls of createNewTask in
--   bootMain (kernel/kernelMain.c). Sched/Smp (kernel/sched/smp.c): initSMP as the steps that
--   start the other cores, and kernelMainSMP, which they run. Sched/Hpet (kernel/sched/hpet.c):
--   ksleep, on the readings of the counter. Sched/Lock: spinLock and spinRelease of the same file
--   as steps of any number of cores.
-- - Int/Idt (kernel/int/idt.c), Int/Gdt (kernel/int/gdt.c and tss.c): the descriptors and the
--   common handler of the interrupts. Int/Apic (kernel/int/apic.c): the stores to an I/O APIC and
--   to the local one; Int/Apic/Device: ioapicRead and lapicTimerInit on a device, with the two
--   chips as their manuals describe them; Int/Apic/Table: the search for an I/O APIC, the
--   redirection table and initAPIC on such a device.
-- - Acpi/Madt (kernel/acpi/madt.c): the parser of the table of the interrupt controllers.
--   Acpi/Rsdp (kernel/acpi/rsdp.c): the root tables and findSDT.
-- - Drivers/Font, Drivers/Vesa (kernel/drivers/font.h and vesa.c): the glyphs, the pixels and
--   renderChar. Drivers/Pci (kernel/drivers/pci.c): the scan of the buses; Drivers/Pci/Bar:
--   getBAR. Drivers/Ethernet (kernel/net/e1000.c): eepromRead and initEthernet. Drivers/Ahci
--   (kernel/drivers/ahci.c and ahci.h): the command that sataRW builds and how sendCommand hands
--   it over, the disks that initAHCI finds. Drivers/Bmp (kernel/drivers/bmp.c): drawBmp.
--   Drivers/Keyboard (kernel/drivers/keyboard.c): the handler. Fs/Bfs (kernel/fs/bfs.c and
--   bfs.h): the directory of the disk and the transfer of files by the sector.
-- - Tests: runs on concrete inputs.
--
-- Words are natural numbers with each cast written out (u8 to u64), as is the wrap of a difference.
-- Where memory is an array without a bound, it is a function of the index; an access at index -1 is
-- a fault of the model. A call that holds a lock from its first statement to its last is one step;
-- createNewTask and physicalPageFree take no lock, and are taken as one step as well, so nothing is
-- said of an interrupt within them.
--
-- Bounds and fuel. The loops that count are recursion on the rounds that are left. itob has the 49
-- bytes of its buffer, which 64-bit numbers in base 10 and 16 fit. The loop of madtInit runs on
-- fuel, one for each structure of the table. The scan of the PCI buses runs on the depth of the
-- bridges. The waits of sendCommand run on fuel; that they end is a hypothesis on the adapter, whose
-- registers only it changes. ksleep runs on fuel, one for each reading of the counter, which has to
-- grow; the loop of eepromRead takes one reading. The loop of initAPIC that masks reads its bound
-- before each round, and runs on fuel. The screen is one of 32 bits to the pixel whose size fits an
-- int.
--
-- Not modelled: the assembly (boot code, interrupt stubs, the switch of a task), port access
-- (asmUtils.c; the bytes that initAPIC sends are listed), what bootMain and the other functions only
-- print, the maps of the keys. The cores go through kernelMainSMP one after the other.
pub mod Base
pub mod Libk
pub mod Mm
pub mod Sched
pub mod Int
pub mod Acpi
pub mod Drivers
pub mod Fs
pub mod Tests
