-- ===== src/Lib.antt =====
-- Issanium, a hobby x86_64 kernel: a model of its core, and theorems about it.
--
-- The kernel is a set of namespaces with static state. `kmain` (src/kernel/main.cpp) sets up the
-- physical page allocator, the page tables, the heap, the interrupts, the drivers and the
-- framebuffer, creates processes and starts scheduling. The model has a module for each part, and
-- each function takes the part's state as a record and returns the new one.
--
--   Prelude    shared names, lists, bits, words that wrap, integers, memory and counted loops
--   Libc       src/kernel/lib.cpp: memcpy, memset, memmove, memcmp, itoa, itoa_hex
--   Pmm        src/memory/pmm.cpp: the bitmap helpers, alloc, free; Pmm.Init: init
--   Vmm        src/memory/vmm.cpp: the four levels of page tables: init, map, unmap, virt_to_phys
--   Heap       src/memory/heap.cpp: the list of chunks: init, expand, kmalloc, kfree
--   Boot       src/kernel/main.cpp: Heap over Vmm over Pmm, as the kernel starts them
--   Mouse      src/drivers/ps2mouse.cpp: handle, the packet state machine; Mouse.Setup: init
--   Keyboard   src/drivers/ps2keyboard.cpp: handle
--   Process    src/kernel/process.cpp: create_process, schedule, start_scheduling
--   Interrupts src/kernel/interrupts.cpp: the descriptor table, the port writes, the dispatcher
--   Stubs      src/kernel/interrupt_stub.asm: the numbered stubs and that of the timer, what they
--              resume after a switch, and how they end interrupts at the controllers
--   Serial     src/drivers/serial.cpp: the polling output, over the machine's ports;
--              Serial.Sharing: processes that print at the same time
--   Framebuffer  src/video/framebuffer.cpp: init and drawing; Framebuffer.Tga: images
--   Writer     src/video/writer.cpp: glyphs and text
--   Desktop    src/kernel/main.cpp: the render functions and a round of the drawing loop;
--              Desktop.Polling: the same functions an access at a time, with interrupts between
--   Kmain      src/kernel/main.cpp: kmain over all of these, up to the first process; Kmain.Clients:
--              calls of kmalloc and kfree on the heap that it starts
--   Tests      runs of the code and the theorems at concrete inputs
--
-- Memory is a function from addresses to bytes or words. A pointer is its address, 0 is null, and
-- the ranges that a call names do not wrap round the address space. An access of a byte does not
-- fault; `Framebuffer.Source` says which bytes of an image are read. Unsigned words are natural
-- numbers with their wrap-around written out; the coordinates of the mouse are integers. Calls
-- that only print to the serial port are left out of the functions that make them; those of
-- render_mouse are in `Desktop.Report`.
--
-- Bounds. `itoa` has fuel for eleven rounds of its digit loop, and a 32-bit number has at most ten
-- digits. The polling loops of `Serial` have fuel that the theorems bound by what the chip promises.
-- The walks of `Heap` along the list of chunks have fuel, and the theorems ask for more than the
-- list has chunks, or for calls that return, which more fuel does not change (`Heap.Fuel`); the
-- calls of `kmalloc` by itself have fuel, of which one is enough with room.
-- All other loops are counted. `Pmm.Init` takes the memory map as a list of regions; what
-- the boot loader documents of it (usable regions are whole pages and do not overlap) is the
-- predicate `IsMemmap`.
--
-- A header of `Heap` is one value at its address, and an access of it faults unless its first and
-- last byte are mapped. `Vmm` sees memory as 64-bit words at their addresses; the processor's
-- register cr3 and the addresses flushed from its TLB are in the state, and nothing else of the
-- processor is. The theorems on the tables are about the lower half of the addresses, where the
-- heap is; the higher half has the loader's entries. `Vmm` and `Heap` take the calls of the
-- components below them as the interfaces `Frames`, with the laws `IsFrames`, and `Paging`; `Boot`
-- fills them with the modelled components.
--
-- `Stubs` has the general registers, and the five words of an interrupt's frame, as a `Context`, and
-- the stacks as words at their addresses. The processor's entry through a gate and `iretq`
-- follow its manual. The stub of the timer calls compiled code: what that leaves on the stack is
-- arbitrary, and that it takes at most 1024 bytes there (`call_room`) is assumed.
-- `Stubs.Isolation` is a machine whose steps are whatever the running process does on its own
-- stack, handlers of other interrupts included, and ticks of the timer; the registers that a
-- process was last interrupted with are kept beside the state, for the statements alone.
-- The words of the stacks, the structures of the processes and the headers of the heap are three
-- stores: the blocks that the heap gives lie apart from each other and from the headers.
--
-- `create_process` takes the heap as a parameter, with `none` for a fault, and the code segment as
-- a number; `Kmain` fills the parameter with the modelled heap, and runs the set-up functions of
-- the components over the machine's ports. No interrupt falls into `kmain` there; what one does
-- after the first process was created is in `Process.Runner`, and what a tick does before that is
-- in `Stubs.Idle`. A round of the drawing loop in `Desktop` is one step; in `Desktop.Polling` an
-- interrupt may fall between any two accesses of its render functions to what the drivers share
-- with them, and what they draw is kept as the arguments of the drawing calls, for the statements
-- alone. `Desktop.Polling.Frame` links the two.
--
-- `Serial.Sharing` has the polls and the writes of `serial_print` as the steps of any number of
-- processes. What the serial chip takes before it loses a byte is the predicate `IsFifo`, which
-- `serial_init` asks of the chip when it enables its FIFO. The loops of the two processes that print
-- wait between two texts, which is any time that passes.
--
-- Not modelled: the linker script, and limine.h, the header of the boot protocol, but for its memory
-- map.
pub mod Prelude
pub mod Libc
pub mod Pmm
pub mod Mouse
pub mod Keyboard
pub mod Vmm
pub mod Heap
pub mod Boot
pub mod Process
pub mod Serial
pub mod Framebuffer
pub mod Writer
pub mod Interrupts
pub mod Stubs
pub mod Desktop
pub mod Kmain
pub mod Tests
