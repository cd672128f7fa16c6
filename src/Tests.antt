-- ===== src/Tests.antt =====
-- The theorems at concrete inputs, and runs of the modelled code.
mod Libc
mod Pmm
mod Process
mod Stubs
mod Heap
mod Vmm
mod Boot
mod Kmain
mod Clients
mod Desktop
mod Polling
mod Input
mod Interrupts
mod Serial
mod Sharing
mod Video
