-- ===== src/Kmain/Clients.antt =====
-- kernel/main.cpp and memory/heap.cpp: the kernel's heap under calls of kmalloc and kfree.
use mathlib.Core.Path.{subst}
use issanium.Prelude.{ℕ, ◌+◌, ◌-◌, ◌*◌, ◌≤◌, ◌≡◌, arith, false, List, [], ◌∷◌, some, sym}
use issanium.Prelude.Held.{All, Pairwise}
use issanium.Pmm.{Pmm}
use issanium.Pmm.Init.{Entry, init}
use issanium.Vmm.{Vmm}
use issanium.Heap.{Heap, heap_base, initial_pages, done}
use issanium.Heap.Chain.{Chunk, chunk}
use issanium.Heap.Clients.{Ledger, Reach, Inside, Apart, Reach-Apart, done-injective}
use issanium.Boot.{kernel_paging, start_memory}
use issanium.Boot.Memory.{IsBoot, start_memory-IsHeap}
use issanium.Kmain.Overflow.{kernel-IsSealed}

-- On what the loader hands over (usable regions of whole pages that do not overlap, end below 2
-- ^ 46 and leave out page 0, one of them with room for the bitmap; a direct map of that size
-- that does not wrap; a first table that is a page of it and not in usable memory; no bitmap and
-- no count of free pages yet), with the heap's end at its base and 4098 pages free after
-- PMM::init: the kernel's heap, as PMM::init, VMM::init and Heap::init leave it. However its
-- clients take blocks by calls of kmalloc that return, of sizes that do not wrap when 7 is
-- added, and give back blocks that they hold, each block held has the size that was asked for
-- inside the heap, and no two of them overlap.
pub start_memory-Apart :
    (hhdm : ℕ) (es : List Entry) (ram : ℕ → ℕ → ℕ) (h g : Heap (Vmm Pmm)) (l : Ledger kernel_paging)
    → IsBoot hhdm es h.paging
    → h.heap_end ≡ heap_base
    → initial_pages * 4 + 2 ≤ (init hhdm (some es) ram h.paging.pmm).free_pages
    → start_memory hhdm (some es) ram h ≡ done tt g
    → Reach kernel_paging (record { heap = g; held = [] }) l
    → All (Inside kernel_paging l.heap) l.held × Pairwise (Apart kernel_paging) l.held
start_memory-Apart hhdm es ram h g l loaded base free ran r =
    let (k, (run, (heap, (tree, (start, nothing))))) =
      start_memory-IsHeap hhdm es ram h loaded base free in
    let all : List Chunk = chunk (initial_pages * 4096 - 32) false ∷ [] in
    let closed = kernel-IsSealed k all heap tree nothing (omega (arith, start, heap.chain.1)) in
    let same : k ≡ g = (done-injective run ran).1 in
    Reach-Apart kernel_paging k all heap closed
      (subst (λ t. Reach kernel_paging (record { heap = t; held = [] }) l) (sym same) r)
