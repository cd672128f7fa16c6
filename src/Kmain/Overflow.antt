-- ===== src/Kmain/Overflow.antt =====
-- kernel/main.cpp: a back buffer that the heap has no room for.
use issanium.Prelude.{
  ℕ, suc, ◌+◌, ◌-◌, ◌*◌, ◌^◌, ◌≤◌, ◌<◌, ◌≡◌, refl, ap, ◌∙◌, arith, false, not, ◌==◌, List, [], ◌∷◌,
  none, some,
}
use issanium.Prelude.Word.{u64}
use issanium.Pmm.{Pmm}
use issanium.Pmm.Init.{Entry, init}
use issanium.Vmm.{Vmm}
use issanium.Heap.{Heap, heap_base, initial_pages, kmalloc, expand, done, page_fault}
use issanium.Heap.Chain.{Chunk, chunk}
use issanium.Heap.Coalesced.{has_room}
use issanium.Heap.State.{IsHeap, rounded}
use issanium.Heap.Grow.{kmalloc_exhausted}
use issanium.Heap.Clients.{IsSealed}
use issanium.Boot.{kernel_paging, start_memory}
use issanium.Boot.Expand.{HasTree, IsFreeFrom, expand-Grown}
use issanium.Boot.Memory.{IsBoot, start_memory-IsHeap}
use issanium.Framebuffer.{Screen, init_framebuffer}
use issanium.Writer.{Font}
use issanium.Process.{Scheduler}
use issanium.Kmain.{returned, heap_kmalloc, kmain, Board, Boot}
use issanium.Interrupts.{Stub}
use issanium.Kmain.Start.{buffer_bytes}

-- What the kernel's heap has before its first expansion: an expansion keeps it mapped, and leaves
-- the end unmapped.
pub kernel-IsSealed :
    (g : Heap (Vmm Pmm)) (cs : List Chunk)
    → IsHeap kernel_paging g cs
    → HasTree g.paging
    → IsFreeFrom g.heap_end g.paging
    → g.heap_end ≡ heap_base + initial_pages * 4096
    → IsSealed kernel_paging g
kernel-IsSealed g cs v tree nothing end =
    let grown = expand-Grown 64 g tree (omega (arith, end)) (omega (arith, end)) in
    let x = expand kernel_paging 64 g in
    let empty =
      grown.free x.heap_end (omega arith) (omega (arith, grown.upto, end))
        (nothing x.heap_end grown.from (omega (arith, grown.upto, end))) in
    (λ a lo hi. grown.kept a hi (v.mapped a lo hi), ap (λ t. not (t == 0)) empty)

-- On what the loader hands over (usable regions of whole pages that do not overlap, end below 2
-- ^ 46 and leave out page 0, one of them with room for the bitmap; a direct map of that size
-- that does not wrap; a first table that is a page of it and not in usable memory; no bitmap and
-- no count of free pages yet), with the heap's end at its base and 4098 pages free after
-- PMM::init: a framebuffer of more bytes than the heap starts with, a number that does not wrap
-- when 7 is added, stops kmain: the back buffer's kmalloc writes a header at the end of the heap
-- it has expanded, where nothing is mapped.
pub kmain_too_large :
    {S : Type 0} (inb : ℕ → S → ℕ × S) (outb : ℕ → ℕ → S → S) (cs : ℕ) (address : Stub → ℕ)
    (table walk fuel a b c : ℕ) (boot : Boot) (es : List Entry) (ram : ℕ → ℕ → ℕ) (fb : Screen)
    (others : List Screen) (font : Font) (board : Board S) (s : Scheduler) (h : Heap (Vmm Pmm))
    → 1 < walk
    → boot.entries ≡ some es
    → boot.screens ≡ some (fb ∷ others)
    → IsBoot boot.hhdm es h.paging
    → h.heap_end ≡ heap_base
    → initial_pages * 4 + 2 ≤ (init boot.hhdm (some es) ram h.paging.pmm).free_pages
    → initial_pages * 4096 - 32 < buffer_bytes fb
    → buffer_bytes fb + 7 < 2 ^ 64
    → (g : Heap (Vmm Pmm)) × (start_memory boot.hhdm boot.entries ram h ≡ done tt g)
      × (kmalloc kernel_paging walk (suc fuel) (buffer_bytes fb) g
          ≡ page_fault (expand kernel_paging 64 g).heap_end)
      × (kmain inb outb cs address table walk (suc fuel) boot ram font a b c board s h ≡ none)
unfolding kmain init_framebuffer heap_kmalloc has_room
kmain_too_large inb outb cs address table walk fuel a b c boot es ram fb others font board s h
      enough map screens loaded base free large small =
    let bytes = buffer_bytes fb in
    let (g, (ran, (heap, (tree, (start, nothing))))) =
      start_memory-IsHeap boot.hhdm es ram h loaded base free in
    let all = chunk (initial_pages * 4096 - 32) false ∷ [] in
    let (kept, out) =
      kernel-IsSealed g all heap tree nothing (omega (arith, start, heap.chain.1)) in
    let full : has_room (rounded bytes) all ≡ false = ground (arith, large) in
    let fault =
      kmalloc_exhausted kernel_paging g all walk fuel bytes heap kept enough small full out in
    let size : u64 bytes ≡ bytes = omega (arith, small) in
    let drawn : heap_kmalloc walk (suc fuel) (u64 bytes) g ≡ none =
      ap (λ n. heap_kmalloc walk (suc fuel) n g) size ∙ ap returned fault in
    (g, rw map ran, fault, rw (map, screens) (rw (ran, kmain) (rw drawn refl)))
