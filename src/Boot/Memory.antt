-- ===== src/Boot/Memory.antt =====
-- kernel/main.cpp: PMM::init, VMM::init and Heap::init one after another.
use issanium.Prelude.{
  ℕ, ◌+◌, ◌-◌, ◌*◌, ◌/◌, ◌%◌, ◌^◌, ◌≤◌, ◌<◌, ◌≡◌, ◌≢◌, arith, true, false, leb, Bool-cases, inl,
  inr, List, [], ◌∷◌, some,
}
use issanium.Pmm.{Pmm, bitmap_test}
use issanium.Pmm.Count.{free_below-le}
use issanium.Pmm.Init.{Entry, init, highest_from, find_region, bitmap_bytes}
use issanium.Pmm.Init.Regions.{IsMemmap, is_ram}
use issanium.Pmm.Init.Map.{IsReady, init-IsReady}
use issanium.Vmm.{Vmm}
use issanium.Vmm.Setup.{IsLoaded}
use issanium.Heap.{Heap, done, heap_base, initial_pages}
use issanium.Heap.Chain.{chunk}
use issanium.Heap.State.{IsHeap}
use issanium.Boot.{pmm_frames, kernel_paging, start_pages, start_memory}
use issanium.Boot.Pages.{IsPages, is_used, pmm_frames-IsFrames, alloc-null}
use issanium.Boot.Budget.{HasFree, IsOut-ne}
use issanium.Boot.Expand.{HasTree, IsFreeFrom}
use issanium.Boot.Start.{start_heap-IsHeap}

-- What the kernel relies on of the loader: its memory map, of which a usable region can hold the
-- bitmap; usable memory that ends below 2 ^ 46, and a direct map of so much that does not wrap; a
-- first table that is a page in the direct map and not in usable memory; and page 0, which is not
-- usable either. Nothing of the allocator's state is set yet.
pub record IsBoot (hhdm : ℕ) (es : List Entry) (s : Vmm Pmm) : Type 0 where
  pub memmap : IsMemmap es
  pub region : find_region 0 (bitmap_bytes (highest_from 0 es / 4096)) hhdm es ≢ 0
  pub direct : (0 < hhdm) × (hhdm % 4096 ≡ 0) × (hhdm + 2 ^ 46 ≤ 2 ^ 64)
  pub top : highest_from 0 es < 2 ^ 46
  pub unset : (s.pmm.bitmap ≡ 0) × (s.pmm.free_pages ≡ 0)
  pub null : is_ram es 0 ≡ false
  pub table : (s.cr3 % 4096 ≡ 0) × (s.cr3 + hhdm + 4096 ≤ 2 ^ 64)
  pub kept : is_ram es (s.cr3 / 4096) ≡ false

module _ (hhdm : ℕ) (es : List Entry) (ram : ℕ → ℕ → ℕ) (s : Vmm Pmm) (b : IsBoot hhdm es s) where
  abbrev pages : Pmm
  pages = init hhdm (some es) ram s.pmm

  pages-IsReady : IsReady es pages
  pages-IsReady =
      init-IsReady hhdm es ram s.pmm b.memmap b.direct.0 (omega (arith, b.direct, b.top)) b.unset.0
        b.unset.1 b.region

  -- Memory that is not usable is never free.
  used : (q : ℕ) → q < pages.total_pages → is_ram es q ≡ false → bitmap_test q pages ≡ true
  used q lt out = ground (arith, pages-IsReady.bit q lt, out)

  pages-IsPages : 0 < pages.free_pages → IsPages pages
  pages-IsPages some_free = record {
    valid = pages-IsReady.valid;
    size = omega (arith, pages-IsReady.total, b.top);
    null =
        used 0
          (omega
            (arith, pages-IsReady.valid.counted, free_below-le pages.total_pages pages, some_free))
          b.null;
  }

  module _ (free : initial_pages * 4 + 2 ≤ pages.free_pages) where
    one_free : HasFree 1 pages
    one_free = record { pages = pages-IsPages (omega (arith, free)); free = omega (arith, free) }

    loaded :
        IsLoaded pmm_frames IsPages is_used pmm_frames-IsFrames hhdm
          (start_pages hhdm (some es) ram s)
    unfolding start_pages
    loaded = record {
      offset = omega (arith, b.direct);
      allocator = one_free.pages;
      some_page = λ null.
          IsOut-ne (record s { pmm = pages }) one_free (alloc-null pages one_free.pages null);
      loaded = b.table;
      held = elim (Bool-cases (leb pages.total_pages (s.cr3 / 4096))) [
        | inl out ↦ ground (arith, out)
        | inr in' ↦
            let bit : bitmap_test (s.cr3 / 4096) pages ≡ true =
              used (s.cr3 / 4096) (ground (arith, in')) b.kept in
            ground (arith, bit)
      ];
    }

-- What the loader hands over (usable regions of whole pages that do not overlap, end below 2 ^
-- 46 and leave out page 0, one of them with room for the bitmap; a direct map of that size that
-- does not wrap; a first table that is a page of it and not in usable memory; no bitmap and no
-- count of free pages yet), the heap's end at its base, and 4098 pages free after PMM::init:
-- then PMM::init, VMM::init and Heap::init return, and leave a heap of one free chunk over its
-- initial pages, all of them mapped, and tables that are a tree without a page of the lower half
-- from the heap's end on.
pub start_memory-IsHeap :
    (hhdm : ℕ) (es : List Entry) (ram : ℕ → ℕ → ℕ) (h : Heap (Vmm Pmm))
    → IsBoot hhdm es h.paging
    → h.heap_end ≡ heap_base
    → initial_pages * 4 + 2 ≤ (init hhdm (some es) ram h.paging.pmm).free_pages
    → (g : Heap (Vmm Pmm)) × ((start_memory hhdm (some es) ram h ≡ done tt g)
        × (IsHeap kernel_paging g (chunk (initial_pages * 4096 - 32) false ∷ [])
            × (HasTree g.paging × ((g.heap_start ≡ heap_base) × IsFreeFrom g.heap_end g.paging))))
unfolding start_pages
start_memory-IsHeap hhdm es ram h b base free =
    start_heap-IsHeap hhdm (record h { paging = start_pages hhdm (some es) ram h.paging })
      (loaded hhdm es ram h.paging b free) base free
