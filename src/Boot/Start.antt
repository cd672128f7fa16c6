-- ===== src/Boot/Start.antt =====
-- kernel/main.cpp: the heap that the kernel starts with.
use mathlib.Core.Path.{subst}
use issanium.Prelude.{ℕ, ◌+◌, ◌-◌, ◌*◌, ◌≤◌, ◌≡◌, arith, false, [], ◌∷◌, inl, inr, sym, ap, ◌∙◌}
use issanium.Pmm.{Pmm}
use issanium.Vmm.{Vmm, init_tables, virt_to_phys}
use issanium.Vmm.Setup.{IsLoaded, init_tables-IsTree}
use issanium.Heap.{Heap, done, expand, heap_base, initial_pages}
use issanium.Heap.Chain.{chunk}
use issanium.Heap.State.{IsHeap}
use issanium.Heap.Grow.{init_heap-IsHeap}
use issanium.Boot.{pmm_frames, kernel_paging, start_heap}
use issanium.Boot.Pages.{IsPages, is_used, pmm_frames-IsFrames}
use issanium.Boot.Expand.{HasTree, IsFreeFrom, expand-Grown}
use issanium.Boot.Budget.{HasFree, spend, expand-HasFree, IsOut-ne}

module _ (hhdm : ℕ) (h : Heap (Vmm Pmm))
    (loaded : IsLoaded pmm_frames IsPages is_used pmm_frames-IsFrames hhdm h.paging) where
  abbrev before : Heap (Vmm Pmm)
  before = record h { paging = init_tables pmm_frames hhdm h.paging }

  before-HasFree :
      initial_pages * 4 + 2 ≤ h.paging.pmm.free_pages
      → HasFree (initial_pages * 4 + 1) before.paging.pmm
  unfolding init_tables
  before-HasFree free =
      spend (initial_pages * 4 + 1) h.paging.pmm (record { pages = loaded.allocator; free = free })

  -- From what the loader hands over, with the heap's end at its base and 4098 pages free, the
  -- kernel gets a heap of one free chunk over its initial pages, all of them mapped, and its tables
  -- are a tree without a page behind the heap's end.
  pub start_heap-IsHeap :
      h.heap_end ≡ heap_base
      → initial_pages * 4 + 2 ≤ h.paging.pmm.free_pages
      → (g : Heap (Vmm Pmm)) × ((start_heap hhdm h ≡ done tt g)
          × (IsHeap kernel_paging g (chunk (initial_pages * 4096 - 32) false ∷ [])
              × (HasTree g.paging × ((g.heap_start ≡ heap_base) × IsFreeFrom g.heap_end g.paging))))
  unfolding start_heap
  start_heap-IsHeap base free =
      let (tree, (empty, others)) =
        init_tables-IsTree pmm_frames IsPages is_used pmm_frames-IsFrames hhdm h.paging loaded in
      let grown =
        expand-Grown initial_pages before tree (omega (arith, base)) (omega (arith, base)) in
      let rest = expand-HasFree initial_pages 1 before (before-HasFree free) in
      elim grown.mapped [
        | inl (end, pages) ↦
            let (g, run, same, start, heap) =
              init_heap-IsHeap kernel_paging before (omega (arith, end, base))
                (λ a lo hi. pages a (omega (arith, base, lo)) (omega (arith, base, hi))) in
            let nothing : IsFreeFrom g.heap_end g.paging = λ a le lt.
              ap (virt_to_phys a) same
              ∙ grown.free a (omega (arith, end, base, start, heap.chain.1, le)) lt (empty a lt) in
            (g, (run, (heap, (subst HasTree (sym same) grown.tree, (start, nothing)))))
        | inr out ↦ absurd (IsOut-ne (expand kernel_paging initial_pages before).paging rest out)
      ]
