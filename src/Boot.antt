-- ===== src/Boot.antt =====
-- kernel/main.cpp: the memory components as the kernel puts them together, the heap over the page
-- tables over the page allocator.
pub mod Pages
pub mod Expand
pub mod Budget
pub mod Start
pub mod Memory
use issanium.Prelude.{ℕ, Option, List, Bool, not, ◌==◌}
use issanium.Pmm.{Pmm, alloc}
use issanium.Pmm.Init.{Entry, init}
use issanium.Vmm.{Frames, Vmm, init_tables, map_page, virt_to_phys}
use issanium.Heap.{Heap, Paging, Run, init_heap}

-- The page tables call PMM::alloc.
abbrev pub pmm_frames : Frames Pmm
pmm_frames = record { alloc_page = alloc }

-- The heap calls PMM::alloc and VMM::map; an address is mapped if it has a translation.
abbrev pub kernel_paging : Paging (Vmm Pmm)
kernel_paging = record {
  alloc_page = λ s. ((alloc s.pmm).0, record s { pmm = (alloc s.pmm).1 });
  map_page = map_page pmm_frames;
  mapped = λ s a. not (virt_to_phys a s == 0);
}

-- VMM::init and Heap::init, on the page allocator that PMM::init has left.
unfoldable pub start_heap : ℕ → Heap (Vmm Pmm) → Run (Vmm Pmm) (Unit {0})
start_heap hhdm h =
    init_heap kernel_paging (record h { paging = init_tables pmm_frames hhdm h.paging })

-- The state after PMM::init.
unfoldable pub start_pages : ℕ → Option (List Entry) → (ℕ → ℕ → ℕ) → Vmm Pmm → Vmm Pmm
start_pages hhdm entries ram s = record s { pmm = init hhdm entries ram s.pmm }

-- PMM::init, VMM::init and Heap::init in the order of kmain.
abbrev pub start_memory :
    ℕ → Option (List Entry) → (ℕ → ℕ → ℕ) → Heap (Vmm Pmm) → Run (Vmm Pmm) (Unit {0})
start_memory hhdm entries ram h =
    start_heap hhdm (record h { paging = start_pages hhdm entries ram h.paging })
