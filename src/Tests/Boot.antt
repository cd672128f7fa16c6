-- ===== src/Tests/Boot.antt =====
-- The start of the memory components of kernel/main.cpp on a machine with 17 MiB of usable memory.
use issanium.Prelude.{ℕ, ◌-◌, ◌*◌, ◌^◌, ◌≡◌, refl, arith, false, List, [], ◌∷◌, some}
use issanium.Prelude.Memory.{count_up}
use issanium.Pmm.{Pmm, bitmap_set, bitmap_clear, bitmap_test}
use issanium.Pmm.Init.{
  Entry, init, highest_from, find_region, fill_words, release_regions, release_page, reserve_bitmap,
  reserve_page,
}
use issanium.Pmm.Init.Regions.{IsMemmap}
use issanium.Vmm.{Vmm}
use issanium.Heap.{Heap, done, heap_base, initial_pages}
use issanium.Heap.Chain.{chunk, header}
use issanium.Heap.State.{IsHeap}
use issanium.Boot.{kernel_paging, start_memory}
use issanium.Boot.Expand.{HasTree, IsFreeFrom}
use issanium.Boot.Memory.{IsBoot, start_memory-IsHeap}
use issanium.Stubs.Isolation.{done}

abbrev pub high : ℕ
high = 2 ^ 64 - 2 ^ 47

-- The loader's table is at 0x1000, in memory that is not usable.
abbrev pub regions : List Entry
regions =
    record { base = 0; length = 0x100000; kind = 1 }
    ∷ record { base = 0x100000; length = 0x1100000; kind = 0 }
    ∷ []

abbrev pub machine : Vmm Pmm
machine = record {
  hhdm = 0;
  pml4 = 0;
  cr3 = 0x1000;
  flushed = [];
  words = λ a. 3;
  pmm = record { bitmap = 0; words = λ _. 0; total_pages = 0; free_pages = 0; hhdm = 0 };
}

regions-IsMemmap : IsMemmap regions
regions-IsMemmap = (
  (λ e. cc),
  ((λ e. cc), tt),
  ((λ e. record { aligned = (refl, refl); fits = omega arith }), tt, tt),
)

pub machine-IsBoot : IsBoot high regions machine
unfolding highest_from find_region
machine-IsBoot = record {
  memmap = regions-IsMemmap;
  region = omega arith;
  direct = (omega arith, refl, omega arith);
  top = omega arith;
  unset = (refl, refl);
  null = refl;
  table = (refl, omega arith);
  kept = refl;
}

abbrev pub no_heap : Heap (Vmm Pmm)
no_heap = record {
  heap_start = 0;
  heap_end = heap_base;
  headers = λ a. header 0 false 0 0;
  paging = machine;
}

pub free_after_init : (init high (some regions) (λ _ _. 7) machine.pmm).free_pages ≡ 4351
unfolding init highest_from find_region release_regions release_page reserve_page reserve_bitmap
    fill_words bitmap_test bitmap_clear bitmap_set count_up
free_after_init = refl

start_memory-IsHeap_example :
    (g : Heap (Vmm Pmm)) × ((start_memory high (some regions) (λ _ _. 7) no_heap ≡ done tt g)
      × (IsHeap kernel_paging g (chunk (initial_pages * 4096 - 32) false ∷ [])
          × (HasTree g.paging × ((g.heap_start ≡ heap_base) × IsFreeFrom g.heap_end g.paging))))
start_memory-IsHeap_example =
    start_memory-IsHeap high regions (λ _ _. 7) no_heap machine-IsBoot refl
      (omega (arith, free_after_init))
