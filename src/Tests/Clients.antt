-- ===== src/Tests/Clients.antt =====
-- Clients of the kernel's heap on the machine of `Boot`.
use issanium.Prelude.{ℕ, ◌-◌, ◌*◌, ◌≡◌, refl, arith, false, List, [], ◌∷◌, some}
use issanium.Prelude.Held.{All, Pairwise}
use issanium.Pmm.{Pmm}
use issanium.Vmm.{Vmm}
use issanium.Heap.{Header, Heap, initial_pages, done, kmalloc}
use issanium.Heap.Chain.{Chunk, chunk}
use issanium.Heap.Walk.{take_first, spot}
use issanium.Heap.Coalesced.{has_room}
use issanium.Heap.State.{IsHeap, kmalloc-take_first}
use issanium.Heap.Clients.{Ledger, here, next, take, Inside, Apart}
use issanium.Boot.{kernel_paging, start_memory}
use issanium.Boot.Memory.{start_memory-IsHeap}
use issanium.Kmain.Clients.{start_memory-Apart}
use issanium.Tests.Boot.{high, regions, machine-IsBoot, no_heap, free_after_init}

abbrev all : List Chunk
all = chunk (initial_pages * 4096 - 32) false ∷ []

started :
    (g : Heap (Vmm Pmm)) × (start_memory high (some regions) (λ _ _. 7) no_heap ≡ done tt g)
    × IsHeap kernel_paging g all
started =
    let (g, (ran, (heap, rest))) =
      start_memory-IsHeap high regions (λ _ _. 7) no_heap machine-IsBoot refl
        (omega (arith, free_after_init)) in
    (g, ran, heap)

-- The first client takes 100 bytes and the second one 50.
first :
    (m : ℕ → Header) × (kmalloc kernel_paging 9 1 100 started.0
      ≡ done (spot 104 started.0.heap_start all) (record started.0 { headers = m }))
    × IsHeap kernel_paging (record started.0 { headers = m }) (take_first 104 all)
unfolding has_room
first =
    kmalloc-take_first kernel_paging started.0 all started.2 9 0 100 (omega arith) (omega arith)
      refl

abbrev heap_with_first : Heap (Vmm Pmm)
heap_with_first = record started.0 { headers = first.0 }

second :
    (m : ℕ → Header) × (kmalloc kernel_paging 9 1 50 heap_with_first
      ≡ done (spot 56 started.0.heap_start (take_first 104 all)) (record started.0 { headers = m }))
    × IsHeap kernel_paging (record started.0 { headers = m }) (take_first 56 (take_first 104 all))
unfolding has_room take_first
second =
    kmalloc-take_first kernel_paging heap_with_first (take_first 104 all) first.2 9 0 50
      (omega arith) (omega arith) refl

abbrev taken_twice : Ledger kernel_paging
taken_twice = record {
  heap = record started.0 { headers = second.0 };
  held =
      (spot 56 started.0.heap_start (take_first 104 all), 50)
      ∷ (spot 104 started.0.heap_start all, 100)
      ∷ [];
}

start_memory-Apart_example :
    All (Inside kernel_paging taken_twice.heap) taken_twice.held
    × Pairwise (Apart kernel_paging) taken_twice.held
start_memory-Apart_example =
    start_memory-Apart high regions (λ _ _. 7) no_heap started.0 taken_twice machine-IsBoot refl
      (omega (arith, free_after_init)) started.1
      (next
        (next here
          (take 100 (spot 104 started.0.heap_start all) 9 0 heap_with_first (omega arith) first.1))
        (take 50 (spot 56 started.0.heap_start (take_first 104 all)) 9 0 taken_twice.heap
          (omega arith) second.1))
