-- ===== src/Tests/Heap.antt =====
-- Runs of memory/heap.cpp, and its theorems at concrete inputs.
use issanium.Prelude.{ℕ, ◌+◌, ◌*◌, ◌≡◌, refl, arith, false, ◌&&◌, leb, ltb, List, [], ◌∷◌, ap}
use issanium.Heap.{Heap, Header, Paging, done, heap_base, expand, kmalloc, kfree, and_then}
use issanium.Heap.Chain.{Chunk, chunk, header, Mapped}
use issanium.Heap.Walk.{take_first, spot}
use issanium.Heap.Free.{release, place}
use issanium.Heap.Coalesced.{is_coalesced, has_room}
use issanium.Heap.State.{IsHeap, kmalloc-take_first, kfree-IsHeap, kfree-kmalloc}

-- A machine that has mapped so many pages from the heap's base on.
abbrev pages : Paging ℕ
pages = record {
  alloc_page = λ s. (4096, s);
  map_page = λ v phys flags s. s + 1;
  mapped = λ s a. leb heap_base a && ltb a (heap_base + 4096 * s);
}

abbrev one_page : Heap ℕ
one_page = record {
  heap_start = heap_base;
  heap_end = heap_base + 4096;
  headers = λ a. header 4064 false 0 0;
  paging = 1;
}

abbrev one_chunk : List Chunk
one_chunk = chunk 4064 false ∷ []

one_page-IsHeap : IsHeap pages one_page one_chunk
unfolding is_coalesced
one_page-IsHeap = record {
  pos = omega arith;
  bound = omega arith;
  nonempty = omega arith;
  chain = (refl, refl);
  mapped = λ a lo hi. ground arith;
  coalesced = refl;
}

kmalloc-take_first_example :
    (m : ℕ → Header) × (kmalloc pages 2 1 100 one_page
      ≡ done (spot 104 heap_base one_chunk) (record one_page { headers = m }))
    × IsHeap pages (record one_page { headers = m }) (take_first 104 one_chunk)
unfolding has_room
kmalloc-take_first_example =
    kmalloc-take_first pages one_page one_chunk one_page-IsHeap 2 0 100 (omega arith) (omega arith)
      refl

kfree-IsHeap_example :
    (m : ℕ → Header) × (kfree pages (place 0 heap_base one_chunk + 32) one_page
      ≡ done tt (record one_page { headers = m }))
    × IsHeap pages (record one_page { headers = m }) (release 0 one_chunk)
kfree-IsHeap_example = kfree-IsHeap pages one_page one_chunk one_page-IsHeap 0 (omega arith)

kfree-kmalloc_example :
    (m : ℕ → Header) × (and_then (kmalloc pages 2 1 100 one_page) (kfree pages)
      ≡ done tt (record one_page { headers = m }))
    × IsHeap pages (record one_page { headers = m }) one_chunk
unfolding has_room
kfree-kmalloc_example =
    kfree-kmalloc pages one_page one_chunk one_page-IsHeap 2 0 100 (omega arith) (omega arith) refl

abbrev no_pages : Heap ℕ
no_pages = record {
  heap_start = 0;
  heap_end = heap_base;
  headers = λ a. header 0 false 0 0;
  paging = 0;
}

expand_all :
    expand pages 1024 no_pages
    ≡ record no_pages { heap_end = heap_base + 1024 * 4096; paging = 1024 }
unfolding expand
expand_all = refl

all-Mapped : Mapped pages (expand pages 1024 no_pages).paging heap_base (heap_base + 1024 * 4096)
all-Mapped a lo hi =
    let e : (expand pages 1024 no_pages).paging ≡ 1024 = ap (λ (h : Heap ℕ). h.paging) expand_all in
    ground (arith, e)
