-- ===== src/Kmain/Blocks.antt =====
-- kernel/process.cpp on the heap of memory/heap.cpp: the blocks that `create_process` takes.
use mathlib.Core.Path.{subst}
use issanium.Prelude.{
  ℕ, suc, ◌+◌, ◌-◌, ◌^◌, ◌≤◌, ◌<◌, ◌≡◌, refl, ap, ◌∙◌, arith, true, false, List, [], ◌∷◌, ◌++◌,
  length, some,
}
use issanium.Pmm.{Pmm}
use issanium.Vmm.{Vmm}
use issanium.Heap.{Heap}
use issanium.Heap.Chain.{Chunk, chunk}
use issanium.Heap.Walk.{take_first, spot}
use issanium.Heap.Coalesced.{has_room}
use issanium.Heap.State.{IsHeap, rounded, kmalloc-take_first}
use issanium.Boot.{kernel_paging}
use issanium.Kmain.{returned, heap_kmalloc}

-- Chunks of these sizes are handed out, and behind them one is free.
abbrev pub chunks : List ℕ → ℕ → List Chunk
chunks [] left = chunk left false ∷ []
chunks (n ∷ ns) left = chunk n true ∷ chunks ns left

-- The bytes of those that are handed out, with their headers.
abbrev pub extent : List ℕ → ℕ
extent [] = 0
extent (n ∷ ns) = 32 + n + extent ns

length-chunks : (ns : List ℕ) (left : ℕ) → length (chunks ns left) ≡ suc (length ns)
length-chunks [] left = refl
length-chunks (n ∷ ns) left = ap suc (length-chunks ns left)

module _ (size left : ℕ) (room : size + 40 ≤ left) where
  has_room-chunks : (ns : List ℕ) → has_room size (chunks ns left) ≡ true
  unfolding has_room
  has_room-chunks [] = ground arith
  has_room-chunks (n ∷ ns) = has_room-chunks ns

  take_first-chunks :
      (ns : List ℕ) → take_first size (chunks ns left) ≡ chunks (ns ++ size ∷ []) (left - size - 32)
  unfolding take_first
  take_first-chunks [] = ground arith
  take_first-chunks (n ∷ ns) = ap (λ cs. chunk n true ∷ cs) (take_first-chunks ns)

  spot-chunks : (ns : List ℕ) (at : ℕ) → spot size at (chunks ns left) ≡ at + extent ns + 32
  unfolding spot
  spot-chunks [] at = ground arith
  spot-chunks (n ∷ ns) at = omega (arith, spot-chunks ns (at + (32 + n)))

-- The heap has these chunks, and starts at `start`.
abbrev pub HasChunks : Heap (Vmm Pmm) → ℕ → List Chunk → Type 0
HasChunks h start cs = IsHeap kernel_paging h cs × (h.heap_start ≡ start)

abbrev pub Allocates : ℕ → ℕ → ℕ → Heap (Vmm Pmm) → ℕ → List Chunk → Type 0
Allocates walk fuel size h start cs =
    (g : Heap (Vmm Pmm)) × (heap_kmalloc walk fuel size h ≡ some (spot (rounded size) start cs, g))
    × HasChunks g start (take_first (rounded size) cs)

module _ (walk fuel : ℕ) where
  heap_kmalloc-Allocates :
      (size : ℕ) (h : Heap (Vmm Pmm)) (start : ℕ) (cs : List Chunk)
      → HasChunks h start cs
      → length cs < walk
      → size + 7 < 2 ^ 64
      → has_room (rounded size) cs ≡ true
      → Allocates walk (suc fuel) size h start cs
  unfolding heap_kmalloc
  heap_kmalloc-Allocates size h start cs (v, at) enough small room =
      let (m, run, w) = kmalloc-take_first kernel_paging h cs v walk fuel size enough small room in
      (
        record h { headers = m },
        ap returned run ∙ ap (λ a. some (spot (rounded size) a cs, record h { headers = m })) at,
        (w, at),
      )

  -- A block for a request that the free chunk has room for, and a little more.
  abbrev pub TakesNext : ℕ → Heap (Vmm Pmm) → ℕ → List ℕ → ℕ → Type 0
  TakesNext size h start ns left =
      (g : Heap (Vmm Pmm)) × (heap_kmalloc walk (suc fuel) size h
        ≡ some (start + extent ns + 32, g))
      × HasChunks g start (chunks (ns ++ rounded size ∷ []) (left - rounded size - 32))

  pub heap_kmalloc-TakesNext :
      (size : ℕ) (h : Heap (Vmm Pmm)) (start : ℕ) (ns : List ℕ) (left : ℕ)
      → HasChunks h start (chunks ns left)
      → suc (length ns) < walk
      → size + 7 < 2 ^ 64
      → rounded size + 40 ≤ left
      → TakesNext size h start ns left
  heap_kmalloc-TakesNext size h start ns left v short small room =
      let (g, run, w) =
        heap_kmalloc-Allocates size h start (chunks ns left) v
          (omega (arith, short, length-chunks ns left)) small
          (has_room-chunks (rounded size) left room ns) in
      (
        g,
        run ∙ ap (λ a. some (a, g)) (spot-chunks (rounded size) left room ns start),
        subst (HasChunks g start) (take_first-chunks (rounded size) left room ns) w,
      )
