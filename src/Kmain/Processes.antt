-- ===== src/Kmain/Processes.antt =====
-- kernel/process.cpp on the heap of memory/heap.cpp: where the processes of kmain come to lie.
use mathlib.Core.Path.{subst}
use issanium.Prelude.{
  ℕ, suc, ◌+◌, ◌-◌, ◌*◌, ◌≤◌, ◌<◌, ◌≡◌, refl, ap, ◌∙◌, arith, List, [], ◌∷◌, ◌++◌, length,
  length-append, some,
}
use issanium.Pmm.{Pmm}
use issanium.Vmm.{Vmm}
use issanium.Heap.{Heap}
use issanium.Process.{Scheduler, create_process, set_up, stack_size, process_size}
use issanium.Kmain.{heap_kmalloc, create_all}
use issanium.Kmain.Blocks.{HasChunks, chunks, extent, heap_kmalloc-TakesNext}

-- From the structure of a process to its stack, and to the structure of the next.
abbrev pub to_stack : ℕ
to_stack = process_size + 32

abbrev pub to_next : ℕ
to_next = to_stack + (stack_size + 32)

-- The processes of `entries` with their structures from `at` on.
abbrev pub set_up_all : ℕ → ℕ → List ℕ → Scheduler → Scheduler
set_up_all cs at [] s = s
set_up_all cs at (entry ∷ entries) s =
    set_up_all cs (at + to_next) entries (set_up cs entry at (at + to_stack) s)

extent-snoc : (ns : List ℕ) (n : ℕ) → extent (ns ++ n ∷ []) ≡ extent ns + 32 + n
extent-snoc [] n = omega arith
extent-snoc (k ∷ ns) n = omega (arith, extent-snoc ns n)

-- What is handed out after one process more.
abbrev with_process : List ℕ → List ℕ
with_process ns = (ns ++ process_size ∷ []) ++ stack_size ∷ []

extent-with_process : (ns : List ℕ) → extent (with_process ns) ≡ extent ns + to_next
extent-with_process ns =
    omega (arith, extent-snoc (ns ++ process_size ∷ []) stack_size, extent-snoc ns process_size)

length-with_process : (ns : List ℕ) → length (with_process ns) ≡ length ns + 2
length-with_process ns = omega (
  arith,
  length-append (ns ++ process_size ∷ []) (stack_size ∷ []),
  length-append ns (process_size ∷ []),
)

module _ (walk fuel cs start : ℕ) where
  abbrev Creates : ℕ → Scheduler → Heap (Vmm Pmm) → List ℕ → ℕ → Type 0
  Creates entry s h ns left =
      let at = start + extent ns + 32 in
      (g : Heap (Vmm Pmm)) × (create_process (heap_kmalloc walk (suc fuel)) cs entry s h
        ≡ some (set_up cs entry at (at + to_stack) s, g))
      × HasChunks g start (chunks (with_process ns) (left - to_next))

  create_process-Creates :
      (entry : ℕ) (s : Scheduler) (h : Heap (Vmm Pmm)) (ns : List ℕ) (left : ℕ)
      → HasChunks h start (chunks ns left)
      → length ns + 2 < walk
      → to_next + 40 ≤ left
      → Creates entry s h ns left
  unfolding create_process
  create_process-Creates entry s h ns left v short room =
      let (h1, run1, v1) =
        heap_kmalloc-TakesNext walk fuel process_size h start ns left v (omega (arith, short))
          (omega arith) (omega (arith, room)) in
      let (h2, run2, v2) =
        heap_kmalloc-TakesNext walk fuel stack_size h1 start (ns ++ process_size ∷ [])
          (left - process_size - 32) v1 (omega (arith, short, length-append ns (process_size ∷ [])))
          (omega arith) (omega (arith, room)) in
      let stack : start + extent (ns ++ process_size ∷ []) + 32
          ≡ start + extent ns + 32 + to_stack =
        omega (arith, extent-snoc ns process_size) in
      let rest : left - process_size - 32 - stack_size - 32 ≡ left - to_next = omega arith in
      (
        h2,
        rw (run1, create_process)
            (rw (run2, create_process)
              (ap (λ t. some (set_up cs entry (start + extent ns + 32) t s, h2)) stack)),
        subst (λ l. HasChunks h2 start (chunks (with_process ns) l)) rest v2,
      )

  -- With room for all of them, every call of `create_process` finds its two blocks.
  pub create_all-set_up_all :
      (entries : List ℕ) (s : Scheduler) (h : Heap (Vmm Pmm)) (ns : List ℕ) (left : ℕ)
      → HasChunks h start (chunks ns left)
      → length ns + 2 * length entries < walk
      → length entries * to_next + 40 ≤ left
      → (g : Heap (Vmm Pmm)) × (create_all walk (suc fuel) cs entries s h
          ≡ some (set_up_all cs (start + extent ns + 32) entries s, g))
  unfolding create_all
  create_all-set_up_all [] s h ns left v short room = (h, refl)
  create_all-set_up_all (entry ∷ entries) s h ns left v short room =
      let at = start + extent ns + 32 in
      let s1 = set_up cs entry at (at + to_stack) s in
      let (h1, run, v1) =
        create_process-Creates entry s h ns left v (omega (arith, short)) (omega (arith, room)) in
      let (g, runs) =
        create_all-set_up_all entries s1 h1 (with_process ns) (left - to_next) v1
          (omega (arith, short, length-with_process ns)) (omega (arith, room)) in
      let next : start + extent (with_process ns) + 32 ≡ at + to_next =
        omega (arith, extent-with_process ns) in
      (g, rw (run, create_all) (runs ∙ ap (λ a. some (set_up_all cs a entries s1, g)) next))
