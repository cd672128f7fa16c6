-- ===== src/Heap/Grow.antt =====
-- memory/heap.cpp: `init`, and the expansion of a heap without room.
use mathlib.Core.Path.{subst}
use issanium.Prelude.{
  ℕ, zero, suc, ◌+◌, ◌-◌, ◌*◌, ◌^◌, ◌<◌, ◌≡◌, refl, ap, sym, ◌∙◌, arith, true, false, ◌==◌, List,
  [], ◌∷◌, length, inl, inr, Bool-cases,
}
use issanium.Prelude.Memory.{write, write_self}
use issanium.Heap.{
  Header, Heap, Paging, done, page_fault, kmalloc, expand, grow, find_last, append_chunk, add_chunk,
  init_heap, heap_base, initial_pages, store,
}
use issanium.Heap.Chain.{
  Chunk, chunk, header, Chain, Chain-end, Mapped, readable-Mapped, load-done, store-done,
}
use issanium.Heap.Walk.{spot, take_first}
use issanium.Heap.Coalesced.{is_coalesced, has_room}
use issanium.Heap.State.{IsHeap, rounded, align_size-rounded, walk-take_first}

spot_full : (size at : ℕ) (cs : List Chunk) → has_room size cs ≡ false → spot size at cs ≡ 0
unfolding spot has_room
spot_full size at [] h = refl
spot_full size at (c ∷ cs) h = ground (arith, spot_full size (at + (32 + c.bytes)) cs)

take_first_full : (size : ℕ) (cs : List Chunk) → has_room size cs ≡ false → take_first size cs ≡ cs
unfolding take_first has_room
take_first_full size [] h = refl
take_first_full size (c ∷ cs) h = ground (arith, take_first_full size cs)

module _ {S : Type 0} (p : Paging S) where
  -- `expand` leaves the start and the headers.
  abbrev Expanded : Heap S → Heap S → Type 0
  Expanded h g = (g.heap_start ≡ h.heap_start) × (g.headers ≡ h.headers)

  expand-Expanded : (n : ℕ) (h : Heap S) → Expanded h (expand p n h)
  unfolding expand
  expand-Expanded zero h = (refl, refl)
  expand-Expanded (suc n) h =
      let r = p.alloc_page h.paging in
      elim (Bool-cases (r.0 == 0)) [
        | inl null ↦ rw null (refl, refl)
        | inr page ↦ rw page (expand-Expanded n (grow p r.0 r.1 h))
      ]

  -- How far `expand` comes does not depend on the headers.
  pub expand_headers :
      (n : ℕ) (h : Heap S) (m : ℕ → Header)
      → expand p n (record h { headers = m }) ≡ record (expand p n h) { headers = m }
  unfolding expand
  expand_headers zero h m = refl
  expand_headers (suc n) h m =
      let r = p.alloc_page h.paging in
      elim (Bool-cases (r.0 == 0)) [
        | inl null ↦ rw null refl
        | inr page ↦ rw page (expand_headers n (grow p r.0 r.1 h) m)
      ]

  find_last-done :
      (fuel prev at end : ℕ) (c : Chunk) (cs : List Chunk) (h : Heap S)
      → length cs < fuel
      → 0 < at
      → Chain h.headers prev at (c ∷ cs) end
      → Mapped p h.paging at end
      → (last : ℕ) × (find_last p fuel at h ≡ done last h)
  unfolding find_last
  find_last-done zero prev at end c cs h lt pos chain mapped = absurd (omega arith)
  find_last-done (suc n) prev at end c [] h lt pos chain mapped =
      let ok = readable-Mapped p h.paging at end at mapped (omega arith) (omega (arith, chain.1)) in
      rw (load-done p h at ok, chain.0) (at, refl)
  find_last-done (suc n) prev at end c (d ∷ ds) h lt pos chain mapped =
      let next = at + (32 + c.bytes) in
      let room = Chain-end h.headers next (next + (32 + d.bytes)) ds end chain.1.1 in
      let ok = readable-Mapped p h.paging at end at mapped (omega arith) (omega (arith, room)) in
      let nonnull : (next == 0) ≡ false = ground arith in
      rw (load-done p h at ok, chain.0, nonnull)
        (find_last-done n at next end d ds h (omega arith) (omega arith) chain.1
          (λ a lo hi. mapped a (omega (arith, lo)) hi))

  append_chunk_fault :
      (h : Heap S) (new last : ℕ)
      → p.mapped h.paging new ≡ false
      → append_chunk p new last h ≡ page_fault new
  unfolding append_chunk store
  append_chunk_fault h new last out = rw out refl

module _ {S : Type 0} (p : Paging S) (h : Heap S) where
  -- If `expand` has mapped its pages from the heap's base on, `init` leaves a heap of one free
  -- chunk that covers all of them but its header.
  pub init_heap-IsHeap :
      (expand p initial_pages h).heap_end ≡ heap_base + initial_pages * 4096
      → Mapped p (expand p initial_pages h).paging heap_base (heap_base + initial_pages * 4096)
      → (g : Heap S) × (init_heap p h ≡ done tt g)
        × (g.paging ≡ (expand p initial_pages h).paging)
        × (g.heap_start ≡ heap_base)
        × IsHeap p g (chunk (initial_pages * 4096 - 32) false ∷ [])
  unfolding init_heap is_coalesced
  init_heap-IsHeap e mapped =
      let x = record (expand p initial_pages h) { heap_start = heap_base } in
      let ok =
        readable-Mapped p x.paging heap_base _ heap_base mapped (omega arith) (omega arith) in
      let first = header (initial_pages * 4096 - 32) false 0 0 in
      rw (store-done p x heap_base ok first) (
        record x { headers = write x.headers heap_base first },
        refl,
        refl,
        refl,
        record {
          pos = omega arith;
          bound = omega (arith, e);
          nonempty = omega arith;
          chain = (write_self x.headers heap_base first, omega (arith, e));
          mapped = λ a lo hi. mapped a lo (omega (arith, e, hi));
          coalesced = refl;
        },
      )

module _ {S : Type 0} (p : Paging S) where
  add_chunk_fault :
      (h : Heap S) (cs : List Chunk) (walk : ℕ)
      → 0 < length cs
      → length cs < walk
      → 0 < h.heap_start
      → Chain h.headers 0 h.heap_start cs h.heap_end
      → Mapped p (expand p 64 h).paging h.heap_start h.heap_end
      → p.mapped (expand p 64 h).paging (expand p 64 h).heap_end ≡ false
      → add_chunk p walk h ≡ page_fault (expand p 64 h).heap_end
  unfolding add_chunk
  add_chunk_fault h [] walk filled lt pos chain mapped out = absurd (omega arith)
  add_chunk_fault h (c ∷ cs) walk filled lt pos chain mapped out =
      let g = expand p 64 h in
      let e = expand-Expanded p 64 h in
      let chain_g : Chain g.headers 0 g.heap_start (c ∷ cs) h.heap_end =
        subst (λ t. Chain g.headers 0 t (c ∷ cs) h.heap_end) (sym e.0)
          (subst (λ t. Chain t 0 h.heap_start (c ∷ cs) h.heap_end) (sym e.1) chain) in
      let (last, run) =
        find_last-done p walk 0 g.heap_start h.heap_end c cs g (omega arith) (omega (arith, e.0))
          chain_g (λ a lo hi. mapped a (omega (arith, lo, e.0)) hi) in
      rw run (append_chunk_fault p g g.heap_end last out)

  -- With no room for a request, `kmalloc` expands the heap and writes the new header at the end
  -- of what it has mapped: where that is not mapped, and the heap still is, the kernel stops in a
  -- page fault there.
  pub kmalloc_exhausted :
      (h : Heap S) (cs : List Chunk) (walk fuel size : ℕ)
      → IsHeap p h cs
      → Mapped p (expand p 64 h).paging h.heap_start h.heap_end
      → length cs < walk
      → size + 7 < 2 ^ 64
      → has_room (rounded size) cs ≡ false
      → p.mapped (expand p 64 h).paging (expand p 64 h).heap_end ≡ false
      → kmalloc p walk (suc fuel) size h ≡ page_fault (expand p 64 h).heap_end
  unfolding kmalloc
  kmalloc_exhausted h cs walk fuel size s kept enough small full out =
      let n = rounded size in
      let (m, run, chain, outside) = walk-take_first p h cs s walk n enough in
      let null : (spot n h.heap_start cs == 0) ≡ true =
        ground (arith, spot_full n h.heap_start cs full) in
      let x = record h { headers = m } in
      let same : expand p 64 x ≡ record (expand p 64 h) { headers = m } = expand_headers p 64 h m in
      let fault : add_chunk p walk x ≡ page_fault (expand p 64 h).heap_end =
        add_chunk_fault x cs walk s.nonempty enough s.pos
          (subst (λ t. Chain m 0 h.heap_start t h.heap_end) (take_first_full n cs full) chain)
          (subst (λ (t : Heap S). Mapped p t.paging h.heap_start h.heap_end) (sym same) kept)
          (subst (λ (t : Heap S). p.mapped t.paging t.heap_end ≡ false) (sym same) out)
        ∙ ap (λ (t : Heap S). page_fault t.heap_end) same in
      rw (align_size-rounded size small, run, null) (rw (fault) refl)
