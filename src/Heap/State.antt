-- ===== src/Heap/State.antt =====
-- memory/heap.cpp: what `kmalloc` and `kfree` do to a heap of chunks.
use mathlib.Core.Path.{subst}
use issanium.Prelude.{
  ℕ, zero, suc, ◌+◌, ◌*◌, ◌/◌, ◌^◌, ◌≤◌, ◌<◌, ◌≡◌, refl, arith, true, false, ◌==◌, List, [], ◌∷◌,
  length,
}
use issanium.Prelude.Bits.{bit_and_high}
use issanium.Prelude.Word.{u64}
use issanium.Heap.{Header, Heap, Paging, done, align_size, search_chunk, kmalloc, kfree, and_then}
use issanium.Heap.Gives.{Gives}
use issanium.Heap.Chain.{Chunk, head_at, Chain, Mapped}
use issanium.Heap.Walk.{take_first, spot, search_chunk-take_first}
use issanium.Heap.Free.{release, place, kfree-release}
use issanium.Heap.Coalesced.{
  is_coalesced, has_room, fit_index, is_coalesced-take_first, is_coalesced-release,
  release-take_first, spot-place,
}

-- The headers link `cs` over the whole mapped heap, and no two free chunks are neighbours.
pub record IsHeap {S : Type 0} (p : Paging S) (h : Heap S) (cs : List Chunk) : Type 0 where
  pub pos : 0 < h.heap_start
  pub bound : h.heap_end < 2 ^ 63
  pub nonempty : 0 < length cs
  pub chain : Chain h.headers 0 h.heap_start cs h.heap_end
  pub mapped : Mapped p h.paging h.heap_start h.heap_end
  pub coalesced : is_coalesced cs ≡ true

-- A request in bytes, rounded up to a multiple of 8.
abbrev pub rounded : ℕ → ℕ
rounded size = (size + 7) / 8 * 8

pub align_size-rounded : (size : ℕ) → size + 7 < 2 ^ 64 → align_size size ≡ rounded size
unfolding align_size
align_size-rounded size h =
    let small : u64 (size + 7) ≡ size + 7 = omega arith in
    rw small (bit_and_high 3 64 (size + 7) (omega arith) h)

length-take_first : (size : ℕ) (cs : List Chunk) → length cs ≤ length (take_first size cs)
unfolding take_first
length-take_first size [] = omega arith
length-take_first size (c ∷ cs) = ground (arith, length-take_first size cs)

length-release : (i : ℕ) (cs : List Chunk) → 0 < length cs → 0 < length (release i cs)
unfolding release
length-release i [] h = h
length-release zero (c ∷ cs) h = omega arith
length-release (suc zero) (b ∷ []) h = h
length-release (suc zero) (b ∷ (c ∷ cs)) h = ground arith
length-release (suc (suc i)) (b ∷ cs) h = omega arith

module _ {S : Type 0} (p : Paging S) (h : Heap S) (cs : List Chunk) (s : IsHeap p h cs) where
  head-start : head_at h.heap_start cs ≡ h.heap_start
  head-start = go cs s.nonempty
    where
      go : (ds : List Chunk) → 0 < length ds → head_at h.heap_start ds ≡ h.heap_start
      go [] n = absurd (omega arith)
      go (d ∷ ds) n = refl

  -- A walk over the whole list.
  pub walk-take_first :
      (walk size : ℕ)
      → length cs < walk
      → Gives h 0 h.heap_end
          (spot size h.heap_start cs)
          h.heap_start
          (take_first size cs)
          (search_chunk p walk size h.heap_start h)
  walk-take_first walk size fuel =
      subst
        (λ t.
          Gives h 0 h.heap_end (spot size h.heap_start cs) h.heap_start (take_first size cs)
            (search_chunk p walk size t h))
        head-start
        (search_chunk-take_first p h.heap_end size s.bound walk 0 h.heap_start cs h fuel s.pos
          s.chain s.mapped)

  -- If some free chunk has the rounded size, the rounding does not wrap and there is fuel for the
  -- walk, `kmalloc` returns the pointer of first fit. The headers then link the chunks that first
  -- fit leaves, with no two free ones next to each other.
  pub kmalloc-take_first :
      (walk fuel size : ℕ)
      → length cs < walk
      → size + 7 < 2 ^ 64
      → has_room (rounded size) cs ≡ true
      → (m : ℕ → Header) × (kmalloc p walk (suc fuel) size h
          ≡ done (spot (rounded size) h.heap_start cs) (record h { headers = m }))
        × IsHeap p (record h { headers = m }) (take_first (rounded size) cs)
  unfolding kmalloc
  kmalloc-take_first walk fuel size enough small room =
      let n = rounded size in
      let (m, run, chain, outside) = walk-take_first walk n enough in
      let nonnull : (spot n h.heap_start cs == 0) ≡ false =
        ground (arith, spot-place n h.heap_start cs room) in
      rw (align_size-rounded size small, run, nonnull)
        (
          m,
          refl,
          record {
            pos = s.pos;
            bound = s.bound;
            nonempty = omega (arith, s.nonempty, length-take_first n cs);
            chain = chain;
            mapped = s.mapped;
            coalesced = is_coalesced-take_first n cs s.coalesced;
          },
        )

  -- `kfree` of the pointer behind the header of chunk `i` returns, and the chunk is free, merged
  -- with its free neighbours; no two free chunks are neighbours then.
  pub kfree-IsHeap :
      (i : ℕ)
      → i < length cs
      → (m : ℕ → Header) × (kfree p (place i h.heap_start cs + 32) h
          ≡ done tt (record h { headers = m }))
        × IsHeap p (record h { headers = m }) (release i cs)
  kfree-IsHeap i lt =
      let (m, run, chain, outside) =
        kfree-release p h.heap_end s.bound i h h.heap_start cs lt s.pos s.chain s.mapped in
      (
        m,
        run,
        record {
          pos = s.pos;
          bound = s.bound;
          nonempty = length-release i cs s.nonempty;
          chain = chain;
          mapped = s.mapped;
          coalesced = is_coalesced-release i cs s.coalesced;
        },
      )

-- Freeing what `kmalloc` returned gives back the chunks from before, if some free chunk has the
-- rounded size, the rounding does not wrap and there is fuel for the walk.
pub kfree-kmalloc :
    {S : Type 0} (p : Paging S) (h : Heap S) (cs : List Chunk) (s : IsHeap p h cs)
    (walk fuel size : ℕ)
    → length cs < walk
    → size + 7 < 2 ^ 64
    → has_room (rounded size) cs ≡ true
    → (m : ℕ → Header) × (and_then (kmalloc p walk (suc fuel) size h) (kfree p)
        ≡ done tt (record h { headers = m }))
      × IsHeap p (record h { headers = m }) cs
kfree-kmalloc p h cs s walk fuel size enough small room =
    let n = rounded size in
    let (m, run, t) = kmalloc-take_first p h cs s walk fuel size enough small room in
    let (address, lt) = spot-place n h.heap_start cs room in
    let (k, run', u) =
      kfree-IsHeap p (record h { headers = m }) (take_first n cs) t (fit_index n cs) lt in
    rw (run, address)
      (
        k,
        run',
        subst (λ t. IsHeap p (record h { headers = k }) t)
            (release-take_first n cs room s.coalesced) u,
      )
