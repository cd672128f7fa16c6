-- ===== src/Heap/Walk.antt =====
-- memory/heap.cpp: the walk of `kmalloc` finds the first chunk that fits.
use issanium.Prelude.{
  ℕ, zero, suc, ◌+◌, ◌^◌, ◌<◌, ◌≡◌, refl, arith, false, ◌||◌, ltb, ◌==◌, if◌then◌else◌, List, [],
  ◌∷◌, length, inl, inr, Bool-cases,
}
use issanium.Heap.{Heap, Paging, search_chunk}
use issanium.Heap.Gives.{Gives, Gives-cons}
use issanium.Heap.Take.{carve, take_chunk-Gives}
use issanium.Heap.Chain.{Chunk, head_at, Chain, Chain-end, Mapped, readable-Mapped, load-done}

-- First fit.
unfoldable pub take_first : ℕ → List Chunk → List Chunk
take_first size [] = []
take_first size (c ∷ cs) =
    let rest = take_first size cs in
    if c.taken || ltb c.bytes size then c ∷ rest else carve size c cs

-- The pointer that first fit gives, for chunks from `at` on; 0 if none fits.
unfoldable pub spot : ℕ → ℕ → List Chunk → ℕ
spot size at [] = 0
spot size at (c ∷ cs) =
    let rest = spot size (at + (32 + c.bytes)) cs in
    if c.taken || ltb c.bytes size then rest else at + 32

head_at-take_first :
    (size at : ℕ) (cs : List Chunk) → head_at at (take_first size cs) ≡ head_at at cs
unfolding take_first
head_at-take_first size at [] = refl
head_at-take_first size at (c ∷ cs) = ground arith

module _ {S : Type 0} (p : Paging S) (end size : ℕ) (bound : end < 2 ^ 63) where
  -- The walk gives what first fit gives, and leaves the chunks that first fit leaves.
  pub search_chunk-take_first :
      (fuel prev at : ℕ) (cs : List Chunk) (h : Heap S)
      → length cs < fuel
      → 0 < at
      → Chain h.headers prev at cs end
      → Mapped p h.paging at end
      → Gives h prev end
          (spot size at cs)
          at
          (take_first size cs)
          (search_chunk p fuel size (head_at at cs) h)
  unfolding search_chunk take_first spot
  search_chunk-take_first zero prev at cs h fuel pos chain mapped = absurd (omega arith)
  search_chunk-take_first (suc n) prev at [] h fuel pos chain mapped =
      (h.headers, refl, chain, λ a out. refl)
  search_chunk-take_first (suc n) prev at (c ∷ cs) h fuel pos chain mapped =
      let after = at + (32 + c.bytes) in
      let room = Chain-end h.headers at after cs end chain.1 in
      let nonnull : (at == 0) ≡ false = ground arith in
      let ok = readable-Mapped p h.paging at end at mapped (omega arith) (omega (arith, room)) in
      rw (nonnull, load-done p h at ok, chain.0)
        (elim (Bool-cases (c.taken || ltb c.bytes size)) [
          | inl skipped ↦ rw skipped (
              Gives-cons h prev at end c (take_first size cs) cs pos chain
                (head_at-take_first size after cs)
                (search_chunk-take_first n at after cs h (omega arith) (omega arith) chain.1
                  (λ a lo hi. mapped a (omega (arith, lo)) hi)))
          | inr chosen ↦
              rw chosen
                (take_chunk-Gives p h prev end bound size at c cs pos chain mapped (ground arith))
        ])
