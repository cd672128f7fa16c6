-- ===== src/Heap/Free.antt =====
-- memory/heap.cpp: `kfree` of a chunk, wherever it stands.
use issanium.Prelude.{
  ℕ, zero, suc, ◌+◌, ◌^◌, ◌<◌, ◌≡◌, refl, ap, ◌∙◌, arith, false, ◌==◌, List, [], ◌∷◌, length,
}
use issanium.Prelude.Word.{sub64}
use issanium.Prelude.Memory.{write, write_self, write_ne}
use issanium.Heap.{Header, Heap, Paging, kfree}
use issanium.Heap.Gives.{Gives, Gives-cons}
use issanium.Heap.Join.{
  absorb, absorbed, not_absorbed, lean, merge_next-Gives, merge_prev_first, merge_prev-Gives,
}
use issanium.Heap.Chain.{
  Chunk, chunk, head_at, Chain, Chain-end, Chain-frame, Mapped, readable-Mapped, modify-done,
}

-- The list after chunk `i` is freed: it merges with the next one, and then with the one before.
unfoldable pub release : ℕ → List Chunk → List Chunk
release i [] = []
release zero (c ∷ cs) = absorb c.bytes cs
release (suc zero) (b ∷ []) = b ∷ []
release (suc zero) (b ∷ (c ∷ cs)) = lean b (chunk (absorbed c.bytes cs) false) (not_absorbed cs)
release (suc (suc i)) (b ∷ cs) = b ∷ release (suc i) cs

-- Where the header of chunk `i` stands.
unfoldable pub place : ℕ → ℕ → List Chunk → ℕ
place i at [] = 0
place zero at (c ∷ cs) = at
place (suc i) at (c ∷ cs) = place i (at + (32 + c.bytes)) cs

head_at-lean : (at : ℕ) (b c : Chunk) (cs : List Chunk) → head_at at (lean b c cs) ≡ at
head_at-lean at b c cs = ground arith

head_at-release :
    (i at : ℕ) (c : Chunk) (cs : List Chunk) → head_at at (release (suc i) (c ∷ cs)) ≡ at
unfolding release
head_at-release zero at c [] = refl
head_at-release zero at c (d ∷ ds) = head_at-lean at c _ _
head_at-release (suc i) at c cs = refl

module _ {S : Type 0} (p : Paging S) (end : ℕ) (bound : end < 2 ^ 63) where
  -- The first two steps of `kfree` at the chunk `c`.
  abbrev cleared : Heap S → ℕ → ℕ → Header
  cleared h at = write h.headers at (record (h.headers at) { used = false })

  Chain-cleared :
      (h : Heap S) (prev at : ℕ) (c : Chunk) (cs : List Chunk)
      → Chain h.headers prev at (c ∷ cs) end
      → Chain (cleared h at) prev at (chunk c.bytes false ∷ cs) end
  Chain-cleared h prev at c cs chain = (
    write_self h.headers at _ ∙ ap (λ (d : Header). record d { used = false }) chain.0,
    Chain-frame h.headers (cleared h at) at (at + (32 + c.bytes)) cs end
        (λ a lo hi. write_ne h.headers {a = at} {b = a} _ (omega (arith, lo))) chain.1,
  )

  kfree_first :
      (h : Heap S) (at : ℕ) (c : Chunk) (cs : List Chunk)
      → 0 < at
      → Chain h.headers 0 at (c ∷ cs) end
      → Mapped p h.paging at end
      → Gives h 0 end tt at (absorb c.bytes cs) (kfree p (at + 32) h)
  unfolding kfree
  kfree_first h at c cs pos chain mapped =
      let room = Chain-end h.headers at (at + (32 + c.bytes)) cs end chain.1 in
      let ok = readable-Mapped p h.paging at end at mapped (omega arith) (omega (arith, room)) in
      let nonnull : (at + 32 == 0) ≡ false = ground arith in
      let back : sub64 (at + 32) 32 ≡ at = omega (arith, room) in
      let (m, run, rest, outside) =
        merge_next-Gives p end bound (record h { headers = cleared h at }) 0 at c.bytes cs pos
          (Chain-cleared h 0 at c cs chain) mapped in
      rw
        (
          nonnull,
          back,
          modify-done p h at ok (λ d. record d { used = false }),
          run,
          merge_prev_first p end bound (record h { headers = m }) at _ _ rest mapped,
        )
        (
          m,
          refl,
          rest,
          λ a out. outside a out ∙ write_ne h.headers {a = at} {b = a} _ (omega (arith, out, room)),
        )

  kfree_second :
      (h : Heap S) (prev at : ℕ) (b c : Chunk) (cs : List Chunk)
      → 0 < at
      → Chain h.headers prev at (b ∷ (c ∷ cs)) end
      → Mapped p h.paging at end
      → Gives h prev end tt at
          (lean b (chunk (absorbed c.bytes cs) false) (not_absorbed cs))
          (kfree p (at + (32 + b.bytes) + 32) h)
  unfolding kfree
  kfree_second h prev at b c cs pos chain mapped =
      let x = at + (32 + b.bytes) in
      let room = Chain-end h.headers x (x + (32 + c.bytes)) cs end chain.1.1 in
      let ok = readable-Mapped p h.paging at end x mapped (omega arith) (omega (arith, room)) in
      let nonnull : (x + 32 == 0) ≡ false = ground arith in
      let back : sub64 (x + 32) 32 ≡ x = omega (arith, room) in
      let (m, run, rest, outside) =
        merge_next-Gives p end bound (record h { headers = cleared h x }) at x c.bytes cs
          (omega arith) (Chain-cleared h at x c cs chain.1)
          (λ a lo hi. mapped a (omega (arith, lo)) hi) in
      let (n, run', rest', outside') =
        merge_prev-Gives p end bound (record h { headers = m }) prev at b
          (chunk (absorbed c.bytes cs) false) (not_absorbed cs) pos
          (
            outside at (omega arith)
                ∙ write_ne h.headers {a = x} {b = at} _ (omega arith)
                ∙ chain.0,
            rest,
          )
          mapped in
      rw (nonnull, back, modify-done p h x ok (λ d. record d { used = false }), run, run')
        (
          n,
          refl,
          rest',
          λ a out.
              outside' a out
              ∙ outside a (omega (arith, out))
              ∙ write_ne h.headers {a = x} {b = a} _ (omega (arith, out, room)),
        )

  kfree_behind :
      (i : ℕ) (h : Heap S) (prev at : ℕ) (b : Chunk) (cs : List Chunk)
      → i < length cs
      → 0 < at
      → Chain h.headers prev at (b ∷ cs) end
      → Mapped p h.paging at end
      → Gives h prev end tt at
          (release (suc i) (b ∷ cs))
          (kfree p (place i (at + (32 + b.bytes)) cs + 32) h)
  unfolding release place
  kfree_behind i h prev at b [] lt pos chain mapped = absurd (omega arith)
  kfree_behind zero h prev at b (c ∷ cs) lt pos chain mapped =
      kfree_second h prev at b c cs pos chain mapped
  kfree_behind (suc i) h prev at b (c ∷ cs) lt pos chain mapped =
      Gives-cons h prev at end b (release (suc i) (c ∷ cs)) (c ∷ cs) pos chain
        (head_at-release i (at + (32 + b.bytes)) c cs)
        (kfree_behind i h at (at + (32 + b.bytes)) c cs (omega arith) (omega arith) chain.1
          (λ a lo hi. mapped a (omega (arith, lo)) hi))

  -- `kfree` of chunk `i` of the heap: no fault, and the list is that of `release`.
  pub kfree-release :
      (i : ℕ) (h : Heap S) (at : ℕ) (cs : List Chunk)
      → i < length cs
      → 0 < at
      → Chain h.headers 0 at cs end
      → Mapped p h.paging at end
      → Gives h 0 end tt at (release i cs) (kfree p (place i at cs + 32) h)
  unfolding release place
  kfree-release i h at [] lt pos chain mapped = absurd (omega arith)
  kfree-release zero h at (c ∷ cs) lt pos chain mapped = kfree_first h at c cs pos chain mapped
  kfree-release (suc i) h at (c ∷ cs) lt pos chain mapped =
      kfree_behind i h 0 at c cs (omega arith) pos chain mapped
