-- ===== src/Heap/Join.antt =====
-- memory/heap.cpp: two neighbouring chunks become one.
use mathlib.Core.Path.{subst}
use issanium.Prelude.{
  ℕ, ◌+◌, ◌^◌, ◌≤◌, ◌<◌, ◌≡◌, ◌≢◌, refl, ap, ◌∙◌, arith, false, ◌==◌, if◌then◌else◌, List, [], ◌∷◌,
  ◌⊎◌, inl, inr, Bool-cases,
}
use issanium.Prelude.Word.{u64}
use issanium.Prelude.Memory.{write, write_self, write_ne}
use issanium.Heap.{Header, Heap, Paging, done, join_chunks, merge_next, merge_prev}
use issanium.Heap.Gives.{Gives}
use issanium.Heap.Chain.{
  Chunk, chunk, head_at, header, Chain, Chain-end, Chain-frame, relink, relink_away, head_at-range,
  Chain-relink, Mapped, readable-Mapped, load-done, modify-done, set_prev-done,
}

-- A free chunk of `n` bytes in front of `cs`, merged with the next one if that is free.
abbrev pub absorbed : ℕ → List Chunk → ℕ
absorbed n [] = n
absorbed n (d ∷ ds) = if d.taken then n else n + (32 + d.bytes)

abbrev pub not_absorbed : List Chunk → List Chunk
not_absorbed [] = []
not_absorbed (d ∷ ds) = if d.taken then d ∷ ds else ds

abbrev pub absorb : ℕ → List Chunk → List Chunk
absorb n cs = chunk (absorbed n cs) false ∷ not_absorbed cs

-- `b` in front of the free chunk `c`.
abbrev pub lean : Chunk → Chunk → List Chunk → List Chunk
lean b c cs = if b.taken then b ∷ (c ∷ cs) else chunk (b.bytes + (32 + c.bytes)) false ∷ cs

module _ {S : Type 0} (p : Paging S) (end : ℕ) (bound : end < 2 ^ 63) where
  module _ (h : Heap S) (prev at : ℕ) (b c : Chunk) (cs : List Chunk) (pos : 0 < at)
      (chain : Chain h.headers prev at (b ∷ (c ∷ cs)) end) (mapped : Mapped p h.paging at end) where
    abbrev middle : ℕ
    middle = at + (32 + b.bytes)

    abbrev after : ℕ
    after = middle + (32 + c.bytes)

    room : after ≤ end
    room = omega (arith, Chain-end h.headers middle after cs end chain.1.1)

    -- The header on the right, as the list has it.
    abbrev right : Header
    right = header c.bytes c.taken (head_at after cs) at

    abbrev grown : ℕ → Header
    grown = write h.headers at (record (h.headers at) {
      size = u64 ((h.headers at).size + (32 + c.bytes));
      next = head_at after cs;
    })

    abbrev joined : ℕ → Header
    joined = relink grown (head_at after cs) at

    joined_away : (a : ℕ) → (a < after) ⊎ (end ≤ a) → joined a ≡ grown a
    joined_away a out = relink_away h.headers grown middle after at cs end a chain.1.1 out

    Chain-joined : Chain joined prev at (chunk (b.bytes + (32 + c.bytes)) b.taken ∷ cs) end
    Chain-joined =
        let e : at + (32 + (b.bytes + (32 + c.bytes))) ≡ after = omega arith in
        let sum : u64 (b.bytes + (32 + c.bytes)) ≡ b.bytes + (32 + c.bytes) = omega (arith, room) in
        rw e (
          joined_away at (omega arith)
              ∙ write_self h.headers at _
              ∙ ap
                  (λ (d : Header). record d {
                    size = u64 (d.size + (32 + c.bytes));
                    next = head_at after cs;
                  })
                  chain.0
              ∙ ap (λ t. header t b.taken (head_at after cs) prev) sum,
          Chain-relink grown middle after at cs end (omega arith) (
              Chain-frame h.headers grown middle after cs end
                (λ a lo hi. write_ne h.headers _ (omega (arith, lo))) chain.1.1),
        )

    pub join_chunks-Gives :
        Gives h prev end tt at
          (chunk (b.bytes + (32 + c.bytes)) b.taken ∷ cs)
          (join_chunks p at right h)
    unfolding join_chunks
    join_chunks-Gives =
        let ok = readable-Mapped p h.paging at end at mapped (omega arith) (omega (arith, room)) in
        let ok_after = (λ (ne : head_at after cs ≢ 0).
          let r = head_at-range h.headers middle after cs end chain.1.1 ne in
          readable-Mapped p h.paging at end (head_at after cs) mapped (omega (arith, r.0)) r.1) in
        rw
          (
            modify-done p h at ok
                (λ d. record d { size = u64 (d.size + (32 + c.bytes)); next = head_at after cs }),
            set_prev-done p (record h { headers = grown }) (head_at after cs) at ok_after,
          )
          (
            joined,
            refl,
            Chain-joined,
            λ a out.
                joined_away a (omega (arith, out))
                ∙ write_ne h.headers _ (omega (arith, out, room)),
          )

  pub merge_next-Gives :
      (h : Heap S) (prev at n : ℕ) (cs : List Chunk)
      → 0 < at
      → Chain h.headers prev at (chunk n false ∷ cs) end
      → Mapped p h.paging at end
      → Gives h prev end tt at (absorb n cs) (merge_next p at h)
  unfolding merge_next
  merge_next-Gives h prev at n [] pos chain mapped =
      let ok = readable-Mapped p h.paging at end at mapped (omega arith) (omega (arith, chain.1)) in
      rw (load-done p h at ok, chain.0) (h.headers, refl, chain, λ a out. refl)
  merge_next-Gives h prev at n (d ∷ ds) pos chain mapped =
      let next = at + (32 + n) in
      let room = Chain-end h.headers next (next + (32 + d.bytes)) ds end chain.1.1 in
      let nonnull : (next == 0) ≡ false = ground arith in
      let ok = readable-Mapped p h.paging at end at mapped (omega arith) (omega (arith, room)) in
      let ok_next =
        readable-Mapped p h.paging at end next mapped (omega arith) (omega (arith, room)) in
      rw (load-done p h at ok, chain.0, nonnull, load-done p h next ok_next, chain.1.0)
        (elim (Bool-cases d.taken) [
          | inl taken ↦ rw taken (
            h.headers,
            refl,
            (
              chain.0,
              (
                chain.1.0
                    ∙ ap (λ t. header d.bytes t (head_at (next + (32 + d.bytes)) ds) at) taken,
                chain.1.1,
              ),
            ),
            λ a out. refl,
          )
          | inr free ↦ rw free (
              subst
                (λ t.
                  Gives h prev end tt at (chunk (n + (32 + d.bytes)) false ∷ ds)
                    (join_chunks p at (header d.bytes t (head_at (next + (32 + d.bytes)) ds) at) h))
                free (join_chunks-Gives h prev at (chunk n false) d ds pos chain mapped))
        ])

  -- The first chunk of the heap has none before it.
  pub merge_prev_first :
      (h : Heap S) (at : ℕ) (c : Chunk) (cs : List Chunk)
      → Chain h.headers 0 at (c ∷ cs) end
      → Mapped p h.paging at end
      → merge_prev p at h ≡ done tt h
  unfolding merge_prev
  merge_prev_first h at c cs chain mapped =
      let room = Chain-end h.headers at (at + (32 + c.bytes)) cs end chain.1 in
      let ok = readable-Mapped p h.paging at end at mapped (omega arith) (omega (arith, room)) in
      rw (load-done p h at ok, chain.0) refl

  pub merge_prev-Gives :
      (h : Heap S) (prev at : ℕ) (b c : Chunk) (cs : List Chunk)
      → 0 < at
      → Chain h.headers prev at (b ∷ (c ∷ cs)) end
      → Mapped p h.paging at end
      → Gives h prev end tt at (lean b c cs) (merge_prev p (at + (32 + b.bytes)) h)
  unfolding merge_prev
  merge_prev-Gives h prev at b c cs pos chain mapped =
      let middle = at + (32 + b.bytes) in
      let room = Chain-end h.headers middle (middle + (32 + c.bytes)) cs end chain.1.1 in
      let nonnull : (at == 0) ≡ false = ground arith in
      let ok = readable-Mapped p h.paging at end at mapped (omega arith) (omega (arith, room)) in
      let ok_middle =
        readable-Mapped p h.paging at end middle mapped (omega arith) (omega (arith, room)) in
      rw (load-done p h middle ok_middle, chain.1.0, nonnull, load-done p h at ok, chain.0)
        (elim (Bool-cases b.taken) [
          | inl taken ↦ rw taken (
            h.headers,
            refl,
            (chain.0 ∙ ap (λ t. header b.bytes t middle prev) taken, chain.1),
            λ a out. refl,
          )
          | inr free ↦ rw free (
              subst
                (λ t. Gives h prev end tt at (chunk (b.bytes + (32 + c.bytes)) t ∷ cs) (
                  join_chunks p at
                    (header c.bytes c.taken (head_at (middle + (32 + c.bytes)) cs) at) h))
                free (join_chunks-Gives h prev at b c cs pos chain mapped))
        ])
