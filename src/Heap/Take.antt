-- ===== src/Heap/Take.antt =====
-- memory/heap.cpp: the walk of `kmalloc` takes the first chunk that fits, and splits it.
use issanium.Prelude.{
  ℕ, ◌+◌, ◌-◌, ◌^◌, ◌≤◌, ◌<◌, ◌≡◌, ◌≢◌, refl, ap, ◌∙◌, arith, true, false, leb, if◌then◌else◌, List,
  ◌∷◌, ◌⊎◌, inl, inr, Bool-cases,
}
use issanium.Prelude.Word.{u64, sub64}
use issanium.Prelude.Memory.{write, write_self, write_ne}
use issanium.Heap.{Header, Heap, Paging, done, split, take_chunk}
use issanium.Heap.Gives.{Gives}
use issanium.Heap.Chain.{
  Chunk, chunk, head_at, header, Chain, Chain-end, Chain-frame, relink, relink_away, head_at-range,
  Chain-relink, Mapped, readable-Mapped, store-done, modify-done, set_prev-done,
}

-- A free chunk `c` as it is handed out for `size` bytes: split if a header and 8 bytes are left.
abbrev pub carve : ℕ → Chunk → List Chunk → List Chunk
carve size c cs =
    if leb (size + 40) c.bytes
    then chunk size true ∷ (chunk (c.bytes - size - 32) false ∷ cs)
    else chunk c.bytes true ∷ cs

module _ {S : Type 0} (p : Paging S) (h : Heap S) (prev end : ℕ) (bound : end < 2 ^ 63) where
  module _ (size at : ℕ) (c : Chunk) (cs : List Chunk) (pos : 0 < at)
      (chain : Chain h.headers prev at (c ∷ cs) end) (mapped : Mapped p h.paging at end)
      (fits : size ≤ c.bytes) where
    abbrev after : ℕ
    after = at + (32 + c.bytes)

    room : after ≤ end
    room = omega (arith, Chain-end h.headers at after cs end chain.1)

    whole :
        leb (size + 40) c.bytes ≡ false
        → Gives h prev end
            (at + 32)
            at
            (chunk c.bytes true ∷ cs)
            (take_chunk p size at (header c.bytes c.taken (head_at after cs) prev) h)
    unfolding take_chunk
    whole full =
        let small : leb (u64 (size + 32 + 8)) c.bytes ≡ false = ground (arith, room, full) in
        let ok = readable-Mapped p h.paging at end at mapped (omega arith) (omega (arith, room)) in
        rw (small, modify-done p h at ok)
          (
            write h.headers at (record (h.headers at) { used = true }),
            ap
                (λ u. done u (record h {
                  headers = write h.headers at (record (h.headers at) { used = true });
                }))
                (omega (arith, room)),
            (
              write_self h.headers at _ ∙ ap (λ (d : Header). record d { used = true }) chain.0,
              Chain-frame h.headers _ at after cs end
                  (λ a lo hi. write_ne h.headers _ (omega (arith, lo))) chain.1,
            ),
            λ a out. write_ne h.headers _ (omega (arith, out, room)),
          )

    abbrev new_at : ℕ
    new_at = at + (32 + size)

    abbrev new_header : Header
    new_header = header (c.bytes - size - 32) false (head_at after cs) at

    -- The headers after each write of `split`, and after the chunk is marked.
    abbrev stored : ℕ → Header
    stored = write h.headers new_at new_header

    abbrev linked : ℕ → Header
    linked = relink stored (head_at after cs) new_at

    abbrev cut : ℕ → Header
    cut = write linked at (record (linked at) { next = new_at; size = size })

    abbrev marked : ℕ → Header
    marked = write cut at (record (cut at) { used = true })

    split-done :
        leb (size + 40) c.bytes ≡ true
        → split p size at (header c.bytes c.taken (head_at after cs) prev) h
          ≡ done tt (record h { headers = cut })
    unfolding split
    split-done big =
        let fit : size + 40 ≤ c.bytes = ground (arith, big) in
        let new : u64 (at + 32 + size) ≡ new_at = omega (arith, room) in
        let rest : sub64 (sub64 c.bytes size) 32 ≡ c.bytes - size - 32 = omega (arith, room) in
        let ok_new =
          readable-Mapped p h.paging at end new_at mapped (omega arith) (omega (arith, room)) in
        let ok = readable-Mapped p h.paging at end at mapped (omega arith) (omega (arith, room)) in
        let ok_after = (λ (ne : head_at after cs ≢ 0).
          let r = head_at-range h.headers at after cs end chain.1 ne in
          readable-Mapped p h.paging at end (head_at after cs) mapped (omega (arith, r.0)) r.1) in
        rw
          (
            new,
            rest,
            store-done p h new_at ok_new new_header,
            set_prev-done p (record h { headers = stored }) (head_at after cs) new_at ok_after,
            modify-done p (record h { headers = linked }) at ok
                (λ d. record d { next = new_at; size = size }),
          )
          refl

    linked_away : (a : ℕ) → (a < after) ⊎ (end ≤ a) → linked a ≡ stored a
    linked_away a out = relink_away h.headers stored at after new_at cs end a chain.1 out

    linked-at : linked at ≡ h.headers at
    linked-at = linked_away at (omega arith) ∙ write_ne h.headers new_header (omega arith)

    marked_ne : (a : ℕ) → at ≢ a → marked a ≡ linked a
    marked_ne a ne = write_ne cut {a = at} {b = a} _ ne ∙ write_ne linked {a = at} {b = a} _ ne

    marked-outside : (a : ℕ) → (a < at) ⊎ (end ≤ a) → size + 40 ≤ c.bytes → marked a ≡ h.headers a
    marked-outside a out fit =
        marked_ne a (omega (arith, out, room))
        ∙ linked_away a (omega (arith, out))
        ∙ write_ne h.headers new_header (omega (arith, out, room))

    Chain-marked : size + 40 ≤ c.bytes → Chain marked prev at (carve size c cs) end
    Chain-marked fit =
        let big : leb (size + 40) c.bytes ≡ true = ground arith in
        let e : new_at + (32 + (c.bytes - size - 32)) ≡ after = omega arith in
        rw (big, e)
          (
            write_self cut at _
                ∙ ap (λ (d : Header). record d { used = true })
                    (write_self linked at _
                      ∙ ap (λ (d : Header). record d { next = new_at; size = size })
                          (linked-at ∙ chain.0)),
            (
              marked_ne new_at (omega arith)
                  ∙ linked_away new_at (omega arith)
                  ∙ write_self h.headers new_at new_header,
              Chain-frame linked marked new_at after cs end
                  (λ a lo hi. marked_ne a (omega (arith, lo)))
                  (Chain-relink stored at after new_at cs end (omega arith) (
                    Chain-frame h.headers stored at after cs end
                      (λ a lo hi. write_ne h.headers new_header (omega (arith, lo))) chain.1)),
            ),
          )

    divided :
        leb (size + 40) c.bytes ≡ true
        → Gives h prev end
            (at + 32)
            at
            (carve size c cs)
            (take_chunk p size at (header c.bytes c.taken (head_at after cs) prev) h)
    unfolding take_chunk
    divided big =
        let fit : size + 40 ≤ c.bytes = ground (arith, big) in
        let large : leb (u64 (size + 32 + 8)) c.bytes ≡ true = ground (arith, room, big) in
        let ok = readable-Mapped p h.paging at end at mapped (omega arith) (omega (arith, room)) in
        rw
          (
            large,
            split-done big,
            modify-done p (record h { headers = cut }) at ok (λ d. record d { used = true }),
          )
          (
            marked,
            ap (λ u. done u (record h { headers = marked })) (omega (arith, room)),
            Chain-marked fit,
            λ a out. marked-outside a out fit,
          )

  -- The chunk that the walk settles on.
  pub take_chunk-Gives :
      (size at : ℕ) (c : Chunk) (cs : List Chunk)
      → 0 < at
      → Chain h.headers prev at (c ∷ cs) end
      → Mapped p h.paging at end
      → size ≤ c.bytes
      → Gives h prev end
          (at + 32)
          at
          (carve size c cs)
          (take_chunk p size at (header c.bytes c.taken (head_at (at + (32 + c.bytes)) cs) prev) h)
  take_chunk-Gives size at c cs pos chain mapped fits =
      elim (Bool-cases (leb (size + 40) c.bytes)) [
        | inl big ↦ divided size at c cs pos chain mapped fits big
        | inr full ↦ rw full (whole size at c cs pos chain mapped fits full)
      ]
