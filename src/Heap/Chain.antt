-- ===== src/Heap/Chain.antt =====
-- What the headers of memory/heap.cpp stand for: chunks that tile a range of addresses.
use issanium.Prelude.{
  ℕ, ◌+◌, ◌≤◌, ◌<◌, ◌≡◌, ◌≢◌, refl, ap, ◌∙◌, arith, Bool, true, false, ◌==◌, if◌then◌else◌, List,
  [], ◌∷◌, ◌⊎◌,
}
use issanium.Prelude.Memory.{write, write_self}
use issanium.Heap.{Header, Heap, Paging, done, load, store, modify, set_prev, readable}

-- A chunk: the bytes behind its header, and whether they are handed out.
pub record Chunk : Type 0 where
  pub bytes : ℕ
  pub taken : Bool

abbrev pub chunk : ℕ → Bool → Chunk
chunk n b = record { bytes = n; taken = b }

-- The pointer to the first of `cs`, which stand at `at`.
abbrev pub head_at : ℕ → List Chunk → ℕ
head_at at [] = 0
head_at at (c ∷ cs) = at

abbrev pub header : ℕ → Bool → ℕ → ℕ → Header
header n b next prev = record { size = n; used = b; next = next; prev = prev }

-- From `at` on, behind the chunk at `prev`, the headers link `cs` one after another up to `end`.
abbrev pub Chain : (ℕ → Header) → ℕ → ℕ → List Chunk → ℕ → Type 0
Chain m prev at [] end = at ≡ end
Chain m prev at (c ∷ cs) end =
    (m at ≡ header c.bytes c.taken (head_at (at + (32 + c.bytes)) cs) prev)
    × Chain m at (at + (32 + c.bytes)) cs end

abbrev pub total : List Chunk → ℕ
total [] = 0
total (c ∷ cs) = 32 + c.bytes + total cs

pub Chain-end :
    (m : ℕ → Header) (prev at : ℕ) (cs : List Chunk) (end : ℕ)
    → Chain m prev at cs end
    → at + total cs ≡ end
Chain-end m prev at [] end h = omega (arith, h)
Chain-end m prev at (c ∷ cs) end h = omega (arith, Chain-end m at (at + (32 + c.bytes)) cs end h.1)

-- A chain depends on the headers of its own range alone.
pub Chain-frame :
    (m n : ℕ → Header) (prev at : ℕ) (cs : List Chunk) (end : ℕ)
    → ((a : ℕ) → at ≤ a → a < end → n a ≡ m a)
    → Chain m prev at cs end
    → Chain n prev at cs end
Chain-frame m n prev at [] end same h = h
Chain-frame m n prev at (c ∷ cs) end same h = (
  same at (omega arith) (omega (arith, Chain-end m at (at + (32 + c.bytes)) cs end h.1)) ∙ h.0,
  Chain-frame m n at (at + (32 + c.bytes)) cs end (λ a lo hi. same a (omega (arith, lo)) hi) h.1,
)

-- `m` after `if (head) head->prev = q;`
abbrev pub relink : (ℕ → Header) → ℕ → ℕ → ℕ → Header
relink m head q = if head == 0 then m else write m head (record (m head) { prev = q })

relink_self : (m : ℕ → Header) (at q : ℕ) → 0 < at → relink m at q at ≡ record (m at) { prev = q }
relink_self m at q pos =
    let nonnull : (at == 0) ≡ false = ground arith in rw nonnull (write_self m at _)

pub relink_ne : (m : ℕ → Header) (at q a : ℕ) → at ≢ a → relink m at q a ≡ m a
relink_ne m at q a ne = ground arith

pub Chain-relink :
    (m : ℕ → Header) (prev at q : ℕ) (cs : List Chunk) (end : ℕ)
    → 0 < at
    → Chain m prev at cs end
    → Chain (relink m (head_at at cs) q) q at cs end
Chain-relink m prev at q [] end pos h = h
Chain-relink m prev at q (c ∷ cs) end pos h = (
  relink_self m at q pos ∙ ap (λ (d : Header). record d { prev = q }) h.0,
  Chain-frame m (relink m at q) at (at + (32 + c.bytes)) cs end
      (λ a lo hi. relink_ne m at q a (omega (arith, lo))) h.1,
)

-- A pointer to the first chunk is null or stands in the range.
pub head_at-range :
    (m : ℕ → Header) (prev at : ℕ) (cs : List Chunk) (end : ℕ)
    → Chain m prev at cs end
    → head_at at cs ≢ 0
    → (at ≤ head_at at cs) × (head_at at cs + 32 ≤ end)
head_at-range m prev at [] end h ne = absurd (ne refl)
head_at-range m prev at (c ∷ cs) end h ne =
    omega (arith, Chain-end m at (at + (32 + c.bytes)) cs end h.1)

-- The link back changes nothing outside the range.
pub relink_away :
    (m n : ℕ → Header) (prev at q : ℕ) (cs : List Chunk) (end a : ℕ)
    → Chain m prev at cs end
    → (a < at) ⊎ (end ≤ a)
    → relink n (head_at at cs) q a ≡ n a
relink_away m n prev at q [] end a h out = refl
relink_away m n prev at q (c ∷ cs) end a h out =
    relink_ne n at q a (omega (arith, out, Chain-end m at (at + (32 + c.bytes)) cs end h.1))

module _ {S : Type 0} (p : Paging S) where
  -- Every address from `at` to `end` can be accessed.
  abbrev pub Mapped : S → ℕ → ℕ → Type 0
  Mapped s at end = (a : ℕ) → at ≤ a → a < end → p.mapped s a ≡ true

  pub readable-Mapped :
      (s : S) (at end a : ℕ) → Mapped s at end → at ≤ a → a + 32 ≤ end → readable p s a ≡ true
  readable-Mapped s at end a m lo hi =
      ground (arith, m a lo (omega arith), m (a + 31) (omega arith) (omega arith))

  module _ (h : Heap S) (a : ℕ) (ok : readable p h.paging a ≡ true) where
    pub load-done : load p a h ≡ done (h.headers a) h
    unfolding load
    load-done = rw ok refl

    pub store-done :
        (v : Header) → store p a v h ≡ done tt (record h { headers = write h.headers a v })
    unfolding store
    store-done v = rw ok refl

    pub modify-done :
        (f : Header → Header)
        → modify p a f h ≡ done tt (record h { headers = write h.headers a (f (h.headers a)) })
    modify-done f = rw load-done (store-done (f (h.headers a)))

  pub set_prev-done :
      (h : Heap S) (a v : ℕ)
      → (a ≢ 0 → readable p h.paging a ≡ true)
      → set_prev p a v h ≡ done tt (record h { headers = relink h.headers a v })
  unfolding set_prev load store
  set_prev-done h a v ok = ground (arith, ok)
