-- ===== src/Heap/Blocks.antt =====
-- memory/heap.cpp: the blocks that are handed out, in the list of chunks.
use mathlib.Core.Path.{subst}
use issanium.Prelude.{
  ℕ, zero, suc, ◌+◌, ◌≤◌, ◌<◌, ◌≡◌, ◌≢◌, refl, arith, true, false, ◌||◌, ltb, leb, List, [], ◌∷◌,
  length, ◌⊎◌, inl, inr, Bool-cases, leb→le,
}
use issanium.Heap.Chain.{Chunk, chunk, total}
use issanium.Heap.Take.{carve}
use issanium.Heap.Walk.{take_first, spot}
use issanium.Heap.Join.{absorb, absorbed, not_absorbed, lean}
use issanium.Heap.Free.{release, place}
use issanium.Heap.Coalesced.{has_room}

-- Of the chunks from `at` on, the one whose header is at `a` is handed out, and has `n` bytes.
abbrev pub Has : ℕ → List Chunk → ℕ → ℕ → Type 0
Has at [] a n = ⊥
Has at (c ∷ cs) a n =
    ((at ≡ a) × (c.taken ≡ true) × (c.bytes ≡ n)) ⊎ Has (at + (32 + c.bytes)) cs a n

pub Has-range :
    (at : ℕ) (cs : List Chunk) (a n : ℕ) → Has at cs a n → (at ≤ a) × (a + (32 + n) ≤ at + total cs)
Has-range at [] a n h = elim h [ ]
Has-range at (c ∷ cs) a n (inl here) = omega (arith, here)
Has-range at (c ∷ cs) a n (inr there) = omega (arith, Has-range (at + (32 + c.bytes)) cs a n there)

-- Two blocks are the same or lie apart, headers included.
pub Has-apart :
    (at : ℕ) (cs : List Chunk) (a n b k : ℕ)
    → Has at cs a n
    → Has at cs b k
    → a ≢ b
    → (a + (32 + n) ≤ b) ⊎ (b + (32 + k) ≤ a)
Has-apart at [] a n b k p q ne = elim p [ ]
Has-apart at (c ∷ cs) a n b k (inl p) (inl q) ne = absurd (omega (arith, p, q, ne))
Has-apart at (c ∷ cs) a n b k (inl p) (inr q) ne =
    omega (arith, p, Has-range (at + (32 + c.bytes)) cs b k q)
Has-apart at (c ∷ cs) a n b k (inr p) (inl q) ne =
    omega (arith, q, Has-range (at + (32 + c.bytes)) cs a n p)
Has-apart at (c ∷ cs) a n b k (inr p) (inr q) ne = Has-apart (at + (32 + c.bytes)) cs a n b k p q ne

-- A block is that of some chunk of the list.
pub Has-place :
    (at : ℕ) (cs : List Chunk) (a n : ℕ)
    → Has at cs a n
    → (i : ℕ) × (i < length cs) × (place i at cs ≡ a)
unfolding place
Has-place at [] a n h = elim h [ ]
Has-place at (c ∷ cs) a n (inl here) = (0, omega arith, here.0)
Has-place at (c ∷ cs) a n (inr there) =
    let (i, lt, e) = Has-place (at + (32 + c.bytes)) cs a n there in (suc i, omega (arith, lt), e)

Has-carve :
    (size at : ℕ) (c : Chunk) (cs : List Chunk) (a n : ℕ)
    → c.taken ≡ false
    → Has at (c ∷ cs) a n
    → Has at (carve size c cs) a n
Has-carve size at c cs a n free (inl here) = cc
Has-carve size at c cs a n free (inr there) = elim (Bool-cases (leb (size + 40) c.bytes)) [
  | inl big ↦ rw big (inr (inr (subst (λ t. Has t cs a n) (omega (arith, leb→le _ _ big)) there)))
  | inr full ↦ rw full (inr there)
]

-- First fit keeps the blocks that are out.
pub Has-take_first :
    (size at : ℕ) (cs : List Chunk) (a n : ℕ) → Has at cs a n → Has at (take_first size cs) a n
unfolding take_first
Has-take_first size at [] a n h = h
Has-take_first size at (c ∷ cs) a n (inl here) = elim (Bool-cases (c.taken || ltb c.bytes size)) [
  | inl skipped ↦ rw skipped (inl here)
  | inr chosen ↦ ground (arith, here)
]
Has-take_first size at (c ∷ cs) a n (inr there) = elim (Bool-cases (c.taken || ltb c.bytes size)) [
  | inl skipped ↦ rw skipped (inr (Has-take_first size (at + (32 + c.bytes)) cs a n there))
  | inr chosen ↦ rw chosen (Has-carve size at c cs a n (ground arith) (inr there))
]

-- The block that first fit hands out: it has room for the request, and was not out before.
pub record IsFresh (size at : ℕ) (cs : List Chunk) (a n : ℕ) : Type 0 where
  pub pointer : spot size at cs ≡ a + 32
  pub enough : size ≤ n
  pub after : Has at (take_first size cs) a n
  pub before : (k : ℕ) → ¬ Has at cs a k

carve-IsFresh :
    (size at : ℕ) (c : Chunk) (cs : List Chunk)
    → c.taken ≡ false
    → size ≤ c.bytes
    → (n : ℕ) × (size ≤ n) × Has at (carve size c cs) at n
carve-IsFresh size at c cs free fits = elim (Bool-cases (leb (size + 40) c.bytes)) [
  | inl big ↦ rw big (size, omega arith, inl (refl, refl, refl))
  | inr full ↦ rw full (c.bytes, fits, inl (refl, refl, refl))
]

pub take_first-IsFresh :
    (size at : ℕ) (cs : List Chunk) → has_room size cs ≡ true → (a n : ℕ) × IsFresh size at cs a n
unfolding take_first spot has_room
take_first-IsFresh size at [] room = cc
take_first-IsFresh size at (c ∷ cs) room = elim (Bool-cases (c.taken || ltb c.bytes size)) [
  | inl skipped ↦
      let next = at + (32 + c.bytes) in
      let (a, n, f) = take_first-IsFresh size next cs (ground arith) in
      let lo = Has-range next (take_first size cs) a n f.after in
      (
        a,
        n,
        record {
          pointer = rw skipped f.pointer;
          enough = f.enough;
          after = rw skipped (inr f.after);
          before =
              λ k h. elim h [ inl here ↦ omega (arith, here, lo) | inr there ↦ f.before k there ];
        },
      )
  | inr chosen ↦
      let (n, enough, h) = carve-IsFresh size at c cs (ground arith) (ground arith) in
      (
        at,
        n,
        record {
          pointer = rw chosen refl;
          enough = enough;
          after = rw chosen h;
          before = λ k h. elim h [
            | inl here ↦ ground (arith, here)
            | inr there ↦ omega (arith, Has-range (at + (32 + c.bytes)) cs at k there)
          ];
        },
      )
]

Has-absorb :
    (at : ℕ) (c : Chunk) (cs : List Chunk) (a n : ℕ)
    → at ≢ a
    → Has at (c ∷ cs) a n
    → Has at (absorb c.bytes cs) a n
Has-absorb at c cs a n ne (inl here) = absurd (ne here.0)
Has-absorb at c [] a n ne (inr there) = inr there
Has-absorb at c (d ∷ ds) a n ne (inr (inl here)) = rw here.1 (inr (inl (here.0, refl, here.2)))
Has-absorb at c (d ∷ ds) a n ne (inr (inr there)) = elim (Bool-cases d.taken) [
  | inl taken ↦ rw taken (inr (inr there))
  | inr free ↦ rw free (inr (subst (λ t. Has t ds a n) (omega arith) there))
]

Has-lean :
    (at : ℕ) (b c : Chunk) (cs : List Chunk) (a n : ℕ)
    → c.taken ≡ false
    → Has at (b ∷ (c ∷ cs)) a n
    → Has at (lean b c cs) a n
Has-lean at b c cs a n free (inl here) = rw here.1 (inl (here.0, refl, here.2))
Has-lean at b c cs a n free (inr (inl here)) = cc
Has-lean at b c cs a n free (inr (inr there)) = elim (Bool-cases b.taken) [
  | inl taken ↦ rw taken (inr (inr there))
  | inr joined ↦ rw joined (inr (subst (λ t. Has t cs a n) (omega arith) there))
]

-- Freeing a chunk keeps every other block.
pub Has-release :
    (i at : ℕ) (cs : List Chunk) (a n : ℕ)
    → place i at cs ≢ a
    → Has at cs a n
    → Has at (release i cs) a n
unfolding release place
Has-release i at [] a n ne h = h
Has-release zero at (c ∷ cs) a n ne h = Has-absorb at c cs a n ne h
Has-release (suc zero) at (b ∷ []) a n ne h = h
Has-release (suc zero) at (b ∷ (c ∷ cs)) a n ne (inl here) =
    Has-lean at b (chunk (absorbed c.bytes cs) false) (not_absorbed cs) a n refl (inl here)
Has-release (suc zero) at (b ∷ (c ∷ cs)) a n ne (inr there) =
    Has-lean at b (chunk (absorbed c.bytes cs) false) (not_absorbed cs) a n refl
      (inr (Has-absorb (at + (32 + b.bytes)) c cs a n ne there))
Has-release (suc (suc i)) at (b ∷ cs) a n ne (inl here) = inl here
Has-release (suc (suc i)) at (b ∷ cs) a n ne (inr there) =
    inr (Has-release (suc i) (at + (32 + b.bytes)) cs a n ne there)
