-- ===== src/Heap/Coalesced.antt =====
-- The lists of chunks of memory/heap.cpp: no two free neighbours, and freeing what was taken.
use issanium.Prelude.{
  ℕ, zero, suc, ◌+◌, ◌<◌, ◌≡◌, refl, ap, ◌∙◌, arith, Bool, true, false, ◌&&◌, ◌||◌, not, ltb, leb,
  if◌then◌else◌, List, [], ◌∷◌, length, inl, inr, Bool-cases,
}
use issanium.Heap.Chain.{Chunk}
use issanium.Heap.Take.{carve}
use issanium.Heap.Walk.{take_first, spot}
use issanium.Heap.Free.{release, place}

-- Of each two neighbours one is taken.
unfoldable pub is_coalesced : List Chunk → Bool
is_coalesced [] = true
is_coalesced (c ∷ []) = true
is_coalesced (c ∷ (d ∷ ds)) = (c.taken || d.taken) && is_coalesced (d ∷ ds)

-- Some free chunk has `size` bytes.
unfoldable pub has_room : ℕ → List Chunk → Bool
has_room size [] = false
has_room size (c ∷ cs) = not (c.taken || ltb c.bytes size) || has_room size cs

-- The index of the chunk that first fit takes.
unfoldable pub fit_index : ℕ → List Chunk → ℕ
fit_index size [] = 0
fit_index size (c ∷ cs) =
    let rest = fit_index size cs in if c.taken || ltb c.bytes size then suc rest else 0

pub is_coalesced-take_first :
    (size : ℕ) (cs : List Chunk) → is_coalesced cs ≡ true → is_coalesced (take_first size cs) ≡ true
unfolding is_coalesced take_first
is_coalesced-take_first size [] h = refl
is_coalesced-take_first size (c ∷ []) h = ground arith
is_coalesced-take_first size (c ∷ (d ∷ ds)) h =
    ground (arith, is_coalesced-take_first size (d ∷ ds))

abbrev head_taken : List Chunk → Bool
head_taken [] = true
head_taken (c ∷ cs) = c.taken

is_coalesced-cons :
    (b : Chunk) (cs : List Chunk)
    → is_coalesced (b ∷ cs) ≡ ((b.taken || head_taken cs) && is_coalesced cs)
unfolding is_coalesced
is_coalesced-cons b [] = ground arith
is_coalesced-cons b (c ∷ cs) = refl

head_taken-release :
    (i : ℕ) (c : Chunk) (cs : List Chunk) → head_taken (release (suc i) (c ∷ cs)) ≡ c.taken
unfolding release
head_taken-release zero c [] = refl
head_taken-release zero c (d ∷ ds) = ground arith
head_taken-release (suc i) c cs = refl

pub is_coalesced-release :
    (i : ℕ) (cs : List Chunk) → is_coalesced cs ≡ true → is_coalesced (release i cs) ≡ true
unfolding is_coalesced release
is_coalesced-release i [] h = refl
is_coalesced-release zero (c ∷ []) h = refl
is_coalesced-release zero (c ∷ (d ∷ [])) h = ground arith
is_coalesced-release zero (c ∷ (d ∷ (e ∷ es))) h = ground arith
is_coalesced-release (suc zero) (b ∷ []) h = refl
is_coalesced-release (suc zero) (b ∷ (c ∷ [])) h = ground arith
is_coalesced-release (suc zero) (b ∷ (c ∷ (d ∷ []))) h = ground arith
is_coalesced-release (suc zero) (b ∷ (c ∷ (d ∷ (e ∷ es)))) h = ground arith
is_coalesced-release (suc (suc i)) (b ∷ []) h = refl
is_coalesced-release (suc (suc i)) (b ∷ (c ∷ cs)) h = ground (
  arith,
  is_coalesced-cons b (c ∷ cs),
  is_coalesced-cons b (release (suc i) (c ∷ cs)),
  head_taken-release i c cs,
  is_coalesced-release (suc i) (c ∷ cs),
)

carve-absorb :
    (size : ℕ) (c : Chunk) (cs : List Chunk)
    → c.taken ≡ false
    → is_coalesced (c ∷ cs) ≡ true
    → release zero (carve size c cs) ≡ c ∷ cs
unfolding is_coalesced release
carve-absorb size c [] free h = ground arith
carve-absorb size c (d ∷ ds) free h = ground arith

release-carve_behind :
    (size : ℕ) (b c : Chunk) (cs : List Chunk)
    → b.taken ≡ true
    → release 1 (b ∷ carve size c cs) ≡ b ∷ release zero (carve size c cs)
unfolding release
release-carve_behind size b c cs taken = elim (Bool-cases (leb (size + 40) c.bytes)) [
  | inl big ↦ rw big (ground arith)
  | inr full ↦ rw full (ground arith)
]

-- Behind `b`: freeing what was taken leaves the list as it was.
release-take_first_behind :
    (size : ℕ) (b : Chunk) (cs : List Chunk)
    → has_room size cs ≡ true
    → is_coalesced (b ∷ cs) ≡ true
    → release (suc (fit_index size cs)) (b ∷ take_first size cs) ≡ b ∷ cs
unfolding is_coalesced release has_room fit_index take_first
release-take_first_behind size b [] room h = cc
release-take_first_behind size b (c ∷ cs) room h = elim (Bool-cases (c.taken || ltb c.bytes size)) [
  | inl skipped ↦
      rw skipped
        (ap (λ t. b ∷ t) (release-take_first_behind size c cs (ground arith) (ground arith)))
  | inr chosen ↦ rw chosen (
      release-carve_behind size b c cs (ground arith)
      ∙ ap (λ t. b ∷ t) (carve-absorb size c cs (ground arith) (ground arith)))
]

-- Freeing what first fit took gives back the list, if no two free chunks were neighbours.
pub release-take_first :
    (size : ℕ) (cs : List Chunk)
    → has_room size cs ≡ true
    → is_coalesced cs ≡ true
    → release (fit_index size cs) (take_first size cs) ≡ cs
unfolding has_room fit_index take_first
release-take_first size [] room h = cc
release-take_first size (c ∷ cs) room h = elim (Bool-cases (c.taken || ltb c.bytes size)) [
  | inl skipped ↦ rw skipped (release-take_first_behind size c cs (ground arith) h)
  | inr chosen ↦ rw chosen (carve-absorb size c cs (ground arith) h)
]

-- The pointer of first fit is behind the header of the chunk that it took.
pub spot-place :
    (size at : ℕ) (cs : List Chunk)
    → has_room size cs ≡ true
    → (spot size at cs ≡ place (fit_index size cs) at (take_first size cs) + 32)
      × (fit_index size cs < length (take_first size cs))
unfolding has_room fit_index take_first spot place
spot-place size at [] room = cc
spot-place size at (c ∷ cs) room = elim (Bool-cases (c.taken || ltb c.bytes size)) [
  | inl skipped ↦
      rw skipped (omega (arith, spot-place size (at + (32 + c.bytes)) cs (ground arith)))
  | inr chosen ↦ rw chosen (elim (Bool-cases (leb (size + 40) c.bytes)) [
    | inl big ↦ rw big (omega arith)
    | inr full ↦ rw full (omega arith)
  ])
]
