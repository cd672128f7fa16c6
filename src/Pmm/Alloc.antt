-- ===== src/Pmm/Alloc.antt =====
-- `alloc` and `free` of memory/pmm.cpp: which page is handed out, and what changes.
use issanium.Prelude.{
  ℕ, zero, suc, ◌+◌, ◌*◌, ◌/◌, ◌≤◌, ◌<◌, ◌≡◌, refl, ap, sym, ◌∙◌, true, false, not, ◌||◌, ◌&&◌,
  arith, ◌==◌, ◌⊎◌, inl, inr, Bool-cases,
}
use issanium.Prelude.Word.{u64, sub64}
use issanium.Pmm.{Pmm, bitmap_set, bitmap_clear, bitmap_test, alloc_from, alloc, free}
use issanium.Pmm.Bitmap.{bitmap_test-bitmap_set, bitmap_test-bitmap_clear}
use issanium.Pmm.Count.{
  IsValid, free_below, free_below-le, free_below-same, free_below-bitmap_set,
  free_below-bitmap_clear,
}

-- Nothing but the bitmap and the counter differs.
abbrev pub SameFields : Pmm → Pmm → Type 0
SameFields s t = (t.bitmap ≡ s.bitmap) × (t.total_pages ≡ s.total_pages) × (t.hhdm ≡ s.hhdm)

-- Page `i` is the lowest free one of those from `lo` to `hi`, and the call took it.
pub record Takes (lo hi i : ℕ) (s : Pmm) (r : ℕ × Pmm) : Type 0 where
  pub range : (lo ≤ i) × (i < hi)
  pub was_free : bitmap_test i s ≡ false
  pub lowest : (q : ℕ) → lo ≤ q → q < i → bitmap_test q s ≡ true
  pub address : r.0 ≡ i * 4096
  pub bits : (q : ℕ) → bitmap_test q r.1 ≡ ((i == q) || bitmap_test q s)
  pub fewer : r.1.free_pages + 1 ≡ s.free_pages
  pub fields : SameFields s r.1

-- No page from `lo` to `hi` is free: the call returns null and changes nothing.
abbrev pub Full : ℕ → ℕ → Pmm → ℕ × Pmm → Type 0
Full lo hi s r = ((q : ℕ) → lo ≤ q → q < hi → bitmap_test q s ≡ true) × (r ≡ (0, s))

abbrev pub Allocates : ℕ → ℕ → Pmm → ℕ × Pmm → Type 0
Allocates lo hi s r = ((i : ℕ) × Takes lo hi i s r) ⊎ Full lo hi s r

pub some_free : (n i : ℕ) (s : Pmm) → i < n → bitmap_test i s ≡ false → 0 < free_below n s
some_free n i s h free = omega (arith, free_below-bitmap_set n i s h free)

-- The counter does not matter to the bitmap.
pub bitmap_test-words :
    (i q k : ℕ) (s : Pmm)
    → bitmap_test q (record (bitmap_set i s) { free_pages = k }) ≡ bitmap_test q (bitmap_set i s)
unfolding bitmap_test
bitmap_test-words i q k s = refl

module _ (s : Pmm) (v : IsValid s) where
  here-Takes :
      (i hi : ℕ)
      → i < hi
      → hi ≡ s.total_pages
      → bitmap_test i s ≡ false
      → Takes i hi i s
          (u64 (i * 4096), record (bitmap_set i s) { free_pages = sub64 s.free_pages 1 })
  unfolding bitmap_set
  here-Takes i hi h e free = record {
    range = omega arith;
    was_free = free;
    lowest = λ q lo up. absurd (omega arith);
    address = omega (arith, v.small);
    bits = λ q. bitmap_test-words i q (sub64 s.free_pages 1) s ∙ bitmap_test-bitmap_set i q s;
    fewer = omega (
      arith,
      v.small,
      v.counted,
      some_free s.total_pages i s (omega arith) free,
      free_below-le s.total_pages s,
    );
    fields = (refl, refl, refl);
  }

  Allocates-suc :
      (i hi : ℕ) (r : ℕ × Pmm)
      → bitmap_test i s ≡ true
      → Allocates (i + 1) hi s r
      → Allocates i hi s r
  Allocates-suc i hi r used (inl (k, taken)) = inl (
    k,
    record {
      range = omega (arith, range);
      was_free = was_free;
      lowest = λ q lo up. ground (arith, lowest q);
      address = address;
      bits = bits;
      fewer = fewer;
      fields = fields;
    },
  )
    where
      open taken use {range, was_free, lowest, address, bits, fewer, fields}
  Allocates-suc i hi r used (inr (full, same)) = inr (λ q lo up. ground (arith, full q), same)

  alloc_from-Allocates :
      (left i hi : ℕ) → i + left ≡ hi → hi ≡ s.total_pages → Allocates i hi s (alloc_from left i s)
  unfolding alloc_from
  alloc_from-Allocates zero i hi e t = inr (λ q lo up. absurd (omega arith), refl)
  alloc_from-Allocates (suc left) i hi e t = elim (Bool-cases (bitmap_test i s)) [
    | inl used ↦
        rw used (Allocates-suc i hi _ used (alloc_from-Allocates left (i + 1) hi (omega arith) t))
    | inr free ↦ rw free (inl (i, here-Takes i hi (omega arith) t free))
  ]

-- `alloc` on a valid state hands out the lowest free page, marks it alone and counts it, or
-- returns null and changes nothing if every page is used.
pub alloc-Allocates : (s : Pmm) → IsValid s → Allocates 0 s.total_pages s (alloc s)
unfolding alloc
alloc-Allocates s v = alloc_from-Allocates s v s.total_pages 0 s.total_pages (omega arith) refl

Takes-IsValid :
    (s : Pmm) {r : ℕ × Pmm} {i : ℕ} → IsValid s → Takes 0 s.total_pages i s r → IsValid r.1
Takes-IsValid s {r} {i} v t = record {
  small = omega (arith, t.fields, v.small);
  counted = counted_before ∙ ap (λ n. free_below n r.1) (sym t.fields.1);
}
  where
    same_bits : free_below s.total_pages r.1 ≡ free_below s.total_pages (bitmap_set i s)
    same_bits =
        free_below-same s.total_pages (bitmap_set i s) r.1
          (λ q h. t.bits q ∙ sym (bitmap_test-bitmap_set i q s))

    counted_before : r.1.free_pages ≡ free_below s.total_pages r.1
    counted_before = omega (
      arith,
      t.fewer,
      v.counted,
      same_bits,
      free_below-bitmap_set s.total_pages i s t.range.1 t.was_free,
    )

-- `alloc` keeps the counter equal to the number of free pages.
pub alloc-IsValid : (s : Pmm) → IsValid s → IsValid (alloc s).1
alloc-IsValid s v = elim (alloc-Allocates s v) [
  | inl (i, t) ↦ Takes-IsValid s v t
  | inr (full, same) ↦ rw same v
]

bitmap_test-clear_words :
    (p q k : ℕ) (s : Pmm)
    → bitmap_test q (record (bitmap_clear p s) { free_pages = k })
      ≡ bitmap_test q (bitmap_clear p s)
unfolding bitmap_test
bitmap_test-clear_words p q k s = refl

-- `free` marks the page of its address as free, and no other page changes.
pub bitmap_test-free :
    (page q : ℕ) (s : Pmm)
    → bitmap_test q (free page s) ≡ (not (page / 4096 == q) && bitmap_test q s)
unfolding free
bitmap_test-free page q s =
    bitmap_test-clear_words (page / 4096) q (u64 (s.free_pages + 1)) s
    ∙ bitmap_test-bitmap_clear (page / 4096) q s

pub total_pages-free : (page : ℕ) (s : Pmm) → (free page s).total_pages ≡ s.total_pages
unfolding free bitmap_clear
total_pages-free page s = refl

free_pages-free : (page : ℕ) (s : Pmm) → (free page s).free_pages ≡ u64 (s.free_pages + 1)
unfolding free
free_pages-free page s = refl

-- `free` of a page that is in use keeps the counter equal to the number of free pages.
pub free-IsValid :
    (page : ℕ) (s : Pmm)
    → IsValid s
    → page / 4096 < s.total_pages
    → bitmap_test (page / 4096) s ≡ true
    → IsValid (free page s)
free-IsValid page s v h used = record {
  small = omega (arith, total_pages-free page s, v.small);
  counted =
      omega (
        arith,
        free_pages-free page s,
        v.counted,
        v.small,
        same_bits,
        free_below-le total s,
        free_below-bitmap_clear total (page / 4096) s h used,
      )
      ∙ ap (λ n. free_below n (free page s)) (sym (total_pages-free page s));
}
  where
    total : ℕ
    total = s.total_pages

    same_bits : free_below total (free page s) ≡ free_below total (bitmap_clear (page / 4096) s)
    same_bits =
        free_below-same total (bitmap_clear (page / 4096) s) (free page s)
          (λ q h. bitmap_test-free page q s ∙ sym (bitmap_test-bitmap_clear (page / 4096) q s))

-- Freeing the page that `alloc` returned gives back the bitmap and the counter from before.
free-alloc :
    (s : Pmm)
    → IsValid s
    → ((i : ℕ) × (i < s.total_pages) × (bitmap_test i s ≡ false))
    → ((q : ℕ) → bitmap_test q (free (alloc s).0 (alloc s).1) ≡ bitmap_test q s)
      × ((free (alloc s).0 (alloc s).1).free_pages ≡ s.free_pages)
free-alloc s v (i, lt, is_free) = elim (alloc-Allocates s v) [
  | inl (k, t) ↦ freed k t
  | inr (full, same) ↦ absurd (contradiction (full i (omega arith) lt))
]
  where
    contradiction : bitmap_test i s ≡ true → ⊥
    contradiction used = cc

    freed :
        (k : ℕ)
        → Takes 0 s.total_pages k s (alloc s)
        → ((q : ℕ) → bitmap_test q (free (alloc s).0 (alloc s).1) ≡ bitmap_test q s)
          × ((free (alloc s).0 (alloc s).1).free_pages ≡ s.free_pages)
    freed k t = (
      λ q.
          ground
            (arith, bitmap_test-free (alloc s).0 q (alloc s).1, t.bits q, t.address, t.was_free),
      omega (
        arith,
        free_pages-free (alloc s).0 (alloc s).1,
        t.fewer,
        v.counted,
        v.small,
        free_below-le s.total_pages s,
      ),
    )
