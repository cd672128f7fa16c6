-- ===== src/Pmm/Init/Ranges.antt =====
-- The loops of `init` of memory/pmm.cpp over a range of pages.
use issanium.Prelude.{
  ℕ, zero, suc, ◌+◌, ◌-◌, ◌*◌, ◌/◌, ◌%◌, ◌^◌, ◌≤◌, ◌<◌, ◌≡◌, refl, ap, sym, ◌∙◌, Bool, true, false,
  not, ◌||◌, ◌&&◌, arith, ◌==◌, ltb, leb,
}
use issanium.Prelude.Word.{sub64}
use issanium.Prelude.Bits.{bit_at-complement, bit_at-zero, bit_and-pow, one-le_pow}
use issanium.Prelude.Memory.{count_up, count_up_inv}
use issanium.Pmm.{Pmm, bitmap_set, bitmap_clear, bitmap_test, free}
use issanium.Pmm.Bitmap.{bitmap_test-bitmap_set}
use issanium.Pmm.Count.{IsValid, free_below, free_below-le, free_below-same, free_below-bitmap_set}
use issanium.Pmm.Alloc.{SameFields, bitmap_test-words, some_free, free-IsValid, bitmap_test-free}
use issanium.Pmm.Init.{fill_words, release_page, reserve_page}

abbrev pub in_range : ℕ → ℕ → ℕ → Bool
in_range start end q = leb start q && ltb q end

-- Releasing a page is what `free` does at its address.
release_page-free : (p : ℕ) (s : Pmm) → release_page p s ≡ free (p * 4096) s
unfolding release_page free
release_page-free p s = let page : p * 4096 / 4096 ≡ p = omega arith in rw page refl

SameFields-release_page : (p : ℕ) (s : Pmm) → SameFields s (release_page p s)
unfolding release_page bitmap_clear
SameFields-release_page p s = (refl, refl, refl)

SameFields-reserve_page : (p : ℕ) (s : Pmm) → SameFields s (reserve_page p s)
unfolding reserve_page bitmap_set
SameFields-reserve_page p s = (refl, refl, refl)

pub bitmap_test-release_page :
    (p q : ℕ) (s : Pmm) → bitmap_test q (release_page p s) ≡ (not (p == q) && bitmap_test q s)
bitmap_test-release_page p q s =
    ground
      (arith, ap (λ t. bitmap_test q t) (release_page-free p s), bitmap_test-free (p * 4096) q s)

pub bitmap_test-reserve_page :
    (p q : ℕ) (s : Pmm) → bitmap_test q (reserve_page p s) ≡ ((p == q) || bitmap_test q s)
unfolding reserve_page
bitmap_test-reserve_page p q s =
    bitmap_test-words p q (sub64 s.free_pages 1) s ∙ bitmap_test-bitmap_set p q s

release_page-IsValid :
    (p : ℕ) (s : Pmm)
    → IsValid s
    → p < s.total_pages
    → bitmap_test p s ≡ true
    → IsValid (release_page p s)
release_page-IsValid p s v h used =
    let page : p * 4096 / 4096 ≡ p = omega arith in
    rw (release_page-free p s)
      (free-IsValid (p * 4096) s v (omega arith) (ap (λ q. bitmap_test q s) page ∙ used))

free_pages-reserve_page : (p : ℕ) (s : Pmm) → (reserve_page p s).free_pages ≡ sub64 s.free_pages 1
unfolding reserve_page
free_pages-reserve_page p s = refl

reserve_page-IsValid :
    (p : ℕ) (s : Pmm)
    → IsValid s
    → p < s.total_pages
    → bitmap_test p s ≡ false
    → IsValid (reserve_page p s)
reserve_page-IsValid p s v h is_free = record {
  small = omega (arith, (SameFields-reserve_page p s).1, v.small);
  counted =
      omega (
        arith,
        free_pages-reserve_page p s,
        v.counted,
        v.small,
        same_bits,
        some_free total p s h is_free,
        free_below-le total s,
        free_below-bitmap_set total p s h is_free,
      )
      ∙ ap (λ n. free_below n (reserve_page p s)) (sym (SameFields-reserve_page p s).1);
}
  where
    total : ℕ
    total = s.total_pages

    same_bits : free_below total (reserve_page p s) ≡ free_below total (bitmap_set p s)
    same_bits =
        free_below-same total (bitmap_set p s) (reserve_page p s)
          (λ q h. bitmap_test-reserve_page p q s ∙ sym (bitmap_test-bitmap_set p q s))

-- `t` is a valid state whose bits are `bits`, with the other fields of `s`.
pub record HasBits (s : Pmm) (bits : ℕ → Bool) (t : Pmm) : Type 0 where
  pub valid : IsValid t
  pub bit : (q : ℕ) → bitmap_test q t ≡ bits q
  pub fields : SameFields s t

module _ (s : Pmm) (v : IsValid s) (start count end : ℕ) (e : start + count ≡ end)
    (below : end ≤ s.total_pages) where
  -- Releasing a range of used pages frees exactly those.
  pub release_range :
      ((q : ℕ) → in_range start end q ≡ true → bitmap_test q s ≡ true)
      → HasBits s
          (λ q. not (in_range start end q) && bitmap_test q s)
          (count_up count start release_page s)
  release_range used =
      count_up_inv (λ k. HasBits s (λ q. not (in_range start k q) && bitmap_test q s)) release_page
        count start end s e
        (λ k t lo hi p. record {
          valid =
              release_page-IsValid k t p.valid (omega (arith, p.fields))
                (ground (arith, p.bit k, used k));
          bit = λ q. ground (arith, bitmap_test-release_page k q t, p.bit q);
          fields = ground (arith, SameFields-release_page k t, p.fields);
        })
        (record { valid = v; bit = λ q. ground arith; fields = (refl, refl, refl) })

  -- Reserving a range of free pages marks exactly those as used.
  pub reserve_range :
      ((q : ℕ) → in_range start end q ≡ true → bitmap_test q s ≡ false)
      → HasBits s
          (λ q. in_range start end q || bitmap_test q s)
          (count_up count start reserve_page s)
  reserve_range is_free =
      count_up_inv (λ k. HasBits s (λ q. in_range start k q || bitmap_test q s)) reserve_page count
        start end s e
        (λ k t lo hi p. record {
          valid =
              reserve_page-IsValid k t p.valid (omega (arith, p.fields))
                (ground (arith, p.bit k, is_free k));
          bit = λ q. ground (arith, bitmap_test-reserve_page k q t, p.bit q);
          fields = ground (arith, SameFields-reserve_page k t, p.fields);
        })
        (record { valid = v; bit = λ q. ground arith; fields = (refl, refl, refl) })

-- Filling the words marks every page that they hold as used.
pub fill_words-used :
    (size q : ℕ) (s : Pmm) → q / 64 < size / 8 → bitmap_test q (fill_words size s) ≡ true
unfolding fill_words bitmap_test
fill_words-used size q s h = ground (
  arith,
  bit_and-pow (2 ^ 64 - 1) (q % 64),
  bit_at-complement 64 0 (q % 64) (omega arith) (omega arith),
  bit_at-zero (q % 64),
  one-le_pow (q % 64),
)

pub free_below-used :
    (n : ℕ) (s : Pmm) → ((q : ℕ) → q < n → bitmap_test q s ≡ true) → free_below n s ≡ 0
unfolding free_below
free_below-used zero s used = refl
free_below-used (suc n) s used =
    ground (arith, free_below-used n s (λ q h. used q (omega arith)), used n)
