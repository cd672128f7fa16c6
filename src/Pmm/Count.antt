-- ===== src/Pmm/Count.antt =====
-- The number of free pages that a bitmap of memory/pmm.cpp shows, and the allocator's invariant.
use issanium.Prelude.{
  ℕ, zero, suc, ◌+◌, ◌^◌, ◌≤◌, ◌<◌, ◌≡◌, refl, true, false, arith, if◌then◌else◌,
}
use issanium.Pmm.{Pmm, bitmap_set, bitmap_clear, bitmap_test}
use issanium.Pmm.Bitmap.{bitmap_test-bitmap_set, bitmap_test-bitmap_clear}

-- How many of the pages below `n` the bitmap shows as free.
unfoldable pub free_below : ℕ → Pmm → ℕ
free_below zero s = 0
free_below (suc n) s = free_below n s + (if bitmap_test n s then 0 else 1)

-- The counter agrees with the bitmap, and page addresses do not wrap.
pub record IsValid (s : Pmm) : Type 0 where
  pub small : s.total_pages ≤ 2 ^ 52
  pub counted : s.free_pages ≡ free_below s.total_pages s

pub free_below-le : (n : ℕ) (s : Pmm) → free_below n s ≤ n
unfolding free_below
free_below-le zero s = omega arith
free_below-le (suc n) s = ground (arith, free_below-le n s)

pub free_below-full :
    (n : ℕ) (s : Pmm) → ((q : ℕ) → q < n → bitmap_test q s ≡ true) → free_below n s ≡ 0
unfolding free_below
free_below-full zero s full = refl
free_below-full (suc n) s full =
    ground (arith, free_below-full n s (λ q h. full q (omega arith)), full n)

-- The count depends on the bits below `n` alone.
pub free_below-same :
    (n : ℕ) (s t : Pmm)
    → ((q : ℕ) → q < n → bitmap_test q t ≡ bitmap_test q s)
    → free_below n t ≡ free_below n s
unfolding free_below
free_below-same zero s t same = refl
free_below-same (suc n) s t same =
    ground (arith, free_below-same n s t (λ q h. same q (omega arith)), same n)

set_above : (n p : ℕ) (s : Pmm) → n ≤ p → free_below n (bitmap_set p s) ≡ free_below n s
set_above n p s h =
    free_below-same n s (bitmap_set p s) (λ q lt. ground (arith, bitmap_test-bitmap_set p q s))

clear_above : (n p : ℕ) (s : Pmm) → n ≤ p → free_below n (bitmap_clear p s) ≡ free_below n s
clear_above n p s h =
    free_below-same n s (bitmap_clear p s) (λ q lt. ground (arith, bitmap_test-bitmap_clear p q s))

-- Marking a free page takes one from the count.
pub free_below-bitmap_set :
    (n p : ℕ) (s : Pmm)
    → p < n
    → bitmap_test p s ≡ false
    → free_below n (bitmap_set p s) + 1 ≡ free_below n s
unfolding free_below
free_below-bitmap_set zero p s h free = absurd (omega arith)
free_below-bitmap_set (suc n) p s h free =
    ground (arith, bitmap_test-bitmap_set p n s, free_below-bitmap_set n p s, set_above n p s)

-- Clearing a used page adds one to the count.
pub free_below-bitmap_clear :
    (n p : ℕ) (s : Pmm)
    → p < n
    → bitmap_test p s ≡ true
    → free_below n (bitmap_clear p s) ≡ free_below n s + 1
unfolding free_below
free_below-bitmap_clear zero p s h used = absurd (omega arith)
free_below-bitmap_clear (suc n) p s h used =
    ground (arith, bitmap_test-bitmap_clear p n s, free_below-bitmap_clear n p s, clear_above n p s)
