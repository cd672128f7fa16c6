-- ===== src/Pmm/Bitmap.antt =====
-- What the three bitmap helpers of memory/pmm.cpp do to the bit of any page.
use issanium.Prelude.{ℕ, ◌-◌, ◌/◌, ◌%◌, ◌^◌, ◌≡◌, not, ◌&&◌, ◌||◌, arith, ◌==◌}
use issanium.Prelude.Bits.{
  bit_at, bit_at-lt, bit_at-bit_and, bit_at-bit_or, bit_at-pow, bit_at-complement, bit_and-pow,
  one-le_pow, pow-lt_pow,
}
use issanium.Pmm.{Pmm, bitmap_set, bitmap_clear, bitmap_test}

-- The bit of a page.
abbrev pub page_bit : ℕ → Pmm → ℕ
page_bit p s = bit_at (s.words (p / 64)) (p % 64)

bitmap_test-bit : (p : ℕ) (s : Pmm) → bitmap_test p s ≡ (page_bit p s == 1)
unfolding bitmap_test
bitmap_test-bit p s = ground (
  arith,
  bit_and-pow (s.words (p / 64)) (p % 64),
  bit_at-lt (s.words (p / 64)) (p % 64),
  one-le_pow (p % 64),
)

-- `bitmap_set` marks its page as used, and no other page changes.
pub bitmap_test-bitmap_set :
    (p q : ℕ) (s : Pmm) → bitmap_test q (bitmap_set p s) ≡ ((p == q) || bitmap_test q s)
unfolding bitmap_set
bitmap_test-bitmap_set p q s = ground (
  arith,
  bitmap_test-bit q (bitmap_set p s),
  bitmap_test-bit q s,
  bit_at-bit_or (s.words (p / 64)) (2 ^ (p % 64)) (q % 64),
  bit_at-pow (p % 64) (q % 64),
  bit_at-lt (s.words (q / 64)) (q % 64),
)

-- `bitmap_clear` marks its page as free, and no other page changes.
pub bitmap_test-bitmap_clear :
    (p q : ℕ) (s : Pmm) → bitmap_test q (bitmap_clear p s) ≡ (not (p == q) && bitmap_test q s)
unfolding bitmap_clear
bitmap_test-bitmap_clear p q s = ground (
  arith,
  bitmap_test-bit q (bitmap_clear p s),
  bitmap_test-bit q s,
  bit_at-bit_and (s.words (p / 64)) (2 ^ 64 - 1 - 2 ^ (p % 64)) (q % 64),
  bit_at-complement 64 (2 ^ (p % 64)) (q % 64) (pow-lt_pow (p % 64) 64 (omega arith)) (omega arith),
  bit_at-pow (p % 64) (q % 64),
  bit_at-lt (s.words (q / 64)) (q % 64),
)
