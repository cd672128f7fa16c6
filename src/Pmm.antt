-- ===== src/Pmm.antt =====
-- memory/pmm.cpp: the physical page allocator over a bitmap, one bit for each page, set if used.
-- `words` are the 64-bit words that `bitmap` points at. The messages to the serial port are left out.
pub mod Bitmap
pub mod Count
pub mod Alloc
pub mod Owners
pub mod Init
use issanium.Prelude.{
  ℕ, zero, suc, ◌+◌, ◌-◌, ◌*◌, ◌/◌, ◌%◌, ◌^◌, Bool, true, false, not, ◌&&◌, arith, ltb, leb, ◌==◌,
  if◌then◌else◌, Option, none, some, List, [], ◌∷◌, bit_and, bit_or,
}
use issanium.Prelude.Word.{u64, sub64, is_true}
use issanium.Prelude.Memory.{write, count_up}

pub record Pmm : Type 0 where
  pub bitmap : ℕ
  pub words : ℕ → ℕ
  pub total_pages : ℕ
  pub free_pages : ℕ
  pub hhdm : ℕ

unfoldable pub bitmap_set : ℕ → Pmm → Pmm
bitmap_set page s = record s {
  words = write s.words (page / 64) (bit_or (s.words (page / 64)) (2 ^ (page % 64)));
}

-- `~m` of a 64-bit `m` is `2 ^ 64 - 1 - m`.
unfoldable pub bitmap_clear : ℕ → Pmm → Pmm
bitmap_clear page s = record s {
  words = write s.words (page / 64) (bit_and (s.words (page / 64)) (2 ^ 64 - 1 - 2 ^ (page % 64)));
}

unfoldable pub bitmap_test : ℕ → Pmm → Bool
bitmap_test page s = is_true (bit_and (s.words (page / 64)) (2 ^ (page % 64)))

-- The loop of `alloc` at page `i`, with `total_pages - i` rounds left; 0 is the null pointer.
unfoldable pub alloc_from : ℕ → ℕ → Pmm → ℕ × Pmm
alloc_from zero i s = (0, s)
alloc_from (suc left) i s =
    let rest = alloc_from left (i + 1) s in
    let taken = bitmap_set i s in
    if not (bitmap_test i s)
    then (u64 (i * 4096), record taken { free_pages = sub64 s.free_pages 1 })
    else rest

unfoldable pub alloc : Pmm → ℕ × Pmm
unfolding alloc_from
alloc s = alloc_from s.total_pages 0 s

unfoldable pub free : ℕ → Pmm → Pmm
free page s = record (bitmap_clear (page / 4096) s) { free_pages = u64 (s.free_pages + 1) }

unfoldable pub get_total_pages : Pmm → ℕ
get_total_pages s = s.total_pages

unfoldable pub get_free_pages : Pmm → ℕ
get_free_pages s = s.free_pages
