-- ===== src/Pmm/Init.antt =====
-- `init` of memory/pmm.cpp: the bitmap that it builds from the memory map of the boot loader.
pub mod Ranges
pub mod Regions
pub mod Map
use issanium.Prelude.{
  ℕ, zero, suc, ◌+◌, ◌*◌, ◌/◌, ◌^◌, ◌-◌, Bool, ◌&&◌, ltb, leb, ◌==◌, if◌then◌else◌, Option, none,
  some, List, [], ◌∷◌,
}
use issanium.Prelude.Word.{u64, sub64}
use issanium.Prelude.Memory.{count_up}
use issanium.Pmm.{Pmm, bitmap_set, bitmap_clear}

-- `limine_memmap_entry`; LIMINE_MEMMAP_USABLE is 0.
pub record Entry : Type 0 where
  pub base : ℕ
  pub length : ℕ
  pub kind : ℕ

abbrev pub is_usable : Entry → Bool
is_usable e = e.kind == 0

-- Step 1: the end of the highest usable region.
unfoldable pub highest_from : ℕ → List Entry → ℕ
highest_from highest [] = highest
highest_from highest (e ∷ es) =
    let top = u64 (e.base + e.length) in
    highest_from (if is_usable e && ltb highest top then top else highest) es

-- Step 2: the first usable region that holds the bitmap, as an address; `bitmap` stays if there
-- is none.
unfoldable pub find_region : ℕ → ℕ → ℕ → List Entry → ℕ
find_region bitmap size hhdm [] = bitmap
find_region bitmap size hhdm (e ∷ es) =
    if is_usable e && leb size e.length
    then u64 (e.base + hhdm)
    else find_region bitmap size hhdm es

-- Step 3: memset(bitmap, 0xFF, bitmap_size), on the words.
unfoldable pub fill_words : ℕ → Pmm → Pmm
fill_words size s = record s { words = λ k. if ltb k (size / 8) then 2 ^ 64 - 1 else s.words k }

-- Step 4: the pages of the usable regions become free.
unfoldable pub release_page : ℕ → Pmm → Pmm
release_page p s = record (bitmap_clear p s) { free_pages = u64 (s.free_pages + 1) }

unfoldable pub release_regions : List Entry → Pmm → Pmm
release_regions [] s = s
release_regions (e ∷ es) s =
    release_regions es
      (if is_usable e then count_up (e.length / 4096) (e.base / 4096) release_page s else s)

-- Step 5: the pages of the bitmap itself become used.
unfoldable pub reserve_page : ℕ → Pmm → Pmm
reserve_page p s = record (bitmap_set p s) { free_pages = sub64 s.free_pages 1 }

unfoldable pub reserve_bitmap : ℕ → Pmm → Pmm
reserve_bitmap size s =
    count_up ((size + 4095) / 4096) (sub64 s.bitmap s.hhdm / 4096) reserve_page s

abbrev pub bitmap_bytes : ℕ → ℕ
bitmap_bytes total_pages = u64 ((total_pages + 63) / 64 * 8)

-- `ram` gives the words that stand in memory at an address before the call.
abbrev pub place_bitmap : (ℕ → ℕ → ℕ) → ℕ → Pmm → Pmm
place_bitmap ram at s = record s { bitmap = at; words = if at == s.bitmap then s.words else ram at }

abbrev pub build_bitmap : List Entry → ℕ → Pmm → Pmm
build_bitmap entries size s = reserve_bitmap size (release_regions entries (fill_words size s))

-- `none` is a boot loader that gave no memory map.
unfoldable pub init : ℕ → Option (List Entry) → (ℕ → ℕ → ℕ) → Pmm → Pmm
init hhdm_offset none ram s = record s { hhdm = hhdm_offset }
init hhdm_offset (some entries) ram s =
    let total = highest_from 0 entries / 4096 in
    let size = bitmap_bytes total in
    let at = find_region s.bitmap size hhdm_offset entries in
    let placed = place_bitmap ram at (record s { hhdm = hhdm_offset; total_pages = total }) in
    if at == 0 then placed else build_bitmap entries size placed
