-- ===== src/Pmm/Init/Map.antt =====
-- What `init` of memory/pmm.cpp leaves behind, for a memory map as the boot loader documents it.
use issanium.Prelude.{
  ℕ, ◌+◌, ◌/◌, ◌^◌, ◌≤◌, ◌<◌, ◌≡◌, ◌≢◌, refl, ap, sym, ◌∙◌, Bool, true, false, not, ◌||◌, ◌&&◌,
  arith, ◌==◌, inl, inr, List, some, none,
}
use issanium.Prelude.Word.{sub64}
use issanium.Prelude.Memory.{count_up}
use issanium.Pmm.{Pmm, bitmap_test, alloc}
use issanium.Pmm.Count.{IsValid}
use issanium.Pmm.Alloc.{SameFields}
use issanium.Pmm.Init.{
  Entry, highest_from, find_region, fill_words, release_regions, reserve_page, reserve_bitmap,
  bitmap_bytes, build_bitmap, init,
}
use issanium.Pmm.Init.Ranges.{in_range, HasBits, reserve_range, fill_words-used, free_below-used}
use issanium.Pmm.Init.Regions.{
  IsMemmap, is_ram, EndsBy, IsPlace, highest_from-EndsBy, highest_from-lt, is_ram-lt,
  release_regions_lem, find_region-IsPlace,
}

-- Page `q` holds a part of the bitmap itself.
abbrev pub in_bitmap : Pmm → ℕ → Bool
in_bitmap s q =
    let start = sub64 s.bitmap s.hhdm / 4096 in
    in_range start (start + (bitmap_bytes s.total_pages + 4095) / 4096) q

-- The allocator is ready: valid, and free are exactly the pages of the usable regions that the
-- bitmap does not take, which all lie below `total_pages`.
pub record IsReady (es : List Entry) (s : Pmm) : Type 0 where
  pub valid : IsValid s
  pub total : s.total_pages ≡ highest_from 0 es / 4096
  pub bit : (q : ℕ) → q < s.total_pages → bitmap_test q s ≡ (not (is_ram es q) || in_bitmap s q)
  pub inside : (q : ℕ) → is_ram es q ≡ true → q < s.total_pages
  pub within_ram : (q : ℕ) → in_bitmap s q ≡ true → is_ram es q ≡ true

module _ (es : List Entry) (m : IsMemmap es) (placed : Pmm) (e : Entry)
    (total : placed.total_pages ≡ highest_from 0 es / 4096) (empty : placed.free_pages ≡ 0)
    (fits : placed.hhdm + highest_from 0 es < 2 ^ 64)
    (p : IsPlace (bitmap_bytes placed.total_pages) placed.hhdm es placed.bitmap e) where
  abbrev size : ℕ
  size = bitmap_bytes placed.total_pages

  abbrev filled : Pmm
  filled = fill_words size placed

  filled_fields : SameFields placed filled × (filled.free_pages ≡ 0)
  unfolding fill_words
  filled_fields = ((refl, refl, refl), empty)

  size_lem : (placed.total_pages ≤ 2 ^ 52) × (size / 8 ≡ (placed.total_pages + 63) / 64)
  size_lem = omega (arith, total, highest_from-lt 0 es (omega arith))

  filled_used : (q : ℕ) → q < placed.total_pages → bitmap_test q filled ≡ true
  filled_used q h = fill_words-used size q placed (omega (arith, size_lem))

  filled-IsValid : IsValid filled
  filled-IsValid = record {
    small = omega (arith, filled_fields, size_lem);
    counted =
        filled_fields.1
        ∙ sym (
            free_below-used filled.total_pages filled
              (λ q h. filled_used q (omega (arith, filled_fields))));
  }

  ends : EndsBy (highest_from 0 es) es
  ends = (highest_from-EndsBy 0 es m).1

  released :
      HasBits filled (λ q. not (is_ram es q) && bitmap_test q filled) (release_regions es filled)
  released =
      release_regions_lem (highest_from 0 es) es filled filled-IsValid m ends
        (omega (arith, total, filled_fields))
        (λ q r. filled_used q (omega (arith, is_ram-lt (highest_from 0 es) q es m ends r, total)))

  abbrev cleared : Pmm
  cleared = release_regions es filled

  abbrev start : ℕ
  start = sub64 cleared.bitmap cleared.hhdm / 4096

  abbrev count : ℕ
  count = (size + 4095) / 4096

  -- The bitmap starts with the region that was found, and ends with it or before.
  start_lem : (start ≡ e.base / 4096) × (start + count ≤ e.base / 4096 + e.length / 4096)
  start_lem = omega (
    arith,
    released.fields,
    filled_fields,
    p.address,
    p.fits,
    p.region.aligned,
    p.ends (highest_from 0 es) ends,
    fits,
  )

  in_place : (q : ℕ) → in_range start (start + count) q ≡ true → is_ram es q ≡ true
  in_place q h = p.pages q (ground (arith, start_lem, p.usable))

  reserved :
      HasBits cleared
        (λ q. in_range start (start + count) q || bitmap_test q cleared)
        (count_up count start reserve_page cleared)
  reserved =
      reserve_range cleared released.valid start count (start + count) refl
        (omega (
          arith,
          start_lem,
          p.ends (highest_from 0 es) ends,
          p.region.aligned,
          total,
          released.fields,
          filled_fields,
        ))
        (λ q h. ground (arith, released.bit q, in_place q h))

  total_lem : (t : Pmm) → SameFields cleared t → t.total_pages ≡ placed.total_pages
  total_lem t f = omega (arith, f, released.fields, filled_fields)

  in_bitmap_lem :
      (t : Pmm) → SameFields cleared t → (q : ℕ) → in_bitmap t q ≡ in_range start (start + count) q
  in_bitmap_lem t f q = rw (f.0, f.2, total_lem t f)

  HasBits-IsReady :
      (t : Pmm)
      → HasBits cleared (λ q. in_range start (start + count) q || bitmap_test q cleared) t
      → IsReady es t
  HasBits-IsReady t h = record {
    valid = h.valid;
    total = total_lem t h.fields ∙ total;
    bit = λ q lt. ground (
      arith,
      h.bit q,
      released.bit q,
      filled_used q (omega (arith, total_lem t h.fields, lt)),
      in_bitmap_lem t h.fields q,
    );
    inside = λ q r.
        omega (arith, is_ram-lt (highest_from 0 es) q es m ends r, total, total_lem t h.fields);
    within_ram = λ q r. in_place q (sym (in_bitmap_lem t h.fields q) ∙ r);
  }

  pub build_bitmap-IsReady : IsReady es (build_bitmap es size placed)
  unfolding reserve_bitmap
  build_bitmap-IsReady = HasBits-IsReady (build_bitmap es size placed) reserved

-- `init` makes the allocator ready, if the memory map is as the boot loader documents it, the
-- direct map reaches all of it, nothing was set up before, and some usable region can hold the
-- bitmap.
pub init-IsReady :
    (hhdm : ℕ) (es : List Entry) (ram : ℕ → ℕ → ℕ) (s : Pmm)
    → IsMemmap es
    → 0 < hhdm
    → hhdm + highest_from 0 es < 2 ^ 64
    → s.bitmap ≡ 0
    → s.free_pages ≡ 0
    → find_region 0 (bitmap_bytes (highest_from 0 es / 4096)) hhdm es ≢ 0
    → IsReady es (init hhdm (some es) ram s)
unfolding init
init-IsReady hhdm es ram s m pos fits null_bitmap empty found =
    elim (find_region-IsPlace s.bitmap (bitmap_bytes (highest_from 0 es / 4096)) hhdm es m) [
      | inl missing ↦ absurd (
          found (ap (λ b. find_region b size_of hhdm es) (sym null_bitmap) ∙ missing ∙ null_bitmap))
      | inr (e, p) ↦
          let some_place : (find_region s.bitmap size_of hhdm es == 0) ≡ false =
            ground (arith, p.address, p.ends (highest_from 0 es) (highest_from-EndsBy 0 es m).1) in
          rw (some_place, init) (build_bitmap-IsReady es m _ e refl empty fits p)
    ]
  where
    size_of : ℕ
    size_of = bitmap_bytes (highest_from 0 es / 4096)

-- Without a memory map `init` keeps the address of the direct map alone, and on the state before
-- boot every later `alloc` returns null.
pub init-none :
    (hhdm : ℕ) (ram : ℕ → ℕ → ℕ) (s : Pmm)
    → s.total_pages ≡ 0
    → (alloc (init hhdm none ram s)).0 ≡ 0
unfolding init alloc
init-none hhdm ram s none_yet = rw none_yet refl
