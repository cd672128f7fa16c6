-- ===== src/Pmm/Init/Regions.antt =====
-- The loops of `init` of memory/pmm.cpp over the regions of the memory map.
use issanium.Prelude.{
  ℕ, ◌+◌, ◌/◌, ◌%◌, ◌^◌, ◌≤◌, ◌<◌, ◌≡◌, refl, ◌∙◌, Bool, true, false, not, ◌||◌, ◌&&◌, arith,
  if◌then◌else◌, ltb, leb, ◌⊎◌, inl, inr, Bool-cases, List, [], ◌∷◌,
}
use issanium.Prelude.Word.{u64}
use issanium.Prelude.Memory.{count_up}
use issanium.Pmm.{Pmm, bitmap_test}
use issanium.Pmm.Count.{IsValid}
use issanium.Pmm.Init.{Entry, is_usable, highest_from, find_region, release_page, release_regions}
use issanium.Pmm.Init.Ranges.{in_range, HasBits, release_range}

-- What the boot loader promises of a usable region: whole pages, within the address space.
pub record IsRegion (e : Entry) : Type 0 where
  pub aligned : (e.base % 4096 ≡ 0) × (e.length % 4096 ≡ 0)
  pub fits : e.base + e.length < 2 ^ 64

abbrev pub Apart : Entry → Entry → Type 0
Apart e f = (e.base + e.length ≤ f.base) ⊎ (f.base + f.length ≤ e.base)

abbrev pub ApartFrom : Entry → List Entry → Type 0
ApartFrom e [] = Unit
ApartFrom e (f ∷ fs) = (is_usable e ≡ true → is_usable f ≡ true → Apart e f) × ApartFrom e fs

-- The usable regions are whole pages, and no two overlap.
abbrev pub IsMemmap : List Entry → Type 0
IsMemmap [] = Unit
IsMemmap (e ∷ es) = (is_usable e ≡ true → IsRegion e) × ApartFrom e es × IsMemmap es

-- Page `q` lies in the region, and the region is usable.
abbrev pub has_page : Entry → ℕ → Bool
has_page e q = is_usable e && in_range (e.base / 4096) (e.base / 4096 + e.length / 4096) q

-- Page `q` lies in a usable region of the map.
abbrev pub is_ram : List Entry → ℕ → Bool
is_ram [] q = false
is_ram (e ∷ es) q = has_page e q || is_ram es q

not_shared :
    (e : Entry) (es : List Entry)
    → IsMemmap (e ∷ es)
    → (q : ℕ) → has_page e q ≡ true
    → is_ram es q ≡ false
not_shared e [] m q h = refl
not_shared e (f ∷ fs) m q h =
    ground (arith, not_shared e fs (m.0, m.1.1, m.2.2) q h, m.0, m.1.0, m.2.0)

-- The usable regions end at or below `top`.
abbrev pub EndsBy : ℕ → List Entry → Type 0
EndsBy top [] = Unit
EndsBy top (e ∷ es) = (is_usable e ≡ true → e.base + e.length ≤ top) × EndsBy top es

EndsBy-mono : {a b : ℕ} (es : List Entry) → a ≤ b → EndsBy a es → EndsBy b es
EndsBy-mono [] h p = tt
EndsBy-mono (e ∷ es) h p = (λ u. omega (arith, p.0 u), EndsBy-mono es h p.1)

abbrev higher : ℕ → Entry → ℕ
higher highest e =
    let top = u64 (e.base + e.length) in if is_usable e && ltb highest top then top else highest

higher_lem :
    (highest : ℕ) (e : Entry)
    → (is_usable e ≡ true → IsRegion e)
    → (highest ≤ higher highest e) × (is_usable e ≡ true → e.base + e.length ≤ higher highest e)
higher_lem highest e r = (ground arith, λ u. ground (arith, (r u).fits))

-- Step 1 finds an end that no usable region passes.
pub highest_from-EndsBy :
    (highest : ℕ) (es : List Entry)
    → IsMemmap es
    → (highest ≤ highest_from highest es) × EndsBy (highest_from highest es) es
unfolding highest_from
highest_from-EndsBy highest [] m = (omega arith, tt)
highest_from-EndsBy highest (e ∷ es) m =
    let rest = highest_from-EndsBy (higher highest e) es m.2 in
    let here = higher_lem highest e m.0 in
    (omega (arith, rest.0, here.0), (λ u. omega (arith, rest.0, here.1 u), rest.1))

pub highest_from-lt :
    (highest : ℕ) (es : List Entry) → highest < 2 ^ 64 → highest_from highest es < 2 ^ 64
unfolding highest_from
highest_from-lt highest [] h = h
highest_from-lt highest (e ∷ es) h = highest_from-lt (higher highest e) es (ground arith)

-- The pages of a region that ends by `top` lie below its last page.
pub is_ram-lt :
    (top q : ℕ) (es : List Entry)
    → IsMemmap es
    → EndsBy top es
    → is_ram es q ≡ true
    → q < top / 4096
is_ram-lt top q [] m h r = cc
is_ram-lt top q (e ∷ es) m h r = ground (arith, is_ram-lt top q es m.2 h.1, h.0, m.0)

pub HasBits-trans :
    {s t u : Pmm} {b c d : ℕ → Bool}
    → HasBits s b t
    → HasBits t c u
    → ((q : ℕ) → c q ≡ d q)
    → HasBits s d u
HasBits-trans h k same = record {
  valid = k.valid;
  bit = λ q. k.bit q ∙ same q;
  fields = ground (arith, h.fields, k.fields);
}

pub HasBits-refl : (s : Pmm) → IsValid s → HasBits s (λ q. bitmap_test q s) s
HasBits-refl s v = record { valid = v; bit = λ q. refl; fields = (refl, refl, refl) }

-- Step 4 frees exactly the pages of the usable regions, if all of them were used.
pub release_regions_lem :
    (top : ℕ) (es : List Entry) (s : Pmm)
    → IsValid s
    → IsMemmap es
    → EndsBy top es
    → top / 4096 ≡ s.total_pages
    → ((q : ℕ) → is_ram es q ≡ true → bitmap_test q s ≡ true)
    → HasBits s (λ q. not (is_ram es q) && bitmap_test q s) (release_regions es s)
unfolding release_regions
release_regions_lem top [] s v m h t used = record {
  valid = v;
  bit = λ q. refl;
  fields = (refl, refl, refl);
}
release_regions_lem top (e ∷ es) s v m h t used = elim (Bool-cases (is_usable e)) [
  | inl usable ↦
      rw (usable, release_regions)
        (HasBits-trans (one usable)
          (release_regions_lem top es (after usable) (one usable).valid m.2 h.1
            (omega (arith, t, (one usable).fields))
            (λ q r. ground (arith, (one usable).bit q, used q, shared q, r)))
          (λ q. ground (arith, (one usable).bit q)))
  | inr reserved ↦
      rw (reserved, release_regions)
        (HasBits-trans (HasBits-refl s v)
          (release_regions_lem top es s v m.2 h.1 t (λ q r. used q (ground arith)))
          (λ q. ground arith))
]
  where
    after : is_usable e ≡ true → Pmm
    after u = count_up (e.length / 4096) (e.base / 4096) release_page s

    one :
        (u : is_usable e ≡ true)
        → HasBits s
            (λ q.
              not (in_range (e.base / 4096) (e.base / 4096 + e.length / 4096) q) && bitmap_test q s)
            (after u)
    one u =
        release_range s v (e.base / 4096) (e.length / 4096) (e.base / 4096 + e.length / 4096) refl
          (omega (arith, h.0 u, (m.0 u).aligned)) (λ q r. used q (ground arith))

    shared : (q : ℕ) → has_page e q ≡ true → is_ram es q ≡ false
    shared = not_shared e es m

-- `place` is where the region `e` of the map stands in virtual memory, and `size` bytes fit it.
pub record IsPlace (size hhdm : ℕ) (es : List Entry) (place : ℕ) (e : Entry) : Type 0 where
  pub region : IsRegion e
  pub usable : is_usable e ≡ true
  pub address : place ≡ u64 (e.base + hhdm)
  pub fits : size ≤ e.length
  pub pages : (q : ℕ) → has_page e q ≡ true → is_ram es q ≡ true
  pub ends : (top : ℕ) → EndsBy top es → e.base + e.length ≤ top

IsPlace-cons :
    {size hhdm place : ℕ} {es : List Entry} {e : Entry} (d : Entry)
    → IsPlace size hhdm es place e
    → IsPlace size hhdm (d ∷ es) place e
IsPlace-cons d p = record {
  region = p.region;
  usable = p.usable;
  address = p.address;
  fits = p.fits;
  pages = λ q h. ground (arith, p.pages q h);
  ends = λ top h. p.ends top h.1;
}

-- Step 2 finds the place of a usable region that is large enough, or finds none.
pub find_region-IsPlace :
    (at size hhdm : ℕ) (es : List Entry)
    → IsMemmap es
    → (find_region at size hhdm es ≡ at)
      ⊎ ((e : Entry) × IsPlace size hhdm es (find_region at size hhdm es) e)
unfolding find_region
find_region-IsPlace at size hhdm [] m = inl refl
find_region-IsPlace at size hhdm (e ∷ es) m = elim (Bool-cases (is_usable e && leb size e.length)) [
  | inl fit ↦
      rw (fit, find_region)
        (inr (
          e,
          record {
            region = m.0 (ground arith);
            usable = ground arith;
            address = refl;
            fits = ground arith;
            pages = λ q h. ground arith;
            ends = λ top h. h.0 (ground arith);
          },
        ))
  | inr small ↦
      rw (small, find_region)
        (elim (find_region-IsPlace at size hhdm es m.2) [
          | inl none_found ↦ inl none_found
          | inr (f, p) ↦ inr (f, IsPlace-cons e p)
        ])
]
