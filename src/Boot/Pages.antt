-- ===== src/Boot/Pages.antt =====
-- memory/pmm.cpp as the page allocator of memory/vmm.cpp: the pages that it gives are fresh.
use issanium.Prelude.{
  ℕ, ◌*◌, ◌/◌, ◌^◌, ◌≤◌, ◌<◌, ◌≡◌, ◌≢◌, ap, sym, ◌∙◌, arith, Bool, true, false, inl, inr, leb, ◌||◌,
  Bool-cases,
}
use issanium.Pmm.{Pmm, alloc, bitmap_test}
use issanium.Pmm.Count.{IsValid}
use issanium.Pmm.Alloc.{Takes, alloc-Allocates, alloc-IsValid}
use issanium.Vmm.Tree.{IsFrames}
use issanium.Boot.{pmm_frames}

-- The counter is right, addresses of pages have 46 bits, and the page at null is never free.
pub record IsPages (s : Pmm) : Type 0 where
  pub valid : IsValid s
  pub size : s.total_pages ≤ 2 ^ 34
  pub null : bitmap_test 0 s ≡ true

-- A page that alloc does not give.
abbrev pub is_used : Pmm → ℕ → Bool
is_used s address = leb s.total_pages (address / 4096) || bitmap_test (address / 4096) s

page_below : (s : Pmm) (i : ℕ) → IsPages s → i < s.total_pages → i * 4096 < 2 ^ 46
page_below s i v h = omega (arith, v.size)

alloc_keeps :
    (s : Pmm) (i : ℕ) → IsPages s → bitmap_test i s ≡ true → bitmap_test i (alloc s).1 ≡ true
alloc_keeps s i v used = elim (alloc-Allocates s v.valid) [
  | inl (k, t) ↦ ground (arith, t.bits i)
  | inr (full, same) ↦ ap (λ (r : ℕ × Pmm). bitmap_test i r.1) same ∙ used
]

pub alloc-IsPages : (s : Pmm) → IsPages s → IsPages (alloc s).1
alloc-IsPages s v = record {
  valid = alloc-IsValid s v.valid;
  size = elim (alloc-Allocates s v.valid) [
    | inl (k, t) ↦ omega (arith, t.fields, v.size)
    | inr (full, same) ↦ omega (arith, ap (λ (r : ℕ × Pmm). r.1.total_pages) same, v.size)
  ];
  null = alloc_keeps s 0 v v.null;
}

module _ (s : Pmm) (v : IsPages s) (got : (alloc s).0 ≢ 0) where
  taken_page : (i : ℕ) × Takes 0 s.total_pages i s (alloc s)
  taken_page = elim (alloc-Allocates s v.valid) [
    | inl t ↦ t
    | inr (full, same) ↦ absurd (got (ap (λ (r : ℕ × Pmm). r.0) same))
  ]

  address-page : (alloc s).0 / 4096 ≡ taken_page.0
  address-page = omega (arith, taken_page.1.address)

alloc-total : (s : Pmm) → IsPages s → (alloc s).1.total_pages ≡ s.total_pages
alloc-total s v = elim (alloc-Allocates s v.valid) [
  | inl (k, t) ↦ omega (arith, t.fields)
  | inr (full, same) ↦ ap (λ (r : ℕ × Pmm). r.1.total_pages) same
]

keeps_used : (s : Pmm) (x : ℕ) → IsPages s → is_used s x ≡ true → is_used (alloc s).1 x ≡ true
keeps_used s x v used = elim (Bool-cases (leb s.total_pages (x / 4096))) [
  | inl out ↦ ground (arith, alloc-total s v, out)
  | inr in' ↦
      let bit : bitmap_test (x / 4096) s ≡ true = ground (arith, used, in') in
      ground (arith, alloc_keeps s (x / 4096) v bit)
]

pub pmm_frames-IsFrames : IsFrames pmm_frames IsPages is_used
pmm_frames-IsFrames = record {
  valid = alloc-IsPages;
  fresh = λ s v got.
      let (i, t) = taken_page s v got in
      let bit : bitmap_test ((alloc s).0 / 4096) s ≡ false =
        ap (λ j. bitmap_test j s) (address-page s v got) ∙ t.was_free in
      ground (arith, bit, address-page s v got, t.range);
  taken = λ s v got.
      let (i, t) = taken_page s v got in
      let bit : bitmap_test i (alloc s).1 ≡ true = ground (arith, t.bits i) in
      let here : bitmap_test ((alloc s).0 / 4096) (alloc s).1 ≡ true =
        ap (λ j. bitmap_test j (alloc s).1) (address-page s v got) ∙ bit in
      ground (arith, here);
  keeps = keeps_used;
  page = λ s v. elim (alloc-Allocates s v.valid) [
    | inl (i, t) ↦ omega (arith, t.address, t.range, v.size)
    | inr (full, same) ↦ omega (arith, ap (λ (r : ℕ × Pmm). r.0) same)
  ];
}

-- Null means that every page is used, and nothing changed.
pub alloc-null : (s : Pmm) → IsPages s → (alloc s).0 ≡ 0 → alloc s ≡ (0, s)
alloc-null s v null = elim (alloc-Allocates s v.valid) [
  | inl (k, t) ↦
      let first : k ≡ 0 = omega (arith, null, t.address) in
      let free : bitmap_test 0 s ≡ false = ap (λ i. bitmap_test i s) (sym first) ∙ t.was_free in
      let used = v.null in absurd (cc)
  | inr (full, same) ↦ same
]
