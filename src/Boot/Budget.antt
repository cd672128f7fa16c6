-- ===== src/Boot/Budget.antt =====
-- memory/heap.cpp over memory/vmm.cpp and memory/pmm.cpp: how many pages an expansion takes, and
-- that with so many free ones it does not run out.
use mathlib.Core.Path.{subst}
use issanium.Prelude.{
  ℕ, zero, suc, ◌+◌, ◌*◌, ◌≤◌, ◌≡◌, ap, sym, ◌∙◌, arith, false, ◌==◌, inl, inr, Bool-cases,
}
use issanium.Pmm.{Pmm, alloc, bitmap_test}
use issanium.Pmm.Count.{free_below-full}
use issanium.Pmm.Alloc.{alloc-Allocates}
use issanium.Vmm.{Vmm}
use issanium.Vmm.Spent.{map_page-Has}
use issanium.Heap.{Heap, expand, grow}
use issanium.Boot.{pmm_frames, kernel_paging}
use issanium.Boot.Pages.{IsPages, alloc-IsPages}
use issanium.Boot.Expand.{IsOut}

-- The allocator has so many free pages.
pub record HasFree (k : ℕ) (s : Pmm) : Type 0 where
  pub pages : IsPages s
  pub free : k ≤ s.free_pages

fewer : (k : ℕ) (s : Pmm) → HasFree (suc k) s → HasFree k s
fewer k s h = record { pages = h.pages; free = omega (arith, h.free) }

pub spend : (k : ℕ) (s : Pmm) → HasFree (suc k) s → HasFree k (alloc s).1
spend k s h = record {
  pages = alloc-IsPages s h.pages;
  free = elim (alloc-Allocates s h.pages.valid) [
    | inl (i, t) ↦ omega (arith, t.fewer, h.free)
    | inr (full, same) ↦ omega (arith, ap (λ (r : ℕ × Pmm). r.1.free_pages) same, h.free)
  ];
}

-- `expand` takes at most four pages for each of its own.
pub expand-HasFree :
    (n k : ℕ) (h : Heap (Vmm Pmm))
    → HasFree (n * 4 + k) h.paging.pmm
    → HasFree k (expand kernel_paging n h).paging.pmm
unfolding expand
expand-HasFree zero k h b = subst (λ j. HasFree j h.paging.pmm) (omega arith) b
expand-HasFree (suc n) k h b =
    let left : HasFree (suc (3 + (n * 4 + k))) h.paging.pmm =
      subst (λ j. HasFree j h.paging.pmm) (omega arith) b in
    let spent = spend (3 + (n * 4 + k)) h.paging.pmm left in
    let s = record h.paging { pmm = (alloc h.paging.pmm).1 } in
    let page = (alloc h.paging.pmm).0 in
    let mapped =
      map_page-Has pmm_frames HasFree fewer spend (n * 4 + k) h.heap_end page 2 s spent in
    elim (Bool-cases (page == 0)) [
      | inl null ↦ rw null (record { pages = spent.pages; free = omega (arith, spent.free) })
      | inr some ↦ rw some (expand-HasFree n k (grow kernel_paging page s h) mapped)
    ]

-- The allocator is not out of pages while one is free.
pub IsOut-ne : (s : Vmm Pmm) → HasFree 1 s.pmm → ¬ (IsOut s)
IsOut-ne s h out = elim (alloc-Allocates s.pmm h.pages.valid) [
  | inl (i, t) ↦
      let first : i ≡ 0 = omega (arith, t.address, ap (λ (r : ℕ × Pmm). r.0) out) in
      let free : bitmap_test 0 s.pmm ≡ false =
        ap (λ q. bitmap_test q s.pmm) (sym first) ∙ t.was_free in
      let used = h.pages.null in absurd (cc)
  | inr (full, same) ↦
      let none = free_below-full s.pmm.total_pages s.pmm (λ q lt. full q (omega arith) lt) in
      absurd (omega (arith, none, h.pages.valid.counted, h.free))
]
