-- ===== src/Boot/Expand.antt =====
-- `expand` of memory/heap.cpp over the page tables and the page allocator: what is mapped then.
use mathlib.Core.Path.{subst}
use issanium.Prelude.{
  ℕ, zero, suc, ◌+◌, ◌-◌, ◌*◌, ◌%◌, ◌^◌, ◌≤◌, ◌<◌, ◌≡◌, ◌≢◌, refl, ap, sym, ◌∙◌, arith, true, not,
  ◌==◌, ltb, ◌⊎◌, inl, inr, Bool-cases, ==_iff,
}
use issanium.Pmm.{Pmm, alloc}
use issanium.Vmm.{Vmm, map_page, virt_to_phys, follow, page_at}
use issanium.Vmm.Tree.{Roles, IsTree}
use issanium.Vmm.Unmap.{Keeps}
use issanium.Vmm.Map.{virt_to_phys-map_page}
use issanium.Vmm.Offset.{virt_to_phys-page}
use issanium.Heap.{Heap, expand, grow}
use issanium.Boot.{pmm_frames, kernel_paging}
use issanium.Boot.Pages.{IsPages, is_used, pmm_frames-IsFrames, alloc-IsPages, alloc-null}

abbrev pub IsMapped : Vmm Pmm → ℕ → Type 0
IsMapped s a = kernel_paging.mapped s a ≡ true

-- The tables are a tree, under some roles.
abbrev pub HasTree : Vmm Pmm → Type 0
HasTree s = (r : Roles) × IsTree IsPages is_used r s

-- The allocator is out of pages.
abbrev pub IsOut : Vmm Pmm → Type 0
IsOut s = alloc s.pmm ≡ (0, s.pmm)

-- From `s` to `z`: every address below `end` in the lower half that was mapped is mapped.
abbrev pub KeepsBelow : ℕ → Vmm Pmm → Vmm Pmm → Type 0
KeepsBelow end s z = (a : ℕ) → a < end → IsMapped s a → IsMapped z a

-- No address of the lower half from `end` on has a translation.
abbrev pub IsFreeFrom : ℕ → Vmm Pmm → Type 0
IsFreeFrom end s = (a : ℕ) → end ≤ a → a < 2 ^ 47 → virt_to_phys a s ≡ 0

-- From `s` to `z`: no address of the lower half from `end` on gets a translation.
abbrev pub StaysFree : ℕ → Vmm Pmm → Vmm Pmm → Type 0
StaysFree end s z = (a : ℕ) → end ≤ a → a < 2 ^ 47 → virt_to_phys a s ≡ 0 → virt_to_phys a z ≡ 0

-- One round with a page: the page at `v`.
record Round (v : ℕ) (s z : Vmm Pmm) : Type 0 where
  tree : HasTree z
  kept : KeepsBelow v s z
  free : StaysFree (v + 4096) s z
  mapped : ((a : ℕ) → v ≤ a → a < v + 4096 → IsMapped z a) ⊎ IsOut z

IsMapped-same :
    (s z : Vmm Pmm) (a b : ℕ) → virt_to_phys a z ≡ virt_to_phys b s → IsMapped s b → IsMapped z a
IsMapped-same s z a b e m = ap (λ x. not (x == 0)) e ∙ m

-- What a call of the page allocator gives, and the state that it leaves.
abbrev given : Vmm Pmm → ℕ
given s = (alloc s.pmm).0

abbrev left : Vmm Pmm → Vmm Pmm
left s = record s { pmm = (alloc s.pmm).1 }

module _ (s : Vmm Pmm) (r : Roles) (tree : IsTree IsPages is_used r s) where
  left-IsTree : IsTree IsPages is_used r (left s)
  left-IsTree = record {
    offset = tree.offset;
    root = tree.root;
    allocator = alloc-IsPages s.pmm tree.allocator;
    child = tree.child;
    aligned = tree.aligned;
    taken = λ u h. pmm_frames-IsFrames.keeps s.pmm (u - s.hhdm) tree.allocator (tree.taken u h);
  }

  virt_to_phys-left : (a : ℕ) → virt_to_phys a (left s) ≡ virt_to_phys a s
  unfolding virt_to_phys follow page_at
  virt_to_phys-left a = refl

  map_given :
      (v : ℕ)
      → v % 4096 ≡ 0
      → v + 4096 ≤ 2 ^ 47
      → (given s) ≢ 0
      → Round v s (map_page pmm_frames v (given s) 2 (left s))
  unfolding Keeps
  map_given v av below got =
      let z = map_page pmm_frames v (given s) 2 (left s) in
      let page = pmm_frames-IsFrames.page s.pmm tree.allocator in
      let (trees, (keeps, outcome)) =
        virt_to_phys-map_page pmm_frames IsPages is_used pmm_frames-IsFrames r (left s) left-IsTree
          v (given s) 2 (omega arith) page.0 (omega (arith, page)) (omega arith) in
      record {
        tree = trees;
        kept = λ a lt m.
            IsMapped-same s z a a (keeps a (omega arith) (omega arith) ∙ virt_to_phys-left a) m;
        free = λ a le lt e. keeps a (omega arith) (omega arith) ∙ virt_to_phys-left a ∙ e;
        mapped = elim outcome [
          | inl made ↦ inl (λ a lo hi.
              let same = virt_to_phys-page z a v (omega arith) ∙ made.0 in
              let some : not ((given s) == 0) ≡ true = ground (arith, got) in
              ap (λ x. not (x == 0)) same ∙ some)
          | inr dry ↦
              let (p, (valid, null)) = dry.1 in
              let out = alloc-null p valid (ap (λ (x : ℕ × Pmm). x.0) null) in
              let same : p ≡ z.pmm = ap (λ (x : ℕ × Pmm). x.1) (sym out ∙ null) in
              inr (subst (λ x. alloc x ≡ (0, x)) same out)
        ];
      }

-- After `expand`: the tables are a tree and all pages are there, or the allocator is out of pages.
pub record Grown (n : ℕ) (h g : Heap (Vmm Pmm)) : Type 0 where
  pub tree : HasTree g.paging
  pub kept : KeepsBelow h.heap_end h.paging g.paging
  pub from : h.heap_end ≤ g.heap_end
  pub upto : g.heap_end ≤ h.heap_end + n * 4096
  pub free : StaysFree g.heap_end h.paging g.paging
  pub mapped :
      ((g.heap_end ≡ h.heap_end + n * 4096)
        × ((a : ℕ) → h.heap_end ≤ a → a < h.heap_end + n * 4096 → IsMapped g.paging a))
      ⊎ IsOut g.paging

-- Without a page nothing but the allocator's answer happens.
expand_out : (n : ℕ) (h : Heap (Vmm Pmm)) → IsOut h.paging → expand kernel_paging n h ≡ h
unfolding expand
expand_out zero h out = refl
expand_out (suc n) h out =
    let null : ((alloc h.paging.pmm).0 == 0) ≡ true = ap (λ (x : ℕ × Pmm). x.0 == 0) out in
    rw null (ap (λ (x : ℕ × Pmm). record h { paging = record h.paging { pmm = x.1 } }) out)

module _ (n : ℕ) (h : Heap (Vmm Pmm)) (below : h.heap_end + suc n * 4096 ≤ 2 ^ 47) where
  abbrev first : Heap (Vmm Pmm)
  first = grow kernel_paging (given h.paging) (left h.paging) h

  first-end : first.heap_end ≡ h.heap_end + 4096
  first-end = omega arith

  -- A round and the rounds after it.
  Round-Grown :
      (g : Heap (Vmm Pmm))
      → g ≡ expand kernel_paging n first
      → Round h.heap_end h.paging first.paging
      → Grown n first g
      → Grown (suc n) h g
  Round-Grown g e round rest =
      let kept : KeepsBelow h.heap_end h.paging g.paging =
        λ a lt m. rest.kept a (omega (arith, first-end)) (round.kept a lt m) in
      record {
        tree = rest.tree;
        kept = kept;
        from = omega (arith, rest.from, first-end);
        upto = omega (arith, rest.upto, first-end);
        free = λ a le lt u.
            rest.free a le lt (round.free a (omega (arith, rest.from, first-end, le)) lt u);
        mapped = elim round.mapped [
          | inr out ↦ inr (
              subst (λ (x : Heap (Vmm Pmm)). IsOut x.paging) (sym (e ∙ expand_out n first out)) out)
          | inl page ↦ elim rest.mapped [
            | inr out ↦ inr out
            | inl (end, pages) ↦ inl (
              omega (arith, end, first-end),
              λ a lo hi. elim (Bool-cases (ltb a (h.heap_end + 4096))) [
                | inl near ↦ rest.kept a (ground (arith, first-end)) (page a lo (ground arith))
                | inr far ↦ pages a (ground (arith, first-end)) (omega (arith, first-end))
              ],
            )
          ]
        ];
      }

-- `expand` over a tree of tables, from the start of a page and within the lower half, leaves a
-- tree. Every address below the old end that was mapped still is, and none from the new end on gets
-- a translation. All the pages asked for are mapped from the old end on and the end lies behind
-- them, or the allocator is out of pages.
pub expand-Grown :
    (n : ℕ) (h : Heap (Vmm Pmm))
    → HasTree h.paging
    → h.heap_end % 4096 ≡ 0
    → h.heap_end + n * 4096 ≤ 2 ^ 47
    → Grown n h (expand kernel_paging n h)
unfolding expand
expand-Grown zero h tree aligned below = record {
  tree = tree;
  kept = λ a lt m. m;
  from = omega arith;
  upto = omega arith;
  free = λ a le lt e. e;
  mapped = inl (omega arith, λ a lo hi. absurd (omega arith));
}
expand-Grown (suc n) h (r, tree) aligned below = elim (Bool-cases (given h.paging == 0)) [
  | inl null ↦
      let out = alloc-null h.paging.pmm tree.allocator ((==_iff (given h.paging) 0).0 null) in
      subst (λ g. Grown (suc n) h g) (sym (expand_out (suc n) h out))
        (record {
          tree = (r, tree);
          kept = λ a lt m. m;
          from = omega arith;
          upto = omega arith;
          free = λ a le lt e. e;
          mapped = inr out;
        })
  | inr some ↦
      let round =
        map_given h.paging r tree h.heap_end aligned (omega arith) (ground (arith, some)) in
      let e = first-end n h below in
      rw some (
        Round-Grown n h below (expand kernel_paging n (first n h below)) refl round
          (expand-Grown n (first n h below) round.tree (omega (arith, e)) (omega (arith, e))))
]
