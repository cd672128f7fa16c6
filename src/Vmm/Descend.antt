-- ===== src/Vmm/Descend.antt =====
-- `get_or_create_table` of memory/vmm.cpp: the tree with the table below an entry.
use issanium.Prelude.{
  ℕ, ◌-◌, ◌≡◌, ◌≢◌, refl, ap, arith, Bool, ◌==◌, ◌⊎◌, inl, inr, Bool-cases, ==_iff,
}
use issanium.Vmm.{Vmm, Frames, is_present, table_of, slot, create_table, get_or_create_table}
use issanium.Vmm.Below.{Below, there-Below}
use issanium.Vmm.Create.{created-Below}
use issanium.Vmm.Tree.{Roles, IsEntry, IsFrames, IsTree}

module _ {P : Type 0} (f : Frames P) (Valid : P → Type 0) (in_use : P → ℕ → Bool)
    (laws : IsFrames f Valid in_use) where
  module _ (r : Roles) (s : Vmm P) (tree : IsTree Valid in_use r s) (t i : ℕ)
      (e : IsEntry r t i) where
    abbrev page : ℕ
    page = (f.alloc_page s.pmm).0

    -- No page was left for a table.
    pub record IsExhausted (z : Vmm P) : Type 0 where
      pub still : IsTree Valid in_use r z
      pub same : z.words ≡ s.words
      pub fields : (z.pml4 ≡ s.pml4) × (z.hhdm ≡ s.hhdm)
      pub flushed : z.flushed ≡ s.flushed
      pub dry : f.alloc_page s.pmm ≡ (0, z.pmm)

    refused-IsTree : IsTree Valid in_use r (record s { pmm = (f.alloc_page s.pmm).1 })
    refused-IsTree = record {
      offset = tree.offset;
      root = tree.root;
      allocator = laws.valid s.pmm tree.allocator;
      child = tree.child;
      aligned = tree.aligned;
      taken = λ u h. laws.keeps s.pmm (u - s.hhdm) tree.allocator (tree.taken u h);
    }

    -- `get_or_create_table` gives null and changes no table, or gives the table below the entry.
    pub get_or_create_table-Below :
        (let g = get_or_create_table f t i 6 s in
          ((g.0 ≡ 0) × IsExhausted g.1)
          ⊎ ((g.0 ≢ 0) × ((q : Roles) × Below Valid in_use r q s g.1 t i g.0)))
    unfolding get_or_create_table create_table
    get_or_create_table-Below = elim (Bool-cases (is_present (s.words (slot t i)))) [
      | inl there ↦
          let b = there-Below Valid in_use r s tree t i e there in
          let c = table_of s.hhdm (s.words (slot t i)) in
          let far = tree.aligned c (omega (arith, b.role, e.inner)) in
          rw there (inr (omega (arith, far), (r, b)))
      | inr empty ↦ elim (Bool-cases (page == 0)) [
        | inl null ↦
            rw (empty, null)
              (inl (
                refl,
                record {
                  still = refused-IsTree;
                  same = refl;
                  fields = (refl, refl);
                  flushed = refl;
                  dry = ap (λ a. (a, (f.alloc_page s.pmm).1)) ((==_iff page 0).0 null);
                },
              ))
        | inr got ↦
            inr (created-Below f Valid in_use laws r s tree t i e (ground (arith, got)) empty)
      ]
    ]
