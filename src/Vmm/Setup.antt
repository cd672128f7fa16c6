-- ===== src/Vmm/Setup.antt =====
-- `init` of memory/vmm.cpp: the first table, with the loader's entries of the higher half.
use mathlib.Core.Path.{subst}
use issanium.Prelude.{
  ℕ, ◌+◌, ◌-◌, ◌%◌, ◌^◌, ◌≤◌, ◌<◌, ◌≡◌, ◌≢◌, refl, ap, sym, ◌∙◌, arith, Bool, true, false, ◌==◌,
  if◌then◌else◌, inl, inr, Bool-cases, ==_iff,
}
use issanium.Prelude.Memory.{count_up, count_up_inv, write_ne}
use issanium.Vmm.{
  Vmm, Frames, is_present, slot, virt_to_phys, phys_to_virt, zero_page, copy_entry, init_tables,
}
use issanium.Vmm.Entry.{index, is_present-zero, lower-half}
use issanium.Vmm.Tree.{Roles, IsEntry, IsFrames, IsTree}
use issanium.Vmm.Below.{slot-ne}
use issanium.Vmm.Unmap.{page_of, page_of-none, entry_of-none, virt_to_phys-entry_of}

-- What the copying has done before round `k`.
record Copied (words : ℕ → ℕ) (new old k : ℕ) (m : ℕ → ℕ) : Type 0 where
  done : (j : ℕ) → 256 ≤ j → j < k → m (slot new j) ≡ words (slot old j)
  low : (j : ℕ) → j < 256 → m (slot new j) ≡ 0
  source : (j : ℕ) → j < 512 → m (slot old j) ≡ words (slot old j)

module _ (words : ℕ → ℕ) (new old : ℕ) (an : new % 4096 ≡ 0) (ao : old % 4096 ≡ 0)
    (ne : old ≢ new) where
  copy-round :
      (k : ℕ) (m : ℕ → ℕ)
      → 256 ≤ k
      → k < 512
      → Copied words new old k m
      → Copied words new old (k + 1) (copy_entry new old k m)
  copy-round k m lo hi c = record {
    done = λ j from below. elim (Bool-cases (k == j)) [
      | inl same ↦ let e = (==_iff k j).0 same in ground (arith, e, c.source k hi)
      | inr other ↦
          let apart : k ≢ j = ground arith in
          write_ne m (m (slot old k)) (omega (arith, apart)) ∙ c.done j from (omega (arith, apart))
    ];
    low = λ j below. write_ne m (m (slot old k)) (omega arith) ∙ c.low j below;
    source = λ j below.
        write_ne m (m (slot old k)) (slot-ne new old k j an ao hi below (inl ne))
        ∙ c.source j below;
  }

  zeroed-Copied : Copied words new old 256 (zero_page new words)
  zeroed-Copied = record {
    done = λ j from below. absurd (omega arith);
    low = λ j below. ground arith;
    source = λ j below. ground arith;
  }

  copied : Copied words new old 512 (count_up 256 256 (copy_entry new old) (zero_page new words))
  copied =
      count_up_inv (Copied words new old) (copy_entry new old) 256 256 512 (zero_page new words)
        refl copy-round zeroed-Copied

module _ {P : Type 0} (f : Frames P) (Valid : P → Type 0) (in_use : P → ℕ → Bool)
    (laws : IsFrames f Valid in_use) where
  -- What the loader hands over: its first table is a page in use.
  pub record IsLoaded (hhdm : ℕ) (s : Vmm P) : Type 0 where
    pub offset : (hhdm % 4096 ≡ 0) × (hhdm + 2 ^ 46 ≤ 2 ^ 64)
    pub allocator : Valid s.pmm
    pub some_page : (f.alloc_page s.pmm).0 ≢ 0
    pub loaded : (s.cr3 % 4096 ≡ 0) × (s.cr3 + hhdm + 4096 ≤ 2 ^ 64)
    pub held : in_use s.pmm s.cr3 ≡ true

  module _ (hhdm : ℕ) (s : Vmm P) (h : IsLoaded hhdm s) where
    abbrev new : ℕ
    new = (f.alloc_page s.pmm).0 + hhdm

    abbrev old : ℕ
    old = s.cr3 + hhdm

    abbrev root_roles : Roles
    root_roles = record { level = λ t. if new == t then 4 else 0; serves = λ t. 0 }

    shape : ((f.alloc_page s.pmm).0 % 4096 ≡ 0) × ((f.alloc_page s.pmm).0 < 2 ^ 46)
    shape = laws.page s.pmm h.allocator

    old-ne : old ≢ new
    old-ne e =
        let same : s.cr3 ≡ (f.alloc_page s.pmm).0 = omega arith in
        let free = laws.fresh s.pmm h.allocator h.some_page in
        let used : in_use s.pmm (f.alloc_page s.pmm).0 ≡ true =
          ap (in_use s.pmm) (sym same) ∙ h.held in
        cc

    tables-copied : Copied s.words new old 512 (init_tables f hhdm s).words
    unfolding init_tables
    tables-copied =
        let first : phys_to_virt hhdm (f.alloc_page s.pmm).0 ≡ new =
          omega (arith, shape, h.offset) in
        let second : phys_to_virt hhdm s.cr3 ≡ old = omega (arith, h.loaded, h.offset) in
        rw (first, second)
          (copied s.words new old (omega (arith, shape, h.offset))
            (omega (arith, h.loaded, h.offset)) old-ne)

    fields : ((init_tables f hhdm s).pml4 ≡ new) × ((init_tables f hhdm s).hhdm ≡ hhdm)
    unfolding init_tables
    fields = (omega (arith, shape, h.offset), refl)

    pmm-init_tables : (init_tables f hhdm s).pmm ≡ (f.alloc_page s.pmm).1
    unfolding init_tables
    pmm-init_tables = refl

    cr3-root : new ≡ (init_tables f hhdm s).cr3 + hhdm
    unfolding init_tables
    cr3-root = refl

    new-far : (new % 4096 ≡ 0) × (hhdm < new)
    new-far = omega (arith, shape, h.offset, h.some_page)

    level-new : (t : ℕ) → root_roles.level t ≢ 0 → t ≡ new
    level-new t some = ground arith

    level-root : root_roles.level new ≡ 4
    level-root = ground arith

    no_entry :
        (t i : ℕ)
        → IsEntry root_roles t i
        → is_present ((init_tables f hhdm s).words (slot t i)) ≡ false
    no_entry t i e =
        let same = level-new t (omega (arith, e.inner)) in
        let low = e.half (ap root_roles.level same ∙ level-root) in
        ap (λ a. is_present ((init_tables f hhdm s).words (slot a i))) same
        ∙ ap is_present (tables-copied.low i low)
        ∙ is_present-zero

    root-IsTree : IsTree Valid in_use root_roles (init_tables f hhdm s)
    unfolding init_tables
    root-IsTree = record {
      offset = h.offset;
      root = (ap root_roles.level fields.0 ∙ level-root, refl);
      allocator = ap-valid;
      child = λ t i e there. absurd (contradiction t i e there);
      aligned = λ t some. subst (λ a. (a % 4096 ≡ 0) × (hhdm < a)) (sym (level-new t some)) new-far;
      taken = λ t some.
          let back : t - hhdm ≡ (f.alloc_page s.pmm).0 = omega (arith, level-new t some) in
          ap (in_use (f.alloc_page s.pmm).1) back ∙ laws.taken s.pmm h.allocator h.some_page;
    }
      where
        ap-valid : Valid (init_tables f hhdm s).pmm
        ap-valid = subst Valid (sym pmm-init_tables) (laws.valid s.pmm h.allocator)

        contradiction :
            (t i : ℕ)
            → IsEntry root_roles t i
            → is_present ((init_tables f hhdm s).words (slot t i)) ≡ true
            → ⊥
        contradiction t i e there = let none = no_entry t i e in cc

    no_page : (v : ℕ) → v < 2 ^ 47 → virt_to_phys v (init_tables f hhdm s) ≡ 0
    no_page v low =
        let z = init_tables f hhdm s in
        let half = lower-half v low in
        let none : is_present (z.words (slot z.pml4 (index 3 v))) ≡ false =
          ap (λ t. is_present (z.words (slot t (index 3 v)))) fields.0
          ∙ ap is_present (tables-copied.low (index 3 v) half.0)
          ∙ is_present-zero in
        virt_to_phys-entry_of v z
        ∙ ap page_of (entry_of-none z 2 z.pml4 v none)
        ∙ page_of-none 0 is_present-zero

    -- `init` with a free page and the loader's table in use makes a tree of one table that is in
    -- cr3 and translates no page of the lower half; its higher half is a copy of the loader's.
    pub init_tables-IsTree :
        ((r : Roles) × IsTree Valid in_use r (init_tables f hhdm s))
        × (((v : ℕ) → v < 2 ^ 47 → virt_to_phys v (init_tables f hhdm s) ≡ 0)
            × (((init_tables f hhdm s).pml4 ≡ (init_tables f hhdm s).cr3 + hhdm)
                × ((j : ℕ)
                    → 256 ≤ j
                    → j < 512
                    → (init_tables f hhdm s).words (slot (init_tables f hhdm s).pml4 j)
                      ≡ s.words (slot (s.cr3 + hhdm) j))))
    init_tables-IsTree = (
      (root_roles, root-IsTree),
      (
        no_page,
        (
          fields.0 ∙ cr3-root,
          λ j from below.
              ap (λ t. (init_tables f hhdm s).words (slot t j)) fields.0
              ∙ tables-copied.done j from below,
        ),
      ),
    )
