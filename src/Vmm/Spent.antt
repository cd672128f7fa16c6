-- ===== src/Vmm/Spent.antt =====
-- How many pages `map` of memory/vmm.cpp asks for: one for each table on its way, at most.
use mathlib.Core.Path.{subst}
use issanium.Prelude.{ℕ, zero, suc, ◌+◌, ◌≡◌, arith, ◌==◌, inl, inr, Bool-cases}
use issanium.Vmm.{
  Vmm, Frames, is_present, slot, set_leaf, create_table, get_or_create_table, descend, map_page,
  make_entry,
}
use issanium.Vmm.Entry.{index}
use issanium.Vmm.Map.{map_from, map_page-map_from}

-- `Has k` says that an allocator can give `k` pages.
module _ {P : Type 0} (f : Frames P) (Has : ℕ → P → Type 0)
    (fewer : (k : ℕ) (p : P) → Has (suc k) p → Has k p)
    (spend : (k : ℕ) (p : P) → Has (suc k) p → Has k (f.alloc_page p).1) where
  recount : {i j : ℕ} (p : P) → i ≡ j → Has i p → Has j p
  recount p e h = subst (λ n. Has n p) e h

  fewer_by : (n k : ℕ) (p : P) → Has (n + k) p → Has k p
  fewer_by zero k p h = recount p (omega arith) h
  fewer_by (suc n) k p h = fewer_by n k p (fewer (n + k) p (recount p (omega arith) h))

  get_or_create_table-Has :
      (k t i flags : ℕ) (s : Vmm P)
      → Has (suc k) s.pmm
      → Has k (get_or_create_table f t i flags s).1.pmm
  unfolding get_or_create_table create_table
  get_or_create_table-Has k t i flags s h = elim (Bool-cases (is_present (s.words (slot t i)))) [
    | inl there ↦ rw there (fewer k s.pmm h)
    | inr empty ↦ elim (Bool-cases ((f.alloc_page s.pmm).0 == 0)) [
      | inl null ↦ rw (empty, null) (spend k s.pmm h)
      | inr page ↦ rw (empty, page) (spend k s.pmm h)
    ]
  ]

  map_from-Has : (n k t v x : ℕ) (s : Vmm P) → Has (n + k) s.pmm → Has k (map_from f n t v x s).pmm
  unfolding map_from set_leaf descend
  map_from-Has zero k t v x s h = recount s.pmm (omega arith) h
  map_from-Has (suc n) k t v x s h =
      let i = index (suc n) v in
      let g = get_or_create_table f t i 6 s in
      let next = get_or_create_table-Has (n + k) t i 6 s (recount s.pmm (omega arith) h) in
      elim (Bool-cases (g.0 == 0)) [
        | inl null ↦ rw null (fewer_by n k g.1.pmm next)
        | inr table ↦ rw table (map_from-Has n k g.0 v x g.1 next)
      ]

  pub map_page-Has :
      (k v phys flags : ℕ) (s : Vmm P) → Has (3 + k) s.pmm → Has k (map_page f v phys flags s).pmm
  map_page-Has k v phys flags s h =
      rw (map_page-map_from f v phys flags s)
        (map_from-Has 3 k s.pml4 v (make_entry phys flags) s h)
