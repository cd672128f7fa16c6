-- ===== src/Vmm/Unmap.antt =====
-- `virt_to_phys` and `unmap` of memory/vmm.cpp: the lookup through the tree, and its removal.
use mathlib.Core.Path.{subst}
use issanium.Prelude.{
  ℕ, zero, suc, ◌+◌, ◌*◌, ◌/◌, ◌^◌, ◌<◌, ◌≡◌, ◌≢◌, refl, ap, sym, ◌∙◌, arith, Bool, true, false,
  if◌then◌else◌, ◌⊎◌, inl, inr, Bool-cases, ◌∷◌,
}
use issanium.Vmm.{
  Vmm, is_present, frame_of, table_of, slot, set_leaf, follow, unmap, page_at, virt_to_phys,
}
use issanium.Vmm.Entry.{
  prefix, index, prefix-suc, is_present-zero, pml4_idx-index, pdpt_idx-index, pd_idx-index,
  pt_idx-index, lower-half,
}
use issanium.Vmm.Tree.{Roles, IsTree, entry_of}
use issanium.Vmm.Below.{there-Below}
use issanium.Vmm.Lookup.{entry_of-down, IsEntry-index}
use issanium.Vmm.Change.{
  Reads, Changed, same-Changed, leaf-Changed, entry_of-leaf, Changed-Below, entry_of-step,
}

-- What `virt_to_phys` gives for the entry of a page.
unfoldable pub page_of : ℕ → ℕ
page_of entry = if is_present entry then frame_of entry else 0

pub page_of-none : (entry : ℕ) → is_present entry ≡ false → page_of entry ≡ 0
unfolding page_of
page_of-none entry none = rw none refl

module _ {P : Type 0} where
  pub entry_of-none :
      (s : Vmm P) (n t v : ℕ)
      → is_present (s.words (slot t (index (suc n) v))) ≡ false
      → entry_of s (suc n) t v ≡ 0
  unfolding entry_of
  entry_of-none s n t v none = rw none refl

  follow-there :
      {R : Type 0} (t i : ℕ) (none : R) (next : ℕ → R) (s : Vmm P)
      → is_present (s.words (slot t i)) ≡ true
      → follow t i none next s ≡ next (table_of s.hhdm (s.words (slot t i)))
  unfolding follow
  follow-there t i none next s there = rw there refl

  follow-none :
      {R : Type 0} (t i : ℕ) (none : R) (next : ℕ → R) (s : Vmm P)
      → is_present (s.words (slot t i)) ≡ false
      → follow t i none next s ≡ none
  unfolding follow
  follow-none t i none next s empty = rw empty refl

  -- `virt_to_phys` from a table of level `n + 1` down.
  unfoldable find_from : ℕ → ℕ → ℕ → Vmm P → ℕ
  find_from zero t v s = page_at (slot t (index 0 v)) s
  find_from (suc n) t v s = follow t (index (suc n) v) 0 (λ c. find_from n c v s) s

  find_from-entry_of : (n t v : ℕ) (s : Vmm P) → find_from n t v s ≡ page_of (entry_of s n t v)
  unfolding find_from page_at entry_of page_of
  find_from-entry_of zero t v s = refl
  find_from-entry_of (suc n) t v s =
      let e = s.words (slot t (index (suc n) v)) in
      elim (Bool-cases (is_present e)) [
        | inl there ↦
            follow-there t (index (suc n) v) 0 (λ c. find_from n c v s) s there
            ∙ find_from-entry_of n (table_of s.hhdm e) v s
            ∙ ap page_of (sym (entry_of-down s n t (table_of s.hhdm e) v there refl))
        | inr none ↦
            follow-none t (index (suc n) v) 0 (λ c. find_from n c v s) s none
            ∙ sym (ap page_of (entry_of-none s n t v none) ∙ page_of-none 0 is_present-zero)
      ]

  virt_to_phys-find_from : (v : ℕ) (s : Vmm P) → virt_to_phys v s ≡ find_from 3 s.pml4 v s
  unfolding virt_to_phys find_from
  virt_to_phys-find_from v s =
      rw (pml4_idx-index v, pdpt_idx-index v, pd_idx-index v, pt_idx-index v) refl

  pub virt_to_phys-entry_of :
      (v : ℕ) (s : Vmm P) → virt_to_phys v s ≡ page_of (entry_of s 3 s.pml4 v)
  virt_to_phys-entry_of v s = virt_to_phys-find_from v s ∙ find_from-entry_of 3 s.pml4 v s

-- `unmap` from a table of level `n + 1` down.
unfoldable unmap_from : {P : Type 0} → ℕ → ℕ → ℕ → Vmm P → Vmm P
unmap_from zero t v s = set_leaf (slot t (index 0 v)) 0 v s
unmap_from (suc n) t v s = follow t (index (suc n) v) s (λ c. unmap_from n c v s) s

unmap-unmap_from : {P : Type 0} (v : ℕ) (s : Vmm P) → unmap v s ≡ unmap_from 3 s.pml4 v s
unfolding unmap unmap_from follow
unmap-unmap_from v s = rw (pml4_idx-index v, pdpt_idx-index v, pd_idx-index v, pt_idx-index v) refl

module _ {P : Type 0} (Valid : P → Type 0) (in_use : P → ℕ → Bool) (r : Roles) (s : Vmm P)
    (tree : IsTree Valid in_use r s) (v : ℕ) where
  -- What `unmap` leaves: no entry for the page, and a flush if there was a table of entries.
  abbrev pub Removed : ℕ → ℕ → Vmm P → Type 0
  Removed n t z =
      Changed Valid in_use r r s z n v
      × ((is_present (entry_of z n t v) ≡ false) × ((z ≡ s) ⊎ (z.flushed ≡ v ∷ s.flushed)))

  -- From a table to the one below it, on the way to `v`.
  pub Reads-child :
      (n t : ℕ)
      → Reads r (suc n) t v
      → is_present (s.words (slot t (index (suc n) v))) ≡ true
      → Reads r n (table_of s.hhdm (s.words (slot t (index (suc n) v)))) v
  Reads-child n t h there =
      let e = IsEntry-index Valid in_use r s tree n t v h.level h.half (omega (arith, h.small)) in
      let lead = tree.child t (index (suc n) v) e there in
      record {
        level = omega (arith, lead.0, h.level);
        serves =
            lead.1
            ∙ ap (λ (a : ℕ). a * 512 + index (suc n) v) h.serves
            ∙ sym (prefix-suc (suc n) v);
        small = omega (arith, h.small);
        half = h.half;
      }

  unmap_from-Removed : (n t : ℕ) → Reads r n t v → Removed n t (unmap_from n t v s)
  unfolding unmap_from set_leaf
  unmap_from-Removed zero t h = (
    leaf-Changed Valid in_use r s tree t v 0 h.level h.serves,
    (
      ap is_present (entry_of-leaf Valid in_use r s tree t v 0 h.level h.serves) ∙ is_present-zero,
      inr refl,
    ),
  )
  unmap_from-Removed (suc n) t h =
      let e = s.words (slot t (index (suc n) v)) in
      elim (Bool-cases (is_present e)) [
        | inl there ↦
            let c = table_of s.hhdm e in
            let entry =
              IsEntry-index Valid in_use r s tree n t v h.level h.half (omega (arith, h.small)) in
            let b = there-Below Valid in_use r s tree t (index (suc n) v) entry there in
            let rest = unmap_from-Removed n c (Reads-child n t h there) in
            let y = unmap_from n c v s in
            subst (λ z. Removed (suc n) t z)
              (sym (follow-there t (index (suc n) v) s (λ k. unmap_from n k v s) s there))
              (
                Changed-Below Valid in_use r r r s s y n t c v tree b h.level rest.0,
                (
                  ap is_present
                        (entry_of-step Valid in_use r r r s s y n t c v tree b h.level rest.0)
                      ∙ rest.1.0,
                  rest.1.1,
                ),
              )
        | inr none ↦
            subst (λ z. Removed (suc n) t z)
              (sym (follow-none t (index (suc n) v) s (λ k. unmap_from n k v s) s none))
              (
                same-Changed Valid in_use r s tree (suc n) v,
                (ap is_present (entry_of-none s n t v none) ∙ is_present-zero, inl refl),
              )
      ]

module _ {P : Type 0} (Valid : P → Type 0) (in_use : P → ℕ → Bool) (r : Roles) (s : Vmm P)
    (tree : IsTree Valid in_use r s) where
  -- Every lookup of the lower half starts at the first table.
  pub Reads-root : (v : ℕ) → v < 2 ^ 47 → Reads r 3 s.pml4 v
  Reads-root v h = record {
    level = tree.root.0;
    serves = tree.root.1 ∙ sym (lower-half v h).1;
    small = omega arith;
    half = (lower-half v h).0;
  }

  -- The other pages keep their translation.
  unfoldable pub Keeps : ℕ → Vmm P → Type 0
  Keeps v z = (w : ℕ) → w < 2 ^ 47 → w / 4096 ≢ v / 4096 → virt_to_phys w z ≡ virt_to_phys w s

  pub Changed-Keeps : (q : Roles) (z : Vmm P) (v : ℕ) → Changed Valid in_use r q s z 3 v → Keeps v z
  unfolding Keeps prefix
  Changed-Keeps q z v ch w h ne =
      virt_to_phys-entry_of w z
      ∙ ap (λ t. page_of (entry_of z 3 t w)) ch.fields.0
      ∙ ap page_of (ch.others 3 s.pml4 w (Reads-root w h) ne)
      ∙ sym (virt_to_phys-entry_of w s)

  -- After `unmap` of an address of the lower half, its page has no translation, the other pages
  -- keep theirs, the tables are a tree with the same roles, and the address was flushed unless
  -- nothing changed.
  pub virt_to_phys-unmap :
      (v : ℕ)
      → v < 2 ^ 47
      → (let z = unmap v s in
          ((virt_to_phys v z ≡ 0) × Keeps v z)
          × (IsTree Valid in_use r z × ((z ≡ s) ⊎ (z.flushed ≡ v ∷ s.flushed))))
  virt_to_phys-unmap v h =
      let z = unmap v s in
      let done =
        subst (λ x. Removed Valid in_use r s tree v 3 s.pml4 x) (sym (unmap-unmap_from v s))
          (unmap_from-Removed Valid in_use r s tree v 3 s.pml4 (Reads-root v h)) in
      let gone : virt_to_phys v z ≡ 0 =
        virt_to_phys-entry_of v z
        ∙ ap (λ t. page_of (entry_of z 3 t v)) done.0.fields.0
        ∙ page_of-none (entry_of z 3 s.pml4 v) done.1.0 in
      ((gone, Changed-Keeps r z v done.0), (done.0.tree, done.1.1))
