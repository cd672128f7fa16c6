-- ===== src/Vmm/Map.antt =====
-- `map` of memory/vmm.cpp: the translation that it makes, or that no page was left for a table.
use mathlib.Core.Path.{subst}
use issanium.Prelude.{
  ℕ, zero, suc, ◌+◌, ◌*◌, ◌%◌, ◌^◌, ◌<◌, ◌≡◌, ◌≢◌, refl, ap, sym, ◌∙◌, arith, Bool, false, ◌==◌,
  ◌⊎◌, inl, inr, ◌∷◌,
}
use issanium.Vmm.{
  Vmm, Frames, make_entry, table_of, slot, set_leaf, virt_to_phys, get_or_create_table, descend,
  map_page,
}
use issanium.Vmm.Entry.{
  index, index-lt, prefix-suc, pml4_idx-index, pdpt_idx-index, pd_idx-index, pt_idx-index,
  is_present-make_entry, frame_of-make_entry,
}
use issanium.Vmm.Tree.{Roles, IsEntry, IsFrames, IsTree, entry_of}
use issanium.Vmm.Below.{Below}
use issanium.Vmm.Descend.{IsExhausted, get_or_create_table-Below}
use issanium.Vmm.Lookup.{entry_of-same, entry_of-Below, IsEntry-index}
use issanium.Vmm.Change.{
  Reads, Reads-kept, Changed, leaf-Changed, entry_of-leaf, Changed-Below, entry_of-step,
}
use issanium.Vmm.Unmap.{page_of, virt_to_phys-entry_of, Reads-root, Keeps, Changed-Keeps}

module _ {P : Type 0} (f : Frames P) where
  -- `map` from a table of level `n + 1` down.
  unfoldable pub map_from : ℕ → ℕ → ℕ → ℕ → Vmm P → Vmm P
  map_from zero t v x s = set_leaf (slot t (index 0 v)) x v s
  map_from (suc n) t v x s = descend f t (index (suc n) v) (λ c. map_from n c v x) s

  pub map_page-map_from :
      (v phys flags : ℕ) (s : Vmm P)
      → map_page f v phys flags s ≡ map_from 3 s.pml4 v (make_entry phys flags) s
  unfolding map_page map_from
  map_page-map_from v phys flags s =
      rw (pml4_idx-index v, pdpt_idx-index v, pd_idx-index v, pt_idx-index v) refl

  descend-null :
      (t i : ℕ) (next : ℕ → Vmm P → Vmm P) (s : Vmm P)
      → (get_or_create_table f t i 6 s).0 ≡ 0
      → descend f t i next s ≡ (get_or_create_table f t i 6 s).1
  unfolding descend
  descend-null t i next s null = rw null refl

  descend-table :
      (t i : ℕ) (next : ℕ → Vmm P → Vmm P) (s : Vmm P)
      → (get_or_create_table f t i 6 s).0 ≢ 0
      → descend f t i next s
        ≡ next (get_or_create_table f t i 6 s).0 (get_or_create_table f t i 6 s).1
  unfolding descend
  descend-table t i next s some =
      let e : ((get_or_create_table f t i 6 s).0 == 0) ≡ false = ground (arith, some) in rw e refl

module _ {P : Type 0} (f : Frames P) (Valid : P → Type 0) (in_use : P → ℕ → Bool)
    (laws : IsFrames f Valid in_use) (v x : ℕ) where
  -- An allocation failed, and no lookup changed.
  pub record IsDry (r : Roles) (s z : Vmm P) : Type 0 where
    pub lookups : (m u w : ℕ) → Reads r m u w → entry_of z m u w ≡ entry_of s m u w
    pub dry : (p : P) × (Valid p × (f.alloc_page p ≡ (0, z.pmm)))
    pub flushed : z.flushed ≡ s.flushed

  -- The page has its entry and is flushed; or an allocation failed.
  abbrev pub Maps : Roles → Vmm P → ℕ → ℕ → Vmm P → Type 0
  Maps r s n t z =
      (q : Roles) × (Changed Valid in_use r q s z n v
        × (((entry_of z n t v ≡ x) × (z.flushed ≡ v ∷ s.flushed)) ⊎ IsDry r s z))

  abbrev Written : Roles → Vmm P → ℕ → ℕ → Vmm P → Type 0
  Written r s n t z = ((entry_of z n t v ≡ x) × (z.flushed ≡ v ∷ s.flushed)) ⊎ IsDry r s z

  entry_of-copy :
      (s z : Vmm P)
      → z.words ≡ s.words
      → z.hhdm ≡ s.hhdm
      → (m u w : ℕ) → entry_of z m u w ≡ entry_of s m u w
  unfolding entry_of
  entry_of-copy s z e h zero u w = ap (λ g. g (slot u (index 0 w))) e
  entry_of-copy s z e h (suc m) u w =
      let a = slot u (index (suc m) w) in
      entry_of-same s z m u w h (ap (λ g. g a) e)
        (λ there. entry_of-copy s z e h m (table_of s.hhdm (s.words a)) w)

  module _ (r : Roles) (s : Vmm P) (tree : IsTree Valid in_use r s) (n t : ℕ)
      (h : Reads r (suc n) t v) where
    abbrev i : ℕ
    i = index (suc n) v

    on_way : IsEntry r t i
    on_way = IsEntry-index Valid in_use r s tree n t v h.level h.half (omega (arith, h.small))

    exhausted-Maps :
        (z : Vmm P) → IsExhausted f Valid in_use laws r s tree t i on_way z → Maps r s (suc n) t z
    exhausted-Maps z d =
        let copy = entry_of-copy s z d.same d.fields.1 in
        (
          r,
          (
            record {
              tree = d.still;
              kept = λ u k. (refl, refl);
              others = λ m u w k ne. copy m u w;
              upper = λ u j k hj. ap (λ g. g (slot u j)) d.same;
              fields = d.fields;
            },
            inr (record {
              lookups = λ m u w k. copy m u w;
              dry = (s.pmm, (tree.allocator, d.dry));
              flushed = d.flushed;
            }),
          ),
        )

    module _ (q : Roles) (z : Vmm P) (c : ℕ) (b : Below Valid in_use r q s z t i c) where
      Reads-next : Reads q n c v
      Reads-next = record {
        level = omega (arith, b.role.0, h.level);
        serves = b.role.1 ∙ ap (λ (a : ℕ). a * 512 + i) h.serves ∙ sym (prefix-suc (suc n) v);
        small = omega (arith, h.small);
        half = h.half;
      }

      Written-step :
          (p : Roles) (y : Vmm P)
          → Changed Valid in_use q p z y n v
          → Written q z n c y
          → Written r s (suc n) t y
      Written-step p y ch done = elim done [
        | inl w ↦ inl (
          entry_of-step Valid in_use r q p s z y n t c v tree b h.level ch ∙ w.0,
          w.1 ∙ ap (λ l. v ∷ l) b.flushed,
        )
        | inr d ↦ inr (record {
          lookups = λ m u w k.
              d.lookups m u w (Reads-kept r q m u w (b.kept u (omega (arith, k.level))) k)
              ∙ entry_of-Below Valid in_use r s tree q z t i c b (omega (arith, h.level))
                  (index-lt (suc n) v) m u w k.level k.small k.half;
          dry = d.dry;
          flushed = d.flushed ∙ b.flushed;
        })
      ]

      step-Maps : (y : Vmm P) → Maps q z n c y → Maps r s (suc n) t y
      step-Maps y (p, (ch, done)) = (
        p,
        (
          Changed-Below Valid in_use r q p s z y n t c v tree b h.level ch,
          Written-step p y ch done,
        ),
      )

  map_from-Maps :
      (n t : ℕ) (r : Roles) (s : Vmm P)
      → IsTree Valid in_use r s
      → Reads r n t v
      → Maps r s n t (map_from f n t v x s)
  unfolding map_from set_leaf
  map_from-Maps zero t r s tree h = (
    r,
    (
      leaf-Changed Valid in_use r s tree t v x h.level h.serves,
      inl (entry_of-leaf Valid in_use r s tree t v x h.level h.serves, refl),
    ),
  )
  map_from-Maps (suc n) t r s tree h =
      let i = index (suc n) v in
      let g = get_or_create_table f t i 6 s in
      let next : ℕ → Vmm P → Vmm P = λ c. map_from f n c v x in
      elim (get_or_create_table-Below f Valid in_use laws r s tree t i (on_way r s tree n t h)) [
        | inl (null, d) ↦
            subst (λ z. Maps r s (suc n) t z) (sym (descend-null f t i next s null))
              (exhausted-Maps r s tree n t h g.1 d)
        | inr (some, (q, b)) ↦
            subst (λ z. Maps r s (suc n) t z) (sym (descend-table f t i next s some))
              (step-Maps r s tree n t h q g.1 g.0 b (next g.0 g.1)
                (map_from-Maps n g.0 q g.1 b.tree (Reads-next r s tree n t h q g.1 g.0 b)))
      ]

module _ {P : Type 0} (f : Frames P) (Valid : P → Type 0) (in_use : P → ℕ → Bool)
    (laws : IsFrames f Valid in_use) (r : Roles) (s : Vmm P) (tree : IsTree Valid in_use r s) where
  page_of-make_entry :
      (phys flags : ℕ)
      → phys % 4096 ≡ 0
      → phys < 2 ^ 52
      → flags < 4096
      → page_of (make_entry phys flags) ≡ phys
  unfolding page_of
  page_of-make_entry phys flags aligned bound small =
      rw (is_present-make_entry phys flags aligned small)
        (frame_of-make_entry phys flags aligned bound small)

  -- `map` of a page of the lower half leaves a tree of tables in which all other pages keep their
  -- translation. Either the page is now translated to the given one and its address was flushed,
  -- or the allocator had no page for a table, and then the page keeps its translation as well.
  pub virt_to_phys-map_page :
      (v phys flags : ℕ)
      → v < 2 ^ 47
      → phys % 4096 ≡ 0
      → phys < 2 ^ 52
      → flags < 4096
      → (let z = map_page f v phys flags s in
          ((q : Roles) × IsTree Valid in_use q z)
          × (Keeps Valid in_use r s tree v z
              × (((virt_to_phys v z ≡ phys) × (z.flushed ≡ v ∷ s.flushed))
                  ⊎ ((virt_to_phys v z ≡ virt_to_phys v s)
                      × ((p : P) × (Valid p × (f.alloc_page p ≡ (0, z.pmm))))))))
  virt_to_phys-map_page v phys flags h aligned bound small =
      let z = map_page f v phys flags s in
      let x = make_entry phys flags in
      let root = Reads-root Valid in_use r s tree v h in
      let made : Maps f Valid in_use laws v x r s 3 s.pml4 z =
        subst (λ y. Maps f Valid in_use laws v x r s 3 s.pml4 y)
          (sym (map_page-map_from f v phys flags s))
          (map_from-Maps f Valid in_use laws v x 3 s.pml4 r s tree root) in
      let ch = made.1.0 in
      let now : virt_to_phys v z ≡ page_of (entry_of z 3 s.pml4 v) =
        virt_to_phys-entry_of v z ∙ ap (λ t. page_of (entry_of z 3 t v)) ch.fields.0 in
      (
        (made.0, ch.tree),
        (
          Changed-Keeps Valid in_use r s tree made.0 z v ch,
          elim made.1.1 [
            | inl w ↦
                inl (now ∙ ap page_of w.0 ∙ page_of-make_entry phys flags aligned bound small, w.1)
            | inr d ↦ inr (
              now ∙ ap page_of (d.lookups 3 s.pml4 v root) ∙ sym (virt_to_phys-entry_of v s),
              d.dry,
            )
          ],
        ),
      )
