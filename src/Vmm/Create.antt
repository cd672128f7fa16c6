-- ===== src/Vmm/Create.antt =====
-- `get_or_create_table` of memory/vmm.cpp: the tree with a new table below an entry.
use mathlib.Core.Path.{subst}
use issanium.Prelude.{
  ℕ, ◌+◌, ◌-◌, ◌*◌, ◌%◌, ◌^◌, ◌<◌, ◌≡◌, ◌≢◌, refl, ap, sym, ◌∙◌, arith, Bool, true, false, ◌==◌,
  if◌then◌else◌, ◌⊎◌, inl, inr, Bool-cases, ==_iff,
}
use issanium.Prelude.Word.{u64}
use issanium.Prelude.Memory.{write, write_self, write_ne}
use issanium.Vmm.{
  Vmm, Frames, is_present, make_entry, table_of, slot, zero_page, create_table, get_or_create_table,
}
use issanium.Vmm.Entry.{is_present-zero, is_present-make_entry, frame_of-make_entry}
use issanium.Vmm.Tree.{Roles, IsEntry, IsFrames, IsTree}
use issanium.Vmm.Below.{Below, slot-ne}

module _ {P : Type 0} (f : Frames P) (Valid : P → Type 0) (in_use : P → ℕ → Bool)
    (laws : IsFrames f Valid in_use) where
  module _ (r : Roles) (s : Vmm P) (tree : IsTree Valid in_use r s) (t i : ℕ)
      (e : IsEntry r t i) where
    abbrev page : ℕ
    page = (f.alloc_page s.pmm).0

    abbrev new : ℕ
    new = page + s.hhdm

    abbrev made : ℕ
    made = make_entry page 6

    -- The roles with the new table.
    abbrev added : Roles
    added = record {
      level = λ u. if new == u then r.level t - 1 else r.level u;
      serves = λ u. if new == u then r.serves t * 512 + i else r.serves u;
    }

    abbrev after : Vmm P
    after = record s {
      pmm = (f.alloc_page s.pmm).1;
      words = write (zero_page new s.words) (slot t i) made;
    }

    module _ (got : page ≢ 0) (empty : is_present (s.words (slot t i)) ≡ false) where
      shape : (page % 4096 ≡ 0) × (page < 2 ^ 46)
      shape = laws.page s.pmm tree.allocator

      unlisted : r.level new ≡ 0
      unlisted = elim (Bool-cases (r.level new == 0)) [
        | inl none ↦ (==_iff _ 0).0 none
        | inr some ↦
            let used = tree.taken new (ground arith) in
            let back : new - s.hhdm ≡ page = omega arith in
            absurd
              (ground (arith, laws.fresh s.pmm tree.allocator got, ap (in_use s.pmm) back, used))
      ]

      ne_new : (u : ℕ) → r.level u ≢ 0 → new ≢ u
      ne_new u h same = h (ap r.level (sym same) ∙ unlisted)

      table_of-made : table_of s.hhdm made ≡ new
      table_of-made =
          ap (λ x. u64 (x + s.hhdm))
            (frame_of-make_entry page 6 shape.0 (omega (arith, shape)) (omega arith))
          ∙ omega (arith, tree.offset, shape)

      -- An entry of an old table, but the one that was empty.
      old-entry :
          (u j : ℕ)
          → r.level u ≢ 0
          → j < 512
          → (u ≢ t) ⊎ (j ≢ i)
          → after.words (slot u j) ≡ s.words (slot u j)
      old-entry u j h hj ne =
          let level_t : r.level t ≢ 0 = omega (arith, e.inner) in
          write_ne (zero_page new s.words) made
            (slot-ne t u i j (tree.aligned t level_t).0 (tree.aligned u h).0 e.below hj ne)
          ∙ ground (arith, tree.aligned u h, ne_new u h, shape.0, tree.offset.0)

      new-entry : (j : ℕ) → j < 512 → after.words (slot new j) ≡ 0
      new-entry j hj =
          let level_t : r.level t ≢ 0 = omega (arith, e.inner) in
          write_ne (zero_page new s.words) made (
            slot-ne t new i j (tree.aligned t level_t).0 (omega (arith, shape.0, tree.offset.0))
              e.below hj (inl (ne_new t level_t)))
          ∙ ground arith

      added-new : (added.level new ≡ r.level t - 1) × (added.serves new ≡ r.serves t * 512 + i)
      added-new = ground arith

      added-old : (u : ℕ) → new ≢ u → (added.level u ≡ r.level u) × (added.serves u ≡ r.serves u)
      added-old u ne = ground arith

      -- Where an entry of the new tree leads.
      abbrev target : ℕ → ℕ → ℕ
      target u j = table_of s.hhdm (after.words (slot u j))

      target-here : target t i ≡ new
      target-here =
          ap (table_of s.hhdm) (write_self (zero_page new s.words) (slot t i) made) ∙ table_of-made

      abbrev Leads : ℕ → ℕ → ℕ → Type 0
      Leads u j c =
          (added.level c + 1 ≡ added.level u) × (added.serves c ≡ added.serves u * 512 + j)

      Leads-here : Leads t i new
      Leads-here =
          let level_t : r.level t ≢ 0 = omega (arith, e.inner) in
          let old = added-old t (ne_new t level_t) in
          (
            omega (arith, added-new.0, old.0, e.inner),
            added-new.1 ∙ ap (λ (a : ℕ). a * 512 + i) (sym old.1),
          )

      Leads-elsewhere :
          (u j : ℕ)
          → new ≢ u
          → IsEntry added u j
          → (u ≢ t) ⊎ (j ≢ i)
          → is_present (after.words (slot u j)) ≡ true
          → Leads u j (target u j)
      Leads-elsewhere u j ne x apart there =
          let old = added-old u ne in
          let level_u : r.level u ≢ 0 = omega (arith, x.inner, old.0) in
          let same = old-entry u j level_u x.below apart in
          let was : IsEntry r u j = record {
            inner = omega (arith, x.inner, old.0);
            below = x.below;
            half = λ q. x.half (old.0 ∙ q);
          } in
          let c = tree.child u j was (ap is_present (sym same) ∙ there) in
          let lead : target u j ≡ table_of s.hhdm (s.words (slot u j)) =
            ap (table_of s.hhdm) same in
          let kept =
            added-old (target u j)
              (ne_new (target u j) (λ q. omega (arith, q, ap r.level lead, c.0, x.inner, old.0))) in
          (
            omega (arith, kept.0, ap r.level lead, c.0, old.0),
            kept.1 ∙ ap r.serves lead ∙ c.1 ∙ ap (λ (a : ℕ). a * 512 + j) (sym old.1),
          )

      added-child :
          (u j : ℕ)
          → IsEntry added u j
          → is_present (after.words (slot u j)) ≡ true
          → Leads u j (target u j)
      added-child u j x there =
          let cases : ((u ≡ t) × (j ≡ i)) ⊎ ((u ≢ t) ⊎ (j ≢ i)) = omega arith in
          elim (Bool-cases (new == u)) [
            | inl same ↦
                let none : is_present (after.words (slot u j)) ≡ false =
                  ap (λ v. is_present (after.words (slot v j))) (sym ((==_iff new u).0 same))
                  ∙ ap is_present (new-entry j x.below)
                  ∙ is_present-zero in
                absurd (cc)
            | inr old ↦ elim cases [
              | inl here ↦
                  subst (λ v. Leads v j (target v j)) (sym here.0)
                    (subst (λ k. Leads t k (target t k)) (sym here.1)
                      (subst (λ c. Leads t i c) (sym target-here) Leads-here))
              | inr apart ↦ Leads-elsewhere u j (ground arith) x apart there
            ]
          ]

      after-aligned : (u : ℕ) → added.level u ≢ 0 → (u % 4096 ≡ 0) × (s.hhdm < u)
      after-aligned u h = elim (Bool-cases (new == u)) [
        | inl same ↦ omega (arith, (==_iff new u).0 same, shape.0, tree.offset.0, got)
        | inr old ↦ tree.aligned u (λ z. h ((added-old u (ground arith)).0 ∙ z))
      ]

      after-taken : (u : ℕ) → added.level u ≢ 0 → in_use after.pmm (u - s.hhdm) ≡ true
      after-taken u h = elim (Bool-cases (new == u)) [
        | inl same ↦
            let back : u - s.hhdm ≡ page = omega (arith, (==_iff new u).0 same) in
            ap (in_use after.pmm) back ∙ laws.taken s.pmm tree.allocator got
        | inr old ↦
            laws.keeps s.pmm (u - s.hhdm) tree.allocator
              (tree.taken u (λ z. h ((added-old u (ground arith)).0 ∙ z)))
      ]

      after-IsTree : IsTree Valid in_use added after
      after-IsTree = record {
        offset = tree.offset;
        root =
            let old = added-old s.pml4 (ne_new s.pml4 (omega (arith, tree.root))) in
            (old.0 ∙ tree.root.0, old.1 ∙ tree.root.1);
        allocator = laws.valid s.pmm tree.allocator;
        child = added-child;
        aligned = λ u h. after-aligned u h;
        taken = λ u h. after-taken u h;
      }

      created : get_or_create_table f t i 6 s ≡ (new, after)
      unfolding get_or_create_table create_table
      created =
          let null : (page == 0) ≡ false = ground (arith, got) in
          let virt : u64 (page + s.hhdm) ≡ new = omega (arith, shape, tree.offset) in
          rw (empty, null, virt) refl

      after-Below : Below Valid in_use r added s after t i new
      after-Below =
          let level_t : r.level t ≢ 0 = omega (arith, e.inner) in
          let old = added-old t (ne_new t level_t) in
          record {
            tree = after-IsTree;
            kept = λ u h. added-old u (ne_new u h);
            role = (Leads-here.0 ∙ old.0, Leads-here.1 ∙ ap (λ (a : ℕ). a * 512 + i) old.1);
            entry = (
              ap is_present (write_self (zero_page new s.words) (slot t i) made)
                  ∙ is_present-make_entry page 6 shape.0 (omega arith),
              target-here,
            );
            others = old-entry;
            origin = inr (empty, new-entry);
            fields = (refl, refl);
            flushed = refl;
          }

      pub created-Below :
          (let g = get_or_create_table f t i 6 s in
            (g.0 ≢ 0) × ((q : Roles) × Below Valid in_use r q s g.1 t i g.0))
      created-Below =
          subst (λ g. (g.0 ≢ 0) × ((q : Roles) × Below Valid in_use r q s g.1 t i g.0))
            (sym created) (omega (arith, got), (added, after-Below))
