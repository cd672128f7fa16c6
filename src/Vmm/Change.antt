-- ===== src/Vmm/Change.antt =====
-- memory/vmm.cpp: a change of one page's entry, from the tables of a level down. `map` and `unmap`
-- both make one.
use issanium.Prelude.{
  ℕ, zero, suc, ◌+◌, ◌*◌, ◌≤◌, ◌<◌, ◌≡◌, ◌≢◌, refl, ap, sym, ◌∙◌, arith, Bool, ◌⊎◌, inl, inr,
}
use issanium.Prelude.Memory.{write_self, write_ne}
use issanium.Vmm.{Vmm, is_present, table_of, slot, set_leaf}
use issanium.Vmm.Entry.{prefix, index, index-lt, prefix-suc}
use issanium.Vmm.Tree.{Roles, IsTree, entry_of}
use issanium.Vmm.Below.{Below, slot-ne}
use issanium.Vmm.Lookup.{entry_of-same, entry_of-down, entry_of-Below, IsEntry-index}

-- A lookup of `w` comes through the table `u`, of level `m + 1`.
pub record Reads (r : Roles) (m u w : ℕ) : Type 0 where
  pub level : r.level u ≡ suc m
  pub serves : r.serves u ≡ prefix (suc m) w
  pub small : m ≤ 3
  pub half : index 3 w < 256

pub Reads-kept :
    (r q : Roles) (m u w : ℕ)
    → (q.level u ≡ r.level u) × (q.serves u ≡ r.serves u)
    → Reads r m u w
    → Reads q m u w
Reads-kept r q m u w k h = record {
  level = k.0 ∙ h.level;
  serves = k.1 ∙ h.serves;
  small = h.small;
  half = h.half;
}

-- From the tree `r` of `s` to the tree `q` of `z`, only the page of `v` has a new entry, and no
-- table above level `n + 1` is written.
pub record Changed {P : Type 0} (Valid : P → Type 0) (in_use : P → ℕ → Bool) (r q : Roles)
    (s z : Vmm P) (n v : ℕ) : Type 0 where
  pub tree : IsTree Valid in_use q z
  pub kept : (u : ℕ) → r.level u ≢ 0 → (q.level u ≡ r.level u) × (q.serves u ≡ r.serves u)
  pub others :
      (m u w : ℕ) → Reads r m u w → prefix 0 w ≢ prefix 0 v → entry_of z m u w ≡ entry_of s m u w
  pub upper : (u j : ℕ) → n + 1 < r.level u → j < 512 → z.words (slot u j) ≡ s.words (slot u j)
  pub fields : (z.pml4 ≡ s.pml4) × (z.hhdm ≡ s.hhdm)

-- Two prefixes from the same table.
prefix-ne :
    (n v w : ℕ)
    → prefix (suc n) w ≡ prefix (suc n) v
    → prefix n w ≢ prefix n v
    → index n w ≢ index n v
prefix-ne n v w e ne same = ne (prefix-suc n w ∙ omega (arith, e, same) ∙ sym (prefix-suc n v))

module _ {P : Type 0} (Valid : P → Type 0) (in_use : P → ℕ → Bool) where
  pub same-Changed :
      (r : Roles) (s : Vmm P)
      → IsTree Valid in_use r s
      → (n v : ℕ) → Changed Valid in_use r r s s n v
  same-Changed r s tree n v = record {
    tree = tree;
    kept = λ u h. (refl, refl);
    others = λ m u w h ne. refl;
    upper = λ u j h hj. refl;
    fields = (refl, refl);
  }

  module _ (r : Roles) (s : Vmm P) (tree : IsTree Valid in_use r s) (t v x : ℕ) (l : r.level t ≡ 1)
      (serves : r.serves t ≡ prefix 1 v) where
    abbrev after : Vmm P
    after = set_leaf (slot t (index 0 v)) x v s

    leaf-words :
        (u j : ℕ)
        → r.level u ≢ 0
        → j < 512
        → (u ≢ t) ⊎ (j ≢ index 0 v)
        → after.words (slot u j) ≡ s.words (slot u j)
    unfolding set_leaf
    leaf-words u j h hj ne = write_ne s.words x (
        slot-ne t u (index 0 v) j (tree.aligned t (omega (arith, l))).0 (tree.aligned u h).0
          (index-lt 0 v) hj ne)

    leaf-upper : (u j : ℕ) → 1 < r.level u → j < 512 → after.words (slot u j) ≡ s.words (slot u j)
    leaf-upper u j h hj =
        leaf-words u j (omega (arith, h)) hj (inl (λ e. omega (arith, ap r.level e, l, h)))

    leaf-others :
        (m u w : ℕ)
        → Reads r m u w
        → prefix 0 w ≢ prefix 0 v
        → entry_of after m u w ≡ entry_of s m u w
    unfolding entry_of set_leaf
    leaf-others zero u w h ne =
        let cases : (u ≡ t) ⊎ (u ≢ t) = omega arith in
        leaf-words u (index 0 w) (omega (arith, h.level)) (index-lt 0 w) (elim cases [
          | inl e ↦ inr (prefix-ne 0 v w (sym h.serves ∙ ap r.serves e ∙ serves) ne)
          | inr far ↦ inl far
        ])
    leaf-others (suc m) u w h ne =
        let j = index (suc m) w in
        let up = leaf-upper u j (omega (arith, h.level)) (index-lt (suc m) w) in
        entry_of-same s after m u w refl up (λ there.
          let lead =
            tree.child u j
              (IsEntry-index Valid in_use r s tree m u w h.level h.half (omega (arith, h.small)))
              there in
          leaf-others m (table_of s.hhdm (s.words (slot u j))) w
            (record {
              level = omega (arith, lead.0, h.level);
              serves = lead.1 ∙ ap (λ (a : ℕ). a * 512 + j) h.serves ∙ sym (prefix-suc (suc m) w);
              small = omega (arith, h.small);
              half = h.half;
            })
            ne)

    leaf-IsTree : IsTree Valid in_use r after
    unfolding set_leaf
    leaf-IsTree = record {
      offset = tree.offset;
      root = tree.root;
      allocator = tree.allocator;
      child = λ u j e there.
          let up = leaf-upper u j (omega (arith, e.inner)) e.below in
          let c = tree.child u j e (ap is_present (sym up) ∙ there) in
          let lead : table_of s.hhdm (after.words (slot u j))
              ≡ table_of s.hhdm (s.words (slot u j)) =
            ap (table_of s.hhdm) up in
          (ap (λ k. r.level k + 1) lead ∙ c.0, ap r.serves lead ∙ c.1);
      aligned = tree.aligned;
      taken = tree.taken;
    }

    pub leaf-Changed : Changed Valid in_use r r s after 0 v
    unfolding set_leaf
    leaf-Changed = record {
      tree = leaf-IsTree;
      kept = λ u h. (refl, refl);
      others = leaf-others;
      upper = leaf-upper;
      fields = (refl, refl);
    }

    pub entry_of-leaf : entry_of after 0 t v ≡ x
    unfolding entry_of set_leaf
    entry_of-leaf = write_self s.words (slot t (index 0 v)) x

  module _ (r q p : Roles) (s z y : Vmm P) (n t c v : ℕ) (tree : IsTree Valid in_use r s)
      (b : Below Valid in_use r q s z t (index (suc n) v) c) (l : r.level t ≡ suc (suc n))
      (ch : Changed Valid in_use q p z y n v) where
    pub Changed-Below : Changed Valid in_use r p s y (suc n) v
    Changed-Below = record {
      tree = ch.tree;
      kept = λ u h.
          let first = b.kept u h in
          let next = ch.kept u (omega (arith, first.0, h)) in (next.0 ∙ first.0, next.1 ∙ first.1);
      others = λ m u w h ne.
          let k = b.kept u (omega (arith, h.level)) in
          ch.others m u w (Reads-kept r q m u w k h) ne
          ∙ entry_of-Below Valid in_use r s tree q z t (index (suc n) v) c b (omega (arith, l))
              (index-lt (suc n) v) m u w h.level h.small h.half;
      upper = λ u j h hj.
          let k = b.kept u (omega (arith, h)) in
          ch.upper u j (omega (arith, k.0, h)) hj
          ∙ b.others u j (omega (arith, h)) hj (inl (λ e. omega (arith, ap r.level e, l, h)));
      fields = (ch.fields.0 ∙ b.fields.0, ch.fields.1 ∙ b.fields.1);
    }

    pub entry_of-step : entry_of y (suc n) t v ≡ entry_of y n c v
    entry_of-step =
        let k = b.kept t (omega (arith, l)) in
        let up = ch.upper t (index (suc n) v) (omega (arith, k.0, l)) (index-lt (suc n) v) in
        entry_of-down y n t c v (ap is_present up ∙ b.entry.0) (
          ap (λ (e : ℕ). table_of y.hhdm e) up
          ∙ ap (λ h. table_of h (z.words (slot t (index (suc n) v)))) ch.fields.1
          ∙ b.entry.1)
