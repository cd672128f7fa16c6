-- ===== src/Vmm/Below.antt =====
-- memory/vmm.cpp: what it means that there is a table below an entry, and that the entries of two
-- tables lie apart.
use issanium.Prelude.{ℕ, ◌+◌, ◌*◌, ◌%◌, ◌<◌, ◌≡◌, ◌≢◌, refl, arith, Bool, true, false, ◌⊎◌, inl}
use issanium.Vmm.{Vmm, is_present, table_of, slot}
use issanium.Vmm.Tree.{Roles, IsEntry, IsTree}

-- A table `c` below entry `i` of `t`: from the tree `r` of `s` to the tree `q` of `z`.
pub record Below {P : Type 0} (Valid : P → Type 0) (in_use : P → ℕ → Bool) (r q : Roles)
    (s z : Vmm P) (t i c : ℕ) : Type 0 where
  pub tree : IsTree Valid in_use q z
  pub kept : (u : ℕ) → r.level u ≢ 0 → (q.level u ≡ r.level u) × (q.serves u ≡ r.serves u)
  pub role : (q.level c + 1 ≡ r.level t) × (q.serves c ≡ r.serves t * 512 + i)
  pub entry : (is_present (z.words (slot t i)) ≡ true) × (table_of z.hhdm (z.words (slot t i)) ≡ c)
  pub others :
      (u j : ℕ)
      → r.level u ≢ 0
      → j < 512
      → (u ≢ t) ⊎ (j ≢ i)
      → z.words (slot u j) ≡ s.words (slot u j)
  -- The table was there, or it is new and empty.
  pub origin :
      (z ≡ s)
      ⊎ ((is_present (s.words (slot t i)) ≡ false) × ((j : ℕ) → j < 512 → z.words (slot c j) ≡ 0))
  pub fields : (z.pml4 ≡ s.pml4) × (z.hhdm ≡ s.hhdm)
  pub flushed : z.flushed ≡ s.flushed

pub slot-ne :
    (t u i j : ℕ)
    → t % 4096 ≡ 0
    → u % 4096 ≡ 0
    → i < 512
    → j < 512
    → (u ≢ t) ⊎ (j ≢ i)
    → slot t i ≢ slot u j
slot-ne t u i j at au hi hj ne = omega arith

module _ {P : Type 0} (Valid : P → Type 0) (in_use : P → ℕ → Bool) (r : Roles) (s : Vmm P)
    (tree : IsTree Valid in_use r s) (t i : ℕ) (e : IsEntry r t i) where
  pub there-Below :
      is_present (s.words (slot t i)) ≡ true
      → Below Valid in_use r r s s t i (table_of s.hhdm (s.words (slot t i)))
  there-Below there = record {
    tree = tree;
    kept = λ u h. (refl, refl);
    role = tree.child t i e there;
    entry = (there, refl);
    others = λ u j h hj ne. refl;
    origin = inl refl;
    fields = (refl, refl);
    flushed = refl;
  }
