-- ===== src/Vmm/Lookup.antt =====
-- memory/vmm.cpp: what the writes of `map` and `unmap` change of the lookups through the tree.
use mathlib.Core.Path.{subst}
use issanium.Prelude.{
  ℕ, zero, suc, ◌≤◌, ◌<◌, ◌≡◌, ◌≢◌, refl, ap, ◌∙◌, arith, Bool, true, false, ◌⊎◌, inl, inr,
  Bool-cases,
}
use issanium.Vmm.{Vmm, is_present, table_of, slot}
use issanium.Vmm.Entry.{index, index-lt, is_present-zero}
use issanium.Vmm.Tree.{Roles, IsEntry, IsTree, entry_of}
use issanium.Vmm.Below.{Below}

entry_of-empty :
    {P : Type 0} (z : Vmm P) (n c w : ℕ)
    → ((j : ℕ) → j < 512 → z.words (slot c j) ≡ 0)
    → entry_of z n c w ≡ 0
unfolding entry_of
entry_of-empty z zero c w e = e (index 0 w) (index-lt 0 w)
entry_of-empty z (suc n) c w e =
    let none : is_present (z.words (slot c (index (suc n) w))) ≡ false =
      ap is_present (e (index (suc n) w) (index-lt (suc n) w)) ∙ is_present-zero in
    rw none refl

-- One step down, to the table `c`.
pub entry_of-down :
    {P : Type 0} (z : Vmm P) (n t c w : ℕ)
    → is_present (z.words (slot t (index (suc n) w))) ≡ true
    → table_of z.hhdm (z.words (slot t (index (suc n) w))) ≡ c
    → entry_of z (suc n) t w ≡ entry_of z n c w
unfolding entry_of
entry_of-down z n t c w there to = rw (there, to) refl

-- One step down, where the entry stays.
pub entry_of-same :
    {P : Type 0} (s z : Vmm P) (n u w : ℕ)
    → z.hhdm ≡ s.hhdm
    → z.words (slot u (index (suc n) w)) ≡ s.words (slot u (index (suc n) w))
    → (is_present (s.words (slot u (index (suc n) w))) ≡ true
        → entry_of z n (table_of s.hhdm (s.words (slot u (index (suc n) w)))) w
          ≡ entry_of s n (table_of s.hhdm (s.words (slot u (index (suc n) w)))) w)
    → entry_of z (suc n) u w ≡ entry_of s (suc n) u w
unfolding entry_of
entry_of-same s z n u w e same next =
    rw (same, e)
      (elim (Bool-cases (is_present (s.words (slot u (index (suc n) w))))) [
        | inl there ↦ rw there (next there)
        | inr none ↦ rw none refl
      ])

module _ {P : Type 0} (Valid : P → Type 0) (in_use : P → ℕ → Bool) (r : Roles) (s : Vmm P)
    (tree : IsTree Valid in_use r s) where
  -- The entry that a lookup of `w` reads in a table of level `m + 2`.
  pub IsEntry-index :
      (m u w : ℕ)
      → r.level u ≡ suc (suc m)
      → index 3 w < 256
      → m ≤ 2
      → IsEntry r u (index (suc m) w)
  IsEntry-index m u w l half small = record {
    inner = omega (arith, l);
    below = index-lt (suc m) w;
    half = λ four. subst (λ k. index (suc k) w < 256) (omega (arith, l, four)) half;
  }

  -- A table that is new has no entries, and before it there was none.
  entry_of-new :
      (q : Roles) (z : Vmm P) (t i c : ℕ)
      → Below Valid in_use r q s z t i c
      → (is_present (s.words (slot t i)) ≡ false) × ((j : ℕ) → j < 512 → z.words (slot c j) ≡ 0)
      → (m u w : ℕ) → u ≡ t
      → index (suc m) w ≡ i
      → entry_of z (suc m) u w ≡ entry_of s (suc m) u w
  unfolding entry_of
  entry_of-new q z t i c b new m u w eu ei =
      let a : slot u (index (suc m) w) ≡ slot t i = ap (λ k. slot u k) ei ∙ ap (λ x. slot x i) eu in
      let none : is_present (s.words (slot u (index (suc m) w))) ≡ false =
        ap (λ x. is_present (s.words x)) a ∙ new.0 in
      let some : is_present (z.words (slot u (index (suc m) w))) ≡ true =
        ap (λ x. is_present (z.words x)) a ∙ b.entry.0 in
      let to : table_of z.hhdm (z.words (slot u (index (suc m) w))) ≡ c =
        ap (λ x. table_of z.hhdm (z.words x)) a ∙ b.entry.1 in
      rw (none, some, to) (entry_of-empty z m c w new.1)

  -- A table below an entry that was there or is new: every lookup gives what it gave.
  pub entry_of-Below :
      (q : Roles) (z : Vmm P) (t i c : ℕ)
      → Below Valid in_use r q s z t i c
      → 2 ≤ r.level t
      → i < 512
      → (m u w : ℕ) → r.level u ≡ suc m
      → m ≤ 3
      → index 3 w < 256
      → entry_of z m u w ≡ entry_of s m u w
  unfolding entry_of
  entry_of-Below q z t i c b inner hi zero u w l small half =
      b.others u (index 0 w) (omega (arith, l)) (index-lt 0 w)
        (inl (λ e. omega (arith, l, ap r.level e, inner)))
  entry_of-Below q z t i c b inner hi (suc m) u w l small half =
      let j = index (suc m) w in
      let cases : ((u ≡ t) × (j ≡ i)) ⊎ ((u ≢ t) ⊎ (j ≢ i)) = omega arith in
      elim cases [
        | inl here ↦ elim b.origin [
          | inl same ↦ ap (λ (x : Vmm P). entry_of x (suc m) u w) same
          | inr new ↦ entry_of-new q z t i c b new m u w here.0 here.1
        ]
        | inr apart ↦
            entry_of-same s z m u w b.fields.1
              (b.others u j (omega (arith, l)) (index-lt (suc m) w) apart)
              (λ there.
                let lead = tree.child u j (IsEntry-index m u w l half (omega arith)) there in
                entry_of-Below q z t i c b inner hi m (table_of s.hhdm (s.words (slot u j))) w
                  (omega (arith, lead, l)) (omega arith) half)
      ]
