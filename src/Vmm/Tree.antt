-- ===== src/Vmm/Tree.antt =====
-- memory/vmm.cpp: the tables as a tree. Each table has a level and the prefix of the addresses that
-- it serves; so no two entries share a table.
use issanium.Prelude.{
  ℕ, zero, suc, ◌+◌, ◌-◌, ◌*◌, ◌%◌, ◌^◌, ◌≤◌, ◌<◌, ◌≡◌, ◌≢◌, Bool, true, false, if◌then◌else◌,
}
use issanium.Vmm.{Vmm, Frames, is_present, table_of, slot}
use issanium.Vmm.Entry.{index}

-- What the model knows of a table: 0 is the level of what is no table.
pub record Roles : Type 0 where
  pub level : ℕ → ℕ
  pub serves : ℕ → ℕ

-- An entry that the tree covers: those of the higher half of the first table are left out.
pub record IsEntry (r : Roles) (t i : ℕ) : Type 0 where
  pub inner : 2 ≤ r.level t
  pub below : i < 512
  pub half : r.level t ≡ 4 → i < 256

-- What the tables rely on of the page allocator. `in_use` says whether a page is handed out.
pub record IsFrames {P : Type 0} (f : Frames P) (Valid : P → Type 0) (in_use : P → ℕ → Bool)
    : Type 0 where
  pub valid : (s : P) → Valid s → Valid (f.alloc_page s).1
  pub fresh : (s : P) → Valid s → (f.alloc_page s).0 ≢ 0 → in_use s (f.alloc_page s).0 ≡ false
  pub taken :
      (s : P)
      → Valid s
      → (f.alloc_page s).0 ≢ 0
      → in_use (f.alloc_page s).1 (f.alloc_page s).0 ≡ true
  pub keeps : (s : P) (x : ℕ) → Valid s → in_use s x ≡ true → in_use (f.alloc_page s).1 x ≡ true
  pub page : (s : P) → Valid s → ((f.alloc_page s).0 % 4096 ≡ 0) × ((f.alloc_page s).0 < 2 ^ 46)

pub record IsTree {P : Type 0} (Valid : P → Type 0) (in_use : P → ℕ → Bool) (r : Roles) (s : Vmm P)
    : Type 0 where
  pub offset : (s.hhdm % 4096 ≡ 0) × (s.hhdm + 2 ^ 46 ≤ 2 ^ 64)
  pub root : (r.level s.pml4 ≡ 4) × (r.serves s.pml4 ≡ 0)
  pub allocator : Valid s.pmm
  pub child :
      (t i : ℕ)
      → IsEntry r t i
      → is_present (s.words (slot t i)) ≡ true
      → (r.level (table_of s.hhdm (s.words (slot t i))) + 1 ≡ r.level t)
        × (r.serves (table_of s.hhdm (s.words (slot t i))) ≡ r.serves t * 512 + i)
  pub aligned : (t : ℕ) → r.level t ≢ 0 → (t % 4096 ≡ 0) × (s.hhdm < t)
  pub taken : (t : ℕ) → r.level t ≢ 0 → in_use s.pmm (t - s.hhdm) ≡ true

-- What the tables from `t`, of level `n + 1`, say of the address `v`: the entry of its page, or 0.
unfoldable pub entry_of : {P : Type 0} → Vmm P → ℕ → ℕ → ℕ → ℕ
entry_of s zero t v = s.words (slot t (index 0 v))
entry_of s (suc n) t v =
    let e = s.words (slot t (index (suc n) v)) in
    let rest = entry_of s n (table_of s.hhdm e) v in if is_present e then rest else 0
