-- ===== src/Pmm/Owners.antt =====
-- Clients of memory/pmm.cpp that take pages and give them back, in any order of calls.
use issanium.Prelude.{ℕ, ◌/◌, ◌%◌, ◌<◌, ◌≡◌, ◌≢◌, ap, sym, true, arith, inl, inr, List, [], ◌∷◌}
use issanium.Prelude.Held.{
  Removes, All, Pairwise, All-mono, All-mono₂, All-Removes, All-removed, Pairwise-Removes,
}
use issanium.Pmm.{Pmm, bitmap_test, alloc, free}
use issanium.Pmm.Count.{IsValid}
use issanium.Pmm.Alloc.{
  alloc-Allocates, alloc-IsValid, free-IsValid, bitmap_test-free, total_pages-free,
}

-- The allocator, and the addresses that its clients hold.
pub record Ledger : Type 0 where
  pub pmm : Pmm
  pub held : List ℕ

-- A client allocates, and holds what is not null; or it frees an address that it holds.
pub data Step (l : Ledger) : Ledger → Type 0 where
  take :
      (alloc l.pmm).0 ≢ 0
      → Step l (record { pmm = (alloc l.pmm).1; held = (alloc l.pmm).0 ∷ l.held })
  refused : (alloc l.pmm).0 ≡ 0 → Step l (record { pmm = (alloc l.pmm).1; held = l.held })
  give :
      (page : ℕ) (rest : List ℕ)
      → Removes page l.held rest
      → Step l (record { pmm = free page l.pmm; held = rest })

pub data Reach (l : Ledger) : Ledger → Type 0 where
  here : Reach l l
  next : {m n : Ledger} → Reach l m → Step m n → Reach l n

abbrev pub Distinct : List ℕ → Type 0
Distinct = Pairwise ◌≢◌

-- `page` is the address of a page below `total` that the bitmap shows as used.
pub record IsTaken (s : Pmm) (page : ℕ) : Type 0 where
  pub aligned : page % 4096 ≡ 0
  pub below : page / 4096 < s.total_pages
  pub used : bitmap_test (page / 4096) s ≡ true

pub record IsOwned (l : Ledger) : Type 0 where
  pub valid : IsValid l.pmm
  pub taken : All (IsTaken l.pmm) l.held
  pub distinct : Distinct l.held

module _ (s : Pmm) (v : IsValid s) where
  IsTaken-alloc : (page : ℕ) → IsTaken s page → IsTaken (alloc s).1 page
  IsTaken-alloc page t = elim (alloc-Allocates s v) [
    | inl (k, a) ↦ record {
      aligned = t.aligned;
      below = omega (arith, a.fields, t.below);
      used = ground (arith, a.bits (page / 4096), t.used);
    }
    | inr (full, same) ↦ rw same t
  ]

  alloc-IsTaken : (alloc s).0 ≢ 0 → IsTaken (alloc s).1 (alloc s).0
  alloc-IsTaken ne = elim (alloc-Allocates s v) [
    | inl (k, a) ↦ record {
      aligned = omega (arith, a.address);
      below = omega (arith, a.address, a.fields, a.range);
      used = ground (arith, a.bits ((alloc s).0 / 4096), a.address);
    }
    | inr (full, same) ↦ absurd (ne (ap (λ r. r.0) same))
  ]

  -- A page that `alloc` returns is not one that is in use.
  alloc-ne_taken : (alloc s).0 ≢ 0 → (page : ℕ) → IsTaken s page → (alloc s).0 ≢ page
  alloc-ne_taken ne page t e = elim (alloc-Allocates s v) [
    | inl (k, a) ↦ ground (arith, a.address, a.was_free, t.used)
    | inr (full, same) ↦ ne (ap (λ r. r.0) same)
  ]

  IsTaken-free : (a page : ℕ) → IsTaken s a → a ≢ page → IsTaken s page → IsTaken (free a s) page
  IsTaken-free a page ta ne t = record {
    aligned = t.aligned;
    below = omega (arith, total_pages-free a s, t.below);
    used = ground (arith, bitmap_test-free a (page / 4096) s, t.used, ta.aligned, t.aligned);
  }

Step-IsOwned : {l m : Ledger} → Step l m → IsOwned l → IsOwned m
Step-IsOwned {l} (take ne) o = record {
  valid = alloc-IsValid l.pmm o.valid;
  taken = (alloc-IsTaken l.pmm o.valid ne, All-mono l.held (IsTaken-alloc l.pmm o.valid) o.taken);
  distinct = (All-mono l.held (alloc-ne_taken l.pmm o.valid ne) o.taken, o.distinct);
}
Step-IsOwned {l} (refused e) o = record {
  valid = alloc-IsValid l.pmm o.valid;
  taken = All-mono l.held (IsTaken-alloc l.pmm o.valid) o.taken;
  distinct = o.distinct;
}
Step-IsOwned {l} (give page rest r) o =
    let t = All-removed (IsTaken l.pmm) r o.taken in
    let d = Pairwise-Removes ◌≢◌ (λ x y ne e. ne (sym e)) r o.distinct in
    record {
      valid = free-IsValid page l.pmm o.valid t.below t.used;
      taken =
          All-mono₂ rest (λ x ne h. IsTaken-free l.pmm o.valid page x t ne h) d.1
            (All-Removes (IsTaken l.pmm) r o.taken);
      distinct = d.0;
    }

-- From a valid allocator of which nothing is held, however clients take and give back, the pages
-- held are distinct, each is a whole page that the bitmap shows as used, and the counter stays
-- equal to the number of free pages.
pub Reach-IsOwned :
    (s : Pmm) {l : Ledger} → IsValid s → Reach (record { pmm = s; held = [] }) l → IsOwned l
Reach-IsOwned s v here = record { valid = v; taken = tt; distinct = tt }
Reach-IsOwned s v (next r st) = Step-IsOwned st (Reach-IsOwned s v r)
