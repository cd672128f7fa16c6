-- ===== src/Vmm/Offset.antt =====
-- `virt_to_phys` of memory/vmm.cpp does not see the offset in the page.
use issanium.Prelude.{ℕ, zero, suc, ◌/◌, ◌≡◌, refl, ap, sym, ◌∙◌, arith}
use issanium.Vmm.{Vmm, slot, virt_to_phys}
use issanium.Vmm.Entry.{prefix, index}
use issanium.Vmm.Tree.{entry_of}
use issanium.Vmm.Unmap.{page_of, virt_to_phys-entry_of}

prefix-page : (n a v : ℕ) → a / 4096 ≡ v / 4096 → prefix n a ≡ prefix n v
unfolding prefix
prefix-page zero a v e = e
prefix-page (suc n) a v e = ap (λ (x : ℕ). x / 512) (prefix-page n a v e)

module _ {P : Type 0} (s : Vmm P) (a v : ℕ) (e : a / 4096 ≡ v / 4096) where
  index-page : (n : ℕ) → index n a ≡ index n v
  index-page n = omega (arith, prefix-page n a v e)

  entry_of-page : (n t : ℕ) → entry_of s n t a ≡ entry_of s n t v
  unfolding entry_of
  entry_of-page zero t = ap (λ i. s.words (slot t i)) (index-page 0)
  entry_of-page (suc n) t = rw (entry_of, index-page (suc n), entry_of-page n) refl

  pub virt_to_phys-page : virt_to_phys a s ≡ virt_to_phys v s
  virt_to_phys-page =
      virt_to_phys-entry_of a s
      ∙ ap page_of (entry_of-page 3 s.pml4)
      ∙ sym (virt_to_phys-entry_of v s)
