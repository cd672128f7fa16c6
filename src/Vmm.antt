-- ===== src/Vmm.antt =====
-- memory/vmm.cpp: the four levels of page tables, over memory as 64-bit words. The page allocator
-- enters through the interface `Frames`. What the code sets of the processor is in the state: the
-- register cr3, and the addresses that were flushed from the TLB.
pub mod Entry
pub mod Tree
pub mod Below
pub mod Create
pub mod Descend
pub mod Lookup
pub mod Change
pub mod Unmap
pub mod Map
pub mod Setup
pub mod Offset
pub mod Spent
use issanium.Prelude.{
  ℕ, zero, suc, ◌+◌, ◌-◌, ◌*◌, ◌/◌, ◌%◌, ◌^◌, Bool, true, false, not, ◌&&◌, ltb, leb, ◌==◌,
  if◌then◌else◌, bit_and, bit_or, List, [], ◌∷◌,
}
use issanium.Prelude.Word.{u64, sub64, is_true, ◌>>>◌}
use issanium.Prelude.Memory.{write, count_up}

abbrev pub flag_present : ℕ
flag_present = 1

abbrev pub flag_writable : ℕ
flag_writable = 2

abbrev pub flag_user : ℕ
flag_user = 4

-- `PMM::alloc`, on the allocator's state.
pub record Frames (P : Type 0) : Type 0 where
  pub alloc_page : P → ℕ × P

pub record Vmm (P : Type 0) : Type 0 where
  pub hhdm : ℕ
  pub pml4 : ℕ
  pub cr3 : ℕ
  pub flushed : List ℕ
  pub words : ℕ → ℕ
  pub pmm : P

-- Convert a physical address to a virtual one we can actually access.
abbrev pub phys_to_virt : ℕ → ℕ → ℕ
phys_to_virt hhdm phys = u64 (phys + hhdm)

-- entry & FLAG_PRESENT
unfoldable pub is_present : ℕ → Bool
is_present entry = is_true (bit_and entry flag_present)

-- entry & ~0xFFFULL
unfoldable pub frame_of : ℕ → ℕ
frame_of entry = bit_and entry (2 ^ 64 - 2 ^ 12)

-- phys | flags | FLAG_PRESENT
unfoldable pub make_entry : ℕ → ℕ → ℕ
make_entry phys flags = bit_or (bit_or phys flags) flag_present

-- The table that an entry points to.
abbrev pub table_of : ℕ → ℕ → ℕ
table_of hhdm entry = phys_to_virt hhdm (frame_of entry)

-- &table[index]
abbrev pub slot : ℕ → ℕ → ℕ
slot table index = table + 8 * index

-- memset(table, 0, 4096), on the words.
abbrev pub zero_page : ℕ → (ℕ → ℕ) → ℕ → ℕ
zero_page table m a = if leb table a && ltb a (table + 4096) then 0 else m a

-- pml4[i] = old_pml4[i] for the higher half.
abbrev pub copy_entry : ℕ → ℕ → ℕ → (ℕ → ℕ) → ℕ → ℕ
copy_entry new old i m = write m (slot new i) (m (slot old i))

-- The four indices of a virtual address.
abbrev pub pml4_idx : ℕ → ℕ
pml4_idx v = bit_and (v >>> 39) 0x1FF

abbrev pub pdpt_idx : ℕ → ℕ
pdpt_idx v = bit_and (v >>> 30) 0x1FF

abbrev pub pd_idx : ℕ → ℕ
pd_idx v = bit_and (v >>> 21) 0x1FF

abbrev pub pt_idx : ℕ → ℕ
pt_idx v = bit_and (v >>> 12) 0x1FF

module _ {P : Type 0} where
  abbrev pub set_word : ℕ → ℕ → Vmm P → Vmm P
  set_word a v s = record s { words = write s.words a v }

  -- The last write of `map` and of `unmap`, and the flush.
  unfoldable pub set_leaf : ℕ → ℕ → ℕ → Vmm P → Vmm P
  set_leaf a entry virt s = record (set_word a entry s) { flushed = virt ∷ s.flushed }

  -- if (!(table[index] & FLAG_PRESENT)) return none; otherwise go on with the next table.
  unfoldable pub follow {ℓ} : {R : Type ℓ} → ℕ → ℕ → R → (ℕ → R) → Vmm P → R
  follow table index none_there next s =
      let entry = s.words (slot table index) in
      if is_present entry then next (table_of s.hhdm entry) else none_there

  unfoldable pub unmap : ℕ → Vmm P → Vmm P
  unmap virt s =
      follow s.pml4 (pml4_idx virt) s
        (λ pdpt.
          follow pdpt (pdpt_idx virt) s
            (λ pd. follow pd (pd_idx virt) s (λ pt. set_leaf (slot pt (pt_idx virt)) 0 virt s) s) s)
        s

  -- The last two lines of `virt_to_phys`.
  unfoldable pub page_at : ℕ → Vmm P → ℕ
  page_at a s = if is_present (s.words a) then frame_of (s.words a) else 0

  unfoldable pub virt_to_phys : ℕ → Vmm P → ℕ
  virt_to_phys virt s =
      follow s.pml4 (pml4_idx virt) 0
        (λ pdpt.
          follow pdpt (pdpt_idx virt) 0
            (λ pd. follow pd (pd_idx virt) 0 (λ pt. page_at (slot pt (pt_idx virt)) s) s) s)
        s

module _ {P : Type 0} (f : Frames P) where
  -- A new table, zeroed, behind the entry; null and nothing else if there is no page.
  unfoldable pub create_table : ℕ → ℕ → ℕ → Vmm P → ℕ × Vmm P
  create_table table index flags s =
      let r = f.alloc_page s.pmm in
      let virt = phys_to_virt s.hhdm r.0 in
      let zeroed = record s { pmm = r.1; words = zero_page virt s.words } in
      if r.0 == 0
      then (0, record s { pmm = r.1 })
      else (virt, set_word (slot table index) (make_entry r.0 flags) zeroed)

  unfoldable pub get_or_create_table : ℕ → ℕ → ℕ → Vmm P → ℕ × Vmm P
  get_or_create_table table index flags s =
      let entry = s.words (slot table index) in
      if is_present entry then (table_of s.hhdm entry, s) else create_table table index flags s

  -- table = get_or_create_table(…, FLAG_WRITABLE | FLAG_USER); if (!table) return;
  unfoldable pub descend : ℕ → ℕ → (ℕ → Vmm P → Vmm P) → Vmm P → Vmm P
  descend table index next s =
      let r = get_or_create_table table index (bit_or flag_writable flag_user) s in
      if r.0 == 0 then r.1 else next r.0 r.1

  unfoldable pub map_page : ℕ → ℕ → ℕ → Vmm P → Vmm P
  map_page virt phys flags s =
      descend s.pml4 (pml4_idx virt)
        (λ pdpt. descend pdpt (pdpt_idx virt) (λ pd.
          descend pd (pd_idx virt)
            (λ pt. set_leaf (slot pt (pt_idx virt)) (make_entry phys flags) virt)))
        s

  unfoldable pub init_tables : ℕ → Vmm P → Vmm P
  init_tables hhdm_offset s =
      let r = f.alloc_page s.pmm in
      let pml4 = phys_to_virt hhdm_offset r.0 in
      let old_pml4 = phys_to_virt hhdm_offset s.cr3 in
      record s {
        hhdm = hhdm_offset;
        pml4 = pml4;
        cr3 = r.0;
        words = count_up 256 256 (copy_entry pml4 old_pml4) (zero_page pml4 s.words);
        pmm = r.1;
      }
