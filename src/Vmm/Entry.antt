-- ===== src/Vmm/Entry.antt =====
-- memory/vmm.cpp: the bits of an entry, and the indices of an address.
use issanium.Prelude.{
  ℕ, zero, suc, ◌+◌, ◌*◌, ◌/◌, ◌%◌, ◌^◌, ◌<◌, ◌≡◌, refl, ap, sym, ◌∙◌, arith, true, false, bit_or,
}
use issanium.Prelude.Bits.{
  bit_and_low, bit_and_high, bit_or_split, bit_or-zero, bit_at, bit_at-bit_or, bit_or_sum,
  bit_or_halves,
}
use issanium.Vmm.{is_present, frame_of, make_entry, pml4_idx, pdpt_idx, pd_idx, pt_idx}

-- The part of an address above its `4096 * 512 ^ level` bytes: the prefix that a table of this
-- level serves.
unfoldable pub prefix : ℕ → ℕ → ℕ
prefix zero v = v / 4096
prefix (suc n) v = prefix n v / 512

-- The index of an address in a table of level `n + 1`.
abbrev pub index : ℕ → ℕ → ℕ
index n v = prefix n v % 512

pub index-lt : (n v : ℕ) → index n v < 512
index-lt n v = omega arith

pub prefix-suc : (n v : ℕ) → prefix n v ≡ prefix (suc n) v * 512 + index n v
unfolding prefix
prefix-suc n v = omega arith

pub pt_idx-index : (v : ℕ) → pt_idx v ≡ index 0 v
unfolding prefix
pt_idx-index v = bit_and_low 9 (v / 2 ^ 12)

pub pd_idx-index : (v : ℕ) → pd_idx v ≡ index 1 v
unfolding prefix
pd_idx-index v = bit_and_low 9 (v / 2 ^ 21) ∙ omega arith

pub pdpt_idx-index : (v : ℕ) → pdpt_idx v ≡ index 2 v
unfolding prefix
pdpt_idx-index v = bit_and_low 9 (v / 2 ^ 30) ∙ omega arith

pub pml4_idx-index : (v : ℕ) → pml4_idx v ≡ index 3 v
unfolding prefix
pml4_idx-index v = bit_and_low 9 (v / 2 ^ 39) ∙ omega arith

-- An address of the lower half uses the lower half of the first table.
pub lower-half : (v : ℕ) → v < 2 ^ 47 → (index 3 v < 256) × (prefix 4 v ≡ 0)
unfolding prefix
lower-half v h = (omega arith, omega arith)

pub frame_of-pages : (entry : ℕ) → entry < 2 ^ 64 → frame_of entry ≡ entry / 4096 * 4096
unfolding frame_of
frame_of-pages entry h = bit_and_high 12 64 entry (omega arith) h

odd_or_one : (x : ℕ) → bit_or x 1 % 2 ≡ 1
unfolding bit_at
odd_or_one x = omega (arith, bit_at-bit_or x 1 0)

or_one-lt : (x : ℕ) → x < 2 ^ 12 → bit_or x 1 < 2 ^ 12
or_one-lt x h = omega (arith, bit_or_halves x 1, bit_or-zero (x / 2))

-- The low bits of an entry do not touch the address of the page.
make_entry-sum :
    (phys flags : ℕ)
    → phys % 4096 ≡ 0
    → flags < 4096
    → make_entry phys flags ≡ phys + bit_or flags 1
unfolding make_entry
make_entry-sum phys flags aligned small =
    let q : phys / 4096 * 2 ^ 12 ≡ phys = omega arith in
    let one : 0 * 2 ^ 12 + 1 ≡ 1 = omega arith in
    let first : bit_or phys flags ≡ phys / 4096 * 2 ^ 12 + flags =
      ap (λ t. bit_or t flags) (sym q) ∙ bit_or_sum 12 (phys / 4096) flags small in
    ap (λ t. bit_or t 1) first
    ∙ ap (bit_or (phys / 4096 * 2 ^ 12 + flags)) (sym one)
    ∙ bit_or_split 12 (phys / 4096) flags 0 1 small (omega arith)
    ∙ omega (arith, ap (λ (t : ℕ). t * 2 ^ 12) (bit_or-zero (phys / 4096)), q)

pub is_present-zero : is_present 0 ≡ false
unfolding is_present
is_present-zero = refl

pub is_present-make_entry :
    (phys flags : ℕ) → phys % 4096 ≡ 0 → flags < 4096 → is_present (make_entry phys flags) ≡ true
unfolding is_present
is_present-make_entry phys flags aligned small =
    let e = bit_and_low 1 (make_entry phys flags) in
    let odd : make_entry phys flags % 2 ≡ 1 =
      omega (arith, make_entry-sum phys flags aligned small, odd_or_one flags) in
    ground (arith, e, odd)

pub frame_of-make_entry :
    (phys flags : ℕ)
    → phys % 4096 ≡ 0
    → phys < 2 ^ 52
    → flags < 4096
    → frame_of (make_entry phys flags) ≡ phys
frame_of-make_entry phys flags aligned bound small =
    let e = make_entry-sum phys flags aligned small in
    let low = or_one-lt flags small in
    frame_of-pages (make_entry phys flags) (omega (arith, e, low)) ∙ omega (arith, e, low)
