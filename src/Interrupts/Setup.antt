-- ===== src/Interrupts/Setup.antt =====
-- kernel/interrupts.cpp: what `init` leaves to the processor and to the interrupt controllers.
use issanium.Prelude.{
  ℕ, ◌+◌, ◌-◌, ◌*◌, ◌^◌, ◌<◌, ◌≡◌, refl, ap, arith, ◌==◌, ltb, leb, ◌&&◌, if◌then◌else◌, Option,
  none, some, List, [], ◌∷◌, ◌++◌, inl, inr, Bool-cases, true, false,
}
use issanium.Prelude.Table.{all_below, all_below_sound}
use issanium.Prelude.Bits.{bit_at, bit_at-lt, bit_at-bit_and}
use issanium.Interrupts.{
  Gate, Stub, Out, disable_apic, remap_ports, unmask_ports, Cpu, sizeof_idt_entry, init_masked,
  init,
}
use issanium.Interrupts.Gates.{stub_for, gate_address, gate_address-make_gate, build_idt-gate}
use issanium.Interrupts.Dispatch.{last_value}

-- The gate that the processor takes for a vector: its bytes must lie within the limit. `table` is
-- where the table is.
abbrev pub deliver : ℕ → Cpu → ℕ → Option Gate
deliver table s v =
    if s.base == table && leb (sizeof_idt_entry * v + 15) s.limit then some (s.idt v) else none

-- The segment, the address and the attributes that it reads there.
abbrev pub target : Option Gate → Option (ℕ × ℕ × ℕ)
target none = none
target (some g) = some (g.kernel_cs, gate_address g, g.attributes)

-- The masks that the controllers have after these writes.
abbrev pub masks : List Out → ℕ × ℕ
masks os = (last_value 0x21 0 os, last_value 0xA1 0 os)

mask_table : all_below 32 (λ k. bit_at (2 ^ 32 - 1 - 2 ^ 11) k == (if k == 11 then 0 else 1)) ≡ true
unfolding all_below bit_at
mask_table = refl

-- Of the register's low half only bit 11 changes.
disable_apic-bit :
    (lo k : ℕ) → k < 32 → bit_at (disable_apic lo) k ≡ (if k == 11 then 0 else bit_at lo k)
unfolding disable_apic
disable_apic-bit lo k h =
    let row =
      all_below_sound 32 (λ j. bit_at (2 ^ 32 - 1 - 2 ^ 11) j == (if j == 11 then 0 else 1)) k
        mask_table h in
    ground (arith, row, bit_at-lt lo k, bit_at-bit_and lo (2 ^ 32 - 1 - 2 ^ 11) k)

last_value-append :
    (port v : ℕ) (xs ys : List Out)
    → last_value port v (xs ++ ys) ≡ last_value port (last_value port v xs) ys
last_value-append port v [] ys = refl
last_value-append port v (x ∷ xs) ys =
    last_value-append port (if x.port == port then x.value else v) xs ys

masks-remap : (os : List Out) → masks (os ++ remap_ports) ≡ (0xFF, 0xFF)
masks-remap os =
    rw (last_value-append 0x21 0 os remap_ports, last_value-append 0xA1 0 os remap_ports) refl

masks-unmask : (os : List Out) → masks (os ++ unmask_ports) ≡ (0xF8, 0xEF)
masks-unmask os =
    rw (last_value-append 0x21 0 os unmask_ports, last_value-append 0xA1 0 os unmask_ports) refl

-- The local controller is off and nothing else of its register changed; each of the 256 vectors
-- has its stub and the others none; all lines were masked when the table was loaded, and the
-- timer, the keyboard, the cascade and the mouse are let through at the end.
pub record IsInstalled (cs : ℕ) (address : Stub → ℕ) (table : ℕ) (s : Cpu) : Type 0 where
  pub apic :
      (k : ℕ)
      → k < 32
      → bit_at (init cs address table s).apic_low k ≡ (if k == 11 then 0 else bit_at s.apic_low k)
  pub apic_high : (init cs address table s).apic_high ≡ s.apic_high
  pub vectors :
      (v : ℕ)
      → target (deliver table (init cs address table s) v)
        ≡ (if ltb v 256 then some (cs, address (stub_for v), 0x8E) else none)
  pub masked : masks (init_masked cs address table s).outs ≡ (0xFF, 0xFF)
  pub unmasked : masks (init cs address table s).outs ≡ (0xF8, 0xEF)

module _ (cs : ℕ) (address : Stub → ℕ) (table : ℕ) (s : Cpu)
    (bound : (isr : Stub) → address isr < 2 ^ 64) where
  delivered :
      (v : ℕ)
      → target (deliver table (init cs address table s) v)
        ≡ (if ltb v 256 then some (cs, address (stub_for v), 0x8E) else none)
  unfolding init init_masked
  delivered v = elim (Bool-cases (ltb v 256)) [
    | inl inside ↦
        let low : v < 256 = ground (arith, inside) in
        let gate = build_idt-gate cs address s.idt v low in
        let read : leb (16 * v + 15) 4095 ≡ true = ground (arith, low) in
        let here : (table == table) ≡ true = ground arith in
        let address_of =
          gate_address-make_gate cs (address (stub_for v)) 0x8E (bound (stub_for v)) in
        rw (here, read, gate, inside) (ap (λ a. some (cs, a, 0x8E)) address_of)
    | inr outside ↦
        let past : leb (16 * v + 15) 4095 ≡ false = ground (arith, outside) in
        rw (past, outside) (ground arith)
  ]

  -- From any state of the processor and the controllers, with the stubs in the address space:
  -- `init` turns the local controller off, gives each of the 256 vectors its stub and the others
  -- none, has all lines masked when it loads the table, and then lets four lines through.
  pub init-IsInstalled : IsInstalled cs address table s
  unfolding init init_masked
  init-IsInstalled = record {
    apic = disable_apic-bit s.apic_low;
    apic_high = refl;
    vectors = delivered;
    masked = masks-remap s.outs;
    unmasked = masks-unmask (s.outs ++ remap_ports);
  }
