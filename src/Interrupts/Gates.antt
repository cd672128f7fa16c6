-- ===== src/Interrupts/Gates.antt =====
-- The descriptor table of kernel/interrupts.cpp, as the processor reads it.
use issanium.Prelude.{
  ℕ, ◌+◌, ◌*◌, ◌/◌, ◌^◌, ◌<◌, ◌≡◌, refl, ap, ◌∙◌, arith, ◌==◌, ltb, if◌then◌else◌, inl, inr,
  Bool-cases, List, [], ◌∷◌, ◌||◌,
}
use issanium.Prelude.Bits.{bit_and_low}
use issanium.Prelude.Memory.{count_up, count_up_inv}
use issanium.Interrupts.{
  Gate, Stub, interrupt_stub, interrupt_stub_timer, make_gate, idt_set_descriptor, set_gates,
  exceptions, hardware, build_idt,
}

-- The address that the processor takes from a gate.
abbrev pub gate_address : Gate → ℕ
gate_address g = g.isr_low + g.isr_mid * 2 ^ 16 + g.isr_high * 2 ^ 32

-- The three parts of a gate hold the whole address.
pub gate_address-make_gate :
    (cs addr flags : ℕ) → addr < 2 ^ 64 → gate_address (make_gate cs addr flags) ≡ addr
gate_address-make_gate cs addr flags h =
    omega
      (arith, bit_and_low 16 addr, bit_and_low 16 (addr / 2 ^ 16), bit_and_low 32 (addr / 2 ^ 32))

-- The stub that vector `v` is meant to reach.
abbrev pub stub_for : ℕ → Stub
stub_for v =
    if ltb v 16
    then interrupt_stub v
    else if v == 32
    then interrupt_stub_timer
    else if v == 33 || v == 44
    then interrupt_stub v
    else interrupt_stub 32

-- The stub that `gs` leave at vector `v`, over what was there.
abbrev last_stub : List (ℕ × Stub) → Stub → ℕ → Stub
last_stub [] d v = d
last_stub ((k, isr) ∷ gs) d v = last_stub gs (if k == v then isr else d) v

module _ (cs : ℕ) (address : Stub → ℕ) where
  abbrev stub_gate : Stub → Gate
  stub_gate isr = make_gate cs (address isr) 0x8E

  defaults :
      (idt : ℕ → Gate) (v : ℕ)
      → v < 256
      → count_up 256 0 (λ i t. idt_set_descriptor cs address i (interrupt_stub 32) 0x8E t) idt v
        ≡ stub_gate (interrupt_stub 32)
  unfolding idt_set_descriptor
  defaults idt =
      count_up_inv (λ k t. (v : ℕ) → v < k → t v ≡ stub_gate (interrupt_stub 32))
        (λ i t. idt_set_descriptor cs address i (interrupt_stub 32) 0x8E t) 256 0 256 idt
        (omega arith) (λ k t lo hi p v h. ground (arith, p v)) (λ v h. absurd (omega arith))

  set_gates-last_stub :
      (gs : List (ℕ × Stub)) (d : Stub) (idt : ℕ → Gate) (v : ℕ)
      → idt v ≡ stub_gate d
      → set_gates cs address gs idt v ≡ stub_gate (last_stub gs d v)
  unfolding idt_set_descriptor
  set_gates-last_stub [] d idt v e = e
  set_gates-last_stub ((k, isr) ∷ gs) d idt v e =
      set_gates-last_stub gs (if k == v then isr else d)
        (idt_set_descriptor cs address k isr 0x8E idt) v
        (elim (Bool-cases (k == v)) [ inl same ↦ rw same refl | inr other ↦ rw other e ])

last_stub-stub_for :
    (v : ℕ) → last_stub hardware (last_stub exceptions (interrupt_stub 32) v) v ≡ stub_for v
last_stub-stub_for v = ground arith

module _ (cs : ℕ) (address : Stub → ℕ) (idt : ℕ → Gate) where
  -- Whatever the table held, each of the 256 vectors has the gate of its stub: the exceptions 0 to
  -- 15, the timer, the keyboard and the mouse have one of their own.
  pub build_idt-gate :
      (v : ℕ) → v < 256 → build_idt cs address idt v ≡ make_gate cs (address (stub_for v)) 0x8E
  unfolding build_idt
  build_idt-gate v h =
      set_gates-last_stub cs address hardware (last_stub exceptions (interrupt_stub 32) v) _ v (
        set_gates-last_stub cs address exceptions (interrupt_stub 32) _ v
          (defaults cs address idt v h))
      ∙ ap (λ isr. make_gate cs (address isr) 0x8E) (last_stub-stub_for v)
