-- ===== src/Stubs/Lines.antt =====
-- kernel/interrupts.cpp and kernel/interrupt_stub.asm: every interrupt that comes through is ended.
use issanium.Prelude.{
  ℕ, ◌+◌, ◌<◌, ◌≡◌, ◌≢◌, refl, sym, ap, ◌∙◌, arith, ◌==◌, if◌then◌else◌, Option, none, some, List,
  [], ◌∷◌, Bool, true, false, ◌&&◌, inl, inr, Bool-cases, ==_iff,
}
use mathlib.Core.Path.{subst}
use issanium.Libc.{Mem}
use issanium.Process.{Context, Scheduler}
use issanium.Interrupts.{
  Out, Devices, Handled, halted, returned, handle_interrupt, Stub, interrupt_stub,
  interrupt_stub_timer, hardware,
}
use issanium.Interrupts.Dispatch.{
  Pic, raise, leads, delivers, release, release-leads, acknowledge, is_unmasked, unmasked_lines,
}
use issanium.Stubs.{stub_timer}

-- The stub that the last entry for vector `v` installs.
abbrev stub_of : ℕ → List (ℕ × Stub) → Option Stub
stub_of v [] = none
stub_of v (p ∷ ps) = let rest = stub_of v ps in if p.0 == v then some p.1 else rest

abbrev outs_of : Handled → Option (List Out)
outs_of (halted text) = none
outs_of (returned s outs) = some outs

-- The writes bring the controllers to `p` from `q`.
abbrev pub Acknowledges : Pic → Pic → Option (List Out) → Type 0
Acknowledges q p none = ⊥
Acknowledges q p (some outs) = acknowledge outs q ≡ p

both : (a b : Bool) → (a && b) ≡ true → (a ≡ true) × (b ≡ true)
both true b e = (refl, e)
both false b e = absurd (cc)

module _ (below : ℕ → ℕ) (c : Context) (sched : Scheduler) (error_code byte cr2 : ℕ) (unset : Mem)
    (s : Devices) where
  -- The port writes of a stub: that of the timer has its own, the others call the dispatcher.
  abbrev stub_writes : Option Stub → Option (List Out)
  stub_writes none = none
  stub_writes (some interrupt_stub_timer) = some (stub_timer below c sched).2
  stub_writes (some (interrupt_stub v)) = outs_of (handle_interrupt v error_code byte cr2 unset s)

  -- What the interrupt of a line writes before it returns; `none` is a halt.
  abbrev pub line_writes : ℕ → Option (List Out)
  line_writes irq = stub_writes (stub_of (32 + irq) hardware)

  timer-Acknowledges : (p : Pic) → delivers 0 p ≡ true → Acknowledges (raise 0 p) p (line_writes 0)
  unfolding stub_timer
  timer-Acknowledges p h = ap (λ ls. record p { master = ls }) (release-leads 0 p.master h)

  keyboard-Acknowledges :
      (p : Pic) → delivers 1 p ≡ true → Acknowledges (raise 1 p) p (line_writes 1)
  unfolding handle_interrupt
  keyboard-Acknowledges p h = ap (λ ls. record p { master = ls }) (release-leads 1 p.master h)

  mouse-Acknowledges :
      (p : Pic) → delivers 12 p ≡ true → Acknowledges (raise 12 p) p (line_writes 12)
  unfolding handle_interrupt
  mouse-Acknowledges p h =
      let (master, slave) = both (leads 2 p.master) (leads 4 p.slave) h in
      ap (λ ls. record p { master = release (2 ∷ p.master); slave = ls })
        (release-leads 4 p.slave slave)
      ∙ ap (λ ls. record p { master = ls }) (release-leads 2 p.master master)

  -- Each line that the final masks of init let through, but the cascade, when no line of its
  -- priority or of a higher one is in service on its controller, nor on the master for the slave's
  -- lines: the stub that init installs for its vector, which for the timer is its own and else
  -- calls the dispatcher, returns, and its commands end that line, on both controllers for the
  -- mouse, and no other.
  pub line_writes-Acknowledges :
      (irq : ℕ) (p : Pic)
      → irq < 16
      → is_unmasked irq ≡ true
      → irq ≢ 2
      → delivers irq p ≡ true
      → Acknowledges (raise irq p) p (line_writes irq)
  line_writes-Acknowledges irq p h u other = elim (unmasked_lines irq h u) [
    | inl low ↦ elim (Bool-cases (irq == 0)) [
      | inl zero ↦
          subst (λ i. delivers i p ≡ true → Acknowledges (raise i p) p (line_writes i))
            (sym ((==_iff irq 0).0 zero)) (timer-Acknowledges p)
      | inr more ↦
          let one : irq ≡ 1 = ground (arith, more, low, other) in
          subst (λ i. delivers i p ≡ true → Acknowledges (raise i p) p (line_writes i)) (sym one)
            (keyboard-Acknowledges p)
    ]
    | inr e ↦
        subst (λ i. delivers i p ≡ true → Acknowledges (raise i p) p (line_writes i)) (sym e)
          (mouse-Acknowledges p)
  ]
