-- ===== src/Interrupts/Dispatch.antt =====
-- kernel/interrupts.cpp: the interrupt controllers, and the dispatcher against the devices.
use issanium.Prelude.{
  ℕ, ◌+◌, ◌-◌, ◌%◌, ◌^◌, ◌≤◌, ◌<◌, ◌≡◌, refl, arith, ◌==◌, ltb, leb, ap, ◌∙◌, if◌then◌else◌, Option,
  none, some, List, [], ◌∷◌, Bool, true, false, not, ◌&&◌, ◌||◌, length, Bool-cases, ◌⊎◌, inl, inr,
}
use mathlib.Core.Path.{subst}
use issanium.Prelude.Table.{all_below, all_below_sound}
use issanium.Prelude.Bits.{bit_at}
use issanium.Libc.{Mem}
use issanium.Mouse.{feed}
use issanium.Keyboard
use issanium.Keyboard.{Keyboard}
use issanium.Interrupts.{
  Out, outb, init_ports, Devices, Handled, halted, returned, handle_interrupt,
}

-- The two interrupt controllers: the lines in service, the latest first. Line 0 has the highest
-- priority and line 7 the lowest; the slave is on line 2 of the master.
pub record Pic : Type 0 where
  pub master : List ℕ
  pub slave : List ℕ

-- A request takes its line; those of the slave take line 2 of the master as well.
abbrev pub raise : ℕ → Pic → Pic
raise irq p =
    if ltb irq 8
    then record p { master = irq ∷ p.master }
    else record p { master = 2 ∷ p.master; slave = (irq - 8) ∷ p.slave }

-- Line `l` has a higher priority than all of these.
abbrev pub leads : ℕ → List ℕ → Bool
leads l [] = true
leads l (x ∷ xs) = ltb l x && leads l xs

-- A request interrupts only what has a lower priority.
abbrev pub delivers : ℕ → Pic → Bool
delivers irq p =
    if ltb irq 8 then leads irq p.master else leads 2 p.master && leads (irq - 8) p.slave

-- Without the line of the highest priority.
abbrev pub release : List ℕ → List ℕ
release [] = []
release (l ∷ ls) = let rest = release ls in if leads l ls then ls else l ∷ rest

-- A line that interrupts what is in service is the first to be ended.
pub release-leads : (l : ℕ) (ls : List ℕ) → leads l ls ≡ true → release (l ∷ ls) ≡ ls
release-leads l ls e = simp e

-- The end-of-interrupt command 0x20 ends the line of the highest priority that is in service.
abbrev pub acknowledge : List Out → Pic → Pic
acknowledge [] p = p
acknowledge (o ∷ os) p = acknowledge os (
    if o.port == 0x20 && o.value == 0x20
    then record p { master = release p.master }
    else if o.port == 0xA0 && o.value == 0x20
    then record p { slave = release p.slave }
    else p)

-- The value that a port was given last.
abbrev pub last_value : ℕ → ℕ → List Out → ℕ
last_value port v [] = v
last_value port v (o ∷ os) = last_value port (if o.port == port then o.value else v) os

-- A line that the masks which `init` leaves let through; 0x21 holds those of the master.
abbrev pub is_unmasked : ℕ → Bool
is_unmasked irq =
    if ltb irq 8
    then bit_at (last_value 0x21 0 init_ports) irq == 0
    else bit_at (last_value 0xA1 0 init_ports) (irq - 8) == 0

unmasked_table : all_below 16 (λ irq. not (is_unmasked irq) || (leb irq 2 || irq == 12)) ≡ true
unfolding all_below bit_at init_ports
unmasked_table = refl

-- Of all lines these are let through.
pub unmasked_lines : (irq : ℕ) → irq < 16 → is_unmasked irq ≡ true → (irq ≤ 2) ⊎ (irq ≡ 12)
unmasked_lines irq h u =
    let row : not (is_unmasked irq) || (leb irq 2 || irq == 12) ≡ true =
      all_below_sound 16 (λ irq. not (is_unmasked irq) || (leb irq 2 || irq == 12)) irq
        unmasked_table h in
    ground (arith, subst (λ b. not b || (leb irq 2 || irq == 12) ≡ true) u row)

-- An interrupt with what the machine shows to its handler.
pub record Event : Type 0 where
  pub vector : ℕ
  pub error_code : ℕ
  pub byte : ℕ
  pub cr2 : ℕ
  pub unset : Mem

-- A run of interrupts: `none` once the processor halts.
abbrev pub step : Event → Devices → Handled
step e s = handle_interrupt e.vector e.error_code e.byte e.cr2 e.unset s

abbrev pub run : List Event → Devices → Option Devices
run [] s = some s
run (e ∷ es) s = elim (step e s) [ halted text ↦ none | returned t outs ↦ run es t ]

-- The bytes that arrive with vector `v`.
abbrev pub bytes_at : ℕ → List Event → List ℕ
bytes_at v [] = []
bytes_at v (e ∷ es) = let rest = bytes_at v es in if e.vector == v then e.byte ∷ rest else rest

abbrev pub type_all : List ℕ → Keyboard → Keyboard
type_all [] s = s
type_all (b ∷ bs) s = type_all bs (Keyboard.handle b s)

abbrev pub is_fault : ℕ → Bool
is_fault v = v == 8 || (v == 13 || v == 14)

abbrev pub has_fault : List Event → Bool
has_fault [] = false
has_fault (e ∷ es) = is_fault e.vector || has_fault es

-- What `es` do to each device, apart from the others.
abbrev pub apart : List Event → Devices → Devices
apart es s = record {
  timer_ticks = (s.timer_ticks + length (bytes_at 32 es)) % 2 ^ 32;
  keyboard = type_all (bytes_at 33 es) s.keyboard;
  mouse = feed (bytes_at 44 es) s.mouse;
}

step-apart :
    (e : Event) (s : Devices)
    → is_fault e.vector ≡ false
    → s.timer_ticks < 2 ^ 32
    → (outs : List Out) × (step e s ≡ returned (apart (e ∷ []) s) outs)
unfolding handle_interrupt
step-apart e s safe small = elim (Bool-cases (e.vector == 44)) [
  | inl m ↦ (outb 0xA0 0x20 ∷ outb 0x20 0x20 ∷ [], ground arith)
  | inr m ↦ (outb 0x20 0x20 ∷ [], ground arith)
]

apart-cons :
    (e : Event) (es : List Event) (s : Devices) → apart es (apart (e ∷ []) s) ≡ apart (e ∷ es) s
apart-cons e es s = ground arith

-- Through any run without a fault the dispatcher keeps going, counts the timer's interrupts modulo
-- 2 ^ 32, and leaves the keyboard and the mouse as their own bytes alone would in their order:
-- no other vector disturbs a device, however the interrupts interleave.
pub run-apart :
    (es : List Event) (s : Devices)
    → has_fault es ≡ false
    → s.timer_ticks < 2 ^ 32
    → run es s ≡ some (apart es s)
run-apart [] s safe small = ground arith
run-apart (e ∷ es) s safe small =
    let (outs, now) = step-apart e s (ground arith) small in
    rw (now, run)
      (run-apart es (apart (e ∷ []) s) (ground arith) (omega arith) ∙ ap some (apart-cons e es s))
