-- ===== src/Tests/Interrupts.antt =====
-- Runs of kernel/interrupts.cpp, and its theorems at concrete inputs.
use issanium.Prelude.{ℕ, ◌+◌, ◌*◌, ◌%◌, ◌^◌, ◌<◌, ◌≡◌, refl, arith, false, [], ◌∷◌, some, List}
use issanium.Libc.{Mem}
use issanium.Mouse.{initial}
use issanium.Interrupts.{Stub, Gate, interrupt_stub, interrupt_stub_timer, make_gate, Devices, Cpu}
use issanium.Interrupts.Setup.{IsInstalled, init-IsInstalled}
use issanium.Interrupts.Dispatch.{Event, run, apart, run-apart}

abbrev stub_address : Stub → ℕ
stub_address (interrupt_stub n) = 0xFFFFFFFF80000000 + 16 * (n % 256)
stub_address interrupt_stub_timer = 0xFFFFFFFF80001000

stub_address-lt : (isr : Stub) → stub_address isr < 2 ^ 64
stub_address-lt (interrupt_stub n) = omega arith
stub_address-lt interrupt_stub_timer = omega arith

abbrev no_table : ℕ → Gate
no_table v = make_gate 0 0 0

abbrev reset : Cpu
reset = record {
  apic_low = 0xFEE00900;
  apic_high = 0;
  limit = 0;
  base = 0;
  idt = no_table;
  outs = [];
}

init-IsInstalled_example : IsInstalled 40 stub_address 0x8000 reset
init-IsInstalled_example = init-IsInstalled 40 stub_address 0x8000 reset stub_address-lt

abbrev no_bytes : Mem
no_bytes a = 0

abbrev idle : Devices
idle = record {
  timer_ticks = 0;
  keyboard = record { pressed = false; last_key = 0; last_scancode = 0 };
  mouse = initial;
}

abbrev event : ℕ → ℕ → Event
event v b = record { vector = v; error_code = 0; byte = b; cr2 = 0; unset = no_bytes }

abbrev events : List Event
events = event 32 0 ∷ event 44 9 ∷ event 33 0x1E ∷ event 44 5 ∷ event 32 0 ∷ event 44 3 ∷ []

run-apart_example : run events idle ≡ some (apart events idle)
run-apart_example = run-apart events idle refl (omega arith)
