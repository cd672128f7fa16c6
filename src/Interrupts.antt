-- ===== src/Interrupts.antt =====
-- kernel/interrupts.cpp: the interrupt descriptor table, the port writes of `init`, and the
-- dispatcher. What the assembly and the CPU provide enters as parameters: the code segment, the
-- addresses of the stubs, the bytes read from ports. The messages of
-- `init` are left out; those of a fault are the texts that it prints before it halts.
pub mod Gates
pub mod Setup
pub mod Dispatch
use issanium.Prelude.{
  ℕ, zero, suc, ◌+◌, ◌-◌, ◌*◌, ◌/◌, ◌%◌, ◌^◌, Bool, true, false, ◌==◌, if◌then◌else◌, bit_and, List,
  [], ◌∷◌, ◌++◌,
}
use issanium.Prelude.Word.{u16, u32, ◌>>>◌}
use issanium.Prelude.Memory.{write, count_up}
use issanium.Libc.{Mem}
use issanium.Serial.{hex_text}
use issanium.Mouse
use issanium.Mouse.{Mouse}
use issanium.Keyboard
use issanium.Keyboard.{Keyboard}

-- `idt_entry`.
pub record Gate : Type 0 where
  pub isr_low : ℕ
  pub kernel_cs : ℕ
  pub ist : ℕ
  pub attributes : ℕ
  pub isr_mid : ℕ
  pub isr_high : ℕ
  pub reserved : ℕ

-- The stubs of the assembly file: the numbered ones, and that of the timer.
pub data Stub : Type 0 where
  interrupt_stub : ℕ → Stub
  interrupt_stub_timer : Stub

abbrev pub make_gate : ℕ → ℕ → ℕ → Gate
make_gate cs addr flags = record {
  isr_low = bit_and addr 0xFFFF;
  kernel_cs = cs;
  ist = 0;
  attributes = flags;
  isr_mid = bit_and (addr >>> 16) 0xFFFF;
  isr_high = bit_and (addr >>> 32) 0xFFFFFFFF;
  reserved = 0;
}

abbrev pub exceptions : List (ℕ × Stub)
exceptions =
    (0, interrupt_stub 0)
    ∷ (1, interrupt_stub 1)
    ∷ (2, interrupt_stub 2)
    ∷ (3, interrupt_stub 3)
    ∷ (4, interrupt_stub 4)
    ∷ (5, interrupt_stub 5)
    ∷ (6, interrupt_stub 6)
    ∷ (7, interrupt_stub 7)
    ∷ (8, interrupt_stub 8)
    ∷ (9, interrupt_stub 9)
    ∷ (10, interrupt_stub 10)
    ∷ (11, interrupt_stub 11)
    ∷ (12, interrupt_stub 12)
    ∷ (13, interrupt_stub 13)
    ∷ (14, interrupt_stub 14)
    ∷ (15, interrupt_stub 15)
    ∷ []

abbrev pub hardware : List (ℕ × Stub)
hardware = (32, interrupt_stub_timer) ∷ (33, interrupt_stub 33) ∷ (44, interrupt_stub 44) ∷ []

module _ (cs : ℕ) (address : Stub → ℕ) where
  unfoldable pub idt_set_descriptor : ℕ → Stub → ℕ → (ℕ → Gate) → ℕ → Gate
  idt_set_descriptor vector isr flags idt = write idt vector (make_gate cs (address isr) flags)

  abbrev pub set_gates : List (ℕ × Stub) → (ℕ → Gate) → ℕ → Gate
  set_gates [] idt = idt
  set_gates ((v, isr) ∷ gs) idt = set_gates gs (idt_set_descriptor v isr 0x8E idt)

  -- The part of `init` that fills the table.
  unfoldable pub build_idt : (ℕ → Gate) → ℕ → Gate
  build_idt idt = set_gates hardware (
      set_gates exceptions
        (count_up 256 0 (λ i t. idt_set_descriptor i (interrupt_stub 32) 0x8E t) idt))

-- A write to a port, with its value.
pub record Out : Type 0 where
  pub port : ℕ
  pub value : ℕ

abbrev pub outb : ℕ → ℕ → Out
outb p v = record { port = p; value = v }

-- outb(port, value); io_wait();
abbrev pub outb_wait : ℕ → ℕ → List Out
outb_wait p v = outb p v ∷ outb 0x80 0 ∷ []

-- Clearing bit 11 of the APIC base register.
unfoldable pub disable_apic : ℕ → ℕ
disable_apic lo = bit_and lo (2 ^ 32 - 1 - 2 ^ 11)

abbrev pub divisor : ℕ
divisor = u16 (1193180 / 100)

-- The port writes of `init` before it loads the table: the remapping, all lines masked, the timer.
abbrev pub remap_ports : List Out
remap_ports =
    (outb_wait 0x20 0x11 ++ outb_wait 0xA0 0x11 ++ outb_wait 0x21 0x20 ++ outb_wait 0xA1 0x28)
    ++ (outb_wait 0x21 0x04 ++ outb_wait 0xA1 0x02 ++ outb_wait 0x21 0x01 ++ outb_wait 0xA1 0x01)
    ++ outb 0x21 0xFF
      ∷ outb 0xA1 0xFF
      ∷ outb 0x43 0x36
      ∷ outb 0x40 (bit_and divisor 0xFF)
      ∷ outb 0x40 (bit_and (divisor >>> 8) 0xFF)
      ∷ []

-- The final masks.
abbrev pub unmask_ports : List Out
unmask_ports = outb 0x21 0xF8 ∷ outb 0xA1 0xEF ∷ []

unfoldable pub init_ports : List Out
init_ports = remap_ports ++ unmask_ports

-- What `init` changes: the two halves of the APIC base register, the register of the descriptor
-- table, the table, and the ports, with the values sent so far.
pub record Cpu : Type 0 where
  pub apic_low : ℕ
  pub apic_high : ℕ
  pub limit : ℕ
  pub base : ℕ
  pub idt : ℕ → Gate
  pub outs : List Out

abbrev pub send : List Out → Cpu → Cpu
send os s = record s { outs = s.outs ++ os }

abbrev pub sizeof_idt_entry : ℕ
sizeof_idt_entry = 16

-- rdmsr, lo &= ~(1u << 11), wrmsr
abbrev pub clear_apic : Cpu → Cpu
clear_apic s = record s { apic_low = disable_apic s.apic_low }

-- lidt, with the table at `table`.
abbrev pub load_table : ℕ → Cpu → Cpu
load_table table s = record s { limit = u16 (sizeof_idt_entry * 256 - 1); base = table }

module _ (cs : ℕ) (address : Stub → ℕ) (table : ℕ) where
  -- `init` up to lidt.
  unfoldable pub init_masked : Cpu → Cpu
  init_masked s =
      let remapped = send remap_ports (clear_apic s) in
      load_table table (record remapped { idt = build_idt cs address remapped.idt })

  unfoldable pub init : Cpu → Cpu
  init s = send unmask_ports (init_masked s)

-- The state that the dispatcher reaches.
pub record Devices : Type 0 where
  pub timer_ticks : ℕ
  pub keyboard : Keyboard
  pub mouse : Mouse

-- "\n!!! DOUBLE FAULT !!! code=" and its like.
abbrev pub spaced : List ℕ → List ℕ
spaced name = b'\n' ∷ b'!' ∷ b'!' ∷ b'!' ∷ b' ' ∷ name ++ (b' ' ∷ b'!' ∷ b'!' ∷ b'!' ∷ b' ' ∷ [])

-- What it prints.
abbrev pub print_hex : ℕ → Mem → List ℕ
print_hex value unset = hex_text value unset

abbrev pub code_text : ℕ → Mem → List ℕ
code_text error_code unset =
    (b'c' ∷ b'o' ∷ b'd' ∷ b'e' ∷ b'=' ∷ []) ++ print_hex error_code unset ++ (b'\n' ∷ [])

abbrev pub double_fault : List ℕ
double_fault =
    b'D' ∷ b'O' ∷ b'U' ∷ b'B' ∷ b'L' ∷ b'E' ∷ b' ' ∷ b'F' ∷ b'A' ∷ b'U' ∷ b'L' ∷ b'T' ∷ []

abbrev pub general_protection_fault : List ℕ
general_protection_fault =
    b'G' ∷ b'E' ∷ b'N' ∷ b'E' ∷ b'R' ∷ b'A' ∷ b'L' ∷ b' ' ∷ b'P' ∷ b'R' ∷ b'O' ∷ b'T' ∷ b'E' ∷ b'C'
    ∷ b'T' ∷ b'I' ∷ b'O' ∷ b'N' ∷ b' ' ∷ b'F' ∷ b'A' ∷ b'U' ∷ b'L' ∷ b'T' ∷ []

abbrev pub page_fault : List ℕ
page_fault = b'P' ∷ b'A' ∷ b'G' ∷ b'E' ∷ b' ' ∷ b'F' ∷ b'A' ∷ b'U' ∷ b'L' ∷ b'T' ∷ []

-- What the serial port shows of the faults 8, 13 and 14.
unfoldable pub fault_text : ℕ → ℕ → ℕ → Mem → List ℕ
fault_text vector error_code cr2 unset =
    if vector == 8
    then spaced double_fault ++ code_text error_code unset
    else if vector == 13
    then spaced general_protection_fault ++ code_text error_code unset
    else spaced page_fault
      ++ (b'c' ∷ b'r' ∷ b'2' ∷ b'=' ∷ [])
      ++ print_hex cr2 unset
      ++ (b' ' ∷ code_text error_code unset)

-- Either the processor halts for good behind a message, or the handler returns after its port writes.
pub data Handled : Type 0 where
  halted : List ℕ → Handled
  returned : Devices → List Out → Handled

-- `byte` is what port 0x60 gives, if the handler reads it; `cr2` is that register, and `unset` the
-- stack under the buffer of `print_hex`.
unfoldable pub handle_interrupt : ℕ → ℕ → ℕ → ℕ → Mem → Devices → Handled
handle_interrupt vector error_code byte cr2 unset s =
    if vector == 8
    then halted (fault_text 8 error_code cr2 unset)
    else if vector == 13
    then halted (fault_text 13 error_code cr2 unset)
    else if vector == 14
    then halted (fault_text 14 error_code cr2 unset)
    else if vector == 32
    then returned (record s { timer_ticks = u32 (s.timer_ticks + 1) }) (outb 0x20 0x20 ∷ [])
    else if vector == 33
    then returned (record s { keyboard = Keyboard.handle byte s.keyboard }) (outb 0x20 0x20 ∷ [])
    else if vector == 44
    then returned (record s { mouse = Mouse.handle byte s.mouse })
        (outb 0xA0 0x20 ∷ outb 0x20 0x20 ∷ [])
    else returned s (outb 0x20 0x20 ∷ [])
