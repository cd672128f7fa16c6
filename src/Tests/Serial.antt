-- ===== src/Tests/Serial.antt =====
-- Runs of drivers/serial.cpp, and its theorems at concrete inputs.
use issanium.Prelude.{ℕ, ◌-◌, ◌≡◌, ◌==◌, ltb, if◌then◌else◌, refl, arith, [], ◌∷◌, ◌++◌, List, some}
use issanium.Serial.{serial_print, wait_transmit, serial_put_char}
use issanium.Serial.Print.{IsUart, Printed, serial_print-Printed}

-- A chip that is busy for three polls after each byte, and loses one that comes meanwhile.
record Chip : Type 0 where
  polls : ℕ
  line : List ℕ

abbrev chip_inb : ℕ → Chip → ℕ × Chip
chip_inb p c = (if ltb 0 c.polls then 0 else 0x60, record c { polls = c.polls - 1 })

abbrev chip_outb : ℕ → ℕ → Chip → Chip
chip_outb p a c = record { polls = 3; line = if c.polls == 0 then c.line ++ (a ∷ []) else c.line }

chip-IsUart : IsUart chip_inb chip_outb (λ c. c.line) (λ c. c.polls) 3
chip-IsUart = record {
  ready = λ s e. ground arith;
  empty = λ s e. ground arith;
  polled = λ s. omega arith;
  sent-poll = λ s. refl;
  sent-outb = λ a s e. ground arith;
  busy-outb = λ a s. omega arith;
}

abbrev fresh : Chip
fresh = record { polls = 2; line = [] }

prints_ok :
    serial_print chip_inb chip_outb 4 (b'O' ∷ b'K' ∷ []) fresh
    ≡ some (record { polls = 3; line = b'O' ∷ b'K' ∷ [] })
unfolding serial_print serial_put_char wait_transmit
prints_ok = refl

serial_print-Printed_example :
    Printed chip_inb chip_outb
      (λ c. c.line)
      (λ c. c.polls)
      3
      chip-IsUart
      (b'O' ∷ b'K' ∷ [])
      fresh
      (serial_print chip_inb chip_outb 4 (b'O' ∷ b'K' ∷ []) fresh)
serial_print-Printed_example =
    serial_print-Printed chip_inb chip_outb (λ c. c.line) (λ c. c.polls) 3 chip-IsUart 4
      (b'O' ∷ b'K' ∷ []) fresh (omega arith) (omega arith)
