-- ===== src/Serial.antt =====
-- drivers/serial.cpp: the serial port, over the machine's ports. `inb` and `outb` are parameters
-- on a machine of any type; a text is the bytes before its NUL.
pub mod Print
pub mod Hex
pub mod Sharing
use issanium.Prelude.{
  ℕ, zero, suc, ◌+◌, ◌-◌, ◌==◌, if◌then◌else◌, bit_and, Option, none, some, List, [], ◌∷◌,
}
use issanium.Prelude.Memory.{write, count_up}
use issanium.Libc.{Mem, hex_round}

abbrev pub com1 : ℕ
com1 = 0x3F8

-- The bytes at `a` before the first NUL, of `fuel` at most.
unfoldable pub text_of : ℕ → Mem → ℕ → List ℕ
text_of zero m a = []
text_of (suc fuel) m a = let rest = text_of fuel m (a + 1) in if m a == 0 then [] else m a ∷ rest

-- `buf` of `serial_print_hex`, which is uninitialised at first: `unset` holds what was there.
unfoldable pub hex_buffer : ℕ → Mem → Mem
hex_buffer value unset =
    (count_up 16 0 (hex_round 0) (value, write (write (write unset 0 b'0') 1 b'x') 18 0)).1

-- Nineteen bytes hold the text and its NUL.
unfoldable pub hex_text : ℕ → Mem → List ℕ
hex_text value unset = text_of 19 (hex_buffer value unset) 0

module _ {S : Type 0} (inb : ℕ → S → ℕ × S) (outb : ℕ → ℕ → S → S) where
  unfoldable pub serial_init : S → S
  serial_init s =
      let s1 = outb (com1 + 1) 0x00 s in
      let s2 = outb (com1 + 3) 0x80 s1 in
      let s3 = outb (com1 + 0) 0x03 s2 in
      let s4 = outb (com1 + 1) 0x00 s3 in
      let s5 = outb (com1 + 3) 0x03 s4 in
      let s6 = outb (com1 + 2) 0xC7 s5 in outb (com1 + 4) 0x0B s6

  -- The result of the port read, and the machine after it.
  abbrev pub is_transmit_empty : S → ℕ × S
  is_transmit_empty s = let r = inb (com1 + 5) s in (bit_and r.0 0x20, r.1)

  -- while (is_transmit_empty() == 0); with fuel; `none` if it runs out.
  unfoldable pub wait_transmit : ℕ → S → Option S
  wait_transmit zero s = none
  wait_transmit (suc fuel) s =
      let r = is_transmit_empty s in
      let rest = wait_transmit fuel r.1 in if r.0 == 0 then rest else some r.1

  unfoldable pub serial_put_char : ℕ → ℕ → S → Option S
  serial_put_char fuel a s = elim (wait_transmit fuel s) [
    | none ↦ none
    | some t ↦ some (outb com1 a t)
  ]

  unfoldable pub serial_print : ℕ → List ℕ → S → Option S
  serial_print fuel [] s = some s
  serial_print fuel (c ∷ cs) s = elim (serial_put_char fuel c s) [
    | none ↦ none
    | some t ↦ serial_print fuel cs t
  ]

  abbrev pub serial_print_hex : ℕ → ℕ → Mem → S → Option S
  serial_print_hex fuel value unset s = serial_print fuel (hex_text value unset) s
