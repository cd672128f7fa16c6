-- ===== src/Mouse/Setup.antt =====
-- drivers/ps2mouse.cpp: `init` and the helpers that talk to the controller, over the machine's
-- ports. `inb` and `outb` are parameters on a machine of any type; messages are left out.
pub mod Protocol
use issanium.Prelude.{ℕ, zero, suc, ◌-◌, ◌^◌, ◌==◌, if◌then◌else◌, bit_and, bit_or}
use issanium.Prelude.Word.{is_true}

abbrev pub timeout : ℕ
timeout = 100000

-- cfg |= 0x02; cfg &= ~0x20; in a `uint8_t`.
unfoldable pub configured : ℕ → ℕ
configured cfg = bit_and (bit_or cfg 0x02) (2 ^ 8 - 1 - 0x20)

module _ {S : Type 0} (inb : ℕ → S → ℕ × S) (outb : ℕ → ℕ → S → S) where
  -- while (timeout-- && (inb(0x64) & 2));
  unfoldable pub poll_write : ℕ → S → S
  poll_write zero s = s
  poll_write (suc left) s =
      let r = inb 0x64 s in
      let rest = poll_write left r.1 in if is_true (bit_and r.0 2) then rest else r.1

  -- while (timeout-- && !(inb(0x64) & 1));
  unfoldable pub poll_read : ℕ → S → S
  poll_read zero s = s
  poll_read (suc left) s =
      let r = inb 0x64 s in
      let rest = poll_read left r.1 in if is_true (bit_and r.0 1) then r.1 else rest

  unfoldable pub write_cmd : ℕ → S → S
  write_cmd cmd s = outb 0x64 cmd (poll_write timeout s)

  unfoldable pub write_data : ℕ → S → S
  write_data byte s = outb 0x60 byte (poll_write timeout s)

  unfoldable pub read_data : S → ℕ × S
  read_data s = inb 0x60 (poll_read timeout s)

  unfoldable pub mouse_cmd : ℕ → S → S
  mouse_cmd cmd s = (read_data (write_data cmd (write_cmd 0xD4 s))).1

  unfoldable pub enable_irq : S → S
  enable_irq s =
      let r = read_data (write_cmd 0x20 s) in write_data (configured r.0) (write_cmd 0x60 r.1)

  unfoldable pub init_mouse : S → S
  init_mouse s = mouse_cmd 0xF4 (mouse_cmd 0xF6 (enable_irq (write_cmd 0xA8 s)))
