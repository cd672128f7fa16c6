-- ===== src/Serial/Hex.antt =====
-- `serial_print_hex` of drivers/serial.cpp, and the `print_hex` of kernel/interrupts.cpp that is
-- the same code: the text that is sent.
use issanium.Prelude.{
  ℕ, zero, suc, ◌+◌, ◌-◌, ◌/◌, ◌%◌, ◌^◌, ◌≤◌, ◌<◌, ◌≡◌, refl, ap, ◌∙◌, arith, ◌==◌, List, [], ◌∷◌,
  true, false, not,
}
use issanium.Prelude.Table.{all_below, all_below_sound}
use issanium.Prelude.Memory.{write, count_up, count_up_inv}
use issanium.Libc.{Mem, hex_round}
use issanium.Libc.Hex.{IsHex, Rounds, Rounds-suc, hex_char}
use issanium.Serial.{text_of, hex_buffer, hex_text, serial_print_hex}
use issanium.Serial.Print.{IsUart, Printed, serial_print-Printed}

-- The `k` lowest digits of `n`, the highest first.
abbrev pub hex_digits : ℕ → ℕ → List ℕ
hex_digits zero n = []
hex_digits (suc k) n = hex_char (n / 16 ^ k % 16) ∷ hex_digits k n

abbrev pub hex_string : ℕ → List ℕ
hex_string n = b'0' ∷ b'x' ∷ hex_digits 16 n

hex_char_table : all_below 16 (λ d. not (hex_char d == 0)) ≡ true
unfolding all_below
hex_char_table = refl

hex_char-ne_zero : (n : ℕ) → (hex_char (n % 16) == 0) ≡ false
hex_char-ne_zero n =
    let row : not (hex_char (n % 16) == 0) ≡ true =
      all_below_sound 16 (λ d. not (hex_char d == 0)) (n % 16) hex_char_table (omega arith) in
    ground (arith, row)

module _ (n : ℕ) (unset : Mem) where
  abbrev begun : Mem
  begun = write (write (write unset 0 b'0') 1 b'x') 18 0

  rounds : Rounds n 0 begun 16 (count_up 16 0 (hex_round 0) (n, begun))
  rounds =
      count_up_inv (Rounds n 0 begun) (hex_round 0) 16 0 16 (n, begun) (omega arith)
        (λ k t lo hi p. Rounds-suc n 0 begun k t hi p)
        (omega arith, λ k lt. absurd (omega arith), λ b p. refl)

  hex_buffer-IsHex : IsHex n 0 (hex_buffer n unset)
  unfolding hex_buffer
  hex_buffer-IsHex = record {
    prefix = (ground (arith, rounds.2 0), ground (arith, rounds.2 1));
    digit = λ k h. rounds.1 k h;
    terminated = ground (arith, rounds.2 18);
  }

module _ (n : ℕ) (m : Mem) (s : IsHex n 0 m) where
  text_of-hex_digits : (k at : ℕ) → k ≤ 16 → at ≡ 18 - k → text_of (suc k) m at ≡ hex_digits k n
  unfolding text_of
  text_of-hex_digits zero at h e = rw (ap m e ∙ s.terminated) refl
  text_of-hex_digits (suc k) at h e =
      let index : at ≡ 0 + (17 - k) = omega arith in
      let byte : m at ≡ hex_char (n / 16 ^ k % 16) = ap m index ∙ s.digit k (omega arith) in
      let rest : text_of (suc k) m (at + 1) ≡ hex_digits k n =
        text_of-hex_digits k (at + 1) (omega arith) (omega arith) in
      ground (arith, byte, rest, hex_char-ne_zero (n / 16 ^ k))

  text_of-hex_string : text_of 19 m 0 ≡ hex_string n
  unfolding text_of
  text_of-hex_string = ground (arith, s.prefix.0, s.prefix.1, text_of-hex_digits 16 2)

module _ {S : Type 0} (inb : ℕ → S → ℕ × S) (outb : ℕ → ℕ → S → S) (sent : S → List ℕ)
    (busy : S → ℕ) (limit : ℕ) (chip : IsUart inb outb sent busy limit) where
  -- With fuel for its polling loops, `serial_print_hex` sends `0x` and the sixteen digits of the
  -- value, the highest first, whatever its uninitialised buffer held.
  serial_print_hex-Printed :
      (fuel value : ℕ) (unset : Mem) (s : S)
      → limit < fuel
      → busy s ≤ limit
      → Printed inb outb sent busy limit chip
          (hex_string value)
          s
          (serial_print_hex inb outb fuel value unset s)
  unfolding hex_text
  serial_print_hex-Printed fuel value unset s h b =
      rw (text_of-hex_string value (hex_buffer value unset) (hex_buffer-IsHex value unset))
        (serial_print-Printed inb outb sent busy limit chip fuel (hex_string value) s h b)
