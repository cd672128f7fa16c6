-- ===== src/Serial/Print.antt =====
-- drivers/serial.cpp: a text that is printed is sent, whatever the transmitter is doing at first.
use issanium.Prelude.{
  ℕ, zero, suc, ◌+◌, ◌-◌, ◌≤◌, ◌<◌, ◌≡◌, ◌≢◌, refl, ap, sym, ◌∙◌, arith, ◌==◌, bit_and, Option,
  some, List, [], ◌∷◌, ◌++◌, inl, inr, Bool-cases, append-nil, append_assoc, ==_iff,
}
use issanium.Serial.{com1, wait_transmit, serial_put_char, serial_print}

-- What the code relies on of the serial chip: `sent` is what it has taken to send, `busy` bounds
-- the polls until its transmitter is empty, which its status then shows, and no byte keeps it longer
-- than `limit` polls. It takes a byte when its transmitter is empty; what it does with one that
-- comes earlier is left open.
pub record IsUart {S : Type 0} (inb : ℕ → S → ℕ × S) (outb : ℕ → ℕ → S → S) (sent : S → List ℕ)
    (busy : S → ℕ) (limit : ℕ) : Type 0 where
  pub ready : (s : S) → busy s ≡ 0 → bit_and (inb (com1 + 5) s).0 0x20 ≢ 0
  pub empty : (s : S) → bit_and (inb (com1 + 5) s).0 0x20 ≢ 0 → busy (inb (com1 + 5) s).1 ≡ 0
  pub polled : (s : S) → busy (inb (com1 + 5) s).1 ≤ busy s - 1
  pub sent-poll : (s : S) → sent (inb (com1 + 5) s).1 ≡ sent s
  pub sent-outb : (a : ℕ) (s : S) → busy s ≡ 0 → sent (outb com1 a s) ≡ sent s ++ (a ∷ [])
  pub busy-outb : (a : ℕ) (s : S) → busy (outb com1 a s) ≤ limit

module _ {S : Type 0} (inb : ℕ → S → ℕ × S) (outb : ℕ → ℕ → S → S) (sent : S → List ℕ)
    (busy : S → ℕ) (limit : ℕ) (chip : IsUart inb outb sent busy limit) where
  abbrev Waited : S → Option S → Type 0
  Waited s r = (t : S) × (r ≡ some t) × (sent t ≡ sent s) × (busy t ≡ 0)

  wait_transmit-Waited :
      (fuel : ℕ) (s : S) → busy s < fuel → Waited s (wait_transmit inb outb fuel s)
  unfolding wait_transmit
  wait_transmit-Waited zero s h = absurd (omega arith)
  wait_transmit-Waited (suc fuel) s h = elim (Bool-cases (bit_and (inb (com1 + 5) s).0 0x20 == 0)) [
    | inl again ↦
        let still : busy s ≢ 0 = (λ e. chip.ready s e ((==_iff _ 0).0 again)) in
        let (t, e, same, idle) =
          wait_transmit-Waited fuel (inb (com1 + 5) s).1 (omega (arith, still, chip.polled s)) in
        rw again (t, e, same ∙ chip.sent-poll s, idle)
    | inr empty ↦
        let seen : bit_and (inb (com1 + 5) s).0 0x20 ≢ 0 = (λ e. cc ((==_iff _ 0).1 e, empty)) in
        rw empty ((inb (com1 + 5) s).1, refl, chip.sent-poll s, chip.empty s seen)
  ]

  abbrev pub Printed : List ℕ → S → Option S → Type 0
  Printed cs s r = (t : S) × (r ≡ some t) × (sent t ≡ sent s ++ cs) × (busy t ≤ limit)

  serial_put_char-Printed :
      (fuel a : ℕ) (s : S) → busy s < fuel → Printed (a ∷ []) s (serial_put_char inb outb fuel a s)
  unfolding serial_put_char
  serial_put_char-Printed fuel a s h =
      let (t, e, same, idle) = wait_transmit-Waited fuel s h in
      rw (e, serial_put_char)
        (
          outb com1 a t,
          refl,
          chip.sent-outb a t idle ∙ ap (λ l. l ++ (a ∷ [])) same,
          chip.busy-outb a t,
        )

  -- On a chip whose transmitter empties within a number of polls and which is only known to take a
  -- byte when it is empty: from a state at which it empties within so many polls, fuel beyond the
  -- number lets the polling loops end, and serial_print has then sent exactly the text, in order,
  -- behind what was sent.
  pub serial_print-Printed :
      (fuel : ℕ) (cs : List ℕ) (s : S)
      → limit < fuel
      → busy s ≤ limit
      → Printed cs s (serial_print inb outb fuel cs s)
  unfolding serial_print
  serial_print-Printed fuel [] s h b = (s, refl, sym (append-nil (sent s)), b)
  serial_print-Printed fuel (c ∷ cs) s h b =
      let (t, e, one, bt) = serial_put_char-Printed fuel c s (omega arith) in
      let (u, f, all, bu) = serial_print-Printed fuel cs t h bt in
      rw (e, serial_print)
        (u, f, all ∙ ap (λ l. l ++ cs) one ∙ append_assoc (sent s) (c ∷ []) cs, bu)
