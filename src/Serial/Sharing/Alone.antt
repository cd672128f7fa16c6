-- ===== src/Serial/Sharing/Alone.antt =====
-- drivers/serial.cpp: a call of serial_print by itself is a run of the accesses that it is made of.
use mathlib.Core.Path.{subst}
use issanium.Prelude.{
  ◌+◌, ℕ, zero, suc, ◌<◌, ◌≡◌, refl, ap, ◌∙◌, Bool, true, false, not, ◌==◌, none, some, List, [],
  ◌∷◌, bit_and, inl, inr, Bool-cases, Option-cases,
}
use issanium.Prelude.Memory.{write_self}
use issanium.Serial.{com1, wait_transmit, serial_put_char, serial_print}
use issanium.Serial.Sharing.{Party, System, poll_once, put_next, act, go_on, run, Reach, here, next}

abbrev pub at : List ℕ → Bool → Party
at text b = record { left = text; allowed = b }

module _ {S : Type 0} (inb : ℕ → S → ℕ × S) (outb : ℕ → ℕ → S → S) (later : S → S) (n i : ℕ)
    (member : i < n) where
  -- From `u` the process gets on to where it has `text` left, and the chip is `s`.
  abbrev Gets : System S → S → List ℕ → Bool → Type 0
  Gets u s text b =
      (w : System S) × Reach inb outb later n u w × (w.chip ≡ s) × (w.party i ≡ at text b)

  pub go_on-poll_once :
      (v : System S) (a : ℕ) (rest : List ℕ)
      → v.party i ≡ at (a ∷ rest) false
      → go_on inb outb i v ≡ poll_once inb outb i v
  unfolding act
  go_on-poll_once v a rest e = ap (λ p. act inb outb i p.left p.allowed v) e

  pub go_on-put_next :
      (v : System S) (a : ℕ) (rest : List ℕ)
      → v.party i ≡ at (a ∷ rest) true
      → go_on inb outb i v ≡ put_next inb outb i a rest v
  unfolding act
  go_on-put_next v a rest e = ap (λ p. act inb outb i p.left p.allowed v) e

  poll_once-Gets :
      (u v : System S) (a : ℕ) (rest : List ℕ)
      → Reach inb outb later n u v
      → v.party i ≡ at (a ∷ rest) false
      → Gets u
          (inb (com1 + 5) v.chip).1
          (a ∷ rest)
          (not (bit_and (inb (com1 + 5) v.chip).0 0x20 == 0))
  unfolding poll_once
  poll_once-Gets u v a rest r e =
      let b = not (bit_and (inb (com1 + 5) v.chip).0 0x20 == 0) in
      (
        poll_once inb outb i v,
        subst (λ w. Reach inb outb later n u w) (go_on-poll_once v a rest e)
            (next r (run i member)),
        refl,
        write_self v.party i (record (v.party i) { allowed = b }) ∙ ap (λ p. at p.left b) e,
      )

  wait-Gets :
      (fuel : ℕ) (u v : System S) (a : ℕ) (rest : List ℕ) (t : S)
      → Reach inb outb later n u v
      → v.party i ≡ at (a ∷ rest) false
      → wait_transmit inb outb fuel v.chip ≡ some t
      → Gets u t (a ∷ rest) true
  unfolding wait_transmit
  wait-Gets zero u v a rest t r e f = absurd (cc)
  wait-Gets (suc fuel) u v a rest t r e f =
      let (w, q, c, p) = poll_once-Gets u v a rest r e in
      elim (Bool-cases (bit_and (inb (com1 + 5) v.chip).0 0x20 == 0)) [
        | inl busy ↦
            let same : w.party i ≡ at (a ∷ rest) false = p ∙ ap (λ b. at (a ∷ rest) (not b)) busy in
            let again : wait_transmit inb outb fuel (inb (com1 + 5) v.chip).1 ≡ some t =
              rw busy at f in
            wait-Gets fuel u w a rest t q same (ap (wait_transmit inb outb fuel) c ∙ again)
        | inr empty ↦
            let seen : w.party i ≡ at (a ∷ rest) true = p ∙ ap (λ b. at (a ∷ rest) (not b)) empty in
            let found : some (inb (com1 + 5) v.chip).1 ≡ some t = rw empty at f in
            let there : (inb (com1 + 5) v.chip).1 ≡ t = cc in (w, q, c ∙ there, seen)
      ]

  put_next-Gets :
      (u v : System S) (a : ℕ) (rest : List ℕ)
      → Reach inb outb later n u v
      → v.party i ≡ at (a ∷ rest) true
      → Gets u (outb com1 a v.chip) rest false
  unfolding put_next
  put_next-Gets u v a rest r e = (
    put_next inb outb i a rest v,
    subst (λ w. Reach inb outb later n u w) (go_on-put_next v a rest e) (next r (run i member)),
    refl,
    write_self v.party i (at rest false),
  )

  serial_put_char-Gets :
      (fuel : ℕ) (u v : System S) (a : ℕ) (rest : List ℕ) (t : S)
      → Reach inb outb later n u v
      → v.party i ≡ at (a ∷ rest) false
      → serial_put_char inb outb fuel a v.chip ≡ some t
      → Gets u t rest false
  unfolding serial_put_char
  serial_put_char-Gets fuel u v a rest t r e f =
      elim (Option-cases (wait_transmit inb outb fuel v.chip)) [
        | inl none_left ↦
            let no : none ≡ some t = rw (none_left, serial_put_char) at f in absurd (cc)
        | inr (s, found) ↦
            let (w, q, c, p) = wait-Gets fuel u v a rest s r e found in
            let (x, q', c', p') = put_next-Gets u w a rest q p in
            let wrote : some (outb com1 a s) ≡ some t = rw (found, serial_put_char) at f in
            let there : outb com1 a s ≡ t = cc in (x, q', c' ∙ ap (outb com1 a) c ∙ there, p')
      ]

  print-Gets :
      (fuel : ℕ) (u v : System S) (text : List ℕ) (t : S)
      → Reach inb outb later n u v
      → v.party i ≡ at text false
      → serial_print inb outb fuel text v.chip ≡ some t
      → Gets u t [] false
  unfolding serial_print
  print-Gets fuel u v [] t r e f = let there : v.chip ≡ t = cc in (v, r, there, e)
  print-Gets fuel u v (a ∷ rest) t r e f =
      elim (Option-cases (serial_put_char inb outb fuel a v.chip)) [
        | inl none_left ↦ let no : none ≡ some t = rw (none_left, serial_print) at f in absurd (cc)
        | inr (s, found) ↦
            let (w, q, c, p) = serial_put_char-Gets fuel u v a rest s r e found in
            let others : serial_print inb outb fuel rest s ≡ some t =
              rw (found, serial_print) at f in
            print-Gets fuel u w rest t q p (ap (serial_print inb outb fuel rest) c ∙ others)
      ]

  -- When serial_print in one go returns, the same text printed by process `i` an access at a time,
  -- with no step of another process between its accesses, gets to its end too, and leaves the chip
  -- in the same state.
  pub serial_print-Gets :
      (fuel : ℕ) (v : System S) (text : List ℕ) (t : S)
      → v.party i ≡ at text false
      → serial_print inb outb fuel text v.chip ≡ some t
      → Gets v t [] false
  serial_print-Gets fuel v text t e f = print-Gets fuel v v text t here e f
