-- ===== src/Serial/Sharing/Finished.antt =====
-- drivers/serial.cpp: a process that shares the serial port can always get its text out.
use mathlib.Core.Path.{subst}
use issanium.Prelude.{
  ℕ, ◌+◌, ◌≤◌, ◌<◌, ◌≡◌, ◌≢◌, refl, ap, sym, ◌∙◌, Bool, true, false, not, ◌==◌, List, [], ◌∷◌, ◌++◌,
  map, bit_and, inl, inr, Bool-cases, append-nil, ==_iff,
}
use issanium.Prelude.Memory.{write_self}
use issanium.Serial.{com1}
use issanium.Serial.Sharing.{System, poll_once, put_next, Reach, here, next, run, pass}
use issanium.Serial.Sharing.Alone.{at, go_on-poll_once, go_on-put_next}
use issanium.Serial.Sharing.Kept.{IsFifo, bytes_of, Reach-Sent}

module _ {S : Type 0} (inb : ℕ → S → ℕ × S) (outb : ℕ → ℕ → S → S) (later : S → S) (n i : ℕ)
    (member : i < n) (drained : (s : S) → bit_and (inb (com1 + 5) (later s)).0 0x20 ≢ 0) where
  -- From `u` the process gets on to the end of its text, without another call.
  abbrev Finishes : System S → (ℕ → List ℕ) → Type 0
  Finishes u asked =
      (w : System S) × Reach inb outb later n u w × (w.asked ≡ asked) × ((w.party i).left ≡ [])

  Reach-trans :
      {u v w : System S}
      → Reach inb outb later n u v
      → Reach inb outb later n v w
      → Reach inb outb later n u w
  Reach-trans r here = r
  Reach-trans r (next s st) = next (Reach-trans r s) st

  abbrev passed : System S → System S
  passed v = record v { chip = later v.chip }

  put-Reach :
      (u v : System S) (a : ℕ) (rest : List ℕ)
      → Reach inb outb later n u v
      → v.party i ≡ at (a ∷ rest) true
      → Reach inb outb later n u (put_next inb outb i a rest v)
  put-Reach u v a rest r e =
      subst (λ w. Reach inb outb later n u w) (go_on-put_next inb outb later n i member v a rest e)
        (next r (run i member))

  put-party :
      (v : System S) (a : ℕ) (rest : List ℕ)
      → (put_next inb outb i a rest v).party i ≡ at rest false
  unfolding put_next
  put-party v a rest = write_self v.party i (at rest false)

  put-asked :
      (v : System S) (a : ℕ) (rest : List ℕ) → (put_next inb outb i a rest v).asked ≡ v.asked
  unfolding put_next
  put-asked v a rest = refl

  poll-Reach :
      (u v : System S) (a : ℕ) (rest : List ℕ)
      → Reach inb outb later n u v
      → v.party i ≡ at (a ∷ rest) false
      → Reach inb outb later n u (poll_once inb outb i (passed v))
  poll-Reach u v a rest r e =
      subst (λ w. Reach inb outb later n u w)
        (go_on-poll_once inb outb later n i member (passed v) a rest e)
        (next (next r pass) (run i member))

  -- When time has passed, the poll finds the transmitter empty.
  poll-party :
      (v : System S) (a : ℕ) (rest : List ℕ)
      → v.party i ≡ at (a ∷ rest) false
      → (poll_once inb outb i (passed v)).party i ≡ at (a ∷ rest) true
  unfolding poll_once
  poll-party v a rest e = elim (Bool-cases (bit_and (inb (com1 + 5) (later v.chip)).0 0x20 == 0)) [
    | inl busy ↦ absurd (drained v.chip ((==_iff _ 0).0 busy))
    | inr empty ↦
        let b = not (bit_and (inb (com1 + 5) (later v.chip)).0 0x20 == 0) in
        write_self v.party i (record (v.party i) { allowed = b })
        ∙ ap (λ p. at p.left b) e
        ∙ ap (λ c. at (a ∷ rest) (not c)) empty
  ]

  poll-asked : (v : System S) → (poll_once inb outb i v).asked ≡ v.asked
  unfolding poll_once
  poll-asked v = refl

  text-Finishes :
      (text : List ℕ) (u v : System S)
      → Reach inb outb later n u v
      → v.party i ≡ at text false
      → Finishes u v.asked
  text-Finishes [] u v r e = (v, r, refl, ap (λ p. p.left) e)
  text-Finishes (a ∷ rest) u v r e =
      let w = poll_once inb outb i (passed v) in
      let found = poll-party v a rest e in
      let (x, s, same, done) =
        text-Finishes rest u (put_next inb outb i a rest w)
          (put-Reach u w a rest (poll-Reach u v a rest r e) found) (put-party w a rest) in
      (x, s, same ∙ put-asked w a rest ∙ poll-asked (passed v), done)

  party-Finishes :
      (text : List ℕ) (b : Bool) (v : System S) → v.party i ≡ at text b → Finishes v v.asked
  party-Finishes text false v e = text-Finishes text v v here e
  party-Finishes [] true v e = (v, here, refl, ap (λ p. p.left) e)
  party-Finishes (a ∷ rest) true v e =
      let (x, s, same, done) =
        text-Finishes rest v (put_next inb outb i a rest v) (put-Reach v v a rest here e)
          (put-party v a rest) in
      (x, s, same ∙ put-asked v a rest, done)

  -- On a chip whose FIFO is at least as long as there are processes and empty after some time,
  -- from a start at which none of them has passed its poll: whatever their accesses have been so
  -- far, each process can go on until it has written all that it was to print, and every byte
  -- that was written by then is sent, in the order of the writes.
  pub Reach-Finished :
      (sent : S → List ℕ) (room : S → ℕ) (size : ℕ) (v w : System S)
      → IsFifo inb outb later sent room size
      → n ≤ size
      → ((k : ℕ) → (v.party k).allowed ≡ false)
      → ((k : ℕ) → (v.party k).left ≡ v.asked k)
      → v.log ≡ []
      → Reach inb outb later n v w
      → (x : System S) × Reach inb outb later n w x
        × (bytes_of i x.log ≡ w.asked i)
        × (sent x.chip ≡ sent v.chip ++ map (λ p. p.1) x.log)
  Reach-Finished sent room size v w chip le down text empty r =
      let (x, s, same, done) = party-Finishes (w.party i).left (w.party i).allowed w refl in
      let (all, order) =
        Reach-Sent inb outb later sent room size chip n v x le down text empty (Reach-trans r s) in
      let wrote : bytes_of i x.log ≡ x.asked i =
        sym (append-nil (bytes_of i x.log))
        ∙ ap (λ l. bytes_of i x.log ++ l) (sym done)
        ∙ order i in
      (x, s, wrote ∙ ap (λ f. f i) same, all)
