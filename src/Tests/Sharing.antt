-- ===== src/Tests/Sharing.antt =====
-- process_a and process_b of kernel/main.cpp at the serial port at the same time.
use issanium.Prelude.{
  ℕ, ◌-◌, ◌≡◌, ◌==◌, ltb, if◌then◌else◌, refl, arith, false, List, [], ◌∷◌, ◌++◌, map,
}
use issanium.Serial.Sharing.{
  System, text_a, text_b, poll_once, put_next, act, go_on, Reach, here, next, run,
}
use issanium.Serial.Sharing.Kept.{IsFifo, bytes_of, Reach-Sent}
use issanium.Serial.Sharing.Finished.{Reach-Finished}

-- A chip with a FIFO of sixteen bytes, which it sends in no time; a byte too many is lost.
record Fifo : Type 0 where
  space : ℕ
  line : List ℕ

abbrev fifo_inb : ℕ → Fifo → ℕ × Fifo
fifo_inb p c = (if c.space == 16 then 0x60 else 0, c)

abbrev fifo_outb : ℕ → ℕ → Fifo → Fifo
fifo_outb p a c =
    if c.space == 0 then c else record { space = c.space - 1; line = c.line ++ (a ∷ []) }

abbrev emptied : Fifo → Fifo
emptied c = record { space = 16; line = c.line }

abbrev line_of : Fifo → List ℕ
line_of c = c.line

-- No more than sixteen bytes are free.
abbrev free_of : Fifo → ℕ
free_of c = if ltb 16 c.space then 16 else c.space

chip-IsFifo : IsFifo fifo_inb fifo_outb emptied line_of free_of 16
chip-IsFifo = record {
  empty = λ s e. ground arith;
  room-poll = λ s. omega arith;
  sent-poll = λ s. refl;
  room-outb = λ a s h. ground arith;
  sent-outb = λ a s h. ground arith;
  room-later = λ s. ground arith;
  sent-later = λ s. refl;
}

-- Process 0 is about to print A and process 1 to print B.
abbrev two : System Fifo
two = record {
  chip = record { space = 16; line = [] };
  party = λ i. record { left = if i == 0 then text_a else text_b; allowed = false };
  log = [];
  asked = λ i. if i == 0 then text_a else text_b;
}

abbrev go : ℕ → System Fifo → System Fifo
go i v = go_on fifo_inb fifo_outb i v

-- Both polls come before both writes.
abbrev raced : System Fifo
raced = go 1 (go 0 (go 1 (go 0 two)))

raced-Reach : Reach fifo_inb fifo_outb emptied 2 two raced
raced-Reach =
    next (next (next (next here (run 0 (omega arith))) (run 1 (omega arith))) (run 0 (omega arith)))
      (run 1 (omega arith))

raced_line : raced.chip.line ≡ b'A' ∷ b'B' ∷ []
unfolding act poll_once put_next
raced_line = refl

Reach-Sent_example :
    (raced.chip.line ≡ [] ++ map (λ p. p.1) raced.log)
    × ((i : ℕ) → bytes_of i raced.log ++ (raced.party i).left ≡ raced.asked i)
Reach-Sent_example =
    Reach-Sent fifo_inb fifo_outb emptied line_of free_of 16 chip-IsFifo 2 two raced (omega arith)
      (λ i. refl) (λ i. refl) refl raced-Reach

-- Process 1 goes on to the end of its text.
Reach-Finished_example :
    (x : System Fifo) × Reach fifo_inb fifo_outb emptied 2 raced x
    × (bytes_of 1 x.log ≡ b'B' ∷ 10 ∷ [])
    × (x.chip.line ≡ [] ++ map (λ p. p.1) x.log)
unfolding act poll_once put_next
Reach-Finished_example =
    Reach-Finished fifo_inb fifo_outb emptied 2 1 (omega arith) (λ s e. cc) line_of free_of 16 two
      raced chip-IsFifo (omega arith) (λ k. refl) (λ k. refl) refl raced-Reach

-- A chip without a FIFO loses the byte of the second process in the same run.
abbrev single_inb : ℕ → Fifo → ℕ × Fifo
single_inb p c = (if c.space == 1 then 0x60 else 0, c)

abbrev single : System Fifo
single = record two { chip = record { space = 1; line = [] } }

abbrev go_single : ℕ → System Fifo → System Fifo
go_single i v = go_on single_inb fifo_outb i v

lost_byte : (go_single 1 (go_single 0 (go_single 1 (go_single 0 single)))).chip.line ≡ b'A' ∷ []
unfolding act poll_once put_next
lost_byte = refl
