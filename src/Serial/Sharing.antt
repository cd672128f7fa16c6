-- ===== src/Serial/Sharing.antt =====
-- drivers/serial.cpp and the printing processes of kernel/main.cpp: processes that print at the same
-- time, with nothing that keeps them apart. A switch may come between the poll that finds the
-- transmitter empty and the write; what is then lost depends on the chip's FIFO.
pub mod Kept
pub mod Alone
pub mod Finished
use issanium.Prelude.{ℕ, ◌+◌, ◌≡◌, ◌<◌, Bool, true, false, not, ◌==◌, List, [], ◌∷◌, ◌++◌, bit_and}
use issanium.Prelude.Memory.{write}
use issanium.Serial.{com1, is_transmit_empty}

-- A process in serial_print: the bytes it has not written, and whether its last poll found the
-- transmitter empty.
pub record Party : Type 0 where
  pub left : List ℕ
  pub allowed : Bool

-- The chip and the processes. For the statements alone: the bytes that were written, each with the
-- process that wrote it, and what each process was to print.
pub record System (S : Type 0) : Type 0 where
  pub chip : S
  pub party : ℕ → Party
  pub log : List (ℕ × ℕ)
  pub asked : ℕ → List ℕ

-- What process_a and process_b print, again and again.
abbrev pub text_a : List ℕ
text_a = b'A' ∷ 10 ∷ []

abbrev pub text_b : List ℕ
text_b = b'B' ∷ 10 ∷ []

module _ {S : Type 0} (inb : ℕ → S → ℕ × S) (outb : ℕ → ℕ → S → S) where
  -- while (is_transmit_empty() == 0); once.
  unfoldable pub poll_once : ℕ → System S → System S
  poll_once i v =
      let r = is_transmit_empty inb outb v.chip in
      record v {
        chip = r.1;
        party = write v.party i (record (v.party i) { allowed = not (r.0 == 0) });
      }

  -- outb(COM1, a); and on to the next character.
  unfoldable pub put_next : ℕ → ℕ → List ℕ → System S → System S
  put_next i a rest v = record v {
    chip = outb com1 a v.chip;
    party = write v.party i (record { left = rest; allowed = false });
    log = v.log ++ ((i, a) ∷ []);
  }

  -- The next access of process `i`, by its text and its last poll; with no text left it is elsewhere.
  unfoldable pub act : ℕ → List ℕ → Bool → System S → System S
  act i [] allowed v = v
  act i (a ∷ rest) false v = poll_once i v
  act i (a ∷ rest) true v = put_next i a rest v

  abbrev pub go_on : ℕ → System S → System S
  go_on i v = act i (v.party i).left (v.party i).allowed v

  -- serial_print(text);
  abbrev pub call_print : ℕ → List ℕ → System S → System S
  call_print i text v = record v {
    party = write v.party i (record { left = text; allowed = false });
    asked = write v.asked i (v.asked i ++ text);
  }

  -- One of `n` processes goes on, or calls serial_print behind its last call, or time passes.
  pub data Step (later : S → S) (n : ℕ) (v : System S) : System S → Type 0 where
    run : (i : ℕ) → i < n → Step later n v (go_on i v)
    begin : (i : ℕ) (text : List ℕ) → (v.party i).left ≡ [] → Step later n v (call_print i text v)
    pass : Step later n v (record v { chip = later v.chip })

  pub data Reach (later : S → S) (n : ℕ) (v : System S) : System S → Type 0 where
    here : Reach later n v v
    next : {u w : System S} → Reach later n v u → Step later n u w → Reach later n v w
