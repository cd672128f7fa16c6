-- ===== src/Tests/Input.antt =====
-- Runs of drivers/ps2mouse.cpp and drivers/ps2keyboard.cpp, and their theorems at concrete inputs.
use issanium.Prelude.{List, ◌==◌, if◌then◌else◌, ℕ, ◌<◌, ◌≡◌, refl, arith, [], ◌∷◌, ◌++◌}
use issanium.Prelude.Int.{pos, ◌+ℤ◌, ◌-ℤ◌}
use issanium.Prelude.Bits.{bit_at}
use issanium.Mouse
use issanium.Mouse.{Mouse, initial, feed, sign_extend}
use issanium.Mouse.Setup.{configured, init_mouse}
use issanium.Mouse.Setup.Protocol.{IsLogged, answering, init_mouse-Writes}
use issanium.Mouse.Packets.{Packet, ArePackets, view, move_all, bytes_of, feed-move_all}

-- A step of 5 to the right and 3 up, with the left button.
abbrev right_up : Packet
right_up = record { flags = 0x09; low_x = 5; low_y = 3 }

-- A step of 2 to the left.
abbrev left_two : Packet
left_two = record { flags = 0x18; low_x = 254; low_y = 0 }

two-ArePackets : ArePackets (left_two ∷ right_up ∷ [])
unfolding bit_at
two-ArePackets = (
  record { in_step = refl; bytes = omega arith },
  (record { in_step = refl; bytes = omega arith }, tt),
)

moves_right : (feed (0x09 ∷ 5 ∷ 3 ∷ []) initial).mouse_x ≡ pos 5
unfolding Mouse.handle Mouse.finish_packet ◌+ℤ◌ ◌-ℤ◌
moves_right = refl

feed-move_all_example :
    (view (feed ((0xF1 ∷ []) ++ bytes_of (left_two ∷ right_up ∷ [])) initial)
      ≡ move_all (left_two ∷ right_up ∷ []) (view initial))
    × ((feed ((0xF1 ∷ []) ++ bytes_of (left_two ∷ right_up ∷ [])) initial).cycle ≡ 0)
unfolding bit_at
feed-move_all_example =
    feed-move_all (0xF1 ∷ []) (left_two ∷ right_up ∷ []) initial (refl, tt) two-ArePackets refl

-- A controller that is always ready and answers 0x61.
abbrev Log : Type 0
Log = List (ℕ × ℕ)

abbrev log_inb : ℕ → Log → ℕ × Log
log_inb p s = (0x61, s)

abbrev log_outb : ℕ → ℕ → Log → Log
log_outb p v s = s ++ ((p, v) ∷ [])

log-IsLogged : IsLogged log_inb log_outb (λ s. s)
log-IsLogged = record { written-inb = λ p s. refl; written-outb = λ p v s. refl }

init_mouse-Writes_example :
    (answering log_inb log_outb (λ s. s) log-IsLogged [] ≡ (0x64, 0xA8) ∷ (0x64, 0x20) ∷ [])
    × (init_mouse log_inb log_outb []
        ≡ (0x64, 0xA8)
          ∷ (0x64, 0x20)
          ∷ (0x64, 0x60)
          ∷ (0x60, configured 0x61)
          ∷ (0x64, 0xD4)
          ∷ (0x60, 0xF6)
          ∷ (0x64, 0xD4)
          ∷ (0x60, 0xF4)
          ∷ [])
    × ((k : ℕ)
        → k < 8
        → bit_at (configured 0x61) k ≡ (if k == 1 then 1 else if k == 5 then 0 else bit_at 0x61 k))
init_mouse-Writes_example = init_mouse-Writes log_inb log_outb (λ s. s) log-IsLogged []
