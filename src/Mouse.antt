-- ===== src/Mouse.antt =====
-- drivers/ps2mouse.cpp: the packet state machine that the dispatcher feeds a byte at a time.
-- `int32_t` values are integers: none leaves the range of the type (Mouse.Screen).
pub mod Delta
pub mod Screen
pub mod Packets
pub mod Setup
use issanium.Prelude.{
  ℕ, zero, suc, ◌+◌, ◌^◌, Bool, true, false, not, ltb, ◌==◌, if◌then◌else◌, bit_and, bit_or, List,
  [], ◌∷◌,
}
use issanium.Prelude.Int.{ℤ, pos, negsuc, ◌+ℤ◌, ◌-ℤ◌, ltb_ℤ}
use issanium.Prelude.Word.{u8, is_true, signed32}
use issanium.Prelude.Memory.{write}

pub record Mouse : Type 0 where
  pub mouse_x : ℤ
  pub mouse_y : ℤ
  pub left_pressed : Bool
  pub right_pressed : Bool
  pub moved : Bool
  pub cycle : ℕ
  pub packet : ℕ → ℕ

abbrev pub screen_w : ℕ
screen_w = 1280

abbrev pub screen_h : ℕ
screen_h = 720

abbrev pub initial : Mouse
initial = record {
  mouse_x = pos 0;
  mouse_y = pos 0;
  left_pressed = false;
  right_pressed = false;
  moved = false;
  cycle = 0;
  packet = λ _. 0;
}

-- int32_t d = data; if (flags & mask) d |= ~0xFF; on the bit pattern, where ~0xFF is 0xFFFFFF00.
unfoldable pub sign_extend : ℕ → ℕ → ℕ → ℤ
sign_extend flags mask data' =
    signed32 (if is_true (bit_and flags mask) then bit_or data' 0xFFFFFF00 else data')

-- The two tests of a coordinate against the screen, in the source's order.
unfoldable pub clamp : ℕ → ℤ → ℤ
clamp size v =
    let low = if ltb_ℤ v (pos 0) then pos 0 else v in
    if ltb_ℤ low (pos size) then low else pos size -ℤ pos 1

-- Case 2 of the switch, once the third byte is stored.
unfoldable pub finish_packet : Mouse → Mouse
unfolding sign_extend clamp
finish_packet s =
    let dx = sign_extend (s.packet 0) 0x10 (s.packet 1) in
    let dy = sign_extend (s.packet 0) 0x20 (s.packet 2) in
    record s {
      mouse_x = clamp screen_w (s.mouse_x +ℤ dx);
      mouse_y = clamp screen_h (s.mouse_y -ℤ dy);
      left_pressed = is_true (bit_and (s.packet 0) 0x01);
      right_pressed = is_true (bit_and (s.packet 0) 0x02);
      moved = true;
      cycle = 0;
    }

unfoldable pub handle : ℕ → Mouse → Mouse
handle byte s =
    if s.cycle == 0
    then if not (is_true (bit_and byte 0x08))
      then s
      else record s { packet = write s.packet 0 byte; cycle = u8 (s.cycle + 1) }
    else if s.cycle == 1
    then record s { packet = write s.packet 1 byte; cycle = u8 (s.cycle + 1) }
    else if s.cycle == 2
    then finish_packet (record s { packet = write s.packet 2 byte })
    else s

-- The bytes that the device sends, in order.
abbrev pub feed : List ℕ → Mouse → Mouse
feed [] s = s
feed (b ∷ bs) s = feed bs (handle b s)
