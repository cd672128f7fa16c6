-- ===== src/Mouse/Packets.antt =====
-- Streams of whole packets through drivers/ps2mouse.cpp, against the movement that they mean.
use issanium.Prelude.{
  ℕ, ◌-◌, ◌^◌, ◌<◌, ◌≡◌, refl, ap, ◌∙◌, Bool, true, arith, ◌==◌, if◌then◌else◌, List, [], ◌∷◌, ◌++◌,
  bit_and,
}
use issanium.Prelude.Int.{ℤ, pos, ◌+ℤ◌, ◌-ℤ◌, ltb_ℤ}
use issanium.Prelude.Bits.{bit_at, bit_at-lt, bit_and-pow, one-le_pow}
use issanium.Prelude.Word.{is_true}
use issanium.Prelude.Memory.{write}
use issanium.Mouse.{Mouse, screen_w, screen_h, clamp, sign_extend, finish_packet, handle, feed}
use issanium.Mouse.Delta.{delta, sign_extend-delta}

-- What the main loop sees of the mouse.
pub record Pointer : Type 0 where
  pub x : ℤ
  pub y : ℤ
  pub left : Bool
  pub right : Bool
  pub moved : Bool

abbrev pub view : Mouse → Pointer
view s = record {
  x = s.mouse_x;
  y = s.mouse_y;
  left = s.left_pressed;
  right = s.right_pressed;
  moved = s.moved;
}

-- A packet: its flags, and the low bytes of the two movements.
pub record Packet : Type 0 where
  pub flags : ℕ
  pub low_x : ℕ
  pub low_y : ℕ

-- Bit 3 of the flags is set, and all three are bytes.
pub record IsPacket (p : Packet) : Type 0 where
  pub in_step : bit_at p.flags 3 ≡ 1
  pub bytes : (p.low_x < 256) × (p.low_y < 256)

-- The nearest coordinate on a screen of that size.
abbrev pub nearest : ℕ → ℤ → ℤ
nearest size v = if ltb_ℤ v (pos 0) then pos 0 else if ltb_ℤ v (pos size) then v else pos (size - 1)

-- Bits 4 and 5 are the signs of the movements, bits 0 and 1 the buttons; y grows downwards.
abbrev pub move : Packet → Pointer → Pointer
move p s = record {
  x = nearest screen_w (s.x +ℤ delta (bit_at p.flags 4) p.low_x);
  y = nearest screen_h (s.y -ℤ delta (bit_at p.flags 5) p.low_y);
  left = bit_at p.flags 0 == 1;
  right = bit_at p.flags 1 == 1;
  moved = true;
}

abbrev pub bytes_of : List Packet → List ℕ
bytes_of [] = []
bytes_of (p ∷ ps) = p.flags ∷ p.low_x ∷ p.low_y ∷ bytes_of ps

abbrev pub move_all : List Packet → Pointer → Pointer
move_all [] s = s
move_all (p ∷ ps) s = move_all ps (move p s)

abbrev pub ArePackets : List Packet → Type 0
ArePackets [] = Unit
ArePackets (p ∷ ps) = IsPacket p × ArePackets ps

clamp-nearest : (size : ℕ) (v : ℤ) → 0 < size → clamp size v ≡ nearest size v
unfolding clamp ◌-ℤ◌
clamp-nearest size v h = ground arith

button : (k flags : ℕ) → is_true (bit_and flags (2 ^ k)) ≡ (bit_at flags k == 1)
button k flags = ground (arith, bit_and-pow flags k, bit_at-lt flags k, one-le_pow k)

module _ (p : Packet) (h : IsPacket p) (s : Mouse) (start : s.cycle ≡ 0) where
  after_flags : Mouse
  after_flags = record s { packet = write s.packet 0 p.flags; cycle = 1 }

  handle-flags : handle p.flags s ≡ after_flags
  unfolding handle after_flags
  handle-flags = ground (arith, bit_and-pow p.flags 3, h.in_step, start)

  after_bytes : Mouse
  after_bytes = record s {
    packet = write (write (write s.packet 0 p.flags) 1 p.low_x) 2 p.low_y;
    cycle = 2;
  }

  handle-bytes : handle p.low_y (handle p.low_x after_flags) ≡ finish_packet after_bytes
  unfolding handle after_flags after_bytes
  handle-bytes = refl

  finish_packet-move :
      (view (finish_packet after_bytes) ≡ move p (view s)) × ((finish_packet after_bytes).cycle ≡ 0)
  unfolding finish_packet after_bytes
  finish_packet-move = (
    ground (
      arith,
      clamp-nearest screen_w (s.mouse_x +ℤ sign_extend p.flags 0x10 p.low_x),
      clamp-nearest screen_h (s.mouse_y -ℤ sign_extend p.flags 0x20 p.low_y),
      sign_extend-delta 4 p.flags p.low_x,
      sign_extend-delta 5 p.flags p.low_y,
      button 0 p.flags,
      button 1 p.flags,
    ),
    refl,
  )

  feed_packet :
      (view (feed (p.flags ∷ p.low_x ∷ p.low_y ∷ []) s) ≡ move p (view s))
      × ((feed (p.flags ∷ p.low_x ∷ p.low_y ∷ []) s).cycle ≡ 0)
  feed_packet = rw (handle-flags, handle-bytes) finish_packet-move

-- Bytes that cannot start a packet: their bit 3 is clear.
abbrev pub AreStray : List ℕ → Type 0
AreStray [] = Unit
AreStray (b ∷ bs) = (bit_at b 3 ≡ 0) × AreStray bs

handle-stray : (b : ℕ) (s : Mouse) → s.cycle ≡ 0 → bit_at b 3 ≡ 0 → handle b s ≡ s
unfolding handle
handle-stray b s start h = ground (arith, bit_and-pow b 3)

feed-packets :
    (ps : List Packet) (s : Mouse)
    → ArePackets ps
    → s.cycle ≡ 0
    → (view (feed (bytes_of ps) s) ≡ move_all ps (view s)) × ((feed (bytes_of ps) s).cycle ≡ 0)
feed-packets [] s h start = (refl, start)
feed-packets (p ∷ ps) s h start =
    let one = feed_packet p h.0 s start in
    let rest = feed-packets ps (feed (p.flags ∷ p.low_x ∷ p.low_y ∷ []) s) h.1 one.1 in
    (rest.0 ∙ ap (move_all ps) one.0, rest.1)

-- Between packets, any bytes that cannot start a packet are dropped, and the packets behind them
-- move the pointer and set the buttons as they say: signed movements of nine bits, `y` inverted,
-- each result brought to the nearest place on the screen.
pub feed-move_all :
    (stray : List ℕ) (ps : List Packet) (s : Mouse)
    → AreStray stray
    → ArePackets ps
    → s.cycle ≡ 0
    → (view (feed (stray ++ bytes_of ps) s) ≡ move_all ps (view s))
      × ((feed (stray ++ bytes_of ps) s).cycle ≡ 0)
feed-move_all [] ps s stray packets start = feed-packets ps s packets start
feed-move_all (b ∷ bs) ps s stray packets start =
    rw (feed, handle-stray b s start stray.0) (feed-move_all bs ps s stray.1 packets start)
