-- ===== src/Mouse/Screen.antt =====
-- The pointer of drivers/ps2mouse.cpp stays on the screen, whatever bytes arrive.
use issanium.Prelude.{ℕ, ◌-◌, ◌^◌, ◌<◌, arith, List, [], ◌∷◌}
use issanium.Prelude.Int.{ℤ, pos, negsuc, ◌+ℤ◌, ◌-ℤ◌, ◌≤ℤ◌, int_laws}
use issanium.Prelude.Bits.{bit_at, bit_at-lt}
use issanium.Prelude.Memory.{write}
use issanium.Mouse.{Mouse, screen_w, screen_h, clamp, sign_extend, finish_packet, handle, feed}
use issanium.Mouse.Delta.{delta, sign_extend-delta}

abbrev pub On : ℕ → ℤ → Type 0
On size v = (pos 0 ≤ℤ v) × (v ≤ℤ pos (size - 1))

abbrev pub IsBytes : List ℕ → Type 0
IsBytes [] = Unit
IsBytes (b ∷ bs) = (b < 256) × IsBytes bs

pub record IsOnScreen (s : Mouse) : Type 0 where
  pub on_x : On screen_w s.mouse_x
  pub on_y : On screen_h s.mouse_y
  pub in_cycle : s.cycle < 3

pub clamp-On : (size : ℕ) (v : ℤ) → 0 < size → On size (clamp size v)
unfolding clamp ◌-ℤ◌
clamp-On size v h = ground arith

finish_packet-IsOnScreen : (s : Mouse) → IsOnScreen (finish_packet s)
unfolding finish_packet
finish_packet-IsOnScreen s = record {
  on_x = clamp-On screen_w (s.mouse_x +ℤ sign_extend (s.packet 0) 0x10 (s.packet 1)) (omega arith);
  on_y = clamp-On screen_h (s.mouse_y -ℤ sign_extend (s.packet 0) 0x20 (s.packet 2)) (omega arith);
  in_cycle = omega arith;
}

-- Each byte keeps the pointer on the screen and the cycle among its three states.
pub handle-IsOnScreen : (byte : ℕ) (s : Mouse) → IsOnScreen s → IsOnScreen (handle byte s)
unfolding handle
handle-IsOnScreen byte s v =
    ground (arith, finish_packet-IsOnScreen (record s { packet = write s.packet 2 byte }))

-- From the state at start, every stream of bytes leaves the pointer on the screen.
pub feed-IsOnScreen : (bs : List ℕ) (s : Mouse) → IsOnScreen s → IsOnScreen (feed bs s)
feed-IsOnScreen [] s v = v
feed-IsOnScreen (b ∷ bs) s v = feed-IsOnScreen bs (handle b s) (handle-IsOnScreen b s v)

delta_bounds :
    (sign byte : ℕ)
    → sign < 2
    → byte < 256
    → (negsuc 255 ≤ℤ delta sign byte) × (delta sign byte ≤ℤ pos 255)
delta_bounds sign byte h k = ground arith

extend_bounds :
    (k flags byte : ℕ)
    → byte < 256
    → (negsuc 255 ≤ℤ sign_extend flags (2 ^ k) byte) × (sign_extend flags (2 ^ k) byte ≤ℤ pos 255)
extend_bounds k flags byte h =
    rw (sign_extend-delta k flags byte h) (delta_bounds (bit_at flags k) byte (bit_at-lt flags k) h)

-- The sums that are clamped lie far inside `int32_t`: the horizontal one is from -256 to 1534, and
-- the vertical one from -255 to 975.
sums_fit :
    (s : Mouse)
    → IsOnScreen s
    → (s.packet 1 < 256) × (s.packet 2 < 256)
    → let dx = sign_extend (s.packet 0) 0x10 (s.packet 1) in
      let dy = sign_extend (s.packet 0) 0x20 (s.packet 2) in
      (negsuc 255 ≤ℤ s.mouse_x +ℤ dx)
      × (s.mouse_x +ℤ dx ≤ℤ pos 1534)
      × (negsuc 254 ≤ℤ s.mouse_y -ℤ dy)
      × (s.mouse_y -ℤ dy ≤ℤ pos 975)
sums_fit s v b = omega (
  int_laws,
  extend_bounds 4 (s.packet 0) (s.packet 1) b.0,
  extend_bounds 5 (s.packet 0) (s.packet 2) b.1,
)
