-- ===== src/Framebuffer/Front.antt =====
-- `update_frontbuffer` of video/framebuffer.cpp: the screen shows the back buffer.
use native.Mathlib.Nat.{suc-mul}
use issanium.Prelude.{
  ℕ, zero, suc, ◌+◌, ◌-◌, ◌*◌, ◌/◌, ◌%◌, ◌^◌, ◌≤◌, ◌<◌, ◌≡◌, ◌≢◌, ap, ◌∙◌, arith, ◌⊎◌, ◌==◌, ltb,
  leb, ◌&&◌, false, true, some,
}
use issanium.Prelude.Word.{u64}
use issanium.Libc.{Mem}
use issanium.Libc.Move.{moved, memcpy-moved}
use issanium.Framebuffer.{Screen, update_frontbuffer}
use issanium.Framebuffer.Clip.{index-lt}

cells_of_rows : (y q p : ℕ) → 4 * q ≡ p → 4 * (y * q) ≡ y * p
cells_of_rows zero q p e = omega arith
cells_of_rows (suc y) q p e = omega (arith, suc-mul y q, suc-mul y p, cells_of_rows y q p e, e)

module _ (fb : Screen) (back : ℕ) (m : Mem) (not_null : back ≢ 0)
    (small : fb.height * fb.pitch < 2 ^ 64)
    (apart : (fb.address ≤ back) ⊎ (back + fb.height * fb.pitch ≤ fb.address)) where
  abbrev shown : Mem
  shown = update_frontbuffer (some fb) back m

  shown-moved : (a : ℕ) → shown a ≡ moved fb.address back (fb.height * fb.pitch) m a
  unfolding update_frontbuffer
  shown-moved a =
      let live : (back == 0) ≡ false = ground (arith, not_null) in
      let size : u64 (fb.height * fb.pitch) ≡ fb.height * fb.pitch = omega (arith, small) in
      rw (live, size) ((memcpy-moved fb.address back (fb.height * fb.pitch) m apart).1 a)

  -- On a screen whose rows are whole cells and hold its width, with a back buffer that starts at
  -- the front buffer or later, or ends before it, and a size that does not wrap: after
  -- `update_frontbuffer` each byte of the pixel at x and y on the screen is that byte of its cell
  -- in the back buffer, and no byte outside the front buffer has changed.
  pub update_frontbuffer-shown :
      (x y j b : ℕ)
      → fb.pitch % 4 ≡ 0
      → fb.width * 4 ≤ fb.pitch
      → x < fb.width
      → y < fb.height
      → j < 4
      → (b < fb.address) ⊎ (fb.address + fb.height * fb.pitch ≤ b)
      → (update_frontbuffer (some fb) back m (fb.address + (y * fb.pitch + (4 * x + j)))
          ≡ m (back + (4 * (y * (fb.pitch / 4) + x) + j)))
        × (update_frontbuffer (some fb) back m b ≡ m b)
  update_frontbuffer-shown x y j b whole wide hx hy hj out =
      let at = y * fb.pitch + (4 * x + j) in
      let inside : at < fb.height * fb.pitch =
        index-lt fb.height fb.pitch (4 * x + j) y hy (omega (arith, wide, hx, hj)) in
      let cells = cells_of_rows y (fb.pitch / 4) fb.pitch (omega (arith, whole)) in
      let place : back + (fb.address + at - fb.address)
          ≡ back + (4 * (y * (fb.pitch / 4) + x) + j) =
        omega (arith, cells) in
      let within : leb fb.address (fb.address + at)
            && ltb (fb.address + at) (fb.address + fb.height * fb.pitch)
          ≡ true =
        ground (arith, inside) in
      (shown-moved (fb.address + at) ∙ rw within (ap m place), shown-moved b ∙ ground (arith, out))
