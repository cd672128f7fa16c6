-- ===== src/Framebuffer/Clip.antt =====
-- video/framebuffer.cpp: which cells of the back buffer a filled rectangle changes.
use native.Mathlib.Nat.{mod-add-div'}
use issanium.Prelude.{
  ℕ, zero, suc, ◌+◌, ◌-◌, ◌*◌, ◌/◌, ◌%◌, ◌^◌, ◌≤◌, ◌<◌, ◌≡◌, refl, sym, ◌∙◌, arith, ◌==◌, ltb, leb,
  if◌then◌else◌, inl, inr, Bool-cases, Bool, ◌&&◌, some,
}
use issanium.Prelude.Word.{u32}
use issanium.Prelude.Memory.{count_up, count_up_inv}
use issanium.Framebuffer.{
  Screen, Buffer, cell, set_pixel, put_pixel, draw_row, draw_rows, draw_rect, clear,
}

-- The rows of the screen do not overlap and its cells have an index in range; the sizes fit the
-- `uint32_t` coordinates of the operations.
pub record IsScreen (fb : Screen) : Type 0 where
  pub wide : fb.width ≤ fb.pitch / 4
  pub range : fb.height * (fb.pitch / 4) < 2 ^ 32
  pub width_lt : fb.width < 2 ^ 32
  pub height_lt : fb.height < 2 ^ 32

pub index-lt : (h s x y : ℕ) → y < h → x < s → y * s + x < h * s
index-lt h s x y hy hx = grind arith

pub same_index : (s x y k : ℕ) → x < s → (y * s + x == k) ≡ (k % s == x && k / s == y)
same_index s x y k h = grind (arith, mod-add-div' k s)

module _ (fb : Screen) (f : IsScreen fb) (color : ℕ) where
  abbrev stride : ℕ
  stride = fb.pitch / 4

  pub put_pixel-cell :
      (x y : ℕ) (b : Buffer) (k : ℕ)
      → x < fb.width
      → y < fb.height
      → put_pixel (some fb) x y color b k
        ≡ (if k % stride == x && k / stride == y then color else b k)
  unfolding put_pixel set_pixel cell
  put_pixel-cell x y b k hx hy =
      let small : y * stride + x < fb.height * stride =
        index-lt fb.height stride x y hy (omega (arith, f.wide)) in
      ground (arith, same_index stride x y k (omega (arith, f.wide)), small, f.range)

  -- Cell `k` is in row `y`, in columns `x` to `last - 1`, and visible.
  abbrev in_row : ℕ → ℕ → ℕ → ℕ → Bool
  in_row x last y k =
      k / stride == y
      && (leb x (k % stride) && (ltb (k % stride) last && ltb (k % stride) fb.width))

  draw_row-cell :
      (left x y last : ℕ) (b : Buffer) (k : ℕ)
      → y < fb.height
      → x + left ≡ last
      → draw_row fb left x y color b k ≡ (if in_row x last y k then color else b k)
  unfolding draw_row
  draw_row-cell zero x y last b k hy e = ground arith
  draw_row-cell (suc left) x y last b k hy e = elim (Bool-cases (leb fb.width x)) [
    | inl out ↦ ground arith
    | inr in' ↦ ground (
      arith,
      draw_row-cell left (x + 1) y last (put_pixel (some fb) x y color b) k,
      put_pixel-cell x y b k,
    )
  ]

  abbrev pub in_rect : ℕ → ℕ → ℕ → ℕ → ℕ → Bool
  in_rect x last_x y last_y k =
      (leb y (k / stride) && (ltb (k / stride) last_y && ltb (k / stride) fb.height))
      && (leb x (k % stride) && (ltb (k % stride) last_x && ltb (k % stride) fb.width))

  draw_rows-cell :
      (left y last_y x rounds : ℕ) (b : Buffer) (k : ℕ)
      → y + left ≡ last_y
      → draw_rows fb left y x rounds color b k
        ≡ (if in_rect x (x + rounds) y last_y k then color else b k)
  unfolding draw_rows
  draw_rows-cell zero y last_y x rounds b k e = ground arith
  draw_rows-cell (suc left) y last_y x rounds b k e = elim (Bool-cases (leb fb.height y)) [
    | inl out ↦ ground arith
    | inr in' ↦ ground (
      arith,
      draw_rows-cell left (y + 1) last_y x rounds (draw_row fb rounds x y color b) k,
      draw_row-cell rounds x y (x + rounds) b k,
    )
  ]

  -- On a screen whose rows do not overlap, `draw_rect` gives the colour to the cells of the
  -- rectangle that are visible, and leaves every other cell of memory as it was.
  pub draw_rect-in_rect :
      (x y width height : ℕ) (b : Buffer) (k : ℕ)
      → x + width < 2 ^ 32
      → y + height < 2 ^ 32
      → draw_rect (some fb) x y width height color b k
        ≡ (if in_rect x (x + width) y (y + height) k then color else b k)
  unfolding draw_rect
  draw_rect-in_rect x y width height b k hx hy =
      let rounds_x : u32 (x + width) - x ≡ width = omega arith in
      let rounds_y : u32 (y + height) - y ≡ height = omega arith in
      rw (rounds_x, rounds_y) (draw_rows-cell height y (y + height) x width b k refl)

  clear_row-cell :
      (y : ℕ) (b : Buffer) (k : ℕ)
      → y < fb.height
      → count_up fb.width 0 (λ x. put_pixel (some fb) x y color) b k
        ≡ (if in_row 0 fb.width y k then color else b k)
  clear_row-cell y b k hy =
      count_up_inv (λ i t. t k ≡ (if in_row 0 i y k then color else b k))
        (λ x. put_pixel (some fb) x y color) fb.width 0 fb.width b (omega arith)
        (λ i t lo hi p. ground (arith, put_pixel-cell i y t k hi hy, p)) (ground arith)

  -- `clear` gives the colour to every visible cell and to no other: it is `draw_rect` on the
  -- whole screen.
  pub clear-draw_rect :
      (b : Buffer) (k : ℕ)
      → clear (some fb) color b k ≡ draw_rect (some fb) 0 0 fb.width fb.height color b k
  unfolding clear
  clear-draw_rect b k =
      count_up_inv (λ i t. t k ≡ (if in_rect 0 (0 + fb.width) 0 i k then color else b k))
        (λ y. count_up fb.width 0 (λ x. put_pixel (some fb) x y color)) fb.height 0 (0 + fb.height)
        b refl (λ i t lo hi p. ground (arith, clear_row-cell i t k (omega arith), p)) (ground arith)
      ∙ sym (
          draw_rect-in_rect 0 0 fb.width fb.height b k (omega (arith, f.width_lt))
            (omega (arith, f.height_lt)))
