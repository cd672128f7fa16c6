-- ===== src/Framebuffer/Image.antt =====
-- video/framebuffer.cpp: what drawing an image may touch, whatever its bytes are.
use issanium.Prelude.{
  ℕ, ◌+◌, ◌*◌, ◌/◌, ◌%◌, ◌<◌, ◌≡◌, refl, ◌∙◌, arith, ltb, leb, inl, inr, Bool-cases, some, Bool,
  false, ◌&&◌, ◌||◌,
}
use issanium.Prelude.Memory.{count_up, count_up_inv}
use issanium.Libc.{Mem}
use issanium.Framebuffer.{Screen, Buffer, cell, set_pixel, put_pixel, put_pixel_alpha}
use issanium.Framebuffer.Tga.{draw_tga_image, draw_tga_scaled, scale_rows}
use issanium.Framebuffer.Clip.{IsScreen, index-lt, same_index}

-- Cell `k` is the one of a pixel of the screen.
abbrev pub is_visible : Screen → ℕ → Bool
is_visible fb k = ltb (k / (fb.pitch / 4)) fb.height && ltb (k % (fb.pitch / 4)) fb.width

module _ (fb : Screen) (f : IsScreen fb) where
  put_pixel_alpha-visible :
      (x y color : ℕ) (b : Buffer) (k : ℕ)
      → is_visible fb k ≡ false
      → put_pixel_alpha fb x y color b k ≡ b k
  unfolding put_pixel_alpha put_pixel set_pixel cell
  put_pixel_alpha-visible x y color b k h = elim (Bool-cases (leb fb.width x || leb fb.height y)) [
    | inl out ↦ ground arith
    | inr in' ↦
        let small : y * (fb.pitch / 4) + x < fb.height * (fb.pitch / 4) =
          index-lt fb.height (fb.pitch / 4) x y (ground arith) (ground (arith, f.wide)) in
        ground (arith, small, f.range, f.wide, same_index (fb.pitch / 4) x y k)
  ]

  grid-visible :
      (rows columns : ℕ) (px py color : ℕ → ℕ → ℕ) (b : Buffer) (k : ℕ)
      → is_visible fb k ≡ false
      → count_up rows 0
          (λ i. count_up columns 0 (λ j. put_pixel_alpha fb (px i j) (py i j) (color i j)))
          b
          k
        ≡ b k
  grid-visible rows columns px py color b k h =
      count_up_inv (λ i t. t k ≡ b k)
        (λ i. count_up columns 0 (λ j. put_pixel_alpha fb (px i j) (py i j) (color i j))) rows 0
        rows b (omega arith)
        (λ i t lo hi p.
          count_up_inv (λ j u. u k ≡ b k) (λ j. put_pixel_alpha fb (px i j) (py i j) (color i j))
            columns 0 columns t (omega arith)
            (λ j u lo' hi' q. put_pixel_alpha-visible (px i j) (py i j) (color i j) u k h ∙ q) p)
        refl

  -- Whatever bytes an image has and wherever it is drawn, `draw_tga_image` changes no cell that
  -- is not a pixel of the screen.
  pub draw_tga_image-visible :
      (x y : ℕ) (m : Mem) (tga_data : ℕ) (b : Buffer) (k : ℕ)
      → is_visible fb k ≡ false
      → draw_tga_image fb x y m tga_data b k ≡ b k
  unfolding draw_tga_image
  draw_tga_image-visible x y m tga_data b k h = grid-visible _ _ _ _ _ b k h

  -- The same of `draw_tga_scaled`: for a target that is not empty it divides by no 0, and changes no
  -- cell that is not a pixel of the screen.
  pub draw_tga_scaled-visible :
      (x y target_w target_h : ℕ) (m : Mem) (tga_data : ℕ) (b : Buffer)
      → 0 < target_w
      → 0 < target_h
      → (c : Buffer) × (draw_tga_scaled fb x y target_w target_h m tga_data b ≡ some c)
        × ((k : ℕ) → is_visible fb k ≡ false → c k ≡ b k)
  unfolding draw_tga_scaled scale_rows
  draw_tga_scaled-visible x y target_w target_h m tga_data b hw hh = (
    scale_rows fb x y target_w target_h m tga_data b,
    ground arith,
    λ k h. grid-visible _ _ _ _ _ b k h,
  )
