-- ===== src/Writer/Lines.antt =====
-- video/writer.cpp: the cursor of `print`, and what a text may touch.
use native.Mathlib.Nat.{suc-mul}
use issanium.Prelude.{
  ℕ, suc, ◌+◌, ◌*◌, ◌^◌, ◌≤◌, ◌<◌, ◌≡◌, refl, ◌∙◌, arith, ◌==◌, inl, inr, Bool-cases, false, some,
  List, [], ◌∷◌, length,
}
use issanium.Libc.{Mem}
use issanium.Framebuffer.{Screen, Buffer}
use issanium.Framebuffer.Clip.{IsScreen}
use issanium.Framebuffer.Image.{is_visible}
use issanium.Writer.{font_at, put_char, char_code, advance, print_from, print}
use issanium.Writer.Glyph.{put_char-inked_in}

module _ (m : Mem) (start color : ℕ) (fb : Screen) (f : IsScreen fb) where
  abbrev glyph_w : ℕ
  glyph_w = (font_at m start).width

  abbrev glyph_h : ℕ
  glyph_h = (font_at m start).height

  put_char-visible :
      (unicode x y : ℕ) (b : Buffer) (k : ℕ)
      → x + glyph_w ≤ fb.width
      → y + glyph_h ≤ fb.height
      → is_visible fb k ≡ false
      → put_char m start (some fb) color unicode x y b k ≡ b k
  put_char-visible unicode x y b k hx hy h =
      ground (arith, put_char-inked_in m start color fb f unicode x y b k hx hy)

  -- A character leaves room for the next one in its line.
  Cursor : ℕ → ℕ × ℕ → Type 0
  Cursor rows (cur_x, cur_y) = (cur_x + glyph_w ≤ fb.width) × (cur_y + rows * glyph_h ≤ fb.height)

  advance-Cursor :
      (rows x c : ℕ) (cur : ℕ × ℕ)
      → fb.width < 2 ^ 30
      → x + glyph_w ≤ fb.width
      → Cursor (suc (suc rows)) cur
      → Cursor (suc rows) (advance m start (some fb) color x c cur)
  unfolding advance Cursor
  advance-Cursor rows x c (cur_x, cur_y) small hx (in_line, in_page) =
      ground (arith, suc-mul rows glyph_h, suc-mul (suc rows) glyph_h, f.height_lt)

  print_from-visible :
      (text : List ℕ) (x : ℕ) (cur : ℕ × ℕ) (b : Buffer) (k : ℕ)
      → fb.width < 2 ^ 30
      → x + glyph_w ≤ fb.width
      → Cursor (suc (length text)) cur
      → is_visible fb k ≡ false
      → print_from m start (some fb) color text x cur b k ≡ b k
  unfolding print_from Cursor
  print_from-visible [] x cur b k small hx c h = refl
  print_from-visible (t ∷ text) x (cur_x, cur_y) b k small hx c h =
      print_from-visible text x (advance m start (some fb) color x t (cur_x, cur_y)) _ k small hx
        (advance-Cursor (length text) x t (cur_x, cur_y) small hx c) h
      ∙ elim (Bool-cases (t == b'\n')) [
        | inl newline ↦ rw newline refl
        | inr shown ↦ rw shown (
            put_char-visible (char_code m start (some fb) color t) cur_x cur_y b k c.0
              (omega (arith, c.1, suc-mul (suc (length text)) glyph_h)) h)
      ]

  -- When one character fits in a line and a line for each character, and one more, fits below
  -- `y`, `print` wraps its lines within the screen: it changes no cell that is not a pixel of it.
  pub print-visible :
      (text : List ℕ) (x y : ℕ) (b : Buffer) (k : ℕ)
      → fb.width < 2 ^ 30
      → x + (font_at m start).width ≤ fb.width
      → y + suc (length text) * (font_at m start).height ≤ fb.height
      → is_visible fb k ≡ false
      → print m start (some fb) color text x y b k ≡ b k
  unfolding print Cursor
  print-visible text x y b k small hx hy h =
      print_from-visible text x (x, y) b k small hx (hx, hy) h
