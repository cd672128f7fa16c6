-- ===== src/Tests/Video.antt =====
-- Runs of video/framebuffer.cpp and video/writer.cpp, and their theorems at concrete inputs.
use issanium.Prelude.{
  ℕ, ◌+◌, ◌*◌, ◌%◌, ◌<◌, ltb, ◌≡◌, false, refl, arith, ◌==◌, if◌then◌else◌, [], ◌∷◌, some,
}
use issanium.Libc.{Mem}
use issanium.Framebuffer.{blend_pixel, Screen, Buffer, draw_rect, update_frontbuffer}
use issanium.Framebuffer.Blend.{blend_pixel-mix}
use issanium.Framebuffer.Front.{update_frontbuffer-shown}
use issanium.Framebuffer.Tga.{draw_tga_scaled}
use issanium.Framebuffer.Clip.{IsScreen, in_rect, draw_rect-in_rect}
use issanium.Framebuffer.Image.{is_visible}
use issanium.Framebuffer.Source.{draw_tga_scaled-inside}
use issanium.Writer.{put_char, print}
use issanium.Writer.Glyph.{IsFont, in_glyph, put_char-in_glyph}
use issanium.Writer.Lines.{print-visible}

abbrev screen : Screen
screen = record { address = 0; width = 20; height = 12; pitch = 96 }

screen-IsScreen : IsScreen screen
screen-IsScreen = record {
  wide = omega arith;
  range = omega arith;
  width_lt = omega arith;
  height_lt = omega arith;
}

abbrev black : Buffer
black k = 0

-- The rectangle leaves the screen on the right.
draw_rect-in_rect_example :
    draw_rect (some screen) 18 3 5 2 0xFF black (3 * 24 + 21)
    ≡ (if in_rect screen screen-IsScreen 0xFF 18 23 3 5 (3 * 24 + 21) then 0xFF else 0)
draw_rect-in_rect_example =
    draw_rect-in_rect screen screen-IsScreen 0xFF 18 3 5 2 black (3 * 24 + 21) (omega arith)
      (omega arith)

-- An image of one blue pixel, from the top, with 24 bits each.
abbrev image : Mem
image a =
    if a == 12
    then 1
    else if a == 14
    then 1
    else if a == 16
    then 24
    else if a == 17
    then 0x20
    else if a == 18
    then 255
    else 0

-- The same header and pixel, with other bytes behind them.
abbrev longer : Mem
longer a = if ltb a 21 then image a else 77

longer_pixel : (k : ℕ) → k < 3 → longer (18 + k) ≡ image (18 + k)
longer_pixel k lt = ground arith

draw_tga_scaled-inside_example :
    (c : Buffer) × (draw_tga_scaled screen 10 2 30 4 image 0 black ≡ some c)
    × (draw_tga_scaled screen 10 2 30 4 longer 0 black ≡ some c)
    × ((k : ℕ) → is_visible screen k ≡ false → c k ≡ 0)
draw_tga_scaled-inside_example =
    draw_tga_scaled-inside image longer 0 refl longer_pixel (omega arith) screen 10 2 30 4 black
      screen-IsScreen (omega arith) (omega arith) (omega arith) (omega arith)

-- Each byte holds the low byte of its address.
abbrev counting : Mem
counting a = a % 256

-- The second byte of the pixel at 3 and 2, and a byte behind the screen.
update_frontbuffer-shown_example :
    (update_frontbuffer (some screen) 5000 counting 205 ≡ counting 5205)
    × (update_frontbuffer (some screen) 5000 counting 3000 ≡ counting 3000)
update_frontbuffer-shown_example =
    update_frontbuffer-shown screen 5000 counting (omega arith) (omega arith) (omega arith) 3 2 1
      3000 refl (omega arith) (omega arith) (omega arith) (omega arith) (omega arith)

-- A font at 0 of two glyphs, of one row of eight pixels each.
abbrev font : Mem
font a =
    if a == 8
    then 32
    else if a == 16
    then 2
    else if a == 20
    then 1
    else if a == 24
    then 1
    else if a == 28
    then 8
    else if a == 32
    then 0xF0
    else if a == 33
    then 0x0F
    else 0

font-IsFont : IsFont font 0 9 screen screen-IsScreen
font-IsFont = record { columns = omega arith; rows = omega arith; glyphs = omega arith }

-- The font has no character 65: glyph 0 is drawn, whose left half is set.
put_char-in_glyph_example :
    put_char font 0 (some screen) 9 65 4 1 black 28
    ≡ (if in_glyph font 0 9 screen screen-IsScreen 65 4 1 28 then 9 else 0)
put_char-in_glyph_example =
    put_char-in_glyph font 0 9 screen screen-IsScreen font-IsFont 65 4 1 black 28 (omega arith)
      (omega arith)

print-visible_example :
    print font 0 (some screen) 9 (b'a' ∷ b'\n' ∷ b'b' ∷ b'c' ∷ []) 4 1 black 70 ≡ 0
print-visible_example =
    print-visible font 0 9 screen screen-IsScreen (b'a' ∷ b'\n' ∷ b'b' ∷ b'c' ∷ []) 4 1 black 70
      (omega arith) (omega arith) (omega arith) refl

-- A quarter of white over black.
blend_pixel-mix_example : blend_pixel 64 0x40FFFFFF 0 ≡ 0xFF3F3F3F
blend_pixel-mix_example = blend_pixel-mix 64 0x40FFFFFF 0 (omega arith)
