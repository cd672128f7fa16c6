-- ===== src/Writer.antt =====
-- video/writer.cpp: text in the PSF2 font. The font is bytes of memory at an address that the
-- linker gives; an `int` coordinate is its bit pattern, and a text is its characters' bytes.
pub mod Glyph
pub mod Lines
use issanium.Prelude.{
  ℕ, zero, suc, ◌+◌, ◌-◌, ◌*◌, ◌/◌, ◌%◌, ◌^◌, Bool, true, false, ltb, leb, ◌==◌, if◌then◌else◌,
  bit_and, Option, none, some, List, [], ◌∷◌,
}
use issanium.Prelude.Int.{ltb_ℤ}
use issanium.Prelude.Word.{u8, u32, is_true, signed32, ◌>>>◌}
use issanium.Prelude.Memory.{count_up}
use issanium.Libc.{Mem}
use issanium.Framebuffer.{Screen, Buffer, put_pixel, get_width}
use issanium.Framebuffer.Tga.{load32}

-- `psf2_t`.
pub record Font : Type 0 where
  pub magic : ℕ
  pub version : ℕ
  pub headersize : ℕ
  pub flags : ℕ
  pub numglyph : ℕ
  pub bytesperglyph : ℕ
  pub height : ℕ
  pub width : ℕ

abbrev pub font_at : Mem → ℕ → Font
font_at m a = record {
  magic = load32 m a;
  version = load32 m (a + 4);
  headersize = load32 m (a + 8);
  flags = load32 m (a + 12);
  numglyph = load32 m (a + 16);
  bytesperglyph = load32 m (a + 20);
  height = load32 m (a + 24);
  width = load32 m (a + 28);
}

-- `init` returns only for the magic number of PSF2; otherwise it loops for ever.
abbrev pub init_returns : Font → Bool
init_returns font = font.magic == 0x864ab572

-- The address of the bitmap of `unicode`, or of glyph 0 when the font has no such glyph.
unfoldable pub glyph_of : Font → ℕ → ℕ → ℕ
glyph_of font start unicode =
    let shown = if leb font.numglyph unicode then 0 else unicode in
    start + font.headersize + u32 (shown * font.bytesperglyph)

abbrev pub bytes_per_line : Font → ℕ
bytes_per_line font = u32 (font.width + 7) / 8

-- line[cx / 8] & mask
unfoldable pub is_inked : Mem → Font → ℕ → ℕ → ℕ → Bool
is_inked m font glyph cx cy =
    is_true (bit_and (m (glyph + u32 (cy * bytes_per_line font) + cx / 8)) (u8 (0x80 >>> (cx % 8))))

module _ (m : Mem) (start : ℕ) (fb : Option Screen) (color : ℕ) where
  abbrev pub ink_pixel : ℕ → ℕ → ℕ → ℕ → ℕ → Buffer → Buffer
  ink_pixel glyph x y cy cx b =
      if is_inked m (font_at m start) glyph cx cy
      then put_pixel fb (u32 (x + cx)) (u32 (y + cy)) color b
      else b

  unfoldable pub put_char : ℕ → ℕ → ℕ → Buffer → Buffer
  put_char unicode x y b =
      let font = font_at m start in
      count_up font.height 0
        (λ cy. count_up font.width 0 (ink_pixel (glyph_of font start unicode) x y cy)) b

  -- (uint32_t)text[i]: a `char` is signed.
  abbrev pub char_code : ℕ → ℕ
  char_code c = if ltb c 128 then c else c + 2 ^ 32 - 256

  -- Where the next character stands: `cur_x` and `cur_y` after character `c`.
  unfoldable pub advance : ℕ → ℕ → ℕ × ℕ → ℕ × ℕ
  advance x c (cur_x, cur_y) =
      let font = font_at m start in
      let next_x = u32 (cur_x + font.width) in
      if c == b'\n'
      then (x, u32 (cur_y + font.height))
      else if ltb_ℤ (signed32 (u32 (get_width fb))) (signed32 (u32 (next_x + font.width)))
      then (x, u32 (cur_y + font.height))
      else (next_x, cur_y)

  -- The loop of `print`, with the cursor.
  unfoldable pub print_from : List ℕ → ℕ → ℕ × ℕ → Buffer → Buffer
  print_from [] x cur b = b
  print_from (c ∷ cs) x cur b =
      print_from cs x (advance x c cur)
        (if c == b'\n' then b else put_char (char_code c) cur.0 cur.1 b)

  unfoldable pub print : List ℕ → ℕ → ℕ → Buffer → Buffer
  print text x y b = print_from text x (x, y) b
