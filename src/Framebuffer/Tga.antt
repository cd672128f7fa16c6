-- ===== src/Framebuffer/Tga.antt =====
-- video/framebuffer.cpp: the two operations that draw a TGA image. The image is bytes of memory,
-- read in the machine's order, lowest first.
use issanium.Prelude.{
  ℕ, ◌+◌, ◌*◌, ◌/◌, ◌^◌, Bool, ◌||◌, Option, none, some, not, ◌==◌, if◌then◌else◌, bit_and, bit_or,
}
use issanium.Prelude.Word.{u32, sub32, is_true, ◌<<<◌, ◌>>>◌}
use issanium.Prelude.Memory.{count_up}
use issanium.Libc.{Mem}
use issanium.Framebuffer.{Screen, Buffer, put_pixel_alpha}

abbrev pub load16 : Mem → ℕ → ℕ
load16 m a = m a + m (a + 1) * 2 ^ 8

abbrev pub load32 : Mem → ℕ → ℕ
load32 m a = m a + m (a + 1) * 2 ^ 8 + m (a + 2) * 2 ^ 16 + m (a + 3) * 2 ^ 24

pub record TgaHeader : Type 0 where
  pub id_length : ℕ
  pub color_map_type : ℕ
  pub image_type : ℕ
  pub color_map_origin : ℕ
  pub color_map_length : ℕ
  pub color_map_depth : ℕ
  pub x_origin : ℕ
  pub y_origin : ℕ
  pub width : ℕ
  pub height : ℕ
  pub bits_per_pixel : ℕ
  pub image_descriptor : ℕ

abbrev pub sizeof_header : ℕ
sizeof_header = 18

-- The cast of `tga_data`; the structure is packed.
abbrev pub header_at : Mem → ℕ → TgaHeader
header_at m a = record {
  id_length = m a;
  color_map_type = m (a + 1);
  image_type = m (a + 2);
  color_map_origin = load16 m (a + 3);
  color_map_length = load16 m (a + 5);
  color_map_depth = m (a + 7);
  x_origin = load16 m (a + 8);
  y_origin = load16 m (a + 10);
  width = load16 m (a + 12);
  height = load16 m (a + 14);
  bits_per_pixel = m (a + 16);
  image_descriptor = m (a + 17);
}

abbrev pub pixels_at : Mem → ℕ → ℕ
pixels_at m tga_data = tga_data + sizeof_header + m tga_data

abbrev pub flip_y : TgaHeader → Bool
flip_y header = not (is_true (bit_and header.image_descriptor 0x20))

-- The `uint32_t` sums and products of the index wrap.
abbrev pub pixel_index : TgaHeader → ℕ → ℕ → ℕ
pixel_index header x y = u32 (u32 (y * header.width) + x)

-- `color` of the pixel: four bytes, or three of blue, green and red that are made opaque.
unfoldable pub color_at : Mem → ℕ → TgaHeader → ℕ → ℕ → ℕ
color_at m tga_data header x y =
    let pixels = pixels_at m tga_data in
    let p = pixels + u32 (pixel_index header x y * 3) in
    if header.bits_per_pixel == 32
    then load32 m (pixels + 4 * pixel_index header x y)
    else bit_or (bit_or (bit_or (0xFF <<< 24) (m (p + 2) <<< 16)) (m (p + 1) <<< 8)) (m p)

-- The screen row of row `i` of `height`.
abbrev pub row_of : TgaHeader → ℕ → ℕ → ℕ → ℕ
row_of header y height i =
    if flip_y header then sub32 (sub32 (u32 (y + height)) 1) i else u32 (y + i)

unfoldable pub draw_tga_image : Screen → ℕ → ℕ → Mem → ℕ → Buffer → Buffer
draw_tga_image fb x y m tga_data b =
    let header = header_at m tga_data in
    count_up header.height 0
      (λ i. count_up header.width 0 (λ j.
        put_pixel_alpha fb (u32 (x + j)) (row_of header y header.height i)
          (color_at m tga_data header j i)))
      b

-- ((size << 16) / target) is the step between samples, in units of 1 / 65536.
unfoldable pub ratio : ℕ → ℕ → ℕ
ratio size target = u32 (size <<< 16) / target

unfoldable pub source_of : ℕ → ℕ → ℕ → ℕ
unfolding ratio
source_of size target j = u32 (j * ratio size target) >>> 16

-- The loops of `draw_tga_scaled`, behind its two divisions.
unfoldable pub scale_rows : Screen → ℕ → ℕ → ℕ → ℕ → Mem → ℕ → Buffer → Buffer
scale_rows fb x y target_w target_h m tga_data b =
    let header = header_at m tga_data in
    count_up target_h 0
      (λ i. count_up target_w 0 (λ j.
        put_pixel_alpha fb (u32 (x + j)) (row_of header y target_h i) (
          color_at m tga_data header (source_of header.width target_w j)
            (source_of header.height target_h i))))
      b

-- `none` is the fault of a division by 0. A read of the image finds a byte at every address: that
-- it may fault is not modelled.
unfoldable pub draw_tga_scaled : Screen → ℕ → ℕ → ℕ → ℕ → Mem → ℕ → Buffer → Option Buffer
draw_tga_scaled fb x y target_w target_h m tga_data b =
    if target_w == 0 || target_h == 0
    then none
    else some (scale_rows fb x y target_w target_h m tga_data b)
