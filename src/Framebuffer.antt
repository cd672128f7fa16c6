-- ===== src/Framebuffer.antt =====
-- video/framebuffer.cpp: the drawing operations on the back buffer. The buffer is its `uint32_t`
-- cells by index; what the boot loader's response and the heap provide enters as parameters.
pub mod Clip
pub mod Blend
pub mod Tga
pub mod Image
pub mod Source
pub mod Setup
pub mod Front
use mathlib.Core.Option
use issanium.Prelude.{
  ℕ, zero, suc, ◌+◌, ◌-◌, ◌*◌, ◌/◌, ◌%◌, ◌^◌, Bool, true, false, not, ltb, leb, ◌==◌, ◌||◌,
  if◌then◌else◌, bit_and, bit_or, Option, none, some, List, [], ◌∷◌,
}
use issanium.Prelude.Word.{u8, u32, u64, sub32, is_true, ◌<<<◌, ◌>>>◌}
use issanium.Prelude.Memory.{write, count_up}
use issanium.Libc.{Mem, memcpy, Copied}

-- What `struct limine_framebuffer` gives of the screen; `address` is that of the front buffer.
pub record Screen : Type 0 where
  pub address : ℕ
  pub width : ℕ
  pub height : ℕ
  pub pitch : ℕ

-- `fb` and the address of `back_buffer`.
abbrev pub Drawing : Type 0
Drawing = Screen × ℕ

-- `init`: `response` holds the loader's framebuffers, if it answered, and `kmalloc` gives none for a
-- fault. Without a framebuffer `init` returns false, and the state stays as it is.
unfoldable pub init_framebuffer :
    {H : Type 0} → (ℕ → H → Option (ℕ × H)) → Option (List Screen) → H → Option (Option Drawing × H)
init_framebuffer kmalloc none h = some (none, h)
init_framebuffer kmalloc (some []) h = some (none, h)
init_framebuffer kmalloc (some (fb ∷ others)) h =
    Option.map (λ r. (some (fb, r.0), r.1)) (kmalloc (u64 (fb.height * fb.pitch)) h)

abbrev pub Buffer : Type 0
Buffer = ℕ → ℕ

-- y * (fb->pitch / 4) + x: the pitch is a `uint64_t`, and so is the index.
unfoldable pub cell : Screen → ℕ → ℕ → ℕ
cell fb x y = u64 (y * (fb.pitch / 4) + x)

-- `put_pixel` with `fb` set.
unfoldable pub set_pixel : Screen → ℕ → ℕ → ℕ → Buffer → Buffer
set_pixel fb x y color b = write b (cell fb x y) color

-- `if (!fb) return;`
abbrev pub with_fb : Option Screen → (Screen → Buffer → Buffer) → Buffer → Buffer
with_fb none f b = b
with_fb (some fb) f b = f fb b

unfoldable pub put_pixel : Option Screen → ℕ → ℕ → ℕ → Buffer → Buffer
put_pixel fb x y color b = with_fb fb (λ s. set_pixel s x y color) b

-- for (curr_x = x; curr_x < last; curr_x++), with `left` rounds left, and its break.
unfoldable pub draw_row : Screen → ℕ → ℕ → ℕ → ℕ → Buffer → Buffer
draw_row fb zero curr_x curr_y color b = b
draw_row fb (suc left) curr_x curr_y color b =
    let rest =
      draw_row fb left (curr_x + 1) curr_y color (put_pixel (some fb) curr_x curr_y color b) in
    if leb fb.width curr_x then b else rest

-- The outer loop; `rounds` are those of the inner one, which starts at `x`.
unfoldable pub draw_rows : Screen → ℕ → ℕ → ℕ → ℕ → ℕ → Buffer → Buffer
draw_rows fb zero curr_y x rounds color b = b
draw_rows fb (suc left) curr_y x rounds color b =
    let rest =
      draw_rows fb left (curr_y + 1) x rounds color (draw_row fb rounds x curr_y color b) in
    if leb fb.height curr_y then b else rest

-- `x + width` and `y + height` are `uint32_t` sums: a loop has no round when its sum wraps.
unfoldable pub draw_rect : Option Screen → ℕ → ℕ → ℕ → ℕ → ℕ → Buffer → Buffer
draw_rect fb x y width height color b =
    with_fb fb (λ s. draw_rows s (u32 (y + height) - y) y x (u32 (x + width) - x) color) b

unfoldable pub clear : Option Screen → ℕ → Buffer → Buffer
clear fb color b =
    with_fb fb
      (λ s. count_up s.height 0 (λ y. count_up s.width 0 (λ x. put_pixel (some s) x y color))) b

abbrev pub get_width : Option Screen → ℕ
get_width none = 0
get_width (some fb) = fb.width

abbrev pub get_height : Option Screen → ℕ
get_height none = 0
get_height (some fb) = fb.height

-- One pair of channels: ((((c - bg) * alpha) >> 8) + bg) & mask in `uint32_t`.
unfoldable pub blend : ℕ → ℕ → ℕ → ℕ → ℕ
blend alpha mask color bg_color =
    let c = bit_and color mask in
    let bg = bit_and bg_color mask in bit_and (u32 ((u32 (sub32 c bg * alpha) >>> 8) + bg)) mask

unfoldable pub blend_pixel : ℕ → ℕ → ℕ → ℕ
blend_pixel alpha color bg_color =
    bit_or (bit_or (blend alpha 0xFF00FF color bg_color) (blend alpha 0x00FF00 color bg_color))
      (0xFF <<< 24)

abbrev pub alpha_of : ℕ → ℕ
alpha_of color = bit_and (color >>> 24) 0xFF

-- With `fb` set, as the code takes it to be; the index is a `uint32_t` here.
unfoldable pub put_pixel_alpha : Screen → ℕ → ℕ → ℕ → Buffer → Buffer
put_pixel_alpha fb x y color b =
    let offset = u32 (y * (fb.pitch / 4) + x) in
    if leb fb.width x || leb fb.height y
    then b
    else if alpha_of color == 0
    then b
    else if alpha_of color == 255
    then put_pixel (some fb) x y color b
    else write b offset (blend_pixel (alpha_of color) color (b offset))

-- Over the bytes of memory, with the address of the back buffer.
unfoldable pub update_frontbuffer : Option Screen → ℕ → Mem → Mem
update_frontbuffer none back_buffer m = m
update_frontbuffer (some fb) back_buffer m =
    if back_buffer == 0 then m else (memcpy fb.address back_buffer (u64 (fb.height * fb.pitch)) m).1
