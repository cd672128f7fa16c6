-- ===== src/Desktop.antt =====
-- kernel/main.cpp: the process that draws the screen, a round of its loop at a time, over the
-- drawing operations and what the drivers have left. Its local buffers are bytes of memory.
pub mod Visible
pub mod Polling
pub mod Quiet
pub mod Report
use issanium.Prelude.{
  ℕ, ◌+◌, ◌-◌, ◌%◌, ◌^◌, Bool, true, false, not, ◌==◌, if◌then◌else◌, Option, none, some, List, [],
  ◌∷◌,
}
use issanium.Prelude.Int.{ℤ, pos, negsuc}
use issanium.Prelude.Word.{u32}
use issanium.Libc.{Mem, itoa}
use issanium.Serial.{text_of}
use issanium.Framebuffer.{Screen, Buffer, draw_rect, clear, get_width, get_height}
use issanium.Framebuffer.Tga.{draw_tga_image, draw_tga_scaled}
use issanium.Writer.{print}
use issanium.Interrupts.{Devices}

-- What the drivers have left, the statics of the render functions, and the back buffer.
pub record Desktop : Type 0 where
  pub devices : Devices
  pub prev_mouse_x : ℤ
  pub prev_mouse_y : ℤ
  pub last_ticks : ℕ
  pub back : Buffer

-- Where the linker puts the font and the images, and the stack puts the local buffers.
pub record Layout : Type 0 where
  pub font : ℕ
  pub cursor : ℕ
  pub bg : ℕ
  pub buf : ℕ

-- An `int32_t` passed as a `uint32_t`.
abbrev pub to_u32 : ℤ → ℕ
to_u32 (pos n) = u32 n
to_u32 (negsuc n) = 2 ^ 32 - 1 - n % 2 ^ 32

-- The steps of a fault (none) or of what comes next.
abbrev pub with_some : {A B : Type 0} → Option A → (A → Option B) → Option B
with_some none k = none
with_some (some a) k = k a

abbrev pub ticks_label : List ℕ
ticks_label = b'T' ∷ b'i' ∷ b'c' ∷ b'k' ∷ b's' ∷ b':' ∷ b' ' ∷ []

abbrev pub key_label : List ℕ
key_label = b'K' ∷ b'e' ∷ b'y' ∷ b':' ∷ b' ' ∷ []

abbrev pub title : List ℕ
title =
    b'I' ∷ b's' ∷ b's' ∷ b'a' ∷ b'n' ∷ b'i' ∷ b'u' ∷ b'm' ∷ b' ' ∷ b'H' ∷ b'y' ∷ b'd' ∷ b'r' ∷ b'o'
    ∷ b'g' ∷ b'e' ∷ b'n' ∷ []

-- char buf[2] = { last_key, '\0' };
abbrev pub key_text : ℕ → List ℕ
key_text key = if key == 0 then [] else key ∷ []

module _ (m : Mem) (l : Layout) (fb : Screen) where
  unfoldable pub render_mouse : Desktop → Desktop
  render_mouse s =
      let mouse = s.devices.mouse in
      let x = to_u32 mouse.mouse_x in
      let y = to_u32 mouse.mouse_y in
      let color = if mouse.left_pressed then 0x00FF00 else 0xFF0000 in
      if not mouse.moved then s else record s {
        devices = record s.devices { mouse = record mouse { moved = false } };
        back = draw_tga_image fb x y m l.cursor (draw_rect (some fb) x y 5 5 color s.back);
        prev_mouse_x = mouse.mouse_x;
        prev_mouse_y = mouse.mouse_y;
      }

  -- The two lines that print; `out` is memory with the digits in `buf`.
  abbrev pub print_ticks : Mem → Buffer → Buffer
  print_ticks out b =
      print m l.font (some fb) 0xFFFFFF (text_of 16 out l.buf) 300 120
        (print m l.font (some fb) 0xFFFFFF ticks_label 200 120 b)

  unfoldable pub render_ticks : Desktop → Option Desktop
  render_ticks s =
      let ticks = s.devices.timer_ticks in
      if ticks == s.last_ticks
      then some s
      else with_some (itoa ticks l.buf m)
          (λ out. some (record s { last_ticks = ticks; back = print_ticks out s.back }))

  unfoldable pub render_keypress : Desktop → Desktop
  render_keypress s =
      let keyboard = s.devices.keyboard in
      if not keyboard.pressed then s else record s {
        devices = record s.devices { keyboard = record keyboard { pressed = false } };
        back =
            print m l.font (some fb) 0xFFFFFF (key_text keyboard.last_key) 300 140
              (print m l.font (some fb) 0xFFFFFF key_label 200 140 s.back);
      }

  -- The background, the bar and the title.
  abbrev pub draw_bar : Buffer → Buffer
  draw_bar b =
      print m l.font (some fb) 0xFFFFFF title 0 0
        (draw_rect (some fb) 0 0 (u32 (get_width (some fb))) 48 0x444444 b)

  -- A round of the loop up to `update_frontbuffer`; `none` is a fault.
  unfoldable pub draw_frame : Desktop → Option Desktop
  draw_frame s =
      with_some
        (draw_tga_scaled fb 0 0 (u32 (get_width (some fb))) (u32 (get_height (some fb))) m l.bg
          (clear (some fb) 0x000000 s.back))
        (λ b.
          with_some (render_ticks (render_mouse (record s { back = draw_bar b })))
            (λ t. some (render_keypress t)))
