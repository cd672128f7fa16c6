-- ===== src/Tests/Desktop.antt =====
-- The drawing loop of kernel/main.cpp at a concrete screen.
use issanium.Prelude.{
  ℕ, ◌+◌, ◌*◌, ◌≤◌, ◌≡◌, true, false, refl, arith, ◌==◌, if◌then◌else◌, Option, some, [], ◌∷◌, ◌++◌,
}
use issanium.Prelude.Int.{negsuc, pos}
use issanium.Libc.{Mem, itoa, write_digits, reverse_bytes}
use issanium.Prelude.Memory.{count_up}
use issanium.Serial.{text_of}
use issanium.Desktop.Report.{mouse_report, position_report, called_text, x_label, y_label}
use issanium.Framebuffer.{Screen, init_framebuffer}
use issanium.Framebuffer.Setup.{init_framebuffer-is_visible}
use issanium.Framebuffer.Image.{is_visible}
use issanium.Mouse.{initial}
use issanium.Desktop.{Desktop, Layout, draw_frame}
use issanium.Desktop.Visible.{HasRoom}
use issanium.Desktop.Quiet.{back_of, draw_frame-hides}

-- A font at 0 whose glyphs are 8 pixels wide and 16 high; the images are empty.
abbrev font : Mem
font a =
    if a == 8
    then 32
    else if a == 16
    then 1
    else if a == 20
    then 16
    else if a == 24
    then 16
    else if a == 28
    then 8
    else 0

abbrev layout : Layout
layout = record { font = 0; cursor = 0x1000; bg = 0x2000; buf = 0x3000 }

abbrev screen : Screen
screen = record { address = 0; width = 1280; height = 720; pitch = 5120 }

screen-HasRoom : HasRoom font 0 screen
screen-HasRoom = record {
  screen = record {
    wide = omega arith;
    range = omega arith;
    width_lt = omega arith;
    height_lt = omega arith;
  };
  narrow = omega arith;
  low = omega arith;
  columns = omega arith;
  rows = omega arith;
}

-- The mouse has moved, a key is down, and 7 ticks have passed.
abbrev desktop : Desktop
desktop = record {
  devices = record {
    timer_ticks = 7;
    keyboard = record { pressed = true; last_key = b'a'; last_scancode = 0x1E };
    mouse = record initial { moved = true };
  };
  prev_mouse_x = negsuc 0;
  prev_mouse_y = negsuc 0;
  last_ticks = 0;
  back = λ k. 0;
}

-- A heap that gives the block at 0x8000.
abbrev heap_at : ℕ → ℕ → Option (ℕ × ℕ)
heap_at n h = some (0x8000, h)

init_framebuffer-is_visible_example :
    (init_framebuffer heap_at (some (screen ∷ [])) 3 ≡ some (some (screen, 0x8000), 3))
    × ((k : ℕ) → is_visible screen k ≡ true → 0x8000 + 4 * k + 4 ≤ 0x8000 + 720 * 5120)
init_framebuffer-is_visible_example =
    init_framebuffer-is_visible heap_at screen [] 3 3 0x8000 screen-HasRoom.screen (omega arith)
      refl

-- The ticks have been drawn, the mouse is still, and no key is down.
abbrev quiet : Desktop
quiet = record {
  devices = record {
    timer_ticks = 7;
    keyboard = record { pressed = false; last_key = b'a'; last_scancode = 0x1E };
    mouse = initial;
  };
  prev_mouse_x = initial.mouse_x;
  prev_mouse_y = initial.mouse_y;
  last_ticks = 7;
  back = λ k. 0;
}

-- The pointer is elsewhere with its button down, other ticks and another key were last, and the
-- whole screen is red.
abbrev elsewhere : Desktop
elsewhere = record quiet {
  back = λ k. if is_visible screen k then 0xFF0000 else 0;
  devices = record {
    timer_ticks = 900;
    keyboard = record { pressed = false; last_key = b'z'; last_scancode = 0x2C };
    mouse = record initial { mouse_x = pos 3; mouse_y = pos 4; left_pressed = true };
  };
  last_ticks = 900;
}

drawn_before : (k : ℕ) → is_visible screen k ≡ false → quiet.back k ≡ elsewhere.back k
drawn_before k hidden = simp hidden

draw_frame-hides_example :
    back_of (draw_frame font layout screen quiet)
    ≡ back_of (draw_frame font layout screen elsewhere)
draw_frame-hides_example =
    draw_frame-hides font layout screen screen-HasRoom.screen quiet elsewhere
      (record { still = refl; same = refl; up = refl })
      (record { still = refl; same = refl; up = refl }) drawn_before

-- render_mouse called / Mouse x=1279 y=40
reported :
    mouse_report font 0x3000 0x3010
      (record initial { moved = true; mouse_x = pos 1279; mouse_y = pos 40 })
    ≡ some (
        called_text
        ++ (x_label
            ++ (b'1' ∷ b'2' ∷ b'7' ∷ b'9' ∷ [])
            ++ (y_label ++ (b'4' ∷ b'0' ∷ []) ++ (10 ∷ []))))
unfolding mouse_report position_report text_of itoa write_digits reverse_bytes count_up
reported = refl
