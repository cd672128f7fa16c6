-- ===== src/Desktop/Polling.antt =====
-- kernel/main.cpp: the render functions a shared access at a time, so that an interrupt may fall
-- between any two. What they draw is in `Shown`; the pixels are those of Desktop. The statics
-- prev_mouse_x and prev_mouse_y are left out: nothing reads them.
pub mod Current
pub mod Rounds
pub mod Frame
use issanium.Prelude.{ℕ, ◌+◌, ◌^◌, ◌<◌, Bool, false, not, ◌==◌, if◌then◌else◌}
use issanium.Prelude.Int.{ℤ}
use issanium.Mouse
use issanium.Keyboard
use issanium.Interrupts.{Devices}

-- What the last draw_rect, draw_tga_image and print calls of the render functions were given.
pub record Shown : Type 0 where
  pub rect_x : ℤ
  pub rect_y : ℤ
  pub left : Bool
  pub image_x : ℤ
  pub image_y : ℤ
  pub ticks : ℕ
  pub key : ℕ

-- Where the process stands, with the local values that are live there.
pub data Pc : Type 0 where
  test_moved : Pc
  lower_moved : Pc
  read_left : Pc
  read_rect_x : Bool → Pc
  read_rect_y : Bool → ℤ → Pc
  read_image_x : Pc
  read_image_y : ℤ → Pc
  test_ticks : Pc
  keep_ticks : Pc
  draw_ticks : Pc
  test_pressed : Pc
  lower_pressed : Pc
  read_key : Pc

pub record View : Type 0 where
  pub devices : Devices
  pub last_ticks : ℕ
  pub shown : Shown
  pub pc : Pc

abbrev pub goto : Pc → View → View
goto pc v = record v { pc = pc }

abbrev pub set_moved : Bool → Devices → Devices
set_moved b d = record d { mouse = record d.mouse { moved = b } }

abbrev pub set_pressed : Bool → Devices → Devices
set_pressed b d = record d { keyboard = record d.keyboard { pressed = b } }

-- The next access of the process, in the order of the source, with the x of a call before its y;
-- behind render_keypress comes the next round.
unfoldable pub next_access : Pc → View → View
next_access test_moved v = if v.devices.mouse.moved then goto lower_moved v else goto test_ticks v
next_access lower_moved v = record v { devices = set_moved false v.devices; pc = read_left }
next_access read_left v = goto (read_rect_x v.devices.mouse.left_pressed) v
next_access (read_rect_x l) v = goto (read_rect_y l v.devices.mouse.mouse_x) v
next_access (read_rect_y l x) v = record v {
  shown = record v.shown { rect_x = x; rect_y = v.devices.mouse.mouse_y; left = l };
  pc = read_image_x;
}
next_access read_image_x v = goto (read_image_y v.devices.mouse.mouse_x) v
next_access (read_image_y x) v = record v {
  shown = record v.shown { image_x = x; image_y = v.devices.mouse.mouse_y };
  pc = test_ticks;
}
next_access test_ticks v =
    if v.devices.timer_ticks == v.last_ticks then goto test_pressed v else goto keep_ticks v
next_access keep_ticks v = record v { last_ticks = v.devices.timer_ticks; pc = draw_ticks }
next_access draw_ticks v = record v {
  shown = record v.shown { ticks = v.devices.timer_ticks };
  pc = test_pressed;
}
next_access test_pressed v =
    if v.devices.keyboard.pressed then goto lower_pressed v else goto test_moved v
next_access lower_pressed v = record v { devices = set_pressed false v.devices; pc = read_key }
next_access read_key v = record v {
  shown = record v.shown { key = v.devices.keyboard.last_key };
  pc = test_moved;
}

abbrev pub draw : View → View
draw v = next_access v.pc v

-- The process goes on, or an interrupt comes in between: a scancode, a byte of the mouse, or a
-- tick, until the counter would wrap.
pub data Step (v : View) : View → Type 0 where
  run : Step v (draw v)
  key :
      (byte : ℕ)
      → Step v (record v {
        devices = record v.devices { keyboard = Keyboard.handle byte v.devices.keyboard };
      })
  mouse :
      (byte : ℕ)
      → Step v
          (record v { devices = record v.devices { mouse = Mouse.handle byte v.devices.mouse } })
  tick :
      v.devices.timer_ticks + 1 < 2 ^ 32
      → Step v (record v { devices = record v.devices { timer_ticks = v.devices.timer_ticks + 1 } })

pub data Reach (v : View) : View → Type 0 where
  here : Reach v v
  next : {u w : View} → Reach v u → Step u w → Reach v w
