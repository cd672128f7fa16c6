-- ===== src/Tests/Polling.antt =====
-- The drawing process of kernel/main.cpp, an access at a time, at concrete interrupts.
use issanium.Prelude.{ℕ, ◌+◌, ◌≤◌, refl, arith, false}
use issanium.Keyboard
use issanium.Mouse.{initial}
use issanium.Desktop.Polling.{View, test_moved, next_access, draw, here, next, run, key, tick}
use issanium.Desktop.Polling.Current.{IsShown, Reach-IsShown}
use issanium.Desktop.Polling.Rounds.{draws, IsQuiet, Shows, Reach-Shows}

abbrev started : View
started = record {
  devices = record {
    timer_ticks = 0;
    keyboard = record { pressed = false; last_key = 0; last_scancode = 0 };
    mouse = initial;
  };
  last_ticks = 0;
  shown = record {
    rect_x = initial.mouse_x;
    rect_y = initial.mouse_y;
    left = initial.left_pressed;
    image_x = initial.mouse_x;
    image_y = initial.mouse_y;
    ticks = 0;
    key = 0;
  };
  pc = test_moved;
}

started-IsShown : IsShown started
started-IsShown = record {
  x = (refl, refl);
  y = (refl, refl);
  left = refl;
  ticks = refl;
  key = refl;
}

abbrev ticked : View → View
ticked v = record v { devices = record v.devices { timer_ticks = v.devices.timer_ticks + 1 } }

abbrev pressed_a : View → View
pressed_a v = record v {
  devices = record v.devices { keyboard = Keyboard.handle 0x1E v.devices.keyboard };
}

-- A tick comes in between the test of `moved` and that of the ticks, and is drawn.
abbrev drawn : View
drawn = draw (draw (draw (draw (ticked (draw started)))))

Reach-IsShown_example : IsShown drawn
unfolding next_access
Reach-IsShown_example =
    Reach-IsShown started drawn refl refl started-IsShown
      (next (next (next (next (next (next here run) (tick (omega arith))) run) run) run) run) refl
      refl refl refl

-- A tick and the key a.
abbrev changed : View
changed = pressed_a (ticked started)

Reach-Shows_example :
    (n : ℕ) × (n ≤ 13) × IsQuiet (draws n changed) × Shows changed (draws n changed)
Reach-Shows_example =
    Reach-Shows started changed refl refl started-IsShown
      (next (next here (tick (omega arith))) (key 0x1E)) refl
