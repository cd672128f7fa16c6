-- ===== src/Desktop/Polling/Current.antt =====
-- kernel/main.cpp: what is on the screen when no news is flagged.
use issanium.Prelude.{
  ℕ, ◌+◌, ◌≤◌, ◌≡◌, refl, sym, ◌∙◌, arith, Bool, true, false, Bool-cases, ◌⊎◌, inl, inr, ◌==◌,
  if◌then◌else◌,
}
use issanium.Prelude.Int.{ℤ}
use issanium.Mouse
use issanium.Mouse.{Mouse, finish_packet}
use issanium.Keyboard
use issanium.Keyboard.{Keyboard}
use issanium.Interrupts.{Devices}
use issanium.Desktop.Polling.{
  Shown, Pc, test_moved, lower_moved, read_left, read_rect_x, read_rect_y, read_image_x,
  read_image_y, test_ticks, keep_ticks, draw_ticks, test_pressed, lower_pressed, read_key, View,
  next_access, Step, run, key, mouse, tick, Reach, here, next,
}

-- The last pointer drawn is the mouse's, as far as the process has come since it lowered `moved`.
abbrev PointerIs : Pc → ℤ → ℤ → Bool → Shown → Type 0
PointerIs lower_moved x y l s = Unit
PointerIs read_left x y l s = Unit
PointerIs (read_rect_x m) x y l s = m ≡ l
PointerIs (read_rect_y m u) x y l s = (m ≡ l) × (u ≡ x)
PointerIs read_image_x x y l s = (s.rect_x ≡ x) × (s.rect_y ≡ y) × (s.left ≡ l)
PointerIs (read_image_y u) x y l s = (s.rect_x ≡ x) × (s.rect_y ≡ y) × (s.left ≡ l) × (u ≡ x)
PointerIs pc x y l s =
    (s.rect_x ≡ x) × (s.rect_y ≡ y) × (s.left ≡ l) × (s.image_x ≡ x) × (s.image_y ≡ y)

abbrev KeyIs : Pc → ℕ → Shown → Type 0
KeyIs lower_pressed k s = Unit
KeyIs read_key k s = Unit
KeyIs pc k s = s.key ≡ k

abbrev is_printing : Pc → Bool
is_printing draw_ticks = true
is_printing pc = false

-- The number shown is at least the one kept, but while it is about to be printed.
abbrev TicksAre : Pc → ℕ → ℕ → Shown → Type 0
TicksAre pc ticks last s = (last ≤ (if is_printing pc then ticks else s.ticks)) × (s.ticks ≤ ticks)

-- What holds between any two accesses.
record IsCurrent (v : View) : Type 0 where
  pointer :
      v.devices.mouse.moved ≡ false
      → PointerIs v.pc v.devices.mouse.mouse_x v.devices.mouse.mouse_y v.devices.mouse.left_pressed
          v.shown
  key : v.devices.keyboard.pressed ≡ false → KeyIs v.pc v.devices.keyboard.last_key v.shown
  ticks : TicksAre v.pc v.devices.timer_ticks v.last_ticks v.shown

abbrev SamePointer : Mouse → Mouse → Type 0
SamePointer m n =
    (n.moved ≡ m.moved)
    × (n.mouse_x ≡ m.mouse_x)
    × (n.mouse_y ≡ m.mouse_y)
    × (n.left_pressed ≡ m.left_pressed)

-- A byte of the mouse either completes a packet and raises `moved`, or changes nothing shown.
handle-moved :
    (byte : ℕ) (m : Mouse)
    → ((Mouse.handle byte m).moved ≡ true) ⊎ SamePointer m (Mouse.handle byte m)
unfolding Mouse.handle finish_packet
handle-moved byte m = ground arith

handle-pressed :
    (byte : ℕ) (k : Keyboard)
    → ((Keyboard.handle byte k).pressed ≡ true)
      ⊎ (((Keyboard.handle byte k).pressed ≡ k.pressed)
          × ((Keyboard.handle byte k).last_key ≡ k.last_key))
unfolding Keyboard.handle
handle-pressed byte k = ground arith

true-ne_false : ¬ (true ≡ false)
true-ne_false e = cc

-- One access of the process, wherever it stands.
next_access-IsCurrent :
    (pc : Pc) (d : Devices) (last : ℕ) (s : Shown)
    → IsCurrent (record { devices = d; last_ticks = last; shown = s; pc = pc })
    → IsCurrent (next_access pc (record { devices = d; last_ticks = last; shown = s; pc = pc }))
unfolding next_access
next_access-IsCurrent test_moved d last s c = elim (Bool-cases d.mouse.moved) [
  | inl up ↦ rw up (record { pointer = λ e. tt; key = c.key; ticks = c.ticks })
  | inr down ↦ rw down (record { pointer = λ e. c.pointer down; key = c.key; ticks = c.ticks })
]
next_access-IsCurrent lower_moved d last s c = record {
  pointer = λ e. tt;
  key = c.key;
  ticks = c.ticks;
}
next_access-IsCurrent read_left d last s c = record {
  pointer = λ e. refl;
  key = c.key;
  ticks = c.ticks;
}
next_access-IsCurrent (read_rect_x l) d last s c = record {
  pointer = λ e. (c.pointer e, refl);
  key = c.key;
  ticks = c.ticks;
}
next_access-IsCurrent (read_rect_y l x) d last s c = record {
  pointer = λ e. ((c.pointer e).1, refl, (c.pointer e).0);
  key = c.key;
  ticks = c.ticks;
}
next_access-IsCurrent read_image_x d last s c = record {
  pointer = λ e. ((c.pointer e).0, (c.pointer e).1, (c.pointer e).2, refl);
  key = c.key;
  ticks = c.ticks;
}
next_access-IsCurrent (read_image_y x) d last s c = record {
  pointer = λ e. ((c.pointer e).0, (c.pointer e).1, (c.pointer e).2, (c.pointer e).3, refl);
  key = c.key;
  ticks = c.ticks;
}
next_access-IsCurrent test_ticks d last s c = elim (Bool-cases (d.timer_ticks == last)) [
  | inl same ↦ rw same (record { pointer = c.pointer; key = c.key; ticks = c.ticks })
  | inr new ↦ rw new (record { pointer = c.pointer; key = c.key; ticks = c.ticks })
]
next_access-IsCurrent keep_ticks d last s c = record {
  pointer = c.pointer;
  key = c.key;
  ticks = omega (arith, c.ticks);
}
next_access-IsCurrent draw_ticks d last s c = record {
  pointer = c.pointer;
  key = c.key;
  ticks = omega (arith, c.ticks);
}
next_access-IsCurrent test_pressed d last s c = elim (Bool-cases d.keyboard.pressed) [
  | inl down ↦ rw down (record { pointer = c.pointer; key = λ e. tt; ticks = c.ticks })
  | inr up ↦ rw up (record { pointer = c.pointer; key = λ e. c.key up; ticks = c.ticks })
]
next_access-IsCurrent lower_pressed d last s c = record {
  pointer = c.pointer;
  key = λ e. tt;
  ticks = c.ticks;
}
next_access-IsCurrent read_key d last s c = record {
  pointer = c.pointer;
  key = λ e. refl;
  ticks = c.ticks;
}

tick-TicksAre :
    (pc : Pc) (ticks last : ℕ) (s : Shown)
    → TicksAre pc ticks last s
    → TicksAre pc (ticks + 1) last s
tick-TicksAre pc ticks last s h = elim (Bool-cases (is_printing pc)) [
  | inl p ↦ ground (arith, p, h)
  | inr p ↦ ground (arith, p, h)
]

key-KeyIs :
    (byte : ℕ) (pc : Pc) (k : Keyboard) (s : Shown)
    → (k.pressed ≡ false → KeyIs pc k.last_key s)
    → (Keyboard.handle byte k).pressed ≡ false
    → KeyIs pc (Keyboard.handle byte k).last_key s
key-KeyIs byte pc k s h e = elim (handle-pressed byte k) [
  | inl up ↦ absurd (true-ne_false (sym up ∙ e))
  | inr same ↦ rw same.1 (h (sym same.0 ∙ e))
]

mouse-PointerIs :
    (byte : ℕ) (pc : Pc) (m : Mouse) (s : Shown)
    → (m.moved ≡ false → PointerIs pc m.mouse_x m.mouse_y m.left_pressed s)
    → (Mouse.handle byte m).moved ≡ false
    → PointerIs pc
        (Mouse.handle byte m).mouse_x
        (Mouse.handle byte m).mouse_y
        (Mouse.handle byte m).left_pressed
        s
mouse-PointerIs byte pc m s h e = elim (handle-moved byte m) [
  | inl up ↦ absurd (true-ne_false (sym up ∙ e))
  | inr same ↦ rw (same.1, same.2, same.3) (h (sym same.0 ∙ e))
]

-- The flags are up when an interrupt brings news, and nothing shown changes otherwise.
Step-IsCurrent : {v w : View} → Step v w → IsCurrent v → IsCurrent w
Step-IsCurrent {v} run c = next_access-IsCurrent v.pc v.devices v.last_ticks v.shown c
Step-IsCurrent {v} (key byte) c = record {
  pointer = c.pointer;
  key = key-KeyIs byte v.pc v.devices.keyboard v.shown c.key;
  ticks = c.ticks;
}
Step-IsCurrent {v} (mouse byte) c = record {
  pointer = mouse-PointerIs byte v.pc v.devices.mouse v.shown c.pointer;
  key = c.key;
  ticks = c.ticks;
}
Step-IsCurrent {v} (tick small) c = record {
  pointer = c.pointer;
  key = c.key;
  ticks = tick-TicksAre v.pc v.devices.timer_ticks v.last_ticks v.shown c.ticks;
}

Reach-IsCurrent : {v w : View} → IsCurrent v → Reach v w → IsCurrent w
Reach-IsCurrent c here = c
Reach-IsCurrent c (next r st) = Step-IsCurrent st (Reach-IsCurrent c r)

-- Nothing of the news is missing on the screen, at the head of a round.
pub record IsShown (v : View) : Type 0 where
  pub x : (v.shown.rect_x ≡ v.devices.mouse.mouse_x) × (v.shown.image_x ≡ v.devices.mouse.mouse_x)
  pub y : (v.shown.rect_y ≡ v.devices.mouse.mouse_y) × (v.shown.image_y ≡ v.devices.mouse.mouse_y)
  pub left : v.shown.left ≡ v.devices.mouse.left_pressed
  pub ticks : v.shown.ticks ≡ v.devices.timer_ticks
  pub key : v.shown.key ≡ v.devices.keyboard.last_key

shown-IsCurrent :
    (v : View) → v.pc ≡ test_moved → v.last_ticks ≡ v.devices.timer_ticks → IsShown v → IsCurrent v
shown-IsCurrent v head same s = record {
  pointer = λ e. rw head (s.x.0, s.y.0, s.left, s.x.1, s.y.1);
  key = λ e. rw head s.key;
  ticks = rw head (omega (arith, same, s.ticks));
}

current-IsShown :
    (v : View)
    → v.pc ≡ test_moved
    → v.devices.mouse.moved ≡ false
    → v.devices.keyboard.pressed ≡ false
    → v.last_ticks ≡ v.devices.timer_ticks
    → IsCurrent v
    → IsShown v
current-IsShown v head still up same c =
    let p = rw head at (c.pointer still) in
    let t = rw head at c.ticks in
    let k = rw head at (c.key up) in
    record { x = (p.0, p.3); y = (p.1, p.4); left = p.2; ticks = omega (arith, t, same); key = k }

-- From a screen that shows the state of the devices: however scancodes, bytes of the mouse and
-- ticks of a counter that does not wrap come in between the accesses of the render functions, when
-- a round begins with no news flagged, the pointer, the button, the ticks and the key that were
-- drawn last are those of the devices.
pub Reach-IsShown :
    (v w : View)
    → v.pc ≡ test_moved
    → v.last_ticks ≡ v.devices.timer_ticks
    → IsShown v
    → Reach v w
    → w.pc ≡ test_moved
    → w.devices.mouse.moved ≡ false
    → w.devices.keyboard.pressed ≡ false
    → w.last_ticks ≡ w.devices.timer_ticks
    → IsShown w
Reach-IsShown v w head same s r head' still up same' =
    current-IsShown w head' still up same' (Reach-IsCurrent (shown-IsCurrent v head same s) r)
