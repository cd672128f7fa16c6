-- ===== src/Desktop/Polling/Rounds.antt =====
-- kernel/main.cpp: the accesses of a round without an interrupt are the render functions in one step.
use mathlib.Core.Path.{subst}
use issanium.Prelude.{
  ℕ, zero, suc, ◌+◌, ◌≤◌, ◌≡◌, refl, ap, sym, ◌∙◌, arith, Bool-cases, inl, inr, ◌==◌, false,
  if◌then◌else◌,
}
use issanium.Desktop.Polling.{
  test_moved, test_ticks, test_pressed, View, goto, set_moved, set_pressed, next_access, draw,
  Reach, next, run,
}
use issanium.Desktop.Polling.Current.{IsShown, Reach-IsShown}

abbrev pub draws : ℕ → View → View
draws zero v = v
draws (suc n) v = draws n (draw v)

-- render_mouse, render_ticks and render_keypress on what is shown.
abbrev show_mouse : View → View
show_mouse v =
    let mouse = v.devices.mouse in
    if mouse.moved
    then record v {
      devices = set_moved false v.devices;
      shown = record v.shown {
        rect_x = mouse.mouse_x;
        rect_y = mouse.mouse_y;
        left = mouse.left_pressed;
        image_x = mouse.mouse_x;
        image_y = mouse.mouse_y;
      };
    }
    else v

abbrev show_ticks : View → View
show_ticks v =
    let ticks = v.devices.timer_ticks in
    if ticks == v.last_ticks
    then v
    else record v { last_ticks = ticks; shown = record v.shown { ticks = ticks } }

abbrev show_key : View → View
show_key v =
    let keyboard = v.devices.keyboard in
    if keyboard.pressed
    then record v {
      devices = set_pressed false v.devices;
      shown = record v.shown { key = keyboard.last_key };
    }
    else v

abbrev pub round : View → View
round v = show_key (show_ticks (show_mouse v))

-- Some accesses, of which there are at most `most`, lead from `v` to `w`.
abbrev Draws : ℕ → View → View → Type 0
Draws most v w = (n : ℕ) × (n ≤ most) × (draws n v ≡ w)

draws-add : (n k : ℕ) (v : View) → draws (n + k) v ≡ draws k (draws n v)
draws-add zero k v = let e : zero + k ≡ k = omega arith in rw e refl
draws-add (suc n) k v =
    let e : suc n + k ≡ suc (n + k) = omega arith in rw e (draws-add n k (draw v))

Draws-then : {a b : ℕ} {u v w : View} → Draws a u v → Draws b v w → Draws (a + b) u w
Draws-then {u} (n, small, e) (k, little, f) =
    (n + k, omega (arith, small, little), draws-add n k u ∙ ap (draws k) e ∙ f)

mouse-Draws : (v : View) → Draws 7 (goto test_moved v) (goto test_ticks (show_mouse v))
unfolding next_access
mouse-Draws v = elim (Bool-cases v.devices.mouse.moved) [
  | inl up ↦ (7, omega arith, simp up)
  | inr down ↦ (1, omega arith, simp down)
]

ticks-Draws : (v : View) → Draws 3 (goto test_ticks v) (goto test_pressed (show_ticks v))
unfolding next_access
ticks-Draws v = elim (Bool-cases (v.devices.timer_ticks == v.last_ticks)) [
  | inl same ↦ (1, omega arith, simp same)
  | inr new ↦ (3, omega arith, simp new)
]

key-Draws : (v : View) → Draws 3 (goto test_pressed v) (goto test_moved (show_key v))
unfolding next_access
key-Draws v = elim (Bool-cases v.devices.keyboard.pressed) [
  | inl down ↦ (3, omega arith, simp down)
  | inr up ↦ (1, omega arith, simp up)
]

pub round-Draws : (v : View) → Draws 13 (goto test_moved v) (goto test_moved (round v))
round-Draws v =
    Draws-then (mouse-Draws v)
      (Draws-then (ticks-Draws (show_mouse v)) (key-Draws (show_ticks (show_mouse v))))

-- No news is flagged, at the head of a round.
pub record IsQuiet (v : View) : Type 0 where
  pub head : v.pc ≡ test_moved
  pub still : v.devices.mouse.moved ≡ false
  pub up : v.devices.keyboard.pressed ≡ false
  pub same : v.last_ticks ≡ v.devices.timer_ticks

mouse-devices : (v : View) → (show_mouse v).devices ≡ set_moved false v.devices
mouse-devices v = elim (Bool-cases v.devices.mouse.moved) [
  | inl up ↦ simp up
  | inr down ↦
      let old : (show_mouse v).devices ≡ v.devices = simp down in
      old ∙ ap (λ b. set_moved b v.devices) down
]

ticks-devices : (v : View) → (show_ticks v).devices ≡ v.devices
ticks-devices v = elim (Bool-cases (v.devices.timer_ticks == v.last_ticks)) [
  | inl same ↦ simp same
  | inr new ↦ simp new
]

ticks-kept : (v : View) → (show_ticks v).last_ticks ≡ v.devices.timer_ticks
ticks-kept v = elim (Bool-cases (v.devices.timer_ticks == v.last_ticks)) [
  | inl same ↦ ground (arith, same)
  | inr new ↦ simp new
]

key-devices : (v : View) → (show_key v).devices ≡ set_pressed false v.devices
key-devices v = elim (Bool-cases v.devices.keyboard.pressed) [
  | inl down ↦ simp down
  | inr up ↦
      let old : (show_key v).devices ≡ v.devices = simp up in
      old ∙ ap (λ b. set_pressed b v.devices) up
]

key-kept : (v : View) → (show_key v).last_ticks ≡ v.last_ticks
key-kept v = elim (Bool-cases v.devices.keyboard.pressed) [
  | inl down ↦ simp down
  | inr up ↦ simp up
]

-- A round lowers both flags and changes nothing else of the devices.
pub round-devices : (v : View) → (round v).devices ≡ set_pressed false (set_moved false v.devices)
round-devices v =
    key-devices (show_ticks (show_mouse v))
    ∙ ap (set_pressed false) (ticks-devices (show_mouse v) ∙ mouse-devices v)

pub round-kept : (v : View) → (round v).last_ticks ≡ v.devices.timer_ticks
round-kept v =
    key-kept (show_ticks (show_mouse v))
    ∙ ticks-kept (show_mouse v)
    ∙ ap (λ d. d.timer_ticks) (mouse-devices v)

round-IsQuiet : (v : View) → IsQuiet (goto test_moved (round v))
round-IsQuiet v = record {
  head = refl;
  still = ap (λ d. d.mouse.moved) (round-devices v);
  up = ap (λ d. d.keyboard.pressed) (round-devices v);
  same = round-kept v ∙ sym (ap (λ d. d.timer_ticks) (round-devices v));
}

draws-Reach : (n : ℕ) {u v : View} → Reach u v → Reach u (draws n v)
draws-Reach zero r = r
draws-Reach (suc n) r = draws-Reach n (next r run)

-- What is shown is what the devices of `u` hold.
abbrev pub Shows : View → View → Type 0
Shows u w = IsShown (record u { shown = w.shown })

same-Shows :
    (u w : View) → w.devices ≡ set_pressed false (set_moved false u.devices) → IsShown w → Shows u w
same-Shows u w e s = record {
  x = (s.x.0 ∙ ap (λ d. d.mouse.mouse_x) e, s.x.1 ∙ ap (λ d. d.mouse.mouse_x) e);
  y = (s.y.0 ∙ ap (λ d. d.mouse.mouse_y) e, s.y.1 ∙ ap (λ d. d.mouse.mouse_y) e);
  left = s.left ∙ ap (λ d. d.mouse.left_pressed) e;
  ticks = s.ticks ∙ ap (λ d. d.timer_ticks) e;
  key = s.key ∙ ap (λ d. d.keyboard.last_key) e;
}

-- From a screen that shows the state of the devices: however scancodes, bytes of the mouse and
-- ticks of a counter that does not wrap have come in between the accesses of the render functions,
-- once a round begins and no interrupt falls between its accesses, of which there are at most
-- thirteen, it ends with no news flagged, and the pointer, the button, the ticks and the key that
-- were drawn last are those the devices had when it began.
pub Reach-Shows :
    (v w : View)
    → v.pc ≡ test_moved
    → v.last_ticks ≡ v.devices.timer_ticks
    → IsShown v
    → Reach v w
    → w.pc ≡ test_moved
    → (n : ℕ) × (n ≤ 13) × IsQuiet (draws n w) × Shows w (draws n w)
Reach-Shows v w head same s r begin =
    let (n, small, e) = round-Draws w in
    let at : goto test_moved w ≡ w = ap (λ p. goto p w) (sym begin) in
    let end : goto test_moved (round w) ≡ draws n w = sym e ∙ ap (draws n) at in
    let quiet : IsQuiet (draws n w) = subst IsQuiet end (round-IsQuiet w) in
    let shown : IsShown (draws n w) =
      Reach-IsShown v (draws n w) head same s (draws-Reach n r) quiet.head quiet.still quiet.up
        quiet.same in
    let kept : (draws n w).devices ≡ set_pressed false (set_moved false w.devices) =
      ap (λ u. u.devices) (sym end) ∙ round-devices w in
    (n, small, quiet, same-Shows w (draws n w) kept shown)
