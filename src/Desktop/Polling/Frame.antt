-- ===== src/Desktop/Polling/Frame.antt =====
-- kernel/main.cpp: the accesses of a round without an interrupt, against the round as one step.
use issanium.Prelude.{
  ℕ, ◌≤◌, ◌≡◌, refl, ap, sym, ◌∙◌, Bool-cases, ==_iff, inl, inr, Option, none, some, false, ◌==◌,
}
use issanium.Libc.{Mem, itoa}
use issanium.Framebuffer.{Screen, clear, get_width, get_height}
use issanium.Framebuffer.Tga.{draw_tga_scaled}
use issanium.Prelude.Word.{u32}
use issanium.Desktop.{
  Desktop, Layout, with_some, render_mouse, print_ticks, render_ticks, render_keypress, draw_bar,
  draw_frame,
}
use issanium.Desktop.Polling.{Shown, View, test_moved, set_moved, set_pressed}
use issanium.Desktop.Polling.Rounds.{draws, round-Draws, round-devices, round-kept}

-- The desktop at the head of a round, with what was drawn last.
abbrev pub view : Shown → Desktop → View
view shown s = record {
  devices = s.devices;
  last_ticks = s.last_ticks;
  shown = shown;
  pc = test_moved;
}

with_some-inv :
    {A B : Type 0} (o : Option A) (f : A → Option B) (b : B)
    → with_some o f ≡ some b
    → (a : A) × (o ≡ some a) × (f a ≡ some b)
with_some-inv none f b e = absurd (cc)
with_some-inv (some a) f b e = (a, refl, e)

some_inj : {A : Type 0} (a b : A) → some a ≡ some b → a ≡ b
some_inj a b e = cc

module _ (m : Mem) (l : Layout) (fb : Screen) where
  render_mouse-devices :
      (s : Desktop)
      → ((render_mouse m l fb s).devices ≡ set_moved false s.devices)
        × ((render_mouse m l fb s).last_ticks ≡ s.last_ticks)
  unfolding render_mouse
  render_mouse-devices s = elim (Bool-cases s.devices.mouse.moved) [
    | inl up ↦ (simp up, simp up)
    | inr down ↦
        let old : (render_mouse m l fb s).devices ≡ s.devices = simp down in
        (old ∙ ap (λ b. set_moved b s.devices) down, simp down)
  ]

  render_keypress-devices :
      (s : Desktop)
      → ((render_keypress m l fb s).devices ≡ set_pressed false s.devices)
        × ((render_keypress m l fb s).last_ticks ≡ s.last_ticks)
  unfolding render_keypress
  render_keypress-devices s = elim (Bool-cases s.devices.keyboard.pressed) [
    | inl down ↦ (simp down, simp down)
    | inr up ↦
        let old : (render_keypress m l fb s).devices ≡ s.devices = simp up in
        (old ∙ ap (λ b. set_pressed b s.devices) up, simp up)
  ]

  -- If it does not fault, the count is kept.
  render_ticks-devices :
      (s t : Desktop)
      → render_ticks m l fb s ≡ some t
      → (t.devices ≡ s.devices) × (t.last_ticks ≡ s.devices.timer_ticks)
  unfolding render_ticks
  render_ticks-devices s t e = elim (Bool-cases (s.devices.timer_ticks == s.last_ticks)) [
    | inl same ↦
        let kept : some s ≡ some t = rw same at e in
        let eq : t ≡ s = sym (some_inj s t kept) in
        (
          ap (λ u. u.devices) eq,
          ap (λ u. u.last_ticks) eq ∙ sym ((==_iff s.devices.timer_ticks s.last_ticks).0 same),
        )
    | inr new ↦
        let drawn : with_some (itoa s.devices.timer_ticks l.buf m) (λ out.
          some
            (record s { last_ticks = s.devices.timer_ticks; back = print_ticks m l fb out s.back }))
            ≡ some t =
          rw new at e in
        let (out, found, last) =
          with_some-inv (itoa s.devices.timer_ticks l.buf m)
            (λ out. some (record s {
              last_ticks = s.devices.timer_ticks;
              back = print_ticks m l fb out s.back;
            }))
            t drawn in
        let eq =
          some_inj
            (record s { last_ticks = s.devices.timer_ticks; back = print_ticks m l fb out s.back })
            t last in
        (sym (ap (λ u. u.devices) eq), sym (ap (λ u. u.last_ticks) eq))
  ]

  draw_frame-devices :
      (s t : Desktop)
      → draw_frame m l fb s ≡ some t
      → (t.devices ≡ set_pressed false (set_moved false s.devices))
        × (t.last_ticks ≡ s.devices.timer_ticks)
  unfolding draw_frame
  draw_frame-devices s t e =
      let (b, drawn, e') =
        with_some-inv
          (draw_tga_scaled fb 0 0 (u32 (get_width (some fb))) (u32 (get_height (some fb))) m l.bg
            (clear (some fb) 0x000000 s.back))
          (λ b.
            with_some
              (render_ticks m l fb (render_mouse m l fb (record s { back = draw_bar m l fb b })))
              (λ u. some (render_keypress m l fb u)))
          t e in
      let u = render_mouse m l fb (record s { back = draw_bar m l fb b }) in
      let (v, ticked, last) =
        with_some-inv (render_ticks m l fb u) (λ v. some (render_keypress m l fb v)) t e' in
      let eq : t ≡ render_keypress m l fb v = sym (some_inj (render_keypress m l fb v) t last) in
      let moused = render_mouse-devices (record s { back = draw_bar m l fb b }) in
      let counted = render_ticks-devices u v ticked in
      let keyed = render_keypress-devices v in
      (
        ap (λ w. w.devices) eq ∙ keyed.0 ∙ ap (set_pressed false) (counted.0 ∙ moused.0),
        ap (λ w. w.last_ticks) eq ∙ keyed.1 ∙ counted.1 ∙ ap (λ d. d.timer_ticks) moused.0,
      )

  -- When a round in one step, as Desktop has it, returns: some accesses of the render functions, at
  -- most thirteen, with no interrupt between them, lead from the same devices and the same count of
  -- ticks to the head of the next round with the devices and the count that it leaves.
  pub draws-draw_frame :
      (shown : Shown) (s t : Desktop)
      → draw_frame m l fb s ≡ some t
      → (n : ℕ) × (n ≤ 13)
        × ((draws n (view shown s)).pc ≡ test_moved)
        × ((draws n (view shown s)).devices ≡ t.devices)
        × ((draws n (view shown s)).last_ticks ≡ t.last_ticks)
  draws-draw_frame shown s t e =
      let v = view shown s in
      let (n, small, at) = round-Draws v in
      let (devices, kept) = draw_frame-devices s t e in
      (
        n,
        small,
        ap (λ w. w.pc) at,
        ap (λ w. w.devices) at ∙ round-devices v ∙ sym devices,
        ap (λ w. w.last_ticks) at ∙ round-kept v ∙ sym kept,
      )
