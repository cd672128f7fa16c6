-- ===== src/Desktop/Quiet.antt =====
-- kernel/main.cpp: what a round of the drawing loop draws when the drivers have no news.
use issanium.Prelude.{
  ℕ, ◌≡◌, refl, ap, sym, ◌∙◌, arith, if◌then◌else◌, inl, inr, Bool-cases, false, Option, none, some,
  ==_iff,
}
use issanium.Libc.{Mem}
use issanium.Framebuffer.{Screen, Buffer, get_width, get_height, clear}
use issanium.Framebuffer.Tga.{draw_tga_scaled}
use issanium.Prelude.Word.{u32}
use issanium.Framebuffer.Clip.{IsScreen, draw_rect-in_rect, clear-draw_rect}
use issanium.Framebuffer.Image.{is_visible}
use issanium.Desktop.{
  Desktop, Layout, with_some, render_mouse, render_ticks, render_keypress, draw_bar, draw_frame,
}

-- The drivers have left nothing that the render functions would draw.
pub record HasNoNews (s : Desktop) : Type 0 where
  pub still : s.devices.mouse.moved ≡ false
  pub same : s.devices.timer_ticks ≡ s.last_ticks
  pub up : s.devices.keyboard.pressed ≡ false

-- The frame of a desktop, if there is no fault.
abbrev pub back_of : Option Desktop → Option Buffer
back_of none = none
back_of (some s) = some s.back

with_some-ext :
    {A B : Type 0} (o : Option A) (f g : A → Option B)
    → ((a : A) → f a ≡ g a)
    → with_some o f ≡ with_some o g
with_some-ext none f g h = refl
with_some-ext (some a) f g h = h a

back_of-with_some :
    (s : Desktop) (f : Buffer → Buffer) (o : Option Buffer)
    → back_of (with_some o (λ b. some (record s { back = f b }))) ≡ with_some o (λ b. some (f b))
back_of-with_some s f none = refl
back_of-with_some s f (some b) = refl

module _ (m : Mem) (l : Layout) (fb : Screen) (screen : IsScreen fb) where
  mouse-still : (s : Desktop) → s.devices.mouse.moved ≡ false → render_mouse m l fb s ≡ s
  unfolding render_mouse
  mouse-still s e = simp e

  ticks-same : (s : Desktop) → s.devices.timer_ticks ≡ s.last_ticks → render_ticks m l fb s ≡ some s
  unfolding render_ticks
  ticks-same s e = simp ((==_iff s.devices.timer_ticks s.last_ticks).1 e)

  keypress-up : (s : Desktop) → s.devices.keyboard.pressed ≡ false → render_keypress m l fb s ≡ s
  unfolding render_keypress
  keypress-up s e = simp e

  keypress-no_news :
      (s : Desktop)
      → HasNoNews s
      → with_some
          (render_ticks m l fb (render_mouse m l fb s))
          (λ t. some (render_keypress m l fb t))
        ≡ some s
  keypress-no_news s q =
      ap (λ t. with_some (render_ticks m l fb t) (λ u. some (render_keypress m l fb u)))
        (mouse-still s q.still)
      ∙ ap (λ o. with_some o (λ u. some (render_keypress m l fb u))) (ticks-same s q.same)
      ∙ ap some (keypress-up s q.up)

  -- The background of a round, behind everything else.
  abbrev background : Buffer → Option Buffer
  background b =
      draw_tga_scaled fb 0 0 (u32 (get_width (some fb))) (u32 (get_height (some fb))) m l.bg
        (clear (some fb) 0x000000 b)

  back_of-no_news :
      (s : Desktop)
      → HasNoNews s
      → back_of (draw_frame m l fb s)
        ≡ with_some (background s.back) (λ b. some (draw_bar m l fb b))
  unfolding draw_frame
  back_of-no_news s q =
      ap back_of (
        with_some-ext (background s.back)
          (λ b.
            with_some
              (render_ticks m l fb (render_mouse m l fb (record s { back = draw_bar m l fb b })))
              (λ t. some (render_keypress m l fb t)))
          (λ b. some (record s { back = draw_bar m l fb b }))
          (λ b.
            keypress-no_news (record s { back = draw_bar m l fb b })
              (record { still = q.still; same = q.same; up = q.up })))
      ∙ back_of-with_some s (draw_bar m l fb) (background s.back)

  -- `clear` forgets all that was visible.
  clear-same :
      (b c : Buffer)
      → ((k : ℕ) → is_visible fb k ≡ false → b k ≡ c k)
      → clear (some fb) 0x000000 b ≡ clear (some fb) 0x000000 c
  clear-same b c same = λ i k. cleared k i
    where
      shown :
          (d : Buffer) (k : ℕ) → clear (some fb) 0x000000 d k ≡ (if is_visible fb k then 0 else d k)
      shown d k =
          let e = clear-draw_rect fb screen 0x000000 d k in
          let r =
            draw_rect-in_rect fb screen 0x000000 0 0 fb.width fb.height d k
              (omega (arith, screen.width_lt)) (omega (arith, screen.height_lt)) in
          ground (arith, e, r)

      cleared : (k : ℕ) → clear (some fb) 0x000000 b k ≡ clear (some fb) 0x000000 c k
      cleared k = elim (Bool-cases (is_visible fb k)) [
        | inl seen ↦ ground (arith, shown b k, shown c k, seen)
        | inr hidden ↦ ground (arith, shown b k, shown c k, hidden, same k hidden)
      ]

  -- On a screen whose rows do not overlap, when the drivers have left no news, what a round draws
  -- depends on nothing but the background, the title and the memory that no pixel shows: two
  -- desktops, whatever is visible in their back buffers from the rounds before, wherever their
  -- pointers are and whatever their buttons, ticks and last keys are, have the same back buffer
  -- behind the round. So what an earlier round drew of these is gone.
  pub draw_frame-hides :
      (s t : Desktop)
      → HasNoNews s
      → HasNoNews t
      → ((k : ℕ) → is_visible fb k ≡ false → s.back k ≡ t.back k)
      → back_of (draw_frame m l fb s) ≡ back_of (draw_frame m l fb t)
  draw_frame-hides s t q r same =
      back_of-no_news s q
      ∙ ap
          (λ c.
            with_some
              (draw_tga_scaled fb 0 0 (u32 (get_width (some fb))) (u32 (get_height (some fb))) m
                l.bg c)
              (λ b. some (draw_bar m l fb b)))
          (clear-same s.back t.back same)
      ∙ sym (back_of-no_news t r)
