-- ===== src/Desktop/Visible.antt =====
-- kernel/main.cpp: what a round of the drawing loop may touch.
use issanium.Prelude.{ℕ, ◌+◌, ◌*◌, ◌^◌, ◌≤◌, ◌<◌, ◌≡◌, false}
use issanium.Libc.{Mem}
use issanium.Framebuffer.{Screen, Buffer}
use issanium.Framebuffer.Clip.{IsScreen}
use issanium.Framebuffer.Image.{is_visible}
use issanium.Writer.{font_at}
use issanium.Mouse.{Mouse}
use issanium.Desktop.{Desktop, Layout}

-- The texts fit: their characters from column 300 on, and a line for each below row 140.
pub record HasRoom (m : Mem) (start : ℕ) (fb : Screen) : Type 0 where
  pub screen : IsScreen fb
  pub narrow : fb.width < 2 ^ 30
  pub low : fb.height < 2 ^ 30
  pub columns : 300 + (font_at m start).width ≤ fb.width
  pub rows : 140 + 18 * (font_at m start).height ≤ fb.height

-- No cell but those of the screen's pixels differs.
abbrev pub Hidden : Screen → Buffer → Buffer → Type 0
Hidden fb b c = (k : ℕ) → is_visible fb k ≡ false → c k ≡ b k

module _ (m : Mem) (l : Layout) (fb : Screen) (room : HasRoom m l.font fb) where
  -- What a call of `render_ticks` leaves.
  record Ticked (s t : Desktop) : Type 0 where
    hidden : Hidden fb s.back t.back
    devices : t.devices ≡ s.devices
    shown : t.last_ticks ≡ s.devices.timer_ticks
