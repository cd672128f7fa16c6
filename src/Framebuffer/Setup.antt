-- ===== src/Framebuffer/Setup.antt =====
-- `init` of video/framebuffer.cpp: the back buffer holds every pixel of the screen.
use native.Mathlib.Nat.{mod-add-div', suc-mul}
use issanium.Prelude.{
  ℕ, zero, suc, ◌+◌, ◌*◌, ◌/◌, ◌%◌, ◌^◌, ◌≤◌, ◌<◌, ◌≡◌, refl, arith, true, Option, some, List, ◌∷◌,
}
use issanium.Prelude.Word.{u64}
use issanium.Framebuffer.{Screen, init_framebuffer}
use issanium.Framebuffer.Clip.{IsScreen, index-lt}
use issanium.Framebuffer.Image.{is_visible}

cell_below :
    (fb : Screen) (k : ℕ) → IsScreen fb → is_visible fb k ≡ true → k < fb.height * (fb.pitch / 4)
cell_below fb k f seen =
    let h : k / (fb.pitch / 4) < fb.height = ground (arith, seen) in
    let w : k % (fb.pitch / 4) < fb.pitch / 4 = ground (arith, seen, f.wide) in
    let whole = mod-add-div' k (fb.pitch / 4) in
    let inside = index-lt fb.height (fb.pitch / 4) (k % (fb.pitch / 4)) (k / (fb.pitch / 4)) h w in
    omega (arith, inside, whole)

scale_rows_le : (h q p : ℕ) → 4 * q ≤ p → 4 * (h * q) ≤ h * p
scale_rows_le zero q p le = omega arith
scale_rows_le (suc h) q p le = omega (arith, suc-mul h q, suc-mul h p, scale_rows_le h q p le, le)

rows_of_bytes : (h pitch : ℕ) → 4 * (h * (pitch / 4)) ≤ h * pitch
rows_of_bytes h pitch = scale_rows_le h (pitch / 4) pitch (omega arith)

-- With a framebuffer in the loader's answer and a block of the heap, `init` takes the first
-- framebuffer, and the four bytes of each visible cell lie in the block of its size that the heap
-- gave for the back buffer.
pub init_framebuffer-is_visible :
    {H : Type 0} (kmalloc : ℕ → H → Option (ℕ × H)) (fb : Screen) (others : List Screen) (h g : H)
    (a : ℕ)
    → IsScreen fb
    → fb.height * fb.pitch < 2 ^ 64
    → kmalloc (fb.height * fb.pitch) h ≡ some (a, g)
    → (init_framebuffer kmalloc (some (fb ∷ others)) h ≡ some (some (fb, a), g))
      × ((k : ℕ) → is_visible fb k ≡ true → a + 4 * k + 4 ≤ a + fb.height * fb.pitch)
unfolding init_framebuffer
init_framebuffer-is_visible kmalloc fb others h g a f small given =
    let size : u64 (fb.height * fb.pitch) ≡ fb.height * fb.pitch = omega arith in
    (
      rw (size, given) refl,
      λ k seen. omega (arith, cell_below fb k f seen, rows_of_bytes fb.height fb.pitch),
    )
