-- ===== src/Desktop/Report.antt =====
-- kernel/main.cpp: what render_mouse sends to the serial port.
use issanium.Prelude.{
  ℕ, zero, suc, ◌+◌, ◌-◌, ◌/◌, ◌%◌, ◌^◌, ◌≤◌, ◌<◌, ◌≡◌, refl, ap, ◌∙◌, arith, ◌⊎◌, true, not,
  if◌then◌else◌, Option, some, List, [], ◌∷◌, ◌++◌,
}
use issanium.Prelude.Int.{pos}
use issanium.Libc.{Mem, itoa}
use issanium.Libc.Decimal.{IsDecimal, Prints, itoa-Prints}
use issanium.Serial.{text_of}
use issanium.Mouse.{Mouse}
use issanium.Desktop.{to_u32, with_some}

abbrev pub called_text : List ℕ
called_text =
    b'r' ∷ b'e' ∷ b'n' ∷ b'd' ∷ b'e' ∷ b'r' ∷ b'_' ∷ b'm' ∷ b'o' ∷ b'u' ∷ b's' ∷ b'e' ∷ b' ' ∷ b'c'
    ∷ b'a' ∷ b'l' ∷ b'l' ∷ b'e' ∷ b'd' ∷ 10 ∷ []

abbrev pub x_label : List ℕ
x_label = b'M' ∷ b'o' ∷ b'u' ∷ b's' ∷ b'e' ∷ b' ' ∷ b'x' ∷ b'=' ∷ []

abbrev pub y_label : List ℕ
y_label = b' ' ∷ b'y' ∷ b'=' ∷ []

-- The texts behind the first one, with the two local buffers of sixteen bytes at `xbuf` and `ybuf`.
unfoldable pub position_report : Mem → ℕ → ℕ → Mouse → Option (List ℕ)
position_report m xbuf ybuf mouse = with_some (itoa (to_u32 mouse.mouse_x) xbuf m) (λ first.
    with_some (itoa (to_u32 mouse.mouse_y) ybuf first) (λ both.
      some (x_label ++ text_of 16 both xbuf ++ (y_label ++ text_of 16 both ybuf ++ (10 ∷ [])))))

-- All that a call of render_mouse prints; `none` is a fault.
unfoldable pub mouse_report : Mem → ℕ → ℕ → Mouse → Option (List ℕ)
mouse_report m xbuf ybuf mouse =
    if not mouse.moved
    then some called_text
    else with_some (position_report m xbuf ybuf mouse) (λ text. some (called_text ++ text))

-- The `k` lowest decimal digits of `n`, the highest first.
abbrev digits : ℕ → ℕ → List ℕ
digits zero n = []
digits (suc k) n = (n / 10 ^ k % 10 + b'0') ∷ digits k n

-- All digits of `n` and no leading zero.
abbrev IsNumeral : ℕ → List ℕ → Type 0
IsNumeral n ds =
    (len : ℕ) × (ds ≡ digits len n)
    × (n < 10 ^ len)
    × (0 < len)
    × ((len ≡ 1) ⊎ (10 ^ (len - 1) ≤ n))

text_of-digits :
    (n str len : ℕ) (m : Mem)
    → IsDecimal str n len m
    → (fuel k at : ℕ) → k ≤ len
    → k < fuel
    → at ≡ str + (len - k)
    → text_of fuel m at ≡ digits k n
unfolding text_of
text_of-digits n str len m s zero k at le lt e = absurd (omega arith)
text_of-digits n str len m s (suc fuel) zero at le lt e =
    let end : at ≡ str + len = omega arith in
    let nul : m at ≡ 0 = ap m end ∙ s.terminated in ground arith
text_of-digits n str len m s (suc fuel) (suc k) at le lt e =
    let place : len - 1 - (len - suc k) ≡ k = omega arith in
    let byte : m at ≡ n / 10 ^ k % 10 + b'0' =
      ap m e ∙ s.digit (len - suc k) (omega arith) ∙ ap (λ t. n / 10 ^ t % 10 + b'0') place in
    let rest : text_of fuel m (at + 1) ≡ digits k n =
      text_of-digits n str len m s fuel k (at + 1) (omega arith) (omega arith) (omega arith) in
    ground (arith, byte, rest)

-- A number that was printed is still there while its sixteen bytes are kept.
Prints-IsNumeral :
    (n str : ℕ) (m : Mem) (r : Option Mem) (p : Prints n str m r) (out : Mem)
    → ((b : ℕ) → str ≤ b → b < str + 16 → out b ≡ p.out b)
    → IsNumeral n (text_of 16 out str)
Prints-IsNumeral n str m r p out same =
    let kept : IsDecimal str n p.len out = record {
      digit = λ k lt. same (str + k) (omega arith) (omega (arith, p.short)) ∙ p.string.digit k lt;
      terminated = same (str + p.len) (omega arith) (omega (arith, p.short)) ∙ p.string.terminated;
      fits = p.string.fits;
      shortest = p.string.shortest;
    } in
    (
      p.len,
      text_of-digits n str p.len out kept 16 p.len str (omega arith) (omega (arith, p.short))
          (omega arith),
      p.string.fits,
      p.string.shortest.0,
      p.string.shortest.1,
    )

position_report-IsNumeral :
    (m : Mem) (xbuf ybuf x y : ℕ) (mouse : Mouse)
    → (xbuf + 16 ≤ ybuf) ⊎ (ybuf + 16 ≤ xbuf)
    → x < 2 ^ 32
    → y < 2 ^ 32
    → mouse.mouse_x ≡ pos x
    → mouse.mouse_y ≡ pos y
    → (xs : List ℕ) × (ys : List ℕ) × IsNumeral x xs
      × IsNumeral y ys
      × (position_report m xbuf ybuf mouse ≡ some (x_label ++ xs ++ (y_label ++ ys ++ (10 ∷ []))))
unfolding position_report
position_report-IsNumeral m xbuf ybuf x y mouse apart small_x small_y at_x at_y =
    let first = itoa-Prints x xbuf m small_x in
    let both = itoa-Prints y ybuf first.out small_y in
    let same_x : to_u32 mouse.mouse_x ≡ x = ap to_u32 at_x ∙ omega arith in
    let same_y : to_u32 mouse.mouse_y ≡ y = ap to_u32 at_y ∙ omega arith in
    (
      text_of 16 both.out xbuf,
      text_of 16 both.out ybuf,
      Prints-IsNumeral x xbuf m (itoa x xbuf m) first both.out
          (λ b lo hi. both.outside b (omega (arith, both.short, apart))),
      Prints-IsNumeral y ybuf first.out (itoa y ybuf first.out) both both.out (λ b lo hi. refl),
      rw (same_x, same_y, first.returns, both.returns) refl,
    )

-- With a pointer whose coordinates are not negative, as those on the screen are, and two local
-- buffers that do not meet: a call of render_mouse that finds `moved` raised does not fault, and
-- prints its two lines with the decimal numerals of the coordinates, without leading zeros.
mouse_report-IsNumeral :
    (m : Mem) (xbuf ybuf x y : ℕ) (mouse : Mouse)
    → (xbuf + 16 ≤ ybuf) ⊎ (ybuf + 16 ≤ xbuf)
    → x < 2 ^ 32
    → y < 2 ^ 32
    → mouse.mouse_x ≡ pos x
    → mouse.mouse_y ≡ pos y
    → mouse.moved ≡ true
    → (xs : List ℕ) × (ys : List ℕ) × IsNumeral x xs
      × IsNumeral y ys
      × (mouse_report m xbuf ybuf mouse
          ≡ some (called_text ++ (x_label ++ xs ++ (y_label ++ ys ++ (10 ∷ [])))))
unfolding mouse_report
mouse_report-IsNumeral m xbuf ybuf x y mouse apart small_x small_y at_x at_y up =
    let (xs, ys, nx, ny, e) =
      position_report-IsNumeral m xbuf ybuf x y mouse apart small_x small_y at_x at_y in
    (xs, ys, nx, ny, simp (up, e))
