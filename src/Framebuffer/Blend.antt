-- ===== src/Framebuffer/Blend.antt =====
-- video/framebuffer.cpp: the arithmetic of `put_pixel_alpha`, against the mean of each channel.
use mathlib.Core.Path.{subst}
use native.Mathlib.Nat.{mul-le-mul}
use issanium.Prelude.{
  ℕ, ◌+◌, ◌-◌, ◌*◌, ◌/◌, ◌%◌, ◌^◌, ◌≤◌, ◌<◌, ◌≡◌, ap, sym, ◌∙◌, arith, bit_and, bit_or, inl, inr,
  ltb, Bool-cases,
}
use issanium.Prelude.Bits.{
  bit_and_low, bit_and_split, bit_or_split, bit_or_sum_comm, bit_and-zero, bit_or-zero,
}
use issanium.Prelude.Word.{u32, sub32, ◌>>>◌}
use issanium.Framebuffer.{blend, blend_pixel}

abbrev pub red : ℕ → ℕ
red color = color / 2 ^ 16 % 2 ^ 8

abbrev pub green : ℕ → ℕ
green color = color / 2 ^ 8 % 2 ^ 8

abbrev pub blue : ℕ → ℕ
blue color = color % 2 ^ 8

-- `alpha` parts of `c` over `256 - alpha` parts of `bg`, rounded down.
abbrev pub mix : ℕ → ℕ → ℕ → ℕ
mix alpha c bg = (alpha * c + (256 - alpha) * bg) / 256

mask_rb : (x : ℕ) → bit_and x 0xFF00FF ≡ red x * 2 ^ 16 + blue x
mask_rb x =
    let parts : x / 2 ^ 16 * 2 ^ 16 + x % 2 ^ 16 ≡ x = omega arith in
    ap (λ t. bit_and t 0xFF00FF) (sym parts)
    ∙ bit_and_split 16 (x / 2 ^ 16) (x % 2 ^ 16) 255 255 (omega arith) (omega arith)
    ∙ omega (arith, bit_and_low 8 (x / 2 ^ 16), bit_and_low 8 (x % 2 ^ 16))

mask_g : (x : ℕ) → bit_and x 0x00FF00 ≡ green x * 2 ^ 8
mask_g x =
    let parts : x / 2 ^ 8 * 2 ^ 8 + x % 2 ^ 8 ≡ x = omega arith in
    ap (λ t. bit_and t 0x00FF00) (sym parts)
    ∙ bit_and_split 8 (x / 2 ^ 8) (x % 2 ^ 8) 255 0 (omega arith) (omega arith)
    ∙ omega (arith, bit_and_low 8 (x / 2 ^ 8), bit_and-zero (x % 2 ^ 8))

distributes : (u a b : ℕ) → u * b + a * b ≡ (u + a) * b
distributes u a b = grind arith

difference_parts : (n a b : ℕ) → a ≤ n → (n - a) * b + a * b ≡ n * b
difference_parts n a b h =
    let e : n - a + a ≡ n = omega arith in distributes (n - a) a b ∙ ap (λ (t : ℕ). t * b) e

product_above :
    (alpha bg d : ℕ)
    → bg + d < 2 ^ 24
    → alpha < 256
    → u32 ((u32 (d * alpha) >>> 8) + bg) % 2 ^ 24 ≡ (alpha * (bg + d) + (256 - alpha) * bg) / 256
product_above alpha bg d h ha =
    let whole : (256 - alpha) * bg + alpha * bg ≡ 256 * bg =
      difference_parts 256 alpha bg (omega arith) in
    let sum : alpha * (bg + d) + (256 - alpha) * bg ≡ d * alpha + 256 * bg = grind (arith, whole) in
    let small : d * alpha ≤ d * 255 = mul-le-mul (omega arith) (omega arith) in
    omega (arith, sum, small)

product_below :
    (alpha c d : ℕ)
    → c + d < 2 ^ 24
    → alpha < 256
    → u32 ((u32 ((2 ^ 32 - d) * alpha) >>> 8) + (c + d)) % 2 ^ 24
      ≡ (alpha * c + (256 - alpha) * (c + d)) / 256
product_below alpha c d h ha =
    let whole : (256 - alpha) * (c + d) + alpha * (c + d) ≡ 256 * (c + d) =
      difference_parts 256 alpha (c + d) (omega arith) in
    let sum : alpha * c + (256 - alpha) * (c + d) + d * alpha ≡ 256 * (c + d) =
      grind (arith, whole) in
    let wraps : (2 ^ 32 - d) * alpha + d * alpha ≡ 2 ^ 32 * alpha =
      difference_parts (2 ^ 32) d alpha (omega arith) in
    let small : d * alpha ≤ d * 255 = mul-le-mul (omega arith) (omega arith) in
    omega (arith, sum, wraps, small)

-- The difference wraps below 0, and the sum brings it back: above bit 24 only the wrap is left.
product_wraps :
    (alpha c bg : ℕ)
    → c < 2 ^ 24
    → bg < 2 ^ 24
    → alpha < 256
    → u32 ((u32 (sub32 c bg * alpha) >>> 8) + bg) % 2 ^ 24 ≡ (alpha * c + (256 - alpha) * bg) / 256
product_wraps alpha c bg hc hb ha = elim (Bool-cases (ltb c bg)) [
  | inl below ↦
      let d : sub32 c bg ≡ 2 ^ 32 - (bg - c) = ground arith in
      let e : c + (bg - c) ≡ bg = ground arith in
      rw d (
        subst
          (λ t.
            u32 ((u32 ((2 ^ 32 - (bg - c)) * alpha) >>> 8) + t) % 2 ^ 24
            ≡ (alpha * c + (256 - alpha) * t) / 256)
          e (product_below alpha c (bg - c) (omega (arith, e)) ha))
  | inr above ↦
      let d : sub32 c bg ≡ c - bg = ground arith in
      let e : bg + (c - bg) ≡ c = ground arith in
      rw d (
        subst
          (λ t.
            u32 ((u32 ((c - bg) * alpha) >>> 8) + bg) % 2 ^ 24
            ≡ (alpha * t + (256 - alpha) * bg) / 256)
          e (product_above alpha bg (c - bg) (omega (arith, e)) ha))
]

bounded : (alpha c bg : ℕ) → c ≤ 255 → bg ≤ 255 → alpha < 256 → mix alpha c bg < 2 ^ 8
bounded alpha c bg hc hb ha =
    let p : alpha * c ≤ alpha * 255 = mul-le-mul (omega arith) (omega arith) in
    let q : (256 - alpha) * bg ≤ (256 - alpha) * 255 = mul-le-mul (omega arith) (omega arith) in
    omega (arith, p, q)

field_product : (a r l : ℕ) → a * (r * 2 ^ 16 + l) ≡ a * r * 2 ^ 16 + a * l
field_product a r l = grind arith

byte_product : (a g : ℕ) → a * (g * 2 ^ 8) ≡ a * g * 2 ^ 8
byte_product a g = grind arith

red-blue :
    (alpha r l s k v : ℕ)
    → r ≤ 255
    → l ≤ 255
    → s ≤ 255
    → k ≤ 255
    → alpha < 256
    → v % 2 ^ 24 ≡ (alpha * (r * 2 ^ 16 + l) + (256 - alpha) * (s * 2 ^ 16 + k)) / 256
    → red v * 2 ^ 16 + blue v ≡ mix alpha r s * 2 ^ 16 + mix alpha l k
red-blue alpha r l s k v hr hl hs hk ha e = omega (
  arith,
  e,
  field_product alpha r l,
  field_product (256 - alpha) s k,
  bounded alpha r s hr hs ha,
  bounded alpha l k hl hk ha,
)

green_part :
    (alpha g h v : ℕ)
    → g ≤ 255
    → h ≤ 255
    → alpha < 256
    → v % 2 ^ 24 ≡ (alpha * (g * 2 ^ 8) + (256 - alpha) * (h * 2 ^ 8)) / 256
    → green v * 2 ^ 8 ≡ mix alpha g h * 2 ^ 8
green_part alpha g h v hg hh ha e =
    omega (arith, e, byte_product alpha g, byte_product (256 - alpha) h, bounded alpha g h hg hh ha)

module _ (alpha color bg : ℕ) (ha : alpha < 256) where
  blend_rb :
      blend alpha 0xFF00FF color bg
      ≡ mix alpha (red color) (red bg) * 2 ^ 16 + mix alpha (blue color) (blue bg)
  unfolding blend
  blend_rb =
      rw (mask_rb color, mask_rb bg)
        (mask_rb _
          ∙ red-blue alpha (red color) (blue color) (red bg) (blue bg) _ (omega arith) (omega arith)
              (omega arith) (omega arith) ha
              (product_wraps alpha (red color * 2 ^ 16 + blue color) (red bg * 2 ^ 16 + blue bg)
                (omega arith) (omega arith) ha))

  blend_g : blend alpha 0x00FF00 color bg ≡ mix alpha (green color) (green bg) * 2 ^ 8
  unfolding blend
  blend_g =
      rw (mask_g color, mask_g bg)
        (mask_g _
          ∙ green_part alpha (green color) (green bg) _ (omega arith) (omega arith) ha (
              product_wraps alpha (green color * 2 ^ 8) (green bg * 2 ^ 8) (omega arith)
                (omega arith) ha))

-- Fields that lie apart join to a sum.
joins :
    (r g b : ℕ)
    → r < 2 ^ 8
    → g < 2 ^ 8
    → b < 2 ^ 8
    → bit_or (bit_or (r * 2 ^ 16 + b) (g * 2 ^ 8)) (0xFF * 2 ^ 24)
      ≡ 0xFF * 2 ^ 24 + r * 2 ^ 16 + g * 2 ^ 8 + b
joins r g b hr hg hb =
    let low : bit_or b (g * 2 ^ 8) ≡ g * 2 ^ 8 + b = bit_or_sum_comm 8 g b hb in
    let zero_field : 0 * 2 ^ 16 + g * 2 ^ 8 ≡ g * 2 ^ 8 = omega arith in
    let mid : bit_or (r * 2 ^ 16 + b) (g * 2 ^ 8) ≡ r * 2 ^ 16 + g * 2 ^ 8 + b =
      ap (bit_or (r * 2 ^ 16 + b)) (sym zero_field)
      ∙ bit_or_split 16 r b 0 (g * 2 ^ 8) (omega arith) (omega arith)
      ∙ omega (arith, low, ap (λ (t : ℕ). t * 2 ^ 16) (bit_or-zero r)) in
    rw mid (bit_or_sum_comm 24 255 (r * 2 ^ 16 + g * 2 ^ 8 + b) (omega arith) ∙ omega arith)

-- The two wrapping products blend all three channels exactly: each is the mean of the colour and
-- of the background with weights `alpha` and 256 - `alpha`, rounded down, and the pixel is opaque.
pub blend_pixel-mix :
    (alpha color bg : ℕ)
    → alpha < 256
    → blend_pixel alpha color bg
      ≡ 0xFF * 2 ^ 24
        + mix alpha (red color) (red bg) * 2 ^ 16
        + mix alpha (green color) (green bg) * 2 ^ 8
        + mix alpha (blue color) (blue bg)
unfolding blend_pixel
blend_pixel-mix alpha color bg ha =
    rw (blend_rb alpha color bg ha, blend_g alpha color bg ha)
      (joins (mix alpha (red color) (red bg)) (mix alpha (green color) (green bg))
        (mix alpha (blue color) (blue bg))
        (bounded alpha (red color) (red bg) (omega arith) (omega arith) ha)
        (bounded alpha (green color) (green bg) (omega arith) (omega arith) ha)
        (bounded alpha (blue color) (blue bg) (omega arith) (omega arith) ha))
