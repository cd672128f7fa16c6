-- ===== src/Framebuffer/Source.antt =====
-- video/framebuffer.cpp: the bytes of the image that `draw_tga_scaled` reads.
use native.Mathlib.Nat.{div-mul-le_self}
use issanium.Prelude.{
  ℕ, zero, suc, ◌+◌, ◌*◌, ◌/◌, ◌^◌, ◌≤◌, ◌<◌, ◌≡◌, refl, ap, sym, ◌∙◌, arith, inl, inr, Bool-cases,
  some, none, ◌||◌, Bool, true, false, ◌==◌, if◌then◌else◌, bit_or,
}
use issanium.Prelude.Word.{u32, ◌<<<◌}
use issanium.Prelude.Memory.{count_up}
use issanium.Libc.{Mem}
use issanium.Framebuffer.{Screen, Buffer, put_pixel_alpha}
use issanium.Framebuffer.Tga.{
  TgaHeader, header_at, load32, pixels_at, pixel_index, color_at, row_of, source_of, ratio,
  draw_tga_scaled, scale_rows,
}
use issanium.Framebuffer.Clip.{IsScreen}
use issanium.Framebuffer.Image.{is_visible, draw_tga_scaled-visible}

sample-lt :
    (size r target j : ℕ)
    → 0 < size
    → j < target
    → r * target ≤ size * 2 ^ 16
    → j * r < size * 2 ^ 16
sample-lt size r target j pos_size lt le = grind arith

-- The fixed-point sample of an image side of `size` pixels never overflows and stays inside: for
-- every target size, row and column of the target take a row and column of the image, at
-- floor(j * step / 65536) for the step floor(size * 65536 / target).
source_of-lt :
    (size target j : ℕ)
    → 0 < size
    → size < 2 ^ 16
    → j < target
    → (source_of size target j < size)
      × (source_of size target j ≡ j * (size * 2 ^ 16 / target) / 2 ^ 16)
unfolding source_of ratio
source_of-lt size target j pos_size small lt =
    let whole : u32 (size * 2 ^ 16) ≡ size * 2 ^ 16 = omega arith in
    let inside : j * (size * 2 ^ 16 / target) < size * 2 ^ 16 =
      sample-lt size (size * 2 ^ 16 / target) target j pos_size lt
        (div-mul-le_self (size * 2 ^ 16) target) in
    rw whole (omega (arith, inside))

-- Loops whose rounds do the same.
count_up-same :
    {S : Type 0} (f g : ℕ → S → S) (rounds first last : ℕ) (s : S)
    → first + rounds ≡ last
    → ((k : ℕ) (t : S) → k < last → f k t ≡ g k t)
    → count_up rounds first f s ≡ count_up rounds first g s
unfolding count_up
count_up-same f g zero first last s e same = refl
count_up-same f g (suc left) first last s e same =
    ap (count_up left (first + 1) f) (same first s (omega arith))
    ∙ count_up-same f g left (first + 1) last (g first s) (omega arith) same

-- The bytes of a pixel, and of all pixels that the header announces.
abbrev pub pixel_bytes : TgaHeader → ℕ
pixel_bytes header = if header.bits_per_pixel == 32 then 4 else 3

abbrev pub data_bytes : TgaHeader → ℕ
data_bytes header = header.width * header.height * pixel_bytes header

index-lt_data : (w h x y : ℕ) → x < w → y < h → y * w + x < w * h
index-lt_data w h x y hx hy = grind arith

area-lt : (w h : ℕ) → w < 2 ^ 16 → h < 2 ^ 16 → w * h < 2 ^ 32
area-lt w h hw hh = grind arith

if_then : (b : Bool) (i j k l : ℕ) → b ≡ true → i ≡ j → (if b then i else k) ≡ (if b then j else l)
if_then b i j k l e same = rw e same

if_else : (b : Bool) (i j k l : ℕ) → b ≡ false → k ≡ l → (if b then i else k) ≡ (if b then j else l)
if_else b i j k l e same = rw e same

module _ (m n : Mem) (tga_data : ℕ) (same : header_at n tga_data ≡ header_at m tga_data)
    (pixels : (k : ℕ)
      → k < data_bytes (header_at m tga_data)
      → n (pixels_at m tga_data + k) ≡ m (pixels_at m tga_data + k))
    (sizes : ((header_at m tga_data).width < 2 ^ 16)
      × ((header_at m tga_data).height < 2 ^ 16)) where
  abbrev header : TgaHeader
  header = header_at m tga_data

  abbrev area : ℕ
  area = header.width * header.height

  start : pixels_at n tga_data ≡ pixels_at m tga_data
  start = ap (λ h. tga_data + 18 + h.id_length) same

  byte-same :
      (a b k : ℕ)
      → a ≡ pixels_at n tga_data + k
      → b ≡ pixels_at m tga_data + k
      → k < data_bytes header
      → n a ≡ m b
  byte-same a b k at_n at_m lt = ap n (at_n ∙ ap (λ p. p + k) start) ∙ pixels k lt ∙ ap m (sym at_m)

  load32-same :
      (i : ℕ)
      → data_bytes header ≡ area * 4
      → i < area
      → load32 n (pixels_at n tga_data + 4 * i) ≡ load32 m (pixels_at m tga_data + 4 * i)
  load32-same i size lt = omega (
    arith,
    byte-same (pixels_at n tga_data + 4 * i) (pixels_at m tga_data + 4 * i) (4 * i) (omega arith)
        (omega arith) (omega (arith, size, lt)),
    byte-same (pixels_at n tga_data + 4 * i + 1) (pixels_at m tga_data + 4 * i + 1) (4 * i + 1)
        (omega arith) (omega arith) (omega (arith, size, lt)),
    byte-same (pixels_at n tga_data + 4 * i + 2) (pixels_at m tga_data + 4 * i + 2) (4 * i + 2)
        (omega arith) (omega arith) (omega (arith, size, lt)),
    byte-same (pixels_at n tga_data + 4 * i + 3) (pixels_at m tga_data + 4 * i + 3) (4 * i + 3)
        (omega arith) (omega arith) (omega (arith, size, lt)),
  )

  -- Blue, green and red.
  abbrev opaque : Mem → ℕ → ℕ
  opaque memory p =
      bit_or (bit_or (bit_or (0xFF <<< 24) (memory (p + 2) <<< 16)) (memory (p + 1) <<< 8))
        (memory p)

  opaque-same :
      (i : ℕ)
      → data_bytes header ≡ area * 3
      → i < area
      → opaque n (pixels_at n tga_data + u32 (i * 3))
        ≡ opaque m (pixels_at m tga_data + u32 (i * 3))
  opaque-same i size lt =
      let p = pixels_at n tga_data + u32 (i * 3) in
      let q = pixels_at m tga_data + u32 (i * 3) in
      let first : n p ≡ m q =
        byte-same p q (u32 (i * 3)) (omega arith) (omega arith) (omega (arith, size, lt)) in
      let second : n (p + 1) ≡ m (q + 1) =
        byte-same (p + 1) (q + 1) (u32 (i * 3) + 1) (omega arith) (omega arith)
          (omega (arith, size, lt)) in
      let third : n (p + 2) ≡ m (q + 2) =
        byte-same (p + 2) (q + 2) (u32 (i * 3) + 2) (omega arith) (omega arith)
          (omega (arith, size, lt)) in
      ap (λ r. bit_or (bit_or (bit_or (0xFF <<< 24) (r <<< 16)) (n (p + 1) <<< 8)) (n p)) third
      ∙ ap (λ g. bit_or (bit_or (bit_or (0xFF <<< 24) (m (q + 2) <<< 16)) (g <<< 8)) (n p)) second
      ∙ ap (λ b. bit_or (bit_or (bit_or (0xFF <<< 24) (m (q + 2) <<< 16)) (m (q + 1) <<< 8)) b)
          first

  color_at-same :
      (x y : ℕ)
      → x < header.width
      → y < header.height
      → color_at n tga_data header x y ≡ color_at m tga_data header x y
  unfolding color_at
  color_at-same x y hx hy =
      let inside : pixel_index header x y < area = omega (
        arith,
        index-lt_data header.width header.height x y hx hy,
        area-lt header.width header.height sizes.0 sizes.1,
      ) in
      elim (Bool-cases (header.bits_per_pixel == 32)) [
        | inl four ↦
            let size : data_bytes header ≡ area * 4 = ap (λ b. area * (if b then 4 else 3)) four in
            if_then _ _ _ _ _ four (load32-same (pixel_index header x y) size inside)
        | inr three ↦
            let size : data_bytes header ≡ area * 3 = ap (λ b. area * (if b then 4 else 3)) three in
            if_else _ _ _ _ _ three (opaque-same (pixel_index header x y) size inside)
      ]

  module _ (fb : Screen) (x y target_w target_h : ℕ) where
    -- The loops over the pixels, with the fields of the header apart from the bytes.
    abbrev grid : TgaHeader → Mem → Buffer → Buffer
    grid h memory b =
        count_up target_h 0
          (λ i. count_up target_w 0 (λ j. put_pixel_alpha fb (u32 (x + j)) (row_of h y target_h i) (
            color_at memory tga_data h (source_of h.width target_w j)
              (source_of h.height target_h i))))
          b

    grid-same :
        (b : Buffer) → 0 < header.width → 0 < header.height → grid header n b ≡ grid header m b
    grid-same b wide high = count_up-same _ _ target_h 0 target_h b (omega arith) (λ i t lt.
        count_up-same _ _ target_w 0 target_w t (omega arith) (λ j u lt'.
          ap (λ color. put_pixel_alpha fb (u32 (x + j)) (row_of header y target_h i) color u)
            (color_at-same (source_of header.width target_w j) (source_of header.height target_h i)
              (source_of-lt header.width target_w j wide sizes.0 lt').0
              (source_of-lt header.height target_h i high sizes.1 lt).0)))

    scale_rows-same :
        (b : Buffer)
        → 0 < header.width
        → 0 < header.height
        → scale_rows fb x y target_w target_h n tga_data b
          ≡ scale_rows fb x y target_w target_h m tga_data b
    unfolding scale_rows
    scale_rows-same b wide high = ap (λ h. grid h n b) same ∙ grid-same b wide high

    -- An image with sides of 16 bits that are not 0, and a target that is not empty:
    -- draw_tga_scaled gives a result that depends on no byte but those of the image's header and of
    -- the pixels that the header announces, four or three for each, and it changes no cell that is
    -- not a pixel of the screen.
    pub draw_tga_scaled-inside :
        (b : Buffer)
        → IsScreen fb
        → 0 < header.width
        → 0 < header.height
        → 0 < target_w
        → 0 < target_h
        → (c : Buffer) × (draw_tga_scaled fb x y target_w target_h m tga_data b ≡ some c)
          × (draw_tga_scaled fb x y target_w target_h n tga_data b ≡ some c)
          × ((k : ℕ) → is_visible fb k ≡ false → c k ≡ b k)
    unfolding draw_tga_scaled
    draw_tga_scaled-inside b screen wide high hw hh =
        let (c, run, hidden) =
          draw_tga_scaled-visible fb screen x y target_w target_h m tga_data b hw hh in
        let again : draw_tga_scaled fb x y target_w target_h n tga_data b
            ≡ draw_tga_scaled fb x y target_w target_h m tga_data b =
          ap (λ d. if target_w == 0 || target_h == 0 then none else some d)
            (scale_rows-same b wide high) in
        (c, run, again ∙ run, hidden)
