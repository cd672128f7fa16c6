-- ===== src/Writer/Glyph.antt =====
-- video/writer.cpp: which cells of the back buffer one character changes.
use issanium.Prelude.{
  ℕ, ◌+◌, ◌-◌, ◌/◌, ◌%◌, ◌≤◌, ◌<◌, ◌≡◌, ap, arith, ◌==◌, ltb, leb, if◌then◌else◌, inl, inr,
  Bool-cases, Bool, true, ◌&&◌, some, ==_iff, bit_and, ◌^◌, ◌*◌, refl, ◌∙◌,
}
use issanium.Prelude.Word.{u8, u32, is_true, ◌>>>◌}
use issanium.Prelude.Table.{all_below, all_below_sound}
use issanium.Prelude.Bits.{bit_at, bit_at-lt, bit_and-pow, one-le_pow}
use issanium.Prelude.Memory.{count_up, count_up_inv}
use issanium.Libc.{Mem}
use issanium.Framebuffer.{Screen, Buffer, put_pixel}
use issanium.Framebuffer.Clip.{IsScreen, put_pixel-cell}
use issanium.Writer.{font_at, glyph_of, bytes_per_line, is_inked, put_char}

product_le : (a b c : ℕ) → a ≤ b → a * c ≤ b * c
product_le a b c le = grind arith

mask_table : all_below 8 (λ d. u8 (0x80 >>> d) == 2 ^ (7 - d)) ≡ true
unfolding all_below
mask_table = refl

-- The mask of a column is the power of its bit.
mask-bit : (i : ℕ) → u8 (0x80 >>> (i % 8)) ≡ 2 ^ (7 - i % 8)
mask-bit i =
    (==_iff (u8 (0x80 >>> (i % 8))) (2 ^ (7 - i % 8))).0
      (all_below_sound 8 (λ d. u8 (0x80 >>> d) == 2 ^ (7 - d)) (i % 8) mask_table (omega arith))

is_true-bit : (v k : ℕ) → is_true (bit_and v (2 ^ k)) ≡ (bit_at v k == 1)
is_true-bit v k =
    let e = bit_and-pow v k in
    let two = bit_at-lt v k in
    let pos = one-le_pow k in
    elim (Bool-cases (bit_at v k == 0)) [
      | inl zero ↦
          let none_set : bit_at v k ≡ 0 = (==_iff (bit_at v k) 0).0 zero in
          let masked : bit_and v (2 ^ k) ≡ 0 = e ∙ ap (λ t. t * 2 ^ k) none_set ∙ omega arith in
          ground (arith, masked, none_set)
      | inr one ↦
          let set : bit_at v k ≡ 1 = ground (arith, one, two) in
          let masked : bit_and v (2 ^ k) ≡ 2 ^ k = e ∙ ap (λ t. t * 2 ^ k) set ∙ omega arith in
          ground (arith, masked, set, pos)
    ]

module _ (m : Mem) (start color : ℕ) (fb : Screen) (f : IsScreen fb) where
  abbrev stride : ℕ
  stride = fb.pitch / 4

  -- Cell `k` is in the box of `rows` rows at `x` and `y`, on an inked pixel of the glyph.
  abbrev pub inked_in : ℕ → ℕ → ℕ → ℕ → ℕ → ℕ → Bool
  inked_in glyph x y columns rows k =
      leb y (k / stride)
      && (ltb (k / stride) (y + rows)
          && (leb x (k % stride)
              && (ltb (k % stride) (x + columns)
                  && is_inked m (font_at m start) glyph (k % stride - x) (k / stride - y))))

  paint-cell :
      (ink : ℕ → Bool) (x y i : ℕ) (t : Buffer) (k : ℕ)
      → x + i < fb.width
      → y < fb.height
      → (if ink i then put_pixel (some fb) (u32 (x + i)) (u32 y) color t else t) k
        ≡ (if k / stride == y && (k % stride == x + i && ink (k % stride - x)) then color else t k)
  paint-cell ink x y i t k hx hy =
      let small_x : u32 (x + i) ≡ x + i = omega (arith, f.width_lt) in
      let small_y : u32 y ≡ y = omega (arith, f.height_lt) in
      let put = put_pixel-cell fb f color (x + i) y t k hx hy in
      elim (Bool-cases (k % stride == x + i)) [
        | inl same ↦
            let column : ink (k % stride - x) ≡ ink i = ap ink (ground arith) in
            rw (small_x, small_y) (ground (arith, column, put))
        | inr other ↦ rw (small_x, small_y) (ground (arith, put))
      ]

  line-cell :
      (ink : ℕ → Bool) (x y columns : ℕ) (b : Buffer) (k : ℕ)
      → x + columns ≤ fb.width
      → y < fb.height
      → count_up columns 0
          (λ i t. if ink i then put_pixel (some fb) (u32 (x + i)) (u32 y) color t else t)
          b
          k
        ≡ (if k / stride == y
              && (leb x (k % stride) && (ltb (k % stride) (x + columns) && ink (k % stride - x)))
            then color
            else b k)
  line-cell ink x y columns b k hx hy =
      count_up_inv
        (λ i t. t k ≡ (
          if k / stride == y
            && (leb x (k % stride) && (ltb (k % stride) (x + i) && ink (k % stride - x)))
          then color
          else b k))
        (λ i t. if ink i then put_pixel (some fb) (u32 (x + i)) (u32 y) color t else t) columns 0
        columns b (omega arith)
        (λ i t lo hi p. ground (arith, paint-cell ink x y i t k (omega arith) hy, p)) (ground arith)

  lines-cell :
      (ink : ℕ → ℕ → Bool) (x y columns rows : ℕ) (b : Buffer) (k : ℕ)
      → x + columns ≤ fb.width
      → y + rows ≤ fb.height
      → count_up rows 0
          (λ j.
            count_up columns 0 (λ i t.
              if ink i j then put_pixel (some fb) (u32 (x + i)) (u32 (y + j)) color t else t))
          b
          k
        ≡ (if leb y (k / stride)
              && (ltb (k / stride) (y + rows)
                  && (leb x (k % stride)
                      && (ltb (k % stride) (x + columns) && ink (k % stride - x) (k / stride - y))))
            then color
            else b k)
  lines-cell ink x y columns rows b k hx hy =
      count_up_inv
        (λ j t. t k ≡ (
          if leb y (k / stride)
            && (ltb (k / stride) (y + j)
                && (leb x (k % stride)
                    && (ltb (k % stride) (x + columns) && ink (k % stride - x) (k / stride - y))))
          then color
          else b k))
        _ rows 0 rows b (omega arith)
        (λ j t lo hi p. elim (Bool-cases (k / stride == y + j)) [
          | inl same ↦
              let row : ink (k % stride - x) (k / stride - y) ≡ ink (k % stride - x) j =
                ap (ink (k % stride - x)) (ground arith) in
              ground
                (arith, row, line-cell (λ i. ink i j) x (y + j) columns t k hx (omega arith), p)
          | inr other ↦
              ground (arith, line-cell (λ i. ink i j) x (y + j) columns t k hx (omega arith), p)
        ])
        (ground arith)

  -- A character that fits on the screen, as the loops test its pixels.
  pub put_char-inked_in :
      (unicode x y : ℕ) (b : Buffer) (k : ℕ)
      → x + (font_at m start).width ≤ fb.width
      → y + (font_at m start).height ≤ fb.height
      → put_char m start (some fb) color unicode x y b k ≡ (
          if inked_in
            (glyph_of (font_at m start) start unicode)
            x
            y
            (font_at m start).width
            (font_at m start).height
            k
          then color
          else b k)
  unfolding put_char
  put_char-inked_in unicode x y b k hx hy =
      lines-cell (is_inked m (font_at m start) (glyph_of (font_at m start) start unicode)) x y
        (font_at m start).width (font_at m start).height b k hx hy

  -- The bit of the font for column `i` and row `j` of a character: glyphs of `bytesperglyph` bytes
  -- lie behind the header, each row of one begins a byte, and the highest bit is the leftmost; a
  -- code that the font does not have has the bits of glyph 0.
  abbrev pub glyph_bit : ℕ → ℕ → ℕ → ℕ
  glyph_bit unicode i j =
      let font = font_at m start in
      let shown = if ltb unicode font.numglyph then unicode else 0 in
      bit_at
        (m (
          start
          + font.headersize
          + shown * font.bytesperglyph
          + j * ((font.width + 7) / 8)
          + i / 8))
        (7 - i % 8)

  -- Cell `k` is in the box of the character at `x` and `y`, where the font sets its bit.
  abbrev pub in_glyph : ℕ → ℕ → ℕ → ℕ → Bool
  in_glyph unicode x y k =
      leb y (k / stride)
      && (ltb (k / stride) (y + (font_at m start).height)
          && (leb x (k % stride)
              && (ltb (k % stride) (x + (font_at m start).width)
                  && glyph_bit unicode (k % stride - x) (k / stride - y) == 1)))

  -- The glyphs, and the rows of one, have offsets of 32 bits.
  pub record IsFont : Type 0 where
    pub columns : (font_at m start).width + 7 < 2 ^ 32
    pub rows : (font_at m start).height * (((font_at m start).width + 7) / 8) < 2 ^ 32
    pub glyphs : (font_at m start).numglyph * (font_at m start).bytesperglyph < 2 ^ 32

  module _ (font : IsFont) where
    glyph_of-shown :
        (unicode : ℕ)
        → glyph_of (font_at m start) start unicode
          ≡ start
            + (font_at m start).headersize
            + (if ltb unicode (font_at m start).numglyph then unicode else 0)
              * (font_at m start).bytesperglyph
    unfolding glyph_of
    glyph_of-shown unicode = elim (Bool-cases (ltb unicode (font_at m start).numglyph)) [
      | inl has ↦
          let le : unicode * (font_at m start).bytesperglyph
              ≤ (font_at m start).numglyph * (font_at m start).bytesperglyph =
            product_le unicode (font_at m start).numglyph (font_at m start).bytesperglyph
              (ground (arith, has)) in
          ground (arith, has, le, font.glyphs)
      | inr lacks ↦ ground (arith, lacks)
    ]

    is_inked-bit :
        (unicode i j : ℕ)
        → j < (font_at m start).height
        → is_inked m (font_at m start) (glyph_of (font_at m start) start unicode) i j
          ≡ (glyph_bit unicode i j == 1)
    unfolding is_inked
    is_inked-bit unicode i j lt =
        let line = ((font_at m start).width + 7) / 8 in
        let glyph = glyph_of (font_at m start) start unicode in
        let old = glyph + u32 (j * bytes_per_line (font_at m start)) + i / 8 in
        let narrow : bytes_per_line (font_at m start) ≡ line = omega (arith, font.columns) in
        let below : j * line ≤ (font_at m start).height * line =
          product_le j (font_at m start).height line (omega (arith, lt)) in
        let row : u32 (j * bytes_per_line (font_at m start)) ≡ j * line =
          ap (λ t. u32 (j * t)) narrow ∙ omega (arith, below, font.rows) in
        ap (λ t. is_true (bit_and (m old) t)) (mask-bit i)
        ∙ is_true-bit (m old) (7 - i % 8)
        ∙ ap (λ r. bit_at (m (glyph + r + i / 8)) (7 - i % 8) == 1) row
        ∙ ap (λ g. bit_at (m (g + j * line + i / 8)) (7 - i % 8) == 1) (glyph_of-shown unicode)

    -- With offsets of 32 bits in the font: a character that fits on the screen gives the colour to
    -- exactly the cells of its box whose bit the font sets, the highest bit of a byte on the left,
    -- and changes no other cell; a code that the font does not have shows glyph 0.
    pub put_char-in_glyph :
        (unicode x y : ℕ) (b : Buffer) (k : ℕ)
        → x + (font_at m start).width ≤ fb.width
        → y + (font_at m start).height ≤ fb.height
        → put_char m start (some fb) color unicode x y b k
          ≡ (if in_glyph unicode x y k then color else b k)
    put_char-in_glyph unicode x y b k hx hy =
        let drawn = put_char-inked_in unicode x y b k hx hy in
        elim (Bool-cases (leb y (k / stride) && ltb (k / stride) (y + (font_at m start).height))) [
          | inl row ↦
              let same =
                is_inked-bit unicode (k % stride - x) (k / stride - y) (ground (arith, row)) in
              ground (arith, drawn, same, row)
          | inr off ↦ ground (arith, drawn, off)
        ]
