-- ===== src/Mouse/Delta.antt =====
-- The signed movement that a packet of drivers/ps2mouse.cpp carries, as a nine-bit number.
use issanium.Prelude.{ℕ, ◌+◌, ◌*◌, ◌^◌, ◌<◌, ◌≡◌, refl, true, arith, ◌==◌, ==_iff, bit_or}
use issanium.Prelude.Int.{ℤ, sub_ℕ}
use issanium.Prelude.Bits.{bit_at, bit_at-lt, bit_and-pow, one-le_pow}
use issanium.Prelude.Table.{all_below, all_below_sound}
use issanium.Mouse.{sign_extend}

-- `data - 256 * sign`, the two's complement of nine bits.
abbrev pub delta : ℕ → ℕ → ℤ
delta sign byte = sub_ℕ byte (256 * sign)

extend_table : all_below 256 (λ b. bit_or b 0xFFFFFF00 == b + 0xFFFFFF00) ≡ true
unfolding all_below
extend_table = refl

bit_or_extend : (b : ℕ) → b < 256 → bit_or b 0xFFFFFF00 ≡ b + 0xFFFFFF00
bit_or_extend b h = (==_iff _ _).0 (all_below_sound 256 _ b extend_table h)

-- Sign extension by bit `k` of the flags gives the nine-bit number.
pub sign_extend-delta :
    (k flags byte : ℕ) → byte < 256 → sign_extend flags (2 ^ k) byte ≡ delta (bit_at flags k) byte
unfolding sign_extend
sign_extend-delta k flags byte h =
    ground (arith, bit_or_extend byte h, bit_and-pow flags k, bit_at-lt flags k, one-le_pow k)
