-- ===== src/Tests/Libc.antt =====
-- Runs of kernel/lib.cpp, and its theorems at concrete inputs.
use issanium.Prelude.{ℕ, ◌≡◌, refl, arith, List, [], ◌∷◌, some}
use issanium.Prelude.Int.{negsuc}
use issanium.Prelude.Memory.{count_up}
use mathlib.Core.Option
use issanium.Libc.{Mem, memmove, copy_down, memcmp, itoa, itoa_hex}
use issanium.Libc.Move.{Gives, moved, memmove-moved}
use issanium.Libc.Decimal.{Prints, itoa-Prints}

-- Each byte holds the low byte of its address.
abbrev counting : Mem
counting a = a

abbrev bytes : ℕ → ℕ → ℕ → ℕ → Mem → List ℕ
bytes a b c d m = m a ∷ m b ∷ m c ∷ m d ∷ []

overlap_up : bytes 10 11 12 13 (memmove 11 10 3 counting).1 ≡ 10 ∷ 10 ∷ 11 ∷ 12 ∷ []
unfolding memmove copy_down
overlap_up = refl

overlap_down : bytes 10 11 12 13 (memmove 10 11 3 counting).1 ≡ 11 ∷ 12 ∷ 13 ∷ 13 ∷ []
unfolding memmove count_up
overlap_down = refl

digits_of_2026 :
    Option.map (bytes 100 101 102 103) (itoa 2026 100 counting)
    ≡ some (b'2' ∷ b'0' ∷ b'2' ∷ b'6' ∷ [])
unfolding itoa count_up
digits_of_2026 = refl

hex_of_255 : bytes 101 115 116 117 (itoa_hex 255 100 counting) ≡ b'x' ∷ b'0' ∷ b'F' ∷ b'F' ∷ []
unfolding itoa_hex
hex_of_255 = refl

memcmp_order : memcmp 5 9 3 counting ≡ negsuc 0
unfolding memcmp
memcmp_order = refl

memmove-moved_example : Gives (memmove 11 10 3 counting) 11 (moved 11 10 3 counting)
memmove-moved_example = memmove-moved 11 10 3 counting

itoa-Prints_example : Prints 1280 100 counting (itoa 1280 100 counting)
itoa-Prints_example = itoa-Prints 1280 100 counting (omega arith)
