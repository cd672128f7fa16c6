-- ===== src/Libc.antt =====
-- kernel/lib.cpp: the byte routines that the rest of the kernel calls, over a memory of bytes.
-- A pointer is its address; the ranges that a call names do not wrap at 2 ^ 64.
pub mod Move
pub mod Compare
pub mod Decimal
pub mod Hex
use issanium.Prelude.{
  ℕ, zero, suc, ◌+◌, ◌-◌, ◌*◌, ◌/◌, ◌%◌, ◌^◌, ◌≤◌, ◌<◌, ◌≡◌, arith, ltb, ◌==◌, if◌then◌else◌,
  Option, none, some, List, [], ◌∷◌, get_or, bit_and,
}
use issanium.Prelude.Int.{ℤ, pos, negsuc}
use issanium.Prelude.Word.{u8, ◌>>>◌}
use issanium.Prelude.Memory.{write, count_up}

abbrev pub Mem : Type 0
Mem = ℕ → ℕ

-- The pointer that a routine returns, beside the memory that it leaves.
abbrev pub Copied : Type 0
Copied = ℕ × Mem

abbrev pub copy_byte : ℕ → ℕ → ℕ → Mem → Mem
copy_byte dest src i m = write m (dest + i) (m (src + i))

unfoldable pub memcpy : ℕ → ℕ → ℕ → Mem → Copied
memcpy dest src n m = (dest, count_up n 0 (copy_byte dest src) m)

-- `c` is the bit pattern of an `int`; the cast to `uint8_t` keeps its low byte.
unfoldable pub memset : ℕ → ℕ → ℕ → Mem → Copied
memset s c n m = (s, count_up n 0 (λ i t. write t (s + i) (u8 c)) m)

-- for (i = n; i > 0; i--) pdest[i-1] = psrc[i-1];
unfoldable pub copy_down : ℕ → ℕ → ℕ → Mem → Mem
copy_down dest src zero m = m
copy_down dest src (suc i) m = copy_down dest src i (copy_byte dest src i m)

unfoldable pub memmove : ℕ → ℕ → ℕ → Mem → Copied
memmove dest src n m =
    if ltb dest src
    then (dest, count_up n 0 (copy_byte dest src) m)
    else if ltb src dest
    then (dest, copy_down dest src n m)
    else (dest, m)

-- The loop of `memcmp` at index `i`, with `n - i` rounds left.
unfoldable pub compare_from : ℕ → ℕ → ℕ → ℕ → Mem → ℤ
compare_from s1 s2 zero i m = pos 0
compare_from s1 s2 (suc left) i m =
    let rest = compare_from s1 s2 left (i + 1) m in
    if m (s1 + i) == m (s2 + i)
    then rest
    else if ltb (m (s1 + i)) (m (s2 + i))
    then negsuc 0
    else pos 1

unfoldable pub memcmp : ℕ → ℕ → ℕ → Mem → ℤ
unfolding compare_from
memcmp s1 s2 n m = compare_from s1 s2 n 0 m

-- while (n > 0) { str[i++] = (n % 10) + '0'; n /= 10; } with fuel; `none` if it runs out.
unfoldable pub write_digits : ℕ → ℕ → ℕ → ℕ → Mem → Option (ℕ × Mem)
write_digits zero n str i m = none
write_digits (suc fuel) n str i m =
    let rest = write_digits fuel (n / 10) str (i + 1) (write m (str + i) (n % 10 + b'0')) in
    if ltb 0 n then rest else some (i, m)

abbrev pub swap_bytes : ℕ → ℕ → ℕ → Mem → Mem
swap_bytes str i j m =
    write (write m (str + j) (m (str + (i - j - 1)))) (str + (i - j - 1)) (m (str + j))

-- for (j = 0; j < i / 2; j++) swaps str[j] and str[i-j-1].
unfoldable pub reverse_bytes : ℕ → ℕ → Mem → Mem
reverse_bytes str i m = count_up (i / 2) 0 (swap_bytes str i) m

-- The NUL behind the digits, and the reversal.
abbrev pub finish_itoa : ℕ → ℕ × Mem → Mem
finish_itoa str (i, m) = reverse_bytes str i (write m (str + i) 0)

-- A `uint32_t` has at most ten digits, so eleven rounds end the loop.
unfoldable pub itoa : ℕ → ℕ → Mem → Option Mem
unfolding write_digits reverse_bytes
itoa n str m = elim (if n == 0 then some (1, write m str b'0') else write_digits 11 n str 0 m) [
  | none ↦ none
  | some r ↦ some (finish_itoa str r)
]

abbrev pub hex : List ℕ
hex =
    b'0' ∷ b'1' ∷ b'2' ∷ b'3' ∷ b'4' ∷ b'5' ∷ b'6' ∷ b'7' ∷ b'8' ∷ b'9' ∷ b'A' ∷ b'B' ∷ b'C' ∷ b'D'
    ∷ b'E' ∷ b'F' ∷ []

-- for (i = 0; i < 16; i++) { str[17 - i] = hex[n & 0xF]; n >>= 4; }
unfoldable pub hex_round : ℕ → ℕ → ℕ × Mem → ℕ × Mem
hex_round str i (n, m) = (n >>> 4, write m (str + (17 - i)) (get_or hex (bit_and n 0xF) 0))

unfoldable pub itoa_hex : ℕ → ℕ → Mem → Mem
unfolding hex_round count_up
itoa_hex n str m =
    let begun = write (write m str b'0') (str + 1) b'x' in
    write (count_up 16 0 (hex_round str) (n, begun)).1 (str + 18) 0
