-- ===== src/Libc/Hex.antt =====
-- `itoa_hex` of kernel/lib.cpp: the nineteen bytes that it writes, and reading them back.
use native.Mathlib.Nat.{pow-suc, div-div-eq-div-mul}
use issanium.Prelude.{
  ℕ, zero, suc, ◌+◌, ◌-◌, ◌*◌, ◌/◌, ◌%◌, ◌^◌, ◌≤◌, ◌<◌, ◌≡◌, refl, ap, sym, ◌∙◌, arith, ltb, ◌==◌,
  if◌then◌else◌, ◌⊎◌, inl, inr, Bool-cases, bit_and, get_or, true, ==_iff,
}
use issanium.Prelude.Table.{all_below, all_below_sound}
use issanium.Prelude.Bits.{bit_and_low}
use issanium.Prelude.Memory.{write, write_self, count_up, count_up_inv}
use issanium.Libc.{Mem, hex, hex_round, itoa_hex}
use issanium.Libc.Decimal.{SameOutside}

-- The character of a digit below 16.
abbrev pub hex_char : ℕ → ℕ
hex_char d = get_or hex d 0

-- The string of `n`: `0x`, sixteen digits with the highest first, and a NUL.
pub record IsHex (n str : ℕ) (m : Mem) : Type 0 where
  pub prefix : (m str ≡ b'0') × (m (str + 1) ≡ b'x')
  pub digit : (k : ℕ) → k < 16 → m (str + (17 - k)) ≡ hex_char (n / 16 ^ k % 16)
  pub terminated : m (str + 18) ≡ 0

div-pow-suc : (n k : ℕ) → n / 16 ^ suc k ≡ n / 16 ^ k / 16
div-pow-suc n k = ap (λ (t : ℕ). n / t) (pow-suc 16 k) ∙ sym (div-div-eq-div-mul n (16 ^ k) 16)

module _ (n str : ℕ) (m : Mem) where
  -- After `i` rounds the lowest `i` digits stand at the end, and `n` has lost them.
  abbrev pub Rounds : ℕ → ℕ × Mem → Type 0
  Rounds i (q, t) =
      (q ≡ n / 16 ^ i)
      × ((k : ℕ) → k < i → t (str + (17 - k)) ≡ hex_char (n / 16 ^ k % 16))
      × ((b : ℕ) → (b < str + (18 - i)) ⊎ (str + 18 ≤ b) → t b ≡ m b)

  pub Rounds-suc : (i : ℕ) (s : ℕ × Mem) → i < 16 → Rounds i s → Rounds (i + 1) (hex_round str i s)
  unfolding hex_round
  Rounds-suc i (q, t) h (quotient, digit, outside) = (
    ap (λ t. t / 16) quotient ∙ sym (div-pow-suc n i) ∙ ap (λ k. n / 16 ^ k) (omega arith),
    λ k lt. elim (Bool-cases (k == i)) [
      | inl now ↦ digit_now k ((==_iff k i).0 now)
      | inr before ↦ ground (arith, digit k)
    ],
    λ b p. ground (arith, outside b),
  )
    where
      digit_now :
          (k : ℕ)
          → k ≡ i
          → write t (str + (17 - i)) (hex_char (bit_and q 15)) (str + (17 - k))
            ≡ hex_char (n / 16 ^ k % 16)
      digit_now k e = rw e (
          write_self t (str + (17 - i)) _
          ∙ ap hex_char (bit_and_low 4 q ∙ ap (λ t. t % 16) quotient))

module _ (n str : ℕ) (m : Mem) where
  abbrev begun : Mem
  begun = write (write m str b'0') (str + 1) b'x'

  rounds : Rounds n str begun 16 (count_up 16 0 (hex_round str) (n, begun))
  rounds =
      count_up_inv (Rounds n str begun) (hex_round str) 16 0 16 (n, begun) (omega arith)
        (λ k t lo hi p. Rounds-suc n str begun k t hi p)
        (omega arith, λ k lt. absurd (omega arith), λ b p. refl)

  -- `itoa_hex` writes `0x`, sixteen digits and a NUL, and no byte outside those nineteen.
  itoa_hex-IsHex : IsHex n str (itoa_hex n str m) × SameOutside str 19 m (itoa_hex n str m)
  unfolding itoa_hex
  itoa_hex-IsHex = (
    record {
      prefix = (ground (arith, rounds.2 str), ground (arith, rounds.2 (str + 1)));
      digit = λ k h. ground (arith, rounds.1 k);
      terminated = ground arith;
    },
    λ b p. ground (arith, rounds.2 b),
  )

-- The digit that a character of `hex` stands for.
unfoldable pub hex_value : ℕ → ℕ
hex_value c = if ltb c b'A' then c - b'0' else c - 55

-- The value of the `left` digits at `at`, behind the digits read so far.
unfoldable pub read_hex : ℕ → ℕ → ℕ → Mem → ℕ
read_hex zero at acc m = acc
read_hex (suc left) at acc m = read_hex left (at + 1) (acc * 16 + hex_value (m at)) m

hex_value_table : all_below 16 (λ d. hex_value (hex_char d) == d) ≡ true
unfolding all_below hex_value
hex_value_table = refl

hex_value-hex_char : (d : ℕ) → d < 16 → hex_value (hex_char d) ≡ d
hex_value-hex_char d h = (==_iff _ d).0 (all_below_sound 16 _ d hex_value_table h)

module _ (n str : ℕ) (m : Mem) (s : IsHex n str m) where
  read_hex_from :
      (left at : ℕ) → left ≤ 16 → at ≡ str + (18 - left) → read_hex left at (n / 16 ^ left) m ≡ n
  unfolding read_hex
  read_hex_from zero at h e = omega arith
  read_hex_from (suc left) at h e =
      let index : 18 - suc left ≡ 17 - left = omega arith in
      let byte : m at ≡ hex_char (n / 16 ^ left % 16) =
        ap m (e ∙ ap (λ t. str + t) index) ∙ s.digit left (omega arith) in
      let value : hex_value (m at) ≡ n / 16 ^ left % 16 =
        ap hex_value byte ∙ hex_value-hex_char (n / 16 ^ left % 16) (omega arith) in
      let next : n / 16 ^ suc left * 16 + hex_value (m at) ≡ n / 16 ^ left =
        omega (arith, value, div-pow-suc n left) in
      rw next (read_hex_from left (at + 1) (omega arith) (omega arith))

-- What `itoa_hex` writes for a `uint64_t` reads back as the number.
read_hex-itoa_hex :
    (n str : ℕ) (m : Mem) → n < 2 ^ 64 → read_hex 16 (str + 2) 0 (itoa_hex n str m) ≡ n
read_hex-itoa_hex n str m h =
    rw (← leading)
      (read_hex_from n str _ (itoa_hex-IsHex n str m).0 16 (str + 2) (omega arith) refl)
  where
    leading : n / 16 ^ 16 ≡ 0
    leading = omega arith
