-- ===== src/Prelude/Bits.antt =====
-- The bits of a number, and what `&`, `|`, `~` and `1 << k` do to them.
use Prim.Native.Nat.{digits, bitwise, bit_and-bitwise, bit_or-bitwise}
use native.Mathlib.Nat.{pow-suc, one-le-pow, mod-eq_of_lt, div-div-eq-div-mul}
use issanium.Prelude.{
  ℕ, zero, suc, ◌+◌, ◌-◌, ◌*◌, ◌/◌, ◌%◌, ◌^◌, ◌≤◌, ◌<◌, bit_and, bit_or, min, max, arith, ◌==◌,
  if◌then◌else◌, ◌≡◌, refl, ap, ◌∙◌, sym,
}

-- Bit `k` of `w`, as 0 or 1.
unfoldable pub bit_at : ℕ → ℕ → ℕ
bit_at w zero = w % 2
bit_at w (suc k) = bit_at (w / 2) k

pub bit_at-lt : (w k : ℕ) → bit_at w k < 2
unfolding bit_at
bit_at-lt w zero = omega arith
bit_at-lt w (suc k) = bit_at-lt (w / 2) k

pub bit_at-zero : (k : ℕ) → bit_at 0 k ≡ 0
unfolding bit_at
bit_at-zero zero = refl
bit_at-zero (suc k) = bit_at-zero k

-- The count of digits to go may be any that suffices.
module _ (end : ℕ → ℕ) (on_digits : ℕ → ℕ → ℕ) where
  digits_count :
      (x y n m : ℕ) → x ≤ n → x ≤ m → digits end on_digits n x y ≡ digits end on_digits m x y
  digits_count zero y zero zero hn hm = refl
  digits_count zero y zero (suc m) hn hm = refl
  digits_count zero y (suc n) zero hn hm = refl
  digits_count zero y (suc n) (suc m) hn hm = refl
  digits_count (suc x) y zero m hn hm = absurd (omega arith)
  digits_count (suc x) y (suc n) zero hn hm = absurd (omega arith)
  digits_count (suc x) y (suc n) (suc m) hn hm =
      ap (λ t. t * 2 + on_digits (suc x % 2) (y % 2))
        (digits_count (suc x / 2) (y / 2) n m (omega arith) (omega arith))

  lowest_digit :
      (x y : ℕ)
      → bitwise end on_digits (suc x) y
        ≡ bitwise end on_digits (suc x / 2) (y / 2) * 2 + on_digits (suc x % 2) (y % 2)
  lowest_digit x y =
      ap (λ t. t * 2 + on_digits (suc x % 2) (y % 2))
        (digits_count (suc x / 2) (y / 2) x (suc x / 2) (omega arith) (omega arith))

-- The lowest digit of `|` and `&`, and the rest of it.
pub bit_or_halves : (x y : ℕ) → bit_or x y ≡ bit_or (x / 2) (y / 2) * 2 + max (x % 2) (y % 2)
bit_or_halves zero y = simp bit_or-bitwise (omega arith)
bit_or_halves (suc x) y = simp bit_or-bitwise (lowest_digit (λ t. t) max x y)

bit_and_halves : (x y : ℕ) → bit_and x y ≡ bit_and (x / 2) (y / 2) * 2 + min (x % 2) (y % 2)
bit_and_halves zero y = simp bit_and-bitwise (omega arith)
bit_and_halves (suc x) y = simp bit_and-bitwise (lowest_digit (λ t. 0) min x y)

pub bit_at-bit_and : (a b k : ℕ) → bit_at (bit_and a b) k ≡ min (bit_at a k) (bit_at b k)
unfolding bit_at
bit_at-bit_and a b zero = omega (arith, bit_and_halves a b)
bit_at-bit_and a b (suc k) =
    let half : bit_and a b / 2 ≡ bit_and (a / 2) (b / 2) = omega (arith, bit_and_halves a b) in
    rw half (bit_at-bit_and (a / 2) (b / 2) k)

pub bit_at-bit_or : (a b k : ℕ) → bit_at (bit_or a b) k ≡ max (bit_at a k) (bit_at b k)
unfolding bit_at
bit_at-bit_or a b zero = omega (arith, bit_or_halves a b)
bit_at-bit_or a b (suc k) =
    let half : bit_or a b / 2 ≡ bit_or (a / 2) (b / 2) = omega (arith, bit_or_halves a b) in
    rw half (bit_at-bit_or (a / 2) (b / 2) k)

pow_half : (k : ℕ) → 2 ^ suc k / 2 ≡ 2 ^ k
pow_half k = omega (arith, pow-suc 2 k)

pub bit_at-pow : (k j : ℕ) → bit_at (2 ^ k) j ≡ (if k == j then 1 else 0)
unfolding bit_at
bit_at-pow zero zero = refl
bit_at-pow zero (suc j) = ground (arith, bit_at-zero j)
bit_at-pow (suc k) zero = ground (arith, pow-suc 2 k)
bit_at-pow (suc k) (suc j) = rw (pow_half k) (ground (arith, bit_at-pow k j))

-- `~m` on `n` bits.
pub bit_at-complement : (n m k : ℕ) → m < 2 ^ n → k < n → bit_at (2 ^ n - 1 - m) k ≡ 1 - bit_at m k
unfolding bit_at
bit_at-complement zero m k h lt = absurd (omega arith)
bit_at-complement (suc n) m zero h lt = omega (arith, pow-suc 2 n)
bit_at-complement (suc n) m (suc k) h lt =
    let half : (2 ^ suc n - 1 - m) / 2 ≡ 2 ^ n - 1 - m / 2 = omega (arith, pow-suc 2 n) in
    rw half (bit_at-complement n (m / 2) k (omega (arith, pow-suc 2 n)) (omega arith))

-- `w & (1 << k)`.
bit_and_zero_below : (n a : ℕ) → a ≤ n → bit_and a 0 ≡ 0
bit_and_zero_below zero zero h = refl
bit_and_zero_below zero (suc a) h = absurd (omega arith)
bit_and_zero_below (suc n) zero h = refl
bit_and_zero_below (suc n) (suc a) h =
    omega (arith, bit_and_halves (suc a) 0, bit_and_zero_below n (suc a / 2) (omega arith))

pub bit_and-zero : (a : ℕ) → bit_and a 0 ≡ 0
bit_and-zero a = bit_and_zero_below a a (omega arith)

bit_or_zero_below : (n a : ℕ) → a ≤ n → bit_or a 0 ≡ a
bit_or_zero_below zero zero h = refl
bit_or_zero_below zero (suc a) h = absurd (omega arith)
bit_or_zero_below (suc n) zero h = refl
bit_or_zero_below (suc n) (suc a) h =
    omega (arith, bit_or_halves (suc a) 0, bit_or_zero_below n (suc a / 2) (omega arith))

pub bit_or-zero : (a : ℕ) → bit_or a 0 ≡ a
bit_or-zero a = bit_or_zero_below a a (omega arith)

pub bit_and-pow : (w k : ℕ) → bit_and w (2 ^ k) ≡ bit_at w k * 2 ^ k
unfolding bit_at
bit_and-pow w zero = omega (arith, bit_and_halves w 1, bit_and-zero (w / 2))
bit_and-pow w (suc k) = omega (
  arith,
  bit_and_halves w (2 ^ suc k),
  pow-suc 2 k,
  ap (λ t. bit_and (w / 2) t) (pow_half k),
  bit_and-pow (w / 2) k,
  ap (λ (t : ℕ). bit_at (w / 2) k * t) (pow-suc 2 k),
)

-- A mask of the `k` low bits is the remainder by `2 ^ k`.
mod_double : (a p : ℕ) → 0 < p → a % (2 * p) ≡ a / 2 % p * 2 + a % 2
mod_double a p h = grind arith

pub bit_and_low : (k a : ℕ) → bit_and a (2 ^ k - 1) ≡ a % 2 ^ k
bit_and_low zero a = ground (arith, bit_and-zero a)
bit_and_low (suc k) a =
    let half : (2 ^ suc k - 1) / 2 ≡ 2 ^ k - 1 = omega (arith, pow-suc 2 k) in
    let odd : (2 ^ suc k - 1) % 2 ≡ 1 = omega (arith, pow-suc 2 k, one-le-pow k 2) in
    ground (
      arith,
      bit_and_halves a (2 ^ suc k - 1),
      half,
      odd,
      pow-suc 2 k,
      mod_double a (2 ^ k),
      bit_and_low k (a / 2),
      one-le-pow k 2,
    )

div-pow-suc : (a k : ℕ) → a / 2 ^ suc k ≡ a / 2 / 2 ^ k
div-pow-suc a k =
    let double : 2 ^ suc k ≡ 2 * 2 ^ k = omega (arith, pow-suc 2 k) in
    ap (λ (t : ℕ). a / t) double ∙ sym (div-div-eq-div-mul a 2 (2 ^ k))

pow-le-pow_right : (k n : ℕ) → k ≤ n → 2 ^ k ≤ 2 ^ n
pow-le-pow_right zero n h = omega (arith, one-le-pow n 2)
pow-le-pow_right (suc k) zero h = absurd (omega arith)
pow-le-pow_right (suc k) (suc n) h =
    omega (arith, pow-suc 2 k, pow-suc 2 n, pow-le-pow_right k n (omega arith))

-- A mask of the bits from `k` on clears the low ones.
pub bit_and_high : (k n a : ℕ) → k ≤ n → a < 2 ^ n → bit_and a (2 ^ n - 2 ^ k) ≡ a / 2 ^ k * 2 ^ k
bit_and_high zero n a h lt = ground (arith, bit_and_low n a, mod-eq_of_lt lt)
bit_and_high (suc k) zero a h lt = absurd (omega arith)
bit_and_high (suc k) (suc n) a h lt =
    let up : 2 ^ k ≤ 2 ^ n = pow-le-pow_right k n (omega arith) in
    let mask : (2 ^ suc n - 2 ^ suc k) / 2 ≡ 2 ^ n - 2 ^ k =
      omega (arith, pow-suc 2 k, pow-suc 2 n) in
    let even : (2 ^ suc n - 2 ^ suc k) % 2 ≡ 0 = omega (arith, pow-suc 2 k, pow-suc 2 n) in
    let quotient : a / 2 ^ suc k ≡ a / 2 / 2 ^ k = div-pow-suc a k in
    ground (
      arith,
      bit_and_halves a (2 ^ suc n - 2 ^ suc k),
      mask,
      even,
      pow-suc 2 n,
      bit_and_high k n (a / 2),
      quotient,
      ap (λ (t : ℕ). a / 2 / 2 ^ k * t) (pow-suc 2 k),
    )

-- `|` of fields that share no bit is a sum.
pub bit_or_sum : (k q r : ℕ) → r < 2 ^ k → bit_or (q * 2 ^ k) r ≡ q * 2 ^ k + r
bit_or_sum zero q r h = ground (arith, bit_or-zero (q * 1))
bit_or_sum (suc k) q r h =
    let double : q * 2 ^ suc k ≡ 2 * (q * 2 ^ k) =
      omega (arith, ap (λ (t : ℕ). q * t) (pow-suc 2 k)) in
    ground (arith, bit_or_halves (q * 2 ^ suc k) r, double, pow-suc 2 k, bit_or_sum k q (r / 2))

pub one-le_pow : (k : ℕ) → 1 ≤ 2 ^ k
one-le_pow k = omega (arith, one-le-pow k 2)

pub pow-lt_pow : (k n : ℕ) → k < n → 2 ^ k < 2 ^ n
pow-lt_pow k n h = omega (arith, pow-suc 2 k, one-le-pow k 2, pow-le-pow_right (suc k) n h)

-- `&` and `|` work on the low and the high digits apart.
pub bit_and_split :
    (k q r p s : ℕ)
    → r < 2 ^ k
    → s < 2 ^ k
    → bit_and (q * 2 ^ k + r) (p * 2 ^ k + s) ≡ bit_and q p * 2 ^ k + bit_and r s
bit_and_split zero q r p s hr hs =
    let e : q * 1 + r ≡ q = omega arith in
    let f : p * 1 + s ≡ p = omega arith in
    let g : r ≡ 0 = omega arith in let h : s ≡ 0 = omega arith in rw (e, f, g, h) (omega arith)
bit_and_split (suc k) q r p s hr hs =
    let double : (a : ℕ) → a * 2 ^ suc k ≡ 2 * (a * 2 ^ k) =
      (λ a. omega (arith, ap (λ (t : ℕ). a * t) (pow-suc 2 k))) in
    let e : (q * 2 ^ suc k + r) / 2 ≡ q * 2 ^ k + r / 2 = omega (arith, double q) in
    let f : (p * 2 ^ suc k + s) / 2 ≡ p * 2 ^ k + s / 2 = omega (arith, double p) in
    let low : min ((q * 2 ^ suc k + r) % 2) ((p * 2 ^ suc k + s) % 2) ≡ min (r % 2) (s % 2) =
      omega (arith, double q, double p) in
    bit_and_halves (q * 2 ^ suc k + r) (p * 2 ^ suc k + s)
    ∙ rw
        (
          e,
          f,
          low,
          bit_and_split k q (r / 2) p (s / 2) (omega (arith, pow-suc 2 k))
              (omega (arith, pow-suc 2 k)),
        )
        (omega (arith, double (bit_and q p), bit_and_halves r s))

pub bit_or_split :
    (k q r p s : ℕ)
    → r < 2 ^ k
    → s < 2 ^ k
    → bit_or (q * 2 ^ k + r) (p * 2 ^ k + s) ≡ bit_or q p * 2 ^ k + bit_or r s
bit_or_split zero q r p s hr hs =
    let e : q * 1 + r ≡ q = omega arith in
    let f : p * 1 + s ≡ p = omega arith in
    let g : r ≡ 0 = omega arith in let h : s ≡ 0 = omega arith in rw (e, f, g, h) (omega arith)
bit_or_split (suc k) q r p s hr hs =
    let double : (a : ℕ) → a * 2 ^ suc k ≡ 2 * (a * 2 ^ k) =
      (λ a. omega (arith, ap (λ (t : ℕ). a * t) (pow-suc 2 k))) in
    let e : (q * 2 ^ suc k + r) / 2 ≡ q * 2 ^ k + r / 2 = omega (arith, double q) in
    let f : (p * 2 ^ suc k + s) / 2 ≡ p * 2 ^ k + s / 2 = omega (arith, double p) in
    let low : max ((q * 2 ^ suc k + r) % 2) ((p * 2 ^ suc k + s) % 2) ≡ max (r % 2) (s % 2) =
      omega (arith, double q, double p) in
    bit_or_halves (q * 2 ^ suc k + r) (p * 2 ^ suc k + s)
    ∙ rw
        (
          e,
          f,
          low,
          bit_or_split k q (r / 2) p (s / 2) (omega (arith, pow-suc 2 k))
              (omega (arith, pow-suc 2 k)),
        )
        (omega (arith, double (bit_or q p), bit_or_halves r s))

pub bit_or-zero_left : (a : ℕ) → bit_or 0 a ≡ a
bit_or-zero_left a = simp bit_or-bitwise refl

-- A field below `2 ^ k` under one from there on: the other order of `bit_or_sum`.
pub bit_or_sum_comm : (k q r : ℕ) → r < 2 ^ k → bit_or r (q * 2 ^ k) ≡ q * 2 ^ k + r
bit_or_sum_comm k q r h =
    let e : 0 * 2 ^ k + r ≡ r = omega arith in
    let f : q * 2 ^ k + 0 ≡ q * 2 ^ k = omega arith in
    sym (ap (λ t. bit_or t (q * 2 ^ k)) e)
    ∙ sym (ap (λ t. bit_or (0 * 2 ^ k + r) t) f)
    ∙ bit_or_split k 0 r q 0 h (omega (arith, one-le-pow k 2))
    ∙ omega
        (arith, bit_or-zero_left q, ap (λ (t : ℕ). t * 2 ^ k) (bit_or-zero_left q), bit_or-zero r)
