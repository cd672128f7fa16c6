-- ===== src/Libc/Decimal.antt =====
-- `itoa` of kernel/lib.cpp: what it writes, and how many bytes.
use native.Mathlib.Nat.{pow-suc, one-le-pow, div-div-eq-div-mul, div-eq_of_lt}
use issanium.Prelude.{
  ℕ, zero, suc, ◌+◌, ◌-◌, ◌*◌, ◌/◌, ◌%◌, ◌^◌, ◌≤◌, ◌<◌, ◌≡◌, refl, false, ap, sym, ◌∙◌, arith, ◌==◌,
  if◌then◌else◌, ◌⊎◌, inl, inr, Bool-cases, lt→ltb, Option, none, some,
}
use issanium.Prelude.Memory.{write, count_up, count_up_inv}
use issanium.Libc.{Mem, write_digits, swap_bytes, reverse_bytes, finish_itoa, itoa}

-- The decimal string of `n` at `str`: `len` digits, the highest first and not 0 unless `n` is,
-- and a NUL.
pub record IsDecimal (str n len : ℕ) (m : Mem) : Type 0 where
  pub digit : (k : ℕ) → k < len → m (str + k) ≡ n / 10 ^ (len - 1 - k) % 10 + b'0'
  pub terminated : m (str + len) ≡ 0
  pub fits : n < 10 ^ len
  pub shortest : (0 < len) × ((len ≡ 1) ⊎ (10 ^ (len - 1) ≤ n))

-- `t` differs from `m` at most in the `n` bytes at `a`.
abbrev pub SameOutside : ℕ → ℕ → Mem → Mem → Type 0
SameOutside a n m t = (b : ℕ) → (b < a) ⊎ (a + n ≤ b) → t b ≡ m b

div-pow-suc : (n k : ℕ) → n / 10 ^ suc k ≡ n / 10 ^ k / 10
div-pow-suc n k = ap (λ (t : ℕ). n / t) (pow-suc 10 k) ∙ sym (div-div-eq-div-mul n (10 ^ k) 10)

-- What the digit loop returns from round `i` on, if `f` more digits are enough.
record IsWritten (n str i f : ℕ) (m : Mem) (r : Option (ℕ × Mem)) : Type 0 where
  len : ℕ
  out : Mem
  returns : r ≡ some (len, out)
  digit : (k : ℕ) → i ≤ k → k < len → out (str + k) ≡ n / 10 ^ k % 10 + b'0'
  outside : (b : ℕ) → (b < str + i) ⊎ (str + len ≤ b) → out b ≡ m b
  bounds : (i ≤ len) × (len ≤ i + f)
  done : n / 10 ^ len ≡ 0
  last : (len ≡ i) ⊎ (0 < n / 10 ^ (len - 1))

div-pow-add_one : (n k : ℕ) → n / 10 ^ (k + 1) ≡ n / 10 ^ k / 10
div-pow-add_one n k = ap (λ t. n / 10 ^ t) (omega arith) ∙ div-pow-suc n k

lt_of_div-eq-zero : (n p : ℕ) → 0 < p → n / p ≡ 0 → n < p
lt_of_div-eq-zero n p h e = grind arith

le_of_div-pos : (n p : ℕ) → 0 < n / p → p ≤ n
le_of_div-pos n p h = grind arith

module _ (n str : ℕ) where
  end-IsWritten :
      (f i q : ℕ) (m : Mem) → q ≡ n / 10 ^ i → q ≡ 0 → IsWritten n str i f m (some (i, m))
  end-IsWritten f i q m e z = record {
    len = i;
    out = m;
    returns = refl;
    digit = λ k lo hi. absurd (omega arith);
    outside = λ b p. refl;
    bounds = omega arith;
    done = omega arith;
    last = inl refl;
  }

  more-IsWritten :
      (f i q : ℕ) (m : Mem) (r : Option (ℕ × Mem))
      → q ≡ n / 10 ^ i
      → 0 < q
      → IsWritten n str (i + 1) f (write m (str + i) (q % 10 + b'0')) r
      → IsWritten n str i (suc f) m r
  more-IsWritten f i q m r e pos rest = record {
    len = len;
    out = out;
    returns = returns;
    digit = λ k lo hi. elim (Bool-cases (k == i)) [
      | inl here ↦ digit_here k (ground arith)
      | inr later ↦ digit k (ground arith) hi
    ];
    outside = λ b p. ground (arith, outside b);
    bounds = omega (arith, bounds);
    done = done;
    last = inr (elim last [ inl one ↦ rw (one, drop_one) (omega arith) | inr more ↦ more ]);
  }
    where
      open rest use {len, out, returns, digit, outside, bounds, done, last}

      drop_one : i + 1 - 1 ≡ i
      drop_one = omega arith

      digit_here : (k : ℕ) → k ≡ i → out (str + k) ≡ n / 10 ^ k % 10 + b'0'
      digit_here k same = rw same (ground (arith, outside (str + i), e))

  write_digits-IsWritten :
      (f i q : ℕ) (m : Mem)
      → q ≡ n / 10 ^ i
      → q < 10 ^ f
      → IsWritten n str i f m (write_digits (suc f) q str i m)
  unfolding write_digits
  write_digits-IsWritten f i zero m e h = end-IsWritten f i 0 m e refl
  write_digits-IsWritten zero i (suc q) m e h = absurd (omega arith)
  write_digits-IsWritten (suc f) i (suc q) m e h = rw (lt→ltb 0 (suc q) (omega arith)) (
      more-IsWritten f i (suc q) m _ e (omega arith) (
        write_digits-IsWritten f (i + 1) (suc q / 10) (write m (str + i) (suc q % 10 + b'0'))
          (ap (λ t. t / 10) e ∙ sym (div-pow-add_one n i)) (omega (arith, pow-suc 10 f))))

-- The reversal in place.
module _ (str i : ℕ) (m : Mem) where
  -- After `k` rounds the outer `k` bytes on either side are exchanged.
  abbrev Turned : ℕ → Mem → Type 0
  Turned k t =
      ((j : ℕ) → (j < k) ⊎ (i ≤ j + k) → j < i → t (str + j) ≡ m (str + (i - 1 - j)))
      × ((j : ℕ) → k ≤ j → j + k < i → t (str + j) ≡ m (str + j))
      × ((b : ℕ) → (b < str) ⊎ (str + i ≤ b) → t b ≡ m b)

  round-Turned : (k : ℕ) (t : Mem) → k < i / 2 → Turned k t → Turned (k + 1) (swap_bytes str i k t)
  round-Turned k t hi (outer, inner, outside) = (
    λ j p q. ground (arith, outer j, inner k, inner (i - k - 1)),
    λ j p q. ground (arith, inner j),
    λ b p. ground (arith, outside b),
  )

  all-Turned : Turned (i / 2) (reverse_bytes str i m)
  unfolding reverse_bytes
  all-Turned =
      count_up_inv Turned (swap_bytes str i) (i / 2) 0 (i / 2) m (omega arith)
        (λ k t lo hi p. round-Turned k t hi p)
        (λ j p q. absurd (omega arith), λ j p q. refl, λ b p. refl)

  abbrev Reversed : Type 0
  Reversed =
      ((j : ℕ) → j < i → reverse_bytes str i m (str + j) ≡ m (str + (i - 1 - j)))
      × ((b : ℕ) → (b < str) ⊎ (str + i ≤ b) → reverse_bytes str i m b ≡ m b)

  reverse_bytes_lem : Reversed
  reverse_bytes_lem = (λ j h. ground (arith, all-Turned.0 j, all-Turned.1 j), all-Turned.2)

-- What `itoa` leaves at `str`, if it returns: the string with a NUL, and nothing else changed.
pub record Prints (n str : ℕ) (m : Mem) (r : Option Mem) : Type 0 where
  pub len : ℕ
  pub out : Mem
  pub returns : r ≡ some out
  pub string : IsDecimal str n len out
  pub short : len ≤ 10
  pub outside : SameOutside str (len + 1) m out

module _ (n str : ℕ) (m : Mem) where
  finish_itoa-Prints :
      {r : Option (ℕ × Mem)}
      → IsWritten n str 0 10 m r
      → 0 < n
      → Prints n str m (elim r [ none ↦ none | some p ↦ some (finish_itoa str p) ])
  finish_itoa-Prints w pos = rw w.returns (record {
    len = len;
    out = reverse_bytes str len (write out (str + len) 0);
    returns = refl;
    string = record {
      digit = λ k h. ground (arith, turn.0 k, digit (len - 1 - k));
      terminated = ground (arith, turn.1 (str + len));
      fits = lt_of_div-eq-zero n (10 ^ len) (one-le-pow len 10 (omega arith)) done;
      shortest = (positive, inr (le_of_div-pos n (10 ^ (len - 1)) high));
    };
    short = omega (arith, bounds);
    outside = λ b p. ground (arith, turn.1 b, outside b);
  })
    where
      open w use {len, out, digit, outside, bounds, done, last}

      turn : Reversed str len (write out (str + len) 0)
      turn = reverse_bytes_lem str len (write out (str + len) 0)

      no_digits : len ≡ 0 → ⊥
      no_digits z =
          let none_left : n / 10 ^ 0 ≡ 0 = ap (λ t. n / 10 ^ t) (sym z) ∙ done in omega arith

      positive : 0 < len
      positive = elim (Bool-cases (len == 0)) [
        | inl none_left ↦ absurd (no_digits (ground arith))
        | inr some_left ↦ ground arith
      ]

      high : 0 < n / 10 ^ (len - 1)
      high = ground (arith, positive)

  zero-Prints : n ≡ 0 → Prints n str m (some (finish_itoa str (1, write m str b'0')))
  unfolding reverse_bytes count_up
  zero-Prints z = record {
    len = 1;
    out = finish_itoa str (1, write m str b'0');
    returns = refl;
    string = record {
      digit = λ k h. ground arith;
      terminated = ground arith;
      fits = omega arith;
      shortest = (omega arith, inl refl);
    };
    short = omega arith;
    outside = λ b p. ground arith;
  }

  -- For every `uint32_t`, `itoa` returns, and leaves at `str` the decimal string of `n` with its
  -- NUL, of at most ten digits and with no leading zero; no other byte changes.
  pub itoa-Prints : n < 2 ^ 32 → Prints n str m (itoa n str m)
  unfolding itoa
  itoa-Prints h = elim (Bool-cases (n == 0)) [
    | inl zero_case ↦ rw (zero_case, itoa) (zero-Prints (ground arith))
    | inr more ↦
        rw (more, itoa)
          (finish_itoa-Prints (write_digits-IsWritten n str 10 0 n m (omega arith) (omega arith))
            (ground arith))
  ]

-- A reader of decimal strings: the value up to the NUL, `none` if `fuel` bytes hold no NUL.
unfoldable pub read_decimal : ℕ → ℕ → ℕ → Mem → Option ℕ
read_decimal zero str acc m = none
read_decimal (suc fuel) str acc m =
    let rest = read_decimal fuel (str + 1) (acc * 10 + (m str - b'0')) m in
    if m str == 0 then some acc else rest

digit_up : (n d : ℕ) → n / 10 ^ d ≡ n / 10 ^ suc d * 10 + n / 10 ^ d % 10
digit_up n d = omega (arith, div-pow-suc n d)

module _ (n str len : ℕ) (m : Mem) (s : IsDecimal str n len m) where
  -- At the `k`-th digit, with `d` more to come, the leading digits have been read.
  read_decimal_from :
      (d k fuel at : ℕ)
      → k + d ≡ len
      → at ≡ str + k
      → d < fuel
      → read_decimal fuel at (n / 10 ^ d) m ≡ some n
  unfolding read_decimal
  read_decimal_from d k zero at e a h = absurd (omega arith)
  read_decimal_from zero k (suc fuel) at e a h =
      let here : at ≡ str + len = omega arith in
      let nul : m at ≡ 0 = ap m here ∙ s.terminated in ground arith
  read_decimal_from (suc d) k (suc fuel) at e a h =
      let same : len - 1 - k ≡ d = omega arith in
      let byte : m at ≡ n / 10 ^ d % 10 + b'0' =
        ap m a ∙ s.digit k (omega arith) ∙ ap (λ t. n / 10 ^ t % 10 + b'0') same in
      let next : n / 10 ^ suc d * 10 + (m at - b'0') ≡ n / 10 ^ d =
        omega (arith, byte, digit_up n d) in
      let more : (m at == 0) ≡ false = ground arith in
      rw more (
        rw next
          (read_decimal_from d (k + 1) fuel (at + 1) (omega arith) (omega arith) (omega arith)))

-- What `itoa` writes for a `uint32_t` reads back as the number.
read_decimal-itoa :
    (n str : ℕ) (m : Mem)
    → n < 2 ^ 32
    → (out : Mem) × (itoa n str m ≡ some out) × (read_decimal 11 str 0 out ≡ some n)
read_decimal-itoa n str m h = (printed.out, printed.returns, reads)
  where
    printed : Prints n str m (itoa n str m)
    printed = itoa-Prints n str m h

    leading : n / 10 ^ printed.len ≡ 0
    leading = div-eq_of_lt printed.string.fits

    reads : read_decimal 11 str 0 printed.out ≡ some n
    reads = rw (← leading) (
        read_decimal_from n str printed.len printed.out printed.string printed.len 0 11 str
          (omega arith) (omega arith) (omega (arith, printed.short)))
