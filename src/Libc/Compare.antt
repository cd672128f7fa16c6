-- ===== src/Libc/Compare.antt =====
-- `memcmp` of kernel/lib.cpp against the order of byte strings.
use issanium.Prelude.{
  ℕ, zero, suc, ◌+◌, ◌≤◌, ◌<◌, ◌≡◌, refl, arith, ◌⊎◌, inl, inr, ◌==◌, Bool-cases,
}
use issanium.Prelude.Int.{ℤ, pos, negsuc}
use issanium.Libc.{Mem, memcpy, compare_from, memcmp}
use issanium.Libc.Move.{Gives, moved, memcpy-moved}

-- The ranges agree at every index below `n`.
abbrev pub SameBytes : ℕ → ℕ → ℕ → Mem → Type 0
SameBytes s1 s2 n m = (i : ℕ) → i < n → m (s1 + i) ≡ m (s2 + i)

-- `r` is what a comparison of the ranges returns: 0 where they agree, and else the sign of the
-- first difference.
abbrev Compares : ℕ → ℕ → ℕ → Mem → ℤ → Type 0
Compares s1 s2 n m r =
    (SameBytes s1 s2 n m × (r ≡ pos 0))
    ⊎ ((k : ℕ) × (k < n)
        × SameBytes s1 s2 k m
        × (((m (s1 + k) < m (s2 + k)) × (r ≡ negsuc 0))
            ⊎ ((m (s2 + k) < m (s1 + k)) × (r ≡ pos 1))))

module _ (s1 s2 n : ℕ) (m : Mem) where
  SameBytes-suc :
      (i : ℕ) → SameBytes s1 s2 i m → m (s1 + i) ≡ m (s2 + i) → SameBytes s1 s2 (i + 1) m
  SameBytes-suc i same e j h = ground (arith, same j)

  compare_from-Compares :
      (left i : ℕ)
      → i + left ≡ n
      → SameBytes s1 s2 i m
      → Compares s1 s2 n m (compare_from s1 s2 left i m)
  unfolding compare_from
  compare_from-Compares zero i e same = inl (λ j h. same j (omega arith), refl)
  compare_from-Compares (suc left) i e same = elim (Bool-cases (m (s1 + i) == m (s2 + i))) [
    | inl eq ↦
        rw eq
          (compare_from-Compares left (i + 1) (omega arith) (SameBytes-suc i same (ground arith)))
    | inr ne ↦ rw ne (inr (i, omega arith, same, ground arith))
  ]

  -- `memcmp` returns 0 exactly for ranges that agree, and otherwise -1 or 1 by the first bytes
  -- that differ.
  memcmp-Compares : Compares s1 s2 n m (memcmp s1 s2 n m)
  unfolding memcmp
  memcmp-Compares = compare_from-Compares n 0 (omega arith) (λ i h. absurd (omega arith))

compare_from-same :
    (s1 s2 left i : ℕ) (m : Mem)
    → SameBytes s1 s2 (i + left) m
    → compare_from s1 s2 left i m ≡ pos 0
unfolding compare_from
compare_from-same s1 s2 zero i m same = refl
compare_from-same s1 s2 (suc left) i m same =
    ground (arith, same i, compare_from-same s1 s2 left (i + 1) m (λ j h. same j (omega arith)))

-- After a `memcpy` between ranges that do not overlap, `memcmp` finds them equal.
memcmp-memcpy :
    (dest src n : ℕ) (m : Mem)
    → (dest + n ≤ src) ⊎ (src + n ≤ dest)
    → memcmp dest src n (memcpy dest src n m).1 ≡ pos 0
unfolding memcmp
memcmp-memcpy dest src n m apart =
    compare_from-same dest src n 0 (memcpy dest src n m).1
      λ i h. ground (arith, copied.1 (dest + i), copied.1 (src + i))
  where
    copied : Gives (memcpy dest src n m) dest (moved dest src n m)
    copied = memcpy-moved dest src n m (ground arith)
