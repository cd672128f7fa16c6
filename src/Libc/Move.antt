-- ===== src/Libc/Move.antt =====
-- `memcpy`, `memset` and `memmove` of kernel/lib.cpp, byte by byte.
use issanium.Prelude.{
  ℕ, zero, suc, ◌+◌, ◌-◌, ◌≤◌, ◌<◌, ◌≡◌, refl, arith, ltb, leb, if◌then◌else◌, ◌&&◌, ◌⊎◌, inl, inr,
  Bool-cases,
}
use issanium.Prelude.Word.{u8}
use issanium.Prelude.Memory.{write, count_up, count_up_inv}
use issanium.Libc.{Mem, Copied, copy_byte, memcpy, memset, copy_down, memmove}

-- Memory after the `n` bytes at `src` are moved to `dest` all at once.
abbrev pub moved : ℕ → ℕ → ℕ → Mem → Mem
moved dest src n m a = if leb dest a && ltb a (dest + n) then m (src + (a - dest)) else m a

-- Memory after the `n` bytes at `s` are set to `v` all at once.
abbrev pub filled : ℕ → ℕ → ℕ → Mem → Mem
filled s v n m a = if leb s a && ltb a (s + n) then v else m a

abbrev pub Gives : Copied → ℕ → Mem → Type 0
Gives r p m = (r.0 ≡ p) × ((a : ℕ) → r.1 a ≡ m a)

module _ (dest src n : ℕ) (m : Mem) where
  forward-moved :
      (dest ≤ src) ⊎ (src + n ≤ dest)
      → (a : ℕ) → count_up n 0 (copy_byte dest src) m a ≡ moved dest src n m a
  forward-moved apart =
      count_up_inv (λ k t. (a : ℕ) → t a ≡ moved dest src k m a) (copy_byte dest src) n 0 n m
        (omega arith) (λ k t lo hi p a. ground (arith, p a, p (src + k))) (λ a. ground arith)

copy_down-moved :
    (dest src i : ℕ) (m : Mem)
    → src < dest
    → (a : ℕ) → copy_down dest src i m a ≡ moved dest src i m a
unfolding copy_down
copy_down-moved dest src zero m h a = ground arith
copy_down-moved dest src (suc i) m h a =
    ground (arith, copy_down-moved dest src i (copy_byte dest src i m) h a)

-- `memcpy` returns `dest` and moves the bytes, where the ranges are apart or `dest` is not above
-- `src`.
pub memcpy-moved :
    (dest src n : ℕ) (m : Mem)
    → (dest ≤ src) ⊎ (src + n ≤ dest)
    → Gives (memcpy dest src n m) dest (moved dest src n m)
unfolding memcpy
memcpy-moved dest src n m apart = (refl, forward-moved dest src n m apart)

-- `memset` returns `s` and sets each byte of the range to the low byte of `c`, and no other.
memset-filled : (s c n : ℕ) (m : Mem) → Gives (memset s c n m) s (filled s (u8 c) n m)
unfolding memset
memset-filled s c n m = (
  refl,
  count_up_inv (λ k t. (a : ℕ) → t a ≡ filled s (u8 c) k m a) (λ i t. write t (s + i) (u8 c)) n 0 n
      m (omega arith) (λ k t lo hi p a. ground (arith, p a)) (λ a. ground arith),
)

-- `memmove` returns `dest` and moves the bytes as if all were read before any is written, however
-- the ranges overlap; no other byte changes.
pub memmove-moved :
    (dest src n : ℕ) (m : Mem) → Gives (memmove dest src n m) dest (moved dest src n m)
unfolding memmove
memmove-moved dest src n m = elim (Bool-cases (ltb dest src)) [
  | inl below ↦ rw below (refl, forward-moved dest src n m (inl (ground arith)))
  | inr above ↦ rw above (elim (Bool-cases (ltb src dest)) [
    | inl up ↦ rw up (refl, copy_down-moved dest src n m (ground arith))
    | inr same ↦ rw same (refl, λ a. ground arith)
  ])
]
