-- ===== src/Prelude/Memory.antt =====
-- Memory as a function from addresses to values, and counted loops.
use issanium.Prelude.{ℕ, zero, suc, ◌+◌, ◌≤◌, ◌<◌, ◌≡◌, arith, ◌==◌, if◌then◌else◌, ◌≢◌}

module _ {ℓ} {A : Type ℓ} where
  -- `m[a] = v`.
  abbrev pub write : (ℕ → A) → ℕ → A → ℕ → A
  write m a v b = if a == b then v else m b

  pub write_self : (m : ℕ → A) (a : ℕ) (v : A) → write m a v a ≡ v
  write_self m a v = ground arith

  pub write_ne : (m : ℕ → A) {a b : ℕ} (v : A) → a ≢ b → write m a v b ≡ m b
  write_ne m v h = ground arith

-- for (k = first; k < first + rounds; k++) state = f k state: recursion on the rounds left.
unfoldable pub count_up {ℓ} : {S : Type ℓ} → ℕ → ℕ → (ℕ → S → S) → S → S
count_up zero first f state = state
count_up (suc left) first f state = count_up left (first + 1) f (f first state)

-- What each round carries on from its index to the next holds at the end. Each round knows that
-- its index is in range.
pub count_up_inv {ℓ κ} :
    {S : Type ℓ} (Holds : ℕ → S → Type κ) (f : ℕ → S → S) (rounds first last : ℕ) (state : S)
    → first + rounds ≡ last
    → ((k : ℕ) (t : S) → first ≤ k → k < last → Holds k t → Holds (k + 1) (f k t))
    → Holds first state
    → Holds last (count_up rounds first f state)
unfolding count_up
count_up_inv Holds f zero first last state e each start =
    let same : first ≡ last = omega arith in rw (← same) start
count_up_inv Holds f (suc left) first last state e each start =
    count_up_inv Holds f left (first + 1) last (f first state) (omega arith)
      (λ k t lo hi. each k t (omega arith) hi) (each first state (omega arith) (omega arith) start)
