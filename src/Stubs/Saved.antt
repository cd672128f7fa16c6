-- ===== src/Stubs/Saved.antt =====
-- kernel/interrupt_stub.asm: the pops of a stub undo its pushes, whatever was called in between.
use mathlib.Core.Path.{ap₂, subst}
use issanium.Prelude.{
  ℕ, zero, suc, ◌+◌, ◌-◌, ◌*◌, ◌/◌, ◌≤◌, ◌<◌, ◌≡◌, refl, ap, ◌∙◌, arith, ◌⊎◌, List, [], ◌∷◌, ◌++◌,
  length, get_or, length-append, get_or-left, get_or-right,
}
use issanium.Prelude.Memory.{write, write_self, write_ne}
use issanium.Process.{Context, pop_words, load_context}
use issanium.Stubs.{push_back, enter_gate, push_registers, save_context}

-- The values lie from the new top on, and nothing else is written.
pub record IsSaved (vs : List ℕ) (top : ℕ) (m : ℕ → ℕ) (r : ℕ × (ℕ → ℕ)) : Type 0 where
  pub pointer : r.0 + 8 * length vs ≡ top
  pub value : (i : ℕ) → i < length vs → r.1 (r.0 + 8 * i) ≡ get_or vs i 0
  pub outside : (a : ℕ) → (a < r.0) ⊎ (top ≤ a) → r.1 a ≡ m a

module _ (v : ℕ) (vs : List ℕ) (top t : ℕ) (m n : ℕ → ℕ) (room : 8 * length (v ∷ vs) ≤ top)
    (rest : IsSaved vs top m (t, n)) where
  pushed_value :
      (i : ℕ) → i < length (v ∷ vs) → write n (t - 8) v (t - 8 + 8 * i) ≡ get_or (v ∷ vs) i 0
  pushed_value zero lt = ap (write n (t - 8) v) (omega arith) ∙ write_self n (t - 8) v
  pushed_value (suc i) lt =
      write_ne n v (omega (arith, rest.pointer, room))
      ∙ (ap n (omega (arith, rest.pointer, room)) ∙ rest.value i (omega (arith, lt)))

  -- One push below what is saved.
  push-IsSaved : IsSaved (v ∷ vs) top m (t - 8, write n (t - 8) v)
  push-IsSaved = record {
    pointer = omega (arith, rest.pointer, room);
    value = pushed_value;
    outside = λ a p. ground (arith, rest.outside a, rest.pointer, room);
  }

pub push_back-IsSaved :
    (vs : List ℕ) (top : ℕ) (m : ℕ → ℕ)
    → 8 * length vs ≤ top
    → IsSaved vs top m (push_back vs top m)
unfolding push_back
push_back-IsSaved [] top m h = record {
  pointer = omega arith;
  value = λ i lt. absurd (omega arith);
  outside = λ a p. refl;
}
push_back-IsSaved (v ∷ vs) top m h =
    push-IsSaved v vs top _ m _ h (push_back-IsSaved vs top m (omega arith))

-- The pops read the values back from every memory that still holds them.
pub pop_words-same :
    (vs : List ℕ) (at : ℕ) (m : ℕ → ℕ)
    → ((i : ℕ) → i < length vs → m (at + 8 * i) ≡ get_or vs i 0)
    → pop_words (length vs) at m ≡ vs
pop_words-same [] at m h = refl
pop_words-same (v ∷ vs) at m h =
    ap₂ ◌∷◌ (ap m (omega arith) ∙ h 0 (omega arith))
      (pop_words-same vs (at + 8) m (λ i lt. ap m (omega arith) ∙ h (suc i) (omega arith)))

-- Pushes below what is saved.
pub push_back-below :
    (xs ys : List ℕ) (top t : ℕ) (m n : ℕ → ℕ)
    → 8 * length (xs ++ ys) ≤ top
    → IsSaved ys top m (t, n)
    → IsSaved (xs ++ ys) top m (push_back xs t n)
unfolding push_back
push_back-below [] ys top t m n room h = h
push_back-below (x ∷ xs) ys top t m n room h =
    push-IsSaved x (xs ++ ys) top _ m _ room (push_back-below xs ys top t m n (omega arith) h)

-- What `iretq` takes, above the registers.
abbrev pub gate_words : Context → List ℕ
gate_words c = c.rip ∷ c.cs ∷ c.rflags ∷ c.rsp ∷ c.ss ∷ []

abbrev pub context_words : Context → List ℕ
context_words c = c.registers ++ gate_words c

module _ (c : Context) (full : length c.registers ≡ 15) where
  context_words-length : length (context_words c) ≡ 20
  context_words-length = omega (arith, length-append c.registers (gate_words c), full)

  pub enter_gate-IsSaved :
      (m : ℕ → ℕ)
      → 40 ≤ c.rsp / 16 * 16
      → IsSaved (gate_words c) (c.rsp / 16 * 16) m (enter_gate c m)
  unfolding enter_gate
  enter_gate-IsSaved m room =
      push_back-IsSaved (gate_words c) (c.rsp / 16 * 16) m (omega (arith, room))

  pub push_registers-IsSaved :
      (m : ℕ → ℕ) (top : ℕ) (r : ℕ × (ℕ → ℕ))
      → 160 ≤ top
      → IsSaved (gate_words c) top m r
      → IsSaved (context_words c) top m (push_registers c.registers r)
  unfolding push_registers
  push_registers-IsSaved m top r room h =
      push_back-below c.registers (gate_words c) top r.0 m r.1
        (omega (arith, context_words-length, room)) h

  pub save_context-IsSaved :
      (m : ℕ → ℕ) → 176 ≤ c.rsp → IsSaved (context_words c) (c.rsp / 16 * 16) m (save_context c m)
  save_context-IsSaved m room =
      push_registers-IsSaved m (c.rsp / 16 * 16) (enter_gate c m) (omega (arith, room))
        (enter_gate-IsSaved m (omega (arith, room)))

  module _ (top : ℕ) (m : ℕ → ℕ) (r : ℕ × (ℕ → ℕ)) (saved : IsSaved (context_words c) top m r) where
    pub saved-size : r.0 + 160 ≡ top
    saved-size = omega (arith, saved.pointer, context_words-length)

    module _ (later : ℕ → ℕ) (kept : (a : ℕ) → r.0 ≤ a → a < r.0 + 160 → later a ≡ r.1 a) where
      saved_register : (i : ℕ) → i < 15 → later (r.0 + 8 * i) ≡ get_or c.registers i 0
      saved_register i h =
          kept (r.0 + 8 * i) (omega arith) (omega (arith, h))
          ∙ (saved.value i (omega (arith, context_words-length, h))
              ∙ get_or-left c.registers (gate_words c) i 0 (omega (arith, full, h)))

      saved_gate : (i : ℕ) → i < 5 → later (r.0 + (120 + 8 * i)) ≡ get_or (gate_words c) i 0
      saved_gate i h =
          ap later (omega (arith, full))
          ∙ (kept (r.0 + 8 * (length c.registers + i)) (omega arith) (omega (arith, h, full))
              ∙ (saved.value (length c.registers + i) (omega (arith, context_words-length, full, h))
                  ∙ get_or-right c.registers (gate_words c) i 0))

      saved_registers : pop_words 15 r.0 later ≡ c.registers
      saved_registers =
          subst (λ n. pop_words n r.0 later ≡ c.registers) full
            (pop_words-same c.registers r.0 later
              (λ i h. saved_register i (omega (arith, full, h))))

      -- What is saved is loaded again while its words stay.
      pub load_context-saved : load_context r.0 later ≡ c
      load_context-saved = ground (
        arith,
        saved_registers,
        saved_gate 0 (omega arith),
        saved_gate 1 (omega arith),
        saved_gate 2 (omega arith),
        saved_gate 3 (omega arith),
        saved_gate 4 (omega arith),
      )
