-- ===== src/Process/Frame.antt =====
-- The stack that `create_process` of kernel/process.cpp prepares.
use issanium.Prelude.{
  ℕ, zero, suc, ◌+◌, ◌-◌, ◌*◌, ◌≤◌, ◌<◌, ◌≡◌, ◌≢◌, refl, ap, ◌∙◌, arith, ◌⊎◌, List, [], ◌∷◌, length,
  get_or, replicate,
}
use mathlib.Core.Path.{ap₂}
use issanium.Prelude.Memory.{write}
use issanium.Prelude.Word.{u32}
use issanium.Process.{
  Process, new_process, Scheduler, stack_size, push_all, frame, link, set_up, Context, pop_words,
  load_context,
}

-- The values lie below `top`, the first on the highest address, and nothing else is written.
pub record IsPushed (vs : List ℕ) (top : ℕ) (m : ℕ → ℕ) (r : ℕ × (ℕ → ℕ)) : Type 0 where
  pub pointer : r.0 + 8 * length vs ≡ top
  pub value : (i : ℕ) → i < length vs → r.1 (top - 8 * suc i) ≡ get_or vs i 0
  pub outside : (a : ℕ) → (a < r.0) ⊎ (top ≤ a) → r.1 a ≡ m a

IsPushed-cons :
    (v : ℕ) (vs : List ℕ) (top : ℕ) (m : ℕ → ℕ) (r : ℕ × (ℕ → ℕ))
    → 8 ≤ top
    → IsPushed vs (top - 8) (write m (top - 8) v) r
    → IsPushed (v ∷ vs) top m r
IsPushed-cons v vs top m r h rest = record {
  pointer = omega (arith, rest.pointer);
  value = value_at;
  outside = λ a p. ground (arith, rest.outside a, rest.pointer);
}
  where
    value_at : (i : ℕ) → i < length (v ∷ vs) → r.1 (top - 8 * suc i) ≡ get_or (v ∷ vs) i 0
    value_at zero lt = ground (arith, rest.outside (top - 8))
    value_at (suc i) lt =
        let same : top - 8 * suc (suc i) ≡ top - 8 - 8 * suc i = omega arith in
        ap r.1 same ∙ rest.value i (omega arith)

pub push_all-IsPushed :
    (vs : List ℕ) (top : ℕ) (m : ℕ → ℕ)
    → 8 * length vs ≤ top
    → IsPushed vs top m (push_all vs top m)
unfolding push_all
push_all-IsPushed [] top m h = record {
  pointer = omega arith;
  value = λ i lt. absurd (omega arith);
  outside = λ a p. refl;
}
push_all-IsPushed (v ∷ vs) top m h =
    IsPushed-cons v vs top m _ (omega arith)
      (push_all-IsPushed vs (top - 8) (write m (top - 8) v) (omega arith))

-- What a fresh process starts with: its entry, interrupts enabled, an empty stack, registers 0.
abbrev pub fresh : ℕ → ℕ → ℕ → Context
fresh cs stack entry = record {
  registers = replicate 15 0;
  rip = entry;
  cs = cs;
  rflags = 0x202;
  rsp = stack + stack_size;
  ss = 0;
}

get_or-replicate : (n i : ℕ) → ◌≡◌ {A = ℕ} (get_or (replicate n 0) i 0) 0
get_or-replicate zero i = refl
get_or-replicate (suc n) zero = refl
get_or-replicate (suc n) (suc i) = get_or-replicate n i

module _ (cs stack entry : ℕ) (r : ℕ × (ℕ → ℕ)) (m : ℕ → ℕ)
    (p : IsPushed (frame cs stack entry) (stack + stack_size) m r) where
  -- The word that the `k`-th pop reads.
  popped :
      (at k : ℕ) → k < 20 → at ≡ r.0 + 8 * k → r.1 at ≡ get_or (frame cs stack entry) (19 - k) 0
  popped at k h e =
      let same : at ≡ stack + stack_size - 8 * suc (19 - k) = omega (arith, p.pointer) in
      ap r.1 same ∙ p.value (19 - k) (omega arith)

  low_zero : (k : ℕ) → k < 15 → get_or (frame cs stack entry) (19 - k) 0 ≡ 0
  low_zero k h =
      let same : 19 - k ≡ suc (suc (suc (suc (suc (14 - k))))) = omega arith in
      ap (λ i. get_or (frame cs stack entry) i 0) same ∙ get_or-replicate 15 (14 - k)

  zeros : (n at k : ℕ) → k + n ≡ 15 → at ≡ r.0 + 8 * k → pop_words n at r.1 ≡ replicate n 0
  zeros zero at k h e = refl
  zeros (suc n) at k h e =
      ap₂ ◌∷◌ (popped at k (omega arith) e ∙ low_zero k (omega arith))
        (zeros n (at + 8) (suc k) (omega arith) (omega arith))

  pub load_context-fresh : load_context r.0 r.1 ≡ fresh cs stack entry
  load_context-fresh = ground (
    arith,
    zeros 15 r.0 0,
    popped (r.0 + 120) 15,
    popped (r.0 + 128) 16,
    popped (r.0 + 136) 17,
    popped (r.0 + 144) 18,
    popped (r.0 + 152) 19,
  )

-- The scheduler after `create_process`, seen from the new process.
abbrev pub saved_context : Scheduler → ℕ → Context
saved_context s proc = load_context (s.procs proc).rsp s.words

-- What linking leaves of the new process and of memory.
abbrev pub Linked : ℕ → Process → Scheduler → Type 0
Linked proc p s =
    (((link proc p s).procs proc).rsp ≡ p.rsp)
    × ((link proc p s).words ≡ s.words)
    × (((link proc p s).procs proc).state ≡ p.state)
    × (((link proc p s).procs proc).pid ≡ p.pid)

pub link_lem : (proc : ℕ) (p : Process) (s : Scheduler) → proc ≢ s.current → Linked proc p s
unfolding link
link_lem proc p s ne = ground arith

module _ (cs entry proc stack : ℕ) (s : Scheduler) where
  abbrev prepared : ℕ × (ℕ → ℕ)
  prepared = push_all (frame cs stack entry) (stack + stack_size) s.words

  abbrev waiting : Scheduler
  waiting = record s { next_pid = u32 (s.next_pid + 1); words = prepared.1 }

  prepared-IsPushed : IsPushed (frame cs stack entry) (stack + stack_size) s.words prepared
  prepared-IsPushed =
      push_all-IsPushed (frame cs stack entry) (stack + stack_size) s.words (omega arith)

  -- `create_process` saves for the new process a context that starts at its entry with interrupts
  -- enabled and an empty stack, inside the stack that it was given; it writes no word outside it.
  pub set_up-fresh :
      proc ≢ s.current
      → let t = set_up cs entry proc stack s in
        (saved_context t proc ≡ fresh cs stack entry)
        × ((t.procs proc).rsp + 160 ≡ stack + stack_size)
        × ((a : ℕ) → (a < stack) ⊎ (stack + stack_size ≤ a) → t.words a ≡ s.words a)
  unfolding set_up
  set_up-fresh ne = (
    ap₂ load_context linked.0 linked.1
        ∙ load_context-fresh cs stack entry prepared s.words prepared-IsPushed,
    omega (arith, linked.0, prepared-IsPushed.pointer),
    λ a p.
        ap (λ m. m a) linked.1
        ∙ prepared-IsPushed.outside a (omega (arith, prepared-IsPushed.pointer, p)),
  )
    where
      linked : Linked proc (new_process prepared.0 stack s.next_pid) waiting
      linked = link_lem proc (new_process prepared.0 stack s.next_pid) waiting ne
