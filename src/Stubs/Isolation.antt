-- ===== src/Stubs/Isolation.antt =====
-- kernel/interrupt_stub.asm and kernel/process.cpp together: interrupted processes as steps of a
-- machine, and what each tick resumes.
use mathlib.Core.Path.{subst}
use issanium.Prelude.{
  ℕ, zero, suc, ◌+◌, ◌*◌, ◌≤◌, ◌<◌, ◌≡◌, ◌≢◌, true, refl, ap, sym, ◌∙◌, arith, ◌⊎◌, inl, inr, List,
  [], ◌∷◌, length,
}
use issanium.Prelude.Memory.{write}
use issanium.Prelude.Held.{All, Pairwise, All-mono₂}
use issanium.Process.{Context, Scheduler, stack_size, pop_words, load_context}
use issanium.Process.Ring.{AllNe, IsRing}
use issanium.Interrupts.Dispatch.{Pic, raise, delivers, acknowledge}
use issanium.Stubs.{call_room, stub_timer}

-- The registers of the processor, the scheduler with the memory of the stacks, the interrupt
-- controllers and, for the statements only, what each process had in its registers when it was
-- last interrupted.
pub record Machine : Type 0 where
  pub cpu : Context
  pub sched : Scheduler
  pub log : ℕ → Context
  pub pic : Pic

-- The timer requests line 0; `below` is what the stub's call of `schedule` leaves on the stack.
abbrev pub tick : (ℕ → ℕ) → Machine → Machine
tick below m =
    let r = stub_timer below m.cpu m.sched in
    record {
      cpu = r.0;
      sched = r.1;
      log = write m.log m.sched.current m.cpu;
      pic = acknowledge r.2 (raise 0 m.pic);
    }

-- The stack pointer is in the stack, with room below it for what an interrupt saves and for the
-- call of `schedule`.
pub record OnStack (stack : ℕ) (c : Context) : Type 0 where
  pub full : length c.registers ≡ 15
  pub room : stack + 176 + call_room ≤ c.rsp
  pub below : c.rsp ≤ stack + stack_size

-- A process computes as it likes on its own stack, or the timer interrupts it.
pub data Step : Machine → Machine → Type 0 where
  work :
      (m : Machine) (c : Context) (words : ℕ → ℕ)
      → OnStack (m.sched.procs m.sched.current).stack c
      → ((a : ℕ)
          → (a < (m.sched.procs m.sched.current).stack)
            ⊎ ((m.sched.procs m.sched.current).stack + stack_size ≤ a)
          → words a ≡ m.sched.words a)
      → Step m (record m { cpu = c; sched = record m.sched { words = words } })
  interrupt : (m : Machine) (below : ℕ → ℕ) → Step m (tick below m)

pub data Reach : Machine → Machine → Type 0 where
  done : {m : Machine} → Reach m m
  more : {m n o : Machine} → Reach m n → Step n o → Reach m o

-- The saved frame of `p` is on its stack and holds what `p` was interrupted with.
pub record Waiting (stacks : ℕ → ℕ) (s : Scheduler) (log : ℕ → Context) (p : ℕ) : Type 0 where
  pub low : stacks p ≤ (s.procs p).rsp
  pub high : (s.procs p).rsp + 160 ≤ stacks p + stack_size
  pub context : load_context (s.procs p).rsp s.words ≡ log p
  pub on_stack : OnStack (stacks p) (log p)

abbrev pub Apart : (ℕ → ℕ) → ℕ → ℕ → Type 0
Apart stacks p q = (stacks p + stack_size ≤ stacks q) ⊎ (stacks q + stack_size ≤ stacks p)

-- `c` runs on its stack, the others of the ring wait on theirs, no two stacks meet, and the timer
-- is not in service.
pub record IsIsolated (stacks : ℕ → ℕ) (m : Machine) (c : ℕ) (xs : List ℕ) : Type 0 where
  pub ring : IsRing m.sched (c ∷ xs)
  pub runs : OnStack (stacks c) m.cpu
  pub waits : All (Waiting stacks m.sched m.log) xs
  pub apart : Pairwise (Apart stacks) (c ∷ xs)
  pub stack : (a : ℕ) → (m.sched.procs a).stack ≡ stacks a
  pub ready : delivers 0 m.pic ≡ true

-- The pops see only the words of the frame.
pop_words-agree :
    (n at : ℕ) (m k : ℕ → ℕ)
    → ((a : ℕ) → at ≤ a → a < at + 8 * n → k a ≡ m a)
    → pop_words n at k ≡ pop_words n at m
pop_words-agree zero at m k same = refl
pop_words-agree (suc n) at m k same = ground (
  arith,
  same at (omega arith) (omega arith),
  pop_words-agree n (at + 8) m k (λ a lo hi. same a (omega (arith, lo)) (omega (arith, hi))),
)

load_context-agree :
    (at : ℕ) (m k : ℕ → ℕ)
    → ((a : ℕ) → at ≤ a → a < at + 160 → k a ≡ m a)
    → load_context at k ≡ load_context at m
load_context-agree at m k same = ground (
  arith,
  pop_words-agree 15 at m k (λ a lo hi. same a lo (omega (arith, hi))),
  same (at + 120) (omega arith) (omega arith),
  same (at + 128) (omega arith) (omega arith),
  same (at + 136) (omega arith) (omega arith),
  same (at + 144) (omega arith) (omega arith),
  same (at + 152) (omega arith) (omega arith),
)

-- What waits does so while its stack, its saved pointer and its entry of the log stay.
pub Waiting-kept :
    (stacks : ℕ → ℕ) (s t : Scheduler) (log later : ℕ → Context) (p : ℕ)
    → (t.procs p).rsp ≡ (s.procs p).rsp
    → later p ≡ log p
    → ((a : ℕ) → stacks p ≤ a → a < stacks p + stack_size → t.words a ≡ s.words a)
    → Waiting stacks s log p
    → Waiting stacks t later p
Waiting-kept stacks s t log later p same_rsp same_log same_words w = record {
  low = omega (arith, same_rsp, w.low);
  high = omega (arith, same_rsp, w.high);
  context =
      ap (λ r. load_context r t.words) same_rsp
      ∙ load_context-agree (s.procs p).rsp s.words t.words
          (λ a lo hi. same_words a (omega (arith, w.low, lo)) (omega (arith, w.high, hi)))
      ∙ w.context
      ∙ sym same_log;
  on_stack = subst (OnStack (stacks p)) (sym same_log) w.on_stack;
}

pub All-pair : (P Q : ℕ → Type 0) (xs : List ℕ) → All P xs → All Q xs → All (λ x. P x × Q x) xs
All-pair P Q xs h k = All-mono₂ xs (λ x p q. (p, q)) h k

pub Apart-turn : (stacks : ℕ → ℕ) (p q : ℕ) → Apart stacks p q → Apart stacks q p
Apart-turn stacks p q (inl h) = inr h
Apart-turn stacks p q (inr h) = inl h

pub AllNe-All : (a : ℕ) (xs : List ℕ) → AllNe a xs → All (λ x. a ≢ x) xs
AllNe-All a [] h = tt
AllNe-All a (x ∷ xs) h = (h.0, AllNe-All a xs h.1)

module _ (stacks : ℕ → ℕ) (m : Machine) (c : ℕ) (xs : List ℕ) (ok : IsIsolated stacks m c xs) where
  pub others_ne : All (λ x. c ≢ x) xs
  others_ne = AllNe-All c xs ok.ring.distinct.0

  pub current_stack : (m.sched.procs m.sched.current).stack ≡ stacks c
  current_stack = ok.stack m.sched.current ∙ ap stacks ok.ring.chain.0

  pub work-IsIsolated :
      (d : Context) (words : ℕ → ℕ)
      → OnStack (stacks c) d
      → ((a : ℕ) → (a < stacks c) ⊎ (stacks c + stack_size ≤ a) → words a ≡ m.sched.words a)
      → IsIsolated stacks (record m { cpu = d; sched = record m.sched { words = words } }) c xs
  work-IsIsolated d words on same = record {
    ring = record {
      chain = ok.ring.chain;
      not_null = ok.ring.not_null;
      distinct = ok.ring.distinct;
    };
    runs = on;
    waits =
        All-mono₂ xs
          (λ x beside w.
            Waiting-kept stacks m.sched (record m.sched { words = words }) m.log m.log x refl refl
              (λ a lo hi. same a (beyond beside lo hi)) w)
          ok.apart.0 ok.waits;
    apart = ok.apart;
    stack = ok.stack;
    ready = ok.ready;
  }
    where
      beyond :
          {x a : ℕ}
          → Apart stacks c x
          → stacks x ≤ a
          → a < stacks x + stack_size
          → (a < stacks c) ⊎ (stacks c + stack_size ≤ a)
      beyond (inl p) lo hi = inr (omega (arith, p, lo))
      beyond (inr p) lo hi = inl (omega (arith, p, hi))
