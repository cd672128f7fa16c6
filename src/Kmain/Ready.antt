-- ===== src/Kmain/Ready.antt =====
-- kernel/main.cpp: the three processes and the first of them.
use issanium.Prelude.{
  ℕ, suc, ◌+◌, ◌*◌, ◌≤◌, ◌<◌, ◌≡◌, ◌≢◌, refl, ◌∙◌, arith, List, [], ◌∷◌, length, some,
}
use issanium.Prelude.Memory.{write, write_self}
use issanium.Pmm.{Pmm}
use issanium.Vmm.{Vmm}
use issanium.Heap.{Heap}
use issanium.Process.{Context, Scheduler, set_up}
use issanium.Process.Frame.{fresh}
use issanium.Stubs.Isolation.{IsIsolated}
use issanium.Stubs.Start.{
  idle, stack_of, IsPrepared, set_up-Keeps, set_up-stack, set_up-alone, set_up-IsPrepared,
  start_scheduling-Starts,
}
use issanium.Kmain.{start_processes}
use issanium.Kmain.Blocks.{HasChunks, chunks, extent}
use issanium.Kmain.Processes.{to_stack, to_next, set_up_all, create_all-set_up_all}

-- The structure and the stack of the `k`-th process of kmain, the first of them at `at`.
abbrev pub proc_at : ℕ → ℕ → ℕ
proc_at at k = at + k * to_next

abbrev pub stack_at : ℕ → ℕ → ℕ
stack_at at k = proc_at at k + to_stack

module _ (cs a b c at : ℕ) (log : ℕ → Context) where
  abbrev log1 : ℕ → Context
  log1 = write log at (fresh cs (at + to_stack) a)

  abbrev log2 : ℕ → Context
  log2 = write log1 (at + to_next) (fresh cs (at + to_next + to_stack) b)

  -- What the three processes begin with.
  abbrev pub beginnings : ℕ → Context
  beginnings = write log2 (at + to_next + to_next) (fresh cs (at + to_next + to_next + to_stack) c)

  first-beginning : beginnings at ≡ fresh cs (at + to_stack) a
  first-beginning = ground (arith, write_self log at (fresh cs (at + to_stack) a))

module _ (cs a b c at : ℕ) (s : Scheduler) (log : ℕ → Context) (some_place : at ≢ 0)
    (none_yet : s.current ≡ 0) where
  abbrev one : Scheduler
  one = set_up cs a at (at + to_stack) s

  abbrev two : Scheduler
  two = set_up cs b (at + to_next) (at + to_next + to_stack) one

  abbrev three : Scheduler
  three = set_up cs c (at + to_next + to_next) (at + to_next + to_next + to_stack) two

  one-IsPrepared : IsPrepared one (log1 cs a b c at log) (at ∷ [])
  one-IsPrepared = set_up-alone cs a at (at + to_stack) s log some_place none_yet

  one_stack : stack_of one at ≡ at + to_stack
  one_stack = set_up-stack cs a at (at + to_stack) s log (λ e. some_place (e ∙ none_yet))

  two-IsPrepared : IsPrepared two (log2 cs a b c at log) (at ∷ (at + to_next) ∷ [])
  two-IsPrepared =
      set_up-IsPrepared cs b (at + to_next) (at + to_next + to_stack) one (log1 cs a b c at log) at
        [] one-IsPrepared (omega arith, tt) (omega (arith, one_stack), tt) (omega arith)

  at_one : at + to_next ≢ one.current
  at_one e = omega (arith, e, one-IsPrepared.circular.chain.0)

  two_stack : stack_of two at ≡ at + to_stack
  two_stack =
      (set_up-Keeps cs b (at + to_next) (at + to_next + to_stack) one (log1 cs a b c at log) at_one
        at (omega arith)).1
      ∙ one_stack

  two_stack_new : stack_of two (at + to_next) ≡ at + to_next + to_stack
  two_stack_new =
      set_up-stack cs b (at + to_next) (at + to_next + to_stack) one (log1 cs a b c at log) at_one

  three-IsPrepared :
      IsPrepared three
        (beginnings cs a b c at log)
        (at ∷ (at + to_next + to_next) ∷ (at + to_next) ∷ [])
  three-IsPrepared =
      set_up-IsPrepared cs c (at + to_next + to_next) (at + to_next + to_next + to_stack) two
        (log2 cs a b c at log) at ((at + to_next) ∷ []) two-IsPrepared
        (omega arith, (omega arith, tt))
        (omega (arith, two_stack), (omega (arith, two_stack_new), tt)) (omega arith)

-- The first process runs from its beginning, and the two others wait at theirs.
abbrev pub IsStarted : ℕ → ℕ → ℕ → ℕ → ℕ → Scheduler → (ℕ → Context) → Context → Scheduler → Type 0
IsStarted cs a b c at s log cpu t =
    (cpu ≡ fresh cs (at + to_stack) a)
    × IsIsolated (stack_of (set_up_all cs at (a ∷ b ∷ c ∷ []) s))
        (record { cpu = cpu; sched = t; log = beginnings cs a b c at log; pic = idle }) at
        ((at + to_next + to_next) ∷ (at + to_next) ∷ [])

pub start_processes-IsStarted :
    (walk fuel cs a b c start left : ℕ) (ns : List ℕ) (s : Scheduler) (log : ℕ → Context)
    (h : Heap (Vmm Pmm))
    → length ns + 6 < walk
    → s.current ≡ 0
    → 3 * to_next + 40 ≤ left
    → HasChunks h start (chunks ns left)
    → (cpu : Context) × (t : Scheduler) × (g : Heap (Vmm Pmm)) × (start_processes walk
          (suc fuel)
          cs
          a
          b
          c
          s
          h
        ≡ some (cpu, t, g))
      × IsStarted cs a b c (start + extent ns + 32) s log cpu t
unfolding start_processes
start_processes-IsStarted walk fuel cs a b c start left ns s log h enough none_yet room v =
    let at = start + extent ns + 32 in
    let (g, made) =
      create_all-set_up_all walk fuel cs start (a ∷ b ∷ c ∷ []) s h ns left v
        (omega (arith, enough)) (omega (arith, room)) in
    let (cpu, t, run, first, ok) =
      start_scheduling-Starts (set_up_all cs at (a ∷ b ∷ c ∷ []) s) (beginnings cs a b c at log) at
        ((at + to_next + to_next) ∷ (at + to_next) ∷ [])
        (three-IsPrepared cs a b c at s log (omega arith) none_yet) in
    (
      cpu,
      t,
      g,
      rw (made, start_processes) (rw (run, start_processes) refl),
      (first ∙ first-beginning cs a b c at log, ok),
    )
