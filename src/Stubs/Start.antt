-- ===== src/Stubs/Start.antt =====
-- kernel/process.cpp: the processes that `create_process` sets up wait as interrupted ones do, and
-- `start_scheduling` begins with one of them.
use mathlib.Core.Path.{subst}
use issanium.Prelude.{
  ℕ, ◌+◌, ◌≤◌, ◌≡◌, ◌≢◌, refl, ap, sym, ◌∙◌, arith, ◌⊎◌, inl, inr, ◌==◌, false, List, [], ◌∷◌, some,
}
use issanium.Prelude.Memory.{write, write_self, write_ne}
use issanium.Prelude.Word.{u32}
use issanium.Prelude.Held.{All, Pairwise, All-mono, All-mono₂, Pairwise-mono}
use issanium.Process.{
  Context, Process, ProcessState, Scheduler, new_process, insert_after, link, set_up, push_all,
  frame, stack_size, load_context, start_scheduling, put,
}
use issanium.Process.Frame.{fresh, set_up-fresh}
use issanium.Process.Ring.{AllNe, IsRing, Chain-same, link-IsRing, link-alone}
use issanium.Interrupts.Dispatch.{Pic}
use issanium.Stubs.Isolation.{
  OnStack, Waiting, Apart, IsIsolated, Waiting-kept, AllNe-All, Apart-turn, All-pair,
}

-- No request is in service.
abbrev pub idle : Pic
idle = record { master = []; slave = [] }

abbrev pub stack_of : Scheduler → ℕ → ℕ
stack_of s a = (s.procs a).stack

-- All of the ring wait on stacks that do not meet; `log` is what each of them waits with.
pub record IsPrepared (s : Scheduler) (log : ℕ → Context) (ring : List ℕ) : Type 0 where
  pub circular : IsRing s ring
  pub waits : All (Waiting (stack_of s) s log) ring
  pub apart : Pairwise (Apart (stack_of s)) ring

-- Linking leaves the saved pointers and the stacks.
abbrev Keeps : ℕ → Process → Scheduler → ℕ → Type 0
Keeps proc p s x =
    (((link proc p s).procs x).rsp ≡ (write s.procs proc p x).rsp)
    × (((link proc p s).procs x).stack ≡ (write s.procs proc p x).stack)

link-Keeps : (proc : ℕ) (p : Process) (s : Scheduler) (x : ℕ) → proc ≢ s.current → Keeps proc p s x
unfolding link insert_after
link-Keeps proc p s x ne = ground arith

-- The same stack under another table.
Waiting-moved :
    {old new : ℕ → ℕ} (s : Scheduler) (log : ℕ → Context) (x : ℕ)
    → new x ≡ old x
    → Waiting old s log x
    → Waiting new s log x
Waiting-moved s log x e w = record {
  low = omega (arith, e, w.low);
  high = omega (arith, e, w.high);
  context = w.context;
  on_stack = subst (λ a. OnStack a (log x)) (sym e) w.on_stack;
}

module _ (cs entry proc stack : ℕ) (s : Scheduler) (log : ℕ → Context) (ne : proc ≢ s.current) where
  abbrev created : Scheduler
  created = set_up cs entry proc stack s

  abbrev noted : ℕ → Context
  noted = write log proc (fresh cs stack entry)

  abbrev pushed : ℕ × (ℕ → ℕ)
  pushed = push_all (frame cs stack entry) (stack + stack_size) s.words

  abbrev filled : Process
  filled = new_process pushed.0 stack s.next_pid

  kept :
      (x : ℕ) → Keeps proc filled (record s { next_pid = u32 (s.next_pid + 1); words = pushed.1 }) x
  kept x = link-Keeps proc filled _ x ne

  pub set_up-Keeps :
      (x : ℕ)
      → proc ≢ x
      → ((created.procs x).rsp ≡ (s.procs x).rsp) × (stack_of created x ≡ stack_of s x)
  unfolding set_up
  set_up-Keeps x other =
      let same = write_ne s.procs filled other in
      ((kept x).0 ∙ ap (λ p. p.rsp) same, (kept x).1 ∙ ap (λ p. p.stack) same)

  pub set_up-stack : stack_of created proc ≡ stack
  unfolding set_up
  set_up-stack = (kept proc).1 ∙ ap (λ p. p.stack) (write_self s.procs proc filled)

  -- The new process waits with the context that starts it.
  created_waits : Waiting (stack_of created) created noted proc
  created_waits =
      let own : noted proc ≡ fresh cs stack entry = write_self log proc (fresh cs stack entry) in
      let (context, top, outside) = set_up-fresh cs entry proc stack s ne in
      record {
        low = omega (arith, top, set_up-stack);
        high = omega (arith, top, set_up-stack);
        context = context ∙ sym own;
        on_stack = subst (OnStack (stack_of created proc)) (sym own) (
            subst (λ a. OnStack a (fresh cs stack entry)) (sym set_up-stack)
              (record { full = refl; room = omega arith; below = omega arith }));
      }

  -- Those that were there still wait with what they waited with.
  others_wait :
      (x : ℕ)
      → proc ≢ x
      → (stack + stack_size ≤ stack_of s x) ⊎ (stack_of s x + stack_size ≤ stack)
      → Waiting (stack_of s) s log x
      → Waiting (stack_of created) created noted x
  others_wait x other beside w =
      let (context, top, outside) = set_up-fresh cs entry proc stack s ne in
      let same = set_up-Keeps x other in
      Waiting-moved created noted x same.1 (
        Waiting-kept (stack_of s) s created log noted x same.0
          (write_ne log (fresh cs stack entry) other)
          (λ a lo hi. outside a (elim beside [
            | inl p ↦ inr (omega (arith, p, lo))
            | inr p ↦ inl (omega (arith, p, hi))
          ]))
          w)

module _ (cs entry proc stack : ℕ) (s : Scheduler) (log : ℕ → Context) where
  -- The first process alone.
  pub set_up-alone :
      proc ≢ 0
      → s.current ≡ 0
      → IsPrepared
          (set_up cs entry proc stack s)
          (write log proc (fresh cs stack entry))
          (proc ∷ [])
  unfolding set_up
  set_up-alone pos e = record {
    circular = link-alone proc _ _ pos e;
    waits = (created_waits cs entry proc stack s log (λ z. pos (z ∙ e)), tt);
    apart = (tt, tt);
  }

  module _ (c : ℕ) (xs : List ℕ) (ok : IsPrepared s log (c ∷ xs)) (ne : AllNe proc (c ∷ xs))
      (beside : All
        (λ x. (stack + stack_size ≤ stack_of s x) ⊎ (stack_of s x + stack_size ≤ stack))
        (c ∷ xs)) where
    not_current : proc ≢ s.current
    not_current e = ne.0 (e ∙ ok.circular.chain.0)

    abbrev now : Scheduler
    now = set_up cs entry proc stack s

    now-IsRing : proc ≢ 0 → IsRing now (c ∷ proc ∷ xs)
    unfolding set_up
    now-IsRing pos =
        link-IsRing proc _ _ pos c xs
          (record {
            chain = ok.circular.chain;
            not_null = ok.circular.not_null;
            distinct = ok.circular.distinct;
          })
          ne

    keeps : (x : ℕ) → proc ≢ x → stack_of now x ≡ stack_of s x
    keeps x other = (set_up-Keeps cs entry proc stack s log not_current x other).1

    here : stack_of now proc ≡ stack
    here = set_up-stack cs entry proc stack s log not_current

    now_waits : All (Waiting (stack_of now) now (write log proc (fresh cs stack entry))) (c ∷ xs)
    now_waits =
        All-mono₂ (c ∷ xs) (λ x r w. others_wait cs entry proc stack s log not_current x r.0 r.1 w)
          (All-pair _ _ (c ∷ xs) (AllNe-All proc (c ∷ xs) ne) beside) ok.waits

    now_beside : All (Apart (stack_of now) proc) (c ∷ xs)
    now_beside =
        All-mono₂ (c ∷ xs) (λ x other p. omega (arith, keeps x other, here, p))
          (AllNe-All proc (c ∷ xs) ne) beside

    now_apart : Pairwise (Apart (stack_of now)) (c ∷ xs)
    now_apart =
        Pairwise-mono (c ∷ xs) (λ x y p q r. omega (arith, keeps x p, keeps y q, r))
          (AllNe-All proc (c ∷ xs) ne) ok.apart

    -- `create_process` adds a process that waits at its entry, on a stack of its own, and leaves
    -- the others waiting with what they waited with.
    pub set_up-IsPrepared :
        proc ≢ 0
        → IsPrepared
            (set_up cs entry proc stack s)
            (write log proc (fresh cs stack entry))
            (c ∷ proc ∷ xs)
    set_up-IsPrepared pos = record {
      circular = now-IsRing pos;
      waits = (now_waits.0, (created_waits cs entry proc stack s log not_current, now_waits.1));
      apart = (
        (Apart-turn (stack_of now) proc c now_beside.0, now_apart.0),
        (now_beside.1, now_apart.1),
      );
    }

-- `start_scheduling` resumes the current process with its context.
abbrev pub Starts : Scheduler → (ℕ → Context) → ℕ → List ℕ → Type 0
Starts s log c xs =
    (cpu : Context) × (t : Scheduler) × (start_scheduling s ≡ some (cpu, t))
    × (cpu ≡ log c)
    × IsIsolated (stack_of s) (record { cpu = cpu; sched = t; log = log; pic = idle }) c xs

module _ (s : Scheduler) (log : ℕ → Context) (c : ℕ) (xs : List ℕ)
    (ok : IsPrepared s log (c ∷ xs)) where
  abbrev started : Scheduler
  started = put s s.current (record (s.procs s.current) { state = ProcessState.running })

  started_next : (a : ℕ) → (started.procs a).next ≡ (s.procs a).next
  started_next a = ground arith

  started_rsp : (a : ℕ) → (started.procs a).rsp ≡ (s.procs a).rsp
  started_rsp a = ground arith

  started_stack : (a : ℕ) → stack_of started a ≡ stack_of s a
  started_stack a = ground arith

  started_context : load_context (started.procs s.current).rsp s.words ≡ log c
  started_context =
      ap (λ r. load_context r s.words)
        (started_rsp s.current ∙ ap (λ p. (s.procs p).rsp) ok.circular.chain.0)
      ∙ ok.waits.0.context

  started-IsIsolated :
      IsIsolated
        (stack_of s)
        (record {
          cpu = load_context (started.procs s.current).rsp s.words;
          sched = started;
          log = log;
          pic = idle;
        })
        c
        xs
  started-IsIsolated = record {
    ring = record {
      chain =
          Chain-same s.procs started.procs s.current (c ∷ xs) s.current started_next
            ok.circular.chain;
      not_null = ok.circular.not_null;
      distinct = ok.circular.distinct;
    };
    runs = subst (OnStack (stack_of s c)) (sym started_context) ok.waits.0.on_stack;
    waits =
        All-mono xs
          (λ x w.
            Waiting-kept (stack_of s) s started log log x (started_rsp x) refl (λ a lo hi. refl) w)
          ok.waits.1;
    apart = ok.apart;
    stack = started_stack;
    ready = refl;
  }

  pub start_scheduling-Starts : Starts s log c xs
  unfolding start_scheduling
  start_scheduling-Starts =
      let live : (s.current == 0) ≡ false =
        ground (arith, ok.circular.not_null.0, ok.circular.chain.0) in
      (
        load_context (started.procs s.current).rsp s.words,
        started,
        rw (live, start_scheduling) refl,
        started_context,
        started-IsIsolated,
      )
