-- ===== src/Process/Runner.antt =====
-- Exactly one process of the ring of kernel/process.cpp runs, and the others are ready.
use mathlib.Core.Path.{subst}
use mathlib.Core.Option
use issanium.Prelude.{ℕ, ◌+◌, ◌≡◌, ◌≢◌, refl, ap, sym, ◌∙◌, arith, List, [], ◌∷◌, ◌++◌, Option}
use issanium.Prelude.Word.{u32}
use issanium.Process.{
  Process, ProcessState, Scheduler, new_process, insert_after, link, schedule, set_up, push_all,
  frame, stack_size, start_scheduling, Context,
}
use issanium.Process.Frame.{link_lem}
use issanium.Process.Ring.{
  AllNe, AllReady, IsRing, HasRunner, schedule-IsRing, ring_switch, link-IsRing,
}

abbrev pub Runs : Scheduler → List ℕ → Type 0
Runs s [] = ⊥
Runs s (c ∷ xs) = HasRunner s c xs

-- A ring of which the current process runs and all others are ready.
pub record IsScheduled (s : Scheduler) (ring : List ℕ) : Type 0 where
  pub circular : IsRing s ring
  pub runner : Runs s ring

AllReady-same :
    (f g : ℕ → Process) (a b : ℕ) (xs : List ℕ)
    → ((x : ℕ) → a ≢ x → b ≢ x → (g x).state ≡ (f x).state)
    → AllNe a xs
    → AllNe b xs
    → AllReady f xs
    → AllReady g xs
AllReady-same f g a b [] same na nb h = tt
AllReady-same f g a b (x ∷ xs) same na nb h =
    (same x na.0 nb.0 ∙ h.0, AllReady-same f g a b xs same na.1 nb.1 h.1)

AllReady-snoc :
    (f : ℕ → Process) (c : ℕ) (xs : List ℕ)
    → (f c).state ≡ ProcessState.ready
    → AllReady f xs
    → AllReady f (xs ++ c ∷ [])
AllReady-snoc f c [] e h = (e, tt)
AllReady-snoc f c (x ∷ xs) e h = (h.0, AllReady-snoc f c xs e h.1)

module _ (rsp : ℕ) (s : Scheduler) (c : ℕ) where
  schedule-Runs :
      (xs : List ℕ) → IsRing s (c ∷ xs) → HasRunner s c xs → Runs (schedule rsp s).1 (xs ++ c ∷ [])
  schedule-Runs [] ring h =
      let sw = ring_switch rsp s c [] ring in
      record { running = ground (arith, sw.state c, ring.chain.0, ring.chain.1); ready = tt }
  schedule-Runs (y ∷ ys) ring h =
      let sw = ring_switch rsp s c (y ∷ ys) ring in
      record {
        running = ground (arith, sw.state y, ring.chain.0, ring.chain.1.0);
        ready =
            AllReady-snoc (schedule rsp s).1.procs c ys
              (ground (arith, sw.state c, ring.chain.0, ring.chain.1.0, ring.distinct.0.0))
              (AllReady-same s.procs (schedule rsp s).1.procs y c ys
                (λ x ny nc. ground (arith, sw.state x, ring.chain.0, ring.chain.1.0))
                ring.distinct.1.0 ring.distinct.0.1 h.ready.1);
      }

  -- A tick passes the processor to the next of the ring: that one runs, the others are ready.
  pub schedule-IsScheduled :
      (xs : List ℕ) → IsScheduled s (c ∷ xs) → IsScheduled (schedule rsp s).1 (xs ++ c ∷ [])
  schedule-IsScheduled xs v = record {
    circular = schedule-IsRing rsp s c xs v.circular;
    runner = schedule-Runs xs v.circular v.runner;
  }

insert_after-state :
    (proc x : ℕ) (p : Process) (s : Scheduler)
    → proc ≢ x
    → ((insert_after proc p s).procs x).state ≡ (s.procs x).state
unfolding insert_after
insert_after-state proc x p s ne = ground arith

link-insert_after :
    (proc : ℕ) (p : Process) (s : Scheduler) → s.current ≢ 0 → link proc p s ≡ insert_after proc p s
unfolding link
link-insert_after proc p s h = ground arith

AllReady-insert_after :
    (proc : ℕ) (p : Process) (s : Scheduler) (xs : List ℕ)
    → AllNe proc xs
    → AllReady s.procs xs
    → AllReady (insert_after proc p s).procs xs
AllReady-insert_after proc p s xs ne h =
    AllReady-same s.procs (insert_after proc p s).procs proc proc xs
      (λ x n _. insert_after-state proc x p s n) ne ne h

link-IsScheduled :
    (proc : ℕ) (p : Process) (s : Scheduler) (c : ℕ) (xs : List ℕ)
    → IsScheduled s (c ∷ xs)
    → proc ≢ 0
    → AllNe proc (c ∷ xs)
    → p.state ≡ ProcessState.ready
    → IsScheduled (link proc p s) (c ∷ proc ∷ xs)
link-IsScheduled proc p s c xs v pos ne ready = record {
  circular = link-IsRing proc p s pos c xs v.circular ne;
  runner =
      subst (λ t. HasRunner t c (proc ∷ xs)) (sym (link-insert_after proc p s live))
        (record {
          running = insert_after-state proc c p s ne.0 ∙ v.runner.running;
          ready = (state_here, AllReady-insert_after proc p s xs ne.1 v.runner.ready);
        });
}
  where
    live : s.current ≢ 0
    live e = v.circular.not_null.0 (sym e ∙ v.circular.chain.0)

    state_here : ((insert_after proc p s).procs proc).state ≡ ProcessState.ready
    state_here =
        ap (λ t. (t.procs proc).state) (sym (link-insert_after proc p s live))
        ∙ (link_lem proc p s (λ e. ne.0 (e ∙ v.circular.chain.0))).2
        ∙ ready

module _ (cs entry proc stack : ℕ) (s : Scheduler) (c : ℕ) (xs : List ℕ) where
  abbrev waiting : Scheduler
  waiting = record s {
    next_pid = u32 (s.next_pid + 1);
    words = (push_all (frame cs stack entry) (stack + stack_size) s.words).1;
  }

  abbrev created : Process
  created =
      new_process (push_all (frame cs stack entry) (stack + stack_size) s.words).0 stack s.next_pid

  -- `create_process` puts the new process behind the current one, ready and under the next
  -- process number, if the heap gives a structure that no process of the ring has.
  pub set_up-IsScheduled :
      IsScheduled s (c ∷ xs)
      → proc ≢ 0
      → AllNe proc (c ∷ xs)
      → IsScheduled (set_up cs entry proc stack s) (c ∷ proc ∷ xs)
        × (((set_up cs entry proc stack s).procs proc).pid ≡ s.next_pid)
  unfolding set_up
  set_up-IsScheduled v pos ne = (
    link-IsScheduled proc created waiting c xs
        (record {
          circular = record {
            chain = v.circular.chain;
            not_null = v.circular.not_null;
            distinct = v.circular.distinct;
          };
          runner = record { running = v.runner.running; ready = v.runner.ready };
        })
        pos ne refl,
    (link_lem proc created waiting (λ e. ne.0 (e ∙ v.circular.chain.0))).3,
  )

-- What `start_scheduling` resumes.
pub started_context : Scheduler → Option Context
started_context s = Option.map (λ r. r.0) (start_scheduling s)
