-- ===== src/Process/Ring.antt =====
-- The circular list of kernel/process.cpp: `create_process` and `schedule` keep it.
use issanium.Prelude.{
  ℕ, ◌+◌, ◌≡◌, ◌≢◌, refl, ap, sym, ◌∙◌, arith, ◌==◌, if◌then◌else◌, List, [], ◌∷◌, ◌++◌, true,
  false,
}
use mathlib.Core.Path.{subst}
use issanium.Prelude.Word.{u32}
use issanium.Prelude.Memory.{write, write_ne}
use issanium.Process.{
  Process, ProcessState, Scheduler, insert_after, link, save_current, enter, schedule,
}

-- From `p` the `next` pointers lead through `xs` to `stop`.
abbrev pub Chain : (ℕ → Process) → ℕ → List ℕ → ℕ → Type 0
Chain procs p [] stop = p ≡ stop
Chain procs p (x ∷ xs) stop = (p ≡ x) × Chain procs (procs x).next xs stop

abbrev pub AllNe : ℕ → List ℕ → Type 0
AllNe a [] = Unit
AllNe a (x ∷ xs) = (a ≢ x) × AllNe a xs

abbrev pub AllReady : (ℕ → Process) → List ℕ → Type 0
AllReady procs [] = Unit
AllReady procs (x ∷ xs) = ((procs x).state ≡ ProcessState.ready) × AllReady procs xs

abbrev pub Distinct : List ℕ → Type 0
Distinct [] = Unit
Distinct (x ∷ xs) = AllNe x xs × Distinct xs

-- From `current` the `next` pointers lead through the ring, of distinct structures, and back.
pub record IsRing (s : Scheduler) (ring : List ℕ) : Type 0 where
  pub chain : Chain s.procs s.current ring s.current
  pub not_null : AllNe 0 ring
  pub distinct : Distinct ring

-- The first of the ring is running, and the others are ready.
pub record HasRunner (s : Scheduler) (c : ℕ) (xs : List ℕ) : Type 0 where
  pub running : (s.procs c).state ≡ ProcessState.running
  pub ready : AllReady s.procs xs

pub Chain-same :
    (f g : ℕ → Process) (p : ℕ) (xs : List ℕ) (stop : ℕ)
    → ((a : ℕ) → (g a).next ≡ (f a).next)
    → Chain f p xs stop
    → Chain g p xs stop
Chain-same f g p [] stop same h = h
Chain-same f g p (x ∷ xs) stop same h =
    (h.0, rw (same x) (Chain-same f g (f x).next xs stop same h.1))

-- A write outside the chain leaves it.
Chain-write :
    (f : ℕ → Process) (a : ℕ) (r : Process) (p : ℕ) (xs : List ℕ) (stop : ℕ)
    → AllNe a xs
    → Chain f p xs stop
    → Chain (write f a r) p xs stop
Chain-write f a r p [] stop ne h = h
Chain-write f a r p (x ∷ xs) stop ne h =
    (h.0, rw (write_ne f r ne.0) (Chain-write f a r (f x).next xs stop ne.1 h.1))

Chain-snoc :
    (f : ℕ → Process) (p c : ℕ) (xs : List ℕ) → Chain f p xs c → Chain f p (xs ++ c ∷ []) (f c).next
Chain-snoc f p c [] h = (h, refl)
Chain-snoc f p c (x ∷ xs) h = (h.0, Chain-snoc f (f x).next c xs h.1)

pub AllNe-snoc : (a c : ℕ) (xs : List ℕ) → AllNe a xs → a ≢ c → AllNe a (xs ++ c ∷ [])
AllNe-snoc a c [] h ne = (ne, tt)
AllNe-snoc a c (x ∷ xs) h ne = (h.0, AllNe-snoc a c xs h.1 ne)

Distinct-snoc : (c : ℕ) (xs : List ℕ) → AllNe c xs → Distinct xs → Distinct (xs ++ c ∷ [])
Distinct-snoc c [] ne d = (tt, tt)
Distinct-snoc c (x ∷ xs) ne d =
    (AllNe-snoc x c xs d.0 (λ e. ne.0 (sym e)), Distinct-snoc c xs ne.1 d.1)

-- What a switch does to every structure: the old one keeps `rsp` and is ready, the new one runs.
pub record Switches (rsp : ℕ) (s : Scheduler) (r : ℕ × Scheduler) : Type 0 where
  pub current : r.1.current ≡ (s.procs s.current).next
  pub returned : r.0 ≡ (r.1.procs r.1.current).rsp
  pub next : (a : ℕ) → (r.1.procs a).next ≡ (s.procs a).next
  pub saved : (a : ℕ) → (r.1.procs a).rsp ≡ (if s.current == a then rsp else (s.procs a).rsp)
  pub state :
      (a : ℕ)
      → (r.1.procs a).state ≡ (
          if (s.procs s.current).next == a
          then ProcessState.running
          else if s.current == a
          then ProcessState.ready
          else (s.procs a).state)
  pub ticks : r.1.timer_ticks ≡ u32 (s.timer_ticks + 1)
  pub words : r.1.words ≡ s.words
  pub pids : (a : ℕ) → (r.1.procs a).pid ≡ (s.procs a).pid
  pub stacks : (a : ℕ) → (r.1.procs a).stack ≡ (s.procs a).stack

module _ (rsp : ℕ) (s : Scheduler) where
  abbrev ticked : Scheduler
  ticked = record s { timer_ticks = u32 (s.timer_ticks + 1) }

  abbrev saved : Scheduler
  saved = save_current rsp ticked

  saved_next : (saved.procs s.current).next ≡ (s.procs s.current).next
  unfolding save_current
  saved_next = ground arith

  entered-Switches :
      (n : ℕ)
      → n ≡ (s.procs s.current).next
      → Switches rsp s (((enter n saved).procs (enter n saved).current).rsp, enter n saved)
  unfolding save_current enter
  entered-Switches n e = record {
    current = e;
    returned = refl;
    next = λ a. ground arith;
    saved = λ a. ground arith;
    state = λ a. ground arith;
    ticks = refl;
    words = refl;
    pids = λ a. ground arith;
    stacks = λ a. ground arith;
  }

  current_saved : saved.current ≡ s.current
  unfolding save_current
  current_saved = refl

  -- A tick with a current process saves `rsp` there, passes to its successor and returns what
  -- was saved for that one; no other field of any process changes.
  pub schedule-Switches : s.current ≢ 0 → Switches rsp s (schedule rsp s)
  unfolding schedule
  schedule-Switches h =
      let live : (s.current == 0) ≡ false = ground arith in
      rw (live, schedule)
        (entered-Switches (saved.procs saved.current).next
          (ap (λ c. (saved.procs c).next) current_saved ∙ saved_next))

module _ (rsp : ℕ) (s : Scheduler) (c : ℕ) (xs : List ℕ) (ring : IsRing s (c ∷ xs)) where
  pub ring_switch : Switches rsp s (schedule rsp s)
  ring_switch = schedule-Switches rsp s (λ e. ring.not_null.0 (sym e ∙ ring.chain.0))

  successor : (schedule rsp s).1.current ≡ (s.procs c).next
  successor = ring_switch.current ∙ ap (λ p. (s.procs p).next) ring.chain.0

  turned : Chain s.procs (s.procs c).next (xs ++ c ∷ []) (s.procs c).next
  turned =
      Chain-snoc s.procs (s.procs c).next c xs
        (subst (λ p. Chain s.procs (s.procs c).next xs p) ring.chain.0 ring.chain.1)

  -- Each tick turns the ring by one.
  pub schedule-IsRing : IsRing (schedule rsp s).1 (xs ++ c ∷ [])
  schedule-IsRing = record {
    chain =
        subst (λ p. Chain (schedule rsp s).1.procs p (xs ++ c ∷ []) p) (sym successor)
          (Chain-same s.procs (schedule rsp s).1.procs (s.procs c).next (xs ++ c ∷ [])
            (s.procs c).next ring_switch.next turned);
    not_null = AllNe-snoc 0 c xs ring.not_null.1 ring.not_null.0;
    distinct = Distinct-snoc c xs ring.distinct.0 ring.distinct.1;
  }

-- The first of a ring is the current process.
head_of_ring : (s : Scheduler) (c : ℕ) (xs : List ℕ) → IsRing s (c ∷ xs) → s.current ≡ c
head_of_ring s c xs ring = ring.chain.0

module _ (proc : ℕ) (p : Process) (s : Scheduler) (not_zero : proc ≢ 0) where
  -- The first process is a ring of its own.
  pub link-alone : s.current ≡ 0 → IsRing (link proc p s) (proc ∷ [])
  unfolding link
  link-alone e =
      let empty : (s.current == 0) ≡ true = ground arith in
      rw (empty, link)
        (record {
          chain = (refl, ground arith);
          not_null = ((λ z. not_zero (sym z)), tt);
          distinct = (tt, tt);
        })

  module _ (c : ℕ) (xs : List ℕ) (ring : IsRing s (c ∷ xs)) (ne : AllNe proc (c ∷ xs)) where
    first_next : ((insert_after proc p s).procs c).next ≡ proc
    unfolding insert_after
    first_next = ground (arith, ring.chain.0)

    second_next : ((insert_after proc p s).procs proc).next ≡ (s.procs c).next
    unfolding insert_after
    second_next = ground (arith, ring.chain.0, ne.0)

    rest-Chain : Chain (insert_after proc p s).procs (s.procs c).next xs c
    unfolding insert_after
    rest-Chain =
        Chain-write _ s.current _ (s.procs c).next xs c
          (subst (λ q. AllNe q xs) (sym ring.chain.0) ring.distinct.0)
          (Chain-write s.procs proc _ (s.procs c).next xs c ne.1
            (subst (λ q. Chain s.procs (s.procs c).next xs q) ring.chain.0 ring.chain.1))

    same_current : (insert_after proc p s).current ≡ c
    unfolding insert_after
    same_current = ring.chain.0

    insert_after-IsRing : IsRing (insert_after proc p s) (c ∷ proc ∷ xs)
    insert_after-IsRing = record {
      chain =
          subst (λ q. Chain (insert_after proc p s).procs q (c ∷ proc ∷ xs) q) (sym same_current)
            (
              refl,
              (
                first_next,
                subst (λ q. Chain (insert_after proc p s).procs q xs c) (sym second_next)
                    rest-Chain,
              ),
            );
      not_null = (ring.not_null.0, ((λ z. not_zero (sym z)), ring.not_null.1));
      distinct = (((λ e. ne.0 (sym e)), ring.distinct.0), (ne.1, ring.distinct.1));
    }

    -- A later process stands behind the current one.
    pub link-IsRing : IsRing (link proc p s) (c ∷ proc ∷ xs)
    unfolding link
    link-IsRing =
        let live : (s.current == 0) ≡ false = ground (arith, ring.not_null.0, ring.chain.0) in
        rw (live, link) insert_after-IsRing
