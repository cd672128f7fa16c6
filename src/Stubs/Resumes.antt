-- ===== src/Stubs/Resumes.antt =====
-- kernel/interrupt_stub.asm and kernel/process.cpp: every tick resumes the next process where it was
-- interrupted, whatever the others did.
use mathlib.Core.Path.{subst}
use issanium.Prelude.{
  ℕ, ◌+◌, ◌*◌, ◌/◌, ◌≤◌, ◌<◌, ◌≡◌, ◌⊎◌, ◌≢◌, ap, sym, ◌∙◌, arith, inl, inr, List, [], ◌∷◌, ◌++◌,
}
use issanium.Prelude.Memory.{write, write_self, write_ne}
use issanium.Prelude.Held.{All, Pairwise, All-mono, All-mono₂, All-snoc, Pairwise-snoc}
use issanium.Process.{Context, Scheduler, schedule, load_context}
use issanium.Process.Ring.{IsRing, Switches, schedule-IsRing, ring_switch}
use issanium.Stubs.{save_context, call_room, call_frames, stub_timer}
use issanium.Stubs.Saved.{
  IsSaved, context_words, save_context-IsSaved, saved-size, load_context-saved,
}
use issanium.Interrupts.Dispatch.{delivers, release-leads}
use issanium.Stubs.Isolation.{
  Machine, tick, OnStack, work, interrupt, Reach, done, more, Waiting, Apart, IsIsolated,
  Waiting-kept, work-IsIsolated, others_ne, current_stack, Apart-turn, All-pair,
}

module _ (below : ℕ → ℕ) (stacks : ℕ → ℕ) (m : Machine) (c : ℕ) (xs : List ℕ)
    (ok : IsIsolated stacks m c xs) where
  abbrev pushed_frame : ℕ × (ℕ → ℕ)
  pushed_frame = save_context m.cpu m.sched.words

  abbrev with_frame : Scheduler
  with_frame = record m.sched { words = call_frames below pushed_frame }

  abbrev after : Scheduler
  after = (schedule pushed_frame.0 with_frame).1

  abbrev noted : ℕ → Context
  noted = write m.log m.sched.current m.cpu

  with_frame-IsRing : IsRing with_frame (c ∷ xs)
  with_frame-IsRing = record {
    chain = ok.ring.chain;
    not_null = ok.ring.not_null;
    distinct = ok.ring.distinct;
  }

  turns : Switches pushed_frame.0 with_frame (schedule pushed_frame.0 with_frame)
  turns = ring_switch pushed_frame.0 with_frame c xs with_frame-IsRing

  frame-IsSaved : IsSaved (context_words m.cpu) (m.cpu.rsp / 16 * 16) m.sched.words pushed_frame
  frame-IsSaved =
      save_context-IsSaved m.cpu ok.runs.full m.sched.words (omega (arith, ok.runs.room))

  frame_end : pushed_frame.0 + 160 ≡ m.cpu.rsp / 16 * 16
  frame_end = saved-size m.cpu ok.runs.full _ m.sched.words pushed_frame frame-IsSaved

  -- The call of `schedule` leaves what lies outside its room.
  called-outside :
      (a : ℕ)
      → (a + call_room < pushed_frame.0) ⊎ (pushed_frame.0 ≤ a)
      → with_frame.words a ≡ pushed_frame.1 a
  unfolding call_frames
  called-outside a p = ground (arith, p)

  -- The frame and the call are written on the stack of the interrupted process only.
  other_waits :
      (x : ℕ)
      → c ≢ x
      → Apart stacks c x
      → Waiting stacks m.sched m.log x
      → Waiting stacks after noted x
  other_waits x ne beside w =
      let same : (after.procs x).rsp ≡ (m.sched.procs x).rsp =
        ground (arith, turns.saved x, ok.ring.chain.0, ne) in
      let kept : noted x ≡ m.log x = write_ne m.log m.cpu (λ e. ne (sym ok.ring.chain.0 ∙ e)) in
      Waiting-kept stacks m.sched after m.log noted x same kept
        (λ a lo hi.
          let far : (a + call_room < pushed_frame.0) ⊎ (m.cpu.rsp / 16 * 16 ≤ a) = elim beside [
            | inl p ↦ inr (omega (arith, p, lo, ok.runs.below))
            | inr p ↦ inl (omega (arith, p, hi, frame_end, ok.runs.room))
          ] in
          ap (λ k. k a) turns.words
          ∙ called-outside a (omega (arith, far, frame_end))
          ∙ frame-IsSaved.outside a (omega (arith, far, frame_end)))
        w

  self_waits : Waiting stacks after noted c
  self_waits =
      let here : (after.procs c).rsp ≡ pushed_frame.0 =
        ground (arith, turns.saved c, ok.ring.chain.0) in
      let own : noted c ≡ m.cpu =
        ap (λ p. write m.log p m.cpu c) ok.ring.chain.0 ∙ write_self m.log c m.cpu in
      record {
        low = omega (arith, here, frame_end, ok.runs.room);
        high = omega (arith, here, frame_end, ok.runs.below);
        context =
            ap (λ r. load_context r after.words) here
            ∙ load_context-saved m.cpu ok.runs.full _ m.sched.words pushed_frame frame-IsSaved
                after.words (λ a lo hi. ap (λ k. k a) turns.words ∙ called-outside a (inr lo))
            ∙ sym own;
        on_stack = subst (OnStack (stacks c)) (sym own) ok.runs;
      }

  All-waits : All (Waiting stacks after noted) (xs ++ c ∷ [])
  All-waits =
      All-snoc (Waiting stacks after noted) xs c
        (All-mono₂ xs (λ x r w. other_waits x r.0 r.1 w)
          (All-pair _ _ xs (others_ne stacks m c xs ok) ok.apart.0) ok.waits)
        self_waits

  all_apart : Pairwise (Apart stacks) (xs ++ c ∷ [])
  all_apart =
      Pairwise-snoc (Apart stacks) xs c ok.apart.1
        (All-mono xs (λ x p. Apart-turn stacks c x p) ok.apart.0)

  all_stacks : (a : ℕ) → (after.procs a).stack ≡ stacks a
  all_stacks a = turns.stacks a ∙ ok.stack a

  turned : IsRing after (xs ++ c ∷ [])
  turned = schedule-IsRing pushed_frame.0 with_frame c xs with_frame-IsRing

  tick_current : (tick below m).sched.current ≡ (m.sched.procs m.sched.current).next
  unfolding stub_timer
  tick_current = turns.current

  -- The tick's request is ended.
  tick_pic : (tick below m).pic ≡ m.pic
  unfolding stub_timer
  tick_pic = ap (λ ls. record m.pic { master = ls }) (release-leads 0 m.pic.master ok.ready)

  -- The head of the turned ring resumes.
  resumes :
      (y : ℕ) (ys : List ℕ)
      → IsRing after (y ∷ ys)
      → All (Waiting stacks after noted) (y ∷ ys)
      → Pairwise (Apart stacks) (y ∷ ys)
      → IsIsolated stacks (tick below m) y ys × ((tick below m).cpu ≡ noted y)
  unfolding stub_timer
  resumes y ys ring waits beside =
      let loaded : load_context (schedule pushed_frame.0 with_frame).0 after.words ≡ noted y =
        ap (λ r. load_context r after.words)
          (turns.returned ∙ ap (λ p. (after.procs p).rsp) ring.chain.0)
        ∙ waits.0.context in
      (
        record {
          ring = ring;
          runs = subst (OnStack (stacks y)) (sym loaded) waits.0.on_stack;
          waits = waits.1;
          apart = beside;
          stack = all_stacks;
          ready = ap (delivers 0) tick_pic ∙ ok.ready;
        },
        loaded,
      )

abbrev Resumes : (ℕ → ℕ) → (ℕ → ℕ) → Machine → ℕ → List ℕ → Type 0
Resumes below stacks m y ys =
    IsIsolated stacks (tick below m) y ys × ((tick below m).cpu ≡ (tick below m).log y)

tick-Resumes :
    (below stacks : ℕ → ℕ) (m : Machine) (c : ℕ) (xs : List ℕ)
    → IsIsolated stacks m c xs
    → (y : ℕ) × (ys : List ℕ) × Resumes below stacks m y ys
tick-Resumes below stacks m c [] ok = (
  c,
  [],
  resumes below stacks m c [] ok c [] (turned below stacks m c [] ok)
      (All-waits below stacks m c [] ok) (all_apart below stacks m c [] ok),
)
tick-Resumes below stacks m c (y ∷ ys) ok = (
  y,
  ys ++ c ∷ [],
  resumes below stacks m c (y ∷ ys) ok y (ys ++ c ∷ []) (turned below stacks m c (y ∷ ys) ok)
      (All-waits below stacks m c (y ∷ ys) ok) (all_apart below stacks m c (y ∷ ys) ok),
)

Reach-IsIsolated :
    {m n : Machine} (stacks : ℕ → ℕ) (c : ℕ) (xs : List ℕ)
    → IsIsolated stacks m c xs
    → Reach m n
    → (d : ℕ) × (ys : List ℕ) × IsIsolated stacks n d ys
Reach-IsIsolated stacks c xs ok done = (c, xs, ok)
Reach-IsIsolated stacks c xs ok (more r (work n d words on same)) =
    let (e, ys, held) = Reach-IsIsolated stacks c xs ok r in
    let here = current_stack stacks n e ys held in
    (
      e,
      ys,
      work-IsIsolated stacks n e ys held d words (subst (λ p. OnStack p d) here on)
          (λ a p. same a (rw here p)),
    )
Reach-IsIsolated stacks c xs ok (more r (interrupt n below)) =
    let (e, ys, held) = Reach-IsIsolated stacks c xs ok r in
    let (f, zs, next) = tick-Resumes below stacks n e ys held in (f, zs, next.0)

-- Whatever processes on stacks that do not meet computed, as long as each left 1200 bytes of its
-- own stack below its stack pointer, for the saved context and for the call of schedule, of which
-- at most 1024 bytes are assumed, and however often the timer interrupted them: with no timer
-- request in service at the start, the next tick passes to the next process of the ring and resumes
-- it with exactly the registers, flags, instruction and stack pointer that it was last interrupted
-- with; the stub has ended the timer's request, and no other.
pub Reach-resumes :
    {m n : Machine} (below stacks : ℕ → ℕ) (c : ℕ) (xs : List ℕ)
    → IsIsolated stacks m c xs
    → Reach m n
    → ((tick below n).sched.current ≡ (n.sched.procs n.sched.current).next)
      × ((tick below n).cpu ≡ (tick below n).log (tick below n).sched.current)
      × ((tick below n).pic ≡ n.pic)
Reach-resumes {n} below stacks c xs ok r =
    let (e, ys, held) = Reach-IsIsolated stacks c xs ok r in
    let (f, zs, next) = tick-Resumes below stacks n e ys held in
    (
      tick_current below stacks n e ys held,
      next.1 ∙ ap (tick below n).log (sym next.0.ring.chain.0),
      tick_pic below stacks n e ys held,
    )
