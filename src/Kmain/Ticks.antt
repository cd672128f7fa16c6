-- ===== src/Kmain/Ticks.antt =====
-- kernel/main.cpp: what every tick of the timer resumes once kmain has started the first process.
use mathlib.Core.Path.{subst}
use mathlib.Core.Option
use issanium.Prelude.{ℕ, suc, ◌+◌, ◌^◌, ◌<◌, ◌≡◌, sym, ap, ◌∙◌, List, [], ◌∷◌, some}
use issanium.Pmm.{Pmm}
use issanium.Pmm.Init.{Entry}
use issanium.Vmm.{Vmm}
use issanium.Heap.{Heap}
use issanium.Framebuffer.{Screen}
use issanium.Writer.{Font}
use issanium.Process.{Context, Scheduler}
use issanium.Interrupts.{Stub}
use issanium.Kmain.{kmain, Board, Boot, Running}
use issanium.Kmain.Start.{behind, IsLaunch, kmain-IsStarted}
use issanium.Kmain.Processes.{to_next}
use issanium.Kmain.Ready.{beginnings}
use issanium.Stubs.Isolation.{Machine, Reach, tick}
use issanium.Stubs.Resumes.{Reach-resumes}
use issanium.Stubs.Start.{idle}

-- The processor, the scheduler and the interrupt controllers when kmain has started the first
-- process; nothing is in service, and `log` is what the processes begin with.
abbrev pub machine_of : {S : Type 0} → Running S → (ℕ → Context) → Machine
machine_of r log = record { cpu = r.cpu; sched = r.sched; log = log; pic = idle }

module _ {S : Type 0} (inb : ℕ → S → ℕ × S) (outb : ℕ → ℕ → S → S) (cs : ℕ) (address : Stub → ℕ)
    (table : ℕ) (bound : (isr : Stub) → address isr < 2 ^ 64) where
  -- On what the loader hands over (usable regions of whole pages that do not overlap, end below
  -- 2 ^ 46 and leave out page 0, one of them with room for the bitmap; a direct map of that size
  -- that does not wrap; a first table that is a page of it and not in usable memory; no bitmap
  -- and no count of free pages yet), of the revision that was asked for, with the heap's end at
  -- its base, 4098 pages free after PMM::init, a framebuffer of at most 4144736 bytes, a font of
  -- PSF2 and no process yet, and without a timer interrupt inside kmain: from the state in which
  -- kmain leaves the machine, whatever the processes compute on their own stacks, as long as
  -- each leaves 1200 bytes below its stack pointer, for the saved context and for the call of
  -- schedule, of which at most 1024 bytes are assumed, and however often the timer interrupts
  -- them, the next tick resumes the next process with exactly what it was last interrupted with,
  -- or with its beginning, and ends the timer's request.
  pub kmain-resumes :
      (walk fuel a b c : ℕ) (boot : Boot) (es : List Entry) (ram : ℕ → ℕ → ℕ) (fb : Screen)
      (others : List Screen) (font : Font) (board : Board S) (s : Scheduler) (log : ℕ → Context)
      (h : Heap (Vmm Pmm)) (r : Running S) (n : Machine) (below : ℕ → ℕ)
      → IsLaunch walk boot es ram fb others font s h
      → kmain inb outb cs address table walk (suc fuel) boot ram font a b c board s h ≡ some r
      → Reach (machine_of r (beginnings cs a b c (behind fb) log)) n
      → ((tick below n).sched.current ≡ (n.sched.procs n.sched.current).next)
        × ((tick below n).cpu ≡ (tick below n).log (tick below n).sched.current)
        × ((tick below n).pic ≡ n.pic)
  kmain-resumes walk fuel a b c boot es ram fb others font board s log h r n below l run reach =
      let (q, ran, drawn, started, ready) =
        kmain-IsStarted inb outb cs address table bound walk fuel a b c boot es ram fb others font
          board s log h l in
      let same : r ≡ q = ap (λ o. Option.get_or o r) (sym run ∙ ran) in
      Reach-resumes below _ (behind fb)
        ((behind fb + to_next + to_next) ∷ (behind fb + to_next) ∷ []) started.1
        (subst (λ t. Reach (machine_of t (beginnings cs a b c (behind fb) log)) n) same reach)
