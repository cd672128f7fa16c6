-- ===== src/Tests/Stubs.antt =====
-- Runs of kernel/interrupt_stub.asm, and its theorems at concrete inputs.
use issanium.Prelude.{ℕ, ◌+◌, ◌-◌, ◌≡◌, false, refl, arith, ◌==◌, if◌then◌else◌, [], ◌∷◌}
use issanium.Process.{Context, ProcessState, Scheduler, stack_size, load_context}
use issanium.Process.Ring.{IsRing}
use issanium.Stubs.{push_back, enter_gate, push_registers, isr_err, run_stub}
use issanium.Stubs.Faults.{Calls, passed, resumed, run_stub-Calls}
use issanium.Stubs.Isolation.{Machine, tick, done, more, interrupt, IsIsolated}
use issanium.Stubs.Lines.{Acknowledges, line_writes, line_writes-Acknowledges}
use issanium.Mouse.{initial}
use issanium.Prelude.Bits.{bit_at}
use issanium.Interrupts.{Devices, init_ports}
use issanium.Stubs.Resumes.{Reach-resumes}

abbrev interrupted : Context
interrupted = record {
  registers = 15 ∷ 14 ∷ 13 ∷ 12 ∷ 11 ∷ 10 ∷ 9 ∷ 8 ∷ 7 ∷ 6 ∷ 5 ∷ 4 ∷ 3 ∷ 2 ∷ 1 ∷ [];
  rip = 77;
  cs = 8;
  rflags = 0x202;
  rsp = 0x5008;
  ss = 16;
}

-- The page fault stub with error code 2: the handler is told 8, the value of r8.
run_stub-Calls_example :
    let called = run_stub 14 2 interrupted (λ _. 0) in
    Calls 14
      (passed 14 interrupted)
      (resumed 14 2 interrupted)
      interrupted
      (λ _. 0)
      called.words
      called
run_stub-Calls_example =
    run_stub-Calls 14 2 interrupted (λ _. 0) (run_stub 14 2 interrupted (λ _. 0)).words refl
      (omega arith) (λ a lo hi. refl)

told : (run_stub 14 2 interrupted (λ _. 0)).error_code ≡ 8
unfolding run_stub isr_err enter_gate push_registers push_back
told = refl

-- Two processes: 16 runs, and 32 waits on the stack at 0x20000.
abbrev saved_pointer : ℕ
saved_pointer = 0x20000 + stack_size - 160

abbrev pair : Scheduler
pair = record {
  current = 16;
  next_pid = 2;
  timer_ticks = 0;
  procs = λ a.
      if a == 16
      then record {
        rsp = 0;
        stack = 0x10000;
        cr3 = 0;
        pid = 0;
        state = ProcessState.running;
        next = 32;
      }
      else record {
        rsp = saved_pointer;
        stack = 0x20000;
        cr3 = 0;
        pid = 1;
        state = ProcessState.ready;
        next = 16;
      };
  words = λ a. if a == saved_pointer + 144 then 0x20000 + stack_size else 7;
}

abbrev two : Machine
two = record {
  cpu = record interrupted { rsp = 0x10000 + 2000 };
  sched = pair;
  log = λ _. load_context saved_pointer pair.words;
  pic = record { master = 1 ∷ []; slave = [] };
}

pair-IsRing : IsRing pair (16 ∷ 32 ∷ [])
pair-IsRing = record {
  chain = (refl, (refl, refl));
  not_null = omega arith;
  distinct = omega arith;
}

two-IsIsolated : IsIsolated (λ a. (pair.procs a).stack) two 16 (32 ∷ [])
two-IsIsolated = record {
  ring = pair-IsRing;
  runs = record { full = refl; room = omega arith; below = omega arith };
  waits = (
    record {
      low = omega arith;
      high = omega arith;
      context = refl;
      on_stack = record { full = refl; room = omega arith; below = omega arith };
    },
    tt,
  );
  apart = ((omega arith, tt), (tt, tt));
  stack = λ a. refl;
  ready = refl;
}

-- What the call of schedule leaves in its room.
abbrev junk : ℕ → ℕ
junk a = 99

abbrev ticked : Machine
ticked = tick junk two

Reach-resumes_example :
    ((tick junk ticked).sched.current ≡ (ticked.sched.procs ticked.sched.current).next)
    × ((tick junk ticked).cpu ≡ (tick junk ticked).log (tick junk ticked).sched.current)
    × ((tick junk ticked).pic ≡ ticked.pic)
Reach-resumes_example =
    Reach-resumes junk (λ a. (pair.procs a).stack) 16 (32 ∷ []) two-IsIsolated
      (more done (interrupt two junk))

abbrev calm : Devices
calm = record {
  timer_ticks = 0;
  keyboard = record { pressed = false; last_key = 0; last_scancode = 0 };
  mouse = initial;
}

-- The mouse interrupts the handler of a line of lower priority on either controller.
line_writes-Acknowledges_example :
    Acknowledges
      (record { master = 2 ∷ 7 ∷ []; slave = 4 ∷ 6 ∷ [] })
      (record { master = 7 ∷ []; slave = 6 ∷ [] })
      (line_writes junk interrupted pair 0 9 0 (λ _. 0) calm 12)
unfolding init_ports bit_at
line_writes-Acknowledges_example =
    line_writes-Acknowledges junk interrupted pair 0 9 0 (λ _. 0) calm 12
      (record { master = 7 ∷ []; slave = 6 ∷ [] }) (omega arith) refl (omega arith) refl
